-- ===== src/Financials/Decimals.antt =====
-- src/edgar/financials/decimals.py: the intervals of duplicate facts, their consistency, and the
-- fact that is published for a group of duplicates.
pub mod Intervals
pub mod Survivor
pub mod Reduction
use Prim.Native.Char.{code}
use edgar.Prelude.{
  ℕ, zero, suc, ◌+◌, ◌*◌, String, Bool, true, false, not, ◌&&◌, ◌||◌, List, [], ◌∷◌, Option, none,
  some, Result, ok, err, value_error, ◌>>=◌, any, map, ltb, leb, nat_beq, if◌then◌else◌, sort_by,
  min_by,
}
use edgar.Prelude.Text.{strip, is_digit, digit_value}
use edgar.Prelude.Int.{ℤ, pos, negsuc, pos_part, neg_part, sub_ℕ, ltb_ℤ, int_beq}
use edgar.Prelude.Decimal.{
  Decimal, leb_decimal, eq_decimal, max_decimal, min_decimal, add_decimal, sub_decimal, half_unit,
}

pub record ClosedInterval : Type 0 where
  pub lo : Decimal
  pub hi : Decimal

abbrev pub intersects : ClosedInterval → ClosedInterval → Bool
intersects a b = leb_decimal a.lo b.hi && leb_decimal b.lo a.hi

-- `ClosedInterval.__add__`
abbrev pub add_interval : ClosedInterval → ClosedInterval → ClosedInterval
add_interval a b = record { lo = add_decimal a.lo b.lo; hi = add_decimal a.hi b.hi }

-- What `_parse_decimals` returns: None, "INF" or an integer.
pub data Precision : Type 0 where
  unstated infinite : Precision
  finite : ℤ → Precision

abbrev precision_beq : Precision → Precision → Bool
precision_beq unstated unstated = true
precision_beq infinite infinite = true
precision_beq (finite a) (finite b) = int_beq a b
precision_beq _ _ = false

abbrev negate : ℤ → ℤ
negate a = sub_ℕ (neg_part a) (pos_part a)

-- The digits of `int`, where single underscores may stand between digits. `may_skip` says that the
-- character before was a digit.
int_digits : Bool → ℕ → String → Option ℕ
int_digits may_skip acc String.[] = if may_skip then some acc else none
int_digits may_skip acc (String.◌∷◌ c s) =
    let digit = int_digits true (acc * 10 + digit_value (code c)) s in
    let skip = int_digits false acc s in
    if is_digit (code c) then digit else if nat_beq (code c) b'_' && may_skip then skip else none

int_of : Option ℕ → (ℕ → ℤ) → Result ℤ
int_of none f = err (value_error "invalid literal for int()")
int_of (some n) f = ok (f n)

-- `int(s)`, of the text without its surrounding white space.
parse_signed : String → Result ℤ
unfolding int_digits int_of
parse_signed String.[] = err (value_error "invalid literal for int()")
parse_signed (String.◌∷◌ c s) =
    if nat_beq (code c) b'-'
    then int_of (int_digits false 0 s) (λ n. negate (pos n))
    else if nat_beq (code c) b'+'
    then int_of (int_digits false 0 s) pos
    else int_of (int_digits false 0 (String.◌∷◌ c s)) pos

-- `s.upper() == "INF"`; the dotless i is the one other character whose upper case is one of these.
upper_is_inf : String → Bool
upper_is_inf (String.◌∷◌ a (String.◌∷◌ b (String.◌∷◌ c String.[]))) =
    (nat_beq (code a) b'I' || nat_beq (code a) b'i' || nat_beq (code a) 305)
    && (nat_beq (code b) b'N' || nat_beq (code b) b'n')
    && (nat_beq (code c) b'F' || nat_beq (code c) b'f')
upper_is_inf _ = false

unfoldable pub parse_decimals : Option String → Result Precision
unfolding upper_is_inf parse_signed
parse_decimals none = ok unstated
parse_decimals (some decimals) =
    if upper_is_inf decimals
    then ok infinite
    else (do n ← parse_signed (strip decimals); ok (finite n))

-- The tuple that `survivor_rank` returns, compared from the left.
pub record Rank : Type 0 where
  pub kind : ℕ
  pub fineness : ℤ
  pub fact_id : ℕ

abbrev pub leb_rank : Rank → Rank → Bool
leb_rank r s =
    ltb r.kind s.kind
    || (nat_beq r.kind s.kind
        && (ltb_ℤ r.fineness s.fineness
            || (int_beq r.fineness s.fineness && leb r.fact_id s.fact_id)))

-- `survivor_rank`, after `_parse_decimals`. Smaller is better.
abbrev pub rank_of : Precision → ℕ → Rank
rank_of infinite fact_id = record { kind = 0; fineness = pos 0; fact_id = fact_id }
rank_of unstated fact_id = record { kind = 2; fineness = pos 0; fact_id = fact_id }
rank_of (finite d) fact_id = record { kind = 1; fineness = negate d; fact_id = fact_id }

unfoldable pub survivor_rank : Option String → ℕ → Result Rank
survivor_rank decimals fact_id = do parsed ← parse_decimals decimals; ok (rank_of parsed fact_id)

-- `fact_interval`, after `_parse_decimals`.
abbrev pub interval_of : Decimal → Precision → ClosedInterval
interval_of value (finite d) = record {
  lo = sub_decimal value (half_unit d);
  hi = add_decimal value (half_unit d);
}
interval_of value _ = record { lo = value; hi = value }

unfoldable pub fact_interval : Decimal → Option String → Result ClosedInterval
fact_interval value decimals = do parsed ← parse_decimals decimals; ok (interval_of value parsed)

pub record NumericFactOccurrence : Type 0 where
  pub fact_id : ℕ
  pub value : Decimal
  pub decimals : Option String

pub record OimResolution : Type 0 where
  pub survivor_value : Decimal
  pub survivor_decimals : Option String
  pub survivor_fact_id : ℕ
  pub fact_ids : List ℕ
  pub consistent_interval : ClosedInterval

-- An occurrence with its parsed decimals. The list of intervals is built first and parses every
-- occurrence, so later calls of `_parse_decimals` return what they returned then.
pub record Occurrence : Type 0 where
  pub fact : NumericFactOccurrence
  pub precision : Precision

abbrev pub interval : Occurrence → ClosedInterval
interval o = interval_of o.fact.value o.precision

unfoldable pub parse_all : List NumericFactOccurrence → Result (List Occurrence)
parse_all [] = ok []
parse_all (f ∷ fs) = do
  parsed ← parse_decimals f.decimals
  rest ← parse_all fs
  ok ((record { fact = f; precision = parsed }) ∷ rest)

abbrev pub narrow : ClosedInterval → ClosedInterval → ClosedInterval
narrow a b = record { lo = max_decimal a.lo b.lo; hi = min_decimal a.hi b.hi }

-- The loop over `intervals[1:]`.
unfoldable pub intersection : ClosedInterval → List ClosedInterval → Option ClosedInterval
intersection i [] = some i
intersection i (x ∷ xs) =
    let rest = intersection (narrow i x) xs in if intersects i x then rest else none

-- Equal decimals and different values. The source skips a pair of one object with itself, whose
-- value does not differ.
abbrev pub clash : Occurrence → Occurrence → Bool
clash f other =
    precision_beq f.precision other.precision && not (eq_decimal f.fact.value other.fact.value)

abbrev pub before : Occurrence → Occurrence → Bool
before f g = leb_rank (rank_of f.precision f.fact.fact_id) (rank_of g.precision g.fact.fact_id)

resolution : Occurrence → List Occurrence → ClosedInterval → OimResolution
resolution s os i = record {
  survivor_value = s.fact.value;
  survivor_decimals = s.fact.decimals;
  survivor_fact_id = s.fact.fact_id;
  fact_ids = sort_by leb (map (λ (o : Occurrence). o.fact.fact_id) os);
  consistent_interval = i;
}

abbrev pub clashes : List Occurrence → Bool
clashes os = any (λ f. any (clash f) os) os

-- The result, from the common interval and the test for clashes.
conclude : Option ClosedInterval → Bool → Occurrence → List Occurrence → Option OimResolution
unfolding resolution
conclude none clashing s os = none
conclude (some i) true s os = none
conclude (some i) false s os = some (resolution s os i)

unfoldable pub reduce_parsed : List Occurrence → Option OimResolution
unfolding conclude
reduce_parsed [] = none
reduce_parsed (o ∷ os) =
    conclude (intersection (interval o) (map interval os)) (clashes (o ∷ os)) (min_by before o os)
      (o ∷ os)

unfoldable pub oim_reduce_group : List NumericFactOccurrence → Result (Option OimResolution)
oim_reduce_group facts = do parsed ← parse_all facts; ok (reduce_parsed parsed)
