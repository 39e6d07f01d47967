-- ===== src/Xbrl/Locators/Fuel.antt =====
-- src/edgar/xbrl/locators.py: parse_expanded_path ends on each text.
use Prim.Native.Char.{Char, code}
use edgar.Prelude.{
  ℕ, zero, suc, ◌≤◌, ◌≡◌, refl, sym, ap, arith, Bool, true, false, not, ◌||◌, Option, none, some,
  String, Result, ok, err, Error, raise_if, >>=-eq-ok, ok_injective, value_error, ◌>>=◌, Bool-cases,
  inl, inr, nat_beq,
}
use edgar.Prelude.Int.{pos, ltb_ℤ}
use edgar.Prelude.Text.{is_empty, any_char, str_length}
use edgar.Xbrl.Locators.{
  Segment, append, behind, partition, through, tail, starts_with_brace, starts_with_slash,
  is_breaker, is_brace, check_local, split_closed, split_open, split_clark, is_none, int_of, found,
  namespace_part, parse_segment, parse_segments, parse_expanded_path,
}
use edgar.Xbrl.Locators.Scan.{found_some}

-- `LocatorError` is a `ValueError`.
abbrev pub IsLocatorError : Error → Type 0
IsLocatorError (value_error message) = Unit
IsLocatorError _ = ⊥

-- A result that is a value or a `LocatorError`.
abbrev pub Ends {ℓ} : {A : Type ℓ} → Result A → Type 0
Ends (ok a) = Unit
Ends (err e) = IsLocatorError e

Ends->>= :
    {A B : Type 0} (r : Result A) (next : A → Result B)
    → Ends r
    → ((a : A) → r ≡ ok a → Ends (next a))
    → Ends (r >>= next)
Ends->>= (ok a) next h f = f a refl
Ends->>= (err e) next h f = h

found-Ends : {A : Type 0} (o : Option A) (message : String) → Ends (found o message)
found-Ends none message = tt
found-Ends (some a) message = tt

raise_if-Ends : (b : Bool) (message : String) → Ends (raise_if b (value_error message))
raise_if-Ends true message = tt
raise_if-Ends false message = tt

split_closed-Ends : (found : Option (String × String)) → Ends (split_closed found)
split_closed-Ends none = tt
split_closed-Ends (some (namespace, local)) =
    Ends->>= (raise_if (is_empty namespace || any_char is_brace namespace) _) _
      (raise_if-Ends (is_empty namespace || any_char is_brace namespace) _)
      (λ _ _.
        Ends->>= (check_local local) _
          (raise_if-Ends (is_empty local || any_char is_breaker local) _) (λ _ _. tt))

split_open-Ends : (name : String) → Ends (split_open name)
split_open-Ends name =
    Ends->>= (check_local name) _ (raise_if-Ends (is_empty name || any_char is_breaker name) _)
      (λ _ _. tt)

split_clark-Ends : (name : String) → Ends (split_clark name)
unfolding split_clark
split_clark-Ends name = elim (Bool-cases (starts_with_brace name)) [
  | inl e ↦ rw e (split_closed-Ends (partition 125 (tail name)))
  | inr e ↦ rw e (split_open-Ends name)
]

namespace_part-Ends : (text : String) → Ends (namespace_part text)
namespace_part-Ends text = elim (Bool-cases (starts_with_brace text)) [
  | inl e ↦ rw e (found-Ends (through 125 text) "unterminated namespace in expanded path")
  | inr e ↦ rw e tt
]

parse_segment-Ends : (text : String) → Ends (parse_segment text)
unfolding parse_segment
parse_segment-Ends text = Ends->>= (namespace_part text) _ (namespace_part-Ends text) (λ n _.
    Ends->>= (found (partition 91 n.1) _) _ (found-Ends (partition 91 n.1) _) (λ l _.
      Ends->>= (found (partition 93 l.1) _) _ (found-Ends (partition 93 l.1) _) (λ d _.
        Ends->>= (split_clark (append n.0 l.0)) _ (split_clark-Ends (append n.0 l.0)) (λ _ _.
          Ends->>= (found (int_of d.0) _) _ (found-Ends (int_of d.0) _) (λ k _.
            Ends->>= (raise_if (ltb_ℤ k (pos 1)) _) _ (raise_if-Ends (ltb_ℤ k (pos 1)) _)
              (λ _ _. tt))))))

abbrev after_or : String → Option (String × String) → String
after_or default none = default
after_or default (some p) = p.1

-- What a search leaves is no longer than the text.
behind_shorter :
    (c : Char) (found : Option (String × String)) (n : ℕ) (a b : String)
    → ((x y : String) → found ≡ some (x, y) → str_length y ≤ n)
    → behind c found ≡ some (a, b)
    → str_length b ≤ n
behind_shorter c none n a b f h = absurd (cc h)
behind_shorter c (some (x, y)) n a b f h =
    let same : y ≡ b = ap (after_or b) h in let short = f x y refl in rw (sym same) short

partition_shorter :
    (k : ℕ) (s a b : String) → partition k s ≡ some (a, b) → str_length b ≤ str_length s
unfolding partition
partition_shorter k String.[] a b h = absurd (cc h)
partition_shorter k (String.◌∷◌ c s) a b h = elim (Bool-cases (nat_beq (code c) k)) [
  | inl e ↦ let same : s ≡ b = ap (after_or b) (rw e at h) in rw (sym same) (omega arith)
  | inr e ↦
      let r =
        behind_shorter c (partition k s) (str_length s) a b (λ x y g. partition_shorter k s x y g)
          (rw e at h) in
      omega (arith, r)
]

through_shorter : (k : ℕ) (s a b : String) → through k s ≡ some (a, b) → str_length b ≤ str_length s
unfolding through
through_shorter k String.[] a b h = absurd (cc h)
through_shorter k (String.◌∷◌ c s) a b h = elim (Bool-cases (nat_beq (code c) k)) [
  | inl e ↦ let same : s ≡ b = ap (after_or b) (rw e at h) in rw (sym same) (omega arith)
  | inr e ↦
      let r =
        behind_shorter c (through k s) (str_length s) a b (λ x y g. through_shorter k s x y g)
          (rw e at h) in
      omega (arith, r)
]

namespace_part_shorter :
    (text : String) (n : String × String)
    → namespace_part text ≡ ok n
    → str_length n.1 ≤ str_length text
namespace_part_shorter text n h = elim (Bool-cases (starts_with_brace text)) [
  | inl e ↦
      through_shorter 125 text n.0 n.1
        (found_some (through 125 text) "unterminated namespace in expanded path" n (rw e at h))
  | inr e ↦
      let same : text ≡ n.1 = ap (λ (p : String × String). p.1) (ok_injective (rw e at h)) in
      rw (sym same) (omega arith)
]

parse_segment_shorter :
    (text rest : String) (segment : Segment)
    → parse_segment text ≡ ok (segment, rest)
    → str_length rest ≤ str_length text
unfolding parse_segment
parse_segment_shorter text rest segment h =
    let (n, part, h1) = >>=-eq-ok (namespace_part text) _ h in
    let (l, local, h2) =
      >>=-eq-ok (found (partition 91 n.1) "missing ordinal in expanded path") _ h1 in
    let (d, digits, h3) =
      >>=-eq-ok (found (partition 93 l.1) "unterminated ordinal in expanded path") _ h2 in
    let (_, _, h4) = >>=-eq-ok (split_clark (append n.0 l.0)) _ h3 in
    let (k, _, h5) = >>=-eq-ok (found (int_of d.0) "non-integer ordinal in expanded path") _ h4 in
    let (_, _, h6) = >>=-eq-ok (raise_if (ltb_ℤ k (pos 1)) _) _ h5 in
    let same : d.1 ≡ rest = ap (λ (p : Segment × String). p.1) (ok_injective h6) in
    let first = namespace_part_shorter text n part in
    let second =
      partition_shorter 91 n.1 l.0 l.1
        (found_some (partition 91 n.1) "missing ordinal in expanded path" l local) in
    let third =
      partition_shorter 93 l.1 d.0 d.1
        (found_some (partition 93 l.1) "unterminated ordinal in expanded path" d digits) in
    rw (sym same) (omega (arith, first, second, third))

parse_segments-Ends :
    (fuel : ℕ) (text : String) → str_length text ≤ fuel → Ends (parse_segments fuel text)
unfolding parse_segments
parse_segments-Ends zero String.[] h = tt
parse_segments-Ends (suc fuel) String.[] h = tt
parse_segments-Ends zero (String.◌∷◌ c s) h = absurd (omega arith)
parse_segments-Ends (suc fuel) (String.◌∷◌ c s) h =
    Ends->>= (raise_if (not (nat_beq (code c) b'/')) _) _
      (raise_if-Ends (not (nat_beq (code c) b'/')) _)
      (λ _ _. Ends->>= (parse_segment s) _ (parse_segment-Ends s) (λ p e.
        let shorter = parse_segment_shorter s p.1 p.0 e in
        Ends->>= (parse_segments fuel p.1) _
          (parse_segments-Ends fuel p.1 (omega (arith, shorter, h))) (λ _ _. tt)))

-- On each text parse_expanded_path returns a path or raises a LocatorError: the fuel of its loop, the
-- length of the text, is enough.
pub parse_expanded_path-Ends : (value : String) → Ends (parse_expanded_path value)
unfolding parse_expanded_path
parse_expanded_path-Ends value =
    Ends->>= (raise_if (not (starts_with_slash value)) _) _
      (raise_if-Ends (not (starts_with_slash value)) _)
      (λ _ _.
        Ends->>= (parse_segments (str_length value) value) _
          (parse_segments-Ends (str_length value) value (omega arith))
          (λ segments _.
            Ends->>= (raise_if (is_none segments) _) _ (raise_if-Ends (is_none segments) _)
              (λ _ _. tt)))
