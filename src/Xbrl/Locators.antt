-- ===== src/Xbrl/Locators.antt =====
-- src/edgar/xbrl/locators.py: element paths as texts, written and read. Where the source keeps an
-- offset into the text, the functions here take what is left of it.
pub mod Scan
pub mod Readback
pub mod Fuel
pub mod Elements
pub mod Positions
pub mod Unique
pub mod Identity
pub mod Scenarios
use Prim.Native.Char.{Char, code}
use edgar.Prelude.{
  ℕ, zero, suc, ◌+◌, ◌*◌, ◌/◌, ◌≡◌, Bool, true, false, not, ◌&&◌, ◌||◌, List, [], ◌∷◌, Option, none,
  some, String, Result, ok, err, raise_if, value_error, runtime_error, ◌>>=◌, ◌>>◌, any, ltb,
  nat_beq, if◌then◌else◌,
}
use edgar.Prelude.Int.{ℤ, pos, negsuc, ltb_ℤ}
use edgar.Prelude.Text.{is_empty, any_char, is_digit, digit_value, strip, str_length, zero_padded}

-- A Clark name and an ordinal.
abbrev pub Segment : Type 0
Segment = String × ℤ

abbrev pub append : String → String → String
append String.[] t = t
append (String.◌∷◌ c s) t = String.◌∷◌ c (append s t)

abbrev pub behind : Char → Option (String × String) → Option (String × String)
behind c none = none
behind c (some (before, after)) = some (String.◌∷◌ c before, after)

-- The text before the first character with the code, and the text after it.
unfoldable pub partition : ℕ → String → Option (String × String)
partition k String.[] = none
partition k (String.◌∷◌ c s) =
    let rest = partition k s in if nat_beq (code c) k then some (String.[], s) else behind c rest

-- The text up to that character, and the text after it.
unfoldable pub through : ℕ → String → Option (String × String)
through k String.[] = none
through k (String.◌∷◌ c s) =
    let rest = through k s in
    if nat_beq (code c) k then some (String.◌∷◌ c String.[], s) else behind c rest

abbrev pub starts_with_brace : String → Bool
starts_with_brace String.[] = false
starts_with_brace (String.◌∷◌ c s) = nat_beq (code c) 123

abbrev pub tail : String → String
tail String.[] = String.[]
tail (String.◌∷◌ c s) = s

-- `"/[]{}"`
abbrev pub is_breaker : ℕ → Bool
is_breaker c = any (nat_beq c) (47 ∷ 91 ∷ 93 ∷ 123 ∷ 125 ∷ [])

abbrev pub is_brace : ℕ → Bool
is_brace c = nat_beq c 123 || nat_beq c 125

abbrev pub check_local : String → Result (Unit {0})
check_local local =
    raise_if (is_empty local || any_char is_breaker local)
      (value_error "element name is not serializable in a locator")

-- Behind the brace: the namespace, `}` and the local name.
abbrev pub split_closed : Option (String × String) → Result (Option String × String)
split_closed none = err (value_error "malformed Clark element name")
split_closed (some (namespace, local)) = do
  raise_if (is_empty namespace || any_char is_brace namespace)
      (value_error "malformed Clark element name")
  check_local local
  ok (some namespace, local)

abbrev pub split_open : String → Result (Option String × String)
split_open name = do check_local name; ok (none, name)

unfoldable pub split_clark : String → Result (Option String × String)
split_clark name =
    if starts_with_brace name then split_closed (partition 125 (tail name)) else split_open name

-- `str(n)`: its digits, without a leading zero. The first argument is fuel; n itself is enough.
unfoldable pub width : ℕ → ℕ → ℕ
width zero n = 1
width (suc fuel) n = let more = width fuel (n / 10) in if ltb n 10 then 1 else suc more

abbrev pub decimal_text : ℕ → String
decimal_text n = zero_padded (width n n) n ""

abbrev pub ordinal_text : ℤ → String
ordinal_text (pos n) = decimal_text n
ordinal_text (negsuc n) = String.◌∷◌ "-" (decimal_text (suc n))

-- `f"/{name}[{ordinal}]"`: the slash stands here with the part that follows it.
abbrev pub part_text : Segment → String → String
part_text (name, ordinal) rest =
    String.◌∷◌ "/"
      (append name (String.◌∷◌ "[" (append (ordinal_text ordinal) (String.◌∷◌ "]" rest))))

unfoldable pub format_parts : List Segment → Result String
format_parts [] = ok ""
format_parts ((name, ordinal) ∷ segments) = do
  raise_if (ltb_ℤ ordinal (pos 1)) (value_error "invalid path segment")
  split_clark name
  rest ← format_parts segments
  ok (part_text (name, ordinal) rest)

abbrev pub is_none : List Segment → Bool
is_none [] = true
is_none (_ ∷ _) = false

unfoldable pub format_expanded_path : List Segment → Result String
format_expanded_path segments = do
  raise_if (is_none segments) (value_error "expanded path must have at least one segment")
  format_parts segments

-- `int(text)`: white space around an optional sign and decimal digits, between which single
-- underscores may stand. The flag says that the last character was a digit.
unfoldable pub digits_of : ℕ → Bool → String → Option ℕ
digits_of value after_digit String.[] = if after_digit then some value else none
digits_of value after_digit (String.◌∷◌ c s) =
    let next = digits_of (value * 10 + digit_value (code c)) true s in
    let skipped = digits_of value false s in
    if is_digit (code c)
    then next
    else if nat_beq (code c) b'_' && after_digit
    then skipped
    else none

abbrev negated : Option ℕ → Option ℤ
negated none = none
negated (some zero) = some (pos 0)
negated (some (suc n)) = some (negsuc n)

abbrev pub positive : Option ℕ → Option ℤ
positive none = none
positive (some n) = some (pos n)

abbrev pub signed : String → Option ℤ
signed String.[] = none
signed (String.◌∷◌ c s) =
    if nat_beq (code c) b'-'
    then negated (digits_of 0 false s)
    else if nat_beq (code c) b'+'
    then positive (digits_of 0 false s)
    else positive (digits_of 0 false (String.◌∷◌ c s))

unfoldable pub int_of : String → Option ℤ
int_of text = signed (strip text)

abbrev pub found {ℓ} : {A : Type ℓ} → Option A → String → Result A
found none message = err (value_error message)
found (some a) message = ok a

-- `{namespace}`, if the text starts with a brace, and what follows.
abbrev pub namespace_part : String → Result (String × String)
namespace_part text =
    if starts_with_brace text
    then found (through 125 text) "unterminated namespace in expanded path"
    else ok ("", text)

-- The body of the loop behind the slash: a segment and what is left.
unfoldable pub parse_segment : String → Result (Segment × String)
parse_segment text = do
  (namespace, rest) ← namespace_part text
  (local, rest) ← found (partition 91 rest) "missing ordinal in expanded path"
  (digits, rest) ← found (partition 93 rest) "unterminated ordinal in expanded path"
  split_clark (append namespace local)
  ordinal ← found (int_of digits) "non-integer ordinal in expanded path"
  raise_if (ltb_ℤ ordinal (pos 1)) (value_error "ordinal must be 1-based")
  ok ((append namespace local, ordinal), rest)

abbrev pub out_of_fuel : String
out_of_fuel = "out of fuel"

-- The loop. Each turn consumes at least the slash, so that the length of the text is enough fuel.
unfoldable pub parse_segments : ℕ → String → Result (List Segment)
parse_segments fuel String.[] = ok []
parse_segments zero (String.◌∷◌ c s) = err (runtime_error out_of_fuel)
parse_segments (suc fuel) (String.◌∷◌ c s) = do
  raise_if (not (nat_beq (code c) b'/')) (value_error "malformed expanded path")
  (segment, rest) ← parse_segment s
  segments ← parse_segments fuel rest
  ok (segment ∷ segments)

abbrev pub starts_with_slash : String → Bool
starts_with_slash String.[] = false
starts_with_slash (String.◌∷◌ c s) = nat_beq (code c) b'/'

unfoldable pub parse_expanded_path : String → Result (List Segment)
parse_expanded_path value = do
  raise_if (not (starts_with_slash value)) (value_error "expanded path must start with '/'")
  segments ← parse_segments (str_length value) value
  raise_if (is_none segments) (value_error "expanded path has no segments")
  ok segments
