-- ===== src/Domain/Identifiers.antt =====
-- src/edgar/domain/identifiers.py: CIKs, accessions, UUIDs, archive URLs and logical paths.
-- A `ValueError` carries the fixed words of its message. `validate_*` is only called with texts,
-- so the tests `isinstance(x, str)` are not modelled.
pub mod Cik
pub mod Accession
pub mod Paths
use Prim.Native.Char.{Char, code}
use edgar.Prelude.{
  ℕ, zero, suc, String, Bool, true, false, not, ◌&&◌, ◌||◌, List, [], ◌∷◌, Option, none, some,
  Result, ok, err, value_error, raise_if, ◌>>=◌, ◌>>◌, any, leb, nat_beq, ◌==◌, string_eq,
  if◌then◌else◌,
}
use edgar.Prelude.Text.{
  strip, is_empty, is_digit, str_length, all_chars, any_char, int_from, zero_padded,
}

-- `"/\\."`
abbrev is_path_char : ℕ → Bool
is_path_char c = nat_beq c b'/' || nat_beq c 92 || nat_beq c b'.'

abbrev starts_with_char : (ℕ → Bool) → String → Bool
starts_with_char p String.[] = false
starts_with_char p (String.◌∷◌ c s) = p (code c)

-- `CIK_DIGITS_RE.fullmatch`: one to ten decimal digits.
abbrev cik_digits_match : String → Bool
cik_digits_match s = leb 1 (str_length s) && leb (str_length s) 10 && all_chars is_digit s

unfoldable pub validate_cik : String → Result String
unfolding is_empty
validate_cik cik = do
  let cleaned = strip cik
  raise_if (not (cleaned == cik) || is_empty cleaned) (value_error "whitespace or empty")
  raise_if (any_char is_path_char cleaned) (value_error "path characters")
  raise_if (starts_with_char (λ c. nat_beq c b'+' || nat_beq c b'-') cleaned) (value_error "signed")
  raise_if (not (cik_digits_match cleaned)) (value_error "CIK must be 1-10 decimal digits")
  ok (zero_padded 10 (int_from 0 cleaned) "")

-- The text behind `n` decimal digits, if it begins with that many.
abbrev pub digits_prefix : ℕ → String → Option String
digits_prefix zero s = some s
digits_prefix (suc n) String.[] = none
digits_prefix (suc n) (String.◌∷◌ c s) =
    let rest = digits_prefix n s in if is_digit (code c) then rest else none

abbrev pub dash_prefix : String → Option String
dash_prefix String.[] = none
dash_prefix (String.◌∷◌ c s) = if nat_beq (code c) b'-' then some s else none

abbrev pub then_match : Option String → (String → Option String) → Option String
then_match none f = none
then_match (some s) f = f s

-- `ACCESSION_RE.fullmatch`
abbrev pub accession_match : String → Bool
accession_match s =
    elim (then_match (digits_prefix 10 s) λ s1. then_match (dash_prefix s1) λ s2.
      then_match (digits_prefix 2 s2) λ s3. then_match (dash_prefix s3) λ s4. digits_prefix 6 s4) [
        | none ↦ false
        | some rest ↦ rest == ""
      ]

unfoldable pub validate_accession : String → Result String
validate_accession accession = do
  let cleaned = strip accession
  raise_if (not (cleaned == accession)) (value_error "surrounding whitespace")
  raise_if (not (accession_match cleaned)) (value_error "accession must match")
  ok cleaned

-- `s.split("-", 1)[0]`
abbrev pub before_dash : String → String
before_dash String.[] = String.[]
before_dash (String.◌∷◌ c s) =
    let rest = before_dash s in if nat_beq (code c) b'-' then String.[] else String.◌∷◌ c rest

-- `s.replace("-", "")`
abbrev without_dashes : String → String
without_dashes String.[] = String.[]
without_dashes (String.◌∷◌ c s) =
    let rest = without_dashes s in if nat_beq (code c) b'-' then rest else String.◌∷◌ c rest

unfoldable pub accession_to_cik : String → Result String
accession_to_cik accession = do acc ← validate_accession accession; ok (before_dash acc)

unfoldable pub assert_cik_accession_consistent : String → String → Result (Unit {0})
assert_cik_accession_consistent cik accession = do
  cik_n ← validate_cik cik
  acc ← validate_accession accession
  raise_if (not (before_dash acc == cik_n)) (value_error "prefix does not match normalized CIK")

unfoldable pub cik_int : String → Result ℕ
cik_int cik = do normalized ← validate_cik cik; ok (int_from 0 normalized)

unfoldable pub accession_dashless : String → Result String
accession_dashless accession = do acc ← validate_accession accession; ok (without_dashes acc)

is_lower_hex : ℕ → Bool
is_lower_hex c = (leb b'0' c && leb c b'9') || (leb b'a' c && leb c b'f')

-- The code point at an index, and 0 behind the end.
abbrev code_at : ℕ → String → ℕ
code_at i String.[] = 0
code_at zero (String.◌∷◌ c s) = code c
code_at (suc i) (String.◌∷◌ c s) = code_at i s

-- `uuid.UUID(hex=name).version` is read from the thirteenth digit, and only when the two highest
-- bits of the seventeenth are `10`; 32 hex digits always make a UUID.
version_is_4 : String → Bool
version_is_4 name =
    nat_beq (code_at 12 name) b'4'
    && any (nat_beq (code_at 16 name)) (b'8' ∷ b'9' ∷ b'a' ∷ b'b' ∷ [])

unfoldable pub validate_uuid4_hex : String → Result String
unfolding is_lower_hex version_is_4
validate_uuid4_hex name = do
  raise_if (not (nat_beq (str_length name) 32) || not (all_chars is_lower_hex name))
      (value_error "uuid4 hex must be 32 lowercase hex chars")
  raise_if (not (version_is_4 name)) (value_error "uuid must be version 4")
  ok name

abbrev cons_first : Char → List String → List String
cons_first c [] = String.◌∷◌ c String.[] ∷ []
cons_first c (s ∷ ss) = String.◌∷◌ c s ∷ ss

-- `s.split("/")`
unfoldable pub split_slash : String → List String
split_slash String.[] = String.[] ∷ []
split_slash (String.◌∷◌ c s) =
    let rest = split_slash s in
    if nat_beq (code c) b'/' then String.[] ∷ rest else cons_first c rest

abbrev pub unsafe_part : String → Bool
unsafe_part p = p == "" || p == "." || p == ".."

unfoldable pub validate_logical_path : String → Result String
validate_logical_path logical_path = do
  raise_if (starts_with_char (λ c. nat_beq c b'/' || nat_beq c 92) logical_path)
      (value_error "absolute logical path rejected")
  raise_if (any unsafe_part (split_slash logical_path)) (value_error "unsafe logical path rejected")
  ok logical_path
