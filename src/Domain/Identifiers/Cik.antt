-- ===== src/Domain/Identifiers/Cik.antt =====
-- The normal form that `validate_cik` of src/edgar/domain/identifiers.py gives a CIK.
use native.Mathlib.Nat.{pow-le-pow_right}
use edgar.Prelude.{
  ℕ, ◌+◌, ◌*◌, ◌^◌, ◌≤◌, ◌<◌, String, ◌≡◌, refl, ap, ◌∙◌, ◌↔◌, true, false, ◌||◌, ok, arith,
  nat_beq, string_eq, beq→eq, beq_refl,
}
use edgar.Prelude.Text.{
  strip, is_digit, str_length, all_chars, int_from, zero_padded, int_from-lt, int_from-zero_padded,
  str_length-zero_padded, all_chars-implies, any_char-excluded, strip-digits, is_ascii_digit,
  is_digit_of_ascii, all_chars-is_ascii_digit, int_from-empty,
}
use edgar.Domain.Identifiers.{validate_cik, cik_digits_match, is_path_char, starts_with_char}

cik_inverts :
    (cik n : String)
    → validate_cik cik ≡ ok n
    → (cik_digits_match cik ≡ true) × (n ≡ zero_padded 10 (int_from 0 cik) "")
unfolding validate_cik
cik_inverts cik n h = ground (arith, beq→eq (strip cik) cik)

ascii_not_path : (c : ℕ) → is_ascii_digit c ≡ true → is_path_char c ≡ false
ascii_not_path c h = ground arith

ascii_not_signed :
    (s : String)
    → all_chars is_ascii_digit s ≡ true
    → starts_with_char (λ c. nat_beq c b'+' || nat_beq c b'-') s ≡ false
ascii_not_signed String.[] h = refl
ascii_not_signed (String.◌∷◌ c s) h = ground arith

-- Ten ASCII digits are their own normal form.
pub validate_cik-ten_digits :
    (s : String)
    → str_length s ≡ 10
    → all_chars is_ascii_digit s ≡ true
    → validate_cik s ≡ ok (zero_padded 10 (int_from 0 s) "")
unfolding validate_cik
validate_cik-ten_digits String.[] l h = absurd (omega arith)
validate_cik-ten_digits (String.◌∷◌ c s) l h =
    let t = String.◌∷◌ c s in
    rw (
      strip-digits t h,
      beq_refl t,
      any_char-excluded is_ascii_digit is_path_char ascii_not_path t h,
      ascii_not_signed t h,
      l,
      all_chars-implies is_ascii_digit is_digit is_digit_of_ascii t h,
    )

cik-lt : (cik : String) → cik_digits_match cik ≡ true → int_from 0 cik < 10 ^ 10
cik-lt cik h =
    let l : str_length cik ≤ 10 = ground arith in
    let ten_pos : 0 < 10 = omega arith in
    omega (arith, int_from-lt 0 cik, pow-le-pow_right ten_pos l)

-- The normal form of a CIK is ten ASCII digits, is accepted unchanged, and has the number that the
-- given text has.
pub validate_cik-normal :
    (cik n : String)
    → validate_cik cik ≡ ok n
    → (str_length n ≡ 10)
      × (all_chars is_ascii_digit n ≡ true)
      × (int_from 0 n ≡ int_from 0 cik)
      × (validate_cik n ≡ ok n)
validate_cik-normal cik n h =
    let (m, e) = cik_inverts cik n h in
    let k = int_from 0 cik in
    let p = zero_padded 10 k "" in
    let l : str_length p ≡ 10 = str_length-zero_padded 10 k "" in
    let v : int_from 0 p ≡ k =
      int_from-zero_padded 10 k 0 "" (cik-lt cik m)
      ∙ (int_from-empty (0 * 10 ^ 10 + k) ∙ omega arith) in
    let a = all_chars-is_ascii_digit 10 k in
    rw e (l, a, v, validate_cik-ten_digits p l a ∙ ap (λ j. ok (zero_padded 10 j "")) v)

-- Two accepted CIKs have the same normal form exactly when they are the same number.
pub validate_cik-canonical :
    (a b x y : String)
    → validate_cik a ≡ ok x
    → validate_cik b ≡ ok y
    → (x ≡ y) ↔ (int_from 0 a ≡ int_from 0 b)
validate_cik-canonical a b x y h k = (
  λ e. cc (e, (validate_cik-normal a x h).2, (validate_cik-normal b y k).2),
  λ e. cc (e, (cik_inverts a x h).1, (cik_inverts b y k).1),
)
