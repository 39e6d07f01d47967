-- ===== src/Prelude/Text.antt =====
-- Python's `str`: white space, decimal digits, `strip`, and integers in decimal.
use Prim.Native.Char.{Char, code}
use Prim.Native.String.{String}
use edgar.Prelude.{
  ℕ, zero, suc, ◌+◌, ◌-◌, ◌*◌, ◌/◌, ◌%◌, ◌^◌, ◌≤◌, ◌<◌, ◌≡◌, refl, ap, ◌∙◌, Bool, true, false, ◌&&◌,
  ◌||◌, List, [], ◌∷◌, any, arith, ltb, leb, nat_beq, nat_beq_iff, inl, inr, Bool-cases,
  if◌then◌else◌,
}
use text.Mathlib.Text.{is_le}
use native.Mathlib.Nat.{pow-suc, pow-zero, mul-le-mul_right}

-- Python's `<=` on texts.
abbrev pub leb_string : String → String → Bool
leb_string a b = is_le (Prim.Native.String.compare a b)

-- `str.isspace` of one code point.
unfoldable pub is_space : ℕ → Bool
is_space c =
    (leb 9 c && leb c 13)
    || (leb 28 c && leb c 32)
    || nat_beq c 133
    || nat_beq c 160
    || nat_beq c 5760
    || (leb 8192 c && leb c 8202)
    || nat_beq c 8232
    || nat_beq c 8233
    || nat_beq c 8239
    || nat_beq c 8287
    || nat_beq c 12288

-- The zeros of the runs of ten decimal digits, Unicode's category Nd, which `\d` and `int` read.
abbrev other_digit_zeros : List ℕ
other_digit_zeros =
    0x660 ∷ 0x6F0 ∷ 0x7C0 ∷ 0x966 ∷ 0x9E6 ∷ 0xA66 ∷ 0xAE6 ∷ 0xB66 ∷ 0xBE6 ∷ 0xC66 ∷ 0xCE6 ∷ 0xD66
    ∷ 0xDE6 ∷ 0xE50 ∷ 0xED0 ∷ 0xF20 ∷ 0x1040 ∷ 0x1090 ∷ 0x17E0 ∷ 0x1810 ∷ 0x1946 ∷ 0x19D0 ∷ 0x1A80
    ∷ 0x1A90 ∷ 0x1B50 ∷ 0x1BB0 ∷ 0x1C40 ∷ 0x1C50 ∷ 0xA620 ∷ 0xA8D0 ∷ 0xA900 ∷ 0xA9D0 ∷ 0xA9F0
    ∷ 0xAA50 ∷ 0xABF0 ∷ 0xFF10 ∷ 0x104A0 ∷ 0x10D30 ∷ 0x11066 ∷ 0x110F0 ∷ 0x11136 ∷ 0x111D0 ∷ 0x112F0
    ∷ 0x11450 ∷ 0x114D0 ∷ 0x11650 ∷ 0x116C0 ∷ 0x11730 ∷ 0x118E0 ∷ 0x11950 ∷ 0x11C50 ∷ 0x11D50
    ∷ 0x11DA0 ∷ 0x11F50 ∷ 0x16A60 ∷ 0x16AC0 ∷ 0x16B50 ∷ 0x1D7CE ∷ 0x1D7D8 ∷ 0x1D7E2 ∷ 0x1D7EC
    ∷ 0x1D7F6 ∷ 0x1E140 ∷ 0x1E2F0 ∷ 0x1E4F0 ∷ 0x1E950 ∷ 0x1FBF0 ∷ []

abbrev digit_zeros : List ℕ
digit_zeros = 0x30 ∷ other_digit_zeros

in_run : ℕ → ℕ → Bool
in_run c z = leb z c && ltb c (z + 10)

digit_in : List ℕ → ℕ → ℕ
digit_in [] c = 0
digit_in (z ∷ zs) c = let rest = digit_in zs c in if in_run c z then c - z else rest

-- `\d`
unfoldable pub is_digit : ℕ → Bool
unfolding in_run
is_digit c = any (in_run c) digit_zeros

-- The value of a decimal digit, as `int` reads it.
unfoldable pub digit_value : ℕ → ℕ
unfolding digit_in in_run
digit_value c = digit_in digit_zeros c

digit_in-lt : (zs : List ℕ) (c : ℕ) → digit_in zs c < 10
unfolding digit_in in_run
digit_in-lt [] c = omega arith
digit_in-lt (z ∷ zs) c = ground (arith, digit_in-lt zs c)

pub digit_value-lt : (c : ℕ) → digit_value c < 10
unfolding digit_value
digit_value-lt c = digit_in-lt digit_zeros c

-- The character of a digit, as a format writes it.
abbrev pub digit_char : ℕ → Char
digit_char zero = "0"
digit_char (suc zero) = "1"
digit_char (suc (suc zero)) = "2"
digit_char (suc (suc (suc zero))) = "3"
digit_char (suc (suc (suc (suc zero)))) = "4"
digit_char (suc (suc (suc (suc (suc zero))))) = "5"
digit_char (suc (suc (suc (suc (suc (suc zero)))))) = "6"
digit_char (suc (suc (suc (suc (suc (suc (suc zero))))))) = "7"
digit_char (suc (suc (suc (suc (suc (suc (suc (suc zero)))))))) = "8"
digit_char _ = "9"

pub code-digit_char : (d : ℕ) → d < 10 → code (digit_char d) ≡ 48 + d
code-digit_char zero h = refl
code-digit_char (suc zero) h = refl
code-digit_char (suc (suc zero)) h = refl
code-digit_char (suc (suc (suc zero))) h = refl
code-digit_char (suc (suc (suc (suc zero)))) h = refl
code-digit_char (suc (suc (suc (suc (suc zero))))) h = refl
code-digit_char (suc (suc (suc (suc (suc (suc zero)))))) h = refl
code-digit_char (suc (suc (suc (suc (suc (suc (suc zero))))))) h = refl
code-digit_char (suc (suc (suc (suc (suc (suc (suc (suc zero)))))))) h = refl
code-digit_char (suc (suc (suc (suc (suc (suc (suc (suc (suc zero))))))))) h = refl
code-digit_char (suc (suc (suc (suc (suc (suc (suc (suc (suc (suc n)))))))))) h =
    absurd (omega arith)

digit_in-run : (c z : ℕ) (zs : List ℕ) → in_run c z ≡ true → digit_in (z ∷ zs) c ≡ c - z
unfolding digit_in
digit_in-run c z zs h = rw h

any-head : (p : ℕ → Bool) (z : ℕ) (zs : List ℕ) → p z ≡ true → any p (z ∷ zs) ≡ true
any-head p z zs h = rw h

in_run-ascii : (d : ℕ) → d < 10 → in_run (48 + d) 48 ≡ true
unfolding in_run
in_run-ascii d h = ground arith

pub digit_value-ascii : (d : ℕ) → d < 10 → digit_value (48 + d) ≡ d
unfolding digit_value
digit_value-ascii d h = digit_in-run (48 + d) 48 other_digit_zeros (in_run-ascii d h) ∙ omega arith

pub is_digit-ascii : (d : ℕ) → d < 10 → is_digit (48 + d) ≡ true
unfolding is_digit
is_digit-ascii d h = any-head (in_run (48 + d)) 48 other_digit_zeros (in_run-ascii d h)

unfoldable pub is_empty : String → Bool
is_empty String.[] = true
is_empty (String.◌∷◌ c s) = false

lstrip : String → String
lstrip String.[] = String.[]
lstrip (String.◌∷◌ c s) = let rest = lstrip s in if is_space (code c) then rest else String.◌∷◌ c s

-- A character is dropped from the end when it is white space and nothing is kept behind it.
rstrip : String → String
unfolding is_empty
rstrip String.[] = String.[]
rstrip (String.◌∷◌ c s) =
    let rest = rstrip s in
    if is_empty rest && is_space (code c) then String.[] else String.◌∷◌ c rest

-- `s.strip()`
unfoldable pub strip : String → String
unfolding lstrip rstrip is_space
strip s = rstrip (lstrip s)

abbrev pub str_length : String → ℕ
str_length String.[] = 0
str_length (String.◌∷◌ c s) = suc (str_length s)

-- Every character passes the test.
abbrev pub all_chars : (ℕ → Bool) → String → Bool
all_chars p String.[] = true
all_chars p (String.◌∷◌ c s) = p (code c) && all_chars p s

-- Some character passes the test.
abbrev pub any_char : (ℕ → Bool) → String → Bool
any_char p String.[] = false
any_char p (String.◌∷◌ c s) = p (code c) || any_char p s

-- `int(s)` of a text of decimal digits, after the digits whose value is `acc`.
unfoldable pub int_from : ℕ → String → ℕ
unfolding digit_value
int_from acc String.[] = acc
int_from acc (String.◌∷◌ c s) = int_from (acc * 10 + digit_value (code c)) s

-- The last `width` digits of `n`, before the text `rest`: `f"{n:0{width}d}"` when `n` has no more.
unfoldable pub zero_padded : ℕ → ℕ → String → String
zero_padded zero n rest = rest
zero_padded (suc width) n rest = zero_padded width (n / 10) (String.◌∷◌ (digit_char (n % 10)) rest)

-- One more digit on the left of a number of at most `v + 1` times `p`.
digit_bound : (acc v p : ℕ) → v < 10 → (acc * 10 + v + 1) * p ≤ (acc + 1) * (p * 10)
digit_bound acc v p h = omega (arith, mul-le-mul_right p (step acc v h))
  where
    step : (acc v : ℕ) → v < 10 → acc * 10 + v + 1 ≤ acc * 10 + 10
    step acc v h = omega arith

pub int_from-lt : (acc : ℕ) (s : String) → int_from acc s < (acc + 1) * 10 ^ str_length s
unfolding int_from
int_from-lt acc String.[] = rw (pow-zero 10) (omega arith)
int_from-lt acc (String.◌∷◌ c s) =
    let v = digit_value (code c) in
    rw (pow-suc 10 (str_length s)) (
      omega (
        arith,
        int_from-lt (acc * 10 + v) s,
        digit_bound acc v (10 ^ str_length s) (digit_value-lt (code c)),
      ))

digit_value_char : (d : ℕ) → d < 10 → digit_value (code (digit_char d)) ≡ d
digit_value_char d h = ap digit_value (code-digit_char d h) ∙ digit_value-ascii d h

int_from-digit_char :
    (acc d : ℕ) (rest : String)
    → d < 10
    → int_from acc (String.◌∷◌ (digit_char d) rest) ≡ int_from (acc * 10 + d) rest
unfolding int_from
int_from-digit_char acc d rest h = ap (λ v. int_from (acc * 10 + v) rest) (digit_value_char d h)

regroup_digits : (k n p q : ℕ) → q ≡ p * 10 → (k * p + n / 10) * 10 + n % 10 ≡ k * q + n
regroup_digits k n p q e = rw e (omega arith)

-- Reading the padded form gives the number back.
pub int_from-zero_padded :
    (width n k : ℕ) (rest : String)
    → n < 10 ^ width
    → int_from k (zero_padded width n rest) ≡ int_from (k * 10 ^ width + n) rest
unfolding zero_padded
int_from-zero_padded zero n k rest h = ap (λ m. int_from m rest) (omega arith)
int_from-zero_padded (suc width) n k rest h =
    int_from-zero_padded width (n / 10) k (String.◌∷◌ (digit_char (n % 10)) rest)
      (omega (arith, pow-suc 10 width))
    ∙ int_from-digit_char (k * 10 ^ width + n / 10) (n % 10) rest (omega arith)
    ∙ ap (λ m. int_from m rest)
        (regroup_digits k n (10 ^ width) (10 ^ suc width) (pow-suc 10 width))

pub str_length-zero_padded :
    (width n : ℕ) (rest : String) → str_length (zero_padded width n rest) ≡ width + str_length rest
unfolding zero_padded
str_length-zero_padded zero n rest = omega arith
str_length-zero_padded (suc width) n rest =
    str_length-zero_padded width (n / 10) (String.◌∷◌ (digit_char (n % 10)) rest) ∙ omega arith

-- A test that every decimal digit passes holds of the padded form.
pub all_chars-zero_padded :
    (p : ℕ → Bool)
    → ((d : ℕ) → d < 10 → p (48 + d) ≡ true)
    → (width n : ℕ) (rest : String) → all_chars p rest ≡ true
    → all_chars p (zero_padded width n rest) ≡ true
unfolding zero_padded
all_chars-zero_padded p good zero n rest h = h
all_chars-zero_padded p good (suc width) n rest h =
    all_chars-zero_padded p good width (n / 10) (String.◌∷◌ (digit_char (n % 10)) rest)
      (rw (code-digit_char (n % 10) (omega arith), good (n % 10) (omega arith)) h)

abbrev pub is_ascii_digit : ℕ → Bool
is_ascii_digit c = leb 48 c && leb c 57

pub all_chars-implies :
    (p q : ℕ → Bool)
    → ((c : ℕ) → p c ≡ true → q c ≡ true)
    → (s : String) → all_chars p s ≡ true
    → all_chars q s ≡ true
all_chars-implies p q f String.[] h = refl
all_chars-implies p q f (String.◌∷◌ c s) h = ground (arith, f (code c), all_chars-implies p q f s)

-- What one character excludes, a text of such characters excludes.
pub any_char-excluded :
    (p q : ℕ → Bool)
    → ((c : ℕ) → p c ≡ true → q c ≡ false)
    → (s : String) → all_chars p s ≡ true
    → any_char q s ≡ false
any_char-excluded p q f String.[] h = refl
any_char-excluded p q f (String.◌∷◌ c s) h = ground (arith, f (code c), any_char-excluded p q f s)

is_space-digit : (c : ℕ) → is_ascii_digit c ≡ true → is_space c ≡ false
unfolding is_space
is_space-digit c h = ground arith

lstrip-digits : (s : String) → all_chars is_ascii_digit s ≡ true → lstrip s ≡ s
unfolding lstrip
lstrip-digits String.[] h = refl
lstrip-digits (String.◌∷◌ c s) h = ground (arith, is_space-digit (code c))

rstrip-digits : (s : String) → all_chars is_ascii_digit s ≡ true → rstrip s ≡ s
unfolding rstrip
rstrip-digits String.[] h = refl
rstrip-digits (String.◌∷◌ c s) h = ground (arith, is_space-digit (code c), rstrip-digits s)

-- A text of digits has nothing to strip.
pub strip-digits : (s : String) → all_chars is_ascii_digit s ≡ true → strip s ≡ s
unfolding strip
strip-digits s h = ap rstrip (lstrip-digits s h) ∙ rstrip-digits s h

pub is_digit_of_ascii : (c : ℕ) → is_ascii_digit c ≡ true → is_digit c ≡ true
is_digit_of_ascii c h = from_offset (c - 48) (ground arith) (ground arith)
  where
    from_offset : (d : ℕ) → 48 + d ≡ c → d < 10 → is_digit c ≡ true
    from_offset d e l = rw (← e) (is_digit-ascii d l)

pub all_chars-is_ascii_digit :
    (width n : ℕ) → all_chars is_ascii_digit (zero_padded width n "") ≡ true
all_chars-is_ascii_digit width n =
    all_chars-zero_padded is_ascii_digit (λ d h. ground arith) width n "" refl

pub int_from-empty : (acc : ℕ) → int_from acc "" ≡ acc
unfolding int_from
int_from-empty acc = refl

lstrip-spaces : (s : String) → all_chars (λ c. nat_beq c 32) s ≡ true → lstrip s ≡ ""
unfolding lstrip is_space
lstrip-spaces String.[] h = refl
lstrip-spaces (String.◌∷◌ c s) h = elim (Bool-cases (nat_beq (code c) 32)) [
  | inl e ↦
      let space : is_space (code c) ≡ true = ap is_space ((nat_beq_iff (code c) 32).0 e) in
      rw space (lstrip-spaces s (rw e at h))
  | inr e ↦ absurd (cc (rw e at h))
]

-- A text of spaces is empty when it is stripped.
pub strip-spaces : (s : String) → all_chars (λ c. nat_beq c 32) s ≡ true → is_empty (strip s) ≡ true
unfolding strip rstrip is_empty
strip-spaces s h = ap (λ t. is_empty (rstrip t)) (lstrip-spaces s h)
