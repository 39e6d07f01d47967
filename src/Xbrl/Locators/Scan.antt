-- ===== src/Xbrl/Locators/Scan.antt =====
-- src/edgar/xbrl/locators.py: what the searches in a text find, and the texts of ordinals.
use Prim.Native.Char.{Char, code}
use edgar.Prelude.{
  ok, ok_injective, ℕ, zero, suc, ◌+◌, ◌*◌, ◌/◌, ◌^◌, ◌≤◌, ◌<◌, ◌≡◌, refl, sym, ap, ◌∙◌, arith,
  true, false, Option, none, some, String, Bool-cases, inl, inr, ltb, nat_beq,
}
use native.Mathlib.Nat.{pow-suc}
use edgar.Prelude.Int.{pos}
use edgar.Prelude.Text.{
  is_empty, any_char, all_chars, digit_value, is_ascii_digit, is_digit_of_ascii, strip-digits,
  str_length, str_length-zero_padded, all_chars-is_ascii_digit, int_from, int_from-zero_padded,
  int_from-empty,
}
use edgar.Xbrl.Locators.{
  append, found, behind, partition, through, width, decimal_text, digits_of, signed, int_of,
}

pub append_assoc : (a b c : String) → append (append a b) c ≡ append a (append b c)
append_assoc String.[] b c = refl
append_assoc (String.◌∷◌ x a) b c = ap (String.◌∷◌ x) (append_assoc a b c)

-- A search that is found.
pub found_some :
    {A : Type 0} (o : Option A) (message : String) (a : A) → found o message ≡ ok a → o ≡ some a
found_some none message a h = absurd (cc h)
found_some (some x) message a h = ap some (ok_injective h)

-- What a search finds, in the text with more behind it.
abbrev pub extended : String → Option (String × String) → Option (String × String)
extended t none = none
extended t (some (a, b)) = some (a, append b t)

behind-extended :
    (c : Char) (t : String) (found : Option (String × String))
    → behind c (extended t found) ≡ extended t (behind c found)
behind-extended c t none = refl
behind-extended c t (some (a, b)) = refl

behind-some :
    (c : Char) (found : Option (String × String)) (p : String × String)
    → behind c found ≡ some p
    → (q : String × String) × (found ≡ some q)
behind-some c none p h = absurd (cc h)
behind-some c (some q) p h = (q, refl)

-- A search in a longer text finds the same place.
pub partition-append :
    (k : ℕ) (s t : String) (p : String × String)
    → partition k s ≡ some p
    → partition k (append s t) ≡ extended t (partition k s)
unfolding partition
partition-append k String.[] t p h = absurd (cc h)
partition-append k (String.◌∷◌ c s) t p h = elim (Bool-cases (nat_beq (code c) k)) [
  | inl e ↦ rw e refl
  | inr e ↦
      let (q, found) = behind-some c (partition k s) p (rw e at h) in
      rw e (ap (behind c) (partition-append k s t q found) ∙ behind-extended c t (partition k s))
]

-- `partition` and `through` find one place.
pub through-append :
    (k : ℕ) (s t a b : String)
    → partition k s ≡ some (a, b)
    → (prefix : String) × (through k (append s t) ≡ some (prefix, append b t))
      × (append prefix b ≡ s)
unfolding partition through
through-append k String.[] t a b h = absurd (cc h)
through-append k (String.◌∷◌ c s) t a b h = elim (Bool-cases (nat_beq (code c) k)) [
  | inl e ↦
      let same : some (String.[], s) ≡ some (a, b) = rw e at h in
      let rest : s ≡ b = ap (after_or b) same in
      (
        String.◌∷◌ c String.[],
        rw e (ap (λ r. some (String.◌∷◌ c String.[], append r t)) rest),
        ap (String.◌∷◌ c) (sym rest),
      )
  | inr e ↦
      let step = rw e at h in
      let (q, found) = behind-some c (partition k s) (a, b) step in
      let (prefix, t', joined) = through-append k s t q.0 q.1 found in
      let rest : q.1 ≡ b = ap (after_or b) (ap (behind c) (sym found) ∙ step) in
      (
        String.◌∷◌ c prefix,
        rw e (ap (behind c) t' ∙ ap (λ r. some (String.◌∷◌ c prefix, append r t)) rest),
        ap (String.◌∷◌ c) (ap (append prefix) (sym rest) ∙ joined),
      )
]
  where
    after_or : String → Option (String × String) → String
    after_or default none = default
    after_or default (some p) = p.1

-- A search stops where no earlier character has the code.
pub partition-stop :
    (k : ℕ) (c : Char) (s t : String)
    → nat_beq (code c) k ≡ true
    → any_char (λ x. nat_beq x k) s ≡ false
    → partition k (append s (String.◌∷◌ c t)) ≡ some (s, t)
unfolding partition
partition-stop k c String.[] t e h = rw e refl
partition-stop k c (String.◌∷◌ x s) t e h = elim (Bool-cases (nat_beq (code x) k)) [
  | inl f ↦ absurd (cc (rw f at h))
  | inr f ↦ let r = partition-stop k c s t e (rw f at h) in rw (f, r) refl
]

width_bound : (fuel n : ℕ) → n ≤ fuel → n < 10 ^ width fuel n
unfolding width
width_bound zero n h = omega arith
width_bound (suc fuel) n h = elim (Bool-cases (ltb n 10)) [
  | inl e ↦ rw e (ground arith)
  | inr e ↦
      let r = width_bound fuel (n / 10) (ground arith) in
      rw (e, pow-suc 10 (width fuel (n / 10))) (omega (arith, r))
]

-- A text of digits is read as `int_from` reads it.
digits_of-ascii :
    (acc : ℕ) (s : String)
    → all_chars is_ascii_digit s ≡ true
    → digits_of acc true s ≡ some (int_from acc s)
unfolding digits_of int_from
digits_of-ascii acc String.[] h = refl
digits_of-ascii acc (String.◌∷◌ c s) h = elim (Bool-cases (is_ascii_digit (code c))) [
  | inl e ↦
      let r = digits_of-ascii (acc * 10 + digit_value (code c)) s (rw e at h) in
      rw (is_digit_of_ascii (code c) e) r
  | inr e ↦ absurd (cc (rw e at h))
]

-- The digits of a number are read as that number.
digits_of-first :
    (c : Char) (s : String)
    → all_chars is_ascii_digit (String.◌∷◌ c s) ≡ true
    → digits_of 0 false (String.◌∷◌ c s) ≡ some (int_from 0 (String.◌∷◌ c s))
unfolding digits_of int_from
digits_of-first c s h = elim (Bool-cases (is_ascii_digit (code c))) [
  | inl e ↦
      let r = digits_of-ascii (0 * 10 + digit_value (code c)) s (rw e at h) in
      rw (is_digit_of_ascii (code c) e) r
  | inr e ↦ absurd (cc (rw e at h))
]

signed-digits :
    (s : String)
    → all_chars is_ascii_digit s ≡ true
    → is_empty s ≡ false
    → signed s ≡ some (pos (int_from 0 s))
unfolding is_empty
signed-digits String.[] h k = absurd (cc k)
signed-digits (String.◌∷◌ c s) h k = elim (Bool-cases (is_ascii_digit (code c))) [
  | inl e ↦
      let no_minus : nat_beq (code c) b'-' ≡ false = ground arith in
      let no_plus : nat_beq (code c) b'+' ≡ false = ground arith in
      rw (no_minus, no_plus, digits_of-first c s h) refl
  | inr e ↦ absurd (cc (rw e at h))
]

not_empty : (s : String) (n : ℕ) → str_length s ≡ suc n → is_empty s ≡ false
unfolding is_empty
not_empty String.[] n h = absurd (omega arith)
not_empty (String.◌∷◌ c s) n h = refl

width_positive : (fuel n : ℕ) → (m : ℕ) × (width fuel n ≡ suc m)
unfolding width
width_positive zero n = (0, refl)
width_positive (suc fuel) n = elim (Bool-cases (ltb n 10)) [
  | inl e ↦ (0, rw e refl)
  | inr e ↦ (width fuel (n / 10), rw e refl)
]

pub decimal_text-ascii : (n : ℕ) → all_chars is_ascii_digit (decimal_text n) ≡ true
decimal_text-ascii n = all_chars-is_ascii_digit (width n n) n

-- `int(str(n))` is n.
pub int_of-decimal_text : (n : ℕ) → int_of (decimal_text n) ≡ some (pos n)
unfolding int_of
int_of-decimal_text n =
    let ascii = decimal_text-ascii n in
    let (m, w) = width_positive n n in
    let long : str_length (decimal_text n) ≡ suc m =
      str_length-zero_padded (width n n) n "" ∙ omega arith in
    let number : int_from 0 (decimal_text n) ≡ n =
      int_from-zero_padded (width n n) n 0 "" (width_bound n n (omega arith))
      ∙ int_from-empty (0 * 10 ^ width n n + n)
      ∙ omega arith in
    ap signed (strip-digits (decimal_text n) ascii)
    ∙ (signed-digits (decimal_text n) ascii (not_empty (decimal_text n) m long)
        ∙ ap (λ k. some (pos k)) number)
