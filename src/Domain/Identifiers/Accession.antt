-- ===== src/Domain/Identifiers/Accession.antt =====
-- Accessions of src/edgar/domain/identifiers.py and their CIK prefix.
use edgar.Prelude.{
  ℕ, zero, suc, String, ◌≡◌, refl, sym, ap, ◌∙◌, ◌↔◌, true, false, Option, none, some, ok,
  >>=-eq-ok, Bool-cases, Result-cases, inl, inr, nat_beq_iff, arith, nat_beq, string_eq, eq_iff,
  beq→eq,
}
use Prim.Native.Char.{code}
use edgar.Prelude.Text.{strip, is_digit, str_length, all_chars}
use edgar.Domain.Identifiers.{
  validate_cik, validate_accession, accession_match, digits_prefix, dash_prefix, then_match,
  before_dash, accession_to_cik, assert_cik_accession_consistent,
}

accession_inverts :
    (a p : String)
    → validate_accession a ≡ ok p
    → (p ≡ a) × (strip a ≡ a) × (accession_match a ≡ true)
unfolding validate_accession
accession_inverts a p h = ground (arith, beq→eq (strip a) a)

dash-not-digit : is_digit b'-' ≡ false
unfolding is_digit
dash-not-digit = refl

digit-not-dash : (c : ℕ) → is_digit c ≡ true → nat_beq c b'-' ≡ false
digit-not-dash c h = elim (Bool-cases (nat_beq c b'-')) [
  | inl e ↦ absurd (cc (dash-not-digit, ap is_digit ((nat_beq_iff c b'-').0 e)))
  | inr e ↦ e
]

-- Digits and then a dash: what stands before the first dash is those digits.
before_dash-digits :
    (n : ℕ) (s rest : String) (t : String)
    → digits_prefix n s ≡ some rest
    → dash_prefix rest ≡ some t
    → (str_length (before_dash s) ≡ n) × (all_chars is_digit (before_dash s) ≡ true)
before_dash-digits zero String.[] rest t h e = ground arith
before_dash-digits zero (String.◌∷◌ c s) rest t h e =
    let q : String.◌∷◌ c s ≡ rest = cc h in
    before_dash-dash (String.◌∷◌ c s) t (ap dash_prefix q ∙ e)
  where
    before_dash-dash :
        (s t : String)
        → dash_prefix s ≡ some t
        → (str_length (before_dash s) ≡ 0) × (all_chars is_digit (before_dash s) ≡ true)
    before_dash-dash String.[] t e = absurd (cc e)
    before_dash-dash (String.◌∷◌ x u) t e = elim (Bool-cases (nat_beq (code x) b'-')) [
      | inl d ↦ rw d (refl, refl)
      | inr d ↦ absurd (cc (rw d at e))
    ]
before_dash-digits (suc n) String.[] rest t h e = absurd (cc h)
before_dash-digits (suc n) (String.◌∷◌ c s) rest t h e = elim (Bool-cases (is_digit (code c))) [
  | inl d ↦
      let r = before_dash-digits n s rest t (rw d at h) e in
      rw (digit-not-dash (code c) d, d) (ap suc r.0, r.1)
  | inr d ↦ absurd (cc (rw d at h))
]

then_match-none :
    (m : Option String) (f : String → Option String) {r : String}
    → then_match m f ≡ some r
    → (s : String) × (m ≡ some s) × (f s ≡ some r)
then_match-none none f h = absurd (cc h)
then_match-none (some s) f h = (s, refl, h)

accession_match-some :
    (a : String)
    → accession_match a ≡ true
    → (r : String) × (then_match (digits_prefix 10 a) (λ s1. then_match (dash_prefix s1) (λ s2.
          then_match
            (digits_prefix 2 s2)
            (λ s3. then_match (dash_prefix s3) (λ s4. digits_prefix 6 s4))))
        ≡ some r)
accession_match-some a h = ground arith

accession_match-parts :
    (a : String)
    → accession_match a ≡ true
    → (rest t : String) × (digits_prefix 10 a ≡ some rest) × (dash_prefix rest ≡ some t)
accession_match-parts a h =
    let (r, e) = accession_match-some a h in
    let (rest, d, e2) = then_match-none (digits_prefix 10 a) _ e in
    let (t, f, _) = then_match-none (dash_prefix rest) _ e2 in (rest, t, d, f)

-- The CIK that is read off an accession is its first ten characters, all of them decimal digits.
pub accession_to_cik-digits :
    (a p : String)
    → accession_to_cik a ≡ ok p
    → (str_length p ≡ 10) × (all_chars is_digit p ≡ true) × (validate_accession a ≡ ok a)
unfolding accession_to_cik
accession_to_cik-digits a p h =
    let (acc, v, e) = >>=-eq-ok (validate_accession a) (λ acc. ok (before_dash acc)) h in
    let (same, _, m) = accession_inverts a acc v in
    let (rest, t, d, f) = accession_match-parts a m in
    let r = before_dash-digits 10 a rest t d f in
    let at_p : before_dash a ≡ p = cc (same, e) in
    (ap str_length (sym at_p) ∙ r.0, ap (all_chars is_digit) (sym at_p) ∙ r.1, v ∙ ap ok same)

-- The check of a CIK against an accession passes exactly when the CIK that is read off the
-- accession is the normal form of the given CIK.
pub assert_cik_accession_consistent_iff :
    (cik a : String)
    → (assert_cik_accession_consistent cik a ≡ ok tt)
      ↔ ((n : String) × (validate_cik cik ≡ ok n) × (accession_to_cik a ≡ ok n))
unfolding assert_cik_accession_consistent accession_to_cik
assert_cik_accession_consistent_iff cik a = (
  λ h. elim (Result-cases (validate_cik cik)) [
    | inl (n, e) ↦ elim (Result-cases (validate_accession a)) [
      | inl (acc, f) ↦ (n, e, ground (arith, eq_iff (before_dash acc) n))
      | inr (x, f) ↦ absurd (cc (rw (e, f) at h))
    ]
    | inr (x, e) ↦ absurd (cc (rw e at h))
  ],
  λ (n, e, f). ground (arith, eq_iff n n),
)
