-- ===== src/Prelude/Decimal.antt =====
-- Python's `Decimal`, finite and exact: `coefficient / 10 ^ scale`. Comparison is by value, as in
-- Python, so that 1.0 equals 1. The context's rounding to 28 digits is not modelled.
use native.Mathlib.Nat.{
  one-le-pow, pow-zero, pow-suc, add-suc, add-zero, le_of_mul-le-mul_right, mul-le-mul_right,
}
use edgar.Prelude.{
  ℕ, suc, zero, ◌+◌, ◌*◌, ◌^◌, ◌≤◌, ◌<◌, ◌≡◌, ap, Bool, true, ◌&&◌, ◌⊎◌, arith, leb, leb→le, le→leb,
  if◌then◌else◌,
}
use edgar.Prelude.Int.{ℤ, pos, negsuc, pos_part, neg_part, sub_ℕ, sub_ℕ_parts}

pub record Decimal : Type 0 where
  pub coefficient : ℤ
  pub scale : ℕ

abbrev unit : Decimal → ℕ
unit a = 10 ^ a.scale

abbrev up : Decimal → ℕ
up a = pos_part a.coefficient

abbrev down : Decimal → ℕ
down a = neg_part a.coefficient

-- `a <= b`
unfoldable pub leb_decimal : Decimal → Decimal → Bool
leb_decimal a b = leb (up a * unit b + down b * unit a) (up b * unit a + down a * unit b)

-- `a == b`
abbrev pub eq_decimal : Decimal → Decimal → Bool
eq_decimal a b = leb_decimal a b && leb_decimal b a

abbrev pub max_decimal : Decimal → Decimal → Decimal
max_decimal a b = if leb_decimal b a then a else b

abbrev pub min_decimal : Decimal → Decimal → Decimal
min_decimal a b = if leb_decimal a b then a else b

-- `a + b` and `a - b`
unfoldable pub add_decimal : Decimal → Decimal → Decimal
add_decimal a b = record {
  coefficient = sub_ℕ (up a * unit b + up b * unit a) (down a * unit b + down b * unit a);
  scale = a.scale + b.scale;
}

unfoldable pub sub_decimal : Decimal → Decimal → Decimal
sub_decimal a b = record {
  coefficient = sub_ℕ (up a * unit b + down b * unit a) (down a * unit b + up b * unit a);
  scale = a.scale + b.scale;
}

-- `Decimal("0.5") * (Decimal(10) ** (-d))`
unfoldable pub half_unit : ℤ → Decimal
half_unit (pos d) = record { coefficient = pos 5; scale = suc d }
half_unit (negsuc d) = record { coefficient = pos (5 * 10 ^ d); scale = 0 }

abbrev pub zero_decimal : Decimal
zero_decimal = record { coefficient = pos 0; scale = 0 }

abbrev pub Le : Decimal → Decimal → Type 0
Le a b = leb_decimal a b ≡ true

pub Le-refl : (a : Decimal) → Le a a
unfolding leb_decimal
Le-refl a = le→leb _ _ (omega arith)

pub Le_total : (a b : Decimal) → Le a b ⊎ Le b a
unfolding leb_decimal
Le_total a b = ground arith

cross_trans :
    (pa na ua pb nb ub pc nc uc : ℕ)
    → 0 < ub
    → pa * ub + nb * ua ≤ pb * ua + na * ub
    → pb * uc + nc * ub ≤ pc * ub + nb * uc
    → pa * uc + nc * ua ≤ pc * ua + na * uc
cross_trans pa na ua pb nb ub pc nc uc h p q =
    le_of_mul-le-mul_right (omega (arith, mul-le-mul_right uc p, mul-le-mul_right ua q)) h

pub Le_trans : (a b c : Decimal) → Le a b → Le b c → Le a c
unfolding leb_decimal
Le_trans a b c p q = le→leb _ _ (
    cross_trans (up a) (down a) (unit a) (up b) (down b) (unit b) (up c) (down c) (unit c)
      (one-le-pow b.scale 10 (omega arith)) (leb→le _ _ p) (leb→le _ _ q))

pow-add : (m n : ℕ) → 10 ^ (m + n) ≡ 10 ^ m * 10 ^ n
pow-add m zero = rw (add-zero, pow-zero) (omega arith)
pow-add m (suc n) =
    rw (add-suc, pow-suc, pow-suc) (omega (arith, ap (λ (t : ℕ). t * 10) (pow-add m n)))

cross_sub :
    (pa na ua ph nh uh pr nr : ℕ)
    → nh ≤ ph
    → pr + (na * uh + ph * ua) ≡ nr + (pa * uh + nh * ua)
    → pr * ua + na * (ua * uh) ≤ pa * (ua * uh) + nr * ua
cross_sub pa na ua ph nh uh pr nr h e =
    omega (arith, ap (λ (t : ℕ). t * ua) e, mul-le-mul_right ua (mul-le-mul_right ua h))

cross_add :
    (pa na ua ph nh uh pr nr : ℕ)
    → nh ≤ ph
    → pr + (na * uh + nh * ua) ≡ nr + (pa * uh + ph * ua)
    → pa * (ua * uh) + nr * ua ≤ pr * ua + na * (ua * uh)
cross_add pa na ua ph nh uh pr nr h e =
    omega (arith, ap (λ (t : ℕ). t * ua) e, mul-le-mul_right ua (mul-le-mul_right ua h))

zero-Le : (h : Decimal) → Le zero_decimal h → down h ≤ up h
unfolding leb_decimal
zero-Le h p = omega (arith, leb→le _ _ p)

-- What is at least zero makes a sum larger and a difference smaller.
pub sub_decimal-Le : (a h : Decimal) → Le zero_decimal h → Le (sub_decimal a h) a
unfolding sub_decimal leb_decimal
sub_decimal-Le a h p = le→leb _ _ (
    rw pow-add (
      cross_sub (up a) (down a) (unit a) (up h) (down h) (unit h) _ _ (zero-Le h p)
        (sub_ℕ_parts _ _)))

pub Le-add_decimal : (a h : Decimal) → Le zero_decimal h → Le a (add_decimal a h)
unfolding add_decimal leb_decimal
Le-add_decimal a h p = le→leb _ _ (
    rw pow-add (
      cross_add (up a) (down a) (unit a) (up h) (down h) (unit h) _ _ (zero-Le h p)
        (sub_ℕ_parts _ _)))

pub half_unit_nonneg : (d : ℤ) → Le zero_decimal (half_unit d)
unfolding leb_decimal half_unit
half_unit_nonneg (pos d) = le→leb _ _ (omega arith)
half_unit_nonneg (negsuc d) = le→leb _ _ (omega arith)
