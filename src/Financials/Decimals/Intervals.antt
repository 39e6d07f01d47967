-- ===== src/Financials/Decimals/Intervals.antt =====
-- The loop of `oim_reduce_group` in src/edgar/financials/decimals.py that narrows the common
-- interval, and the order facts on which it rests.
use edgar.Prelude.{◌≡◌, refl, true, List, [], ◌∷◌, some, arith, Bool-cases, inl, inr, All}
use edgar.Prelude.Decimal.{
  Decimal, max_decimal, min_decimal, add_decimal, sub_decimal, half_unit, Le, Le-refl, Le_total,
  Le_trans, sub_decimal-Le, Le-add_decimal, half_unit_nonneg,
}
use edgar.Financials.Decimals.{
  ClosedInterval, intersects, narrow, intersection, Precision, unstated, infinite, finite,
  interval_of,
}

-- An interval lies inside another.
pub record Inside (a b : ClosedInterval) : Type 0 where
  pub above : Le b.lo a.lo
  pub below : Le a.hi b.hi

abbrev pub Proper : ClosedInterval → Type 0
Proper i = Le i.lo i.hi

pub interval_of-Proper : (v : Decimal) (p : Precision) → Proper (interval_of v p)
interval_of-Proper v unstated = Le-refl v
interval_of-Proper v infinite = Le-refl v
interval_of-Proper v (finite d) =
    Le_trans (sub_decimal v (half_unit d)) v (add_decimal v (half_unit d))
      (sub_decimal-Le v (half_unit d) (half_unit_nonneg d))
      (Le-add_decimal v (half_unit d) (half_unit_nonneg d))

-- The stated value lies in the interval of its fact.
pub value-in_interval :
    (v : Decimal) (p : Precision) → Le (interval_of v p).lo v × Le v (interval_of v p).hi
value-in_interval v unstated = (Le-refl v, Le-refl v)
value-in_interval v infinite = (Le-refl v, Le-refl v)
value-in_interval v (finite d) = (
  sub_decimal-Le v (half_unit d) (half_unit_nonneg d),
  Le-add_decimal v (half_unit d) (half_unit_nonneg d),
)

max_above : (a b : Decimal) → Le a (max_decimal a b) × Le b (max_decimal a b)
max_above a b = ground (arith, Le-refl a, Le-refl b, Le_total a b)

min_below : (a b : Decimal) → Le (min_decimal a b) a × Le (min_decimal a b) b
min_below a b = ground (arith, Le-refl a, Le-refl b, Le_total a b)

max_least : (a b c : Decimal) → Le a c → Le b c → Le (max_decimal a b) c
max_least a b c h k = ground arith

min_greatest : (a b c : Decimal) → Le c a → Le c b → Le c (min_decimal a b)
min_greatest a b c h k = ground arith

pub intersects-parts : (a b : ClosedInterval) → intersects a b ≡ true → Le a.lo b.hi × Le b.lo a.hi
intersects-parts a b h = ground arith

pub intersects-intro : (a b : ClosedInterval) → Le a.lo b.hi → Le b.lo a.hi → intersects a b ≡ true
intersects-intro a b h k = ground arith

narrow-Proper :
    (a b : ClosedInterval) → Proper a → Proper b → intersects a b ≡ true → Proper (narrow a b)
narrow-Proper a b pa pb h =
    let (x, y) = intersects-parts a b h in
    max_least a.lo b.lo (min_decimal a.hi b.hi) (min_greatest a.hi b.hi a.lo pa x)
      (min_greatest a.hi b.hi b.lo y pb)

narrow-Inside : (a b : ClosedInterval) → Inside (narrow a b) a × Inside (narrow a b) b
narrow-Inside a b = (
  record { above = (max_above a.lo b.lo).0; below = (min_below a.hi b.hi).0 },
  record { above = (max_above a.lo b.lo).1; below = (min_below a.hi b.hi).1 },
)

Inside-trans : (a b c : ClosedInterval) → Inside a b → Inside b c → Inside a c
Inside-trans a b c h k = record {
  above = Le_trans c.lo b.lo a.lo k.above h.above;
  below = Le_trans a.hi b.hi c.hi h.below k.below;
}

-- The interval that the loop returns is proper and lies inside every given one.
pub intersection-Inside :
    (i : ClosedInterval) (xs : List ClosedInterval) (r : ClosedInterval)
    → Proper i
    → All Proper xs
    → intersection i xs ≡ some r
    → Proper r × Inside r i × All (Inside r) xs
unfolding intersection
intersection-Inside i [] r p ps h =
    let e : i ≡ r = cc h in
    (rw (← e) p, rw (← e) (record { above = Le-refl i.lo; below = Le-refl i.hi }), tt)
intersection-Inside i (x ∷ xs) r p ps h = elim (Bool-cases (intersects i x)) [
  | inl t ↦
      let k = narrow i x in
      let (q, s, qs) = intersection-Inside k xs r (narrow-Proper i x p ps.0 t) ps.1 (rw t at h) in
      (
        q,
        Inside-trans r k i s (narrow-Inside i x).0,
        (Inside-trans r k x s (narrow-Inside i x).1, qs),
      )
  | inr t ↦ absurd (cc (rw t at h))
]

abbrev pub PairwiseIntersect : List ClosedInterval → Type 0
PairwiseIntersect [] = Unit
PairwiseIntersect (x ∷ xs) = All (λ y. intersects x y ≡ true) xs × PairwiseIntersect xs

narrow-intersects :
    (a b c : ClosedInterval)
    → intersects a c ≡ true
    → intersects b c ≡ true
    → intersects (narrow a b) c ≡ true
narrow-intersects a b c h k =
    let (x, y) = intersects-parts a c h in
    let (z, w) = intersects-parts b c k in
    intersects-intro (narrow a b) c (max_least a.lo b.lo c.hi x z) (min_greatest a.hi b.hi c.lo y w)

narrow-All :
    (a b : ClosedInterval) (xs : List ClosedInterval)
    → All (λ y. intersects a y ≡ true) xs
    → All (λ y. intersects b y ≡ true) xs
    → All (λ y. intersects (narrow a b) y ≡ true) xs
narrow-All a b [] h k = tt
narrow-All a b (x ∷ xs) h k = (narrow-intersects a b x h.0 k.0, narrow-All a b xs h.1 k.1)

-- Intervals of which every two intersect have a common one (Helly's theorem on a line).
pub intersection-some :
    (i : ClosedInterval) (xs : List ClosedInterval)
    → PairwiseIntersect (i ∷ xs)
    → (r : ClosedInterval) × (intersection i xs ≡ some r)
unfolding intersection
intersection-some i [] h = (i, refl)
intersection-some i (x ∷ xs) h =
    let (r, e) = intersection-some (narrow i x) xs (narrow-All i x xs h.0.1 h.1.0, h.1.1) in
    (r, rw h.0.0 e)
