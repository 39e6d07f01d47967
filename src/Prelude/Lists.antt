-- ===== src/Prelude/Lists.antt =====
-- Lists as Python's tuples and lists: `any`, `all`, comprehensions, membership and `sorted`.
use Prim.Native.Nat.{ℕ, suc, ◌+◌}
use mathlib.Core.Path.{◌≡◌, refl}
use mathlib.Core.Logic.{◌⊎◌, inl, inr, ◌↔◌}
use mathlib.Core.Bool.{Bool, true, false, ◌&&◌, ◌||◌}
use mathlib.Core.List.{List, [], ◌∷◌, ◌++◌}
use mathlib.Core.Option.{Option, none, some}
use native.Mathlib.Omega.{arith}
use edgar.Prelude.Tests.{if◌then◌else◌, Bool-cases}

module _ {ℓ} {A : Type ℓ} where
  abbrev pub length : List A → ℕ
  length [] = 0
  length (x ∷ xs) = suc (length xs)

  -- `any(p(x) for x in xs)`
  abbrev pub any : (A → Bool) → List A → Bool
  any p [] = false
  any p (x ∷ xs) = p x || any p xs

  -- `all(p(x) for x in xs)`
  abbrev pub all : (A → Bool) → List A → Bool
  all p [] = true
  all p (x ∷ xs) = p x && all p xs

  -- `[x for x in xs if p(x)]`
  abbrev pub filter : (A → Bool) → List A → List A
  filter p [] = []
  filter p (x ∷ xs) = let rest = filter p xs in if p x then x ∷ rest else rest

  -- The first element that passes a test.
  abbrev pub find : (A → Bool) → List A → Option A
  find p [] = none
  find p (x ∷ xs) = let rest = find p xs in if p x then some x else rest

  -- Every element has the property.
  abbrev pub All {κ} : (A → Type κ) → List A → Type κ
  All P [] = Unit
  All P (x ∷ xs) = P x × All P xs

module _ {A : Type 0} where
  -- Some element has the property, with the witness kept.
  abbrev pub Any : (A → Type 0) → List A → Type 0
  Any P [] = ⊥
  Any P (x ∷ xs) = P x ⊎ Any P xs

  abbrev pub In : A → List A → Type 0
  In a [] = ⊥
  In a (x ∷ xs) = (a ≡ x) ⊎ In a xs

  -- `sorted(xs, key=…)`, where `before x y` says that the key of x is at most that of y.
  -- Python's sort is stable, and so is this insertion sort.
  unfoldable pub insert_by : (A → A → Bool) → A → List A → List A
  insert_by before a [] = a ∷ []
  insert_by before a (x ∷ xs) =
      let rest = insert_by before a xs in if before a x then a ∷ x ∷ xs else x ∷ rest

  unfoldable pub sort_by : (A → A → Bool) → List A → List A
  sort_by before [] = []
  sort_by before (x ∷ xs) = insert_by before x (sort_by before xs)

  -- `min(x, *xs, key=…)`: the first of the smallest.
  unfoldable pub min_by : (A → A → Bool) → A → List A → A
  min_by before m [] = m
  min_by before m (x ∷ xs) = min_by before (if before m x then m else x) xs

module _ {A : Type 0} where
  pub All-In : (P : A → Type 0) (xs : List A) → All P xs → (a : A) → In a xs → P a
  All-In P [] h a i = elim i [ ]
  All-In P (x ∷ xs) h a (inl e) = rw e h.0
  All-In P (x ∷ xs) h a (inr i) = All-In P xs h.1 a i

  pub All-of_In : (P : A → Type 0) (xs : List A) → ((a : A) → In a xs → P a) → All P xs
  All-of_In P [] f = tt
  All-of_In P (x ∷ xs) f = (f x (inl refl), All-of_In P xs (λ a i. f a (inr i)))

  pub In-filter : (p : A → Bool) (xs : List A) (a : A) → In a (filter p xs) → In a xs × (p a ≡ true)
  In-filter p [] a i = elim i [ ]
  In-filter p (x ∷ xs) a i = ground (arith, In-filter p xs a)

  pub In-filter_intro :
      (p : A → Bool) (xs : List A) (a : A) → In a xs → p a ≡ true → In a (filter p xs)
  In-filter_intro p [] a i h = elim i [ ]
  In-filter_intro p (x ∷ xs) a i h = ground (arith, In-filter_intro p xs a)

  pub In-append : (xs ys : List A) (a : A) → In a (xs ++ ys) → In a xs ⊎ In a ys
  In-append [] ys a i = inr i
  In-append (x ∷ xs) ys a i = ground (arith, In-append xs ys a)

  pub In-append_left : (xs ys : List A) (a : A) → In a xs → In a (xs ++ ys)
  In-append_left [] ys a i = elim i [ ]
  In-append_left (x ∷ xs) ys a i = ground (arith, In-append_left xs ys a)

  pub In-append_right : (xs ys : List A) (a : A) → In a ys → In a (xs ++ ys)
  In-append_right [] ys a i = i
  In-append_right (x ∷ xs) ys a i = inr (In-append_right xs ys a i)

  pub any→In : (p : A → Bool) (xs : List A) → any p xs ≡ true → (a : A) × In a xs × (p a ≡ true)
  any→In p [] h = absurd (cc)
  any→In p (x ∷ xs) h = elim (Bool-cases (p x)) [
    | inl e ↦ (x, inl refl, e)
    | inr e ↦ let r = any→In p xs (rw e at h) in (r.0, inr r.1, r.2)
  ]

  pub In→any : (p : A → Bool) (xs : List A) (a : A) → In a xs → p a ≡ true → any p xs ≡ true
  In→any p [] a i h = elim i [ ]
  In→any p (x ∷ xs) a i h = ground (arith, In→any p xs a)

  pub In-insert_by :
      (before : A → A → Bool) (b : A) (xs : List A) (a : A)
      → In a (insert_by before b xs)
      → (a ≡ b) ⊎ In a xs
  unfolding insert_by
  In-insert_by before b [] a i = i
  In-insert_by before b (x ∷ xs) a i = ground (arith, In-insert_by before b xs a)

  pub insert_by-In :
      (before : A → A → Bool) (b : A) (xs : List A) (a : A)
      → (a ≡ b) ⊎ In a xs
      → In a (insert_by before b xs)
  unfolding insert_by
  insert_by-In before b [] a i = i
  insert_by-In before b (x ∷ xs) a i = ground (arith, insert_by-In before b xs a)

  -- `sorted` keeps the elements.
  pub In-sort_by :
      (before : A → A → Bool) (xs : List A) (a : A) → In a (sort_by before xs) ↔ In a xs
  unfolding sort_by
  In-sort_by before [] a = (λ i. i, λ i. i)
  In-sort_by before (x ∷ xs) a = (
    λ i. ground (arith, In-insert_by before x (sort_by before xs) a i, (In-sort_by before xs a).0),
    λ i. insert_by-In before x (sort_by before xs) a (ground (arith, (In-sort_by before xs a).1)),
  )

  pub In-min_by : (before : A → A → Bool) (m : A) (xs : List A) → In (min_by before m xs) (m ∷ xs)
  unfolding min_by
  In-min_by before m [] = inl refl
  In-min_by before m (x ∷ xs) = ground (arith, In-min_by before (if before m x then m else x) xs)

  -- The element that `min` returns comes before every other one.
  pub min_by_least :
      (before : A → A → Bool)
      → ((a b c : A) → before a b ≡ true → before b c ≡ true → before a c ≡ true)
      → ((a b : A) → (before a b ≡ true) ⊎ (before b a ≡ true))
      → (m : A) (xs : List A) (a : A) → In a (m ∷ xs)
      → before (min_by before m xs) a ≡ true
  unfolding min_by
  min_by_least before trans total m [] a i = ground (arith, total m m)
  min_by_least before trans total m (x ∷ xs) a i =
      let k = (if before m x then m else x) in
      let r = min_by before k xs in
      ground (
        arith,
        total m x,
        min_by_least before trans total k xs k (inl refl),
        min_by_least before trans total k xs a,
        trans r k m,
        trans r k x,
      )

-- A hypothesis on the value of an option, if it has one.
abbrev pub OnSome {ℓ} : {A : Type ℓ} → (A → Type 0) → Option A → Type 0
OnSome P none = Unit
OnSome P (some a) = P a

pub All-map {ℓ κ μ} :
    {A : Type ℓ} {P : A → Type κ} {Q : A → Type μ}
    → ((a : A) → P a → Q a)
    → (l : List A) → All P l
    → All Q l
All-map f [] h = tt
All-map f (a ∷ as') h = (f a h.0, All-map f as' h.1)

module _ {A : Type 0} where
  -- `sum(f(x) for x in xs)`
  abbrev pub sum_by : (A → ℕ) → List A → ℕ
  sum_by f [] = 0
  sum_by f (x ∷ xs) = f x + sum_by f xs

  sum_by-insert_by :
      (f : A → ℕ) (before : A → A → Bool) (a : A) (xs : List A)
      → sum_by f (insert_by before a xs) ≡ f a + sum_by f xs
  unfolding insert_by
  sum_by-insert_by f before a [] = refl
  sum_by-insert_by f before a (x ∷ xs) = ground (arith, sum_by-insert_by f before a xs)

  pub sum_by-sort_by :
      (f : A → ℕ) (before : A → A → Bool) (xs : List A) → sum_by f (sort_by before xs) ≡ sum_by f xs
  unfolding sort_by
  sum_by-sort_by f before [] = refl
  sum_by-sort_by f before (x ∷ xs) =
      let k = sum_by-insert_by f before x (sort_by before xs) in
      let r = sum_by-sort_by f before xs in omega arith

  pub All-sort_by :
      (P : A → Type 0) (before : A → A → Bool) (xs : List A) → All P xs → All P (sort_by before xs)
  All-sort_by P before xs h =
      All-of_In P (sort_by before xs) (λ a i. All-In P xs h a ((In-sort_by before xs a).0 i))
