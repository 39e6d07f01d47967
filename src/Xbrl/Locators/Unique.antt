-- ===== src/Xbrl/Locators/Unique.antt =====
-- src/edgar/xbrl/locators.py: an id that the index counts once belongs to one element.
use edgar.Prelude.{
  ℕ, zero, suc, ◌+◌, ◌≤◌, ◌≡◌, refl, sym, ap, ◌∙◌, arith, false, List, [], ◌∷◌, ◌++◌, Option, none,
  some, String, string_eq, beq_refl, Bool-cases, inl, inr, nat_beq, nat_beq_iff,
}
use edgar.Prelude.Text.{is_empty}
use edgar.Xbrl.Locators.Elements.{
  Node, Nodes, element, other_node, no_nodes, next_node, Position, nth, children, at, add_given,
  values_in, values_below, count,
}
use edgar.Xbrl.Locators.Positions.{and_then-some, some_injective}

count-append : (v : String) (xs ys : List String) → count v (xs ++ ys) ≡ count v xs + count v ys
count-append v [] ys = omega arith
count-append v (x ∷ xs) ys = let r = count-append v xs ys in ground arith

-- An attribute with the value, which is not empty.
abbrev pub Has : (Node → Option String) → String → Node → Type 0
Has get v n = (get n ≡ some v) × (is_empty v ≡ false)

add_given_more :
    (v : String) (o : Option String) (xs : List String) → count v xs ≤ count v (add_given o xs)
add_given_more v none xs = omega arith
add_given_more v (some x) xs = ground arith

add_given_one :
    (v : String) (o : Option String) (xs : List String)
    → o ≡ some v
    → is_empty v ≡ false
    → count v (add_given o xs) ≡ suc (count v xs)
add_given_one v o xs h e = rw (h, e, beq_refl v) refl

module _ (get : Node → Option String) (v : String) where
  -- What an element counts, and what stands below it.
  values-own :
      (n : Node)
      → get other_node ≡ none
      → Has get v n
      → count v (values_in get n) ≡ suc (count v (values_below get (children n)))
  values-own (element name x d ns) none_there h =
      add_given_one v (get (element name x d ns)) (values_below get ns) h.0 h.1
  values-own other_node none_there h = absurd (cc (sym none_there ∙ h.0))

  values-below : (n : Node) → count v (values_below get (children n)) ≤ count v (values_in get n)
  values-below (element name x d ns) =
      add_given_more v (get (element name x d ns)) (values_below get ns)
  values-below other_node = omega arith

  values-child :
      (ns : Nodes) (i : ℕ) (m : Node)
      → nth ns i ≡ some m
      → count v (values_in get m) ≤ count v (values_below get ns)
  values-child no_nodes i m h = absurd (cc h)
  values-child (next_node n ns) zero m h =
      let c = count-append v (values_in get n) (values_below get ns) in
      let e = ap (λ x. count v (values_in get x)) (some_injective n m h) in omega (arith, c, e)
  values-child (next_node n ns) (suc i) m h =
      let c = count-append v (values_in get n) (values_below get ns) in
      let r = values-child ns i m h in omega (arith, c, r)

  values-children :
      (ns : Nodes) (i j : ℕ) (m m' : Node)
      → nth ns i ≡ some m
      → nth ns j ≡ some m'
      → nat_beq i j ≡ false
      → count v (values_in get m) + count v (values_in get m') ≤ count v (values_below get ns)
  values-children no_nodes i j m m' h g d = absurd (cc h)
  values-children (next_node n ns) zero zero m m' h g d = absurd (ground arith)
  values-children (next_node n ns) zero (suc j) m m' h g d =
      let c = count-append v (values_in get n) (values_below get ns) in
      let e = ap (λ x. count v (values_in get x)) (some_injective n m h) in
      let r = values-child ns j m' g in omega (arith, c, e, r)
  values-children (next_node n ns) (suc i) zero m m' h g d =
      let c = count-append v (values_in get n) (values_below get ns) in
      let e = ap (λ x. count v (values_in get x)) (some_injective n m' g) in
      let r = values-child ns i m h in omega (arith, c, e, r)
  values-children (next_node n ns) (suc i) (suc j) m m' h g d =
      let c = count-append v (values_in get n) (values_below get ns) in
      let r = values-children ns i j m m' h g (ground arith) in omega (arith, c, r)

  -- An element with the value is counted in each tree that it stands in.
  values-at :
      (n : Node) (p : Position) (m : Node)
      → get other_node ≡ none
      → at n p ≡ some m
      → Has get v m
      → 1 ≤ count v (values_in get n)
  values-at n [] m o h has =
      let e = some_injective n m h in
      let own = values-own n o (ap get e ∙ has.0, has.1) in omega (arith, own)
  values-at n (i ∷ is) m o h has =
      let (x, child, h1) = and_then-some (nth (children n) i) (λ y. at y is) m h in
      let r = values-at x is m o h1 has in
      let c = values-child (children n) i x child in
      let b = values-below n in omega (arith, r, c, b)

  -- Of two elements with a value that is counted once, both are one.
  pub unique_position :
      (n : Node) (p q : Position) (m m' : Node)
      → get other_node ≡ none
      → count v (values_in get n) ≤ 1
      → at n p ≡ some m
      → Has get v m
      → at n q ≡ some m'
      → Has get v m'
      → p ≡ q
  unique_position n [] [] m m' o u h a g b = refl
  unique_position n [] (j ∷ js) m m' o u h a g b =
      let e = some_injective n m h in
      let own = values-own n o (ap get e ∙ a.0, a.1) in
      let (x, child, g1) = and_then-some (nth (children n) j) (λ y. at y js) m' g in
      let r = values-at x js m' o g1 b in
      let c = values-child (children n) j x child in absurd (omega (arith, own, r, c, u))
  unique_position n (i ∷ is) [] m m' o u h a g b =
      let e = some_injective n m' g in
      let own = values-own n o (ap get e ∙ b.0, b.1) in
      let (x, child, h1) = and_then-some (nth (children n) i) (λ y. at y is) m h in
      let r = values-at x is m o h1 a in
      let c = values-child (children n) i x child in absurd (omega (arith, own, r, c, u))
  unique_position n (i ∷ is) (j ∷ js) m m' o u h a g b =
      let ns = children n in
      let below = values-below n in
      let (x, cx, h1) = and_then-some (nth ns i) (λ y. at y is) m h in
      let (y, cy, g1) = and_then-some (nth ns j) (λ y. at y js) m' g in
      elim (Bool-cases (nat_beq i j)) [
        | inl e ↦
            let places : i ≡ j = (nat_beq_iff i j).0 e in
            let nodes : y ≡ x = some_injective y x (sym cy ∙ (ap (nth ns) (sym places) ∙ cx)) in
            let c = values-child ns i x cx in
            let deeper =
              unique_position x is js m m' o (omega (arith, c, below, u)) h1 a
                (ap (λ z. at z js) (sym nodes) ∙ g1) b in
            ap (λ z. z ∷ is) places ∙ ap (λ zs. j ∷ zs) deeper
        | inr e ↦
            let two = values-children ns i j x y cx cy e in
            let rx = values-at x is m o h1 a in
            let ry = values-at y js m' o g1 b in absurd (omega (arith, two, rx, ry, below, u))
      ]
