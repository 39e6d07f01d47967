-- ===== src/Xbrl/Locators/Positions.antt =====
-- src/edgar/xbrl/locators.py: one expanded path leads to one element.
use edgar.Prelude.{
  ℕ, zero, suc, ◌≤◌, ◌≡◌, refl, sym, ap, ◌∙◌, arith, true, List, [], ◌∷◌, Option, none, some,
  String, string_eq, length,
}
use edgar.Prelude.Int.{ℤ, pos, pos_part}
use edgar.Xbrl.Locators.{Segment}
use edgar.Xbrl.Locators.Elements.{
  Node, Nodes, element, other_node, no_nodes, next_node, Position, and_then, nth, children,
  is_named, ordinal, segment_of, child_ordinal, path_from, expanded_element_path,
}

-- The steps of a chain that ends with a value.
pub and_then-some :
    {A B : Type 0} (o : Option A) (f : A → Option B) (b : B)
    → and_then o f ≡ some b
    → (a : A) × (o ≡ some a) × (f a ≡ some b)
and_then-some none f b h = absurd (cc h)
and_then-some (some a) f b h = (a, refl, h)

pub some_injective : {A : Type 0} (x y : A) → some x ≡ some y → x ≡ y
some_injective x y h = ap (value_or x) h
  where
    value_or : {A : Type 0} → A → Option A → A
    value_or default none = default
    value_or default (some a) = a

-- A child with the name counts.
ordinal_positive :
    (name : String) (ns : Nodes) (i : ℕ) (n : Node)
    → nth ns i ≡ some n
    → is_named name n ≡ true
    → 1 ≤ ordinal name ns i
ordinal_positive name no_nodes i n h k = absurd (cc h)
ordinal_positive name (next_node m ns) zero n h k =
    let same = some_injective m n h in rw same (rw k (omega arith))
ordinal_positive name (next_node m ns) (suc i) n h k =
    let r = ordinal_positive name ns i n h k in ground arith

-- Two children with one name and one ordinal are one.
ordinal_injective :
    (name : String) (ns : Nodes) (i j : ℕ) (n m : Node)
    → nth ns i ≡ some n
    → nth ns j ≡ some m
    → is_named name n ≡ true
    → is_named name m ≡ true
    → ordinal name ns i ≡ ordinal name ns j
    → i ≡ j
ordinal_injective name no_nodes i j n m hi hj a b e = absurd (cc hi)
ordinal_injective name (next_node x ns) zero zero n m hi hj a b e = refl
ordinal_injective name (next_node x ns) zero (suc j) n m hi hj a b e =
    let named : is_named name x ≡ true = rw (some_injective x n hi) a in
    let r = ordinal_positive name ns j m hj b in absurd (ground arith)
ordinal_injective name (next_node x ns) (suc i) zero n m hi hj a b e =
    let named : is_named name x ≡ true = rw (some_injective x m hj) b in
    let r = ordinal_positive name ns i n hi a in absurd (ground arith)
ordinal_injective name (next_node x ns) (suc i) (suc j) n m hi hj a b e =
    ap suc (ordinal_injective name ns i j n m hi hj a b (ground arith))

segment_named :
    (n : Node) (k : ℕ) (name : String) (number : ℤ)
    → segment_of n k ≡ some (name, number)
    → (is_named name n ≡ true) × (number ≡ pos k)
segment_named (element x a b ns) k name number h =
    let e = some_injective (x, pos k) (name, number) h in
    let e0 : x ≡ name = ap (λ s. s.0) e in
    let e1 : pos k ≡ number = ap (λ s. s.1) e in ((string_eq.equal_iff x name).1 e0, sym e1)
segment_named other_node k name number h = absurd (cc h)

child_ordinal_named :
    (ns : Nodes) (i : ℕ) (n : Node) (name : String)
    → is_named name n ≡ true
    → child_ordinal ns i n ≡ ordinal name ns i
child_ordinal_named ns i (element x a b ms) name h =
    ap (λ y. ordinal y ns i) ((string_eq.equal_iff x name).0 h)
child_ordinal_named ns i other_node name h = absurd (cc h)

-- The head of a path that is found, and what follows it.
path_head :
    (k : ℕ) (n : Node) (p : Position) (path : List Segment)
    → path_from k n p ≡ some path
    → (s : Segment) × (rest : List Segment) × (segment_of n k ≡ some s) × (path ≡ (s ∷ rest))
unfolding path_from
path_head k n [] path h =
    let (s, found, e) = and_then-some (segment_of n k) _ path h in
    (s, [], found, sym (some_injective (s ∷ []) path e))
path_head k n (i ∷ is) path h =
    let (s, found, h1) = and_then-some (segment_of n k) _ path h in
    let (m, _, h2) = and_then-some (nth (children n) i) _ path h1 in
    let (rest, _, e) = and_then-some (path_from (child_ordinal (children n) i m) m is) _ path h2 in
    (s, rest, found, sym (some_injective (s ∷ rest) path e))

path_child :
    (k : ℕ) (n : Node) (i : ℕ) (is : Position) (path : List Segment)
    → path_from k n (i ∷ is) ≡ some path
    → (s : Segment) × (m : Node) × (rest : List Segment) × (nth (children n) i ≡ some m)
      × (path_from (child_ordinal (children n) i m) m is ≡ some rest)
      × (path ≡ (s ∷ rest))
unfolding path_from
path_child k n i is path h =
    let (s, found, h1) = and_then-some (segment_of n k) _ path h in
    let (m, child, h2) = and_then-some (nth (children n) i) _ path h1 in
    let (rest, below, e) =
      and_then-some (path_from (child_ordinal (children n) i m) m is) _ path h2 in
    (s, m, rest, child, below, sym (some_injective (s ∷ rest) path e))

-- A path of one segment is not one of more.
root_only :
    (k : ℕ) (n : Node) (j : ℕ) (js : Position) (path : List Segment)
    → path_from k n [] ≡ some path
    → path_from k n (j ∷ js) ≡ some path
    → ⊥
unfolding path_from
root_only k n j js path h g =
    let (s, _, e) = and_then-some (segment_of n k) _ path h in
    let one : (s ∷ []) ≡ path = some_injective (s ∷ []) path e in
    let (t, m, rest, _, below, two) = path_child k n j js path g in
    let (u, more, _, nonempty) = path_head (child_ordinal (children n) j m) m js rest below in
    let lengths : 1 ≡ suc (suc (length more)) =
      ap length one ∙ (ap length two ∙ ap (λ l. suc (length l)) nonempty) in
    absurd (omega arith)

tail_of : (s t : Segment) (a b : List Segment) → (s ∷ a) ≡ (t ∷ b) → a ≡ b
tail_of s t a b h = ap rest_of h
  where
    rest_of : List Segment → List Segment
    rest_of [] = []
    rest_of (x ∷ xs) = xs

head_of : (s t : Segment) (a b : List Segment) → (s ∷ a) ≡ (t ∷ b) → s ≡ t
head_of s t a b h = ap (first_or s) h
  where
    first_or : Segment → List Segment → Segment
    first_or default [] = default
    first_or default (x ∷ xs) = x

-- Two children at which one segment stands are one.
same_child :
    (ns : Nodes) (i j : ℕ) (n m : Node) (s t : Segment)
    → nth ns i ≡ some n
    → nth ns j ≡ some m
    → segment_of n (child_ordinal ns i n) ≡ some s
    → segment_of m (child_ordinal ns j m) ≡ some t
    → s ≡ t
    → i ≡ j
same_child ns i j n m s t hi hj a b e =
    let (named_n, number_n) = segment_named n (child_ordinal ns i n) s.0 s.1 a in
    let (named_m, number_m) =
      segment_named m (child_ordinal ns j m) s.0 s.1 (b ∙ ap some (sym e)) in
    let ordinals : child_ordinal ns i n ≡ child_ordinal ns j m =
      ap pos_part (sym number_n ∙ number_m) in
    ordinal_injective s.0 ns i j n m hi hj named_n named_m (
      sym (child_ordinal_named ns i n s.0 named_n)
      ∙ (ordinals ∙ child_ordinal_named ns j m s.0 named_m))

path_from-injective :
    (k : ℕ) (n : Node) (p q : Position) (path : List Segment)
    → path_from k n p ≡ some path
    → path_from k n q ≡ some path
    → p ≡ q
path_from-injective k n [] [] path h g = refl
path_from-injective k n [] (j ∷ js) path h g = absurd (root_only k n j js path h g)
path_from-injective k n (i ∷ is) [] path h g = absurd (root_only k n i is path g h)
path_from-injective k n (i ∷ is) (j ∷ js) path h g =
    let ns = children n in
    let (s, m, rest, child, below, e) = path_child k n i is path h in
    let (t, m', rest', child', below', e') = path_child k n j js path g in
    let rests : rest ≡ rest' = tail_of s t rest rest' (sym e ∙ e') in
    let (u, more, seg, r) = path_head (child_ordinal ns i m) m is rest below in
    let (u', more', seg', r') = path_head (child_ordinal ns j m') m' js rest' below' in
    let heads : u ≡ u' = head_of u u' more more' (sym r ∙ (rests ∙ r')) in
    let places : i ≡ j = same_child ns i j m m' u u' child child' seg seg' heads in
    let nodes : m' ≡ m = some_injective m' m (sym child' ∙ (ap (nth ns) (sym places) ∙ child)) in
    let below2 : path_from (child_ordinal ns i m) m js ≡ some rest =
      ap (λ x. path_from (child_ordinal ns i x) x js) (sym nodes)
      ∙ (ap (λ x. path_from (child_ordinal ns x m') m' js) places
          ∙ (below' ∙ ap some (sym rests))) in
    let deeper = path_from-injective (child_ordinal ns i m) m is js rest below below2 in
    ap (λ x. x ∷ is) places ∙ ap (λ xs. j ∷ xs) deeper

-- Two elements of a document with one expanded path are one.
pub expanded_element_path-injective :
    (root : Node) (p q : Position) (path : List Segment)
    → expanded_element_path root p ≡ some path
    → expanded_element_path root q ≡ some path
    → p ≡ q
unfolding expanded_element_path
expanded_element_path-injective root p q path h g = path_from-injective 1 root p q path h g
