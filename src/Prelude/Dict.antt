-- ===== src/Prelude/Dict.antt =====
-- Python's `dict` as the list of its entries in the order of insertion, and tuples as keys.
use edgar.Prelude.{
  String, ◌≡◌, ◌↔◌, refl, ap, Bool, true, ◌&&◌, List, [], ◌∷◌, Option, none, some, Eq, ◌==◌, All,
  any, and_true, if◌then◌else◌, Bool-cases, inl, inr, string_eq,
}
use edgar.Prelude.Text.{leb_string}

abbrev pair_beq : {A B : Type 0} → (A → A → Bool) → (B → B → Bool) → A × B → A × B → Bool
pair_beq f g p q = f p.0 q.0 && g p.1 q.1

pub pair_beq_iff :
    {A B : Type 0} (e : Eq A) (f : Eq B) (p q : A × B)
    → (pair_beq e.equal f.equal p q ≡ true) ↔ (p ≡ q)
pair_beq_iff e f (a, b) (c, d) = (
  λ h.
      let (x, y) = and_true (e.equal a c) (f.equal b d) h in
      let u = (e.equal_iff a c).0 x in let v = (f.equal_iff b d).0 y in rw (u, v) refl,
  λ h.
      let x = (e.equal_iff a c).1 (ap (λ p. p.0) h) in
      let y = (f.equal_iff b d).1 (ap (λ p. p.1) h) in rw (x, y) refl,
)

instance abbrev pub pair_eq : {A B : Type 0} ⦃e : Eq A⦄ ⦃f : Eq B⦄ → Eq (A × B)
pair_eq ⦃e⦄ ⦃f⦄ = record { equal = pair_beq e.equal f.equal; equal_iff = pair_beq_iff e f }

-- The order of tuples whose first component is a text.
abbrev pub leb_tuple : {A : Type 0} → (A → A → Bool) → String × A → String × A → Bool
leb_tuple rest p q = if p.0 == q.0 then rest p.1 q.1 else leb_string p.0 q.0

-- `xs.add(x)` of a set, as a list without repetitions.
abbrev pub add_new : {A : Type 0} ⦃e : Eq A⦄ → A → List A → List A
add_new ⦃e⦄ x xs = if any (λ y. x == y) xs then xs else x ∷ xs

module _ {K V : Type 0} ⦃e : Eq K⦄ where
  -- `d.get(key)`
  abbrev pub entry : K → List (K × V) → Option V
  entry key [] = none
  entry key ((k, v) ∷ rest) = if k == key then some v else entry key rest

  -- The value under the key is changed; under a new key it is made from the default, at the end.
  unfoldable pub alter : K → V → (V → V) → List (K × V) → List (K × V)
  alter key default f [] = (key, f default) ∷ []
  alter key default f ((k, v) ∷ rest) =
      let others = alter key default f rest in if k == key then (k, f v) ∷ rest else (k, v) ∷ others

  pub All-alter :
      (P : K → V → Type 0) (key : K) (default : V) (f : V → V) (d : List (K × V))
      → P key (f default)
      → ((v : V) → P key v → P key (f v))
      → All (λ kv. P kv.0 kv.1) d
      → All (λ kv. P kv.0 kv.1) (alter key default f d)
  unfolding alter
  All-alter P key default f [] start keeps h = (start, tt)
  All-alter P key default f ((k, v) ∷ rest) start keeps h = elim (Bool-cases (k == key)) [
    | inl same ↦
        let same_key = (e.equal_iff k key).0 same in
        rw same (rw same_key (keeps v (rw same_key at h.0)), h.1)
    | inr other ↦ rw other (h.0, All-alter P key default f rest start keeps h.1)
  ]
