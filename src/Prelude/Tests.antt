-- ===== src/Prelude/Tests.antt =====
-- Boolean tests on numbers and texts, the conditional, and equality as an interface.
use Prim.Native.Nat.{ℕ, ◌≤◌, ◌<◌, compare, Ordering}
use Prim.Native.String.{String}
use mathlib.Core.Path.{◌≡◌, refl, sym, ◌∙◌}
use mathlib.Core.Logic.{◌↔◌, ◌⊎◌, inl, inr}
use mathlib.Core.Bool.{Bool, true, false, not, ◌&&◌}
use mathlib.Core.List.{List, [], ◌∷◌}
use mathlib.Core.Option.{Option, none, some}
use native.Mathlib.Omega.{arith}
use text.Mathlib.Text.{◌==◌ as str_beq}
use text.Mathlib.TextEquality.{eq_iff}

abbrev pub ltb : ℕ → ℕ → Bool
ltb a b = elim (compare a b) [ Ordering.lt ↦ true | _ ↦ false ]

abbrev pub leb : ℕ → ℕ → Bool
leb a b = elim (compare a b) [ Ordering.gt ↦ false | _ ↦ true ]

abbrev pub nat_beq : ℕ → ℕ → Bool
nat_beq a b = elim (compare a b) [ Ordering.eq ↦ true | _ ↦ false ]

infix 1 if◌then◌else◌
abbrev pub if◌then◌else◌ {ℓ} : {A : Type ℓ} → Bool → A → A → A
if true then x else y = x
if false then x else y = y

pub ltb→lt : (a b : ℕ) → ltb a b ≡ true → a < b
ltb→lt a b h = ground arith

pub leb→le : (a b : ℕ) → leb a b ≡ true → a ≤ b
leb→le a b h = ground arith

pub le→leb : (a b : ℕ) → a ≤ b → leb a b ≡ true
le→leb a b h = ground arith

pub nat_beq_iff : (a b : ℕ) → (nat_beq a b ≡ true) ↔ (a ≡ b)
nat_beq_iff a b = ground arith

-- To split on a computed value and keep the equation.
pub Bool-cases : (b : Bool) → (b ≡ true) ⊎ (b ≡ false)
Bool-cases true = inl refl
Bool-cases false = inr refl

pub Option-cases {ℓ} : {A : Type ℓ} (o : Option A) → (o ≡ none) ⊎ ((a : A) × (o ≡ some a))
Option-cases none = inl refl
Option-cases (some a) = inr (a, refl)

pub and_true : (a b : Bool) → (a && b) ≡ true → (a ≡ true) × (b ≡ true)
and_true a b h = ground arith

-- Python's `==`, as an interface.
pub record Eq {ℓ} (T : Type ℓ) : Type ℓ where
  pub equal : T → T → Bool
  pub equal_iff : (x y : T) → (equal x y ≡ true) ↔ (x ≡ y)

infix 50 ◌==◌
abbrev pub ◌==◌ {ℓ} : {T : Type ℓ} ⦃i : Eq T⦄ → T → T → Bool
◌==◌ ⦃i⦄ x y = i.equal x y

instance abbrev pub string_eq : Eq String
string_eq = record { equal = str_beq; equal_iff = eq_iff }

instance abbrev pub nat_eq : Eq ℕ
nat_eq = record { equal = nat_beq; equal_iff = nat_beq_iff }

abbrev option_beq {ℓ} : {A : Type ℓ} → (A → A → Bool) → Option A → Option A → Bool
option_beq f none none = true
option_beq f none (some b) = false
option_beq f (some a) none = false
option_beq f (some a) (some b) = f a b

pub option_beq_iff {ℓ} :
    {A : Type ℓ} (e : Eq A) (a b : Option A) → (option_beq e.equal a b ≡ true) ↔ (a ≡ b)
option_beq_iff e none none = (λ _. refl, λ _. refl)
option_beq_iff e none (some b) = (λ h. cc, λ h. cc)
option_beq_iff e (some a) none = (λ h. cc, λ h. cc)
option_beq_iff e (some a) (some b) =
    (λ h. cc ((e.equal_iff a b).0 h), λ h. (e.equal_iff a b).1 (cc))

instance abbrev pub option_eq {ℓ} : {A : Type ℓ} ⦃e : Eq A⦄ → Eq (Option A)
option_eq ⦃e⦄ = record { equal = option_beq e.equal; equal_iff = option_beq_iff e }

pub beq_refl {ℓ} : {A : Type ℓ} ⦃e : Eq A⦄ (a : A) → (a == a) ≡ true
beq_refl ⦃e⦄ a = (e.equal_iff a a).1 refl

pub beq→eq {ℓ} : {A : Type ℓ} ⦃e : Eq A⦄ (a b : A) → (a == b) ≡ true → a ≡ b
beq→eq ⦃e⦄ a b = (e.equal_iff a b).0

pub beq_comm {ℓ} : {A : Type ℓ} ⦃e : Eq A⦄ (a b : A) → (a == b) ≡ (b == a)
beq_comm ⦃e⦄ a b = elim (Bool-cases (e.equal a b)) [
  | inl h ↦ h ∙ sym ((e.equal_iff b a).1 (sym ((e.equal_iff a b).0 h)))
  | inr h ↦ elim (Bool-cases (e.equal b a)) [
    | inl k ↦ absurd (cc (h, (e.equal_iff a b).1 (sym ((e.equal_iff b a).0 k))))
    | inr k ↦ h ∙ sym k
  ]
]

abbrev list_beq {ℓ} : {A : Type ℓ} → (A → A → Bool) → List A → List A → Bool
list_beq f [] [] = true
list_beq f [] (b ∷ bs) = false
list_beq f (a ∷ as') [] = false
list_beq f (a ∷ as') (b ∷ bs) = f a b && list_beq f as' bs

pub list_beq_iff {ℓ} :
    {A : Type ℓ} (e : Eq A) (a b : List A) → (list_beq e.equal a b ≡ true) ↔ (a ≡ b)
list_beq_iff e [] [] = (λ _. refl, λ _. refl)
list_beq_iff e [] (b ∷ bs) = (λ h. cc, λ h. cc)
list_beq_iff e (a ∷ as') [] = (λ h. cc, λ h. cc)
list_beq_iff e (a ∷ as') (b ∷ bs) = (
  λ h.
      let (x, y) = and_true (e.equal a b) (list_beq e.equal as' bs) h in
      cc ((e.equal_iff a b).0 x, (list_beq_iff e as' bs).0 y),
  λ h. let x = (e.equal_iff a b).1 (cc) in let y = (list_beq_iff e as' bs).1 (cc) in rw (x, y),
)

instance abbrev pub list_eq {ℓ} : {A : Type ℓ} ⦃e : Eq A⦄ → Eq (List A)
list_eq ⦃e⦄ = record { equal = list_beq e.equal; equal_iff = list_beq_iff e }

pub not-false : (b : Bool) → not b ≡ false → b ≡ true
not-false b h = ground arith
