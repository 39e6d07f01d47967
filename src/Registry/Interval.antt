-- ===== src/Registry/Interval.antt =====
-- src/edgar/registry/interval.py: when a mapping applies, and when two mappings can apply together.
-- A date is its ordinal: `date.min` is 1 and `date.max` is 3652059.
pub mod Scenarios
use Prim.Native.Nat.{max}
use mathlib.Core.Path.{ap₂}
use edgar.Prelude.{
  and_true, beq_comm, ℕ, ◌≤◌, ◌≡◌, ◌≢◌, refl, ◌↔◌, ◌⊎◌, inl, inr, Bool, true, false, not, ◌&&◌,
  ◌||◌, Option, none, some, String, ◌==◌, string_eq, option_eq, eq_iff, arith, ltb, leb, Bool-cases,
  beq→eq, beq_refl, if◌then◌else◌,
}

abbrev pub date_min : ℕ
date_min = 1

abbrev pub date_max : ℕ
date_max = 3652059

abbrev after_start : Option ℕ → ℕ → Bool
after_start none d = true
after_start (some valid_from) d = not (ltb d valid_from)

abbrev before_end : Option ℕ → ℕ → Bool
before_end none d = true
before_end (some valid_to) d = not (ltb valid_to d)

abbrev unbounded : Option ℕ → Option ℕ → Bool
unbounded none none = true
unbounded _ _ = false

abbrev within : Option ℕ → Option ℕ → Option ℕ → Bool
within valid_from valid_to none = false
within valid_from valid_to (some d) =
    if after_start valid_from d then before_end valid_to d else false

unfoldable pub interval_contains : Option ℕ → Option ℕ → Option ℕ → Bool
interval_contains valid_from valid_to report_period_end =
    if unbounded valid_from valid_to then true else within valid_from valid_to report_period_end

abbrev pub or_else : Option ℕ → ℕ → ℕ
or_else none d = d
or_else (some a) d = a

unfoldable pub intervals_overlap : Option ℕ → Option ℕ → Option ℕ → Option ℕ → Bool
intervals_overlap left_from left_to right_from right_to =
    let left_start = or_else left_from date_min in
    let left_end = or_else left_to date_max in
    let right_start = or_else right_from date_min in
    let right_end = or_else right_to date_max in
    leb left_start right_end && leb right_start left_end

pub data ScopeKind : Type 0 where
  global issuer : ScopeKind

-- The scope of a mapping assertion.
pub record Scope : Type 0 where
  pub kind : ScopeKind
  pub issuer_cik : Option String
  pub valid_from : Option ℕ
  pub valid_to : Option ℕ

abbrev both_issuer : ScopeKind → ScopeKind → Bool
both_issuer issuer issuer = true
both_issuer _ _ = false

unfoldable pub scopes_overlap : Scope → Scope → Bool
scopes_overlap left right =
    if both_issuer left.kind right.kind && not (left.issuer_cik == right.issuer_cik)
    then false
    else intervals_overlap left.valid_from left.valid_to right.valid_from right.valid_to

-- The dates that a bound may have, and the order that `MappingAssertionCreate` checks.
abbrev DateIn : Option ℕ → Type 0
DateIn none = Unit
DateIn (some d) = (date_min ≤ d) × (d ≤ date_max)

abbrev Ordered : Option ℕ → Option ℕ → Type 0
Ordered (some a) (some b) = a ≤ b
Ordered _ _ = Unit

pub record IsRange (valid_from valid_to : Option ℕ) : Type 0 where
  pub from_in : DateIn valid_from
  pub to_in : DateIn valid_to
  pub ordered : Ordered valid_from valid_to

contains_iff :
    (f t : Option ℕ) (d : ℕ)
    → date_min ≤ d
    → d ≤ date_max
    → (interval_contains f t (some d) ≡ true)
      ↔ ((or_else f date_min ≤ d) × (d ≤ or_else t date_max))
unfolding interval_contains
contains_iff none none d lo hi = (λ h. (lo, hi), λ h. refl)
contains_iff none (some t) d lo hi = (λ h. (lo, ground arith), λ h. ground arith)
contains_iff (some f) none d lo hi = (λ h. (ground arith, hi), λ h. ground arith)
contains_iff (some f) (some t) d lo hi = (λ h. (ground arith, ground arith), λ h. ground arith)

-- What a range gives for its two ends, with the defaults put in.
ends :
    (f t : Option ℕ)
    → IsRange f t
    → (date_min ≤ or_else f date_min)
      × (or_else f date_min ≤ or_else t date_max)
      × (or_else t date_max ≤ date_max)
ends none none r = omega arith
ends none (some t) r = omega arith
ends (some f) none r = omega arith
ends (some f) (some t) r = omega arith

-- Two validity ranges overlap exactly when some date lies in both, as `interval_contains` reads them.
pub intervals_overlap_iff :
    (f t g u : Option ℕ)
    → IsRange f t
    → IsRange g u
    → (intervals_overlap f t g u ≡ true) ↔ (
        (d : ℕ) × (date_min ≤ d)
        × (d ≤ date_max)
        × (interval_contains f t (some d) ≡ true)
        × (interval_contains g u (some d) ≡ true))
unfolding intervals_overlap
intervals_overlap_iff f t g u l r = (
  λ h.
      let (a, b, c) = ends f t l in
      let (a', b', c') = ends g u r in
      let d = max (or_else f date_min) (or_else g date_min) in
      let lo : date_min ≤ d = omega arith in
      let hi : d ≤ date_max = omega arith in
      let (x, y) = overlap-parts h in
      (
        d,
        lo,
        hi,
        (contains_iff f t d lo hi).1 (omega arith, omega arith),
        (contains_iff g u d lo hi).1 (omega arith, omega arith),
      ),
  λ (d, lo, hi, c, e).
      let (x, y) = (contains_iff f t d lo hi).0 c in
      let (z, w) = (contains_iff g u d lo hi).0 e in overlap-intro (omega arith) (omega arith),
)
  where
    overlap-parts :
        intervals_overlap f t g u ≡ true
        → (or_else f date_min ≤ or_else u date_max) × (or_else g date_min ≤ or_else t date_max)
    overlap-parts h = (ground arith, ground arith)

    overlap-intro :
        or_else f date_min ≤ or_else u date_max
        → or_else g date_min ≤ or_else t date_max
        → intervals_overlap f t g u ≡ true
    overlap-intro h k = ground arith

abbrev issuer_matches : ScopeKind → Option String → String → Bool
issuer_matches global cik c = true
issuer_matches issuer cik c = cik == some c

-- The facts that a scope reaches, as `RegistryService._affected_facts` selects them: those of its
-- issuer, if it has one, whose report period end its validity range contains.
abbrev pub applies_to : Scope → String → ℕ → Bool
applies_to s cik d =
    issuer_matches s.kind s.issuer_cik cik && interval_contains s.valid_from s.valid_to (some d)

abbrev ScopeIssuer : ScopeKind → Option String → Type 0
ScopeIssuer global none = Unit
ScopeIssuer issuer (some cik) = Unit
ScopeIssuer _ _ = ⊥

-- What `MappingAssertionCreate` and the table's constraints ask of a scope.
pub record IsScope (s : Scope) : Type 0 where
  pub issuer_given : ScopeIssuer s.kind s.issuer_cik
  pub range : IsRange s.valid_from s.valid_to

common_issuer :
    (k j : ScopeKind) (a b : Option String)
    → ScopeIssuer k a
    → ScopeIssuer j b
    → (both_issuer k j && not (a == b)) ≡ false
    → (c : String) × (issuer_matches k a c ≡ true) × (issuer_matches j b c ≡ true)
common_issuer global global a b h i e = ("", refl, refl)
common_issuer global issuer a (some c) h i e = (c, refl, beq_refl (some c))
common_issuer issuer global (some c) b h i e = (c, beq_refl (some c), refl)
common_issuer issuer issuer (some c) (some d) h i e =
    (c, beq_refl (some c), ground (arith, eq_iff c d, eq_iff d c))
common_issuer issuer issuer none b h i e = absurd h
common_issuer global issuer a none h i e = absurd i
common_issuer issuer global none b h i e = absurd h
common_issuer issuer issuer (some c) none h i e = absurd i

same_issuer :
    (k j : ScopeKind) (a b : Option String) (c : String)
    → issuer_matches k a c ≡ true
    → issuer_matches j b c ≡ true
    → (both_issuer k j && not (a == b)) ≡ false
same_issuer global j a b c h i = refl
same_issuer issuer global a b c h i = refl
same_issuer issuer issuer a b c h i =
    let x = beq→eq a (some c) h in let y = beq→eq b (some c) i in rw (x, y, beq_refl (some c))

-- Two scopes that `MappingAssertionCreate` and the table allow overlap exactly when there is an issuer
-- and a date to which both apply.
pub scopes_overlap_iff :
    (s t : Scope)
    → IsScope s
    → IsScope t
    → (scopes_overlap s t ≡ true) ↔ (
        (cik : String) × (d : ℕ) × (date_min ≤ d)
        × (d ≤ date_max)
        × (applies_to s cik d ≡ true)
        × (applies_to t cik d ≡ true))
unfolding scopes_overlap
scopes_overlap_iff s t hs ht = (
  λ h. elim (Bool-cases (both_issuer s.kind t.kind && not (s.issuer_cik == t.issuer_cik))) [
    | inl b ↦ absurd (cc (rw b at h))
    | inr b ↦
        let (cik, x, y) =
          common_issuer s.kind t.kind s.issuer_cik t.issuer_cik hs.issuer_given ht.issuer_given b in
        let (d, lo, hi, z, w) =
          (intervals_overlap_iff s.valid_from s.valid_to t.valid_from t.valid_to hs.range
              ht.range).0
            (rw b at h) in
        (cik, d, lo, hi, rw (x, z), rw (y, w))
  ],
  λ (cik, d, lo, hi, p, q).
      let (x, z) = and_true (issuer_matches s.kind s.issuer_cik cik) _ p in
      let (y, w) = and_true (issuer_matches t.kind t.issuer_cik cik) _ q in
      rw (same_issuer s.kind t.kind s.issuer_cik t.issuer_cik cik x y) (
        (intervals_overlap_iff s.valid_from s.valid_to t.valid_from t.valid_to hs.range ht.range).1
          (d, lo, hi, z, w)),
)

intervals_overlap_comm :
    (f t g u : Option ℕ) → intervals_overlap f t g u ≡ intervals_overlap g u f t
unfolding intervals_overlap
intervals_overlap_comm f t g u =
    and_comm (leb (or_else f date_min) (or_else u date_max))
      (leb (or_else g date_min) (or_else t date_max))
  where
    and_comm : (a b : Bool) → (a && b) ≡ (b && a)
    and_comm a b = ground arith

both_issuer_comm : (k j : ScopeKind) → both_issuer k j ≡ both_issuer j k
both_issuer_comm global global = refl
both_issuer_comm global issuer = refl
both_issuer_comm issuer global = refl
both_issuer_comm issuer issuer = refl

pub scopes_overlap_comm : (s t : Scope) → scopes_overlap s t ≡ scopes_overlap t s
unfolding scopes_overlap
scopes_overlap_comm s t =
    ap₂ (λ (b : Bool) (o : Bool). if b then false else o)
      (ap₂ (λ (x : Bool) (y : Bool). x && not y) (both_issuer_comm s.kind t.kind)
        (beq_comm s.issuer_cik t.issuer_cik))
      (intervals_overlap_comm s.valid_from s.valid_to t.valid_from t.valid_to)
