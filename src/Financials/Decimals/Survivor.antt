-- ===== src/Financials/Decimals/Survivor.antt =====
-- The order of `survivor_rank` in src/edgar/financials/decimals.py, and the fact that is least by it.
use edgar.Prelude.{
  ℕ, ◌≡◌, refl, sym, ◌∙◌, true, false, List, ◌∷◌, arith, ◌⊎◌, ◌↔◌, In, min_by, In-min_by,
  min_by_least,
}
use edgar.Prelude.Int.{ℤ, pos, negsuc, ltb_ℤ, int_beq_iff}
use edgar.Financials.Decimals.{
  Rank, leb_rank, Occurrence, before, rank_of, Precision, unstated, infinite, finite,
}

ltb_ℤ-trans : (a b c : ℤ) → ltb_ℤ a b ≡ true → ltb_ℤ b c ≡ true → ltb_ℤ a c ≡ true
ltb_ℤ-trans a b c h k = ground arith

ltb_ℤ-tri : (a b : ℤ) → (ltb_ℤ a b ≡ true) ⊎ ((a ≡ b) ⊎ (ltb_ℤ b a ≡ true))
ltb_ℤ-tri (pos a) (pos b) = ground arith
ltb_ℤ-tri (pos a) (negsuc b) = ground arith
ltb_ℤ-tri (negsuc a) (pos b) = ground arith
ltb_ℤ-tri (negsuc a) (negsuc b) = ground arith

ltb_ℤ-irrefl : (a : ℤ) → ltb_ℤ a a ≡ false
ltb_ℤ-irrefl a = ground arith

pub leb_rank_trans :
    (a b c : Rank) → leb_rank a b ≡ true → leb_rank b c ≡ true → leb_rank a c ≡ true
leb_rank_trans a b c h k = ground (
  arith,
  int_beq_iff a.fineness b.fineness,
  int_beq_iff b.fineness c.fineness,
  int_beq_iff a.fineness c.fineness,
  ltb_ℤ-trans a.fineness b.fineness c.fineness,
)

pub leb_rank_total : (a b : Rank) → (leb_rank a b ≡ true) ⊎ (leb_rank b a ≡ true)
leb_rank_total a b = ground (
  arith,
  int_beq_iff a.fineness b.fineness,
  int_beq_iff b.fineness a.fineness,
  ltb_ℤ-tri a.fineness b.fineness,
)

-- Facts that come before each other have one id.
pub leb_rank_antisym :
    (a b : Rank) → leb_rank a b ≡ true → leb_rank b a ≡ true → a.fact_id ≡ b.fact_id
leb_rank_antisym a b h k =
    ground (arith, int_beq_iff a.fineness b.fineness, ltb_ℤ-irrefl a.fineness)

rank_of-fact_id : (p : Precision) (n : ℕ) → (rank_of p n).fact_id ≡ n
rank_of-fact_id unstated n = refl
rank_of-fact_id infinite n = refl
rank_of-fact_id (finite d) n = refl

abbrev rank : Occurrence → Rank
rank o = rank_of o.precision o.fact.fact_id

before_trans : (a b c : Occurrence) → before a b ≡ true → before b c ≡ true → before a c ≡ true
before_trans a b c = leb_rank_trans (rank a) (rank b) (rank c)

before_total : (a b : Occurrence) → (before a b ≡ true) ⊎ (before b a ≡ true)
before_total a b = leb_rank_total (rank a) (rank b)

before_antisym :
    (a b : Occurrence) → before a b ≡ true → before b a ≡ true → a.fact.fact_id ≡ b.fact.fact_id
before_antisym a b h k =
    sym (rank_of-fact_id a.precision a.fact.fact_id)
    ∙ leb_rank_antisym (rank a) (rank b) h k
    ∙ rank_of-fact_id b.precision b.fact.fact_id

abbrev pub survivor : Occurrence → List Occurrence → Occurrence
survivor o os = min_by before o os

pub survivor-In : (o : Occurrence) (os : List Occurrence) → In (survivor o os) (o ∷ os)
survivor-In o os = In-min_by before o os

pub survivor_least :
    (o : Occurrence) (os : List Occurrence) (a : Occurrence)
    → In a (o ∷ os)
    → before (survivor o os) a ≡ true
survivor_least o os = min_by_least before before_trans before_total o os

-- No two of the occurrences have one fact id.
abbrev pub DistinctIds : List Occurrence → Type 0
DistinctIds os = (a b : Occurrence) → In a os → In b os → a.fact.fact_id ≡ b.fact.fact_id → a ≡ b

-- Two lists hold the same occurrences.
abbrev pub SameMembers : List Occurrence → List Occurrence → Type 0
SameMembers os ps = (a : Occurrence) → In a os ↔ In a ps

pub survivor-SameMembers :
    (o p : Occurrence) (os ps : List Occurrence)
    → SameMembers (o ∷ os) (p ∷ ps)
    → DistinctIds (o ∷ os)
    → survivor o os ≡ survivor p ps
survivor-SameMembers o p os ps same distinct =
    let s = survivor o os in
    let t = survivor p ps in
    let s_in = survivor-In o os in
    let t_in = (same t).1 (survivor-In p ps) in
    distinct s t s_in t_in
      (before_antisym s t (survivor_least o os t t_in) (survivor_least p ps s ((same s).0 s_in)))
