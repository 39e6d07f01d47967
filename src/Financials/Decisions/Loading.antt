-- ===== src/Financials/Decisions/Loading.antt =====
-- The decisions that `load_decisions` of src/edgar/financials/decisions.py returns.
use edgar.Prelude.{
  ◌≡◌, subst, refl, sym, inl, inr, Bool, true, false, not, ◌&&◌, List, [], ◌∷◌, Option, some,
  String, ok, >>=-eq-ok, Bool-cases, Option-cases, arith, ◌==◌, string_eq, any, find, In, In→any,
  All,
}
use edgar.Financials.Decisions.{
  validate_record, LoadedDecision, DecisionRecord, DecisionKey, decision_key, key_beq, check_keys,
  load_all, load_one, load_with, load_decisions, is_accepted,
}

-- Of two decisions that are in use, the one behind does not have the key of the one in front.
abbrev pub DistinctKeys : List LoadedDecision → Type 0
DistinctKeys [] = Unit
DistinctKeys (ld ∷ lds) =
    (ld.stale_inactive ≡ false
      → All
          (λ later.
            later.stale_inactive ≡ false
            → key_beq (decision_key later.record_of) (decision_key ld.record_of) ≡ false)
          lds)
    × DistinctKeys lds

unseen :
    (seen : List DecisionKey) (lds : List LoadedDecision) (k : DecisionKey)
    → check_keys seen lds ≡ ok tt
    → In k seen
    → All (λ ld. ld.stale_inactive ≡ false → key_beq (decision_key ld.record_of) k ≡ false) lds
unfolding check_keys
unseen seen [] k h i = tt
unseen seen (ld ∷ lds) k h i = elim (Bool-cases ld.stale_inactive) [
  | inl st ↦ ((λ e. absurd (cc (st, e))), unseen seen lds k (rw st at h) i)
  | inr st ↦ elim (Bool-cases (any (key_beq (decision_key ld.record_of)) seen)) [
    | inl hit ↦ absurd (cc (rw (st, hit) at h))
    | inr no_hit ↦ (
      (λ e. elim (Bool-cases (key_beq (decision_key ld.record_of) k)) [
        | inl eq ↦ absurd (cc (no_hit, In→any (key_beq (decision_key ld.record_of)) seen k i eq))
        | inr eq ↦ eq
      ]),
      unseen (decision_key ld.record_of ∷ seen) lds k (rw (st, no_hit) at h) (inr i),
    )
  ]
]

check_keys-DistinctKeys :
    (seen : List DecisionKey) (lds : List LoadedDecision)
    → check_keys seen lds ≡ ok tt
    → DistinctKeys lds
unfolding check_keys
check_keys-DistinctKeys seen [] h = tt
check_keys-DistinctKeys seen (ld ∷ lds) h = elim (Bool-cases ld.stale_inactive) [
  | inl st ↦ ((λ e. absurd (cc (st, e))), check_keys-DistinctKeys seen lds (rw st at h))
  | inr st ↦ elim (Bool-cases (any (key_beq (decision_key ld.record_of)) seen)) [
    | inl hit ↦ absurd (cc (rw (st, hit) at h))
    | inr no_hit ↦
        let k = decision_key ld.record_of in
        let h2 = rw (st, no_hit) at h in
        ((λ _. unseen (k ∷ seen) lds k h2 (inl refl)), check_keys-DistinctKeys (k ∷ seen) lds h2)
  ]
]

-- The hash of a metric's definition that the loaded metrics give.
abbrev pub hash_of : List (String × String) → String → Option (String × String)
hash_of hashes metric = find (λ (m : String × String). m.0 == metric) hashes

-- The decision's metric is known, and the decision is stale exactly when its contract hash is not
-- that of the metric's definition.
abbrev pub IsTracked : List (String × String) → LoadedDecision → Type 0
IsTracked hashes ld =
    (m : String × String) × (hash_of hashes ld.record_of.metric ≡ some m)
    × (ld.stale_inactive ≡ not (ld.record_of.contract_hash == m.1))

-- What a loaded decision keeps: it is tracked and, where stale accepted decisions are fatal, no
-- accepted one is stale.
abbrev pub IsLoaded : List (String × String) → Bool → LoadedDecision → Type 0
IsLoaded hashes fatal ld =
    IsTracked hashes ld
    × (fatal ≡ true → is_accepted ld.record_of.status ≡ true → ld.stale_inactive ≡ false)

load_with-IsLoaded :
    (hashes : List (String × String)) (fatal : Bool) (r : DecisionRecord) (m : String × String)
    (ld : LoadedDecision)
    → hash_of hashes r.metric ≡ some m
    → load_with fatal r (some m) ≡ ok ld
    → IsLoaded hashes fatal ld
unfolding load_with
load_with-IsLoaded hashes fatal r (name, hash) ld e g =
    elim (Bool-cases (not (r.contract_hash == hash) && (is_accepted r.status && fatal))) [
      | inl t ↦ absurd (cc (rw t at g))
      | inr t ↦ kept (not (r.contract_hash == hash)) refl t (rw t at g)
    ]
  where
    kept :
        (stale : Bool)
        → not (r.contract_hash == hash) ≡ stale
        → stale && (is_accepted r.status && fatal) ≡ false
        → ok (record { record_of = r; stale_inactive = stale }) ≡ ok ld
        → IsLoaded hashes fatal ld
    kept stale d t h =
        let p : record { record_of = r; stale_inactive = stale } ≡ ld = cc in
        subst (IsLoaded hashes fatal) p (((name, hash), e, sym d), λ f a. ground arith)

load_one-IsLoaded :
    (hashes : List (String × String)) (fatal : Bool) (r : DecisionRecord) (ld : LoadedDecision)
    → load_one hashes fatal r ≡ ok ld
    → IsLoaded hashes fatal ld
unfolding load_one load_with
load_one-IsLoaded hashes fatal r ld h = elim (Option-cases (hash_of hashes r.metric)) [
  | inl e ↦ absurd (cc (rw e at h))
  | inr (m, e) ↦ load_with-IsLoaded hashes fatal r m ld e (rw e at h)
]

load_all-IsLoaded :
    (hashes : List (String × String)) (fatal : Bool) (raws : List DecisionRecord)
    (loaded : List LoadedDecision)
    → load_all hashes fatal raws ≡ ok loaded
    → All (IsLoaded hashes fatal) loaded
unfolding load_all
load_all-IsLoaded hashes fatal [] loaded h =
    let p : [] ≡ loaded = cc in subst (All (IsLoaded hashes fatal)) p tt
load_all-IsLoaded hashes fatal (raw ∷ raws) loaded h =
    let (r, e1, h1) = >>=-eq-ok (validate_record raw) _ h in
    let (ld, e2, h2) = >>=-eq-ok (load_one hashes fatal r) _ h1 in
    let (rest, e3, h3) = >>=-eq-ok (load_all hashes fatal raws) _ h2 in
    let p : ld ∷ rest ≡ loaded = cc in
    subst (All (IsLoaded hashes fatal)) p
      (load_one-IsLoaded hashes fatal r ld e2, load_all-IsLoaded hashes fatal raws rest e3)

-- Where the decisions load, each one's metric is known, its stale flag says whether its contract hash
-- differs from that of the metric's definition, no accepted one is stale if that is fatal, and no two
-- decisions that are not stale share the key of metric, family, issuer and local name.
pub load_decisions-IsLoaded :
    (hashes : List (String × String)) (fatal : Bool) (raws : List DecisionRecord)
    (loaded : List LoadedDecision)
    → load_decisions hashes fatal raws ≡ ok loaded
    → All (IsLoaded hashes fatal) loaded × DistinctKeys loaded
unfolding load_decisions
load_decisions-IsLoaded hashes fatal raws loaded h =
    let (lds, e1, h1) = >>=-eq-ok (load_all hashes fatal raws) _ h in
    let (u, e2, h2) = >>=-eq-ok (check_keys [] lds) _ h1 in
    let p : lds ≡ loaded = cc in
    subst (λ l. All (IsLoaded hashes fatal) l × DistinctKeys l) p
      (load_all-IsLoaded hashes fatal raws lds e1, check_keys-DistinctKeys [] lds e2)
