-- ===== src/Registry/Service/Ledger.antt =====
-- The invariant of the mapping ledger of src/edgar/registry/service.py, and what an insertion needs.
pub mod Methods
pub mod History
pub mod Revisions
pub mod Enabled
pub mod Scenarios
use edgar.Prelude.{
  ℕ, ◌+◌, ◌<◌, ◌≡◌, ◌≢◌, refl, sym, ◌∙◌, ap, ◌⊎◌, inl, inr, Bool, true, false, not, ◌&&◌, ◌||◌,
  List, [], ◌∷◌, Option, none, some, String, Result, ok, err, raise_if, ◌>>=◌, ◌>>◌, >>=-eq-ok,
  raise_if-eq-ok, ◌==◌, nat_eq, option_eq, any, any→In, In→any, In, All, All-In, In-filter_intro,
  arith, Bool-cases, beq→eq, beq_refl, beq_comm, if◌then◌else◌,
}
use edgar.Registry.Interval.{scopes_overlap, scopes_overlap_comm}
use edgar.Registry.Metrics.{CanonicalMetric, DefinitionPayload}
use edgar.Registry.Store.{
  Db, NewAssertion, MappingAssertion, Claim, is_exact, is_accepted, supersedes, is_current,
  add_assertion, fetch_current_assertions, insert_mapping_assertion, assertion_constraints,
  unique_check, supersedes_exists,
}
use edgar.Registry.Mapping.{MappingAssertionCreate, MappingAssertionRevision}
use edgar.Registry.Service.{
  conflicts, conflict_if_needed, propose_mapping, accept_mapping, reject_mapping, require_current,
}

abbrev Older : Option ℕ → ℕ → Type 0
Older none n = Unit
Older (some i) n = i < n

-- Two assertions that must not apply together: accepted, exact and of one source concept.
pub record Rivals (a b : MappingAssertion) : Type 0 where
  pub distinct : a.id ≢ b.id
  pub accepted_left : is_accepted a.row.status ≡ true
  pub accepted_right : is_accepted b.row.status ≡ true
  pub exact_left : is_exact a.row.claim.relation ≡ true
  pub exact_right : is_exact b.row.claim.relation ≡ true
  pub one_concept : a.row.claim.source_concept_id ≡ b.row.claim.source_concept_id

-- Keys are below the sequence, every revision refers to an older row, no row has two successors,
-- and no two current accepted exact mappings of one concept have overlapping scopes.
pub record IsLedger (db : Db) : Type 0 where
  pub fresh : All (λ a. a.id < db.next_id) db.assertions
  pub linked : All (λ a. Older a.row.supersedes_id db.next_id) db.assertions
  pub linear :
      (a b : MappingAssertion) (i : ℕ)
      → In a db.assertions
      → In b db.assertions
      → a.row.supersedes_id ≡ some i
      → b.row.supersedes_id ≡ some i
      → a ≡ b
  pub exclusive :
      (a b : MappingAssertion)
      → In a db.assertions
      → In b db.assertions
      → is_current db a ≡ true
      → is_current db b ≡ true
      → Rivals a b
      → scopes_overlap a.row.claim.scope b.row.claim.scope ≡ false

Rivals-comm : (a b : MappingAssertion) → Rivals a b → Rivals b a
Rivals-comm a b v = record {
  distinct = λ e. v.distinct (sym e);
  accepted_left = v.accepted_right;
  accepted_right = v.accepted_left;
  exact_left = v.exact_right;
  exact_right = v.exact_left;
  one_concept = sym v.one_concept;
}

abbrev new_assertion : Db → NewAssertion → MappingAssertion
new_assertion db r = record { id = db.next_id; row = r }

-- What an insertion has to bring, so that the ledger stays one.
record MayInsert (db : Db) (r : NewAssertion) : Type 0 where
  unique : unique_check r.supersedes_id db.assertions ≡ true
  older : Older r.supersedes_id db.next_id
  no_rival :
      (b : MappingAssertion)
      → In b db.assertions
      → is_current db b ≡ true
      → (r.supersedes_id == some b.id) ≡ false
      → Rivals (new_assertion db r) b
      → scopes_overlap r.claim.scope b.row.claim.scope ≡ false

All-lt_suc :
    (n : ℕ) (rows : List MappingAssertion) → All (λ a. a.id < n) rows → All (λ a. a.id < n + 1) rows
All-lt_suc n [] h = tt
All-lt_suc n (a ∷ rows) h = (omega arith, All-lt_suc n rows h.1)

Older-suc : (i : Option ℕ) (n : ℕ) → Older i n → Older i (n + 1)
Older-suc none n h = tt
Older-suc (some i) n h = omega arith

All-Older_suc :
    (n : ℕ) (rows : List MappingAssertion)
    → All (λ a. Older a.row.supersedes_id n) rows
    → All (λ a. Older a.row.supersedes_id (n + 1)) rows
All-Older_suc n [] h = tt
All-Older_suc n (a ∷ rows) h = (Older-suc a.row.supersedes_id n h.0, All-Older_suc n rows h.1)

-- A row that is current after an insertion was current, and is not what the new row supersedes.
still_current :
    (db : Db) (r : NewAssertion) (b : MappingAssertion)
    → is_current (add_assertion db r) b ≡ true
    → (is_current db b ≡ true) × ((r.supersedes_id == some b.id) ≡ false)
unfolding add_assertion
still_current db r b h = (ground arith, ground arith)

no_second :
    (rows : List MappingAssertion) (o : Option ℕ) (i : ℕ) (b : MappingAssertion)
    → unique_check o rows ≡ true
    → o ≡ some i
    → In b rows
    → b.row.supersedes_id ≢ some i
no_second rows none i b u e j s = cc
no_second rows (some k) i b u e j s =
    let same : k ≡ i = cc in
    let hit : supersedes k b ≡ true = rw (same, s) (beq_refl (some i)) in
    absurd (cc (rw (In→any (supersedes k) rows b j hit) at u))

add_assertion-IsLedger :
    (db : Db) (r : NewAssertion) → IsLedger db → MayInsert db r → IsLedger (add_assertion db r)
unfolding add_assertion
add_assertion-IsLedger db r h m = record {
  fresh = (omega arith, All-lt_suc db.next_id db.assertions h.fresh);
  linked = (
    Older-suc r.supersedes_id db.next_id m.older,
    All-Older_suc db.next_id db.assertions h.linked,
  );
  linear = linear';
  exclusive = exclusive';
}
  where
    rows : List MappingAssertion
    rows = db.assertions

    n : MappingAssertion
    n = new_assertion db r

    linear' :
        (a b : MappingAssertion) (i : ℕ)
        → In a (n ∷ rows)
        → In b (n ∷ rows)
        → a.row.supersedes_id ≡ some i
        → b.row.supersedes_id ≡ some i
        → a ≡ b
    linear' a b i (inl x) (inl y) p q = x ∙ sym y
    linear' a b i (inl x) (inr y) p q =
        absurd (no_second rows r.supersedes_id i b m.unique (cc) y q)
    linear' a b i (inr x) (inl y) p q =
        absurd (no_second rows r.supersedes_id i a m.unique (cc) x p)
    linear' a b i (inr x) (inr y) p q = h.linear a b i x y p q

    exclusive' :
        (a b : MappingAssertion)
        → In a (n ∷ rows)
        → In b (n ∷ rows)
        → is_current (add_assertion db r) a ≡ true
        → is_current (add_assertion db r) b ≡ true
        → Rivals a b
        → scopes_overlap a.row.claim.scope b.row.claim.scope ≡ false
    exclusive' a b (inl x) (inl y) p q v = absurd (v.distinct (cc))
    exclusive' a b (inl x) (inr y) p q v =
        let (c, s) = still_current db r b q in rw x (m.no_rival b y c s (rw x at v))
    exclusive' a b (inr x) (inl y) p q v =
        let (c, s) = still_current db r a p in
        scopes_overlap_comm a.row.claim.scope b.row.claim.scope
        ∙ rw y (m.no_rival a x c s (Rivals-comm a n (rw y at v)))
    exclusive' a b (inr x) (inr y) p q v =
        h.exclusive a b x y (still_current db r a p).0 (still_current db r b q).0 v

-- What a successful insertion says.
pub record Inserted (db : Db) (r : NewAssertion) (i : ℕ) (db' : Db) : Type 0 where
  pub key : i ≡ db.next_id
  pub table : db' ≡ add_assertion db r
  pub unique : unique_check r.supersedes_id db.assertions ≡ true
  pub found : supersedes_exists r.supersedes_id db.assertions ≡ true

pub insert-Inserted :
    (db : Db) (r : NewAssertion) (i : ℕ) (db' : Db)
    → insert_mapping_assertion db r ≡ ok (i, db')
    → Inserted db r i db'
unfolding insert_mapping_assertion assertion_constraints
insert-Inserted db r i db' h = elim (Bool-cases (unique_check r.supersedes_id db.assertions)) [
  | inr u ↦ absurd (cc (rw u at h))
  | inl u ↦ elim (Bool-cases (supersedes_exists r.supersedes_id db.assertions)) [
    | inr f ↦ absurd (cc (rw (u, f) at h))
    | inl f ↦
        let (_, _, e) =
          >>=-eq-ok (assertion_constraints db r) (λ _. ok (db.next_id, add_assertion db r)) h in
        record { key = ground arith; table = ground arith; unique = u; found = f }
  ]
]

Older-of_found :
    (db : Db) (o : Option ℕ)
    → IsLedger db
    → supersedes_exists o db.assertions ≡ true
    → Older o db.next_id
Older-of_found db none h f = tt
Older-of_found db (some i) h f =
    let (a, j, e) = any→In (λ x. x.id == i) db.assertions f in
    let below = All-In (λ x. x.id < db.next_id) db.assertions h.fresh a j in
    rw (← beq→eq a.id i e) below

insert-IsLedger :
    (db : Db) (r : NewAssertion) (i : ℕ) (db' : Db)
    → IsLedger db
    → insert_mapping_assertion db r ≡ ok (i, db')
    → ((b : MappingAssertion)
        → In b db.assertions
        → is_current db b ≡ true
        → (r.supersedes_id == some b.id) ≡ false
        → Rivals (new_assertion db r) b
        → scopes_overlap r.claim.scope b.row.claim.scope ≡ false)
    → IsLedger db'
insert-IsLedger db r i db' h e f =
    let ins = insert-Inserted db r i db' e in
    rw ins.table (
      add_assertion-IsLedger db r h (record {
        unique = ins.unique;
        older = Older-of_found db r.supersedes_id h ins.found;
        no_rival = f;
      }))

conflicts-hit :
    (db : Db) (r : NewAssertion) (i : ℕ) (b : MappingAssertion)
    → r.supersedes_id ≡ some i
    → (r.supersedes_id == some b.id) ≡ false
    → Rivals (new_assertion db r) b
    → scopes_overlap r.claim.scope b.row.claim.scope ≡ true
    → conflicts r.claim i b ≡ true
conflicts-hit db r i b e s v overlap =
    let k : (b.id == i) ≡ false = beq_comm b.id i ∙ rw e at s in
    rw (
      k,
      v.accepted_right,
      v.exact_right,
      v.one_concept,
      beq_refl b.row.claim.source_concept_id,
      overlap,
    )

-- The conflict check leaves no rival of the claim but the row that is superseded.
conflict-no_rival :
    (db : Db) (r : NewAssertion) (i : ℕ)
    → conflict_if_needed db r.claim i ≡ ok tt
    → r.supersedes_id ≡ some i
    → (b : MappingAssertion) → In b db.assertions
    → is_current db b ≡ true
    → (r.supersedes_id == some b.id) ≡ false
    → Rivals (new_assertion db r) b
    → scopes_overlap r.claim.scope b.row.claim.scope ≡ false
unfolding conflict_if_needed fetch_current_assertions
conflict-no_rival db r i h e b j c s v =
    elim (Bool-cases (scopes_overlap r.claim.scope b.row.claim.scope)) [
      | inr no_overlap ↦ no_overlap
      | inl overlap ↦
          let none_left =
            raise_if-eq-ok (any (conflicts r.claim i) (fetch_current_assertions db)) _
              (rw v.exact_left at h) in
          absurd (
            cc (
              none_left,
              In→any (conflicts r.claim i) (fetch_current_assertions db) b
                  (In-filter_intro (is_current db) db.assertions b j c)
                  (conflicts-hit db r i b e s v overlap),
            ))
    ]
