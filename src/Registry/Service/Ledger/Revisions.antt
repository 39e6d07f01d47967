-- ===== src/Registry/Service/Ledger/Revisions.antt =====
-- What an acceptance of src/edgar/registry/service.py does to the table.
use edgar.Prelude.{
  ℕ, ◌≡◌, refl, inl, inr, true, List, ◌∷◌, some, String, Result, ok, err, mapping_decision_error,
  Option-cases, ◌==◌, nat_eq, option_eq, arith, Bool-cases, beq_refl, nat_beq_iff,
}
use edgar.Registry.Metrics.{CanonicalMetric, DefinitionPayload}
use edgar.Registry.Store.{
  Db, NewAssertion, MappingAssertion, accepted, is_candidate, add_assertion, successor_id,
  fetch_mapping_assertion,
}
use edgar.Registry.Mapping.{MappingAssertionRevision}
use edgar.Registry.Service.{accept_mapping, require_current}
use edgar.Registry.Service.Ledger.{insert-Inserted}
use edgar.Registry.Service.Ledger.Methods.{accept-Accepts}

fetch-new :
    (db : Db) (r : NewAssertion)
    → fetch_mapping_assertion (add_assertion db r) db.next_id
      ≡ some (record { id = db.next_id; row = r })
unfolding fetch_mapping_assertion add_assertion
fetch-new db r = rw (beq_refl db.next_id)

successor-new :
    (db : Db) (r : NewAssertion) (i : ℕ)
    → r.supersedes_id ≡ some i
    → successor_id (add_assertion db r) i ≡ some db.next_id
unfolding successor_id add_assertion
successor-new db r i e = ground (arith, nat_beq_iff i i)

fetch-old :
    (db : Db) (r : NewAssertion) (i : ℕ) (c : MappingAssertion)
    → fetch_mapping_assertion db i ≡ some c
    → (a : MappingAssertion) × (fetch_mapping_assertion (add_assertion db r) i ≡ some a)
unfolding fetch_mapping_assertion add_assertion
fetch-old db r i c e = elim (Bool-cases (db.next_id == i)) [
  | inl t ↦ (record { id = db.next_id; row = r }, rw t)
  | inr t ↦ (c, rw t e)
]

superseded :
    (db : Db) (r : NewAssertion) (i : ℕ) (c : MappingAssertion)
    → require_current db i ≡ ok c
    → r.supersedes_id ≡ some i
    → require_current (add_assertion db r) i
      ≡ err (mapping_decision_error "not the current revision")
unfolding require_current
superseded db r i c h e = elim (Option-cases (fetch_mapping_assertion db i)) [
  | inl t ↦ absurd (cc (rw t at h))
  | inr (b, t) ↦ let (a, f) = fetch-old db r i b t in rw (f, successor-new db r i e)
]

-- Accepting inserts one row: an accepted assertion with the claim of the candidate that was current,
-- under the key that is returned. The candidate is not the current revision any more, so it cannot
-- be accepted or rejected again.
pub accept_mapping-effect :
    (digest : DefinitionPayload → String) (yaml : Result (List CanonicalMetric)) (db : Db)
    (now assertion_id : ℕ) (revision : MappingAssertionRevision) (i : ℕ) (db' : Db)
    → accept_mapping digest yaml db now assertion_id revision ≡ ok (i, db')
    → (c : MappingAssertion) × (a : MappingAssertion) × (require_current db assertion_id ≡ ok c)
      × (is_candidate c.row.status ≡ true)
      × (fetch_mapping_assertion db' i ≡ some a)
      × (a.row.status ≡ accepted)
      × (a.row.claim ≡ c.row.claim)
      × (a.row.supersedes_id ≡ some assertion_id)
      × (db'.assertions ≡ a ∷ db.assertions)
      × (require_current db' assertion_id ≡ err (mapping_decision_error "not the current revision"))
unfolding add_assertion
accept_mapping-effect digest yaml db now assertion_id revision i db' h =
    let a = accept-Accepts digest yaml db now assertion_id revision i db' h in
    let r : NewAssertion = record {
      supersedes_id = some assertion_id;
      claim = a.current.row.claim;
      status = accepted;
      method = revision.method;
      rationale = revision.rationale;
      evidence = revision.evidence;
      created_at = now;
      created_by = revision.created_by;
    } in
    let ins = insert-Inserted db r i db' a.inserted in
    (
      a.current,
      record { id = db.next_id; row = r },
      a.is_found,
      a.was_candidate,
      rw (ins.key, ins.table) (fetch-new db r),
      refl,
      refl,
      refl,
      rw ins.table,
      rw ins.table (superseded db r assertion_id a.current a.is_found refl),
    )
