-- ===== src/Registry/Service/Ledger/Methods.antt =====
-- The methods of the mapping ledger of src/edgar/registry/service.py as steps on its tables, and the
-- ledger's invariant under them.
use edgar.Prelude.{
  ℕ, ◌≡◌, refl, Bool, true, false, not, ◌||◌, List, [], some, String, Result, ok, raise_if,
  >>=-eq-ok, raise_if-eq-ok, nat_eq, option_eq, arith,
}
use edgar.Registry.Metrics.{CanonicalMetric, DefinitionPayload}
use edgar.Registry.Store.{
  Db, MappingAssertion, accepted, is_candidate, is_accepted, insert_mapping_assertion,
  lock_source_concept, fetch_concept_by_qname,
}
use edgar.Prelude.{subst, unsafe_metric_deletion}
use edgar.Registry.Store.{referenced_metric_keys}
use edgar.Registry.Metrics.{MetricRow}
use edgar.Registry.Sync.{
  CanonicalSyncResult, sync, sync_loop, removed_keys, blocked_keys, is_none_left,
  delete_canonical_metrics,
}
use edgar.Registry.Mapping.{MappingAssertionCreate, MappingAssertionRevision, parse_clark_qname}
use edgar.Registry.Service.{
  conflict_if_needed, require_yaml_metric, require_accepted_evidence, unknown_issuer, or_raise,
  blank, propose_mapping, accept_mapping, reject_mapping, require_current,
}
use edgar.Registry.Service.Ledger.{IsLedger, insert-IsLedger, conflict-no_rival}

-- What an acceptance inserts, and what it has checked.
pub record Accepts (db : Db) (now assertion_id : ℕ) (revision : MappingAssertionRevision) (i : ℕ)
    (db' : Db) : Type 0 where
  pub current : MappingAssertion
  pub is_found : require_current db assertion_id ≡ ok current
  pub was_candidate : is_candidate current.row.status ≡ true
  pub no_conflict : conflict_if_needed db current.row.claim assertion_id ≡ ok tt
  pub inserted :
      insert_mapping_assertion db (record {
        supersedes_id = some assertion_id;
        claim = current.row.claim;
        status = accepted;
        method = revision.method;
        rationale = revision.rationale;
        evidence = revision.evidence;
        created_at = now;
        created_by = revision.created_by;
      })
      ≡ ok (i, db')

module _ (digest : DefinitionPayload → String) (yaml : Result (List CanonicalMetric)) where
  pub accept-Accepts :
      (db : Db) (now assertion_id : ℕ) (revision : MappingAssertionRevision) (i : ℕ) (db' : Db)
      → accept_mapping digest yaml db now assertion_id revision ≡ ok (i, db')
      → Accepts db now assertion_id revision i db'
  unfolding accept_mapping
  accept-Accepts db now assertion_id revision i db' h =
      let (current, found, h2) = >>=-eq-ok (require_current db assertion_id) _ h in
      let (u, cand, h3) = >>=-eq-ok (raise_if (not (is_candidate current.row.status)) _) _ h2 in
      let (metric, _, h4) = >>=-eq-ok (require_yaml_metric digest yaml db _) _ h3 in
      let (_, _, h5) = >>=-eq-ok (require_accepted_evidence revision _ _) _ h4 in
      let (_, _, h6) = >>=-eq-ok (lock_source_concept db _) _ h5 in
      let (_, checked, h7) =
        >>=-eq-ok (conflict_if_needed db current.row.claim assertion_id) _ h6 in
      record {
        current = current;
        is_found = found;
        was_candidate = not_false (is_candidate current.row.status) (raise_if-eq-ok _ _ cand);
        no_conflict = checked;
        inserted = h7;
      }
    where
      not_false : (b : Bool) → not b ≡ false → b ≡ true
      not_false b e = ground arith

  -- An acceptance that returns keeps the ledger's invariant: in the new table keys are fresh, no row
  -- is superseded twice, and no two current accepted exact mappings of one concept overlap.
  pub accept_mapping-IsLedger :
      (db : Db) (now assertion_id : ℕ) (revision : MappingAssertionRevision) (i : ℕ) (db' : Db)
      → IsLedger db
      → accept_mapping digest yaml db now assertion_id revision ≡ ok (i, db')
      → IsLedger db'
  accept_mapping-IsLedger db now assertion_id revision i db' h e =
      let a = accept-Accepts db now assertion_id revision i db' e in
      insert-IsLedger db _ i db' h a.inserted
        (conflict-no_rival db _ assertion_id a.no_conflict refl)

  -- A proposal that returns keeps the ledger's invariant.
  pub propose_mapping-IsLedger :
      (db : Db) (now : ℕ) (create : MappingAssertionCreate) (i : ℕ) (db' : Db)
      → IsLedger db
      → propose_mapping digest yaml db now create ≡ ok (i, db')
      → IsLedger db'
  unfolding propose_mapping
  propose_mapping-IsLedger db now create i db' h e =
      let (parts, _, e2) = >>=-eq-ok (parse_clark_qname create.concept) _ e in
      let (concept, _, e3) =
        >>=-eq-ok (or_raise (fetch_concept_by_qname db parts.0 parts.1) _) _ e2 in
      let (_, _, e4) =
        >>=-eq-ok (raise_if (unknown_issuer digest yaml db create.scope.issuer_cik) _) _ e3 in
      let (metric, _, e5) =
        >>=-eq-ok (require_yaml_metric digest yaml db create.target_metric_key) _ e4 in
      insert-IsLedger db _ i db' h e5 (λ b _ _ _ v. absurd (cc v.accepted_left))

-- A rejection that returns keeps the ledger's invariant.
pub reject_mapping-IsLedger :
    (db : Db) (now assertion_id : ℕ) (revision : MappingAssertionRevision) (i : ℕ) (db' : Db)
    → IsLedger db
    → reject_mapping db now assertion_id revision ≡ ok (i, db')
    → IsLedger db'
unfolding reject_mapping
reject_mapping-IsLedger db now assertion_id revision i db' h e =
    let (current, _, e2) = >>=-eq-ok (require_current db assertion_id) _ e in
    let (_, _, e3) =
      >>=-eq-ok
        (raise_if (not (is_candidate current.row.status || is_accepted current.row.status)) _) _
        e2 in
    let (_, _, e4) = >>=-eq-ok (raise_if (blank revision.rationale) _) _ e3 in
    insert-IsLedger db _ i db' h e4 (λ b _ _ _ v. absurd (cc v.accepted_left))

with_metrics-IsLedger :
    (db : Db) (rows : List MetricRow) → IsLedger db → IsLedger (record db { metrics = rows })
with_metrics-IsLedger db rows h = record {
  fresh = h.fresh;
  linked = h.linked;
  linear = h.linear;
  exclusive = h.exclusive;
}

-- A synchronisation of the mirror keeps the ledger's invariant.
sync-IsLedger :
    (digest : DefinitionPayload → String) (db : Db) (now : ℕ) (yaml : List CanonicalMetric)
    (result : CanonicalSyncResult) (db' : Db)
    → IsLedger db
    → sync digest db now yaml ≡ ok (result, db')
    → IsLedger db'
unfolding sync
sync-IsLedger digest db now yaml result db' h e =
    let (d, e1, h1) = >>=-eq-ok (sync_loop digest db.metrics now yaml db.metrics) _ e in
    let removed = removed_keys digest db.metrics yaml in
    let (u, e2, h2) =
      >>=-eq-ok
        (raise_if (not (is_none_left (blocked_keys digest removed (referenced_metric_keys db))))
          unsafe_metric_deletion)
        _ h1 in
    let p : (record db { metrics = delete_canonical_metrics removed d.1 }) ≡ db' = cc in
    subst IsLedger p (with_metrics-IsLedger db (delete_canonical_metrics removed d.1) h)

-- The steps of the ledger: a call of a method that returns. A call that raises is rolled back.
pub data Step (digest : DefinitionPayload → String) (db db' : Db) : Type 0 where
  propose :
      (yaml : Result (List CanonicalMetric)) (now : ℕ) (create : MappingAssertionCreate) (i : ℕ)
      → propose_mapping digest yaml db now create ≡ ok (i, db')
      → Step digest db db'
  accept :
      (yaml : Result (List CanonicalMetric)) (now assertion_id : ℕ)
      (revision : MappingAssertionRevision) (i : ℕ)
      → accept_mapping digest yaml db now assertion_id revision ≡ ok (i, db')
      → Step digest db db'
  reject :
      (now assertion_id : ℕ) (revision : MappingAssertionRevision) (i : ℕ)
      → reject_mapping db now assertion_id revision ≡ ok (i, db')
      → Step digest db db'
  synchronise :
      (yaml : List CanonicalMetric) (now : ℕ) (result : CanonicalSyncResult)
      → sync digest db now yaml ≡ ok (result, db')
      → Step digest db db'

pub data Reach (digest : DefinitionPayload → String) (db : Db) : Db → Type 0 where
  here : Reach digest db db
  next : {t u : Db} → Reach digest db t → Step digest t u → Reach digest db u

Step-IsLedger :
    (digest : DefinitionPayload → String) (t u : Db) → Step digest t u → IsLedger t → IsLedger u
Step-IsLedger digest t u (propose yaml now create i e) h =
    propose_mapping-IsLedger digest yaml t now create i u h e
Step-IsLedger digest t u (accept yaml now assertion_id revision i e) h =
    accept_mapping-IsLedger digest yaml t now assertion_id revision i u h e
Step-IsLedger digest t u (reject now assertion_id revision i e) h =
    reject_mapping-IsLedger t now assertion_id revision i u h e
Step-IsLedger digest t u (synchronise yaml now result e) h =
    sync-IsLedger digest t now yaml result u h e

empty-IsLedger : (db : Db) → db.assertions ≡ [] → IsLedger db
empty-IsLedger db e = record {
  fresh = rw e tt;
  linked = rw e tt;
  linear = λ a b i x. absurd (rw e at x);
  exclusive = λ a b x. absurd (rw e at x);
}

-- In every table that proposals, acceptances, rejections and synchronisations of the mirror reach
-- from an empty ledger, keys are fresh, no assertion is superseded twice, and no two current accepted exact mappings of one source
-- concept have overlapping scopes.
pub Reach-IsLedger :
    (digest : DefinitionPayload → String) (start db : Db)
    → start.assertions ≡ []
    → Reach digest start db
    → IsLedger db
Reach-IsLedger digest start db e here = empty-IsLedger start e
Reach-IsLedger digest start db e (next r s) =
    Step-IsLedger digest _ db s (Reach-IsLedger digest start _ e r)
