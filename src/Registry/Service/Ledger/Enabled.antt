-- ===== src/Registry/Service/Ledger/Enabled.antt =====
-- src/edgar/registry/service.py: acceptances and rejections that nothing forbids are carried out.
use edgar.Prelude.{
  ℕ, ◌≡◌, refl, ap, inl, inr, Bool, true, false, not, ◌||◌, List, [], ◌∷◌, Option, none, some,
  String, Result, ok, raise_if-then, >>=-eq-ok, metric_definition_changed, mapping_decision_error,
  arith, Option-cases, Bool-cases, ok_injective, ◌==◌, nat_eq, string_eq, option_eq, any, find,
}
use edgar.Prelude.Text.{strip-spaces}
use edgar.Registry.Store.{
  Db, Claim, NewAssertion, MappingAssertion, MappingEvidenceItem, accepted, rejected, is_candidate,
  is_accepted, metric_key, supersedes, successor_id, fetch_mapping_assertion, some_and, nonblank,
  issuer_exists, scope_issuer_check, valid_range_check, is_sha256, assertion_constraints,
  add_assertion, insert_mapping_assertion, is_empty_list, lock_source_concept,
}
use edgar.Registry.Mapping.{MappingAssertionRevision}
use edgar.Registry.Metrics.{CanonicalMetric, DefinitionPayload, definition_hash}
use edgar.Registry.Service.{
  require_current, or_raise, is_some, blank, no_evidence, require_accepted_evidence,
  require_yaml_metric, conflict_if_needed, accept_mapping, reject_mapping,
}

-- The constraints on the columns of a claim: its concept, its metric and its issuer are known, its
-- scope is one, its dates are in order, and its hash is of the right form.
pub record IsStored (db : Db) (claim : Claim) : Type 0 where
  pub concept : any (λ c. c.id == claim.source_concept_id) db.concepts ≡ true
  pub metric : any (λ m. metric_key m == claim.target_metric_key) db.metrics ≡ true
  pub issuer : issuer_exists claim.scope.issuer_cik db.issuers ≡ true
  pub scope : scope_issuer_check claim.scope.kind claim.scope.issuer_cik ≡ true
  pub range : valid_range_check claim.scope.valid_from claim.scope.valid_to ≡ true
  pub hash : is_sha256 claim.target_definition_hash ≡ true

-- The row that a rejection inserts.
abbrev pub rejection : ℕ → ℕ → MappingAssertionRevision → Claim → NewAssertion
rejection now assertion_id revision claim = record {
  supersedes_id = some assertion_id;
  claim = claim;
  status = rejected;
  method = revision.method;
  rationale = revision.rationale;
  evidence = revision.evidence;
  created_at = now;
  created_by = revision.created_by;
}

find-none : {A : Type 0} (p : A → Bool) (xs : List A) → find p xs ≡ none → any p xs ≡ false
find-none p [] h = refl
find-none p (x ∷ xs) h = elim (Bool-cases (p x)) [
  | inl e ↦ absurd (cc (rw e at h))
  | inr e ↦ rw e (find-none p xs (rw e at h))
]

find-some : {A : Type 0} (p : A → Bool) (xs : List A) (a : A) → find p xs ≡ some a → any p xs ≡ true
find-some p [] a h = absurd (cc h)
find-some p (x ∷ xs) a h = elim (Bool-cases (p x)) [
  | inl e ↦ rw e refl
  | inr e ↦ rw e (find-some p xs a (rw e at h))
]

no_successor :
    (db : Db) (i : ℕ) → successor_id db i ≡ none → any (supersedes i) db.assertions ≡ false
unfolding successor_id
no_successor db i h = elim (Option-cases (find (supersedes i) db.assertions)) [
  | inl e ↦ find-none (supersedes i) db.assertions e
  | inr (a, e) ↦ absurd (cc (rw (successor_id, e) at h))
]

-- A rationale that is not blank has a character that is no space.
blank-nonblank :
    (rationale : Option String) → blank rationale ≡ false → some_and rationale nonblank ≡ true
blank-nonblank none h = absurd (cc h)
blank-nonblank (some s) h = elim (Bool-cases (nonblank s)) [
  | inl e ↦ e
  | inr e ↦ absurd (cc (h, strip-spaces s (ground arith)))
]

-- What makes an assertion current.
current_sound :
    (db : Db) (i : ℕ) (c : MappingAssertion)
    → require_current db i ≡ ok c
    → (any (supersedes i) db.assertions ≡ false) × (any (λ a. a.id == i) db.assertions ≡ true)
unfolding require_current fetch_mapping_assertion
current_sound db i c h =
    let (row, found, h1) = >>=-eq-ok (or_raise (fetch_mapping_assertion db i) _) _ h in
    let (last, _) =
      raise_if-then (is_some (successor_id db i))
        (mapping_decision_error "not the current revision") _ h1 in
    (
      no_successor db i (no_value (successor_id db i) last),
      find-some (λ a. a.id == i) db.assertions row (given (fetch_mapping_assertion db i) row found),
    )
  where
    no_value : (o : Option ℕ) → is_some o ≡ false → o ≡ none
    no_value none e = refl
    no_value (some n) e = absurd (cc e)

    given :
        (o : Option MappingAssertion) (row : MappingAssertion)
        → or_raise o (mapping_decision_error "not found") ≡ ok row
        → o ≡ some row
    given none row e = absurd (cc e)
    given (some r) row e = ap some (ok_injective e)

-- A rejection of a current assertion that is a candidate or accepted returns, with a rationale that is
-- not blank and a reviewer whose name is not blank, where the assertion's claim satisfies the
-- constraints of its columns, that on the hash included: the rejected row is added.
pub reject_mapping_returns :
    (db : Db) (now assertion_id : ℕ) (revision : MappingAssertionRevision) (c : MappingAssertion)
    → require_current db assertion_id ≡ ok c
    → (is_candidate c.row.status || is_accepted c.row.status) ≡ true
    → IsStored db c.row.claim
    → blank revision.rationale ≡ false
    → nonblank revision.created_by ≡ true
    → reject_mapping db now assertion_id revision
      ≡ ok (db.next_id, add_assertion db (rejection now assertion_id revision c.row.claim))
unfolding reject_mapping insert_mapping_assertion assertion_constraints
reject_mapping_returns db now assertion_id revision c h s stored r b =
    let (last, linked) = current_sound db assertion_id c h in
    rw
      (
        h,
        s,
        r,
        last,
        linked,
        stored.concept,
        stored.metric,
        stored.issuer,
        stored.hash,
        b,
        stored.scope,
        stored.range,
        blank-nonblank revision.rationale r,
      )
      refl

-- The row that an acceptance inserts.
abbrev pub acceptance : ℕ → ℕ → MappingAssertionRevision → Claim → NewAssertion
acceptance now assertion_id revision claim = record (rejection now assertion_id revision claim) {
  status = accepted;
}

evidence_given :
    (evidence : List MappingEvidenceItem)
    → no_evidence evidence ≡ false
    → is_empty_list evidence ≡ false
evidence_given [] h = absurd (cc h)
evidence_given (e ∷ es) h = refl

-- The evidence that the service requires is what the constraint of the table requires.
evidence_sound :
    (revision : MappingAssertionRevision) (yaml_hash candidate_hash : String) {u : Unit {0}}
    → require_accepted_evidence revision yaml_hash candidate_hash ≡ ok u
    → (some_and revision.rationale nonblank ≡ true) × (is_empty_list revision.evidence ≡ false)
unfolding require_accepted_evidence
evidence_sound revision yaml_hash candidate_hash h =
    let (_, h1) = raise_if-then (not (candidate_hash == yaml_hash)) metric_definition_changed _ h in
    let (rationale, h2) =
      raise_if-then (blank revision.rationale)
        (mapping_decision_error "accepted mappings require a non-empty rationale") _ h1 in
    let (evidence, _) =
      raise_if-then (no_evidence revision.evidence)
        (mapping_decision_error "accepted mappings require non-empty evidence") _ h2 in
    (blank-nonblank revision.rationale rationale, evidence_given revision.evidence evidence)

-- An acceptance that passes the checks of the service passes the constraints of the table: of a current
-- candidate whose metric is in the mirror, with the required evidence, no conflicting mapping and a
-- reviewer whose name is not blank, where the candidate's claim satisfies the constraints of its
-- columns, that on the hash included, the accepted row is added.
pub accept_mapping_returns :
    (digest : DefinitionPayload → String) (yaml : Result (List CanonicalMetric)) (db : Db)
    (now assertion_id : ℕ) (revision : MappingAssertionRevision) (c : MappingAssertion)
    (metric : CanonicalMetric)
    → require_current db assertion_id ≡ ok c
    → is_candidate c.row.status ≡ true
    → require_yaml_metric digest yaml db c.row.claim.target_metric_key ≡ ok metric
    → require_accepted_evidence revision
        (definition_hash digest metric)
        c.row.claim.target_definition_hash
      ≡ ok tt
    → conflict_if_needed db c.row.claim assertion_id ≡ ok tt
    → IsStored db c.row.claim
    → nonblank revision.created_by ≡ true
    → accept_mapping digest yaml db now assertion_id revision
      ≡ ok (db.next_id, add_assertion db (acceptance now assertion_id revision c.row.claim))
unfolding accept_mapping insert_mapping_assertion assertion_constraints lock_source_concept
accept_mapping_returns digest yaml db now assertion_id revision c metric h s m e k stored b =
    let (last, linked) = current_sound db assertion_id c h in
    let (rationale, evidence) =
      evidence_sound revision (definition_hash digest metric) c.row.claim.target_definition_hash
        e in
    rw
      (
        h, s, m, e, k, last, linked, stored.concept, stored.metric, stored.issuer, stored.hash, b,
        stored.scope, stored.range, rationale, evidence,
      )
      refl
