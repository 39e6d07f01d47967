-- ===== src/Registry/Service.antt =====
-- src/edgar/registry/service.py: proposing, accepting and rejecting mapping assertions. Each public
-- method is one transaction: it returns the new tables, or raises and the tables stay as they were.
-- `yaml` is what `load_yaml` gives, `digest` the SHA-256 of canonical JSON, `now` the clock.
pub mod Ledger
pub mod Scenarios
use edgar.Prelude.{
  ℕ, ◌≡◌, Bool, true, false, not, ◌&&◌, ◌||◌, List, [], ◌∷◌, Option, none, some, String, Result, ok,
  err, raise_if, Error, mapping_decision_error, concept_not_found, conflicting_exact_mapping,
  metric_definition_changed, ◌>>=◌, ◌>>◌, ◌==◌, nat_eq, string_eq, find, any, if◌then◌else◌,
}
use edgar.Prelude.Text.{strip, is_empty}
use edgar.Registry.Interval.{scopes_overlap}
use edgar.Registry.Metrics.{
  CanonicalMetric, DefinitionPayload, definition_hash, require_yaml_mirror_match,
}
use edgar.Registry.Store.{
  Db, Relation, candidate, accepted, rejected, MappingEvidenceItem, has_snapshot, Claim,
  NewAssertion, MappingAssertion, Concept, is_exact, is_candidate, is_accepted,
  fetch_canonical_metric, fetch_concept_by_qname, fetch_issuer, fetch_mapping_assertion,
  lock_source_concept, successor_id, fetch_current_assertions, insert_mapping_assertion,
}
use edgar.Registry.Mapping.{MappingAssertionCreate, MappingAssertionRevision, parse_clark_qname}

abbrev pub or_raise {ℓ} : {A : Type ℓ} → Option A → Error → Result A
or_raise none e = err e
or_raise (some a) e = ok a

abbrev pub is_some {ℓ} : {A : Type ℓ} → Option A → Bool
is_some none = false
is_some (some a) = true

unfoldable pub require_current : Db → ℕ → Result MappingAssertion
require_current db assertion_id = do
  row ← or_raise (fetch_mapping_assertion db assertion_id) (mapping_decision_error "not found")
  raise_if (is_some (successor_id db assertion_id))
      (mapping_decision_error "not the current revision")
  ok row

-- A rationale that is missing or blank.
abbrev pub blank : Option String → Bool
blank none = true
blank (some s) = is_empty (strip s)

abbrev pub no_evidence : List MappingEvidenceItem → Bool
no_evidence [] = true
no_evidence (_ ∷ _) = false

unfoldable pub require_accepted_evidence :
    MappingAssertionRevision → String → String → Result (Unit {0})
require_accepted_evidence revision yaml_hash candidate_hash = do
  raise_if (not (candidate_hash == yaml_hash)) metric_definition_changed
  raise_if (blank revision.rationale)
      (mapping_decision_error "accepted mappings require a non-empty rationale")
  raise_if (no_evidence revision.evidence)
      (mapping_decision_error "accepted mappings require non-empty evidence")
  raise_if (any (λ item. not (has_snapshot item)) revision.evidence)
      (mapping_decision_error "accepted evidence must contain snapshots, not empty data")

-- The assertions that the loop of `_conflict_if_needed` does not skip.
abbrev pub conflicts : Claim → ℕ → MappingAssertion → Bool
conflicts claim ignore_id other =
    not (other.id == ignore_id)
    && (is_accepted other.row.status
        && (is_exact other.row.claim.relation
            && (other.row.claim.source_concept_id == claim.source_concept_id
                && scopes_overlap claim.scope other.row.claim.scope)))

unfoldable pub conflict_if_needed : Db → Claim → ℕ → Result (Unit {0})
conflict_if_needed db claim ignore_id =
    if is_exact claim.relation
    then raise_if (any (conflicts claim ignore_id) (fetch_current_assertions db))
        conflicting_exact_mapping
    else ok tt

module _ (digest : DefinitionPayload → String) (yaml : Result (List CanonicalMetric)) where
  unfoldable pub require_yaml_metric : Db → String → Result CanonicalMetric
  require_yaml_metric db key = do
    metrics ← yaml
    metric ←
        or_raise (find (λ m. m.key == key) metrics)
          (mapping_decision_error "unknown canonical metric")
    require_yaml_mirror_match digest metric (fetch_canonical_metric db key)
    ok metric

  abbrev unknown_issuer : Db → Option String → Bool
  unknown_issuer db none = false
  unknown_issuer db (some cik) = not (is_some (fetch_issuer db cik))

  unfoldable pub propose_mapping : Db → ℕ → MappingAssertionCreate → Result (ℕ × Db)
  propose_mapping db now create = do
    parts ← parse_clark_qname create.concept
    concept ← or_raise (fetch_concept_by_qname db parts.0 parts.1) concept_not_found
    raise_if (unknown_issuer db create.scope.issuer_cik)
        (mapping_decision_error "unknown issuer CIK")
    metric ← require_yaml_metric db create.target_metric_key
    insert_mapping_assertion db (record {
      supersedes_id = none;
      claim = record {
        source_concept_id = concept.id;
        target_metric_key = metric.key;
        target_definition_hash = definition_hash digest metric;
        relation = create.relation;
        scope = create.scope;
      };
      status = candidate;
      method = create.method;
      rationale = create.rationale;
      evidence = create.evidence;
      created_at = now;
      created_by = create.created_by;
    })

  unfoldable pub accept_mapping : Db → ℕ → ℕ → MappingAssertionRevision → Result (ℕ × Db)
  accept_mapping db now assertion_id revision = do
    current ← require_current db assertion_id
    raise_if (not (is_candidate current.row.status))
        (mapping_decision_error "only a current candidate can be accepted")
    metric ← require_yaml_metric db current.row.claim.target_metric_key
    require_accepted_evidence revision (definition_hash digest metric)
        current.row.claim.target_definition_hash
    lock_source_concept db current.row.claim.source_concept_id
    conflict_if_needed db current.row.claim assertion_id
    insert_mapping_assertion db (record {
      supersedes_id = some assertion_id;
      claim = current.row.claim;
      status = accepted;
      method = revision.method;
      rationale = revision.rationale;
      evidence = revision.evidence;
      created_at = now;
      created_by = revision.created_by;
    })

unfoldable pub reject_mapping : Db → ℕ → ℕ → MappingAssertionRevision → Result (ℕ × Db)
reject_mapping db now assertion_id revision = do
  current ← require_current db assertion_id
  raise_if (not (is_candidate current.row.status || is_accepted current.row.status))
      (mapping_decision_error "rejected assertions are terminal")
  raise_if (blank revision.rationale)
      (mapping_decision_error "rejected mappings require a non-empty rationale")
  insert_mapping_assertion db (record {
    supersedes_id = some assertion_id;
    claim = current.row.claim;
    status = rejected;
    method = revision.method;
    rationale = revision.rationale;
    evidence = revision.evidence;
    created_at = now;
    created_by = revision.created_by;
  })
