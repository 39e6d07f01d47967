-- ===== src/Registry/Service/Scenarios.antt =====
-- A small ledger of src/edgar/registry/service.py: one concept is proposed as revenue and accepted,
-- and a second proposal is rejected. The theorems of the registry are applied to it.
use edgar.Prelude.{
  ◌≡◌, refl, if◌then◌else◌, ◌==◌, string_eq, List, [], ◌∷◌, none, some, true, String, Result, ok,
  err, mapping_decision_error,
}
use edgar.Prelude.Text.{is_empty, strip}
use edgar.Registry.Interval.{scopes_overlap, intervals_overlap, Scope, global}
use edgar.Registry.Metrics.{
  definition_hash, definition_payload, mirror_payload, payload_beq, require_yaml_mirror_match,
  CanonicalMetric, DefinitionPayload,
}
use edgar.Registry.Store.{
  is_candidate, Db, NewAssertion, MappingAssertion, exact, candidate, accepted, rejected, curated,
  human_review, add_assertion, fetch_mapping_assertion, successor_id, insert_mapping_assertion,
  assertion_constraints, fetch_concept_by_qname, fetch_issuer, fetch_canonical_metric,
  lock_source_concept, fetch_current_assertions, is_current,
}
use edgar.Registry.Mapping.{
  expanded_qname, parse_clark_qname, MappingAssertionCreate, MappingAssertionRevision,
}
use edgar.Registry.Service.{
  propose_mapping, accept_mapping, reject_mapping, require_current, require_yaml_metric,
  require_accepted_evidence, conflict_if_needed,
}
use edgar.Registry.Service.Ledger.{IsLedger}
use edgar.Registry.Service.Ledger.Methods.{
  propose, accept, reject, Reach, here, next, Reach-IsLedger,
}
use edgar.Registry.Service.Ledger.History.{IsHistory, Reach-IsHistory, Reach-rejected_is_current}
use edgar.Registry.Service.Ledger.Revisions.{accept_mapping-effect}
use edgar.Prelude.{inl, sort_by, insert_by}
use edgar.Registry.Store.{referenced_metric_keys}
use edgar.Registry.Sync.{
  sync, sync_loop, sync_metric, update_canonical_metric, delete_canonical_metrics,
}
use edgar.Registry.Sync.Mirror.{sync-Mirrors}

-- Two hashes, and a function that gives the first one to the definition of revenue.
abbrev pub revenue_hash : String
revenue_hash = "ba7816bf8f01cfea414140de5dae2223b00361a396177a9cb410ff61f20015ad"

abbrev older_hash : String
older_hash = "e3b0c44298fc1c149afbf4c8996fb92427ae41e4649b934ca495991b7852b855"

abbrev pub toy_digest : DefinitionPayload → String
toy_digest p = if p.definition == "Total revenue" then revenue_hash else older_hash

abbrev pub revenue : CanonicalMetric
revenue = record {
  key = "revenue";
  name = "Revenue";
  kind = "reported";
  statement = "income";
  period_type = "duration";
  value_kind = "monetary";
  unit_dimension = "currency";
  definition = "Total revenue";
  includes = [];
  excludes = [];
}

abbrev pub yaml_metrics : Result (List CanonicalMetric)
yaml_metrics = ok (revenue ∷ [])

abbrev empty_ledger : Db
empty_ledger = record {
  concepts =
      (record { id = 7; namespace_uri = "http://fasb.org/us-gaap/2023"; local_name = "Revenues" })
      ∷ [];
  issuers = "0000320193" ∷ [];
  metrics =
      (record {
        payload = record { metric = revenue; definition_hash = revenue_hash };
        synced_at = 0;
      })
      ∷ [];
  assertions = [];
  next_id = 1;
}

abbrev everywhere : Scope
everywhere = record { kind = global; issuer_cik = none; valid_from = none; valid_to = none }

abbrev proposal : MappingAssertionCreate
proposal = record {
  concept = "{http://fasb.org/us-gaap/2023}Revenues";
  target_metric_key = "revenue";
  relation = exact;
  scope = everywhere;
  method = curated;
  rationale = none;
  evidence = [];
  created_by = "ann";
}

abbrev pub proposed : NewAssertion
proposed = record {
  supersedes_id = none;
  claim = record {
    source_concept_id = 7;
    target_metric_key = "revenue";
    target_definition_hash = revenue_hash;
    relation = exact;
    scope = everywhere;
  };
  status = candidate;
  method = curated;
  rationale = none;
  evidence = [];
  created_at = 10;
  created_by = "ann";
}

abbrev pub with_candidate : Db
with_candidate = record empty_ledger {
  assertions = (record { id = 1; row = proposed }) ∷ [];
  next_id = 2;
}

abbrev pub review : MappingAssertionRevision
review = record {
  method = human_review;
  rationale = some "same definition";
  evidence =
      (record {
        kind = "taxonomy";
        summary = none;
        snapshot = ("label", "Revenues") ∷ [];
        accessions = [];
      })
      ∷ [];
  created_by = "bob";
}

abbrev pub decided : MappingAssertion
decided = record {
  id = 2;
  row = record {
    supersedes_id = some 1;
    claim = proposed.claim;
    status = accepted;
    method = human_review;
    rationale = review.rationale;
    evidence = review.evidence;
    created_at = 11;
    created_by = "bob";
  };
}

abbrev pub with_accepted : Db
with_accepted = record with_candidate {
  assertions = decided ∷ with_candidate.assertions;
  next_id = 3;
}

abbrev dismissed : MappingAssertion
dismissed = record decided {
  id = 3;
  row = record decided.row { supersedes_id = some 2; status = rejected; created_at = 12 };
}

abbrev with_rejected : Db
with_rejected = record with_accepted {
  assertions = dismissed ∷ with_accepted.assertions;
  next_id = 4;
}

propose_run :
    propose_mapping toy_digest yaml_metrics empty_ledger 10 proposal ≡ ok (1, with_candidate)
unfolding propose_mapping parse_clark_qname expanded_qname fetch_concept_by_qname fetch_issuer
    require_yaml_metric require_yaml_mirror_match definition_hash definition_payload mirror_payload
    payload_beq fetch_canonical_metric insert_mapping_assertion assertion_constraints add_assertion
    is_empty strip
propose_run = refl

accept_run :
    accept_mapping toy_digest yaml_metrics with_candidate 11 1 review ≡ ok (2, with_accepted)
unfolding accept_mapping require_current fetch_mapping_assertion successor_id require_yaml_metric
    require_yaml_mirror_match definition_hash definition_payload mirror_payload payload_beq
    fetch_canonical_metric require_accepted_evidence is_empty strip lock_source_concept
    conflict_if_needed fetch_current_assertions scopes_overlap intervals_overlap
    insert_mapping_assertion assertion_constraints add_assertion
accept_run = refl

reject_run : reject_mapping with_accepted 12 2 review ≡ ok (3, with_rejected)
unfolding reject_mapping require_current fetch_mapping_assertion successor_id is_empty strip
    insert_mapping_assertion assertion_constraints add_assertion
reject_run = refl

steps : Reach toy_digest empty_ledger with_rejected
steps =
    next
      (next (next here (propose yaml_metrics 10 proposal 1 propose_run))
        (accept yaml_metrics 11 1 review 2 accept_run))
      (reject 12 2 review 3 reject_run)

Reach-IsLedger_example : IsLedger with_rejected
Reach-IsLedger_example = Reach-IsLedger toy_digest empty_ledger with_rejected refl steps

candidate_IsLedger : IsLedger with_candidate
candidate_IsLedger =
    Reach-IsLedger toy_digest empty_ledger with_candidate refl
      (next here (propose yaml_metrics 10 proposal 1 propose_run))

accepted_IsLedger : IsLedger with_accepted
accepted_IsLedger = Reach-IsLedger toy_digest empty_ledger with_accepted refl (
    next (next here (propose yaml_metrics 10 proposal 1 propose_run))
      (accept yaml_metrics 11 1 review 2 accept_run))

empty_IsLedger : IsLedger empty_ledger
empty_IsLedger = Reach-IsLedger toy_digest empty_ledger empty_ledger refl here

Reach-IsHistory_example : IsHistory with_rejected.assertions
Reach-IsHistory_example = Reach-IsHistory toy_digest empty_ledger with_rejected refl steps

Reach-rejected_is_current_example : is_current with_rejected dismissed ≡ true
Reach-rejected_is_current_example =
    Reach-rejected_is_current toy_digest empty_ledger with_rejected dismissed refl steps (inl refl)
      refl

accept_mapping-effect_example :
    (c : MappingAssertion) × (a : MappingAssertion) × (require_current with_candidate 1 ≡ ok c)
    × (is_candidate c.row.status ≡ true)
    × (fetch_mapping_assertion with_accepted 2 ≡ some a)
    × (a.row.status ≡ accepted)
    × (a.row.claim ≡ c.row.claim)
    × (a.row.supersedes_id ≡ some 1)
    × (with_accepted.assertions ≡ a ∷ with_candidate.assertions)
    × (require_current with_accepted 1 ≡ err (mapping_decision_error "not the current revision"))
accept_mapping-effect_example =
    accept_mapping-effect toy_digest yaml_metrics with_candidate 11 1 review 2 with_accepted
      accept_run

-- A mirror that holds an older definition of revenue and a metric that no file gives any more.
abbrev older : CanonicalMetric
older = record revenue { definition = "Sales" }

abbrev dropped : CanonicalMetric
dropped = record revenue { key = "turnover" }

abbrev old_mirror : Db
old_mirror = record empty_ledger {
  metrics =
      (record { payload = record { metric = older; definition_hash = older_hash }; synced_at = 0 })
      ∷ (record {
        payload = record { metric = dropped; definition_hash = revenue_hash };
        synced_at = 0;
      })
      ∷ [];
}

abbrev new_mirror : Db
new_mirror = record empty_ledger {
  metrics =
      (record {
        payload = record { metric = revenue; definition_hash = revenue_hash };
        synced_at = 5;
      })
      ∷ [];
}

sync_run :
    sync toy_digest old_mirror 5 (revenue ∷ [])
    ≡ ok (
      record { added = []; changed = "revenue" ∷ []; removed = "turnover" ∷ []; unchanged = [] },
      new_mirror,
    )
unfolding sync sync_loop sync_metric update_canonical_metric delete_canonical_metrics mirror_payload
    definition_hash definition_payload payload_beq referenced_metric_keys sort_by insert_by
sync_run = refl

sync-Mirrors_example :
    require_yaml_mirror_match toy_digest revenue (fetch_canonical_metric new_mirror "revenue")
    ≡ ok tt
sync-Mirrors_example =
    sync-Mirrors toy_digest old_mirror 5 (revenue ∷ [])
      (record { added = []; changed = "revenue" ∷ []; removed = "turnover" ∷ []; unchanged = [] })
      new_mirror (tt, tt) sync_run revenue (inl refl)
