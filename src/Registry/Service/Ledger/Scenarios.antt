-- ===== src/Registry/Service/Ledger/Scenarios.antt =====
-- In the small ledger of src/edgar/registry/service.py the candidate may be accepted, and then rejected.
use edgar.Prelude.{◌≡◌, refl, false, ok}
use edgar.Prelude.Text.{is_empty, strip}
use edgar.Registry.Interval.{scopes_overlap, intervals_overlap}
use edgar.Registry.Metrics.{
  definition_hash, definition_payload, mirror_payload, payload_beq, require_yaml_mirror_match,
}
use edgar.Registry.Store.{
  MappingAssertion, add_assertion, fetch_mapping_assertion, successor_id, fetch_canonical_metric,
  fetch_current_assertions,
}
use edgar.Registry.Service.{
  blank, accept_mapping, reject_mapping, require_current, require_yaml_metric,
  require_accepted_evidence, conflict_if_needed,
}
use edgar.Registry.Service.Ledger.Enabled.{
  IsStored, rejection, acceptance, reject_mapping_returns, accept_mapping_returns,
}
use edgar.Registry.Service.Scenarios.{
  toy_digest, revenue_hash, yaml_metrics, with_candidate, proposed, review, revenue, with_accepted,
  decided,
}

abbrev offered : MappingAssertion
offered = record { id = 1; row = proposed }

offered_is_current : require_current with_candidate 1 ≡ ok offered
unfolding require_current fetch_mapping_assertion successor_id
offered_is_current = refl

decided_is_current : require_current with_accepted 2 ≡ ok decided
unfolding require_current fetch_mapping_assertion successor_id
decided_is_current = refl

metric_known : require_yaml_metric toy_digest yaml_metrics with_candidate "revenue" ≡ ok revenue
unfolding require_yaml_metric require_yaml_mirror_match definition_hash definition_payload
    mirror_payload payload_beq fetch_canonical_metric
metric_known = refl

evidence_complete :
    require_accepted_evidence review (definition_hash toy_digest revenue) revenue_hash ≡ ok tt
unfolding require_accepted_evidence definition_hash definition_payload is_empty strip
evidence_complete = refl

no_conflict : conflict_if_needed with_candidate proposed.claim 1 ≡ ok tt
unfolding conflict_if_needed fetch_current_assertions scopes_overlap intervals_overlap
no_conflict = refl

offered-IsStored : IsStored with_candidate proposed.claim
offered-IsStored = record {
  concept = refl;
  metric = refl;
  issuer = refl;
  scope = refl;
  range = refl;
  hash = refl;
}

decided-IsStored : IsStored with_accepted proposed.claim
decided-IsStored = record {
  concept = refl;
  metric = refl;
  issuer = refl;
  scope = refl;
  range = refl;
  hash = refl;
}

accept_mapping_returns_example :
    accept_mapping toy_digest yaml_metrics with_candidate 11 1 review
    ≡ ok (2, add_assertion with_candidate (acceptance 11 1 review proposed.claim))
accept_mapping_returns_example =
    accept_mapping_returns toy_digest yaml_metrics with_candidate 11 1 review offered revenue
      offered_is_current refl metric_known evidence_complete no_conflict offered-IsStored refl

reviewed_reason : blank review.rationale ≡ false
unfolding is_empty strip
reviewed_reason = refl

reject_mapping_returns_example :
    reject_mapping with_accepted 12 2 review
    ≡ ok (3, add_assertion with_accepted (rejection 12 2 review proposed.claim))
reject_mapping_returns_example =
    reject_mapping_returns with_accepted 12 2 review decided decided_is_current refl
      decided-IsStored reviewed_reason refl
