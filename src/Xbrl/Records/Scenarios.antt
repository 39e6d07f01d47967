-- ===== src/Xbrl/Records/Scenarios.antt =====
-- Records of src/edgar/xbrl/records.py that are written and read back, with one document.
use edgar.Prelude.{◌≡◌, refl, true, false, [], ◌∷◌, none, some, String, ok}
use edgar.Prelude.Text.{is_empty, is_space, strip}
use edgar.Prelude.Int.{pos}
use edgar.Prelude.Json.{text, integer, floating, array, object, end, field, nil, cons}
use edgar.Domain.Uri.{
  assert_serialized_binding_uri, normalize_uri, uppercase_percent_escapes,
  decode_unreserved_percents, remove_dot_segments, remove_loop, remove_step, has_query_mark,
}
use edgar.Domain.Uri.Samples.{sample_uri, sample_uris}
use edgar.Xbrl.Records.{
  RecordLibrary, ExpandedQName, build_qname, SourceLocator, build_locator, require_json_value,
}
use edgar.Xbrl.Records.Readback.{IsQName, IsLocator}
use edgar.Xbrl.Records.Clark.{clark, from_clark, from_clark-clark}
use edgar.Xbrl.Records.Facts.{
  FactRecord, build_fact, fact_to_dict, fact_from_dict, IsFact, fact_from_dict-fact_to_dict,
}
use edgar.Xbrl.Records.Relationships.{RelationshipRecord, build_relationship, IsRelationship}
use edgar.Xbrl.Records.References.{
  ReferencePartRecord, build_reference_part, ConceptReferenceRecord, build_concept_reference,
  IsConceptReference,
}
use edgar.Xbrl.Records.Issues.{SemanticIssueRecord, build_semantic_issue, IsSemanticIssue}
use edgar.Xbrl.Records.Contexts.{
  ContextDimensionRecord, build_context_dimension, context_dimension_to_dict, IsContextDimension,
  context_dimension_from_dict-context_dimension_to_dict,
}
use edgar.Xbrl.Records.Decoded.{
  unsupported, require_json_value_lem, IsOneKind, context_dimension_from_dict-IsOneKind,
}

-- Decimals are kept as the texts that they are read from.
abbrev library : RecordLibrary String
library = record { uris = sample_uris; str = λ d. d; decimal = λ s. some s; is_finite = λ d. true }

abbrev assets : ExpandedQName
assets = record { namespace_uri = some "http://fasb.org/us-gaap/2024"; local_name = "Assets" }

assets-IsQName : IsQName assets
unfolding build_qname is_empty
assets-IsQName = refl

abbrev here : SourceLocator
here = record { document_uri = sample_uri; scheme = "xml_id"; value = "f1" }

here-IsLocator : IsLocator library here
unfolding build_locator assert_serialized_binding_uri normalize_uri uppercase_percent_escapes
    decode_unreserved_percents remove_dot_segments remove_loop remove_step has_query_mark is_empty
    strip is_space
here-IsLocator = refl

abbrev fact : FactRecord String
fact = record {
  concept_qname = assets;
  context_locator = here;
  source_locator = here;
  value_status = "valid";
  is_nil = false;
  unit_locator = some here;
  raw_lexical_value = some "12.5";
  resolved_text_value = none;
  resolved_numeric_value = some "12.5";
  resolved_value_kind = some "numeric";
  resolved_value_type = none;
  reported_decimals = some "INF";
  reported_precision = none;
  xml_lang = none;
  format_qname = none;
  scale = some (pos 3);
  sign = some "-";
  escape = none;
  continuation_provenance = here ∷ [];
}

fact-IsFact : IsFact library fact
unfolding build_fact
fact-IsFact = (
  refl,
  assets-IsQName,
  here-IsLocator,
  here-IsLocator,
  here-IsLocator,
  tt,
  tt,
  (here-IsLocator, tt),
)

fact_from_dict-fact_to_dict_example : fact_from_dict library (fact_to_dict library fact) ≡ ok fact
fact_from_dict-fact_to_dict_example =
    fact_from_dict-fact_to_dict library fact (λ d h. refl) fact-IsFact

abbrev parent_child : RelationshipRecord String
parent_child = record {
  network_type = "calculation";
  link_role_uri = "http://example.com/role/BalanceSheet";
  arcrole_uri = "http://www.xbrl.org/2003/arcrole/summation-item";
  link_qname = assets;
  arc_qname = assets;
  source_concept = assets;
  target_concept = assets;
  source_locator = here;
  order = some "1";
  weight = some "-1.0";
  preferred_label_role = none;
  target_role_uri = none;
  closed = some false;
  usable = none;
  context_element = none;
}

parent_child-IsRelationship : IsRelationship library parent_child
unfolding build_relationship is_empty
parent_child-IsRelationship =
    (refl, assets-IsQName, assets-IsQName, assets-IsQName, assets-IsQName, here-IsLocator)

abbrev section_part : ReferencePartRecord
section_part = record {
  namespace_uri = none;
  local_name = "Section";
  content = "45";
  xml = "<Section>45</Section>";
}

abbrev reference : ConceptReferenceRecord String
reference = record {
  concept = assets;
  link_role_uri = "http://www.xbrl.org/2003/role/link";
  arcrole_uri = "http://www.xbrl.org/2003/arcrole/concept-reference";
  link_qname = assets;
  arc_qname = assets;
  source_locator = here;
  arc_locator = here;
  reference_parts = section_part ∷ section_part ∷ [];
  resource_role_uri = none;
  order = none;
}

reference-IsConceptReference : IsConceptReference library reference
unfolding build_concept_reference build_reference_part is_empty
reference-IsConceptReference = (
  refl,
  assets-IsQName,
  assets-IsQName,
  assets-IsQName,
  (refl, (refl, tt)),
  here-IsLocator,
  here-IsLocator,
)

abbrev issue : SemanticIssueRecord
issue = record {
  severity = "warning";
  code = "UNRESOLVED_UNIT";
  message = "unit is missing";
  scope = "xbrl";
  locator = some here;
  context = field "unit" (text "usd") (field "facts" (array (cons (integer (pos 7)) nil)) end);
}

issue-IsSemanticIssue : IsSemanticIssue library issue
unfolding build_semantic_issue is_empty
issue-IsSemanticIssue = (refl, here-IsLocator, refl)

-- A float two levels down is refused.
require_json_value_lem_example :
    require_json_value (array (cons (object (field "x" (floating "1.5") end)) nil)) ≡ unsupported
require_json_value_lem_example =
    require_json_value_lem (array (cons (object (field "x" (floating "1.5") end)) nil))

abbrev axis : ContextDimensionRecord
axis = record {
  context_locator = here;
  dimension = assets;
  context_element = "segment";
  member_kind = "explicit";
  source_locator = here;
  member = some assets;
  typed_member_xml = none;
  typed_member_sha256 = none;
}

axis-IsContextDimension : IsContextDimension library axis
unfolding build_context_dimension
axis-IsContextDimension = (refl, here-IsLocator, assets-IsQName, assets-IsQName, here-IsLocator)

context_dimension_from_dict-IsOneKind_example : IsOneKind axis
context_dimension_from_dict-IsOneKind_example =
    context_dimension_from_dict-IsOneKind library (context_dimension_to_dict axis) axis
      (context_dimension_from_dict-context_dimension_to_dict library axis axis-IsContextDimension)

from_clark-clark_example : from_clark (clark assets) ≡ ok assets
from_clark-clark_example = from_clark-clark assets assets-IsQName refl
