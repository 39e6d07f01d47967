-- ===== src/Xbrl/Records/References.antt =====
-- src/edgar/xbrl/records.py: the records of references of concepts, with their parts.
use edgar.Prelude.{
  ◌≡◌, List, [], ◌∷◌, Option, String, Result, ok, raise_if, raise_if-then, value_error, ◌>>=◌, ◌>>◌,
  string_eq, All, All-map,
}
use edgar.Prelude.Text.{is_empty}
use edgar.Prelude.Json.{nullable_to_json, Json, text, object, end, field}
use edgar.Domain.Decode.{require_object, require_exact_keys, require_str, required}
use edgar.Xbrl.Records.{
  RecordLibrary, require_nullable_str, empty_text, ExpandedQName, qname_to_dict, require_qname,
  assert_identity_qname, SourceLocator, locator_to_dict, require_locator, require_nullable_decimal,
  decimal_to_json, infinite, assert_finite_decimal, decode_records, records_to_list,
}
use edgar.Xbrl.Records.Readback.{
  IsQName, IsLocator, ReadsBack, require_nullable_str_lem, require_qname-qname_to_dict,
  require_locator-locator_to_dict, require_nullable_decimal_lem, decode_records-records_to_list,
}

pub record ReferencePartRecord : Type 0 where
  pub namespace_uri : Option String
  pub local_name : String
  pub content : String
  pub xml : String

abbrev reference_part_keys : List String
reference_part_keys = "namespace_uri" ∷ "local_name" ∷ "text" ∷ "xml" ∷ []

unfoldable pub build_reference_part : ReferencePartRecord → Result ReferencePartRecord
build_reference_part r = do
  raise_if (is_empty r.local_name) (value_error "reference part local_name must be non-empty")
  raise_if (empty_text r.namespace_uri)
      (value_error "reference part namespace_uri must be None or non-empty")
  ok r

unfoldable pub reference_part_to_dict : ReferencePartRecord → Json
reference_part_to_dict r = object (
    field "namespace_uri" (nullable_to_json text r.namespace_uri) (
      field "local_name" (text r.local_name)
        (field "text" (text r.content) (field "xml" (text r.xml) end))))

-- The arguments that `from_dict` passes to the constructor.
unfoldable pub read_reference_part : Json → Result ReferencePartRecord
read_reference_part data_value = do
  obj ← require_object data_value
  require_exact_keys obj reference_part_keys
  namespace_uri ← required require_nullable_str obj "namespace_uri"
  local_name ← required require_str obj "local_name"
  content ← required require_str obj "text"
  xml ← required require_str obj "xml"
  ok (record {
    namespace_uri = namespace_uri;
    local_name = local_name;
    content = content;
    xml = xml;
  })

unfoldable pub reference_part_from_dict : Json → Result ReferencePartRecord
reference_part_from_dict data_value = read_reference_part data_value >>= build_reference_part

-- A record that its constructor accepts, and so are its parts.
abbrev pub IsReferencePart : ReferencePartRecord → Type 0
IsReferencePart r = (build_reference_part r ≡ ok r)

-- What `to_dict` writes of an accepted record, `from_dict` reads as that record.
pub reference_part_from_dict-reference_part_to_dict :
    (r : ReferencePartRecord)
    → IsReferencePart r
    → reference_part_from_dict (reference_part_to_dict r) ≡ ok r
unfolding build_reference_part reference_part_to_dict read_reference_part reference_part_from_dict
reference_part_from_dict-reference_part_to_dict r h =
    let built = h in rw (require_nullable_str_lem r.namespace_uri) built

pub record ConceptReferenceRecord (D : Type 0) : Type 0 where
  pub concept : ExpandedQName
  pub link_role_uri : String
  pub arcrole_uri : String
  pub link_qname : ExpandedQName
  pub arc_qname : ExpandedQName
  pub source_locator : SourceLocator
  pub arc_locator : SourceLocator
  pub reference_parts : List ReferencePartRecord
  pub resource_role_uri : Option String
  pub order : Option D

abbrev concept_reference_keys : List String
concept_reference_keys =
    "concept" ∷ "link_role_uri" ∷ "arcrole_uri" ∷ "link_qname" ∷ "arc_qname" ∷ "resource_role_uri"
    ∷ "order" ∷ "reference_parts" ∷ "source_locator" ∷ "arc_locator" ∷ []

module _ {D : Type 0} (lib : RecordLibrary D) where
  unfoldable pub build_concept_reference :
      ConceptReferenceRecord D → Result (ConceptReferenceRecord D)
  build_concept_reference r = do
    raise_if (is_empty r.link_role_uri) (value_error "link_role_uri is required")
    raise_if (is_empty r.arcrole_uri) (value_error "arcrole_uri is required")
    assert_identity_qname r.link_qname
    assert_identity_qname r.arc_qname
    assert_finite_decimal lib r.order
    ok r

  unfoldable pub concept_reference_to_dict : ConceptReferenceRecord D → Json
  concept_reference_to_dict r = object (
      field "concept" (qname_to_dict r.concept) (
        field "link_role_uri" (text r.link_role_uri) (
          field "arcrole_uri" (text r.arcrole_uri) (
            field "link_qname" (qname_to_dict r.link_qname) (
              field "arc_qname" (qname_to_dict r.arc_qname) (
                field "resource_role_uri" (nullable_to_json text r.resource_role_uri) (
                  field "order" (decimal_to_json lib r.order) (
                    field "reference_parts"
                      (records_to_list reference_part_to_dict r.reference_parts)
                      (field "source_locator" (locator_to_dict r.source_locator)
                        (field "arc_locator" (locator_to_dict r.arc_locator) end))))))))))

  -- The arguments that `from_dict` passes to the constructor.
  unfoldable pub read_concept_reference : Json → Result (ConceptReferenceRecord D)
  read_concept_reference data_value = do
    obj ← require_object data_value
    require_exact_keys obj concept_reference_keys
    concept ← required require_qname obj "concept"
    link_role_uri ← required require_str obj "link_role_uri"
    arcrole_uri ← required require_str obj "arcrole_uri"
    link_qname ← required require_qname obj "link_qname"
    arc_qname ← required require_qname obj "arc_qname"
    source_locator ← required (require_locator lib) obj "source_locator"
    arc_locator ← required (require_locator lib) obj "arc_locator"
    reference_parts ← required (decode_records reference_part_from_dict) obj "reference_parts"
    resource_role_uri ← required require_nullable_str obj "resource_role_uri"
    order ← required (require_nullable_decimal lib) obj "order"
    ok (record {
      concept = concept;
      link_role_uri = link_role_uri;
      arcrole_uri = arcrole_uri;
      link_qname = link_qname;
      arc_qname = arc_qname;
      source_locator = source_locator;
      arc_locator = arc_locator;
      reference_parts = reference_parts;
      resource_role_uri = resource_role_uri;
      order = order;
    })

  unfoldable pub concept_reference_from_dict : Json → Result (ConceptReferenceRecord D)
  concept_reference_from_dict data_value =
      read_concept_reference data_value >>= build_concept_reference

  -- A record that its constructor accepts, and so are its parts.
  abbrev pub IsConceptReference : ConceptReferenceRecord D → Type 0
  IsConceptReference r =
      (build_concept_reference r ≡ ok r)
      × IsQName r.concept
      × IsQName r.link_qname
      × IsQName r.arc_qname
      × All IsReferencePart r.reference_parts
      × IsLocator lib r.source_locator
      × IsLocator lib r.arc_locator

  -- What `to_dict` writes of an accepted concept reference with its parts, `from_dict` reads as that record, if Python
  -- reads finite decimals back from their `str`.
  pub concept_reference_from_dict-concept_reference_to_dict :
      (r : ConceptReferenceRecord D)
      → ReadsBack lib
      → IsConceptReference r
      → concept_reference_from_dict (concept_reference_to_dict r) ≡ ok r
  unfolding build_concept_reference concept_reference_to_dict read_concept_reference
      concept_reference_from_dict
  concept_reference_from_dict-concept_reference_to_dict r reads h =
      let (
        built, h_concept, h_link_qname, h_arc_qname, h_reference_parts, h_source_locator,
        h_arc_locator,
      ) =
        h in
      let (_, g0) =
        raise_if-then (is_empty r.link_role_uri) (value_error "link_role_uri is required") _
          built in
      let (_, g1) =
        raise_if-then (is_empty r.arcrole_uri) (value_error "arcrole_uri is required") _ g0 in
      let (_, g2) =
        raise_if-then (is_empty r.link_qname.local_name)
          (value_error "local_name must be non-empty") _ g1 in
      let (_, g3) =
        raise_if-then (is_empty r.arc_qname.local_name) (value_error "local_name must be non-empty")
          _ g2 in
      let (k_order, _) =
        raise_if-then (infinite lib r.order) (value_error "must be a finite decimal") _ g3 in
      rw
        (
          require_qname-qname_to_dict r.concept h_concept,
          require_qname-qname_to_dict r.link_qname h_link_qname,
          require_qname-qname_to_dict r.arc_qname h_arc_qname,
          require_locator-locator_to_dict lib r.source_locator h_source_locator,
          require_locator-locator_to_dict lib r.arc_locator h_arc_locator,
          decode_records-records_to_list reference_part_from_dict reference_part_to_dict
              r.reference_parts
              (All-map reference_part_from_dict-reference_part_to_dict r.reference_parts
                h_reference_parts),
          require_nullable_str_lem r.resource_role_uri,
          require_nullable_decimal_lem lib r.order reads k_order,
        )
        built
