-- ===== src/Xbrl/Records/Relationships.antt =====
-- src/edgar/xbrl/records.py: the records of effective relationships.
use edgar.Prelude.{
  ◌≡◌, Bool, not, List, [], ◌∷◌, Option, String, Result, ok, raise_if, raise_if-then, value_error,
  ◌>>=◌, ◌>>◌, string_eq,
}
use edgar.Prelude.Text.{is_empty}
use edgar.Prelude.Json.{nullable_to_json, Json, boolean, text, object, end, field}
use edgar.Domain.Decode.{require_object, require_exact_keys, require_str, contains, required}
use edgar.Xbrl.Records.{
  RecordLibrary, require_literal, require_nullable_literal, require_nullable_str,
  require_nullable_bool, outside, ExpandedQName, qname_to_dict, require_qname,
  assert_identity_qname, SourceLocator, locator_to_dict, require_locator, require_nullable_decimal,
  decimal_to_json, infinite, assert_finite_decimal,
}
use edgar.Xbrl.Records.Readback.{
  IsQName, IsLocator, ReadsBack, require_literal-text, require_nullable_literal_lem,
  require_nullable_str_lem, require_nullable_bool_lem, require_qname-qname_to_dict,
  require_locator-locator_to_dict, require_nullable_decimal_lem,
}
use edgar.Xbrl.Records.Contexts.{context_elements}

abbrev pub network_types : List String
network_types = "presentation" ∷ "calculation" ∷ "definition" ∷ []

pub record RelationshipRecord (D : Type 0) : Type 0 where
  pub network_type : String
  pub link_role_uri : String
  pub arcrole_uri : String
  pub link_qname : ExpandedQName
  pub arc_qname : ExpandedQName
  pub source_concept : ExpandedQName
  pub target_concept : ExpandedQName
  pub source_locator : SourceLocator
  pub order : Option D
  pub weight : Option D
  pub preferred_label_role : Option String
  pub target_role_uri : Option String
  pub closed : Option Bool
  pub usable : Option Bool
  pub context_element : Option String

abbrev relationship_keys : List String
relationship_keys =
    "network_type" ∷ "link_role_uri" ∷ "arcrole_uri" ∷ "link_qname" ∷ "arc_qname" ∷ "source_concept"
    ∷ "target_concept" ∷ "order" ∷ "weight" ∷ "preferred_label_role" ∷ "target_role_uri" ∷ "closed"
    ∷ "usable" ∷ "context_element" ∷ "source_locator" ∷ []

module _ {D : Type 0} (lib : RecordLibrary D) where
  unfoldable pub build_relationship : RelationshipRecord D → Result (RelationshipRecord D)
  build_relationship r = do
    raise_if (not (contains network_types r.network_type)) (value_error "unknown network_type")
    raise_if (is_empty r.link_role_uri) (value_error "link_role_uri is required")
    raise_if (is_empty r.arcrole_uri) (value_error "arcrole_uri is required")
    raise_if (outside context_elements r.context_element) (value_error "unknown context_element")
    assert_identity_qname r.link_qname
    assert_identity_qname r.arc_qname
    assert_finite_decimal lib r.order
    assert_finite_decimal lib r.weight
    ok r

  unfoldable pub relationship_to_dict : RelationshipRecord D → Json
  relationship_to_dict r = object (
      field "network_type" (text r.network_type) (
        field "link_role_uri" (text r.link_role_uri) (
          field "arcrole_uri" (text r.arcrole_uri) (
            field "link_qname" (qname_to_dict r.link_qname) (
              field "arc_qname" (qname_to_dict r.arc_qname) (
                field "source_concept" (qname_to_dict r.source_concept) (
                  field "target_concept" (qname_to_dict r.target_concept) (
                    field "order" (decimal_to_json lib r.order) (
                      field "weight" (decimal_to_json lib r.weight) (
                        field "preferred_label_role" (nullable_to_json text r.preferred_label_role)
                          (field "target_role_uri" (nullable_to_json text r.target_role_uri) (
                            field "closed" (nullable_to_json boolean r.closed) (
                              field "usable" (nullable_to_json boolean r.usable) (
                                field "context_element" (nullable_to_json text r.context_element) (
                                  field "source_locator" (locator_to_dict r.source_locator)
                                    end)))))))))))))))

  -- The arguments that `from_dict` passes to the constructor.
  unfoldable pub read_relationship : Json → Result (RelationshipRecord D)
  read_relationship data_value = do
    obj ← require_object data_value
    require_exact_keys obj relationship_keys
    network_type ← required (require_literal network_types) obj "network_type"
    context_element ← required (require_nullable_literal context_elements) obj "context_element"
    link_role_uri ← required require_str obj "link_role_uri"
    arcrole_uri ← required require_str obj "arcrole_uri"
    link_qname ← required require_qname obj "link_qname"
    arc_qname ← required require_qname obj "arc_qname"
    source_concept ← required require_qname obj "source_concept"
    target_concept ← required require_qname obj "target_concept"
    source_locator ← required (require_locator lib) obj "source_locator"
    order ← required (require_nullable_decimal lib) obj "order"
    weight ← required (require_nullable_decimal lib) obj "weight"
    preferred_label_role ← required require_nullable_str obj "preferred_label_role"
    target_role_uri ← required require_nullable_str obj "target_role_uri"
    closed ← required require_nullable_bool obj "closed"
    usable ← required require_nullable_bool obj "usable"
    ok (record {
      network_type = network_type;
      link_role_uri = link_role_uri;
      arcrole_uri = arcrole_uri;
      link_qname = link_qname;
      arc_qname = arc_qname;
      source_concept = source_concept;
      target_concept = target_concept;
      source_locator = source_locator;
      order = order;
      weight = weight;
      preferred_label_role = preferred_label_role;
      target_role_uri = target_role_uri;
      closed = closed;
      usable = usable;
      context_element = context_element;
    })

  unfoldable pub relationship_from_dict : Json → Result (RelationshipRecord D)
  relationship_from_dict data_value = read_relationship data_value >>= build_relationship

  -- A record that its constructor accepts, and so are its parts.
  abbrev pub IsRelationship : RelationshipRecord D → Type 0
  IsRelationship r =
      (build_relationship r ≡ ok r)
      × IsQName r.link_qname
      × IsQName r.arc_qname
      × IsQName r.source_concept
      × IsQName r.target_concept
      × IsLocator lib r.source_locator

  -- What `to_dict` writes of an accepted relationship record, `from_dict` reads as that record, if Python
  -- reads finite decimals back from their `str`.
  pub relationship_from_dict-relationship_to_dict :
      (r : RelationshipRecord D)
      → ReadsBack lib
      → IsRelationship r
      → relationship_from_dict (relationship_to_dict r) ≡ ok r
  unfolding build_relationship relationship_to_dict read_relationship relationship_from_dict
  relationship_from_dict-relationship_to_dict r reads h =
      let (built, h_link_qname, h_arc_qname, h_source_concept, h_target_concept, h_source_locator) =
        h in
      let (k_network_type, g0) =
        raise_if-then (not (contains network_types r.network_type))
          (value_error "unknown network_type") _ built in
      let (_, g1) =
        raise_if-then (is_empty r.link_role_uri) (value_error "link_role_uri is required") _ g0 in
      let (_, g2) =
        raise_if-then (is_empty r.arcrole_uri) (value_error "arcrole_uri is required") _ g1 in
      let (k_context_element, g3) =
        raise_if-then (outside context_elements r.context_element)
          (value_error "unknown context_element") _ g2 in
      let (_, g4) =
        raise_if-then (is_empty r.link_qname.local_name)
          (value_error "local_name must be non-empty") _ g3 in
      let (_, g5) =
        raise_if-then (is_empty r.arc_qname.local_name) (value_error "local_name must be non-empty")
          _ g4 in
      let (k_order, g6) =
        raise_if-then (infinite lib r.order) (value_error "must be a finite decimal") _ g5 in
      let (k_weight, _) =
        raise_if-then (infinite lib r.weight) (value_error "must be a finite decimal") _ g6 in
      rw
        (
          require_literal-text network_types r.network_type k_network_type,
          require_nullable_literal_lem context_elements r.context_element k_context_element,
          require_qname-qname_to_dict r.link_qname h_link_qname,
          require_qname-qname_to_dict r.arc_qname h_arc_qname,
          require_qname-qname_to_dict r.source_concept h_source_concept,
          require_qname-qname_to_dict r.target_concept h_target_concept,
          require_locator-locator_to_dict lib r.source_locator h_source_locator,
          require_nullable_decimal_lem lib r.order reads k_order,
          require_nullable_decimal_lem lib r.weight reads k_weight,
          require_nullable_str_lem r.preferred_label_role,
          require_nullable_str_lem r.target_role_uri,
          require_nullable_bool_lem r.closed,
          require_nullable_bool_lem r.usable,
        )
        built
