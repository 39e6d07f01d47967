-- ===== src/Xbrl/Records/Concepts.antt =====
-- src/edgar/xbrl/records.py: the records of declarations and labels of concepts.
use edgar.Prelude.{
  ◌≡◌, Bool, List, [], ◌∷◌, Option, String, Result, ok, raise_if, raise_if-then, value_error, ◌>>=◌,
  ◌>>◌, string_eq, OnSome,
}
use edgar.Prelude.Text.{is_empty}
use edgar.Prelude.Json.{nullable_to_json, Json, boolean, text, object, end, field}
use edgar.Domain.Decode.{require_object, require_exact_keys, require_str, required}
use edgar.Xbrl.Records.{
  RecordLibrary, require_nullable_literal, require_nullable_str, require_nullable_bool, outside,
  ExpandedQName, qname_to_dict, require_qname, require_nullable_qname, assert_identity_qname,
  SourceLocator, locator_to_dict, require_locator, require_nullable_decimal, decimal_to_json,
  infinite, assert_finite_decimal,
}
use edgar.Xbrl.Records.Readback.{
  IsQName, IsLocator, ReadsBack, require_nullable_literal_lem, require_nullable_str_lem,
  require_nullable_bool_lem, require_qname-qname_to_dict, require_nullable_qname_lem,
  require_locator-locator_to_dict, require_nullable_decimal_lem,
}

abbrev pub period_types : List String
period_types = "instant" ∷ "duration" ∷ []

abbrev pub balances : List String
balances = "debit" ∷ "credit" ∷ []

pub record ConceptDeclarationRecord : Type 0 where
  pub concept : ExpandedQName
  pub source_locator : SourceLocator
  pub data_type : Option ExpandedQName
  pub substitution_group : Option ExpandedQName
  pub period_type : Option String
  pub balance : Option String
  pub abstract : Option Bool
  pub nillable : Option Bool

abbrev concept_declaration_keys : List String
concept_declaration_keys =
    "concept" ∷ "data_type" ∷ "substitution_group" ∷ "period_type" ∷ "balance" ∷ "abstract"
    ∷ "nillable" ∷ "source_locator" ∷ []

unfoldable pub build_concept_declaration :
    ConceptDeclarationRecord → Result ConceptDeclarationRecord
build_concept_declaration r = do
  raise_if (outside period_types r.period_type) (value_error "unknown period_type")
  raise_if (outside balances r.balance) (value_error "unknown balance")
  ok r

unfoldable pub concept_declaration_to_dict : ConceptDeclarationRecord → Json
concept_declaration_to_dict r = object (
    field "concept" (qname_to_dict r.concept) (
      field "data_type" (nullable_to_json qname_to_dict r.data_type) (
        field "substitution_group" (nullable_to_json qname_to_dict r.substitution_group) (
          field "period_type" (nullable_to_json text r.period_type) (
            field "balance" (nullable_to_json text r.balance) (
              field "abstract" (nullable_to_json boolean r.abstract) (
                field "nillable" (nullable_to_json boolean r.nillable)
                  (field "source_locator" (locator_to_dict r.source_locator) end))))))))

module _ {D : Type 0} (lib : RecordLibrary D) where
  -- The arguments that `from_dict` passes to the constructor.
  unfoldable pub read_concept_declaration : Json → Result ConceptDeclarationRecord
  read_concept_declaration data_value = do
    obj ← require_object data_value
    require_exact_keys obj concept_declaration_keys
    period_type ← required (require_nullable_literal period_types) obj "period_type"
    balance ← required (require_nullable_literal balances) obj "balance"
    concept ← required require_qname obj "concept"
    source_locator ← required (require_locator lib) obj "source_locator"
    data_type ← required require_nullable_qname obj "data_type"
    substitution_group ← required require_nullable_qname obj "substitution_group"
    abstract ← required require_nullable_bool obj "abstract"
    nillable ← required require_nullable_bool obj "nillable"
    ok (record {
      concept = concept;
      source_locator = source_locator;
      data_type = data_type;
      substitution_group = substitution_group;
      period_type = period_type;
      balance = balance;
      abstract = abstract;
      nillable = nillable;
    })

  unfoldable pub concept_declaration_from_dict : Json → Result ConceptDeclarationRecord
  concept_declaration_from_dict data_value =
      read_concept_declaration data_value >>= build_concept_declaration

  -- A record that its constructor accepts, and so are its parts.
  abbrev pub IsConceptDeclaration : ConceptDeclarationRecord → Type 0
  IsConceptDeclaration r =
      (build_concept_declaration r ≡ ok r)
      × IsQName r.concept
      × OnSome IsQName r.data_type
      × OnSome IsQName r.substitution_group
      × IsLocator lib r.source_locator

  -- What `to_dict` writes of an accepted record, `from_dict` reads as that record.
  pub concept_declaration_from_dict-concept_declaration_to_dict :
      (r : ConceptDeclarationRecord)
      → IsConceptDeclaration r
      → concept_declaration_from_dict (concept_declaration_to_dict r) ≡ ok r
  unfolding build_concept_declaration concept_declaration_to_dict read_concept_declaration
      concept_declaration_from_dict
  concept_declaration_from_dict-concept_declaration_to_dict r h =
      let (built, h_concept, h_data_type, h_substitution_group, h_source_locator) = h in
      let (k_period_type, g0) =
        raise_if-then (outside period_types r.period_type) (value_error "unknown period_type") _
          built in
      let (k_balance, _) =
        raise_if-then (outside balances r.balance) (value_error "unknown balance") _ g0 in
      rw
        (
          require_nullable_literal_lem period_types r.period_type k_period_type,
          require_nullable_literal_lem balances r.balance k_balance,
          require_qname-qname_to_dict r.concept h_concept,
          require_locator-locator_to_dict lib r.source_locator h_source_locator,
          require_nullable_qname_lem r.data_type h_data_type,
          require_nullable_qname_lem r.substitution_group h_substitution_group,
          require_nullable_bool_lem r.abstract,
          require_nullable_bool_lem r.nillable,
        )
        built

pub record ConceptLabelRecord (D : Type 0) : Type 0 where
  pub concept : ExpandedQName
  pub link_role_uri : String
  pub arcrole_uri : String
  pub link_qname : ExpandedQName
  pub arc_qname : ExpandedQName
  pub content : String
  pub source_locator : SourceLocator
  pub arc_locator : SourceLocator
  pub resource_role_uri : Option String
  pub xml_lang : Option String
  pub order : Option D

abbrev concept_label_keys : List String
concept_label_keys =
    "concept" ∷ "link_role_uri" ∷ "arcrole_uri" ∷ "link_qname" ∷ "arc_qname" ∷ "resource_role_uri"
    ∷ "xml_lang" ∷ "text" ∷ "order" ∷ "source_locator" ∷ "arc_locator" ∷ []

module _ {D : Type 0} (lib : RecordLibrary D) where
  unfoldable pub build_concept_label : ConceptLabelRecord D → Result (ConceptLabelRecord D)
  build_concept_label r = do
    raise_if (is_empty r.link_role_uri) (value_error "link_role_uri is required")
    raise_if (is_empty r.arcrole_uri) (value_error "arcrole_uri is required")
    assert_identity_qname r.link_qname
    assert_identity_qname r.arc_qname
    assert_finite_decimal lib r.order
    ok r

  unfoldable pub concept_label_to_dict : ConceptLabelRecord D → Json
  concept_label_to_dict r = object (
      field "concept" (qname_to_dict r.concept) (
        field "link_role_uri" (text r.link_role_uri) (
          field "arcrole_uri" (text r.arcrole_uri) (
            field "link_qname" (qname_to_dict r.link_qname) (
              field "arc_qname" (qname_to_dict r.arc_qname) (
                field "resource_role_uri" (nullable_to_json text r.resource_role_uri) (
                  field "xml_lang" (nullable_to_json text r.xml_lang) (
                    field "text" (text r.content) (
                      field "order" (decimal_to_json lib r.order) (
                        field "source_locator" (locator_to_dict r.source_locator)
                          (field "arc_locator" (locator_to_dict r.arc_locator) end)))))))))))

  -- The arguments that `from_dict` passes to the constructor.
  unfoldable pub read_concept_label : Json → Result (ConceptLabelRecord D)
  read_concept_label data_value = do
    obj ← require_object data_value
    require_exact_keys obj concept_label_keys
    concept ← required require_qname obj "concept"
    link_role_uri ← required require_str obj "link_role_uri"
    arcrole_uri ← required require_str obj "arcrole_uri"
    link_qname ← required require_qname obj "link_qname"
    arc_qname ← required require_qname obj "arc_qname"
    content ← required require_str obj "text"
    source_locator ← required (require_locator lib) obj "source_locator"
    arc_locator ← required (require_locator lib) obj "arc_locator"
    resource_role_uri ← required require_nullable_str obj "resource_role_uri"
    xml_lang ← required require_nullable_str obj "xml_lang"
    order ← required (require_nullable_decimal lib) obj "order"
    ok (record {
      concept = concept;
      link_role_uri = link_role_uri;
      arcrole_uri = arcrole_uri;
      link_qname = link_qname;
      arc_qname = arc_qname;
      content = content;
      source_locator = source_locator;
      arc_locator = arc_locator;
      resource_role_uri = resource_role_uri;
      xml_lang = xml_lang;
      order = order;
    })

  unfoldable pub concept_label_from_dict : Json → Result (ConceptLabelRecord D)
  concept_label_from_dict data_value = read_concept_label data_value >>= build_concept_label

  -- A record that its constructor accepts, and so are its parts.
  abbrev pub IsConceptLabel : ConceptLabelRecord D → Type 0
  IsConceptLabel r =
      (build_concept_label r ≡ ok r)
      × IsQName r.concept
      × IsQName r.link_qname
      × IsQName r.arc_qname
      × IsLocator lib r.source_locator
      × IsLocator lib r.arc_locator

  -- What `to_dict` writes of an accepted record, `from_dict` reads as that record, if Python
  -- reads finite decimals back from their `str`.
  pub concept_label_from_dict-concept_label_to_dict :
      (r : ConceptLabelRecord D)
      → ReadsBack lib
      → IsConceptLabel r
      → concept_label_from_dict (concept_label_to_dict r) ≡ ok r
  unfolding build_concept_label concept_label_to_dict read_concept_label concept_label_from_dict
  concept_label_from_dict-concept_label_to_dict r reads h =
      let (built, h_concept, h_link_qname, h_arc_qname, h_source_locator, h_arc_locator) = h in
      let (_, g0) =
        raise_if-then (is_empty r.link_role_uri) (value_error "link_role_uri is required") _
          built in
      let (_, g1) =
        raise_if-then (is_empty r.arcrole_uri) (value_error "arcrole_uri is required") _ g0 in
      let (_, g2) =
        raise_if-then (is_empty r.link_qname.local_name)
          (value_error "local_name must be non-empty") _ g1 in
      let (_, g3) =
        raise_if-then (is_empty r.arc_qname.local_name) (value_error "local_name must be non-empty")
          _ g2 in
      let (k_order, _) =
        raise_if-then (infinite lib r.order) (value_error "must be a finite decimal") _ g3 in
      rw
        (
          require_qname-qname_to_dict r.concept h_concept,
          require_qname-qname_to_dict r.link_qname h_link_qname,
          require_qname-qname_to_dict r.arc_qname h_arc_qname,
          require_locator-locator_to_dict lib r.source_locator h_source_locator,
          require_locator-locator_to_dict lib r.arc_locator h_arc_locator,
          require_nullable_str_lem r.resource_role_uri,
          require_nullable_str_lem r.xml_lang,
          require_nullable_decimal_lem lib r.order reads k_order,
        )
        built
