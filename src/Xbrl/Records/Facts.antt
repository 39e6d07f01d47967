-- ===== src/Xbrl/Records/Facts.antt =====
-- src/edgar/xbrl/records.py: the records of occurrences of facts.
use edgar.Prelude.{
  ◌≡◌, Bool, true, false, not, ◌&&◌, ◌||◌, List, [], ◌∷◌, Option, none, some, String, Result, ok,
  raise_if, raise_if-then, value_error, ◌>>=◌, ◌>>◌, ◌==◌, string_eq, All, OnSome,
}
use edgar.Prelude.Int.{ℤ}
use edgar.Prelude.Json.{nullable_to_json, Json, boolean, integer, text, object, end, field}
use edgar.Domain.Decode.{require_object, require_exact_keys, require_bool, contains, required}
use edgar.Xbrl.Records.{
  RecordLibrary, require_literal, require_nullable_literal, require_nullable_str,
  require_nullable_bool, require_nullable_int, outside, ExpandedQName, qname_to_dict, require_qname,
  require_nullable_qname, SourceLocator, locator_to_dict, require_locator, require_nullable_locator,
  require_locators, require_nullable_decimal, decimal_to_json, infinite, assert_finite_decimal,
  records_to_list,
}
use edgar.Xbrl.Records.Readback.{
  IsQName, IsLocator, ReadsBack, require_literal-text, require_nullable_literal_lem,
  require_nullable_str_lem, require_nullable_bool_lem, require_nullable_int_lem,
  require_qname-qname_to_dict, require_nullable_qname_lem, require_locator-locator_to_dict,
  require_nullable_locator_lem, require_locators-records_to_list, require_nullable_decimal_lem,
}

abbrev pub value_statuses : List String
value_statuses = "valid" ∷ "nil" ∷ "invalid" ∷ "unresolved" ∷ []

abbrev pub resolved_value_kinds : List String
resolved_value_kinds = "numeric" ∷ "text" ∷ "boolean" ∷ "date" ∷ "datetime" ∷ "time" ∷ "qname" ∷ []

abbrev pub inline_sign_values : List String
inline_sign_values = "-" ∷ []

abbrev pub given {ℓ} : {A : Type ℓ} → Option A → Bool
given none = false
given (some a) = true

abbrev pub bool_beq : Bool → Bool → Bool
bool_beq true b = b
bool_beq false b = not b

pub record FactRecord (D : Type 0) : Type 0 where
  pub concept_qname : ExpandedQName
  pub context_locator : SourceLocator
  pub source_locator : SourceLocator
  pub value_status : String
  pub is_nil : Bool
  pub unit_locator : Option SourceLocator
  pub raw_lexical_value : Option String
  pub resolved_text_value : Option String
  pub resolved_numeric_value : Option D
  pub resolved_value_kind : Option String
  pub resolved_value_type : Option ExpandedQName
  pub reported_decimals : Option String
  pub reported_precision : Option String
  pub xml_lang : Option String
  pub format_qname : Option ExpandedQName
  pub scale : Option ℤ
  pub sign : Option String
  pub escape : Option Bool
  pub continuation_provenance : List SourceLocator

abbrev fact_keys : List String
fact_keys =
    "concept_qname" ∷ "context_locator" ∷ "unit_locator" ∷ "source_locator" ∷ "value_status"
    ∷ "raw_lexical_value" ∷ "resolved_text_value" ∷ "resolved_numeric_value" ∷ "resolved_value_kind"
    ∷ "resolved_value_type" ∷ "is_nil" ∷ "reported_decimals" ∷ "reported_precision" ∷ "xml_lang"
    ∷ "format_qname" ∷ "scale" ∷ "sign" ∷ "escape" ∷ "continuation_provenance" ∷ []

module _ {D : Type 0} (lib : RecordLibrary D) where
  unfoldable pub build_fact : FactRecord D → Result (FactRecord D)
  build_fact r = do
    raise_if (not (contains value_statuses r.value_status)) (value_error "unknown value_status")
    raise_if (not (bool_beq r.is_nil (r.value_status == "nil")))
        (value_error "is_nil and value_status must agree")
    raise_if (r.is_nil && (given r.resolved_numeric_value || given r.resolved_text_value))
        (value_error "a nil fact must not carry a resolved value")
    assert_finite_decimal lib r.resolved_numeric_value
    raise_if (outside resolved_value_kinds r.resolved_value_kind)
        (value_error "unknown resolved_value_kind")
    raise_if (outside inline_sign_values r.sign) (value_error "unsupported sign attribute")
    ok r

  unfoldable pub fact_to_dict : FactRecord D → Json
  fact_to_dict r = object (
      field "concept_qname" (qname_to_dict r.concept_qname) (
        field "context_locator" (locator_to_dict r.context_locator) (
          field "unit_locator" (nullable_to_json locator_to_dict r.unit_locator) (
            field "source_locator" (locator_to_dict r.source_locator) (
              field "value_status" (text r.value_status) (
                field "raw_lexical_value" (nullable_to_json text r.raw_lexical_value) (
                  field "resolved_text_value" (nullable_to_json text r.resolved_text_value) (
                    field "resolved_numeric_value" (decimal_to_json lib r.resolved_numeric_value) (
                      field "resolved_value_kind" (nullable_to_json text r.resolved_value_kind) (
                        field "resolved_value_type"
                          (nullable_to_json qname_to_dict r.resolved_value_type)
                          (field "is_nil" (boolean r.is_nil) (
                            field "reported_decimals" (nullable_to_json text r.reported_decimals) (
                              field "reported_precision"
                                (nullable_to_json text r.reported_precision)
                                (field "xml_lang" (nullable_to_json text r.xml_lang) (
                                  field "format_qname"
                                    (nullable_to_json qname_to_dict r.format_qname)
                                    (field "scale" (nullable_to_json integer r.scale) (
                                      field "sign" (nullable_to_json text r.sign) (
                                        field "escape" (nullable_to_json boolean r.escape) (
                                          field "continuation_provenance"
                                            (records_to_list locator_to_dict
                                              r.continuation_provenance)
                                            end)))))))))))))))))))

  -- The arguments that `from_dict` passes to the constructor.
  unfoldable pub read_fact : Json → Result (FactRecord D)
  read_fact data_value = do
    obj ← require_object data_value
    require_exact_keys obj fact_keys
    value_status ← required (require_literal value_statuses) obj "value_status"
    concept_qname ← required require_qname obj "concept_qname"
    context_locator ← required (require_locator lib) obj "context_locator"
    source_locator ← required (require_locator lib) obj "source_locator"
    is_nil ← required require_bool obj "is_nil"
    unit_locator ← required (require_nullable_locator lib) obj "unit_locator"
    raw_lexical_value ← required require_nullable_str obj "raw_lexical_value"
    resolved_text_value ← required require_nullable_str obj "resolved_text_value"
    resolved_numeric_value ← required (require_nullable_decimal lib) obj "resolved_numeric_value"
    resolved_value_kind ←
        required (require_nullable_literal resolved_value_kinds) obj "resolved_value_kind"
    resolved_value_type ← required require_nullable_qname obj "resolved_value_type"
    reported_decimals ← required require_nullable_str obj "reported_decimals"
    reported_precision ← required require_nullable_str obj "reported_precision"
    xml_lang ← required require_nullable_str obj "xml_lang"
    format_qname ← required require_nullable_qname obj "format_qname"
    scale ← required require_nullable_int obj "scale"
    sign ← required require_nullable_str obj "sign"
    escape ← required require_nullable_bool obj "escape"
    continuation_provenance ← required (require_locators lib) obj "continuation_provenance"
    ok (record {
      concept_qname = concept_qname;
      context_locator = context_locator;
      source_locator = source_locator;
      value_status = value_status;
      is_nil = is_nil;
      unit_locator = unit_locator;
      raw_lexical_value = raw_lexical_value;
      resolved_text_value = resolved_text_value;
      resolved_numeric_value = resolved_numeric_value;
      resolved_value_kind = resolved_value_kind;
      resolved_value_type = resolved_value_type;
      reported_decimals = reported_decimals;
      reported_precision = reported_precision;
      xml_lang = xml_lang;
      format_qname = format_qname;
      scale = scale;
      sign = sign;
      escape = escape;
      continuation_provenance = continuation_provenance;
    })

  unfoldable pub fact_from_dict : Json → Result (FactRecord D)
  fact_from_dict data_value = read_fact data_value >>= build_fact

  -- A record that its constructor accepts, and so are its parts.
  abbrev pub IsFact : FactRecord D → Type 0
  IsFact r =
      (build_fact r ≡ ok r)
      × IsQName r.concept_qname
      × IsLocator lib r.context_locator
      × OnSome (IsLocator lib) r.unit_locator
      × IsLocator lib r.source_locator
      × OnSome IsQName r.resolved_value_type
      × OnSome IsQName r.format_qname
      × All (IsLocator lib) r.continuation_provenance

  -- What `to_dict` writes of an accepted fact record, `from_dict` reads as that record, if Python
  -- reads finite decimals back from their `str`.
  pub fact_from_dict-fact_to_dict :
      (r : FactRecord D) → ReadsBack lib → IsFact r → fact_from_dict (fact_to_dict r) ≡ ok r
  unfolding build_fact fact_to_dict read_fact fact_from_dict
  fact_from_dict-fact_to_dict r reads h =
      let (
        built, h_concept_qname, h_context_locator, h_unit_locator, h_source_locator,
        h_resolved_value_type, h_format_qname, h_continuation_provenance,
      ) =
        h in
      let (k_value_status, g0) =
        raise_if-then (not (contains value_statuses r.value_status))
          (value_error "unknown value_status") _ built in
      let (_, g1) =
        raise_if-then (not (bool_beq r.is_nil (r.value_status == "nil")))
          (value_error "is_nil and value_status must agree") _ g0 in
      let (_, g2) =
        raise_if-then (r.is_nil && (given r.resolved_numeric_value || given r.resolved_text_value))
          (value_error "a nil fact must not carry a resolved value") _ g1 in
      let (k_resolved_numeric_value, g3) =
        raise_if-then (infinite lib r.resolved_numeric_value)
          (value_error "must be a finite decimal") _ g2 in
      let (k_resolved_value_kind, _) =
        raise_if-then (outside resolved_value_kinds r.resolved_value_kind)
          (value_error "unknown resolved_value_kind") _ g3 in
      rw
        (
          require_literal-text value_statuses r.value_status k_value_status,
          require_qname-qname_to_dict r.concept_qname h_concept_qname,
          require_locator-locator_to_dict lib r.context_locator h_context_locator,
          require_locator-locator_to_dict lib r.source_locator h_source_locator,
          require_nullable_locator_lem lib r.unit_locator h_unit_locator,
          require_nullable_str_lem r.raw_lexical_value,
          require_nullable_str_lem r.resolved_text_value,
          require_nullable_decimal_lem lib r.resolved_numeric_value reads k_resolved_numeric_value,
          require_nullable_literal_lem resolved_value_kinds r.resolved_value_kind
              k_resolved_value_kind,
          require_nullable_qname_lem r.resolved_value_type h_resolved_value_type,
          require_nullable_str_lem r.reported_decimals,
          require_nullable_str_lem r.reported_precision,
          require_nullable_str_lem r.xml_lang,
          require_nullable_qname_lem r.format_qname h_format_qname,
          require_nullable_int_lem r.scale,
          require_nullable_str_lem r.sign,
          require_nullable_bool_lem r.escape,
          require_locators-records_to_list lib r.continuation_provenance h_continuation_provenance,
        )
        built
