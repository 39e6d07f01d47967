-- ===== src/Xbrl/Records/Contexts.antt =====
-- src/edgar/xbrl/records.py: the records of contexts and their dimensions.
use edgar.Prelude.{
  ◌≡◌, Bool, true, false, not, List, [], ◌∷◌, Option, none, some, String, Result, ok, raise_if,
  raise_if-then, value_error, ◌>>=◌, ◌>>◌, ◌==◌, string_eq, OnSome, if◌then◌else◌,
}
use edgar.Prelude.Text.{is_empty}
use edgar.Prelude.Json.{nullable_to_json, Json, text, object, end, field}
use edgar.Domain.Decode.{require_object, require_exact_keys, require_str, contains, required}
use edgar.Xbrl.Records.{
  RecordLibrary, require_literal, require_nullable_str, ExpandedQName, qname_to_dict, require_qname,
  require_nullable_qname, SourceLocator, locator_to_dict, require_locator,
}
use edgar.Xbrl.Records.Readback.{
  IsQName, IsLocator, require_literal-text, require_nullable_str_lem, require_qname-qname_to_dict,
  require_nullable_qname_lem, require_locator-locator_to_dict,
}

abbrev pub period_kinds : List String
period_kinds = "instant" ∷ "duration" ∷ "forever" ∷ []

abbrev pub context_elements : List String
context_elements = "segment" ∷ "scenario" ∷ []

abbrev pub member_kinds : List String
member_kinds = "explicit" ∷ "typed" ∷ []

pub record ContextRecord : Type 0 where
  pub source_context_id : String
  pub entity_scheme : String
  pub entity_identifier : String
  pub period_kind : String
  pub source_locator : SourceLocator
  pub period_instant : Option String
  pub period_start : Option String
  pub period_end : Option String

abbrev context_keys : List String
context_keys =
    "source_context_id" ∷ "entity_scheme" ∷ "entity_identifier" ∷ "period_kind" ∷ "period_instant"
    ∷ "period_start" ∷ "period_end" ∷ "source_locator" ∷ []

unfoldable pub build_context : ContextRecord → Result ContextRecord
build_context r = do
  raise_if (is_empty r.source_context_id) (value_error "source_context_id is required")
  raise_if (not (contains period_kinds r.period_kind)) (value_error "unknown period_kind")
  ok r

unfoldable pub context_to_dict : ContextRecord → Json
context_to_dict r = object (
    field "source_context_id" (text r.source_context_id) (
      field "entity_scheme" (text r.entity_scheme) (
        field "entity_identifier" (text r.entity_identifier) (
          field "period_kind" (text r.period_kind) (
            field "period_instant" (nullable_to_json text r.period_instant) (
              field "period_start" (nullable_to_json text r.period_start) (
                field "period_end" (nullable_to_json text r.period_end)
                  (field "source_locator" (locator_to_dict r.source_locator) end))))))))

module _ {D : Type 0} (lib : RecordLibrary D) where
  -- The arguments that `from_dict` passes to the constructor.
  unfoldable pub read_context : Json → Result ContextRecord
  read_context data_value = do
    obj ← require_object data_value
    require_exact_keys obj context_keys
    period_kind ← required (require_literal period_kinds) obj "period_kind"
    source_context_id ← required require_str obj "source_context_id"
    entity_scheme ← required require_str obj "entity_scheme"
    entity_identifier ← required require_str obj "entity_identifier"
    source_locator ← required (require_locator lib) obj "source_locator"
    period_instant ← required require_nullable_str obj "period_instant"
    period_start ← required require_nullable_str obj "period_start"
    period_end ← required require_nullable_str obj "period_end"
    ok (record {
      source_context_id = source_context_id;
      entity_scheme = entity_scheme;
      entity_identifier = entity_identifier;
      period_kind = period_kind;
      source_locator = source_locator;
      period_instant = period_instant;
      period_start = period_start;
      period_end = period_end;
    })

  unfoldable pub context_from_dict : Json → Result ContextRecord
  context_from_dict data_value = read_context data_value >>= build_context

  -- A record that its constructor accepts, and so are its parts.
  abbrev pub IsContext : ContextRecord → Type 0
  IsContext r = (build_context r ≡ ok r) × IsLocator lib r.source_locator

  -- What `to_dict` writes of an accepted record, `from_dict` reads as that record.
  pub context_from_dict-context_to_dict :
      (r : ContextRecord) → IsContext r → context_from_dict (context_to_dict r) ≡ ok r
  unfolding build_context context_to_dict read_context context_from_dict
  context_from_dict-context_to_dict r h =
      let (built, h_source_locator) = h in
      let (_, g0) =
        raise_if-then (is_empty r.source_context_id) (value_error "source_context_id is required") _
          built in
      let (k_period_kind, _) =
        raise_if-then (not (contains period_kinds r.period_kind))
          (value_error "unknown period_kind") _ g0 in
      rw
        (
          require_literal-text period_kinds r.period_kind k_period_kind,
          require_locator-locator_to_dict lib r.source_locator h_source_locator,
          require_nullable_str_lem r.period_instant,
          require_nullable_str_lem r.period_start,
          require_nullable_str_lem r.period_end,
        )
        built

pub record ContextDimensionRecord : Type 0 where
  pub context_locator : SourceLocator
  pub dimension : ExpandedQName
  pub context_element : String
  pub member_kind : String
  pub source_locator : SourceLocator
  pub member : Option ExpandedQName
  pub typed_member_xml : Option String
  pub typed_member_sha256 : Option String

abbrev context_dimension_keys : List String
context_dimension_keys =
    "context_locator" ∷ "dimension" ∷ "context_element" ∷ "member_kind" ∷ "member"
    ∷ "typed_member_xml" ∷ "typed_member_sha256" ∷ "source_locator" ∷ []

-- The last tests of `__post_init__`: an explicit dimension has a member and no XML, a typed one XML
-- and no member.
abbrev pub given {ℓ} : {A : Type ℓ} → Option A → Bool
given none = false
given (some a) = true

abbrev assert_explicit : ContextDimensionRecord → Result (Unit {0})
assert_explicit r = do
  raise_if (not (given r.member)) (value_error "explicit dimension requires a member QName")
  raise_if (given r.typed_member_xml)
      (value_error "explicit dimension must not carry typed member XML")

abbrev assert_typed : ContextDimensionRecord → Result (Unit {0})
assert_typed r = do
  raise_if (not (given r.typed_member_xml))
      (value_error "typed dimension requires typed_member_xml")
  raise_if (given r.member) (value_error "typed dimension must not carry an explicit member QName")

abbrev pub assert_member : ContextDimensionRecord → Result (Unit {0})
assert_member r = if r.member_kind == "explicit" then assert_explicit r else assert_typed r

unfoldable pub build_context_dimension : ContextDimensionRecord → Result ContextDimensionRecord
build_context_dimension r = do
  raise_if (not (contains context_elements r.context_element))
      (value_error "unknown context_element")
  raise_if (not (contains member_kinds r.member_kind)) (value_error "unknown member_kind")
  assert_member r
  ok r

unfoldable pub context_dimension_to_dict : ContextDimensionRecord → Json
context_dimension_to_dict r = object (
    field "context_locator" (locator_to_dict r.context_locator) (
      field "dimension" (qname_to_dict r.dimension) (
        field "context_element" (text r.context_element) (
          field "member_kind" (text r.member_kind) (
            field "member" (nullable_to_json qname_to_dict r.member) (
              field "typed_member_xml" (nullable_to_json text r.typed_member_xml) (
                field "typed_member_sha256" (nullable_to_json text r.typed_member_sha256)
                  (field "source_locator" (locator_to_dict r.source_locator) end))))))))

module _ {D : Type 0} (lib : RecordLibrary D) where
  -- The arguments that `from_dict` passes to the constructor.
  unfoldable pub read_context_dimension : Json → Result ContextDimensionRecord
  read_context_dimension data_value = do
    obj ← require_object data_value
    require_exact_keys obj context_dimension_keys
    context_element ← required (require_literal context_elements) obj "context_element"
    member_kind ← required (require_literal member_kinds) obj "member_kind"
    context_locator ← required (require_locator lib) obj "context_locator"
    dimension ← required require_qname obj "dimension"
    source_locator ← required (require_locator lib) obj "source_locator"
    member ← required require_nullable_qname obj "member"
    typed_member_xml ← required require_nullable_str obj "typed_member_xml"
    typed_member_sha256 ← required require_nullable_str obj "typed_member_sha256"
    ok (record {
      context_locator = context_locator;
      dimension = dimension;
      context_element = context_element;
      member_kind = member_kind;
      source_locator = source_locator;
      member = member;
      typed_member_xml = typed_member_xml;
      typed_member_sha256 = typed_member_sha256;
    })

  unfoldable pub context_dimension_from_dict : Json → Result ContextDimensionRecord
  context_dimension_from_dict data_value =
      read_context_dimension data_value >>= build_context_dimension

  -- A record that its constructor accepts, and so are its parts.
  abbrev pub IsContextDimension : ContextDimensionRecord → Type 0
  IsContextDimension r =
      (build_context_dimension r ≡ ok r)
      × IsLocator lib r.context_locator
      × IsQName r.dimension
      × OnSome IsQName r.member
      × IsLocator lib r.source_locator

  -- What `to_dict` writes of an accepted record, `from_dict` reads as that record.
  pub context_dimension_from_dict-context_dimension_to_dict :
      (r : ContextDimensionRecord)
      → IsContextDimension r
      → context_dimension_from_dict (context_dimension_to_dict r) ≡ ok r
  unfolding build_context_dimension context_dimension_to_dict read_context_dimension
      context_dimension_from_dict
  context_dimension_from_dict-context_dimension_to_dict r h =
      let (built, h_context_locator, h_dimension, h_member, h_source_locator) = h in
      let (k_context_element, g0) =
        raise_if-then (not (contains context_elements r.context_element))
          (value_error "unknown context_element") _ built in
      let (k_member_kind, _) =
        raise_if-then (not (contains member_kinds r.member_kind))
          (value_error "unknown member_kind") _ g0 in
      rw
        (
          require_literal-text context_elements r.context_element k_context_element,
          require_literal-text member_kinds r.member_kind k_member_kind,
          require_locator-locator_to_dict lib r.context_locator h_context_locator,
          require_qname-qname_to_dict r.dimension h_dimension,
          require_locator-locator_to_dict lib r.source_locator h_source_locator,
          require_nullable_qname_lem r.member h_member,
          require_nullable_str_lem r.typed_member_xml,
          require_nullable_str_lem r.typed_member_sha256,
        )
        built
