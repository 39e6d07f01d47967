-- ===== src/Xbrl/Records/Units.antt =====
-- src/edgar/xbrl/records.py: the records of units and their measures.
use edgar.Prelude.{
  ◌≡◌, Bool, not, List, [], ◌∷◌, String, Result, ok, raise_if, raise_if-then, value_error, ◌>>=◌,
  ◌>>◌, string_eq,
}
use edgar.Prelude.Text.{is_empty}
use edgar.Prelude.Int.{ℤ, pos, ltb_ℤ}
use edgar.Prelude.Json.{Json, boolean, integer, text, object, end, field}
use edgar.Domain.Decode.{
  require_object, require_exact_keys, require_str, require_bool, require_int, contains, required,
}
use edgar.Xbrl.Records.{
  RecordLibrary, require_literal, ExpandedQName, qname_to_dict, require_qname, SourceLocator,
  locator_to_dict, require_locator,
}
use edgar.Xbrl.Records.Readback.{
  IsQName, IsLocator, require_literal-text, require_qname-qname_to_dict,
  require_locator-locator_to_dict,
}

abbrev pub measure_roles : List String
measure_roles = "numerator" ∷ "denominator" ∷ []

pub record UnitRecord : Type 0 where
  pub source_unit_id : String
  pub source_locator : SourceLocator
  pub divide : Bool

abbrev unit_keys : List String
unit_keys = "source_unit_id" ∷ "divide" ∷ "source_locator" ∷ []

unfoldable pub build_unit : UnitRecord → Result UnitRecord
build_unit r = do
  raise_if (is_empty r.source_unit_id) (value_error "source_unit_id is required")
  ok r

unfoldable pub unit_to_dict : UnitRecord → Json
unit_to_dict r = object (
    field "source_unit_id" (text r.source_unit_id) (
      field "divide" (boolean r.divide)
        (field "source_locator" (locator_to_dict r.source_locator) end)))

module _ {D : Type 0} (lib : RecordLibrary D) where
  -- The arguments that `from_dict` passes to the constructor.
  unfoldable pub read_unit : Json → Result UnitRecord
  read_unit data_value = do
    obj ← require_object data_value
    require_exact_keys obj unit_keys
    source_unit_id ← required require_str obj "source_unit_id"
    source_locator ← required (require_locator lib) obj "source_locator"
    divide ← required require_bool obj "divide"
    ok (record {
      source_unit_id = source_unit_id;
      source_locator = source_locator;
      divide = divide;
    })

  unfoldable pub unit_from_dict : Json → Result UnitRecord
  unit_from_dict data_value = read_unit data_value >>= build_unit

  -- A record that its constructor accepts, and so are its parts.
  abbrev pub IsUnit : UnitRecord → Type 0
  IsUnit r = (build_unit r ≡ ok r) × IsLocator lib r.source_locator

  -- What `to_dict` writes of an accepted record, `from_dict` reads as that record.
  pub unit_from_dict-unit_to_dict :
      (r : UnitRecord) → IsUnit r → unit_from_dict (unit_to_dict r) ≡ ok r
  unfolding build_unit unit_to_dict read_unit unit_from_dict
  unit_from_dict-unit_to_dict r h =
      let (built, h_source_locator) = h in
      rw (require_locator-locator_to_dict lib r.source_locator h_source_locator) built

pub record UnitMeasureRecord : Type 0 where
  pub unit_locator : SourceLocator
  pub measure_role : String
  pub ordinal : ℤ
  pub measure : ExpandedQName

abbrev unit_measure_keys : List String
unit_measure_keys = "unit_locator" ∷ "measure_role" ∷ "ordinal" ∷ "measure" ∷ []

unfoldable pub build_unit_measure : UnitMeasureRecord → Result UnitMeasureRecord
build_unit_measure r = do
  raise_if (not (contains measure_roles r.measure_role)) (value_error "unknown measure_role")
  raise_if (ltb_ℤ r.ordinal (pos 1)) (value_error "measure ordinal is 1-based")
  ok r

unfoldable pub unit_measure_to_dict : UnitMeasureRecord → Json
unit_measure_to_dict r = object (
    field "unit_locator" (locator_to_dict r.unit_locator) (
      field "measure_role" (text r.measure_role)
        (field "ordinal" (integer r.ordinal) (field "measure" (qname_to_dict r.measure) end))))

module _ {D : Type 0} (lib : RecordLibrary D) where
  -- The arguments that `from_dict` passes to the constructor.
  unfoldable pub read_unit_measure : Json → Result UnitMeasureRecord
  read_unit_measure data_value = do
    obj ← require_object data_value
    require_exact_keys obj unit_measure_keys
    measure_role ← required (require_literal measure_roles) obj "measure_role"
    unit_locator ← required (require_locator lib) obj "unit_locator"
    ordinal ← required require_int obj "ordinal"
    measure ← required require_qname obj "measure"
    ok (record {
      unit_locator = unit_locator;
      measure_role = measure_role;
      ordinal = ordinal;
      measure = measure;
    })

  unfoldable pub unit_measure_from_dict : Json → Result UnitMeasureRecord
  unit_measure_from_dict data_value = read_unit_measure data_value >>= build_unit_measure

  -- A record that its constructor accepts, and so are its parts.
  abbrev pub IsUnitMeasure : UnitMeasureRecord → Type 0
  IsUnitMeasure r = (build_unit_measure r ≡ ok r) × IsLocator lib r.unit_locator × IsQName r.measure

  -- What `to_dict` writes of an accepted record, `from_dict` reads as that record.
  pub unit_measure_from_dict-unit_measure_to_dict :
      (r : UnitMeasureRecord)
      → IsUnitMeasure r
      → unit_measure_from_dict (unit_measure_to_dict r) ≡ ok r
  unfolding build_unit_measure unit_measure_to_dict read_unit_measure unit_measure_from_dict
  unit_measure_from_dict-unit_measure_to_dict r h =
      let (built, h_unit_locator, h_measure) = h in
      let (k_measure_role, _) =
        raise_if-then (not (contains measure_roles r.measure_role))
          (value_error "unknown measure_role") _ built in
      rw
        (
          require_literal-text measure_roles r.measure_role k_measure_role,
          require_locator-locator_to_dict lib r.unit_locator h_unit_locator,
          require_qname-qname_to_dict r.measure h_measure,
        )
        built
