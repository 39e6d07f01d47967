-- ===== src/Xbrl/Records/Roles.antt =====
-- src/edgar/xbrl/records.py: the records of declarations of roles and arc roles.
use edgar.Prelude.{
  ◌≡◌, List, [], ◌∷◌, Option, String, Result, ok, raise_if, raise_if-then, value_error, ◌>>=◌, ◌>>◌,
  string_eq, All,
}
use edgar.Prelude.Text.{is_empty}
use edgar.Prelude.Json.{nullable_to_json, Json, text, object, end, field}
use edgar.Domain.Decode.{require_object, require_exact_keys, require_str, required}
use edgar.Xbrl.Records.{
  RecordLibrary, require_nullable_literal, require_nullable_str, outside, ExpandedQName,
  qname_to_dict, require_qnames, SourceLocator, locator_to_dict, require_locator, records_to_list,
}
use edgar.Xbrl.Records.Readback.{
  IsQName, IsLocator, require_nullable_literal_lem, require_nullable_str_lem,
  require_qnames-records_to_list, require_locator-locator_to_dict,
}

abbrev pub cycles_allowed_words : List String
cycles_allowed_words = "any" ∷ "undirected" ∷ "none" ∷ []

pub record RoleDeclarationRecord : Type 0 where
  pub role_uri : String
  pub source_locator : SourceLocator
  pub definition : Option String
  pub used_on : List ExpandedQName

abbrev role_declaration_keys : List String
role_declaration_keys = "role_uri" ∷ "definition" ∷ "used_on" ∷ "source_locator" ∷ []

unfoldable pub build_role_declaration : RoleDeclarationRecord → Result RoleDeclarationRecord
build_role_declaration r = do
  raise_if (is_empty r.role_uri) (value_error "role_uri is required")
  ok r

unfoldable pub role_declaration_to_dict : RoleDeclarationRecord → Json
role_declaration_to_dict r = object (
    field "role_uri" (text r.role_uri) (
      field "definition" (nullable_to_json text r.definition) (
        field "used_on" (records_to_list qname_to_dict r.used_on)
          (field "source_locator" (locator_to_dict r.source_locator) end))))

module _ {D : Type 0} (lib : RecordLibrary D) where
  -- The arguments that `from_dict` passes to the constructor.
  unfoldable pub read_role_declaration : Json → Result RoleDeclarationRecord
  read_role_declaration data_value = do
    obj ← require_object data_value
    require_exact_keys obj role_declaration_keys
    role_uri ← required require_str obj "role_uri"
    source_locator ← required (require_locator lib) obj "source_locator"
    definition ← required require_nullable_str obj "definition"
    used_on ← required require_qnames obj "used_on"
    ok (record {
      role_uri = role_uri;
      source_locator = source_locator;
      definition = definition;
      used_on = used_on;
    })

  unfoldable pub role_declaration_from_dict : Json → Result RoleDeclarationRecord
  role_declaration_from_dict data_value =
      read_role_declaration data_value >>= build_role_declaration

  -- A record that its constructor accepts, and so are its parts.
  abbrev pub IsRoleDeclaration : RoleDeclarationRecord → Type 0
  IsRoleDeclaration r =
      (build_role_declaration r ≡ ok r) × All IsQName r.used_on × IsLocator lib r.source_locator

  -- What `to_dict` writes of an accepted record, `from_dict` reads as that record.
  pub role_declaration_from_dict-role_declaration_to_dict :
      (r : RoleDeclarationRecord)
      → IsRoleDeclaration r
      → role_declaration_from_dict (role_declaration_to_dict r) ≡ ok r
  unfolding build_role_declaration role_declaration_to_dict read_role_declaration
      role_declaration_from_dict
  role_declaration_from_dict-role_declaration_to_dict r h =
      let (built, h_used_on, h_source_locator) = h in
      rw
        (
          require_locator-locator_to_dict lib r.source_locator h_source_locator,
          require_nullable_str_lem r.definition,
          require_qnames-records_to_list r.used_on h_used_on,
        )
        built

pub record ArcroleDeclarationRecord : Type 0 where
  pub arcrole_uri : String
  pub source_locator : SourceLocator
  pub definition : Option String
  pub used_on : List ExpandedQName
  pub cycles_allowed : Option String

abbrev arcrole_declaration_keys : List String
arcrole_declaration_keys =
    "arcrole_uri" ∷ "definition" ∷ "used_on" ∷ "cycles_allowed" ∷ "source_locator" ∷ []

unfoldable pub build_arcrole_declaration :
    ArcroleDeclarationRecord → Result ArcroleDeclarationRecord
build_arcrole_declaration r = do
  raise_if (is_empty r.arcrole_uri) (value_error "arcrole_uri is required")
  raise_if (outside cycles_allowed_words r.cycles_allowed) (value_error "unknown cycles_allowed")
  ok r

unfoldable pub arcrole_declaration_to_dict : ArcroleDeclarationRecord → Json
arcrole_declaration_to_dict r = object (
    field "arcrole_uri" (text r.arcrole_uri) (
      field "definition" (nullable_to_json text r.definition) (
        field "used_on" (records_to_list qname_to_dict r.used_on) (
          field "cycles_allowed" (nullable_to_json text r.cycles_allowed)
            (field "source_locator" (locator_to_dict r.source_locator) end)))))

module _ {D : Type 0} (lib : RecordLibrary D) where
  -- The arguments that `from_dict` passes to the constructor.
  unfoldable pub read_arcrole_declaration : Json → Result ArcroleDeclarationRecord
  read_arcrole_declaration data_value = do
    obj ← require_object data_value
    require_exact_keys obj arcrole_declaration_keys
    cycles_allowed ← required (require_nullable_literal cycles_allowed_words) obj "cycles_allowed"
    arcrole_uri ← required require_str obj "arcrole_uri"
    source_locator ← required (require_locator lib) obj "source_locator"
    definition ← required require_nullable_str obj "definition"
    used_on ← required require_qnames obj "used_on"
    ok (record {
      arcrole_uri = arcrole_uri;
      source_locator = source_locator;
      definition = definition;
      used_on = used_on;
      cycles_allowed = cycles_allowed;
    })

  unfoldable pub arcrole_declaration_from_dict : Json → Result ArcroleDeclarationRecord
  arcrole_declaration_from_dict data_value =
      read_arcrole_declaration data_value >>= build_arcrole_declaration

  -- A record that its constructor accepts, and so are its parts.
  abbrev pub IsArcroleDeclaration : ArcroleDeclarationRecord → Type 0
  IsArcroleDeclaration r =
      (build_arcrole_declaration r ≡ ok r) × All IsQName r.used_on × IsLocator lib r.source_locator

  -- What `to_dict` writes of an accepted record, `from_dict` reads as that record.
  pub arcrole_declaration_from_dict-arcrole_declaration_to_dict :
      (r : ArcroleDeclarationRecord)
      → IsArcroleDeclaration r
      → arcrole_declaration_from_dict (arcrole_declaration_to_dict r) ≡ ok r
  unfolding build_arcrole_declaration arcrole_declaration_to_dict read_arcrole_declaration
      arcrole_declaration_from_dict
  arcrole_declaration_from_dict-arcrole_declaration_to_dict r h =
      let (built, h_used_on, h_source_locator) = h in
      let (_, g0) =
        raise_if-then (is_empty r.arcrole_uri) (value_error "arcrole_uri is required") _ built in
      let (k_cycles_allowed, _) =
        raise_if-then (outside cycles_allowed_words r.cycles_allowed)
          (value_error "unknown cycles_allowed") _ g0 in
      rw
        (
          require_nullable_literal_lem cycles_allowed_words r.cycles_allowed k_cycles_allowed,
          require_locator-locator_to_dict lib r.source_locator h_source_locator,
          require_nullable_str_lem r.definition,
          require_qnames-records_to_list r.used_on h_used_on,
        )
        built
