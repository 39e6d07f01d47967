-- ===== src/Xbrl/Records/Issues.antt =====
-- src/edgar/xbrl/records.py: the records of issues of a projection.
use edgar.Prelude.{
  ◌≡◌, false, not, List, [], ◌∷◌, Option, String, Result, ok, raise_if, raise_if-then, value_error,
  ◌>>=◌, ◌>>◌, string_eq, OnSome,
}
use edgar.Prelude.Text.{is_empty}
use edgar.Prelude.Json.{nullable_to_json, Json, Fields, text, object, end, field}
use edgar.Domain.Decode.{require_object, require_exact_keys, require_str, contains, required}
use edgar.Xbrl.Records.{
  RecordLibrary, require_literal, SourceLocator, locator_to_dict, json_fields,
  require_nullable_locator,
}
use edgar.Xbrl.Records.Readback.{IsLocator, require_literal-text, require_nullable_locator_lem}
use edgar.Xbrl.Records.Decoded.{fields_float, json_fields_plain}

abbrev pub issue_severities : List String
issue_severities = "fatal" ∷ "warning" ∷ "info" ∷ []

abbrev pub issue_scopes : List String
issue_scopes = "operational" ∷ "xbrl" ∷ "document" ∷ []

pub record SemanticIssueRecord : Type 0 where
  pub severity : String
  pub code : String
  pub message : String
  pub scope : String
  pub locator : Option SourceLocator
  pub context : Fields

abbrev semantic_issue_keys : List String
semantic_issue_keys = "severity" ∷ "code" ∷ "message" ∷ "scope" ∷ "locator" ∷ "context" ∷ []

unfoldable pub build_semantic_issue : SemanticIssueRecord → Result SemanticIssueRecord
build_semantic_issue r = do
  raise_if (not (contains issue_severities r.severity)) (value_error "unknown issue severity")
  raise_if (not (contains issue_scopes r.scope)) (value_error "unknown issue scope")
  raise_if (is_empty r.code) (value_error "issue code must be non-empty")
  ok r

unfoldable pub semantic_issue_to_dict : SemanticIssueRecord → Json
semantic_issue_to_dict r = object (
    field "severity" (text r.severity) (
      field "code" (text r.code) (
        field "message" (text r.message) (
          field "scope" (text r.scope) (
            field "locator" (nullable_to_json locator_to_dict r.locator)
              (field "context" (object r.context) end))))))

module _ {D : Type 0} (lib : RecordLibrary D) where
  -- The arguments that `from_dict` passes to the constructor.
  unfoldable pub read_semantic_issue : Json → Result SemanticIssueRecord
  read_semantic_issue data_value = do
    obj ← require_object data_value
    require_exact_keys obj semantic_issue_keys
    severity ← required (require_literal issue_severities) obj "severity"
    scope ← required (require_literal issue_scopes) obj "scope"
    context ← required require_object obj "context"
    code ← required require_str obj "code"
    message ← required require_str obj "message"
    locator ← required (require_nullable_locator lib) obj "locator"
    plain ← json_fields context
    ok (record {
      severity = severity;
      code = code;
      message = message;
      scope = scope;
      locator = locator;
      context = plain;
    })

  unfoldable pub semantic_issue_from_dict : Json → Result SemanticIssueRecord
  semantic_issue_from_dict data_value = read_semantic_issue data_value >>= build_semantic_issue

  -- A record that its constructor accepts, and so are its parts.
  abbrev pub IsSemanticIssue : SemanticIssueRecord → Type 0
  IsSemanticIssue r =
      (build_semantic_issue r ≡ ok r)
      × OnSome (IsLocator lib) r.locator
      × (fields_float r.context ≡ false)

  -- What `to_dict` writes of an accepted issue record without floats, `from_dict` reads as that record.
  pub semantic_issue_from_dict-semantic_issue_to_dict :
      (r : SemanticIssueRecord)
      → IsSemanticIssue r
      → semantic_issue_from_dict (semantic_issue_to_dict r) ≡ ok r
  unfolding build_semantic_issue semantic_issue_to_dict read_semantic_issue semantic_issue_from_dict
  semantic_issue_from_dict-semantic_issue_to_dict r h =
      let (built, h_locator, h_context) = h in
      let (k_severity, g0) =
        raise_if-then (not (contains issue_severities r.severity))
          (value_error "unknown issue severity") _ built in
      let (k_scope, _) =
        raise_if-then (not (contains issue_scopes r.scope)) (value_error "unknown issue scope") _
          g0 in
      rw
        (
          require_literal-text issue_severities r.severity k_severity,
          require_literal-text issue_scopes r.scope k_scope,
          require_nullable_locator_lem lib r.locator h_locator,
          json_fields_plain r.context h_context,
        )
        built
