-- ===== src/Xbrl/Records/Diagnostics.antt =====
-- src/edgar/xbrl/records.py: the records of diagnostics of the engine.
use edgar.Prelude.{
  ◌≡◌, Bool, false, not, List, [], ◌∷◌, Option, none, some, String, Result, ok, raise_if,
  raise_if-then, value_error, ◌>>=◌, ◌>>◌, string_eq,
}
use edgar.Prelude.Text.{is_empty}
use edgar.Prelude.Int.{ℤ, pos, ltb_ℤ}
use edgar.Prelude.Json.{nullable_to_json, Json, integer, text, object, end, field}
use edgar.Domain.Decode.{
  require_object, require_exact_keys, require_str, require_int, contains, required,
}
use edgar.Xbrl.Records.{require_literal, require_nullable_str, require_nullable_int}
use edgar.Xbrl.Records.Readback.{
  require_literal-text, require_nullable_str_lem, require_nullable_int_lem,
}

abbrev pub diagnostic_severities : List String
diagnostic_severities = "info" ∷ "warning" ∷ "error" ∷ "critical" ∷ []

abbrev negative : Option ℤ → Bool
negative none = false
negative (some n) = ltb_ℤ n (pos 0)

pub record DiagnosticRecord : Type 0 where
  pub severity : String
  pub code : String
  pub message : Option String
  pub document_uri : Option String
  pub source_line : Option ℤ
  pub occurrence_count : ℤ

abbrev diagnostic_keys : List String
diagnostic_keys =
    "severity" ∷ "code" ∷ "message" ∷ "document_uri" ∷ "source_line" ∷ "occurrence_count" ∷ []

unfoldable pub build_diagnostic : DiagnosticRecord → Result DiagnosticRecord
build_diagnostic r = do
  raise_if (not (contains diagnostic_severities r.severity))
      (value_error "unknown diagnostic severity")
  raise_if (is_empty r.code) (value_error "diagnostic code must be non-empty")
  raise_if (ltb_ℤ r.occurrence_count (pos 1)) (value_error "occurrence_count must be at least 1")
  raise_if (negative r.source_line) (value_error "source_line must be non-negative")
  ok r

unfoldable pub diagnostic_to_dict : DiagnosticRecord → Json
diagnostic_to_dict r = object (
    field "severity" (text r.severity) (
      field "code" (text r.code) (
        field "message" (nullable_to_json text r.message) (
          field "document_uri" (nullable_to_json text r.document_uri) (
            field "source_line" (nullable_to_json integer r.source_line)
              (field "occurrence_count" (integer r.occurrence_count) end))))))

-- The arguments that `from_dict` passes to the constructor.
unfoldable pub read_diagnostic : Json → Result DiagnosticRecord
read_diagnostic data_value = do
  obj ← require_object data_value
  require_exact_keys obj diagnostic_keys
  severity ← required (require_literal diagnostic_severities) obj "severity"
  code ← required require_str obj "code"
  message ← required require_nullable_str obj "message"
  document_uri ← required require_nullable_str obj "document_uri"
  source_line ← required require_nullable_int obj "source_line"
  occurrence_count ← required require_int obj "occurrence_count"
  ok (record {
    severity = severity;
    code = code;
    message = message;
    document_uri = document_uri;
    source_line = source_line;
    occurrence_count = occurrence_count;
  })

unfoldable pub diagnostic_from_dict : Json → Result DiagnosticRecord
diagnostic_from_dict data_value = read_diagnostic data_value >>= build_diagnostic

-- A record that its constructor accepts, and so are its parts.
abbrev pub IsDiagnostic : DiagnosticRecord → Type 0
IsDiagnostic r = (build_diagnostic r ≡ ok r)

-- What `to_dict` writes of an accepted record, `from_dict` reads as that record.
pub diagnostic_from_dict-diagnostic_to_dict :
    (r : DiagnosticRecord) → IsDiagnostic r → diagnostic_from_dict (diagnostic_to_dict r) ≡ ok r
unfolding build_diagnostic diagnostic_to_dict read_diagnostic diagnostic_from_dict
diagnostic_from_dict-diagnostic_to_dict r h =
    let built = h in
    let (k_severity, _) =
      raise_if-then (not (contains diagnostic_severities r.severity))
        (value_error "unknown diagnostic severity") _ built in
    rw
      (
        require_literal-text diagnostic_severities r.severity k_severity,
        require_nullable_str_lem r.message,
        require_nullable_str_lem r.document_uri,
        require_nullable_int_lem r.source_line,
      )
      built
