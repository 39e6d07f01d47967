-- ===== src/Xbrl/Diagnostics.antt =====
-- src/edgar/xbrl/diagnostics.py: which diagnostics keep a projection from being complete. A mapping of
-- codes to rationales is the list of its entries.
pub mod Policy
pub mod Scenarios
use edgar.Prelude.{
  ℕ, ◌+◌, ◌≡◌, Bool, true, false, not, List, [], ◌∷◌, map, Option, none, some, String, ◌==◌,
  string_eq, any, filter, sort_by, if◌then◌else◌,
}
use edgar.Prelude.Text.{leb_string}
use edgar.Prelude.Int.{ℤ, pos, add_ℤ}
use edgar.Xbrl.Records.Diagnostics.{DiagnosticRecord}

pub data DiagnosticClassification : Type 0 where
  complete_compatible completeness_blocking : DiagnosticClassification

-- Codes with their rationales.
abbrev pub Rationales : Type 0
Rationales = List (String × String)

abbrev pub unstructured_code : String
unstructured_code = "UNSTRUCTURED"

abbrev pub non_blocking_severities : List String
non_blocking_severities = "info" ∷ []

-- The first words of the text.
abbrev invalid_transformation_rationale : String
invalid_transformation_rationale = "Filed Inline-XBRL transformation failure"

abbrev pub complete_compatible_diagnostics : Rationales
complete_compatible_diagnostics =
    ("ix11.10.1.2:invalidTransformation", invalid_transformation_rationale)
    ∷ ("ix11.11.1.2:invalidTransformation", invalid_transformation_rationale)
    ∷ []

-- The registry that is passed, or the default one.
abbrev pub active_registry : Option Rationales → Rationales
active_registry none = complete_compatible_diagnostics
active_registry (some registry) = registry

unfoldable pub registry_codes : Option Rationales → List String
registry_codes registry =
    sort_by leb_string (map (λ (entry : String × String). entry.0) (active_registry registry))

abbrev pub is_listed : String → Rationales → Bool
is_listed code registry = any (λ (entry : String × String). entry.0 == code) registry

unfoldable pub classify_diagnostic : Option Rationales → DiagnosticRecord → DiagnosticClassification
classify_diagnostic registry diagnostic =
    if any (λ s. s == diagnostic.severity) non_blocking_severities
    then complete_compatible
    else if diagnostic.code == unstructured_code
    then completeness_blocking
    else if is_listed diagnostic.code (active_registry registry)
    then complete_compatible
    else completeness_blocking

abbrev pub is_blocking : DiagnosticClassification → Bool
is_blocking complete_compatible = false
is_blocking completeness_blocking = true

unfoldable pub blocking_diagnostics :
    Option Rationales → List DiagnosticRecord → List DiagnosticRecord
blocking_diagnostics registry diagnostics =
    filter (λ (d : DiagnosticRecord). is_blocking (classify_diagnostic registry d)) diagnostics

abbrev pub is_clean : List DiagnosticRecord → Bool
is_clean [] = true
is_clean (_ ∷ _) = false

unfoldable pub diagnostics_allow_complete : Option Rationales → List DiagnosticRecord → Bool
diagnostics_allow_complete registry diagnostics =
    is_clean (blocking_diagnostics registry diagnostics)

-- `sum(diagnostic.occurrence_count for …)`
abbrev pub sum_occurrences : List DiagnosticRecord → ℤ
sum_occurrences [] = pos 0
sum_occurrences (d ∷ diagnostics) = add_ℤ d.occurrence_count (sum_occurrences diagnostics)

unfoldable pub blocking_occurrence_count : Option Rationales → List DiagnosticRecord → ℤ
blocking_occurrence_count registry diagnostics =
    sum_occurrences (blocking_diagnostics registry diagnostics)
