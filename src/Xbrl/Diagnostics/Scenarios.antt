-- ===== src/Xbrl/Diagnostics/Scenarios.antt =====
-- Diagnostics of src/edgar/xbrl/diagnostics.py, one compatible by its code and one that blocks.
use edgar.Prelude.{◌≡◌, ◌↔◌, refl, true, List, [], ◌∷◌, none, All}
use edgar.Prelude.Text.{is_empty}
use edgar.Prelude.Int.{pos}
use edgar.Xbrl.Records.Diagnostics.{DiagnosticRecord, IsDiagnostic, build_diagnostic}
use edgar.Xbrl.Diagnostics.{
  classify_diagnostic, blocking_diagnostics, diagnostics_allow_complete, blocking_occurrence_count,
}
use edgar.Xbrl.Diagnostics.Policy.{
  IsCompatible, diagnostics_allow_complete-IsCompatible, blocking_occurrence_count-zero_iff,
}

abbrev invalid_value : DiagnosticRecord
invalid_value = record {
  severity = "error";
  code = "ix11.10.1.2:invalidTransformation";
  message = none;
  document_uri = none;
  source_line = none;
  occurrence_count = pos 3;
}

abbrev unstructured : DiagnosticRecord
unstructured = record invalid_value { code = "UNSTRUCTURED"; occurrence_count = pos 2 }

abbrev both : List DiagnosticRecord
both = invalid_value ∷ unstructured ∷ []

two_block : blocking_occurrence_count none both ≡ pos 2
unfolding blocking_occurrence_count blocking_diagnostics classify_diagnostic
two_block = refl

accepted_records : All IsDiagnostic both
unfolding build_diagnostic is_empty
accepted_records = (refl, (refl, tt))

diagnostics_allow_complete-IsCompatible_example :
    (diagnostics_allow_complete none both ≡ true) ↔ All (IsCompatible none) both
diagnostics_allow_complete-IsCompatible_example = diagnostics_allow_complete-IsCompatible none both

blocking_occurrence_count-zero_iff_example :
    (blocking_occurrence_count none both ≡ pos 0) ↔ (diagnostics_allow_complete none both ≡ true)
blocking_occurrence_count-zero_iff_example =
    blocking_occurrence_count-zero_iff none both accepted_records
