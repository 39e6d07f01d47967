-- ===== src/Financials/Quality/Scenarios.antt =====
-- A quality report of src/edgar/financials/quality.py over two slots of one filing and one of another.
use edgar.Prelude.{
  ℕ, ◌≡◌, refl, List, [], ◌∷◌, Option, none, some, String, ok, sort_by, insert_by, All, sum_by,
  ◌==◌, string_eq, if◌then◌else◌,
}
use edgar.Prelude.Text.{is_digit, strip, is_empty, zero_padded, int_from}
use edgar.Prelude.Dict.{alter}
use edgar.Domain.Identifiers.{validate_cik, split_slash}
use edgar.Financials.Models.{
  Observation, missing, unsupported, decision_scope, classify, semantic_family_of, clark_qname,
}
use edgar.Financials.Decisions.{
  issuer_excluded, decision_applies_to_filing, concept_matches_decision,
}
use edgar.Financials.Taxonomy.{
  namespace_release_token, us_gaap_release_token, group_qnames, qname_census,
}
use edgar.Financials.Quality.{FilingFrame, slot_decision_applicable}
use edgar.Financials.Quality.Cells.{
  QualityCell, Counting, new_cell, key_of, no_cells, count_slot, count_applicable, count_label,
  count_observation, count_all,
}
use edgar.Financials.Quality.Tallies.{identity_counts, partitions, row_of, rows_of, finished}
use edgar.Financials.Quality.Document.{
  QualityDocument, QualityInputs, normalize_oracle_findings, document_of, sorted_cells,
  build_quality_document,
}
use edgar.Financials.Quality.Loop.{AllCounted, slots, count_all-Counted}
use edgar.Financials.Quality.Rows.{
  IsRow, build_quality_document-IsRow, build_quality_document_total,
}
use edgar.Financials.Scenarios.{revenues_namespace, no_host, in_use, filing, sales_observation}

abbrev frame : FilingFrame
frame = record {
  accession = filing;
  cik = "320193";
  form = "10-K";
  fiscal_year = "2023";
  industry_bucket = "technology";
  filing_taxonomy_release = "2023";
  declared_concepts = [];
  taxonomy_concepts = (revenues_namespace, "Revenues") ∷ [];
}

abbrev filings : String → Option FilingFrame
filings accession = if accession == filing then some frame else none

abbrev labels_of : String → String → Option String
labels_of accession metric = if metric == "revenue" then some "agree" else none

abbrev scope_observation : Observation
scope_observation = record sales_observation {
  metric = "cash";
  status = unsupported;
  reason = some decision_scope;
  numeric = none;
}

abbrev unknown_filing : Observation
unknown_filing = record sales_observation { accession = "0"; status = missing; numeric = none }

abbrev observed : List Observation
observed = sales_observation ∷ scope_observation ∷ unknown_filing ∷ []

abbrev sales_cell : QualityCell
sales_cell = record (new_cell (key_of frame "revenue")) {
  n_slots = 1;
  n_slot_eligible = 1;
  n_value = 1;
  n_decision_applicable = 1;
  oracle_agree = 1;
}

abbrev scope_cell : QualityCell
scope_cell = record (new_cell (key_of frame "cash")) {
  n_slots = 1;
  n_slot_eligible = 1;
  n_unsupported = 1;
  n_reason_decision_scope = 1;
  oracle_na = 1;
}

abbrev unknown_cell : QualityCell
unknown_cell = record (new_cell ("revenue", ("2023", ("unknown", "unknown")))) {
  n_slots = 1;
  n_ineligible_wrong_form = 1;
  oracle_agree = 1;
}

abbrev counted : Counting
counted = record {
  cells =
      (sales_cell.key, sales_cell)
      ∷ (scope_cell.key, scope_cell)
      ∷ (unknown_cell.key, unknown_cell)
      ∷ [];
  members =
      (sales_cell.key, filing ∷ [])
      ∷ (scope_cell.key, filing ∷ [])
      ∷ (unknown_cell.key, "0" ∷ [])
      ∷ [];
}

counted_run : count_all no_host filings (in_use ∷ []) labels_of observed no_cells ≡ ok counted
unfolding count_all count_observation count_slot count_applicable count_label alter
    slot_decision_applicable decision_applies_to_filing issuer_excluded validate_cik strip
    concept_matches_decision clark_qname classify semantic_family_of us_gaap_release_token
    namespace_release_token split_slash is_digit is_empty zero_padded int_from
counted_run = refl

count_all-Counted_example : AllCounted counted.cells × (slots counted.cells ≡ 3)
count_all-Counted_example =
    count_all-Counted no_host filings (in_use ∷ []) labels_of observed counted counted_run

abbrev ratio : ℕ → ℕ → String
ratio n d = "1"

abbrev inputs : QualityInputs
inputs = record {
  census_facts = (filing, (revenues_namespace, "Revenues")) ∷ [];
  identity_findings = [];
  oracle_findings = [];
  oracle_sources = [];
  filing_taxonomy_sources = [];
}

abbrev qnames : List (String × ℕ)
qnames = ("{http://fasb.org/us-gaap/2023}Revenues", 1) ∷ []

abbrev report_rows : List QualityCell
report_rows =
    finished ratio scope_cell ∷ finished ratio sales_cell ∷ finished ratio unknown_cell ∷ []

census_run : qname_census inputs.census_facts ≡ ok qnames
unfolding qname_census group_qnames clark_qname is_empty alter sort_by insert_by
census_run = refl

rows_run : rows_of ratio (sorted_cells [] counted) ≡ ok report_rows
unfolding rows_of row_of partitions sort_by insert_by
rows_run = refl

built :
    build_quality_document ratio no_host filings (in_use ∷ []) labels_of inputs observed
    ≡ ok (document_of no_host inputs report_rows [] qnames)
unfolding build_quality_document normalize_oracle_findings identity_counts sort_by
built = rw (counted_run, rows_run, census_run) refl

build_quality_document-IsRow_example :
    All IsRow report_rows × (sum_by (λ (row : QualityCell). row.n_slots) report_rows ≡ 3)
build_quality_document-IsRow_example =
    build_quality_document-IsRow ratio no_host filings (in_use ∷ []) labels_of inputs observed
      (document_of no_host inputs report_rows [] qnames) built

no_findings : normalize_oracle_findings [] ≡ ok []
unfolding normalize_oracle_findings sort_by
no_findings = refl

no_identities : identity_counts [] [] ≡ ok []
unfolding identity_counts
no_identities = refl

build_quality_document_total_example :
    (document : QualityDocument) × (build_quality_document ratio no_host filings
        (in_use ∷ [])
        labels_of
        inputs
        observed
      ≡ ok document)
build_quality_document_total_example =
    build_quality_document_total ratio no_host filings (in_use ∷ []) labels_of inputs observed
      counted [] [] qnames counted_run no_identities no_findings census_run
