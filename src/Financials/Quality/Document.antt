-- ===== src/Financials/Quality/Document.antt =====
-- src/edgar/financials/quality.py: build_quality_document. The fixed texts of the document are not
-- kept. A finding of the oracle has the fields that `OracleComparison.finding` gives it.
use edgar.Prelude.{
  ℕ, Bool, not, List, [], ◌∷◌, Option, String, Result, ok, raise_if, quality_report_error, ◌>>=◌,
  ◌>>◌, ◌==◌, string_eq, ◌||◌, sort_by,
}
use edgar.Prelude.Text.{leb_string}
use edgar.Prelude.Dict.{leb_tuple}
use edgar.Financials.Models.{ParsedUri, Observation}
use edgar.Financials.Decisions.{LoadedDecision}
use edgar.Financials.Taxonomy.{CensusItem, ReuseKey, qname_census, name_reuse_aggregate}
use edgar.Financials.Quality.{FilingFrame, FilingTaxonomyAvailability}
use edgar.Financials.Quality.Cells.{QualityCell, Counting, Cells, no_cells, count_all}
use edgar.Financials.Quality.Tallies.{
  IdentityFinding, Identities, leb_entry, identity_counts, add_identities, rows_of,
}

pub record OracleFinding : Type 0 where
  pub accession : String
  pub metric : String
  pub status : String
  pub family : String
  pub local_name : String
  pub observation : String
  pub oracle_values : List String

abbrev is_finding_status : String → Bool
is_finding_status status = status == "differ" || status == "ambiguous"

abbrev finding_key : OracleFinding → String × (String × String)
finding_key f = (f.accession, (f.metric, f.status))

abbrev pub leb_finding : OracleFinding → OracleFinding → Bool
leb_finding a b = leb_tuple (leb_tuple leb_string) (finding_key a) (finding_key b)

abbrev check_findings : List OracleFinding → Result (Unit {0})
check_findings [] = ok tt
check_findings (f ∷ findings) = do
  raise_if (not (is_finding_status f.status))
      (quality_report_error "oracle finding status must be differ or ambiguous")
  check_findings findings

unfoldable pub normalize_oracle_findings : List OracleFinding → Result (List OracleFinding)
normalize_oracle_findings findings = do check_findings findings; ok (sort_by leb_finding findings)

-- `filing_taxonomy_sources` has the release and the schemas of each filing.
pub record QualityDocument : Type 0 where
  pub cells : List QualityCell
  pub oracle_findings : List OracleFinding
  pub oracle_sources : List (String × String)
  pub filing_taxonomy_sources : List (String × FilingTaxonomyAvailability)
  pub by_qname : List (String × ℕ)
  pub name_reuse : List (ReuseKey × ℕ)

-- The arguments of `build_quality_document` after the mapping of the oracle.
pub record QualityInputs : Type 0 where
  pub census_facts : List CensusItem
  pub identity_findings : List IdentityFinding
  pub oracle_findings : List OracleFinding
  pub oracle_sources : List (String × String)
  pub filing_taxonomy_sources : List (String × FilingTaxonomyAvailability)

-- The cells in the order of their keys, with the identities of their members.
abbrev pub sorted_cells : Identities → Counting → Cells
sorted_cells identity s = sort_by leb_entry (add_identities identity s.members s.cells)

module _ (urlparse : String → ParsedUri) where
  -- The returned document.
  abbrev pub document_of :
      QualityInputs → List QualityCell → List OracleFinding → List (String × ℕ) → QualityDocument
  document_of inputs rows findings by_qname = record {
    cells = rows;
    oracle_findings = findings;
    oracle_sources =
        sort_by (λ (a : String × String) (b : String × String). leb_string a.0 b.0)
          inputs.oracle_sources;
    filing_taxonomy_sources =
        sort_by
          (λ (a : String × FilingTaxonomyAvailability) (b : String × FilingTaxonomyAvailability).
            leb_string a.0 b.0)
          inputs.filing_taxonomy_sources;
    by_qname = by_qname;
    name_reuse = name_reuse_aggregate urlparse inputs.census_facts;
  }

module _ (quotient : ℕ → ℕ → String) (urlparse : String → ParsedUri) where
  unfoldable pub build_quality_document :
      (String → Option FilingFrame)
      → List LoadedDecision
      → (String → String → Option String)
      → QualityInputs
      → List Observation
      → Result QualityDocument
  build_quality_document filings decisions oracle_by_slot inputs observations = do
    counted ← count_all urlparse filings decisions oracle_by_slot observations no_cells
    identity ← identity_counts inputs.identity_findings []
    rows ← rows_of quotient (sorted_cells identity counted)
    findings ← normalize_oracle_findings inputs.oracle_findings
    by_qname ← qname_census inputs.census_facts
    ok (document_of urlparse inputs rows findings by_qname)
