-- ===== src/Financials/Quality.antt =====
-- src/edgar/financials/quality.py: the slots of the quality report, and the decisions that apply.
pub mod Cells
pub mod Tallies
pub mod Document
pub mod Partition
pub mod Loop
pub mod Rows
pub mod Scenarios
use edgar.Prelude.{
  ℕ, ◌≡◌, Bool, true, false, not, ◌&&◌, ◌||◌, List, [], ◌∷◌, map, Option, none, some, String,
  Result, ok, ◌>>=◌, ◌==◌, string_eq, if◌then◌else◌,
}
use edgar.Prelude.Text.{is_empty}
use edgar.Prelude.Dict.{add_new}
use edgar.Financials.Models.{ParsedUri, Observation, relation_is_exact}
use edgar.Financials.Decisions.{
  DecisionRecord, DecisionFamily, LoadedDecision, us_gaap_family, is_active,
  decision_applies_to_filing, concept_matches_decision,
}
use edgar.Financials.Select.{is_annual}
use edgar.Financials.Taxonomy.{us_gaap_release_token, filing_taxonomy_release}

-- A concept: its namespace and local name. A set of concepts is a list.
abbrev pub Concepts : Type 0
Concepts = List (String × String)

pub record FilingFrame : Type 0 where
  pub accession : String
  pub cik : String
  pub form : String
  pub fiscal_year : String
  pub industry_bucket : String
  pub filing_taxonomy_release : String
  pub declared_concepts : Concepts
  pub taxonomy_concepts : Concepts

pub record FilingTaxonomyAvailability : Type 0 where
  pub filing_taxonomy_release : String
  pub releases : List String
  pub concepts : Concepts
  pub schema_sha256s : List String

-- `value or "unknown"`
abbrev pub or_unknown : Option String → String
or_unknown none = "unknown"
or_unknown (some s) = if is_empty s then "unknown" else s

-- `{year for year in observation_years if year}`
abbrev years_of : List (Option String) → List String
years_of [] = []
years_of (none ∷ ys) = years_of ys
years_of (some y ∷ ys) = let rest = years_of ys in if is_empty y then rest else add_new y rest

abbrev year_of : List String → Option String → String
year_of (y ∷ []) report_period_year = y
year_of [] report_period_year = or_unknown report_period_year
year_of _ report_period_year = "mixed"

abbrev is_us_gaap : DecisionFamily → Bool
is_us_gaap us_gaap_family = true
is_us_gaap _ = false

-- The tests of the comprehension before the scope of the decision.
abbrev is_exact_us_gaap : String → LoadedDecision → Bool
is_exact_us_gaap metric ld =
    is_active ld
    && (relation_is_exact ld.record_of.relation
        && (ld.record_of.metric == metric && is_us_gaap ld.record_of.source.family))

abbrev exact_records : String → String → List LoadedDecision → Result (List DecisionRecord)
exact_records metric cik [] = ok []
exact_records metric cik (ld ∷ lds) =
    let rest = exact_records metric cik lds in
    let applied = decision_applies_to_filing ld.record_of cik >>= λ applies.
    rest >>= λ records. ok (if applies then ld.record_of ∷ records else records) in
    if is_exact_us_gaap metric ld then applied else rest

-- The token is that of the release of the filing.
abbrev in_release : String → Option String → Bool
in_release release none = false
in_release release (some token) = release == "mixed" || token == release

module _ (urlparse : String → ParsedUri) where
  -- The loop over the concepts, for one record, and the loop over the records.
  abbrev some_concept : FilingFrame → DecisionRecord → Concepts → Result Bool
  some_concept frame record_ [] = ok false
  some_concept frame record_ ((namespace, local_name) ∷ concepts) =
      let rest = some_concept frame record_ concepts in
      let tried =
        concept_matches_decision urlparse record_ frame.cik namespace local_name >>= λ hit.
        if hit then ok true else rest in
      if in_release frame.filing_taxonomy_release (us_gaap_release_token urlparse namespace)
      then tried
      else rest

  abbrev some_record : FilingFrame → List DecisionRecord → Result Bool
  some_record frame [] = ok false
  some_record frame (r ∷ records) =
      let rest = some_record frame records in
      some_concept frame r frame.taxonomy_concepts >>= λ hit. if hit then ok true else rest

  unfoldable pub slot_decision_applicable : FilingFrame → String → List LoadedDecision → Result Bool
  slot_decision_applicable frame metric decisions =
      let matched =
        exact_records metric frame.cik decisions >>= λ exact_all. some_record frame exact_all in
      if not (is_annual frame.form)
      then ok false
      else if frame.filing_taxonomy_release == "unknown"
      then ok false
      else matched

  abbrev release_and_concepts : Option FilingTaxonomyAvailability → Concepts → String × Concepts
  release_and_concepts (some availability) taxonomy_concepts =
      (availability.filing_taxonomy_release, availability.concepts)
  release_and_concepts none taxonomy_concepts = (
    filing_taxonomy_release urlparse (map (λ (c : String × String). c.0) taxonomy_concepts),
    taxonomy_concepts,
  )

  unfoldable pub filing_frame_for_source :
      String
      → String
      → String
      → List (Option String)
      → Option String
      → String
      → Concepts
      → Option FilingTaxonomyAvailability
      → Concepts
      → FilingFrame
  filing_frame_for_source accession cik form observation_years report_period_year industry_bucket
        declared_concepts taxonomy_availability taxonomy_concepts =
      let (release, concepts) = release_and_concepts taxonomy_availability taxonomy_concepts in
      record {
        accession = accession;
        cik = cik;
        form = form;
        fiscal_year = year_of (years_of observation_years) report_period_year;
        industry_bucket = or_unknown (some industry_bucket);
        filing_taxonomy_release = release;
        declared_concepts = declared_concepts;
        taxonomy_concepts = concepts;
      }

-- The frame of an observation whose filing was not loaded.
abbrev pub frame_or : Observation → Option FilingFrame → FilingFrame
frame_or observation (some frame) = frame
frame_or observation none = record {
  accession = observation.accession;
  cik = observation.cik;
  form = "";
  fiscal_year = or_unknown observation.fy;
  industry_bucket = "unknown";
  filing_taxonomy_release = "unknown";
  declared_concepts = [];
  taxonomy_concepts = [];
}
