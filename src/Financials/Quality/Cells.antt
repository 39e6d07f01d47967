-- ===== src/Financials/Quality/Cells.antt =====
-- src/edgar/financials/quality.py: the cells of the quality report, from the observations. A mapping
-- that is only looked up is a function.
use edgar.Prelude.{
  ℕ, suc, Bool, true, false, not, ◌&&◌, List, [], ◌∷◌, Option, none, some, String, Result, ok, err,
  raise_if, quality_report_error, ◌>>=◌, ◌>>◌, ◌==◌, string_eq, if◌then◌else◌,
}
use edgar.Prelude.Dict.{alter, add_new, pair_eq}
use edgar.Financials.Models.{
  ParsedUri, Observation, ObservationStatus, ObservationReason, value, missing, unsupported,
  conflict, decision_scope,
}
use edgar.Financials.Decisions.{LoadedDecision}
use edgar.Financials.Select.{is_annual}
use edgar.Financials.Quality.{FilingFrame, frame_or, slot_decision_applicable}

-- The cell's metric, fiscal year, taxonomy release and industry.
abbrev pub CellKey : Type 0
CellKey = String × (String × (String × String))

-- The first field stands for the first four of the source.
pub record QualityCell : Type 0 where
  pub key : CellKey
  pub n_slots : ℕ
  pub n_slot_eligible : ℕ
  pub n_ineligible_wrong_form : ℕ
  pub n_value : ℕ
  pub n_missing : ℕ
  pub n_conflict : ℕ
  pub n_unsupported : ℕ
  pub n_reason_decision_scope : ℕ
  pub n_reason_other_unsupported : ℕ
  pub n_decision_applicable : ℕ
  pub n_no_applicable_decision : ℕ
  pub identity_pass : ℕ
  pub identity_fail : ℕ
  pub identity_na : ℕ
  pub oracle_agree : ℕ
  pub oracle_differ : ℕ
  pub oracle_absent : ℕ
  pub oracle_ambiguous : ℕ
  pub oracle_na : ℕ
  pub publication_rate : Option String
  pub selector_yield : Option String

abbrev pub new_cell : CellKey → QualityCell
new_cell key = record {
  key = key;
  n_slots = 0;
  n_slot_eligible = 0;
  n_ineligible_wrong_form = 0;
  n_value = 0;
  n_missing = 0;
  n_conflict = 0;
  n_unsupported = 0;
  n_reason_decision_scope = 0;
  n_reason_other_unsupported = 0;
  n_decision_applicable = 0;
  n_no_applicable_decision = 0;
  identity_pass = 0;
  identity_fail = 0;
  identity_na = 0;
  oracle_agree = 0;
  oracle_differ = 0;
  oracle_absent = 0;
  oracle_ambiguous = 0;
  oracle_na = 0;
  publication_rate = none;
  selector_yield = none;
}

abbrev pub key_of : FilingFrame → String → CellKey
key_of frame metric =
    (metric, (frame.fiscal_year, (frame.filing_taxonomy_release, frame.industry_bucket)))

abbrev pub is_value : ObservationStatus → Bool
is_value value = true
is_value _ = false

abbrev pub count_reason : Option ObservationReason → QualityCell → QualityCell
count_reason (some decision_scope) c = record c {
  n_reason_decision_scope = suc c.n_reason_decision_scope;
}
count_reason _ c = record c { n_reason_other_unsupported = suc c.n_reason_other_unsupported }

abbrev pub count_status : ObservationStatus → Option ObservationReason → QualityCell → QualityCell
count_status value reason c = record c { n_value = suc c.n_value }
count_status missing reason c = record c { n_missing = suc c.n_missing }
count_status unsupported reason c =
    count_reason reason (record c { n_unsupported = suc c.n_unsupported })
count_status conflict reason c = record c { n_conflict = suc c.n_conflict }

-- The argument is `frame.form in ANNUAL_FORMS`.
unfoldable pub count_slot : Bool → Observation → QualityCell → QualityCell
count_slot true o c =
    count_status o.status o.reason
      (record c { n_slots = suc c.n_slots; n_slot_eligible = suc c.n_slot_eligible })
count_slot false o c = record c {
  n_slots = suc c.n_slots;
  n_ineligible_wrong_form = suc c.n_ineligible_wrong_form;
}

unfoldable pub count_applicable : Bool → QualityCell → QualityCell
count_applicable true c = record c { n_decision_applicable = suc c.n_decision_applicable }
count_applicable false c = c

abbrev pub agree : QualityCell → QualityCell
agree c = record c { oracle_agree = suc c.oracle_agree }

abbrev pub differ : QualityCell → QualityCell
differ c = record c { oracle_differ = suc c.oracle_differ }

abbrev pub absent : QualityCell → QualityCell
absent c = record c { oracle_absent = suc c.oracle_absent }

abbrev pub ambiguous : QualityCell → QualityCell
ambiguous c = record c { oracle_ambiguous = suc c.oracle_ambiguous }

abbrev pub not_available : QualityCell → QualityCell
not_available c = record c { oracle_na = suc c.oracle_na }

-- The counter that a label advances.
unfoldable pub count_label : String → Result (QualityCell → QualityCell)
count_label label =
    if label == "agree"
    then ok agree
    else if label == "differ"
    then ok differ
    else if label == "absent"
    then ok absent
    else if label == "ambiguous"
    then ok ambiguous
    else if label == "na"
    then ok not_available
    else err (quality_report_error "unknown oracle label")

-- `oracle_by_slot.get(…, "na")`
abbrev pub label_or_na : Option String → String
label_or_na none = "na"
label_or_na (some label) = label

abbrev pub Cells : Type 0
Cells = List (CellKey × QualityCell)

pub record Counting : Type 0 where
  pub cells : Cells
  pub members : List (CellKey × List String)

abbrev pub no_cells : Counting
no_cells = record { cells = []; members = [] }

-- The cell of an observation with its counters advanced.
abbrev pub add_to_cell : CellKey → Observation → (QualityCell → QualityCell) → Counting → Counting
add_to_cell key o count s = record {
  cells = alter key (new_cell key) count s.cells;
  members = alter key [] (add_new o.accession) s.members;
}

module _ (urlparse : String → ParsedUri) (filings : String → Option FilingFrame)
    (decisions : List LoadedDecision) (oracle_by_slot : String → String → Option String) where
  -- The body of the loop over the observations.
  unfoldable pub count_observation : Observation → Counting → Result Counting
  count_observation o s = do
    let frame = frame_or o (filings o.accession)
    applicable ← slot_decision_applicable urlparse frame o.metric decisions
    raise_if (is_value o.status && not applicable)
        (quality_report_error "published value without an applicable decision")
    label ← count_label (label_or_na (oracle_by_slot o.accession o.metric))
    ok (
        add_to_cell (key_of frame o.metric) o
          (λ c. label (count_applicable applicable (count_slot (is_annual frame.form) o c))) s)

  unfoldable pub count_all : List Observation → Counting → Result Counting
  count_all [] s = ok s
  count_all (o ∷ observations) s = do next ← count_observation o s; count_all observations next
