-- ===== src/Financials/Period.antt =====
-- src/edgar/financials/period.py: the reporting period that a filing's DocumentPeriodEndDate facts
-- give, and whether a fact's context is that period. `str` of a decimal is a parameter.
pub mod Agreement
use edgar.Prelude.{
  ℕ, ◌≡◌, Bool, true, false, not, ◌&&◌, ◌||◌, List, [], ◌∷◌, ◌++◌, Option, none, some, String,
  Result, ok, err, raise_if, required_period_error, value_error, ◌>>=◌, ◌>>◌, ◌==◌, string_eq,
  option_eq, nat_beq, any, filter, find, if◌then◌else◌,
}
use edgar.Prelude.Text.{strip, is_empty}
use edgar.Prelude.Decimal.{Decimal}
use edgar.Domain.Identifiers.{validate_cik}
use edgar.Financials.Models.{FactRow, SemanticFamily, dei, us_gaap, srt, other, ParsedUri, classify}

abbrev pub sec_cik_scheme : String
sec_cik_scheme = "http://www.sec.gov/CIK"

pub data MetricPeriodType : Type 0 where
  duration instant : MetricPeriodType

pub record ReportingPeriod : Type 0 where
  pub start : String
  pub period_end : String
  pub fiscal_year_focus : Option String
  pub fiscal_period_focus : Option String

pub record DeiPeriodCandidate : Type 0 where
  pub context_id : ℕ
  pub context_entity_scheme : String
  pub context_entity_identifier : String
  pub period_kind : String
  pub instant_lexical : Option String
  pub start_lexical : Option String
  pub end_lexical : Option String
  pub document_period_end_value : String

abbrev require_lexical : String → Option String → Result String
require_lexical message none = err (required_period_error message)
require_lexical message (some s) = ok s

unfoldable pub period_end_lexical : DeiPeriodCandidate → Result String
period_end_lexical c =
    if c.period_kind == "instant"
    then require_lexical "DEI context missing instant_lexical" c.instant_lexical
    else require_lexical "DEI duration context missing end_lexical" c.end_lexical

abbrev pub same_context : DeiPeriodCandidate → DeiPeriodCandidate → Bool
same_context a b =
    a.context_entity_scheme == b.context_entity_scheme
    && (a.period_kind == b.period_kind
        && (a.instant_lexical == b.instant_lexical
            && (a.start_lexical == b.start_lexical
                && (a.end_lexical == b.end_lexical
                    && strip a.document_period_end_value == strip b.document_period_end_value))))

-- What follows the tests of the contexts: the ends, and the stated end of the first.
abbrev pub same_end : DeiPeriodCandidate → DeiPeriodCandidate → Result Bool
same_end a b = do
  end_a ← period_end_lexical a
  end_b ← period_end_lexical b
  ok (end_a == end_b && strip a.document_period_end_value == end_a)

unfoldable pub candidates_equivalent : DeiPeriodCandidate → DeiPeriodCandidate → Result Bool
candidates_equivalent a b = do
  cik_a ← validate_cik a.context_entity_identifier
  cik_b ← validate_cik b.context_entity_identifier
  let ends = same_end a b
  if cik_a == cik_b && same_context a b then ends else ok false

module _ (str_decimal : Decimal → String) where
  abbrev numeric_text : Option Decimal → Option String
  numeric_text none = none
  numeric_text (some d) = some (str_decimal d)

  abbrev lexical_text : Option String → Option Decimal → Option String
  lexical_text none d = numeric_text d
  lexical_text (some s) d = if is_empty s then numeric_text d else some (strip s)

  unfoldable pub dei_text_value : FactRow → Option String
  dei_text_value fact = lexical_text fact.lexical_value fact.resolved_numeric

  -- The two focus values that the loop of `_fiscal_focus` carries.
  pub record FiscalFocus : Type 0 where
    pub fiscal_year : Option String
    pub fiscal_period : Option String

  abbrev is_dei : SemanticFamily → Bool
  is_dei dei = true
  is_dei _ = false

  abbrev note_value : String → Option String → FiscalFocus → FiscalFocus
  note_value name none focus = focus
  note_value name (some v) focus =
      if is_empty v
      then focus
      else if name == "DocumentFiscalYearFocus"
      then record focus { fiscal_year = some v }
      else if name == "DocumentFiscalPeriodFocus"
      then record focus { fiscal_period = some v }
      else focus

  module _ (urlparse : String → ParsedUri) where
    abbrev skips_focus : ℕ → FactRow → Bool
    skips_focus context_id fact =
        not (nat_beq fact.context_id context_id)
        || (fact.has_dimensions
            || not (is_dei (classify urlparse fact.concept_namespace).semantic_family))

    unfoldable pub fiscal_focus_from : FiscalFocus → List FactRow → ℕ → FiscalFocus
    fiscal_focus_from focus [] context_id = focus
    fiscal_focus_from focus (fact ∷ facts) context_id =
        let noted = note_value fact.concept_local_name (dei_text_value fact) focus in
        fiscal_focus_from (if skips_focus context_id fact then focus else noted) facts context_id

    abbrev fiscal_focus : List FactRow → ℕ → FiscalFocus
    fiscal_focus facts context_id =
        fiscal_focus_from (record { fiscal_year = none; fiscal_period = none }) facts context_id

-- The candidates of the filer, in their order.
unfoldable pub filter_candidates :
    String → List DeiPeriodCandidate → Result (List DeiPeriodCandidate)
filter_candidates filing_cik [] = ok []
filter_candidates filing_cik (c ∷ cs) =
    let rest = filter_candidates filing_cik cs in
    let keep = validate_cik c.context_entity_identifier >>= λ cik.
    rest >>= λ l. ok (if cik == filing_cik then c ∷ l else l) in
    if c.context_entity_scheme == sec_cik_scheme then keep else rest

-- `groups`: each group by its first candidate, which is what later candidates are compared with.
unfoldable pub place :
    DeiPeriodCandidate → List DeiPeriodCandidate → Result (List DeiPeriodCandidate)
place c [] = ok (c ∷ [])
place c (g ∷ groups) =
    let rest = place c groups in
    candidates_equivalent g c >>= λ same.
    if same then ok (g ∷ groups) else (rest >>= λ l. ok (g ∷ l))

unfoldable pub group_candidates :
    List DeiPeriodCandidate → List DeiPeriodCandidate → Result (List DeiPeriodCandidate)
group_candidates groups [] = ok groups
group_candidates groups (c ∷ cs) = do placed ← place c groups; group_candidates placed cs

-- `groups[0][0]`, where there is one group.
abbrev pub single : List DeiPeriodCandidate → Result DeiPeriodCandidate
single [] = err (required_period_error "no DEI DocumentPeriodEndDate with SEC CIK entity")
single (g ∷ []) = ok g
single (g ∷ _ ∷ _) = err (required_period_error "conflicting DEI DocumentPeriodEndDate contexts")

abbrev no_candidates : List DeiPeriodCandidate → Bool
no_candidates [] = true
no_candidates (_ ∷ _) = false

-- `chosen.end_lexical or end`
abbrev end_or : Option String → String → String
end_or none e = e
end_or (some s) e = if is_empty s then e else s

-- The candidate that the period is read from.
unfoldable pub chosen_candidate : List DeiPeriodCandidate → String → Result DeiPeriodCandidate
chosen_candidate candidates filing_cik = do
  raise_if (no_candidates candidates)
      (required_period_error "no undimensioned dei:DocumentPeriodEndDate fact")
  cik ← validate_cik filing_cik
  filtered ← filter_candidates cik candidates
  groups ← group_candidates [] filtered
  single groups

unfoldable pub resolve_required_reporting_period :
    (Decimal → String)
    → (String → ParsedUri)
    → List DeiPeriodCandidate
    → String
    → List FactRow
    → Result ReportingPeriod
resolve_required_reporting_period str_decimal urlparse candidates filing_cik facts = do
  chosen ← chosen_candidate candidates filing_cik
  raise_if (not (chosen.period_kind == "duration"))
      (required_period_error "required DEI context must be duration for annual 10-K")
  start ← require_lexical "DEI duration context missing start_lexical" chosen.start_lexical
  last ← period_end_lexical chosen
  let focus = fiscal_focus str_decimal urlparse facts chosen.context_id
  ok (record {
    start = start;
    period_end = end_or chosen.end_lexical last;
    fiscal_year_focus = focus.fiscal_year;
    fiscal_period_focus = focus.fiscal_period;
  })

unfoldable pub period_matches_metric :
    MetricPeriodType
    → ReportingPeriod
    → String
    → Option String
    → Option String
    → Option String
    → Bool
period_matches_metric duration period kind instant_lexical start_lexical end_lexical =
    kind == "duration"
    && (start_lexical == some period.start && end_lexical == some period.period_end)
period_matches_metric instant period kind instant_lexical start_lexical end_lexical =
    kind == "instant" && instant_lexical == some period.period_end
