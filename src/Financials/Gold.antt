-- ===== src/Financials/Gold.antt =====
-- src/edgar/financials/gold.py: the comparison of an observation with a gold assertion. `decimal_of`
-- is Python's `Decimal` of a text, which may raise.
use edgar.Prelude.{
  Bool, true, false, ◌&&◌, Option, none, some, String, Result, ok, ◌>>=◌, ◌==◌, string_eq,
  option_eq, if◌then◌else◌,
}
use edgar.Prelude.Text.{is_empty}
use edgar.Prelude.Decimal.{Decimal, eq_decimal}
use edgar.Financials.Models.{
  Observation, ObservationStatus, ObservationReason, value, missing, unsupported, broader_only,
  decision_scope, wrong_form,
}

pub data GoldStatus : Type 0 where
  gold_value gold_missing gold_unsupported : GoldStatus

pub data GoldPeriodKind : Type 0 where
  gold_duration gold_instant : GoldPeriodKind

pub record GoldPeriod : Type 0 where
  pub kind : GoldPeriodKind
  pub start : Option String
  pub period_end : String

pub record GoldAssertion : Type 0 where
  pub id : String
  pub accession : String
  pub metric : String
  pub period : GoldPeriod
  pub status : GoldStatus
  pub numeric : Option String
  pub reason : Option String

abbrev period_kind_matches : GoldPeriodKind → GoldPeriod → Observation → Bool
period_kind_matches gold_duration period obs =
    obs.period_start == period.start && obs.period_end == some period.period_end
period_kind_matches gold_instant period obs =
    obs.period_end == some period.period_end && obs.period_start == none

unfoldable pub observation_period_matches : GoldAssertion → Observation → Bool
observation_period_matches assertion obs =
    period_kind_matches assertion.period.kind assertion.period obs

-- `obs.status == assertion.status`
abbrev pub same_status : ObservationStatus → GoldStatus → Bool
same_status value gold_value = true
same_status missing gold_missing = true
same_status unsupported gold_unsupported = true
same_status _ _ = false

abbrev reason_text : ObservationReason → String
reason_text broader_only = "broader_only"
reason_text decision_scope = "decision_scope"
reason_text wrong_form = "wrong_form"

-- `obs.reason or None`
abbrev observed_reason : Option ObservationReason → Option String
observed_reason none = none
observed_reason (some r) = some (reason_text r)

-- `assertion.reason or None`
abbrev stated_reason : Option String → Option String
stated_reason none = none
stated_reason (some s) = if is_empty s then none else some s

-- `(obs.reason or None) == (assertion.reason or None)`
abbrev pub same_reason : Observation → GoldAssertion → Bool
same_reason obs assertion = observed_reason obs.reason == stated_reason assertion.reason

abbrev pub same_number : Option Decimal → Option Decimal → Bool
same_number none none = true
same_number (some a) (some b) = eq_decimal a b
same_number _ _ = false

abbrev pub has_no_number : Option Decimal → Bool
has_no_number none = true
has_no_number (some d) = false

-- The first test that fails gives the message.
abbrev pub unless : Bool → String → Option String → Option String
unless true message rest = rest
unless false message rest = some message

abbrev expected_number : (String → Result Decimal) → Option String → Result (Option Decimal)
expected_number decimal_of none = ok none
expected_number decimal_of (some text) = do d ← decimal_of text; ok (some d)

-- The comparison once the statuses are equal.
abbrev compare_in_status :
    (String → Result Decimal) → GoldStatus → GoldAssertion → Observation → Result (Option String)
compare_in_status decimal_of gold_value assertion obs =
    let numbers = expected_number decimal_of assertion.numeric >>= λ expected.
    ok (unless (same_number obs.numeric expected) "numeric" none) in
    if observation_period_matches assertion obs then numbers else ok (some "period mismatch")
compare_in_status decimal_of gold_missing assertion obs = ok (
    unless (observation_period_matches assertion obs) "period mismatch" (
      unless (has_no_number obs.numeric) "numeric must be null for missing"
        (unless (same_reason obs assertion) "reason" none)))
compare_in_status decimal_of gold_unsupported assertion obs =
    if assertion.reason == some "wrong_form"
    then ok (unless (observed_reason obs.reason == assertion.reason) "reason" none)
    else ok (
        unless (observation_period_matches assertion obs) "period mismatch" (
          unless (has_no_number obs.numeric) "numeric must be null"
            (unless (same_reason obs assertion) "reason" none)))

-- None where the observation is as asserted, else what differs.
unfoldable pub compare_gold :
    (String → Result Decimal) → GoldAssertion → Observation → Result (Option String)
compare_gold decimal_of assertion obs =
    let same = compare_in_status decimal_of assertion.status assertion obs in
    if obs.accession == assertion.accession && obs.metric == assertion.metric
    then (if same_status obs.status assertion.status then same else ok (some "status"))
    else ok (some "accession/metric mismatch")
