-- ===== src/Financials/Select.antt =====
-- src/edgar/financials/select.py: which value of a filing's facts is published for a metric.
pub mod Source
use edgar.Prelude.{
  ℕ, ◌≡◌, Bool, true, false, not, ◌&&◌, ◌||◌, List, [], ◌∷◌, ◌++◌, map, Option, none, some, String,
  Result, ok, err, raise_if, value_error, ◌>>=◌, ◌>>◌, ◌==◌, string_eq, option_eq, nat_beq, leb,
  any, filter, find, sort_by, min_by, length, if◌then◌else◌,
}
use edgar.Prelude.Decimal.{Decimal, eq_decimal}
use edgar.Domain.Identifiers.{validate_cik}
use edgar.Prelude.Text.{leb_string}
use edgar.Financials.Models.{
  FactRow, Support, SupportRef, Observation, ObservationStatus, ObservationReason, UnitMeasureRow,
  Relation, exact, missing, unsupported, conflict, value, broader_only, decision_scope, wrong_form,
  relation_is_exact, relation_is_broader,
}
use edgar.Financials.Decimals.{
  NumericFactOccurrence, OimResolution, Rank, leb_rank, survivor_rank, oim_reduce_group,
}
use edgar.Financials.Decisions.{
  LoadedDecision, DecisionRecord, is_active, decision_applies_to_filing,
}
use edgar.Financials.Period.{
  ReportingPeriod, MetricPeriodType, duration, instant, sec_cik_scheme, period_matches_metric,
}

abbrev is_one : List UnitMeasureRow → Bool
is_one (m ∷ []) =
    m.measure_namespace_uri == some "http://www.xbrl.org/2003/iso4217"
    && m.measure_local_name == "USD"
is_one _ = false

abbrev no_measures : List UnitMeasureRow → Bool
no_measures [] = true
no_measures (_ ∷ _) = false

unfoldable pub is_pure_usd : List UnitMeasureRow → Bool
is_pure_usd measures =
    let nums = filter (λ (m : UnitMeasureRow). m.side == "numerator") measures in
    let dens = filter (λ (m : UnitMeasureRow). m.side == "denominator") measures in
    no_measures dens && is_one nums

unfoldable pub entity_matches : FactRow → String → Result Bool
entity_matches fact filing_cik =
    let same =
      (validate_cik fact.entity_identifier >>= λ a. validate_cik filing_cik >>= λ b. ok (a == b)) in
    if fact.entity_scheme == sec_cik_scheme then same else ok false

abbrev is_given : Option Decimal → Bool
is_given none = false
is_given (some _) = true

abbrev has_number : FactRow → Bool
has_number fact =
    fact.value_status == "valid" && (not fact.is_nil && is_given fact.resolved_numeric)

unfoldable pub fact_qualifies_slot :
    FactRow → String → ReportingPeriod → MetricPeriodType → Result Bool
fact_qualifies_slot fact filing_cik period metric_period_type =
    let fits =
      (entity_matches fact filing_cik >>= λ same. ok (
        same
        && (is_pure_usd fact.unit_measures
            && period_matches_metric metric_period_type period fact.period_kind fact.instant_lexical
                fact.start_lexical fact.end_lexical))) in
    if not fact.has_dimensions && has_number fact then fits else ok false

abbrev or_this : Option FactRow → FactRow → ℕ → Option FactRow
or_this (some g) f fact_id = some g
or_this none f fact_id = if nat_beq f.fact_id fact_id then some f else none

-- `{f.fact_id: f for f in facts}.get(fact_id)`: the last fact of that id.
unfoldable pub fact_by_id : List FactRow → ℕ → Option FactRow
fact_by_id [] fact_id = none
fact_by_id (f ∷ fs) fact_id = or_this (fact_by_id fs fact_id) f fact_id

-- The accepted exact decisions of the metric that are not stale.
abbrev pub is_exact_decision : String → LoadedDecision → Bool
is_exact_decision metric ld =
    is_active ld && (relation_is_exact ld.record_of.relation && ld.record_of.metric == metric)

unfoldable pub applicable : List LoadedDecision → String → Result (List DecisionRecord)
applicable [] filing_cik = ok []
applicable (ld ∷ lds) filing_cik = do
  applies ← decision_applies_to_filing ld.record_of filing_cik
  rest ← applicable lds filing_cik
  ok (if applies then ld.record_of ∷ rest else rest)

-- A support with its fact, as `candidates` holds them.
pub record Candidate : Type 0 where
  pub support : Support
  pub fact : FactRow

abbrev pub for_metric : String → (Relation → Bool) → Support → Bool
for_metric metric is_relation s = s.metric == metric && is_relation s.relation

abbrev pub qualifying : Option FactRow → String → ReportingPeriod → MetricPeriodType → Result Bool
qualifying none filing_cik period period_type = ok false
qualifying (some fact) filing_cik period period_type =
    fact_qualifies_slot fact filing_cik period period_type

abbrev pub with_fact : Option FactRow → Support → Bool → List Candidate → List Candidate
with_fact (some fact) s true rest = (record { support = s; fact = fact }) ∷ rest
with_fact _ s _ rest = rest

unfoldable pub candidates_of :
    List FactRow
    → String
    → ReportingPeriod
    → MetricPeriodType
    → List Support
    → Result (List Candidate)
candidates_of facts filing_cik period period_type [] = ok []
candidates_of facts filing_cik period period_type (s ∷ ss) = do
  fits ← qualifying (fact_by_id facts s.fact_id) filing_cik period period_type
  rest ← candidates_of facts filing_cik period period_type ss
  ok (with_fact (fact_by_id facts s.fact_id) s fits rest)

-- `any(...)` over the supports, which stops at the first hit.
unfoldable pub any_qualifies :
    List FactRow → String → ReportingPeriod → MetricPeriodType → List Support → Result Bool
any_qualifies facts filing_cik period period_type [] = ok false
any_qualifies facts filing_cik period period_type (s ∷ ss) =
    let rest = any_qualifies facts filing_cik period period_type ss in
    qualifying (fact_by_id facts s.fact_id) filing_cik period period_type >>= λ hit.
    if hit then ok true else rest

abbrev distinct_strings : List String → List String
distinct_strings [] = []
distinct_strings (x ∷ xs) =
    let rest = distinct_strings xs in if any (λ y. x == y) rest then rest else x ∷ rest

abbrev distinct_ids : List ℕ → List ℕ
distinct_ids [] = []
distinct_ids (x ∷ xs) =
    let rest = distinct_ids xs in if any (nat_beq x) rest then rest else x ∷ rest

abbrev pub group_of : String → List Candidate → List Candidate
group_of qname = filter (λ (c : Candidate). c.support.source_qname == qname)

abbrev pub occurrence_of : ℕ → Option Decimal → Option String → List NumericFactOccurrence
occurrence_of fact_id none decimals = []
occurrence_of fact_id (some v) decimals =
    (record { fact_id = fact_id; value = v; decimals = decimals }) ∷ []

abbrev pub occurrences : List Candidate → List NumericFactOccurrence
occurrences [] = []
occurrences (c ∷ cs) =
    occurrence_of c.fact.fact_id c.fact.resolved_numeric c.fact.decimals ++ occurrences cs

pub record Survivor : Type 0 where
  pub published_value : Decimal
  pub published_decimals : Option String
  pub refs : List SupportRef

abbrev or_support : Option Support → Candidate → ℕ → Option Support
or_support (some s) c fact_id = some s
or_support none c fact_id = if nat_beq c.fact.fact_id fact_id then some c.support else none

-- `{f.fact_id: s for s, f in group}.get(fact_id)`
abbrev support_by_fact : List Candidate → ℕ → Option Support
support_by_fact [] fact_id = none
support_by_fact (c ∷ cs) fact_id = or_support (support_by_fact cs fact_id) c fact_id

abbrev ref_of : ℕ → Option Support → List SupportRef
ref_of fact_id none = []
ref_of fact_id (some s) =
    (record {
      fact_id = fact_id;
      decision_id = s.decision_id;
      relation = exact;
      tier = 1;
      source_qname = s.source_qname;
      application_method = s.application_method;
    })
    ∷ []

abbrev refs_of : List Candidate → List ℕ → List SupportRef
refs_of group [] = []
refs_of group (fid ∷ fids) = ref_of fid (support_by_fact group fid) ++ refs_of group fids

unfoldable pub survivor_of : OimResolution → List Candidate → Survivor
survivor_of reduced group = record {
  published_value = reduced.survivor_value;
  published_decimals = reduced.survivor_decimals;
  refs = refs_of group reduced.fact_ids;
}

abbrev pub add_survivor : Survivor → Option (List Survivor) → Option (List Survivor)
add_survivor s none = none
add_survivor s (some l) = some (s ∷ l)

-- A group that does not reduce ends the loop with a conflict: no list of survivors.
abbrev pub keep_survivor :
    Option OimResolution
    → List Candidate
    → Result (Option (List Survivor))
    → Result (Option (List Survivor))
keep_survivor none group rest = ok none
keep_survivor (some reduced) group rest = do
  others ← rest
  ok (add_survivor (survivor_of reduced group) others)

unfoldable pub survivors_of : List Candidate → List String → Result (Option (List Survivor))
survivors_of candidates [] = ok (some [])
survivors_of candidates (qname ∷ qnames) =
    let rest = survivors_of candidates qnames in
    oim_reduce_group (occurrences (group_of qname candidates)) >>= λ reduced.
    keep_survivor reduced (group_of qname candidates) rest

-- `len(values) > 1`
abbrev pub differ : List Survivor → Bool
differ [] = false
differ (s ∷ ss) = any (λ (t : Survivor). not (eq_decimal s.published_value t.published_value)) ss

abbrev pub min_id : List SupportRef → ℕ
min_id [] = 0
min_id (r ∷ rs) = (min_by (λ (a b : SupportRef). leb a.fact_id b.fact_id) r rs).fact_id

pub record Ranked : Type 0 where
  pub rank : Rank
  pub survivor : Survivor

unfoldable pub rank_survivors : List Survivor → Result (List Ranked)
rank_survivors [] = ok []
rank_survivors (s ∷ ss) = do
  rank ← survivor_rank s.published_decimals (min_id s.refs)
  rest ← rank_survivors ss
  ok ((record { rank = rank; survivor = s }) ∷ rest)

abbrev pub first_ranked : List Ranked → Result Survivor
first_ranked [] = err (value_error "min() iterable argument is empty")
first_ranked (r ∷ rs) = ok (min_by (λ (a b : Ranked). leb_rank a.rank b.rank) r rs).survivor

-- `min(survivors, key=...)`
unfoldable pub published_of : List Survivor → Result Survivor
published_of survivors = do ranked ← rank_survivors survivors; first_ranked ranked

abbrev all_refs : List Survivor → List SupportRef
all_refs [] = []
all_refs (s ∷ ss) = s.refs ++ all_refs ss

abbrev leb_ref : SupportRef → SupportRef → Bool
leb_ref a b =
    if nat_beq a.fact_id b.fact_id
    then leb_string a.decision_id b.decision_id
    else leb a.fact_id b.fact_id

abbrev pub with_status : Observation → ObservationStatus → Option ObservationReason → Observation
with_status base status reason = record base { status = status; reason = reason }

abbrev pub publish : Observation → List Survivor → Survivor → Observation
publish base survivors published =
    let refs = all_refs survivors in
    record base {
      status = value;
      numeric = some published.published_value;
      decimals = published.published_decimals;
      relation = some exact;
      tier = some 1;
      decision_ids =
          sort_by leb_string (distinct_strings (map (λ (r : SupportRef). r.decision_id) refs));
      fact_ids = sort_by leb (distinct_ids (map (λ (r : SupportRef). r.fact_id) refs));
      supports = sort_by leb_ref refs;
    }

-- From the survivors of the groups to the observation.
abbrev pub conclude_survivors : Observation → Option (List Survivor) → Result Observation
conclude_survivors base none = ok (with_status base conflict none)
conclude_survivors base (some survivors) =
    let published = (published_of survivors >>= λ p. ok (publish base survivors p)) in
    if differ survivors then ok (with_status base conflict none) else published

abbrev pub qnames_of : List Candidate → List String
qnames_of candidates =
    sort_by leb_string
      (distinct_strings (map (λ (c : Candidate). c.support.source_qname) candidates))

abbrev pub conclude_candidates : Observation → Bool → List Candidate → Result Observation
conclude_candidates base true [] = ok (with_status base missing (some broader_only))
conclude_candidates base false [] = ok (with_status base missing none)
conclude_candidates base broader (c ∷ cs) =
    survivors_of (c ∷ cs) (qnames_of (c ∷ cs)) >>= λ survivors. conclude_survivors base survivors

abbrev pub none_left : List DecisionRecord → Bool
none_left [] = true
none_left (_ ∷ _) = false

abbrev pub none_exact : List LoadedDecision → Bool
none_exact [] = true
none_exact (_ ∷ _) = false

abbrev start_of : MetricPeriodType → Option ReportingPeriod → Option String
start_of duration (some p) = some p.start
start_of _ _ = none

abbrev period_text : (ReportingPeriod → Option String) → Option ReportingPeriod → Option String
period_text field none = none
period_text field (some p) = field p

-- `base`, before a status is known.
abbrev pub base_observation :
    String
    → String
    → String
    → Option ReportingPeriod
    → Option String
    → MetricPeriodType
    → Observation
base_observation metric filing_cik accession period available_at period_type = record {
  cik = filing_cik;
  accession = accession;
  metric = metric;
  fy = period_text (λ p. p.fiscal_year_focus) period;
  report_focus = period_text (λ p. p.fiscal_period_focus) period;
  period_role = none;
  period_start = start_of period_type period;
  period_end = period_text (λ p. some p.period_end) period;
  status = missing;
  reason = none;
  numeric = none;
  decimals = none;
  unit = some "USD";
  decision_ids = [];
  fact_ids = [];
  supports = [];
  relation = none;
  tier = none;
  available_at = available_at;
  view = "as-filed";
}

-- What follows the tests of the form and of the decisions' scope.
unfoldable pub select_in_scope :
    Observation
    → String
    → String
    → ReportingPeriod
    → List FactRow
    → List Support
    → MetricPeriodType
    → Result Observation
select_in_scope base metric filing_cik period facts supports period_type = do
  candidates ←
      candidates_of facts filing_cik period period_type
        (filter (for_metric metric relation_is_exact) supports)
  broader ←
      any_qualifies facts filing_cik period period_type
        (filter (for_metric metric relation_is_broader) supports)
  conclude_candidates base broader candidates

abbrev pub select_in_period :
    Observation
    → String
    → String
    → Option ReportingPeriod
    → List FactRow
    → List Support
    → List LoadedDecision
    → MetricPeriodType
    → Result Observation
select_in_period base metric filing_cik none facts supports decisions period_type =
    err (value_error "assertion failed")
select_in_period base metric filing_cik (some period) facts supports decisions period_type = do
  let exact_all = filter (is_exact_decision metric) decisions
  records ← applicable exact_all filing_cik
  let selected = select_in_scope base metric filing_cik period facts supports period_type
  let out_of_scope = not (none_exact exact_all) && none_left records
  if out_of_scope then ok (with_status base unsupported (some decision_scope)) else selected

abbrev pub is_annual : String → Bool
is_annual form = form == "10-K" || form == "10-K/A"

unfoldable pub select_metric :
    String
    → String
    → String
    → String
    → Option ReportingPeriod
    → List FactRow
    → List Support
    → List LoadedDecision
    → Option String
    → MetricPeriodType
    → Result Observation
select_metric metric form filing_cik accession period facts supports decisions available_at
      period_type =
    let base = base_observation metric filing_cik accession period available_at period_type in
    let selected =
      select_in_period base metric filing_cik period facts supports decisions period_type in
    if is_annual form then selected else ok (with_status base unsupported (some wrong_form))
