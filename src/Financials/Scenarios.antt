-- ===== src/Financials/Scenarios.antt =====
-- A filing with two facts of one concept and one reviewed decision, to which the theorems on
-- src/edgar/financials are applied.
use edgar.Prelude.{
  ℕ, ◌≡◌, ◌≢◌, ◌↔◌, refl, sym, ap, ◌∙◌, ◌⊎◌, sort_by, insert_by, min_by, arith, true, false, List,
  [], ◌∷◌, none, some, String, ok, All, In, inl, inr,
}
use edgar.Prelude.Text.{strip, is_empty, is_digit, digit_value, int_from, zero_padded}
use edgar.Prelude.Int.{pos, negsuc}
use edgar.Prelude.Decimal.{Decimal, leb_decimal, add_decimal, sub_decimal, half_unit}
use edgar.Domain.Identifiers.{validate_cik}
use edgar.Financials.Models.{
  FactRow, Support, SupportRef, Observation, exact, value, ParsedUri, classify, semantic_family_of,
  clark_qname,
}
use edgar.Financials.Gold.{
  GoldAssertion, gold_duration, gold_value, compare_gold, observation_period_matches,
}
use edgar.Prelude.{Result, string_eq}
use edgar.Financials.Decimals.{
  interval, before, Occurrence, OimResolution, finite, reduce_parsed, intersection, parse_all,
  parse_decimals, oim_reduce_group, survivor_rank,
}
use edgar.Financials.Decimals.Intervals.{Inside, Proper}
use edgar.Financials.Decimals.Survivor.{SameMembers, DistinctIds}
use edgar.Financials.Decimals.Reduction.{
  agree, reduce_parsed-none_iff, reduce_parsed_sound, reduce_parsed-order_independent,
}
use edgar.Financials.Decisions.{
  DecisionRecord, DecisionEvidence, LoadedDecision, us_gaap_family, accepted, load_decisions,
  load_all, load_one, load_with, check_keys, validate_record, validate_source, issuer_excluded,
  concept_matches_decision, decision_applies_to_filing, support_of, supports_of_fact,
  resolve_supports, new_support,
}
use edgar.Financials.Decisions.Loading.{IsLoaded, DistinctKeys, load_decisions-IsLoaded}
use edgar.Financials.Decisions.Supports.{
  Backed, Names, resolve_supports-Backed, resolve_supports_complete,
}
use edgar.Financials.Period.{
  DeiPeriodCandidate, ReportingPeriod, duration, period_end_lexical, chosen_candidate,
  filter_candidates, group_candidates, place, candidates_equivalent, period_matches_metric,
}
use edgar.Financials.Period.Agreement.{Agrees, chosen_candidate-Agrees}
use edgar.Financials.Select.{
  select_metric, select_in_scope, applicable, candidates_of, any_qualifies, fact_by_id,
  fact_qualifies_slot, entity_matches, is_pure_usd, survivors_of, survivor_of, published_of,
  rank_survivors, is_annual,
}
use edgar.Financials.Select.Source.{Published, select_metric-Published}

abbrev thousands : Occurrence
thousands = record {
  fact = record {
    fact_id = 1;
    value = record { coefficient = pos 1000; scale = 0 };
    decimals = some "-3";
  };
  precision = finite (negsuc 2);
}

abbrev hundreds : Occurrence
hundreds = record {
  fact = record {
    fact_id = 2;
    value = record { coefficient = pos 1200; scale = 0 };
    decimals = some "-2";
  };
  precision = finite (negsuc 1);
}

abbrev id_of : Occurrence → ℕ
id_of o = o.fact.fact_id

abbrev reduced : OimResolution
reduced = record {
  survivor_value = record { coefficient = pos 1200; scale = 0 };
  survivor_decimals = some "-2";
  survivor_fact_id = 2;
  fact_ids = 1 ∷ 2 ∷ [];
  consistent_interval = record {
    lo = record { coefficient = pos 1150; scale = 0 };
    hi = record { coefficient = pos 1250; scale = 0 };
  };
}

reduced_run : reduce_parsed (thousands ∷ hundreds ∷ []) ≡ some reduced
unfolding reduce_parsed intersection leb_decimal add_decimal sub_decimal half_unit sort_by insert_by
    min_by
reduced_run = refl

flipped_members : SameMembers (thousands ∷ hundreds ∷ []) (hundreds ∷ thousands ∷ [])
flipped_members a = (λ i. flip thousands hundreds i, λ i. flip hundreds thousands i)
  where
    flip : (x y : Occurrence) → In a (x ∷ y ∷ []) → In a (y ∷ x ∷ [])
    flip x y (inl e) = inr (inl e)
    flip x y (inr (inl e)) = inl e
    flip x y (inr (inr e)) = absurd e

one_not_two : ◌≡◌ {A = ℕ} 1 2 → ⊥
one_not_two h = omega arith

clash_of_ids :
    (a b : Occurrence) → a ≡ thousands → b ≡ hundreds → a.fact.fact_id ≡ b.fact.fact_id → ⊥
clash_of_ids a b d e h = absurd (one_not_two (sym (ap id_of d) ∙ (h ∙ ap id_of e)))

two_ids : DistinctIds (thousands ∷ hundreds ∷ [])
two_ids a b (inl d) (inl e) h = cc
two_ids a b (inr (inl d)) (inr (inl e)) h = cc
two_ids a b (inl d) (inr (inl e)) h = absurd (clash_of_ids a b d e h)
two_ids a b (inr (inl d)) (inl e) h = absurd (clash_of_ids b a e d (sym h))
two_ids a b (inr (inr d)) j h = absurd d
two_ids a b (inl d) (inr (inr e)) h = absurd e
two_ids a b (inr (inl d)) (inr (inr e)) h = absurd e

abbrev pub revenues_namespace : String
revenues_namespace = "http://fasb.org/us-gaap/2023"

abbrev pub no_host : String → ParsedUri
no_host s = record { scheme = ""; hostname = none; path = s }

abbrev evidence_item : DecisionEvidence
evidence_item = record {
  kind = "taxonomy";
  artifact_sha256 = none;
  concept = none;
  accession = none;
  locator = none;
  quote = none;
}

abbrev reviewed : DecisionRecord
reviewed = record {
  id = "d1";
  metric = "revenue";
  source = record {
    family = us_gaap_family;
    local_name = "Revenues";
    issuer_cik = none;
    exclude_qnames = [];
  };
  relation = exact;
  exclude_ciks = [];
  status = accepted;
  method = "curated";
  rationale = "same definition";
  evidence = evidence_item ∷ [];
  contract_hash = "h1";
}

abbrev metric_hashes : List (String × String)
metric_hashes = ("revenue", "h1") ∷ []

abbrev pub in_use : LoadedDecision
in_use = record { record_of = reviewed; stale_inactive = false }

loaded_run : load_decisions metric_hashes true (reviewed ∷ []) ≡ ok (in_use ∷ [])
unfolding load_decisions load_all validate_record validate_source is_empty strip load_one load_with
    check_keys
loaded_run = refl

abbrev sales : FactRow
sales = record {
  fact_id = 1;
  concept_namespace = revenues_namespace;
  concept_local_name = "Revenues";
  source_qname = "us-gaap:Revenues";
  context_id = 5;
  value_status = "valid";
  resolved_numeric = some (record { coefficient = pos 1000; scale = 0 });
  is_nil = false;
  decimals = some "-3";
  lexical_value = some "1000";
  entity_scheme = "http://www.sec.gov/CIK";
  entity_identifier = "0000320193";
  period_kind = "duration";
  instant_lexical = none;
  start_lexical = some "2023-01-01";
  end_lexical = some "2023-12-31";
  has_dimensions = false;
  unit_measures =
      (record {
        side = "numerator";
        ordinal = 0;
        measure_namespace_uri = some "http://www.xbrl.org/2003/iso4217";
        measure_local_name = "USD";
      })
      ∷ [];
}

abbrev pub filing : String
filing = "0000320193-24-000123"

abbrev sales_support : Support
sales_support = new_support filing sales reviewed "{http://fasb.org/us-gaap/2023}Revenues"

supports_run :
    resolve_supports no_host (sales ∷ []) (in_use ∷ []) filing "320193" ≡ ok (sales_support ∷ [])
unfolding resolve_supports supports_of_fact support_of issuer_excluded validate_cik strip is_digit
    is_empty zero_padded int_from concept_matches_decision clark_qname classify semantic_family_of
supports_run = refl

not_excluded : issuer_excluded reviewed "320193" ≡ ok false
unfolding issuer_excluded validate_cik strip is_digit is_empty zero_padded int_from
not_excluded = refl

covered : concept_matches_decision no_host reviewed "320193" revenues_namespace "Revenues" ≡ ok true
unfolding concept_matches_decision clark_qname is_empty classify semantic_family_of
covered = refl

abbrev year_end : DeiPeriodCandidate
year_end = record {
  context_id = 5;
  context_entity_scheme = "http://www.sec.gov/CIK";
  context_entity_identifier = "0000320193";
  period_kind = "duration";
  instant_lexical = none;
  start_lexical = some "2023-01-01";
  end_lexical = some "2023-12-31";
  document_period_end_value = "2023-12-31";
}

chosen_run : chosen_candidate (year_end ∷ year_end ∷ []) "320193" ≡ ok year_end
unfolding chosen_candidate validate_cik strip is_empty is_digit filter_candidates group_candidates
    zero_padded int_from digit_value place candidates_equivalent period_end_lexical
chosen_run = refl

abbrev year : ReportingPeriod
year = record {
  start = "2023-01-01";
  period_end = "2023-12-31";
  fiscal_year_focus = some "2023";
  fiscal_period_focus = some "FY";
}

abbrev sales_ref : SupportRef
sales_ref = record {
  fact_id = 1;
  decision_id = "d1";
  relation = exact;
  tier = 1;
  source_qname = "{http://fasb.org/us-gaap/2023}Revenues";
  application_method = "curated";
}

abbrev pub sales_observation : Observation
sales_observation = record {
  cik = "320193";
  accession = filing;
  metric = "revenue";
  fy = some "2023";
  report_focus = some "FY";
  period_role = none;
  period_start = some "2023-01-01";
  period_end = some "2023-12-31";
  status = value;
  reason = none;
  numeric = some (record { coefficient = pos 1000; scale = 0 });
  decimals = some "-3";
  unit = some "USD";
  decision_ids = "d1" ∷ [];
  fact_ids = 1 ∷ [];
  supports = sales_ref ∷ [];
  relation = some exact;
  tier = some 1;
  available_at = none;
  view = "as-filed";
}

selected_run :
    select_metric "revenue" "10-K" "320193" filing
      (some year)
      (sales ∷ [])
      (sales_support ∷ [])
      (in_use ∷ [])
      none
      duration
    ≡ ok sales_observation
unfolding select_metric applicable decision_applies_to_filing issuer_excluded validate_cik strip
    is_digit is_empty zero_padded int_from digit_value select_in_scope candidates_of any_qualifies
    fact_by_id fact_qualifies_slot entity_matches is_pure_usd period_matches_metric survivors_of
    survivor_of oim_reduce_group parse_all parse_decimals reduce_parsed intersection leb_decimal
    add_decimal sub_decimal half_unit sort_by insert_by min_by published_of rank_survivors
    survivor_rank
selected_run = refl

reduce_parsed_sound_example :
    Proper reduced.consistent_interval
    × All (λ p. Inside reduced.consistent_interval (interval p)) (thousands ∷ hundreds ∷ [])
    × ((s : Occurrence) × In s (thousands ∷ hundreds ∷ [])
        × All (λ p. before s p ≡ true) (thousands ∷ hundreds ∷ [])
        × (reduced.survivor_value ≡ s.fact.value)
        × (reduced.survivor_decimals ≡ s.fact.decimals)
        × (reduced.survivor_fact_id ≡ s.fact.fact_id))
reduce_parsed_sound_example = reduce_parsed_sound thousands (hundreds ∷ []) reduced reduced_run

reduce_parsed-none_iff_example : (reduce_parsed (thousands ∷ hundreds ∷ []) ≡ none) ↔ (
    (a : Occurrence) × (b : Occurrence) × In a (thousands ∷ hundreds ∷ [])
    × In b (thousands ∷ hundreds ∷ [])
    × (agree a b ≡ false))
reduce_parsed-none_iff_example = reduce_parsed-none_iff thousands (hundreds ∷ [])

reduce_parsed-order_independent_example :
    (q : OimResolution) × (reduce_parsed (hundreds ∷ thousands ∷ []) ≡ some q)
    × (q.survivor_fact_id ≡ reduced.survivor_fact_id)
    × (q.survivor_value ≡ reduced.survivor_value)
    × (q.survivor_decimals ≡ reduced.survivor_decimals)
reduce_parsed-order_independent_example =
    reduce_parsed-order_independent thousands hundreds (hundreds ∷ []) (thousands ∷ []) reduced
      flipped_members two_ids reduced_run

load_decisions-IsLoaded_example :
    All (IsLoaded metric_hashes true) (in_use ∷ []) × DistinctKeys (in_use ∷ [])
load_decisions-IsLoaded_example =
    load_decisions-IsLoaded metric_hashes true (reviewed ∷ []) (in_use ∷ []) loaded_run

resolve_supports-Backed_example :
    (fact : FactRow) × (ld : LoadedDecision) × (In fact (sales ∷ [])
      × (In ld (in_use ∷ []) × Backed no_host filing "320193" fact ld sales_support))
resolve_supports-Backed_example =
    resolve_supports-Backed no_host (sales ∷ []) (in_use ∷ []) filing "320193" (sales_support ∷ [])
      sales_support supports_run (inl refl)

resolve_supports_complete_example :
    (s : Support) × (In s (sales_support ∷ []) × Names sales in_use s)
resolve_supports_complete_example =
    resolve_supports_complete no_host (sales ∷ []) (in_use ∷ []) filing "320193"
      (sales_support ∷ []) sales in_use supports_run (inl refl) (inl refl) refl not_excluded covered

chosen_candidate-Agrees_example :
    (cik : String) × ((validate_cik "320193" ≡ ok cik)
      × ((others : List DeiPeriodCandidate) × ((filter_candidates cik (year_end ∷ year_end ∷ [])
              ≡ ok (year_end ∷ others))
            × All (Agrees year_end) others)))
chosen_candidate-Agrees_example =
    chosen_candidate-Agrees (year_end ∷ year_end ∷ []) "320193" year_end chosen_run

select_metric-Published_example :
    ((sales_observation.status ≡ value)
      × ((is_annual "10-K" ≡ true)
          × ((p : ReportingPeriod) × ((some year ≡ some p)
                × Published "revenue" "320193" p duration
                    (sales ∷ [])
                    (sales_support ∷ [])
                    sales_observation))))
    ⊎ ((sales_observation.status ≢ value) × (sales_observation.numeric ≡ none))
select_metric-Published_example =
    select_metric-Published "revenue" "10-K" "320193" filing (some year) (sales ∷ [])
      (sales_support ∷ []) (in_use ∷ []) none duration sales_observation selected_run

abbrev expected_sales : GoldAssertion
expected_sales = record {
  id = "g1";
  accession = filing;
  metric = "revenue";
  period = record { kind = gold_duration; start = some "2023-01-01"; period_end = "2023-12-31" };
  status = gold_value;
  numeric = some "1000.0";
  reason = none;
}

abbrev read_decimal : String → Result Decimal
read_decimal text = ok (record { coefficient = pos 10000; scale = 1 })

gold_run : compare_gold read_decimal expected_sales sales_observation ≡ ok none
unfolding compare_gold observation_period_matches leb_decimal
gold_run = refl
