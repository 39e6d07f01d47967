-- ===== src/Financials/Select/Source.antt =====
-- Where the value that `select_metric` of src/edgar/financials/select.py publishes comes from.
use edgar.Prelude.{
  ◌≡◌, ◌≢◌, ◌⊎◌, subst, ap, ◌∙◌, refl, sym, inl, inr, Bool, true, false, not, ◌&&◌, List, [], ◌∷◌,
  Option, some, none, String, ok, >>=-eq-ok, Bool-cases, In, In-append, In-filter, In-min_by,
  filter, min_by, ◌==◌, string_eq,
}
use edgar.Prelude.Decimal.{Decimal}
use edgar.Financials.Models.{
  FactRow, Support, Observation, value, missing, broader_only, wrong_form, decision_scope,
  unsupported, conflict, relation_is_exact, relation_is_broader,
}
use edgar.Financials.Decimals.{
  leb_rank, survivor_rank, NumericFactOccurrence, Occurrence, OimResolution, parse_all,
  parse_decimals, reduce_parsed, oim_reduce_group,
}
use edgar.Financials.Decimals.Reduction.{reduce_parsed_sound}
use edgar.Financials.Decisions.{LoadedDecision}
use edgar.Financials.Period.{ReportingPeriod, MetricPeriodType}
use edgar.Financials.Select.{
  Candidate, is_exact_decision, none_left, none_exact, min_id, differ, occurrences, occurrence_of,
  group_of, qualifying, fact_by_id, fact_qualifies_slot, with_fact, candidates_of, any_qualifies,
  Survivor, survivor_of, add_survivor, keep_survivor, survivors_of, Ranked, rank_survivors,
  first_ranked, published_of, publish, conclude_survivors, conclude_candidates, for_metric,
  select_in_scope, select_in_period, select_metric, applicable, is_annual, with_status,
  base_observation, qnames_of,
}

-- A parsed occurrence is one of the occurrences.
parse_all-In :
    (fs : List NumericFactOccurrence) (os : List Occurrence) (o : Occurrence)
    → parse_all fs ≡ ok os
    → In o os
    → In o.fact fs
unfolding parse_all
parse_all-In [] os o h i = let p : [] ≡ os = cc in absurd (subst (In o) (sym p) i)
parse_all-In (f ∷ fs) os o h i =
    let (d, e1, h1) = >>=-eq-ok (parse_decimals f.decimals) _ h in
    let (rest, e2, h2) = >>=-eq-ok (parse_all fs) _ h1 in
    let p : (record { fact = f; precision = d }) ∷ rest ≡ os = cc in
    elim (subst (In o) (sym p) i) [
      | inl here ↦ inl (ap (λ (x : Occurrence). x.fact) here)
      | inr there ↦ inr (parse_all-In fs rest o e2 there)
    ]

-- The value that a group reduces to is the value of one of its facts.
oim_reduce_group-In :
    (fs : List NumericFactOccurrence) (r : OimResolution)
    → oim_reduce_group fs ≡ ok (some r)
    → (f : NumericFactOccurrence) × (In f fs × (r.survivor_value ≡ f.value))
unfolding oim_reduce_group reduce_parsed
oim_reduce_group-In fs r h =
    let (os, e1, h1) = >>=-eq-ok (parse_all fs) _ h in from_parsed os e1 (cc)
  where
    from_parsed :
        (os : List Occurrence)
        → parse_all fs ≡ ok os
        → reduce_parsed os ≡ some r
        → (f : NumericFactOccurrence) × (In f fs × (r.survivor_value ≡ f.value))
    from_parsed [] e h = absurd (cc h)
    from_parsed (o ∷ os) e h =
        let (_, _, (s, i, _, v, _, _)) = reduce_parsed_sound o os r h in
        (s.fact, (parse_all-In fs (o ∷ os) s e i, v))

-- An occurrence is a candidate's fact with its value.
occurrences-In :
    (cs : List Candidate) (f : NumericFactOccurrence)
    → In f (occurrences cs)
    → (c : Candidate) × (In c cs × (c.fact.resolved_numeric ≡ some f.value))
occurrences-In [] f i = absurd i
occurrences-In (c ∷ cs) f i =
    elim (In-append (occurrence_of c.fact.fact_id c.fact.resolved_numeric c.fact.decimals)
      (occurrences cs) f i) [
        | inl here ↦ (c, (inl refl, from_one c.fact.resolved_numeric here))
        | inr there ↦ let (d, (j, e)) = occurrences-In cs f there in (d, (inr j, e))
      ]
  where
    from_one :
        (v : Option Decimal)
        → In f (occurrence_of c.fact.fact_id v c.fact.decimals)
        → v ≡ some f.value
    from_one none i = absurd i
    from_one (some v) (inr i) = absurd i
    from_one (some v) (inl e) = ap (λ (x : NumericFactOccurrence). some x.value) (sym e)

-- A candidate's support is one of the supports, its fact the one that the support names, and the
-- fact qualifies.
candidates_of-In :
    (facts : List FactRow) (cik : String) (p : ReportingPeriod) (t : MetricPeriodType)
    (ss : List Support) (cs : List Candidate) (c : Candidate)
    → candidates_of facts cik p t ss ≡ ok cs
    → In c cs
    → In c.support ss
      × ((fact_by_id facts c.support.fact_id ≡ some c.fact)
          × (fact_qualifies_slot c.fact cik p t ≡ ok true))
unfolding candidates_of
candidates_of-In facts cik p t [] cs c h i = let q : [] ≡ cs = cc in absurd (subst (In c) (sym q) i)
candidates_of-In facts cik p t (s ∷ ss) cs c h i =
    let (fits, e1, h1) = >>=-eq-ok (qualifying (fact_by_id facts s.fact_id) cik p t) _ h in
    let (rest, e2, h2) = >>=-eq-ok (candidates_of facts cik p t ss) _ h1 in
    let q : with_fact (fact_by_id facts s.fact_id) s fits rest ≡ cs = cc in
    elim (split (fact_by_id facts s.fact_id) fits rest e1 (subst (In c) (sym q) i)) [
      | inl (a, f, g) ↦ (inl a, (ap (λ (x : Support). fact_by_id facts x.fact_id) a ∙ f, g))
      | inr j ↦ let (a, b) = candidates_of-In facts cik p t ss rest c e2 j in (inr a, b)
    ]
  where
    split :
        (o : Option FactRow) (fits : Bool) (rest : List Candidate)
        → qualifying o cik p t ≡ ok fits
        → In c (with_fact o s fits rest)
        → ((c.support ≡ s) × (o ≡ some c.fact) × (fact_qualifies_slot c.fact cik p t ≡ ok true))
          ⊎ In c rest
    split none true rest e i = inr i
    split none false rest e i = inr i
    split (some f) false rest e i = inr i
    split (some f) true rest e (inr i) = inr i
    split (some f) true rest e (inl i) = inl (
      ap (λ (x : Candidate). x.support) i,
      ap (λ (x : Candidate). some x.fact) (sym i),
      subst (λ (x : FactRow). fact_qualifies_slot x cik p t ≡ ok true)
          (ap (λ (x : Candidate). x.fact) (sym i)) e,
    )

-- A survivor's value is the value of a candidate's fact.
survivors_of-In :
    (cs : List Candidate) (qnames : List String) (l : List Survivor) (s : Survivor)
    → survivors_of cs qnames ≡ ok (some l)
    → In s l
    → (c : Candidate) × (In c cs × (c.fact.resolved_numeric ≡ some s.published_value))
unfolding survivors_of survivor_of
survivors_of-In cs [] l s h i = let p : [] ≡ l = cc in absurd (subst (In s) (sym p) i)
survivors_of-In cs (q ∷ qs) l s h i =
    let (r, e1, h1) = >>=-eq-ok (oim_reduce_group (occurrences (group_of q cs))) _ h in
    kept (λ rest e j. survivors_of-In cs qs rest s e j) r e1 h1
  where
    in_group :
        (r : OimResolution)
        → oim_reduce_group (occurrences (group_of q cs)) ≡ ok (some r)
        → s ≡ survivor_of r (group_of q cs)
        → (c : Candidate) × (In c cs × (c.fact.resolved_numeric ≡ some s.published_value))
    in_group r e k =
        let (f, (j, v)) = oim_reduce_group-In (occurrences (group_of q cs)) r e in
        let (c, (m, w)) = occurrences-In (group_of q cs) f j in
        let n = In-filter (λ (c : Candidate). c.support.source_qname == q) cs c m in
        (c, (n.0, w ∙ ap some (sym (ap (λ (x : Survivor). x.published_value) k ∙ v))))

    others :
        ((rest : List Survivor)
          → survivors_of cs qs ≡ ok (some rest)
          → In s rest
          → (c : Candidate) × (In c cs × (c.fact.resolved_numeric ≡ some s.published_value)))
        → (r : OimResolution) → oim_reduce_group (occurrences (group_of q cs)) ≡ ok (some r)
        → (o : Option (List Survivor)) → survivors_of cs qs ≡ ok o
        → ok (add_survivor (survivor_of r (group_of q cs)) o) ≡ ok (some l)
        → (c : Candidate) × (In c cs × (c.fact.resolved_numeric ≡ some s.published_value))
    others later r e none e2 g = absurd (cc g)
    others later r e (some rest) e2 g =
        let p : survivor_of r (group_of q cs) ∷ rest ≡ l = cc in
        elim (subst (In s) (sym p) i) [
          | inl here ↦ in_group r e here
          | inr there ↦ later rest e2 there
        ]

    kept :
        ((rest : List Survivor)
          → survivors_of cs qs ≡ ok (some rest)
          → In s rest
          → (c : Candidate) × (In c cs × (c.fact.resolved_numeric ≡ some s.published_value)))
        → (r : Option OimResolution) → oim_reduce_group (occurrences (group_of q cs)) ≡ ok r
        → keep_survivor r (group_of q cs) (survivors_of cs qs) ≡ ok (some l)
        → (c : Candidate) × (In c cs × (c.fact.resolved_numeric ≡ some s.published_value))
    kept later none e k = absurd (cc k)
    kept later (some r) e k =
        let (o, e2, h2) = >>=-eq-ok (survivors_of cs qs) _ k in others later r e o e2 h2

rank_survivors-In :
    (ss : List Survivor) (rs : List Ranked) (r : Ranked)
    → rank_survivors ss ≡ ok rs
    → In r rs
    → In r.survivor ss
unfolding rank_survivors
rank_survivors-In [] rs r h i = let p : [] ≡ rs = cc in absurd (subst (In r) (sym p) i)
rank_survivors-In (s ∷ ss) rs r h i =
    let (k, e1, h1) = >>=-eq-ok (survivor_rank s.published_decimals (min_id s.refs)) _ h in
    let (rest, e2, h2) = >>=-eq-ok (rank_survivors ss) _ h1 in
    let p : (record { rank = k; survivor = s }) ∷ rest ≡ rs = cc in
    elim (subst (In r) (sym p) i) [
      | inl here ↦ inl (ap (λ (x : Ranked). x.survivor) here)
      | inr there ↦ inr (rank_survivors-In ss rest r e2 there)
    ]

published_of-In : (ss : List Survivor) (s : Survivor) → published_of ss ≡ ok s → In s ss
unfolding published_of
published_of-In ss s h =
    let (rs, e1, h1) = >>=-eq-ok (rank_survivors ss) _ h in from_ranked rs e1 h1
  where
    from_ranked : (rs : List Ranked) → rank_survivors ss ≡ ok rs → first_ranked rs ≡ ok s → In s ss
    from_ranked [] e h = absurd (cc h)
    from_ranked (r ∷ rs) e h =
        let m = min_by (λ (a b : Ranked). leb_rank a.rank b.rank) r rs in
        let p : m.survivor ≡ s = cc in
        subst (λ x. In x ss) p
          (rank_survivors-In ss (r ∷ rs) m e
            (In-min_by (λ (a b : Ranked). leb_rank a.rank b.rank) r rs))

-- An observation's status and number go together: a value has the number of a candidate, any other
-- status has none.
abbrev pub IsSourced : List Candidate → Observation → Type 0
IsSourced cs o =
    ((o.status ≡ value) × ((c : Candidate) × (In c cs × (o.numeric ≡ c.fact.resolved_numeric))))
    ⊎ ((o.status ≢ value) × (o.numeric ≡ none))

conclude_survivors-IsSourced :
    (base : Observation) (cs : List Candidate) (qnames : List String)
    (survivors : Option (List Survivor)) (o : Observation)
    → base.numeric ≡ none
    → survivors_of cs qnames ≡ ok survivors
    → conclude_survivors base survivors ≡ ok o
    → IsSourced cs o
conclude_survivors-IsSourced base cs qnames none o b e h =
    let p : with_status base conflict none ≡ o = cc in
    subst (IsSourced cs) p (inr ((λ e. absurd (cc e)), b))
conclude_survivors-IsSourced base cs qnames (some ss) o b e h = elim (Bool-cases (differ ss)) [
  | inl t ↦
      let p : with_status base conflict none ≡ o = cc (rw t at h) in
      subst (IsSourced cs) p (inr ((λ e. absurd (cc e)), b))
  | inr t ↦
      let (s, e2, h2) = >>=-eq-ok (published_of ss) _ (rw t at h) in
      let p : publish base ss s ≡ o = cc in
      let (c, (i, v)) = survivors_of-In cs qnames ss s e (published_of-In ss s e2) in
      subst (IsSourced cs) p (inl (refl, (c, (i, sym v))))
]

conclude_candidates-IsSourced :
    (base : Observation) (broader : Bool) (cs : List Candidate) (o : Observation)
    → base.numeric ≡ none
    → conclude_candidates base broader cs ≡ ok o
    → IsSourced cs o
conclude_candidates-IsSourced base true [] o b h =
    let p : with_status base missing (some broader_only) ≡ o = cc in
    subst (IsSourced []) p (inr ((λ e. absurd (cc e)), b))
conclude_candidates-IsSourced base false [] o b h =
    let p : with_status base missing none ≡ o = cc in
    subst (IsSourced []) p (inr ((λ e. absurd (cc e)), b))
conclude_candidates-IsSourced base true (c ∷ cs) o b h =
    let (ss, e, g) = >>=-eq-ok (survivors_of (c ∷ cs) (qnames_of (c ∷ cs))) _ h in
    conclude_survivors-IsSourced base (c ∷ cs) (qnames_of (c ∷ cs)) ss o b e g
conclude_candidates-IsSourced base false (c ∷ cs) o b h =
    let (ss, e, g) = >>=-eq-ok (survivors_of (c ∷ cs) (qnames_of (c ∷ cs))) _ h in
    conclude_survivors-IsSourced base (c ∷ cs) (qnames_of (c ∷ cs)) ss o b e g

-- An exact support of the metric, the fact that it names, whose context and unit fit the slot, and
-- the number of that fact.
abbrev pub Published :
    String
    → String
    → ReportingPeriod
    → MetricPeriodType
    → List FactRow
    → List Support
    → Observation
    → Type 0
Published metric cik p t facts supports o =
    (s : Support) × ((f : FactRow) × (In s supports
        × ((for_metric metric relation_is_exact s ≡ true)
            × ((fact_by_id facts s.fact_id ≡ some f)
                × ((fact_qualifies_slot f cik p t ≡ ok true) × (o.numeric ≡ f.resolved_numeric))))))

select_in_scope-Published :
    (base : Observation) (metric cik : String) (p : ReportingPeriod) (facts : List FactRow)
    (supports : List Support) (t : MetricPeriodType) (o : Observation)
    → base.numeric ≡ none
    → select_in_scope base metric cik p facts supports t ≡ ok o
    → ((o.status ≡ value) × Published metric cik p t facts supports o)
      ⊎ ((o.status ≢ value) × (o.numeric ≡ none))
unfolding select_in_scope
select_in_scope-Published base metric cik p facts supports t o b h =
    let exact_supports = filter (for_metric metric relation_is_exact) supports in
    let (cs, e1, h1) = >>=-eq-ok (candidates_of facts cik p t exact_supports) _ h in
    let (broader, e2, h2) =
      >>=-eq-ok
        (any_qualifies facts cik p t (filter (for_metric metric relation_is_broader) supports)) _
        h1 in
    elim (conclude_candidates-IsSourced base broader cs o b h2) [
      | inl (st, (c, (i, v))) ↦
          let (j, (f, g)) = candidates_of-In facts cik p t exact_supports cs c e1 i in
          let k = In-filter (for_metric metric relation_is_exact) supports c.support j in
          inl (st, (c.support, (c.fact, (k.0, (k.1, (f, (g, v)))))))
      | inr r ↦ inr r
    ]

select_in_period-Published :
    (base : Observation) (metric cik : String) (period : Option ReportingPeriod)
    (facts : List FactRow) (supports : List Support) (decisions : List LoadedDecision)
    (t : MetricPeriodType) (o : Observation)
    → base.numeric ≡ none
    → select_in_period base metric cik period facts supports decisions t ≡ ok o
    → ((o.status ≡ value)
        × ((p : ReportingPeriod) × ((period ≡ some p) × Published metric cik p t facts supports o)))
      ⊎ ((o.status ≢ value) × (o.numeric ≡ none))
select_in_period-Published base metric cik none facts supports decisions t o b h = absurd (cc h)
select_in_period-Published base metric cik (some p) facts supports decisions t o b h =
    let exact_all = filter (is_exact_decision metric) decisions in
    let (records, e, g) = >>=-eq-ok (applicable exact_all cik) _ h in
    elim (Bool-cases (not (none_exact exact_all) && none_left records)) [
      | inl out ↦
          let q : with_status base unsupported (some decision_scope) ≡ o = cc (rw out at g) in
          inr ((λ k. absurd (cc k)), ap (λ (x : Observation). x.numeric) (sym q) ∙ b)
      | inr inside ↦
          elim (select_in_scope-Published base metric cik p facts supports t o b (rw inside at g)) [
            | inl (st, q) ↦ inl (st, (p, (refl, q)))
            | inr q ↦ inr q
          ]
    ]

-- `select_metric` returns a value only for an annual form with a period, and then the number is
-- that of a fact in the slot that an exact support of the metric names; any other status comes
-- without a number.
pub select_metric-Published :
    (metric form cik accession : String) (period : Option ReportingPeriod) (facts : List FactRow)
    (supports : List Support) (decisions : List LoadedDecision) (available_at : Option String)
    (t : MetricPeriodType) (o : Observation)
    → select_metric metric form cik accession period facts supports decisions available_at t ≡ ok o
    → ((o.status ≡ value)
        × ((is_annual form ≡ true)
            × ((p : ReportingPeriod) × ((period ≡ some p)
                  × Published metric cik p t facts supports o))))
      ⊎ ((o.status ≢ value) × (o.numeric ≡ none))
unfolding select_metric
select_metric-Published metric form cik accession period facts supports decisions available_at t o
      h =
    let base = base_observation metric cik accession period available_at t in
    elim (Bool-cases (is_annual form)) [
      | inl annual ↦
          elim (select_in_period-Published base metric cik period facts supports decisions t o refl
            (rw annual at h)) [ inl (st, q) ↦ inl (st, (annual, q)) | inr q ↦ inr q ]
      | inr other ↦
          let q : with_status base unsupported (some wrong_form) ≡ o = cc (rw other at h) in
          inr ((λ e. absurd (cc e)), ap (λ (x : Observation). x.numeric) (sym q))
    ]
