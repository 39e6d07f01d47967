-- ===== src/Financials/Decisions/Supports.antt =====
-- What `resolve_supports` of src/edgar/financials/resolve.py returns: where each support comes from.
use edgar.Prelude.{
  ◌≡◌, refl, sym, subst, inl, inr, Bool, true, false, List, [], ◌∷◌, ◌++◌, String, ok, >>=-eq-ok,
  Bool-cases, In, In-append, In-append_left, In-append_right,
}
use edgar.Financials.Models.{clark_qname, FactRow, Support, ParsedUri}
use edgar.Financials.Decisions.{
  LoadedDecision, issuer_excluded, concept_matches_decision, is_active, support_of,
  supports_of_fact, resolve_supports, support_when, support_if_matched, new_support,
}

-- The fact and the decision that a support names.
abbrev pub Names : FactRow → LoadedDecision → Support → Type 0
Names fact ld s = (s.fact_id ≡ fact.fact_id) × (s.decision_id ≡ ld.record_of.id)

module _ (urlparse : String → ParsedUri) where
  -- A support comes from a fact and from an active decision that does not exclude the filer, whose
  -- concepts include the fact's, and it carries their accession, metric, relation and identifiers.
  abbrev pub Backed : String → String → FactRow → LoadedDecision → Support → Type 0
  Backed accession filing_cik fact ld s =
      (is_active ld ≡ true)
      × (issuer_excluded ld.record_of filing_cik ≡ ok false)
      × (concept_matches_decision urlparse ld.record_of filing_cik fact.concept_namespace
            fact.concept_local_name
          ≡ ok true)
      × ((q : String) × (s ≡ new_support accession fact ld.record_of q))

  matched-Backed :
      (ex : Bool) (accession cik : String) (fact : FactRow) (ld : LoadedDecision) (l : List Support)
      (s : Support)
      → is_active ld ≡ true
      → issuer_excluded ld.record_of cik ≡ ok ex
      → support_if_matched urlparse ex accession cik fact ld.record_of ≡ ok l
      → In s l
      → Backed accession cik fact ld s
  matched-Backed true accession cik fact ld l s active e h i =
      let p : [] ≡ l = cc in absurd (subst (In s) (sym p) i)
  matched-Backed false accession cik fact ld l s active e h i =
      let (m, e1, h1) =
        >>=-eq-ok
          (concept_matches_decision urlparse ld.record_of cik fact.concept_namespace
            fact.concept_local_name)
          _ h in
      let (t, u) = made m l h1 i in
      (
        active,
        e,
        subst
            (λ b.
              concept_matches_decision urlparse ld.record_of cik fact.concept_namespace
                fact.concept_local_name
              ≡ ok b)
            t e1,
        u,
      )
    where
      made :
          (m : Bool) (l : List Support)
          → support_when m accession fact ld.record_of ≡ ok l
          → In s l
          → (m ≡ true) × ((q : String) × (s ≡ new_support accession fact ld.record_of q))
      made true l h i =
          let (q, e2, h2) =
            >>=-eq-ok (clark_qname fact.concept_namespace fact.concept_local_name) _ h in
          let p : new_support accession fact ld.record_of q ∷ [] ≡ l = cc in
          elim (subst (In s) (sym p) i) [
            | inl g ↦ (refl, (q, g))
            | inr none_left ↦ absurd none_left
          ]
      made false l h i = let p : [] ≡ l = cc in absurd (subst (In s) (sym p) i)

  support_of-Backed :
      (accession cik : String) (fact : FactRow) (ld : LoadedDecision) (l : List Support)
      (s : Support)
      → support_of urlparse accession cik fact ld ≡ ok l
      → In s l
      → Backed accession cik fact ld s
  unfolding support_of
  support_of-Backed accession cik fact ld l s h i = elim (Bool-cases (is_active ld)) [
    | inl active ↦
        let (ex, e1, h1) = >>=-eq-ok (issuer_excluded ld.record_of cik) _ (rw active at h) in
        matched-Backed ex accession cik fact ld l s active e1 h1 i
    | inr idle ↦ let p : [] ≡ l = cc (rw idle at h) in absurd (subst (In s) (sym p) i)
  ]

  supports_of_fact-Backed :
      (accession cik : String) (fact : FactRow) (lds : List LoadedDecision) (l : List Support)
      (s : Support)
      → supports_of_fact urlparse accession cik fact lds ≡ ok l
      → In s l
      → (ld : LoadedDecision) × (In ld lds × Backed accession cik fact ld s)
  unfolding supports_of_fact
  supports_of_fact-Backed accession cik fact [] l s h i =
      let p : [] ≡ l = cc in absurd (subst (In s) (sym p) i)
  supports_of_fact-Backed accession cik fact (ld ∷ lds) l s h i =
      let (added, e1, h1) = >>=-eq-ok (support_of urlparse accession cik fact ld) _ h in
      let (rest, e2, h2) = >>=-eq-ok (supports_of_fact urlparse accession cik fact lds) _ h1 in
      let p : added ++ rest ≡ l = cc in
      elim (In-append added rest s (subst (In s) (sym p) i)) [
        | inl here ↦ (ld, (inl refl, support_of-Backed accession cik fact ld added s e1 here))
        | inr there ↦
            let (ld2, (m, b)) = supports_of_fact-Backed accession cik fact lds rest s e2 there in
            (ld2, (inr m, b))
      ]

  -- Each support that `resolve_supports` returns comes from one of the facts and one of the decisions:
  -- the decision is accepted and not stale, does not exclude the filer, matches the fact's concept,
  -- and the support has the fact's id and concept and the decision's id, metric and relation.
  pub resolve_supports-Backed :
      (facts : List FactRow) (lds : List LoadedDecision) (accession cik : String) (l : List Support)
      (s : Support)
      → resolve_supports urlparse facts lds accession cik ≡ ok l
      → In s l
      → (fact : FactRow) × (ld : LoadedDecision) × (In fact facts
          × (In ld lds × Backed accession cik fact ld s))
  unfolding resolve_supports
  resolve_supports-Backed [] lds accession cik l s h i =
      let p : [] ≡ l = cc in absurd (subst (In s) (sym p) i)
  resolve_supports-Backed (fact ∷ facts) lds accession cik l s h i =
      let (added, e1, h1) = >>=-eq-ok (supports_of_fact urlparse accession cik fact lds) _ h in
      let (rest, e2, h2) = >>=-eq-ok (resolve_supports urlparse facts lds accession cik) _ h1 in
      let p : added ++ rest ≡ l = cc in
      elim (In-append added rest s (subst (In s) (sym p) i)) [
        | inl here ↦
            let (ld, (m, b)) = supports_of_fact-Backed accession cik fact lds added s e1 here in
            (fact, ld, (inl refl, (m, b)))
        | inr there ↦
            let (fact2, ld, (n, (m, b))) =
              resolve_supports-Backed facts lds accession cik rest s e2 there in
            (fact2, ld, (inr n, (m, b)))
      ]

  support_of_complete :
      (accession cik : String) (fact : FactRow) (ld : LoadedDecision) (l : List Support)
      → support_of urlparse accession cik fact ld ≡ ok l
      → is_active ld ≡ true
      → issuer_excluded ld.record_of cik ≡ ok false
      → concept_matches_decision urlparse ld.record_of cik fact.concept_namespace
          fact.concept_local_name
        ≡ ok true
      → (s : Support) × (In s l × Names fact ld s)
  unfolding support_of
  support_of_complete accession cik fact ld l h active ex mt =
      let (q, e2, h2) =
        >>=-eq-ok (clark_qname fact.concept_namespace fact.concept_local_name) _
          (rw (active, ex, mt) at h) in
      let p : new_support accession fact ld.record_of q ∷ [] ≡ l = cc in
      (new_support accession fact ld.record_of q, (subst (In _) p (inl refl), (refl, refl)))

  supports_of_fact_complete :
      (accession cik : String) (fact : FactRow) (lds : List LoadedDecision) (l : List Support)
      (ld : LoadedDecision)
      → supports_of_fact urlparse accession cik fact lds ≡ ok l
      → In ld lds
      → is_active ld ≡ true
      → issuer_excluded ld.record_of cik ≡ ok false
      → concept_matches_decision urlparse ld.record_of cik fact.concept_namespace
          fact.concept_local_name
        ≡ ok true
      → (s : Support) × (In s l × Names fact ld s)
  unfolding supports_of_fact
  supports_of_fact_complete accession cik fact [] l ld h i a x m = absurd i
  supports_of_fact_complete accession cik fact (d ∷ lds) l ld h i a x m =
      let (added, e1, h1) = >>=-eq-ok (support_of urlparse accession cik fact d) _ h in
      let (rest, e2, h2) = >>=-eq-ok (supports_of_fact urlparse accession cik fact lds) _ h1 in
      let p : added ++ rest ≡ l = cc in
      elim i [
        | inl here ↦
            let f : support_of urlparse accession cik fact ld ≡ ok added = cc in
            let (s, jn) = support_of_complete accession cik fact ld added f a x m in
            (s, (subst (In s) p (In-append_left added rest s jn.0), jn.1))
        | inr there ↦
            let (s, jn) = supports_of_fact_complete accession cik fact lds rest ld e2 there a x m in
            (s, (subst (In s) p (In-append_right added rest s jn.0), jn.1))
      ]

  -- Where `resolve_supports` returns, each of the facts and each of the decisions that is active, does
  -- not exclude the filer and matches the fact's concept have a support among those returned.
  pub resolve_supports_complete :
      (facts : List FactRow) (lds : List LoadedDecision) (accession cik : String) (l : List Support)
      (fact : FactRow) (ld : LoadedDecision)
      → resolve_supports urlparse facts lds accession cik ≡ ok l
      → In fact facts
      → In ld lds
      → is_active ld ≡ true
      → issuer_excluded ld.record_of cik ≡ ok false
      → concept_matches_decision urlparse ld.record_of cik fact.concept_namespace
          fact.concept_local_name
        ≡ ok true
      → (s : Support) × (In s l × Names fact ld s)
  unfolding resolve_supports
  resolve_supports_complete [] lds accession cik l fact ld h i k a x m = absurd i
  resolve_supports_complete (f ∷ facts) lds accession cik l fact ld h i k a x m =
      let (added, e1, h1) = >>=-eq-ok (supports_of_fact urlparse accession cik f lds) _ h in
      let (rest, e2, h2) = >>=-eq-ok (resolve_supports urlparse facts lds accession cik) _ h1 in
      let p : added ++ rest ≡ l = cc in
      elim i [
        | inl here ↦
            let e : supports_of_fact urlparse accession cik fact lds ≡ ok added = cc in
            let (s, jn) = supports_of_fact_complete accession cik fact lds added ld e k a x m in
            (s, (subst (In s) p (In-append_left added rest s jn.0), jn.1))
        | inr there ↦
            let (s, jn) =
              resolve_supports_complete facts lds accession cik rest fact ld e2 there k a x m in
            (s, (subst (In s) p (In-append_right added rest s jn.0), jn.1))
      ]
