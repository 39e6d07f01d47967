-- ===== src/Financials/Period/Agreement.antt =====
-- What a successful call of `resolve_required_reporting_period` of
-- src/edgar/financials/period.py says of the candidates.
use edgar.Prelude.{
  ◌≡◌, subst, ap, ◌∙◌, sym, inl, inr, true, List, [], ◌∷◌, String, ok, raise_if, >>=-eq-ok,
  Bool-cases, All, required_period_error,
}
use edgar.Domain.Identifiers.{validate_cik}
use edgar.Financials.Period.{
  DeiPeriodCandidate, candidates_equivalent, filter_candidates, place, single, no_candidates,
  group_candidates, chosen_candidate,
}

-- Placing a candidate keeps the first group in front.
place-first :
    (c b : DeiPeriodCandidate) (gs l : List DeiPeriodCandidate)
    → place c (b ∷ gs) ≡ ok l
    → (rest : List DeiPeriodCandidate) × (l ≡ b ∷ rest)
unfolding place
place-first c b gs l h =
    let (same, e1, h1) = >>=-eq-ok (candidates_equivalent b c) _ h in
    elim (Bool-cases same) [
      | inl t ↦ let q : b ∷ gs ≡ l = cc (rw t at h1) in (gs, sym q)
      | inr t ↦
          let (m, e2, h2) = >>=-eq-ok (place c gs) _ (rw t at h1) in
          let q : b ∷ m ≡ l = cc in (m, sym q)
    ]

abbrev Several : List DeiPeriodCandidate → Type 0
Several l =
    (a : DeiPeriodCandidate) × ((b : DeiPeriodCandidate) × ((rest : List DeiPeriodCandidate) × (l
          ≡ a ∷ b ∷ rest)))

-- Placing a candidate beside two groups or more leaves two groups or more.
place-Several :
    (c a b : DeiPeriodCandidate) (gs l : List DeiPeriodCandidate)
    → place c (a ∷ b ∷ gs) ≡ ok l
    → Several l
unfolding place
place-Several c a b gs l h =
    let (same, e1, h1) = >>=-eq-ok (candidates_equivalent a c) _ h in
    elim (Bool-cases same) [
      | inl t ↦ let q : a ∷ b ∷ gs ≡ l = cc (rw t at h1) in (a, (b, (gs, sym q)))
      | inr t ↦
          let (m, e2, h2) = >>=-eq-ok (place c (b ∷ gs)) _ (rw t at h1) in
          let (r, e) = place-first c b gs m e2 in
          let q : a ∷ m ≡ l = cc in (a, (b, (r, sym q ∙ ap (λ x. a ∷ x) e)))
    ]

group-Several :
    (cs : List DeiPeriodCandidate) (a b : DeiPeriodCandidate) (gs l : List DeiPeriodCandidate)
    → group_candidates (a ∷ b ∷ gs) cs ≡ ok l
    → Several l
unfolding group_candidates
group-Several [] a b gs l h = (a, (b, (gs, cc)))
group-Several (c ∷ cs) a b gs l h =
    let (placed, e1, h1) = >>=-eq-ok (place c (a ∷ b ∷ gs)) _ h in
    let (x, (y, (r, e))) = place-Several c a b gs placed e1 in group-Several cs x y r l (rw e at h1)

-- Later candidates that make one group are equivalent to the group's first.
abbrev pub Agrees : DeiPeriodCandidate → DeiPeriodCandidate → Type 0
Agrees g c = candidates_equivalent g c ≡ ok true

group-Agrees :
    (cs : List DeiPeriodCandidate) (g c : DeiPeriodCandidate)
    → group_candidates (g ∷ []) cs ≡ ok (c ∷ [])
    → (c ≡ g) × All (Agrees g) cs
unfolding group_candidates place
group-Agrees [] g c h = (cc, tt)
group-Agrees (d ∷ cs) g c h =
    let (placed, e1, h1) = >>=-eq-ok (place d (g ∷ [])) _ h in
    let (same, e2, h2) = >>=-eq-ok (candidates_equivalent g d) _ e1 in
    elim (Bool-cases same) [
      | inl t ↦
          let p : g ∷ [] ≡ placed = cc (rw t at h2) in
          let (q, r) =
            group-Agrees cs g c (subst (λ x. group_candidates x cs ≡ ok (c ∷ [])) (sym p) h1) in
          (q, (subst (λ s. candidates_equivalent g d ≡ ok s) t e2, r))
      | inr t ↦
          let p : g ∷ d ∷ [] ≡ placed = cc (rw t at h2) in
          let (x, (y, (r, e))) =
            group-Several cs g d [] (c ∷ [])
              (subst (λ x. group_candidates x cs ≡ ok (c ∷ [])) (sym p) h1) in
          absurd (cc e)
    ]

no_groups : {c : DeiPeriodCandidate} → group_candidates [] [] ≡ ok (c ∷ []) → [] ≡ c ∷ []
unfolding group_candidates
no_groups h = cc

one_placed :
    (d : DeiPeriodCandidate) (ds : List DeiPeriodCandidate) (c : DeiPeriodCandidate)
    → group_candidates [] (d ∷ ds) ≡ ok (c ∷ [])
    → group_candidates (d ∷ []) ds ≡ ok (c ∷ [])
unfolding group_candidates place
one_placed d ds c h = h

-- Where the period is read from a candidate, that candidate is the filer's first, and every other
-- candidate of the filer is equivalent to it: same context, same stated end, and that end is the
-- end of the context.
pub chosen_candidate-Agrees :
    (candidates : List DeiPeriodCandidate) (filing_cik : String) (c : DeiPeriodCandidate)
    → chosen_candidate candidates filing_cik ≡ ok c
    → (cik : String) × ((validate_cik filing_cik ≡ ok cik)
        × ((others : List DeiPeriodCandidate) × ((filter_candidates cik candidates
                ≡ ok (c ∷ others))
              × All (Agrees c) others)))
unfolding chosen_candidate
chosen_candidate-Agrees candidates filing_cik c h =
    let (_, e0, h0) =
      >>=-eq-ok
        (raise_if (no_candidates candidates)
          (required_period_error "no undimensioned dei:DocumentPeriodEndDate fact"))
        _ h in
    let (cik, e1, h1) = >>=-eq-ok (validate_cik filing_cik) _ h0 in
    let (filtered, e2, h2) = >>=-eq-ok (filter_candidates cik candidates) _ h1 in
    let (groups, e3, h3) = >>=-eq-ok (group_candidates [] filtered) _ h2 in
    let g = one_group groups h3 in
    let (rest, e4, a) =
      from_groups filtered (subst (λ l. group_candidates [] filtered ≡ ok l) g e3) in
    (cik, (e1, (rest, (e2 ∙ ap ok e4, a))))
  where
    one_group : (groups : List DeiPeriodCandidate) → single groups ≡ ok c → groups ≡ c ∷ []
    one_group [] h = absurd (cc h)
    one_group (g ∷ []) h = cc
    one_group (g ∷ k ∷ l) h = absurd (cc h)

    from_groups :
        (filtered : List DeiPeriodCandidate)
        → group_candidates [] filtered ≡ ok (c ∷ [])
        → (rest : List DeiPeriodCandidate) × (filtered ≡ c ∷ rest) × All (Agrees c) rest
    from_groups [] h = absurd (cc (no_groups h))
    from_groups (d ∷ ds) h =
        let (q, a) = group-Agrees ds d c (one_placed d ds c h) in
        (ds, ap (λ x. x ∷ ds) (sym q), subst (λ x. All (Agrees x) ds) (sym q) a)
