-- ===== src/Financials/Decimals/Reduction.antt =====
-- What `oim_reduce_group` of src/edgar/financials/decimals.py returns: when a group of duplicate
-- facts is consistent, and which value it publishes then.
use edgar.Prelude.{
  ◌≡◌, ◌≢◌, refl, sym, ◌∙◌, ap, Bool, true, false, not, ◌&&◌, List, [], ◌∷◌, Option, none, some,
  map, any, arith, and_true, Bool-cases, Option-cases, inl, inr, ◌↔◌, In, All, All-In, All-of_In,
  any→In, In→any, leb, sort_by,
}
use edgar.Prelude.Decimal.{Le_trans}
use edgar.Financials.Decimals.{
  ClosedInterval, intersects, intersection, Occurrence, OimResolution, interval, clash,
  reduce_parsed, conclude, clashes, before,
}
use edgar.Financials.Decimals.Intervals.{
  Inside, Proper, interval_of-Proper, intersection-Inside, intersection-some, PairwiseIntersect,
  intersects-intro,
}
use edgar.Financials.Decimals.Survivor.{
  survivor, survivor-In, survivor_least, survivor-SameMembers, DistinctIds, SameMembers,
}

-- Two duplicates agree: their intervals meet, and equal decimals have equal values.
abbrev pub agree : Occurrence → Occurrence → Bool
agree a b = intersects (interval a) (interval b) && not (clash a b)

intervals-Proper : (os : List Occurrence) → All Proper (map interval os)
intervals-Proper [] = tt
intervals-Proper (o ∷ os) = (interval_of-Proper o.fact.value o.precision, intervals-Proper os)

All-map :
    (P : ClosedInterval → Type 0) (os : List Occurrence)
    → All P (map interval os)
    → All (λ o. P (interval o)) os
All-map P [] h = tt
All-map P (o ∷ os) h = (h.0, All-map P os h.1)

map-All :
    (P : ClosedInterval → Type 0) (os : List Occurrence)
    → All (λ o. P (interval o)) os
    → All P (map interval os)
map-All P [] h = tt
map-All P (o ∷ os) h = (h.0, map-All P os h.1)

conclude-some :
    (m : Option ClosedInterval) (c : Bool) (s : Occurrence) (os : List Occurrence)
    (r : OimResolution)
    → conclude m c s os ≡ some r
    → (m ≡ some r.consistent_interval)
      × (c ≡ false)
      × (r.survivor_fact_id ≡ s.fact.fact_id)
      × (r.survivor_value ≡ s.fact.value)
      × (r.survivor_decimals ≡ s.fact.decimals)
      × (r.fact_ids ≡ sort_by leb (map (λ (p : Occurrence). p.fact.fact_id) os))
unfolding conclude
conclude-some none c s os r h = absurd (cc h)
conclude-some (some i) true s os r h = absurd (cc h)
conclude-some (some i) false s os r h = ground arith

-- A group of duplicates that is accepted has a common interval that is not empty and lies inside
-- the interval of each of its facts, and so does the published value, up to the tolerance of the
-- fact that it is taken from: that fact is one of the group, and none ranks before it.
pub reduce_parsed_sound :
    (o : Occurrence) (os : List Occurrence) (r : OimResolution)
    → reduce_parsed (o ∷ os) ≡ some r
    → Proper r.consistent_interval
      × All (λ p. Inside r.consistent_interval (interval p)) (o ∷ os)
      × ((s : Occurrence) × In s (o ∷ os)
          × All (λ p. before s p ≡ true) (o ∷ os)
          × (r.survivor_value ≡ s.fact.value)
          × (r.survivor_decimals ≡ s.fact.decimals)
          × (r.survivor_fact_id ≡ s.fact.fact_id))
unfolding reduce_parsed
reduce_parsed_sound o os r h =
    let (m, _, id, v, d, _) =
      conclude-some (intersection (interval o) (map interval os)) (clashes (o ∷ os)) (survivor o os)
        (o ∷ os) r h in
    let (proper, first, others) =
      intersection-Inside (interval o) (map interval os) r.consistent_interval
        (interval_of-Proper o.fact.value o.precision) (intervals-Proper os) m in
    (
      proper,
      (first, All-map (Inside r.consistent_interval) os others),
      (
        survivor o os,
        survivor-In o os,
        All-of_In (λ p. before (survivor o os) p ≡ true) (o ∷ os) (survivor_least o os),
        v,
        d,
        id,
      ),
    )

no_clash :
    (os : List Occurrence)
    → clashes os ≡ false
    → (a b : Occurrence) → In a os
    → In b os
    → clash a b ≡ false
no_clash os h a b i j = elim (Bool-cases (clash a b)) [
  | inl c ↦ absurd (cc (h, In→any (λ f. any (clash f) os) os a i (In→any (clash a) os b j c)))
  | inr c ↦ c
]

Inside-intersects :
    (r a b : ClosedInterval) → Proper r → Inside r a → Inside r b → intersects a b ≡ true
Inside-intersects r a b p h k =
    intersects-intro a b (Le_trans a.lo r.lo b.hi h.above (Le_trans r.lo r.hi b.hi p k.below))
      (Le_trans b.lo r.lo a.hi k.above (Le_trans r.lo r.hi a.hi p h.below))

agree-intro :
    (a b : Occurrence)
    → intersects (interval a) (interval b) ≡ true
    → clash a b ≡ false
    → agree a b ≡ true
agree-intro a b h k = rw (h, k)

agree_of_accepted :
    (o : Occurrence) (os : List Occurrence) (r : OimResolution)
    → reduce_parsed (o ∷ os) ≡ some r
    → (a b : Occurrence) → In a (o ∷ os)
    → In b (o ∷ os)
    → agree a b ≡ true
unfolding reduce_parsed
agree_of_accepted o os r h a b i j =
    let (p, ins, _) = reduce_parsed_sound o os r h in
    let (_, c, _, _, _, _) =
      conclude-some (intersection (interval o) (map interval os)) (clashes (o ∷ os)) (survivor o os)
        (o ∷ os) r h in
    let P = λ (x : Occurrence). Inside r.consistent_interval (interval x) in
    agree-intro a b
      (Inside-intersects r.consistent_interval (interval a) (interval b) p
        (All-In P (o ∷ os) ins a i) (All-In P (o ∷ os) ins b j))
      (no_clash (o ∷ os) c a b i j)

pairwise_of_agree :
    (os : List Occurrence)
    → ((a b : Occurrence) → In a os → In b os → agree a b ≡ true)
    → PairwiseIntersect (map interval os)
pairwise_of_agree [] f = tt
pairwise_of_agree (o ∷ os) f = (
  map-All (λ i. intersects (interval o) i ≡ true) os
      (All-of_In (λ a. intersects (interval o) (interval a) ≡ true) os
        (λ a i. agree-parts o a (f o a (inl refl) (inr i)))),
  pairwise_of_agree os (λ a b i j. f a b (inr i) (inr j)),
)
  where
    agree-parts :
        (a b : Occurrence) → agree a b ≡ true → intersects (interval a) (interval b) ≡ true
    agree-parts a b h = (and_true (intersects (interval a) (interval b)) (not (clash a b)) h).0

clashes_of_agree :
    (os : List Occurrence)
    → ((a b : Occurrence) → In a os → In b os → agree a b ≡ true)
    → clashes os ≡ false
clashes_of_agree os f = elim (Bool-cases (clashes os)) [
  | inl h ↦
      let (a, i, k) = any→In (λ f. any (clash f) os) os h in
      let (b, j, c) = any→In (clash a) os k in
      let n = (and_true (intersects (interval a) (interval b)) (not (clash a b)) (f a b i j)).1 in
      absurd (cc (rw c at n))
  | inr h ↦ h
]

accepted_of_agree :
    (o : Occurrence) (os : List Occurrence)
    → ((a b : Occurrence) → In a (o ∷ os) → In b (o ∷ os) → agree a b ≡ true)
    → reduce_parsed (o ∷ os) ≢ none
unfolding reduce_parsed conclude
accepted_of_agree o os f h =
    let (r, e) = intersection-some (interval o) (map interval os) (pairwise_of_agree (o ∷ os) f) in
    absurd (cc (rw (e, clashes_of_agree (o ∷ os) f) at h))

-- A group of duplicates, one or more, is rejected exactly when two of its facts disagree: their
-- intervals are disjoint, or they state the same decimals and different values. (That pairwise
-- agreement is enough is Helly's theorem on a line.)
pub reduce_parsed-none_iff :
    (o : Occurrence) (os : List Occurrence)
    → (reduce_parsed (o ∷ os) ≡ none)
      ↔ ((a : Occurrence) × (b : Occurrence) × In a (o ∷ os) × In b (o ∷ os) × (agree a b ≡ false))
reduce_parsed-none_iff o os = (
  λ h. find_pair h,
  λ (a, b, i, j, d). elim (Option-cases (reduce_parsed (o ∷ os))) [
    | inl e ↦ e
    | inr (r, e) ↦ absurd (cc (d, agree_of_accepted o os r e a b i j))
  ],
)
  where
    l : List Occurrence
    l = o ∷ os

    disagree : Occurrence → Occurrence → Bool
    disagree a b = not (agree a b)

    all_agree :
        any (λ a. any (disagree a) l) l ≡ false
        → (a b : Occurrence) → In a l
        → In b l
        → agree a b ≡ true
    all_agree h a b i j = elim (Bool-cases (agree a b)) [
      | inl e ↦ e
      | inr e ↦
          absurd (cc (h, In→any (λ x. any (disagree x) l) l a i (In→any (disagree a) l b j (rw e))))
    ]

    find_pair :
        reduce_parsed (o ∷ os) ≡ none
        → (a : Occurrence) × (b : Occurrence) × In a l × In b l × (agree a b ≡ false)
    find_pair h = elim (Bool-cases (any (λ a. any (disagree a) l) l)) [
      | inl t ↦
          let (a, i, k) = any→In (λ a. any (disagree a) l) l t in
          let (b, j, c) = any→In (disagree a) l k in (a, b, i, j, ground arith)
      | inr t ↦ absurd (accepted_of_agree o os (all_agree t) h)
    ]

-- The order in which the facts are given does not matter: when no two facts share an id, a list with
-- the same facts is accepted as well, and the same fact, value and decimals are published.
pub reduce_parsed-order_independent :
    (o p : Occurrence) (os ps : List Occurrence) (r : OimResolution)
    → SameMembers (o ∷ os) (p ∷ ps)
    → DistinctIds (o ∷ os)
    → reduce_parsed (o ∷ os) ≡ some r
    → (q : OimResolution) × (reduce_parsed (p ∷ ps) ≡ some q)
      × (q.survivor_fact_id ≡ r.survivor_fact_id)
      × (q.survivor_value ≡ r.survivor_value)
      × (q.survivor_decimals ≡ r.survivor_decimals)
unfolding reduce_parsed
reduce_parsed-order_independent o p os ps r same distinct h =
    elim (Option-cases (reduce_parsed (p ∷ ps))) [
      | inl e ↦
          let (a, b, i, j, d) = (reduce_parsed-none_iff p ps).0 e in
          absurd (cc (d, agree_of_accepted o os r h a b ((same a).1 i) ((same b).1 j)))
      | inr (q, e) ↦
          let (_, _, id, v, d, _) =
            conclude-some (intersection (interval o) (map interval os)) (clashes (o ∷ os))
              (survivor o os) (o ∷ os) r h in
          let (_, _, id', v', d', _) =
            conclude-some (intersection (interval p) (map interval ps)) (clashes (p ∷ ps))
              (survivor p ps) (p ∷ ps) q e in
          let s = survivor-SameMembers o p os ps same distinct in
          (
            q,
            e,
            id' ∙ ap (λ (x : Occurrence). x.fact.fact_id) (sym s) ∙ sym id,
            v' ∙ ap (λ (x : Occurrence). x.fact.value) (sym s) ∙ sym v,
            d' ∙ ap (λ (x : Occurrence). x.fact.decimals) (sym s) ∙ sym d,
          )
    ]
