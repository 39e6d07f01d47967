-- ===== src/Financials/Quality/Loop.antt =====
-- src/edgar/financials/quality.py: the loop of build_quality_document over the observations.
use edgar.Prelude.{
  ℕ, suc, ◌+◌, ◌≡◌, inl, inr, sym, ap, ◌∙◌, arith, true, not, ◌&&◌, List, [], ◌∷◌, Option, String,
  ok, raise_if-then, >>=-eq-ok, ok_injective, quality_report_error, ◌==◌, string_eq, All, sum_by,
  length, Bool-cases,
}
use edgar.Prelude.Dict.{alter, All-alter, pair_eq}
use edgar.Financials.Models.{ParsedUri, Observation}
use edgar.Financials.Decisions.{LoadedDecision}
use edgar.Financials.Select.{is_annual}
use edgar.Financials.Quality.{FilingFrame, frame_or, slot_decision_applicable}
use edgar.Financials.Quality.Cells.{
  QualityCell, CellKey, Counting, Cells, new_cell, key_of, is_value, count_slot, count_applicable,
  count_label, label_or_na, no_cells, count_observation, count_all,
}
use edgar.Financials.Quality.Partition.{
  Counted, slot-Slotted, labelled-Counted, count_label-OneLabel,
}

-- An advance of a cell: it keeps the counters added up, and counts one slot.
abbrev Advances : (QualityCell → QualityCell) → Type 0
Advances f = (c : QualityCell) → Counted c → Counted (f c) × ((f c).n_slots ≡ suc c.n_slots)

abbrev pub AllCounted : Cells → Type 0
AllCounted = All (λ (kc : CellKey × QualityCell). Counted kc.1)

abbrev pub slots : Cells → ℕ
slots = sum_by (λ (kc : CellKey × QualityCell). kc.1.n_slots)

new_cell-Counted : (key : CellKey) → Counted (new_cell key)
new_cell-Counted key = ground arith

slots-alter :
    (key : CellKey) (f : QualityCell → QualityCell)
    → Advances f
    → (cells : Cells) → AllCounted cells
    → slots (alter key (new_cell key) f cells) ≡ suc (slots cells)
unfolding alter
slots-alter key f a [] h = let k = (a (new_cell key) (new_cell-Counted key)).1 in omega arith
slots-alter key f a ((k, c) ∷ cells) h = elim (Bool-cases (k == key)) [
  | inl e ↦ let n = (a c h.0).1 in rw e (omega arith)
  | inr e ↦ let n = slots-alter key f a cells h.1 in rw e (omega arith)
]

module _ (urlparse : String → ParsedUri) where
  slot_decision_applicable-annual :
      (frame : FilingFrame) (metric : String) (decisions : List LoadedDecision)
      → slot_decision_applicable urlparse frame metric decisions ≡ ok true
      → is_annual frame.form ≡ true
  unfolding slot_decision_applicable
  slot_decision_applicable-annual frame metric decisions h =
      elim (Bool-cases (is_annual frame.form)) [
        | inl e ↦ e
        | inr e ↦ absurd (cc (ok_injective (rw e at h)))
      ]

  module _ (filings : String → Option FilingFrame) (decisions : List LoadedDecision)
      (oracle_by_slot : String → String → Option String) where
    count_observation-Counted :
        (o : Observation) (s next : Counting)
        → AllCounted s.cells
        → count_observation urlparse filings decisions oracle_by_slot o s ≡ ok next
        → AllCounted next.cells × (slots next.cells ≡ suc (slots s.cells))
    unfolding count_observation
    count_observation-Counted o s next h run =
        let frame = frame_or o (filings o.accession) in
        let (applicable, a, h1) =
          >>=-eq-ok (slot_decision_applicable urlparse frame o.metric decisions) _ run in
        let (no_raise, h2) =
          raise_if-then (is_value o.status && not applicable)
            (quality_report_error "published value without an applicable decision") _ h1 in
        let (label, l, h3) =
          >>=-eq-ok (count_label (label_or_na (oracle_by_slot o.accession o.metric))) _ h2 in
        let annual : applicable ≡ true → is_annual frame.form ≡ true =
          λ e. slot_decision_applicable-annual frame o.metric decisions (a ∙ ap ok e) in
        let one =
          count_label-OneLabel (label_or_na (oracle_by_slot o.accession o.metric)) label l in
        let f : QualityCell → QualityCell =
          λ c. label (count_applicable applicable (count_slot (is_annual frame.form) o c)) in
        let advances : Advances f = λ c k.
          labelled-Counted label one c
            (count_applicable applicable (count_slot (is_annual frame.form) o c)) k
            (slot-Slotted (is_annual frame.form) applicable o no_raise annual c k.0) in
        let key = key_of frame o.metric in
        let cells : next.cells ≡ alter key (new_cell key) f s.cells =
          ap (λ (n : Counting). n.cells) (sym (ok_injective h3)) in
        rw cells (
          All-alter (λ _ c. Counted c) key (new_cell key) f s.cells
              (advances (new_cell key) (new_cell-Counted key)).0 (λ v k. (advances v k).0) h,
          slots-alter key f advances s.cells h,
        )

    count_from-Counted :
        (observations : List Observation) (s end : Counting)
        → AllCounted s.cells
        → count_all urlparse filings decisions oracle_by_slot observations s ≡ ok end
        → AllCounted end.cells × (slots end.cells ≡ length observations + slots s.cells)
    unfolding count_all
    count_from-Counted [] s end h run =
        let e = ap (λ (n : Counting). n.cells) (sym (ok_injective run)) in rw e (h, omega arith)
    count_from-Counted (o ∷ observations) s end h run =
        let (next, step, rest) =
          >>=-eq-ok (count_observation urlparse filings decisions oracle_by_slot o s) _ run in
        let (h', n) = count_observation-Counted o s next h step in
        let (all, m) = count_from-Counted observations next end h' rest in (all, omega arith)

    -- When the loop over the observations ends, in each cell the statuses of the eligible slots, the
    -- labels of the oracle and the reasons add up to their totals, no more values are published than
    -- slots have an applicable decision, and no more of those than are eligible; and the cells count
    -- each observation once.
    pub count_all-Counted :
        (observations : List Observation) (end : Counting)
        → count_all urlparse filings decisions oracle_by_slot observations no_cells ≡ ok end
        → AllCounted end.cells × (slots end.cells ≡ length observations)
    count_all-Counted observations end run =
        let (all, n) = count_from-Counted observations no_cells end tt run in (all, omega arith)
