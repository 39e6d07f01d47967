-- ===== src/Financials/Quality/Rows.antt =====
-- src/edgar/financials/quality.py: the rows of the report, none of which is refused.
use edgar.Prelude.{
  ℕ, ◌+◌, ◌≤◌, ◌≡◌, refl, sym, ap, ◌∙◌, arith, true, false, List, [], ◌∷◌, Option, String, ok,
  >>=-eq-ok, ok_injective, All, All-sort_by, sum_by, sum_by-sort_by, length, string_eq, nat_beq_iff,
  ltb, le→leb,
}
use edgar.Prelude.Dict.{entry, pair_eq}
use edgar.Financials.Models.{ParsedUri, Observation}
use edgar.Financials.Decisions.{LoadedDecision}
use edgar.Financials.Taxonomy.{qname_census}
use edgar.Financials.Quality.{FilingFrame}
use edgar.Financials.Quality.Cells.{QualityCell, CellKey, Counting, Cells, no_cells, count_all}
use edgar.Financials.Quality.Tallies.{
  Identities, identity_counts, add_identity, add_identities, members_or, leb_entry, partitions,
  row_of, rows_of, finished,
}
use edgar.Financials.Quality.Document.{
  QualityDocument, QualityInputs, document_of, OracleFinding, normalize_oracle_findings,
  sorted_cells, build_quality_document,
}
use edgar.Financials.Quality.Partition.{Counted}
use edgar.Financials.Quality.Loop.{AllCounted, slots, count_all-Counted}

add_identity-Counted :
    (identity : Identities) (accessions : List String) (c : QualityCell)
    → Counted c
    → Counted (add_identity identity accessions c)
      × ((add_identity identity accessions c).n_slots ≡ c.n_slots)
add_identity-Counted identity [] c h = (h, refl)
add_identity-Counted identity (a ∷ accessions) c h = add_identity-Counted identity accessions _ h

add_identities-Counted :
    (identity : Identities) (members : List (CellKey × List String)) (cells : Cells)
    → AllCounted cells
    → AllCounted (add_identities identity members cells)
      × (slots (add_identities identity members cells) ≡ slots cells)
add_identities-Counted identity members [] h = (tt, refl)
add_identities-Counted identity members ((key, c) ∷ cells) h =
    let (now, n) = add_identity-Counted identity (members_or (entry key members)) c h.0 in
    let (rest, m) = add_identities-Counted identity members cells h.1 in ((now, rest), omega arith)

pub sorted_cells-Counted :
    (identity : Identities) (s : Counting)
    → AllCounted s.cells
    → AllCounted (sorted_cells identity s) × (slots (sorted_cells identity s) ≡ slots s.cells)
sorted_cells-Counted identity s h =
    let (all, n) = add_identities-Counted identity s.members s.cells h in
    (
      All-sort_by (λ (kc : CellKey × QualityCell). Counted kc.1) leb_entry _ all,
      sum_by-sort_by (λ (kc : CellKey × QualityCell). kc.1.n_slots) leb_entry _ ∙ n,
    )

partitions-Counted : (c : QualityCell) → Counted c → partitions c ≡ true
unfolding partitions
partitions-Counted c h =
    rw
      (
        (nat_beq_iff _ c.n_slot_eligible).1 h.0.0,
        (nat_beq_iff _ c.n_slots).1 h.0.1,
        (nat_beq_iff _ c.n_slots).1 h.1,
        (nat_beq_iff _ c.n_unsupported).1 h.0.2,
      )
      refl

-- A row of the report: its counters add up and are bounded, and the rest of the eligible slots has
-- no applicable decision.
abbrev pub IsRow : QualityCell → Type 0
IsRow row =
    Counted row
    × (row.n_no_applicable_decision + row.n_decision_applicable ≡ row.n_slot_eligible)
    × (row.n_slot_eligible ≤ row.n_slots)

module _ (quotient : ℕ → ℕ → String) where
  row_of-Counted :
      (c : QualityCell)
      → Counted c
      → (row : QualityCell) × (row_of quotient c ≡ ok row) × IsRow row × (row.n_slots ≡ c.n_slots)
  unfolding row_of
  row_of-Counted c h =
      let in_bounds : ltb c.n_decision_applicable c.n_value ≡ false = ground arith in
      let applicable = le→leb c.n_decision_applicable c.n_slot_eligible h.0.3 in
      let eligible = le→leb c.n_slot_eligible c.n_slots (omega arith) in
      (
        finished quotient c,
        rw (partitions-Counted c h, applicable, eligible, in_bounds) refl,
        (h, omega arith, omega arith),
        refl,
      )

  rows_of-Counted :
      (cells : Cells)
      → AllCounted cells
      → (rows : List QualityCell) × (rows_of quotient cells ≡ ok rows)
        × All IsRow rows
        × (sum_by (λ (row : QualityCell). row.n_slots) rows ≡ slots cells)
  unfolding rows_of
  rows_of-Counted [] h = ([], refl, tt, refl)
  rows_of-Counted ((key, c) ∷ cells) h =
      let (row, r, ok_row, n) = row_of-Counted c h.0 in
      let (rows, rs, ok_rows, m) = rows_of-Counted cells h.1 in
      (row ∷ rows, rw (r, rs) refl, (ok_row, ok_rows), omega arith)

  module _ (urlparse : String → ParsedUri) (filings : String → Option FilingFrame)
      (decisions : List LoadedDecision) (oracle_by_slot : String → String → Option String) where
    -- In each row of a report that is built the counters add up to their totals, with no more values
    -- than applicable decisions, no more of those than eligible slots and no more of those than
    -- slots; and the rows count each observation once.
    pub build_quality_document-IsRow :
        (inputs : QualityInputs) (observations : List Observation) (document : QualityDocument)
        → build_quality_document quotient urlparse filings decisions oracle_by_slot inputs
            observations
          ≡ ok document
        → All IsRow document.cells
          × (sum_by (λ (row : QualityCell). row.n_slots) document.cells ≡ length observations)
    unfolding build_quality_document
    build_quality_document-IsRow inputs observations document run =
        let (counted, c, run1) =
          >>=-eq-ok (count_all urlparse filings decisions oracle_by_slot observations no_cells) _
            run in
        let (identity, _, run2) = >>=-eq-ok (identity_counts inputs.identity_findings []) _ run1 in
        let (rows, r, run3) = >>=-eq-ok (rows_of quotient (sorted_cells identity counted)) _ run2 in
        let (_, _, run4) = >>=-eq-ok (normalize_oracle_findings inputs.oracle_findings) _ run3 in
        let (_, _, run5) = >>=-eq-ok (qname_census inputs.census_facts) _ run4 in
        let (all, n) =
          count_all-Counted urlparse filings decisions oracle_by_slot observations counted c in
        let (all', n') = sorted_cells-Counted identity counted all in
        let (rows', r', are_rows, n'') = rows_of-Counted (sorted_cells identity counted) all' in
        let same : rows' ≡ document.cells =
          ok_injective (sym r' ∙ r) ∙ ap (λ (d : QualityDocument). d.cells) (ok_injective run5) in
        rw (sym same) (are_rows, n'' ∙ (n' ∙ n))

    -- The report is built unless an observation, a finding or a fact of the census is refused: once
    -- the observations and identities are counted and the other inputs read, no row is refused.
    pub build_quality_document_total :
        (inputs : QualityInputs) (observations : List Observation) (counted : Counting)
        (identity : Identities) (findings : List OracleFinding) (by_qname : List (String × ℕ))
        → count_all urlparse filings decisions oracle_by_slot observations no_cells ≡ ok counted
        → identity_counts inputs.identity_findings [] ≡ ok identity
        → normalize_oracle_findings inputs.oracle_findings ≡ ok findings
        → qname_census inputs.census_facts ≡ ok by_qname
        → (document : QualityDocument) × (build_quality_document quotient urlparse filings decisions
              oracle_by_slot inputs observations
            ≡ ok document)
    unfolding build_quality_document
    build_quality_document_total inputs observations counted identity findings by_qname c i f q =
        let (all, n) =
          count_all-Counted urlparse filings decisions oracle_by_slot observations counted c in
        let (all', n') = sorted_cells-Counted identity counted all in
        let (rows, r, _, _) = rows_of-Counted (sorted_cells identity counted) all' in
        (document_of urlparse inputs rows findings by_qname, rw (c, i, r, f, q) refl)
