-- ===== src/Financials/Quality/Tallies.antt =====
-- src/edgar/financials/quality.py: the identities and the rows of the quality report. `quotient` is
-- `format(Decimal(n) / Decimal(d), "f")`.
use edgar.Prelude.{
  ℕ, suc, ◌+◌, ◌-◌, Bool, not, ◌&&◌, List, [], ◌∷◌, Option, none, some, String, Result, ok, err,
  raise_if, quality_report_error, ◌>>=◌, ◌>>◌, ◌==◌, string_eq, nat_beq, leb, ltb, if◌then◌else◌,
}
use edgar.Prelude.Text.{is_empty, leb_string}
use edgar.Prelude.Dict.{entry, alter, pair_eq, leb_tuple}
use edgar.Financials.Quality.Cells.{QualityCell, CellKey, Cells}

-- `_identity_counts`: the mapping of a finding has an accession and a status.
pub record IdentityFinding : Type 0 where
  pub accession : Option String
  pub status : Option String

pub record IdentityCounts : Type 0 where
  pub passed : ℕ
  pub failed : ℕ
  pub na : ℕ

abbrev no_counts : IdentityCounts
no_counts = record { passed = 0; failed = 0; na = 0 }

abbrev count_pass : IdentityCounts → IdentityCounts
count_pass c = record c { passed = suc c.passed }

abbrev count_fail : IdentityCounts → IdentityCounts
count_fail c = record c { failed = suc c.failed }

abbrev count_na : IdentityCounts → IdentityCounts
count_na c = record c { na = suc c.na }

abbrev or_empty : Option String → String
or_empty none = ""
or_empty (some s) = s

abbrev count_identity : String → Result (IdentityCounts → IdentityCounts)
count_identity status =
    if status == "pass"
    then ok count_pass
    else if status == "fail"
    then ok count_fail
    else if status == "not_applicable"
    then ok count_na
    else err (quality_report_error "unknown identity status")

abbrev pub Identities : Type 0
Identities = List (String × IdentityCounts)

unfoldable pub identity_counts : List IdentityFinding → Identities → Result Identities
identity_counts [] counts = ok counts
identity_counts (f ∷ findings) counts = do
  raise_if (is_empty (or_empty f.accession))
      (quality_report_error "identity finding is missing accession")
  count ← count_identity (or_empty f.status)
  identity_counts findings (alter (or_empty f.accession) no_counts count counts)

-- The loops over `cells.items()` and over the members of a cell.
abbrev counts_or : Option IdentityCounts → IdentityCounts
counts_or none = no_counts
counts_or (some c) = c

abbrev pub add_identity : Identities → List String → QualityCell → QualityCell
add_identity identity [] c = c
add_identity identity (accession ∷ accessions) c =
    let counts = counts_or (entry accession identity) in
    add_identity identity accessions (record c {
      identity_pass = c.identity_pass + counts.passed;
      identity_fail = c.identity_fail + counts.failed;
      identity_na = c.identity_na + counts.na;
    })

abbrev pub members_or : Option (List String) → List String
members_or none = []
members_or (some accessions) = accessions

abbrev pub add_identities : Identities → List (CellKey × List String) → Cells → Cells
add_identities identity members [] = []
add_identities identity members ((key, c) ∷ cells) =
    (key, add_identity identity (members_or (entry key members)) c)
    ∷ add_identities identity members cells

-- The counters of the statuses, of the labels and of the reasons add up.
unfoldable pub partitions : QualityCell → Bool
partitions c =
    nat_beq (((c.n_value + c.n_missing) + c.n_unsupported) + c.n_conflict) c.n_slot_eligible
    && (nat_beq (c.n_ineligible_wrong_form + c.n_slot_eligible) c.n_slots
        && (nat_beq
              ((((c.oracle_agree + c.oracle_differ) + c.oracle_absent) + c.oracle_ambiguous)
                + c.oracle_na)
              c.n_slots
            && nat_beq (c.n_reason_decision_scope + c.n_reason_other_unsupported) c.n_unsupported))

abbrev leb_key : CellKey → CellKey → Bool
leb_key = leb_tuple (leb_tuple (leb_tuple leb_string))

abbrev pub leb_entry : CellKey × QualityCell → CellKey × QualityCell → Bool
leb_entry a b = leb_key a.0 b.0

module _ (quotient : ℕ → ℕ → String) where
  unfoldable pub rate : ℕ → ℕ → Option String
  rate numerator denominator =
      if nat_beq denominator 0 then none else some (quotient numerator denominator)

  abbrev pub finished : QualityCell → QualityCell
  finished c = record c {
    n_no_applicable_decision = c.n_slot_eligible - c.n_decision_applicable;
    publication_rate = rate c.n_value c.n_slot_eligible;
    selector_yield = rate c.n_value c.n_decision_applicable;
  }

  -- The body of the loop over the sorted keys.
  unfoldable pub row_of : QualityCell → Result QualityCell
  row_of c = do
    raise_if (not (partitions c)) (quality_report_error "does not partition its denominators")
    raise_if
        (not (leb c.n_decision_applicable c.n_slot_eligible && leb c.n_slot_eligible c.n_slots))
        (quality_report_error "breaks eligibility bounds")
    raise_if (ltb c.n_decision_applicable c.n_value)
        (quality_report_error "publishes more values than applicable decisions")
    ok (finished c)

  unfoldable pub rows_of : Cells → Result (List QualityCell)
  rows_of [] = ok []
  rows_of ((key, c) ∷ cells) = do row ← row_of c; rows ← rows_of cells; ok (row ∷ rows)
