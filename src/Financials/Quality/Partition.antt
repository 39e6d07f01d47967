-- ===== src/Financials/Quality/Partition.antt =====
-- src/edgar/financials/quality.py: the counters of the cells add up, so that no row is refused.
use edgar.Prelude.{
  ℕ, suc, ◌+◌, ◌≤◌, ◌≡◌, ◌⊎◌, inl, inr, refl, sym, arith, Bool, true, false, not, ◌&&◌, Option,
  none, some, String, ok, err, ok_injective, quality_report_error, ◌==◌, string_eq, if◌then◌else◌,
}
use edgar.Prelude.Dict.{pair_eq}
use edgar.Financials.Models.{
  Observation, ObservationStatus, ObservationReason, value, missing, unsupported, conflict,
  decision_scope, broader_only, wrong_form,
}
use edgar.Financials.Quality.Cells.{
  QualityCell, is_value, count_status, count_slot, count_applicable, count_label, agree, differ,
  absent, ambiguous, not_available,
}

-- The counters of statuses and reasons, and the bounds.
abbrev pub Balanced : QualityCell → Type 0
Balanced c =
    (((c.n_value + c.n_missing) + c.n_unsupported) + c.n_conflict ≡ c.n_slot_eligible)
    × (c.n_ineligible_wrong_form + c.n_slot_eligible ≡ c.n_slots)
    × (c.n_reason_decision_scope + c.n_reason_other_unsupported ≡ c.n_unsupported)
    × (c.n_decision_applicable ≤ c.n_slot_eligible)
    × (c.n_value ≤ c.n_decision_applicable)

abbrev pub labels : QualityCell → ℕ
labels c =
    (((c.oracle_agree + c.oracle_differ) + c.oracle_absent) + c.oracle_ambiguous) + c.oracle_na

abbrev pub Counted : QualityCell → Type 0
Counted c = Balanced c × (labels c ≡ c.n_slots)

-- The cell after a slot is counted: only its label is missing.
abbrev pub Slotted : QualityCell → QualityCell → Type 0
Slotted c next = Balanced next × (labels next ≡ labels c) × (next.n_slots ≡ suc c.n_slots)

status-Slotted :
    (applicable : Bool) (status : ObservationStatus) (reason : Option ObservationReason)
    → (is_value status && not applicable) ≡ false
    → (c : QualityCell) → Balanced c
    → Slotted c (
        count_applicable applicable (
          count_status status reason
            (record c { n_slots = suc c.n_slots; n_slot_eligible = suc c.n_slot_eligible })))
unfolding count_applicable
status-Slotted true value reason h c b = ground arith
status-Slotted false value reason h c b = absurd (cc h)
status-Slotted true missing reason h c b = ground arith
status-Slotted false missing reason h c b = ground arith
status-Slotted true conflict reason h c b = ground arith
status-Slotted false conflict reason h c b = ground arith
status-Slotted true unsupported none h c b = ground arith
status-Slotted false unsupported none h c b = ground arith
status-Slotted true unsupported (some decision_scope) h c b = ground arith
status-Slotted false unsupported (some decision_scope) h c b = ground arith
status-Slotted true unsupported (some broader_only) h c b = ground arith
status-Slotted false unsupported (some broader_only) h c b = ground arith
status-Slotted true unsupported (some wrong_form) h c b = ground arith
status-Slotted false unsupported (some wrong_form) h c b = ground arith

pub slot-Slotted :
    (eligible applicable : Bool) (o : Observation)
    → (is_value o.status && not applicable) ≡ false
    → (applicable ≡ true → eligible ≡ true)
    → (c : QualityCell) → Balanced c
    → Slotted c (count_applicable applicable (count_slot eligible o c))
unfolding count_slot count_applicable
slot-Slotted true applicable o h a c b = status-Slotted applicable o.status o.reason h c b
slot-Slotted false true o h a c b = absurd (cc (a refl))
slot-Slotted false false o h a c b = ground arith

-- The counters that a label may advance.
abbrev pub OneLabel : (QualityCell → QualityCell) → Type 0
OneLabel f = (f ≡ agree) ⊎ ((f ≡ differ) ⊎ ((f ≡ absent) ⊎ ((f ≡ ambiguous) ⊎ (f ≡ not_available))))

one_label :
    (a b c d e : Bool) (f : QualityCell → QualityCell)
    → (if a
        then ok agree
        else if b
        then ok differ
        else if c
        then ok absent
        else if d
        then ok ambiguous
        else if e
        then ok not_available
        else err (quality_report_error "unknown oracle label"))
      ≡ ok f
    → OneLabel f
one_label true b c d e f h = inl (sym (ok_injective h))
one_label false true c d e f h = inr (inl (sym (ok_injective h)))
one_label false false true d e f h = inr (inr (inl (sym (ok_injective h))))
one_label false false false true e f h = inr (inr (inr (inl (sym (ok_injective h)))))
one_label false false false false true f h = inr (inr (inr (inr (sym (ok_injective h)))))
one_label false false false false false f h = absurd (cc h)

pub count_label-OneLabel :
    (label : String) (f : QualityCell → QualityCell) → count_label label ≡ ok f → OneLabel f
unfolding count_label
count_label-OneLabel label f h =
    one_label (label == "agree") (label == "differ") (label == "absent") (label == "ambiguous")
      (label == "na") f h

pub labelled-Counted :
    (f : QualityCell → QualityCell)
    → OneLabel f
    → (c next : QualityCell) → Counted c
    → Slotted c next
    → Counted (f next) × ((f next).n_slots ≡ suc c.n_slots)
labelled-Counted f (inl e) c next h s = rw e (ground arith)
labelled-Counted f (inr (inl e)) c next h s = rw e (ground arith)
labelled-Counted f (inr (inr (inl e))) c next h s = rw e (ground arith)
labelled-Counted f (inr (inr (inr (inl e)))) c next h s = rw e (ground arith)
labelled-Counted f (inr (inr (inr (inr e)))) c next h s = rw e (ground arith)
