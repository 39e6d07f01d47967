-- ===== src/Registry/Interval/Scenarios.antt =====
-- Scopes of src/edgar/registry/interval.py: an issuer's mapping until day 700000, and a global one
-- from day 700000.
use edgar.Prelude.{ℕ, ◌≤◌, ◌≡◌, ◌↔◌, none, some, true, String, arith}
use edgar.Registry.Interval.{
  date_min, date_max, Scope, global, issuer, scopes_overlap, applies_to, IsRange,
  scopes_overlap_iff,
}

until_IsRange : IsRange none (some 700000)
until_IsRange = record { from_in = tt; to_in = (omega arith, omega arith); ordered = tt }

from_IsRange : IsRange (some 700000) none
from_IsRange = record { from_in = (omega arith, omega arith); to_in = tt; ordered = tt }

abbrev old_scope : Scope
old_scope = record {
  kind = issuer;
  issuer_cik = some "0000320193";
  valid_from = none;
  valid_to = some 700000;
}

abbrev new_scope : Scope
new_scope = record { kind = global; issuer_cik = none; valid_from = some 700000; valid_to = none }

scopes_overlap_iff_example : (scopes_overlap old_scope new_scope ≡ true) ↔ (
    (cik : String) × (d : ℕ) × (date_min ≤ d)
    × (d ≤ date_max)
    × (applies_to old_scope cik d ≡ true)
    × (applies_to new_scope cik d ≡ true))
scopes_overlap_iff_example =
    scopes_overlap_iff old_scope new_scope (record { issuer_given = tt; range = until_IsRange })
      (record { issuer_given = tt; range = from_IsRange })
