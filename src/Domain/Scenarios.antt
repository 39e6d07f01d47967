-- ===== src/Domain/Scenarios.antt =====
-- Identifiers of src/edgar/domain/identifiers.py, to which its theorems are applied.
use edgar.Prelude.{◌<◌, ◌≡◌, refl, some, true, String, List, [], ok, length}
use edgar.Prelude.Text.{
  strip, is_empty, str_length, all_chars, int_from, is_digit, is_ascii_digit, zero_padded,
  digit_value,
}
use edgar.Domain.Identifiers.{
  validate_cik, validate_accession, accession_to_cik, validate_logical_path, split_slash,
}
use edgar.Domain.Identifiers.Cik.{validate_cik-normal}
use edgar.Domain.Identifiers.Paths.{walk, validate_logical_path-below_root}

short_cik : validate_cik "320193" ≡ ok "0000320193"
unfolding validate_cik is_digit int_from digit_value zero_padded strip is_empty
short_cik = refl

long_cik : validate_cik "0000320193" ≡ ok "0000320193"
unfolding validate_cik is_digit int_from digit_value zero_padded strip is_empty
long_cik = refl

accession_cik : accession_to_cik "0000320193-24-000123" ≡ ok "0000320193"
unfolding accession_to_cik validate_accession is_digit strip is_empty
accession_cik = refl

logical_path : validate_logical_path "raw/filing.txt" ≡ ok "raw/filing.txt"
unfolding validate_logical_path split_slash is_empty
logical_path = refl

validate_cik-normal_example :
    (str_length "0000320193" ≡ 10)
    × (all_chars is_ascii_digit "0000320193" ≡ true)
    × (int_from 0 "0000320193" ≡ int_from 0 "320193")
    × (validate_cik "0000320193" ≡ ok "0000320193")
validate_cik-normal_example = validate_cik-normal "320193" "0000320193" short_cik

validate_logical_path-below_root_example :
    (◌≡◌ {A = String} "raw/filing.txt" "raw/filing.txt")
    × ((ends : List String) × (walk [] (split_slash "raw/filing.txt") ≡ some ends)
        × (length ends ≡ length (split_slash "raw/filing.txt"))
        × (0 < length ends))
validate_logical_path-below_root_example =
    validate_logical_path-below_root "raw/filing.txt" "raw/filing.txt" logical_path
