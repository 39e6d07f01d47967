-- ===== src/Domain/Bundle/Codec/Readback.antt =====
-- src/edgar/domain/bundle.py: what `to_dict` writes of a bundle, `from_dict` reads back.
use edgar.Prelude.{
  not-false, ◌≡◌, refl, ap, ◌∙◌, subst, true, false, not, ◌||◌, List, [], ◌∷◌, Option, none, some,
  String, ok, raise_if-then, ok_injective, >>=-eq-ok, value_error, ◌==◌, string_eq, beq_refl, All,
  All-map,
}
use edgar.Prelude.Text.{is_empty}
use edgar.Prelude.Json.{text, items_of, decode_items-items_of, nullable_to_json}
use edgar.Domain.Decode.{require_str, require_canonical-iso, contains}
use edgar.Domain.Identifiers.{validate_cik, validate_accession, assert_cik_accession_consistent}
use edgar.Domain.Bundle.{
  FilingIdentity, BundleArtifact, UriBinding, XbrlReportInput, instance_input, ixds_input,
  FilingBundle, BundleLibrary, artifact_kinds, build_content, build_artifact, build_binding,
  build_filing, build_report_input, build_bundle, has_duplicates, is_nil, has_separator,
  supported_forms, naive,
}
use edgar.Domain.Bundle.Structure.{
  assert_canonical_serialized_cik, assert_canonical_serialized_accession,
}
use edgar.Domain.Bundle.Codec.{
  strings_to_json, require_strings, artifact_to_dict, artifact_from_dict, binding_to_dict,
  binding_from_dict, report_input_to_dict, report_input_from_dict, require_date,
  require_nullable_date, require_nullable_time, filing_to_dict, filing_from_dict, artifacts_of,
  reports_of, bindings_of, bundle_to_dict, bundle_from_dict,
}
use edgar.Storage.Objects.{is_digest}

All-refl : (l : List String) → All (λ s. require_str (text s) ≡ ok s) l
All-refl [] = tt
All-refl (x ∷ xs) = (refl, All-refl xs)

require_strings-strings_to_json : (l : List String) → require_strings (strings_to_json l) ≡ ok l
unfolding require_strings strings_to_json
require_strings-strings_to_json l = decode_items-items_of require_str text l (All-refl l)

default_target :
    (uris : List String) (target : String)
    → build_report_input (ixds_input uris target) ≡ ok (ixds_input uris target)
    → not (target == "default") ≡ false
unfolding build_report_input
default_target uris target h =
    let (k1, h1) =
      raise_if-then (is_nil uris) (value_error "IxdsReportInput requires at least one document URI")
        _ h in
    let (k2, h2) =
      raise_if-then (has_duplicates uris)
        (value_error "IxdsReportInput document_uris must be unique") _ h1 in
    (raise_if-then (not (target == "default"))
      (value_error "Phase 1 only supports target='default'") _ h2).0

pub report_input_from_dict-report_input_to_dict :
    (r : XbrlReportInput)
    → build_report_input r ≡ ok r
    → report_input_from_dict (report_input_to_dict r) ≡ ok r
unfolding report_input_from_dict report_input_to_dict
report_input_from_dict-report_input_to_dict (instance_input uris) h =
    rw (require_strings-strings_to_json uris) h
report_input_from_dict-report_input_to_dict (ixds_input uris target) h =
    let d = default_target uris target h in
    let e = (string_eq.equal_iff target "default").0 (not-false _ d) in
    let h' =
      subst (λ t. build_report_input (ixds_input uris t) ≡ ok (ixds_input uris target)) e h in
    rw (require_strings-strings_to_json uris, d) h'

canonical_cik : (s : String) → validate_cik s ≡ ok s → assert_canonical_serialized_cik s ≡ ok s
unfolding assert_canonical_serialized_cik
canonical_cik s h = rw (h, beq_refl s) refl

canonical_accession :
    (s : String) → validate_accession s ≡ ok s → assert_canonical_serialized_accession s ≡ ok s
unfolding assert_canonical_serialized_accession
canonical_accession s h = rw (h, beq_refl s) refl

module _ {D T : Type 0} (lib : BundleLibrary D T) where
  -- An artifact that its constructors accept, of a known kind.
  abbrev pub IsArtifact : BundleArtifact → Type 0
  IsArtifact a =
      (build_content lib a.content ≡ ok a.content)
      × (build_artifact lib a ≡ ok a)
      × (contains artifact_kinds a.artifact_kind ≡ true)

  pub artifact_from_dict-artifact_to_dict :
      (a : BundleArtifact) → IsArtifact a → artifact_from_dict lib (artifact_to_dict a) ≡ ok a
  unfolding artifact_from_dict artifact_to_dict
  artifact_from_dict-artifact_to_dict a h = let (c, b, k) = h in rw (k, c) b

  pub binding_from_dict-binding_to_dict :
      (b : UriBinding)
      → build_binding lib b ≡ ok b
      → binding_from_dict lib (binding_to_dict b) ≡ ok b
  unfolding binding_from_dict binding_to_dict
  binding_from_dict-binding_to_dict b h = rw (require_strings-strings_to_json b.replay_aliases) h

  -- Python reads a date or a time back from its `isoformat`, which is not empty.
  abbrev pub ReadsDates : Type 0
  ReadsDates = (d : D) → (lib.date_of (lib.date_iso d) ≡ ok d) × (is_empty (lib.date_iso d) ≡ false)

  abbrev pub ReadsTimes : Type 0
  ReadsTimes = (t : T) → (lib.time_of (lib.time_iso t) ≡ ok t) × (is_empty (lib.time_iso t) ≡ false)

  require_date_lem : ReadsDates → (d : D) → require_date lib (text (lib.date_iso d)) ≡ ok d
  unfolding require_date
  require_date_lem r d = require_canonical-iso lib.date_of lib.date_iso d (r d).0 (r d).1

  require_nullable_date_lem :
      ReadsDates
      → (o : Option D)
      → require_nullable_date lib (nullable_to_json (λ d. text (lib.date_iso d)) o) ≡ ok o
  unfolding require_nullable_date nullable_to_json
  require_nullable_date_lem r none = refl
  require_nullable_date_lem r (some d) = rw ((r d).0, (r d).1, beq_refl (lib.date_iso d)) refl

  require_nullable_time_lem :
      ReadsTimes
      → (o : Option T)
      → require_nullable_time lib (nullable_to_json (λ t. text (lib.time_iso t)) o) ≡ ok o
  unfolding require_nullable_time nullable_to_json
  require_nullable_time_lem r none = refl
  require_nullable_time_lem r (some d) = rw ((r d).0, (r d).1, beq_refl (lib.time_iso d)) refl

  canonical_parts :
      (f : FilingIdentity D T)
      → build_filing lib f ≡ ok f
      → (assert_canonical_serialized_cik f.cik ≡ ok f.cik)
        × (assert_canonical_serialized_accession f.accession ≡ ok f.accession)
  unfolding build_filing
  canonical_parts f h =
      let (cik, c, h1) = >>=-eq-ok (validate_cik f.cik) _ h in
      let (accession, a, h2) = >>=-eq-ok (validate_accession f.accession) _ h1 in
      let (u, k, h3) = >>=-eq-ok (assert_cik_accession_consistent cik accession) _ h2 in
      let (k4, h4) =
        raise_if-then (not (contains supported_forms f.form_type))
          (value_error "unsupported form_type") _ h3 in
      let (k5, h5) =
        raise_if-then (is_empty f.primary_document || has_separator f.primary_document)
          (value_error "invalid primary_document") _ h4 in
      let (k6, h6) =
        raise_if-then (naive lib f.accepted_at)
          (value_error "accepted_at must be timezone-aware when set") _ h5 in
      let e = ok_injective h6 in
      (
        canonical_cik f.cik (c ∙ ap (λ x. ok x.cik) e),
        canonical_accession f.accession (a ∙ ap (λ x. ok x.accession) e),
      )

  pub filing_from_dict-filing_to_dict :
      (f : FilingIdentity D T)
      → ReadsDates
      → ReadsTimes
      → build_filing lib f ≡ ok f
      → filing_from_dict lib (filing_to_dict lib f) ≡ ok f
  unfolding filing_from_dict filing_to_dict
  filing_from_dict-filing_to_dict f dates times h =
      let (c, a) = canonical_parts f h in
      rw
        (
          c,
          a,
          require_date_lem dates f.filing_date,
          require_nullable_time_lem times f.accepted_at,
          require_nullable_date_lem dates f.report_period_end,
        )
        h

  -- A bundle that its constructor accepts, as theirs do all its parts, with a hash of the right form
  -- and artifacts of known kinds.
  abbrev pub IsBundle : FilingBundle D T → Type 0
  IsBundle b =
      (build_bundle lib b ≡ ok b)
      × (build_filing lib b.filing ≡ ok b.filing)
      × (is_digest b.payload_hash ≡ true)
      × All IsArtifact b.artifacts
      × All (λ r. build_report_input r ≡ ok r) b.report_inputs
      × All (λ u. build_binding lib u ≡ ok u) b.uri_bindings

  artifacts_lem :
      (l : List BundleArtifact)
      → All IsArtifact l
      → artifacts_of lib (items_of artifact_to_dict l) ≡ ok l
  unfolding artifacts_of
  artifacts_lem l h =
      decode_items-items_of (artifact_from_dict lib) artifact_to_dict l
        (All-map artifact_from_dict-artifact_to_dict l h)

  reports_lem :
      (l : List XbrlReportInput)
      → All (λ r. build_report_input r ≡ ok r) l
      → reports_of lib (items_of report_input_to_dict l) ≡ ok l
  unfolding reports_of
  reports_lem l h =
      decode_items-items_of report_input_from_dict report_input_to_dict l
        (All-map report_input_from_dict-report_input_to_dict l h)

  bindings_lem :
      (l : List UriBinding)
      → All (λ u. build_binding lib u ≡ ok u) l
      → bindings_of lib (items_of binding_to_dict l) ≡ ok l
  unfolding bindings_of
  bindings_lem l h =
      decode_items-items_of (binding_from_dict lib) binding_to_dict l
        (All-map binding_from_dict-binding_to_dict l h)

  -- What `to_dict` writes of a bundle that the constructors accept, with a payload hash of 64 lowercase
  -- hexadecimal digits and artifacts of known kinds, which no constructor checks, `from_dict` reads as
  -- that bundle, if Python reads dates and times back from their `isoformat`.
  pub bundle_from_dict-bundle_to_dict :
      (b : FilingBundle D T)
      → ReadsDates
      → ReadsTimes
      → IsBundle b
      → bundle_from_dict lib (bundle_to_dict lib b) ≡ ok b
  unfolding bundle_from_dict bundle_to_dict
  bundle_from_dict-bundle_to_dict b dates times h =
      let (built, filing, digest, artifacts, reports, bindings) = h in
      rw
        (
          digest,
          filing_from_dict-filing_to_dict b.filing dates times filing,
          artifacts_lem b.artifacts artifacts,
          reports_lem b.report_inputs reports,
          bindings_lem b.uri_bindings bindings,
        )
        built
