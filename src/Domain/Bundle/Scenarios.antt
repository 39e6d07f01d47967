-- ===== src/Domain/Bundle/Scenarios.antt =====
-- A bundle of src/edgar/domain/bundle.py with one instance document and its schema.
use edgar.Prelude.{◌≡◌, refl, true, [], ◌∷◌, none, some, String, Result, ok, err, value_error, All}
use edgar.Prelude.Text.{is_empty, is_space, strip, is_digit, zero_padded, int_from}
use edgar.Prelude.Int.{pos}
use edgar.Domain.Identifiers.{
  validate_cik, validate_accession, assert_cik_accession_consistent, validate_logical_path,
  split_slash,
}
use edgar.Domain.Uri.{
  assert_serialized_binding_uri, normalize_uri, uppercase_percent_escapes,
  decode_unreserved_percents, remove_dot_segments, remove_loop, remove_step, has_query_mark,
}
use edgar.Domain.Uri.Samples.{sample_uri, sample_uris}
use edgar.Domain.Bundle.{
  BundleLibrary, FilingBundle, BundleArtifact, UriBinding, instance_input, document_uris,
  build_content, build_artifact, build_binding, build_report_input, build_filing, build_bundle,
  compute_payload_hash,
}
use edgar.Domain.Bundle.Structure.{
  validate_bundle_structure, assert_digest, validate_bindings, validate_binding, add_aliases,
  validate_reports, validate_uris, among,
}
use edgar.Domain.Bundle.Structure.Unique.{
  IsUnique, Resolves, primaries_of, aliases_of, validate_bundle_structure_sound,
}
use edgar.Domain.Bundle.Codec.{bundle_to_dict, bundle_from_dict}
use edgar.Domain.Bundle.Codec.Readback.{IsBundle, bundle_from_dict-bundle_to_dict}

abbrev digest : String
digest = "ba7816bf8f01cfea414140de5dae2223b00361a396177a9cb410ff61f20015ad"

-- A date or a time is kept as its text behind one letter.
abbrev from_iso : String → Result String
from_iso String.[] = err (value_error "invalid isoformat string")
from_iso (String.◌∷◌ c s) = ok s

abbrev library : BundleLibrary String String
library = record {
  uris = sample_uris;
  lower = λ s. s;
  date_of = from_iso;
  date_iso = λ d. String.◌∷◌ "D" d;
  time_of = from_iso;
  time_iso = λ t. String.◌∷◌ "D" t;
  is_aware = λ t. true;
  digest_of = λ records. digest;
}

abbrev artifact : BundleArtifact
artifact = record {
  logical_path = "accession/a.xsd";
  content = record { sha256 = digest; byte_size = pos 12 };
  artifact_kind = "taxonomy_schema";
  required = true;
}

abbrev binding : UriBinding
binding = record {
  document_uri = sample_uri;
  artifact_path = "accession/a.xsd";
  content_sha256 = digest;
  replay_aliases = [];
}

abbrev bundle : FilingBundle String String
bundle = record {
  filing = record {
    cik = "0000320193";
    accession = "0000320193-24-000123";
    form_type = "10-K";
    filing_date = "2024-11-01";
    accepted_at = some "2024-11-01T06:01:36+00:00";
    report_period_end = none;
    primary_document = "aapl.htm";
  };
  payload_hash = digest;
  artifacts = artifact ∷ [];
  report_inputs = instance_input (sample_uri ∷ []) ∷ [];
  uri_bindings = binding ∷ [];
  schema_version = pos 1;
  acquisition_policy_version = "acq-v1";
}

bundle_structure : validate_bundle_structure library bundle ≡ ok tt
unfolding validate_bundle_structure assert_digest validate_bindings validate_binding add_aliases
    validate_reports validate_uris compute_payload_hash assert_serialized_binding_uri normalize_uri
    uppercase_percent_escapes decode_unreserved_percents remove_dot_segments remove_loop remove_step
    has_query_mark is_empty strip is_space
bundle_structure = refl

validate_bundle_structure_sound_example :
    IsUnique (primaries_of bundle.uri_bindings []) (aliases_of bundle.uri_bindings [])
    × All (Resolves bundle.artifacts) bundle.uri_bindings
    × All
        (λ r. All (λ u. among u (primaries_of bundle.uri_bindings []) ≡ true) (document_uris r))
        bundle.report_inputs
    × (compute_payload_hash library bundle.artifacts ≡ ok digest)
validate_bundle_structure_sound_example =
    validate_bundle_structure_sound library bundle bundle_structure

bundle-IsBundle : IsBundle library bundle
unfolding build_bundle build_filing build_content build_artifact build_binding build_report_input
    validate_cik validate_accession assert_cik_accession_consistent validate_logical_path
    split_slash is_empty strip is_space is_digit zero_padded int_from
bundle-IsBundle = (refl, refl, refl, ((refl, refl, refl), tt), (refl, tt), (refl, tt))

bundle_from_dict-bundle_to_dict_example :
    bundle_from_dict library (bundle_to_dict library bundle) ≡ ok bundle
unfolding is_empty
bundle_from_dict-bundle_to_dict_example =
    bundle_from_dict-bundle_to_dict library bundle (λ d. (refl, refl)) (λ t. (refl, refl))
      bundle-IsBundle
