-- ===== src/Domain/Bundle/Codec.antt =====
-- src/edgar/domain/bundle.py: `to_dict` and `from_dict` of a filing bundle and its parts.
pub mod Readback
use edgar.Prelude.{
  ◌≡◌, Bool, true, false, not, ◌&&◌, ◌||◌, List, [], ◌∷◌, Option, none, some, String, Result, ok,
  err, raise_if, bundle_decode_error, ◌>>=◌, ◌>>◌, ◌==◌, string_eq, if◌then◌else◌,
}
use edgar.Prelude.Int.{ℤ}
use edgar.Prelude.Json.{
  Json, Items, Fields, null, boolean, integer, text, array, object, end, field, keys_of, items_of,
  decode_items, nullable_to_json,
}
use edgar.Domain.Decode.{
  require_object, require_exact_keys, require_str, require_bool, require_int, require_list,
  require_list_of_str, require_canonical, require_nullable_canonical, contains, required,
}
use edgar.Domain.Bundle.{
  ContentObject, FilingIdentity, BundleArtifact, UriBinding, XbrlReportInput, instance_input,
  ixds_input, FilingBundle, BundleLibrary, artifact_kinds, build_content, build_artifact,
  build_binding, build_filing, build_report_input, build_bundle,
}
use edgar.Domain.Bundle.Structure.{
  assert_canonical_serialized_cik, assert_canonical_serialized_accession,
}
use edgar.Storage.Objects.{is_digest}

abbrev filing_keys : List String
filing_keys =
    "cik" ∷ "accession" ∷ "form_type" ∷ "filing_date" ∷ "accepted_at" ∷ "report_period_end"
    ∷ "primary_document" ∷ []

abbrev artifact_keys : List String
artifact_keys = "logical_path" ∷ "sha256" ∷ "byte_size" ∷ "artifact_kind" ∷ "required" ∷ []

abbrev binding_keys : List String
binding_keys = "document_uri" ∷ "artifact_path" ∷ "content_sha256" ∷ "replay_aliases" ∷ []

abbrev instance_keys : List String
instance_keys = "kind" ∷ "document_uris" ∷ []

abbrev ixds_keys : List String
ixds_keys = "kind" ∷ "document_uris" ∷ "target" ∷ []

abbrev bundle_keys : List String
bundle_keys =
    "schema_version" ∷ "acquisition_policy_version" ∷ "filing" ∷ "payload_hash" ∷ "artifacts"
    ∷ "report_inputs" ∷ "uri_bindings" ∷ []

-- `list(texts)`
unfoldable pub strings_to_json : List String → Json
strings_to_json texts = array (items_of text texts)

unfoldable pub require_strings : Json → Result (List String)
require_strings v = require_list_of_str v

unfoldable pub artifact_to_dict : BundleArtifact → Json
artifact_to_dict a = object (
    field "logical_path" (text a.logical_path) (
      field "sha256" (text a.content.sha256) (
        field "byte_size" (integer a.content.byte_size) (
          field "artifact_kind" (text a.artifact_kind)
            (field "required" (boolean a.required) end)))))

unfoldable pub binding_to_dict : UriBinding → Json
binding_to_dict b = object (
    field "document_uri" (text b.document_uri) (
      field "artifact_path" (text b.artifact_path) (
        field "content_sha256" (text b.content_sha256)
          (field "replay_aliases" (strings_to_json b.replay_aliases) end))))

unfoldable pub report_input_to_dict : XbrlReportInput → Json
report_input_to_dict (instance_input uris) =
    object (field "kind" (text "instance") (field "document_uris" (strings_to_json uris) end))
report_input_to_dict (ixds_input uris target) = object (
    field "kind" (text "ixds")
      (field "document_uris" (strings_to_json uris) (field "target" (text target) end)))

-- `report_input_from_dict`, by the kind.
abbrev instance_from : Fields → Result XbrlReportInput
instance_from obj = do
  require_exact_keys obj instance_keys
  uris ← required require_strings obj "document_uris"
  build_report_input (instance_input uris)

abbrev ixds_from : Fields → Result XbrlReportInput
ixds_from obj = do
  require_exact_keys obj ixds_keys
  uris ← required require_strings obj "document_uris"
  target ← required require_str obj "target"
  raise_if (not (target == "default")) (bundle_decode_error "unsupported IXDS target")
  build_report_input (ixds_input uris "default")

abbrev by_kind : String → Fields → Result XbrlReportInput
by_kind kind obj =
    if kind == "instance"
    then instance_from obj
    else if kind == "ixds"
    then ixds_from obj
    else err (bundle_decode_error "unknown report input kind")

unfoldable pub report_input_from_dict : Json → Result XbrlReportInput
report_input_from_dict data_value = do
  obj ← require_object data_value
  raise_if (not (contains (keys_of obj) "kind"))
      (bundle_decode_error "report_input missing fields: ['kind']")
  kind ← required require_str obj "kind"
  by_kind kind obj

module _ {D T : Type 0} (lib : BundleLibrary D T) where
  unfoldable pub artifact_from_dict : Json → Result BundleArtifact
  artifact_from_dict data_value = do
    obj ← require_object data_value
    require_exact_keys obj artifact_keys
    kind ← required require_str obj "artifact_kind"
    raise_if (not (contains artifact_kinds kind)) (bundle_decode_error "invalid artifact_kind")
    path ← required require_str obj "logical_path"
    sha ← required require_str obj "sha256"
    size ← required require_int obj "byte_size"
    content ← build_content lib (record { sha256 = sha; byte_size = size })
    needed ← required require_bool obj "required"
    build_artifact lib
        (record { logical_path = path; content = content; artifact_kind = kind; required = needed })

  unfoldable pub binding_from_dict : Json → Result UriBinding
  binding_from_dict data_value = do
    obj ← require_object data_value
    require_exact_keys obj binding_keys
    aliases ← required require_strings obj "replay_aliases"
    uri ← required require_str obj "document_uri"
    path ← required require_str obj "artifact_path"
    sha ← required require_str obj "content_sha256"
    build_binding lib (record {
      document_uri = uri;
      artifact_path = path;
      content_sha256 = sha;
      replay_aliases = aliases;
    })

  -- The canonical dates and times of the decoders.
  unfoldable pub require_date : Json → Result D
  require_date v = require_canonical lib.date_of lib.date_iso v

  unfoldable pub require_nullable_date : Json → Result (Option D)
  require_nullable_date v = require_nullable_canonical lib.date_of lib.date_iso v

  unfoldable pub require_nullable_time : Json → Result (Option T)
  require_nullable_time v = require_nullable_canonical lib.time_of lib.time_iso v

  unfoldable pub filing_to_dict : FilingIdentity D T → Json
  filing_to_dict f = object (
      field "cik" (text f.cik) (
        field "accession" (text f.accession) (
          field "form_type" (text f.form_type) (
            field "filing_date" (text (lib.date_iso f.filing_date)) (
              field "accepted_at" (nullable_to_json (λ t. text (lib.time_iso t)) f.accepted_at) (
                field "report_period_end"
                  (nullable_to_json (λ d. text (lib.date_iso d)) f.report_period_end)
                  (field "primary_document" (text f.primary_document) end)))))))

  unfoldable pub filing_from_dict : Json → Result (FilingIdentity D T)
  filing_from_dict data_value = do
    obj ← require_object data_value
    require_exact_keys obj filing_keys
    raw_cik ← required require_str obj "cik"
    cik ← assert_canonical_serialized_cik raw_cik
    raw_accession ← required require_str obj "accession"
    accession ← assert_canonical_serialized_accession raw_accession
    form_type ← required require_str obj "form_type"
    filing_date ← required require_date obj "filing_date"
    accepted_at ← required require_nullable_time obj "accepted_at"
    report_period_end ← required require_nullable_date obj "report_period_end"
    primary_document ← required require_str obj "primary_document"
    build_filing lib (record {
      cik = cik;
      accession = accession;
      form_type = form_type;
      filing_date = filing_date;
      accepted_at = accepted_at;
      report_period_end = report_period_end;
      primary_document = primary_document;
    })

  unfoldable pub bundle_to_dict : FilingBundle D T → Json
  bundle_to_dict b = object (
      field "schema_version" (integer b.schema_version) (
        field "acquisition_policy_version" (text b.acquisition_policy_version) (
          field "filing" (filing_to_dict b.filing) (
            field "payload_hash" (text b.payload_hash) (
              field "artifacts" (array (items_of artifact_to_dict b.artifacts)) (
                field "report_inputs" (array (items_of report_input_to_dict b.report_inputs))
                  (field "uri_bindings" (array (items_of binding_to_dict b.uri_bindings)) end)))))))

  -- `tuple(X.from_dict(x) for x in items)`
  unfoldable pub artifacts_of : Items → Result (List BundleArtifact)
  artifacts_of items = decode_items artifact_from_dict items

  unfoldable pub reports_of : Items → Result (List XbrlReportInput)
  reports_of items = decode_items report_input_from_dict items

  unfoldable pub bindings_of : Items → Result (List UriBinding)
  bindings_of items = decode_items binding_from_dict items

  unfoldable pub bundle_from_dict : Json → Result (FilingBundle D T)
  bundle_from_dict data_value = do
    obj ← require_object data_value
    require_exact_keys obj bundle_keys
    schema_version ← required require_int obj "schema_version"
    payload_hash ← required require_str obj "payload_hash"
    raise_if (not (is_digest payload_hash)) (bundle_decode_error "invalid payload_hash syntax")
    artifacts ← required require_list obj "artifacts"
    report_inputs ← required require_list obj "report_inputs"
    uri_bindings ← required require_list obj "uri_bindings"
    version ← required require_str obj "acquisition_policy_version"
    filing ← required filing_from_dict obj "filing"
    decoded_artifacts ← artifacts_of artifacts
    decoded_reports ← reports_of report_inputs
    decoded_bindings ← bindings_of uri_bindings
    build_bundle lib (record {
      filing = filing;
      payload_hash = payload_hash;
      artifacts = decoded_artifacts;
      report_inputs = decoded_reports;
      uri_bindings = decoded_bindings;
      schema_version = schema_version;
      acquisition_policy_version = version;
    })
