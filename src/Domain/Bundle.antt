-- ===== src/Domain/Bundle.antt =====
-- src/edgar/domain/bundle.py and payload.py: the types of a filing bundle, with the checks of their
-- constructors, and the hash of the payload. `D` and `T` are Python's `date` and `datetime`;
-- `digest_of` is the SHA-256 of the JSON text of the sorted records.
pub mod Structure
pub mod Codec
pub mod Scenarios
use edgar.Prelude.{
  ℕ, ◌≡◌, Bool, true, false, not, ◌&&◌, ◌||◌, List, [], ◌∷◌, Option, none, some, String, Result, ok,
  err, raise_if, value_error, ◌>>=◌, ◌>>◌, ◌==◌, string_eq, nat_beq, any, map, if◌then◌else◌,
  sort_by,
}
use edgar.Prelude.Text.{is_empty, any_char}
use edgar.Prelude.Int.{ℤ, pos, ltb_ℤ, int_eq}
use edgar.Domain.Decode.{contains}
use edgar.Domain.Identifiers.{
  validate_cik, validate_accession, assert_cik_accession_consistent, validate_logical_path,
}
use edgar.Domain.Uri.{UriLibrary}
use edgar.Prelude.Text.{leb_string}
use edgar.Storage.Objects.{is_digest}

pub record ContentObject : Type 0 where
  pub sha256 : String
  pub byte_size : ℤ

pub record FilingIdentity (D T : Type 0) : Type 0 where
  pub cik : String
  pub accession : String
  pub form_type : String
  pub filing_date : D
  pub accepted_at : Option T
  pub report_period_end : Option D
  pub primary_document : String

pub record BundleArtifact : Type 0 where
  pub logical_path : String
  pub content : ContentObject
  pub artifact_kind : String
  pub required : Bool

pub record UriBinding : Type 0 where
  pub document_uri : String
  pub artifact_path : String
  pub content_sha256 : String
  pub replay_aliases : List String

-- `InstanceReportInput` and `IxdsReportInput`, whose target is kept as the text it is.
pub data XbrlReportInput : Type 0 where
  instance_input : List String → XbrlReportInput
  ixds_input : List String → String → XbrlReportInput

pub record FilingBundle (D T : Type 0) : Type 0 where
  pub filing : FilingIdentity D T
  pub payload_hash : String
  pub artifacts : List BundleArtifact
  pub report_inputs : List XbrlReportInput
  pub uri_bindings : List UriBinding
  pub schema_version : ℤ
  pub acquisition_policy_version : String

-- One record of the payload's JSON.
pub record PayloadRecord : Type 0 where
  pub byte_size : ℤ
  pub logical_path : String
  pub sha256 : String

pub record BundleLibrary (D T : Type 0) : Type 0 where
  pub uris : UriLibrary
  pub lower : String → String
  pub date_of : String → Result D
  pub date_iso : D → String
  pub time_of : String → Result T
  pub time_iso : T → String
  pub is_aware : T → Bool
  pub digest_of : List PayloadRecord → String

abbrev pub supported_forms : List String
supported_forms = "10-K" ∷ "10-K/A" ∷ "10-Q" ∷ "10-Q/A" ∷ []

abbrev pub artifact_kinds : List String
artifact_kinds =
    "accession" ∷ "metadata" ∷ "external" ∷ "complete_submission" ∷ "primary_document"
    ∷ "taxonomy_schema" ∷ "linkbase" ∷ "attachment" ∷ "index_json" ∷ "index_html" ∷ "index_headers"
    ∷ "discovery" ∷ "sec_generated" ∷ "other" ∷ []

-- `len(xs) != len(set(xs))`
abbrev pub has_duplicates : List String → Bool
has_duplicates [] = false
has_duplicates (x ∷ xs) = any (λ y. y == x) xs || has_duplicates xs

abbrev pub document_uris : XbrlReportInput → List String
document_uris (instance_input uris) = uris
document_uris (ixds_input uris target) = uris

abbrev pub paths_of : List BundleArtifact → List String
paths_of artifacts = map (λ (a : BundleArtifact). a.logical_path) artifacts

-- `"/" in primary or "\\" in primary`
abbrev pub has_separator : String → Bool
has_separator s = any_char (λ c. nat_beq c 47 || nat_beq c 92) s

abbrev pub is_nil {ℓ} : {A : Type ℓ} → List A → Bool
is_nil [] = true
is_nil (x ∷ xs) = false

-- The check of `InstanceReportInput` that there is exactly one URI, and that it is not empty.
abbrev one_uri : List String → Result (Unit {0})
one_uri (uri ∷ []) = raise_if (is_empty uri) (value_error "document URI must be non-empty")
one_uri uris = err (value_error "InstanceReportInput requires exactly one document URI")

-- `__post_init__` of the two kinds of report inputs.
unfoldable pub build_report_input : XbrlReportInput → Result XbrlReportInput
build_report_input (instance_input uris) = do one_uri uris; ok (instance_input uris)
build_report_input (ixds_input uris target) = do
  raise_if (is_nil uris) (value_error "IxdsReportInput requires at least one document URI")
  raise_if (has_duplicates uris) (value_error "IxdsReportInput document_uris must be unique")
  raise_if (not (target == "default")) (value_error "Phase 1 only supports target='default'")
  ok (ixds_input uris target)

module _ {D T : Type 0} (lib : BundleLibrary D T) where
  unfoldable pub build_content : ContentObject → Result ContentObject
  build_content c = do
    raise_if (not (lib.lower c.sha256 == c.sha256) || not (is_digest (lib.lower c.sha256)))
        (value_error "sha256 must be 64 lowercase hex chars")
    raise_if (ltb_ℤ c.byte_size (pos 0)) (value_error "byte_size must be non-negative")
    ok c

  unfoldable pub build_artifact : BundleArtifact → Result BundleArtifact
  build_artifact a = do
    path ← validate_logical_path a.logical_path
    ok (record a { logical_path = path })

  unfoldable pub build_binding : UriBinding → Result UriBinding
  build_binding b = do
    path ← validate_logical_path b.artifact_path
    raise_if
        (not (b.content_sha256 == lib.lower b.content_sha256) || not (is_digest b.content_sha256))
        (value_error "content_sha256 must be 64 lowercase hex chars")
    raise_if (has_duplicates b.replay_aliases) (value_error "replay_aliases contains duplicates")
    ok (record b { artifact_path = path })

  -- `accepted_at is not None and accepted_at.tzinfo is None`
  abbrev pub naive : Option T → Bool
  naive none = false
  naive (some t) = not (lib.is_aware t)

  unfoldable pub build_filing : FilingIdentity D T → Result (FilingIdentity D T)
  build_filing f = do
    cik ← validate_cik f.cik
    accession ← validate_accession f.accession
    assert_cik_accession_consistent cik accession
    raise_if (not (contains supported_forms f.form_type)) (value_error "unsupported form_type")
    raise_if (is_empty f.primary_document || has_separator f.primary_document)
        (value_error "invalid primary_document")
    raise_if (naive f.accepted_at) (value_error "accepted_at must be timezone-aware when set")
    ok (record f { cik = cik; accession = accession })

  unfoldable pub build_bundle : FilingBundle D T → Result (FilingBundle D T)
  build_bundle b = do
    raise_if (not (b.schema_version == pos 1)) (value_error "unsupported schema_version")
    raise_if (is_nil b.report_inputs)
        (value_error "FilingBundle requires at least one report input")
    raise_if (has_duplicates (paths_of b.artifacts)) (value_error "duplicate artifact logical_path")
    ok b

  abbrev record_of : BundleArtifact → PayloadRecord
  record_of a = record {
    byte_size = a.content.byte_size;
    logical_path = a.logical_path;
    sha256 = lib.lower a.content.sha256;
  }

  -- `payload_hash_bytes` and `compute_payload_hash`, of artifacts. Texts compare by code points, as
  -- their UTF-8 bytes do.
  unfoldable pub compute_payload_hash : List BundleArtifact → Result String
  compute_payload_hash artifacts = do
    raise_if (has_duplicates (paths_of artifacts)) (value_error "duplicate logical_path in payload")
    ok (
        lib.digest_of (
          sort_by (λ (x y : PayloadRecord). leb_string x.logical_path y.logical_path)
            (map record_of artifacts)))
