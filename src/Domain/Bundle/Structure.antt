-- ===== src/Domain/Bundle/Structure.antt =====
-- src/edgar/domain/validation.py: the structure of a filing bundle. The set of primary URIs is a list
-- with the last one in front, and so is the dict of aliases.
pub mod Unique
use edgar.Prelude.{
  ◌≡◌, Bool, true, false, not, ◌&&◌, ◌||◌, List, [], ◌∷◌, Option, none, some, String, Result, ok,
  err, Error, raise_if, bundle_structure_error, uri_identity_error, ◌>>=◌, ◌>>◌, ◌==◌, string_eq,
  any, find, if◌then◌else◌,
}
use edgar.Domain.Identifiers.{validate_cik, validate_accession}
use edgar.Domain.Uri.{assert_serialized_binding_uri}
use edgar.Domain.Bundle.{
  ContentObject, BundleArtifact, UriBinding, XbrlReportInput, FilingBundle, BundleLibrary,
  has_duplicates, document_uris, paths_of, compute_payload_hash,
}
use edgar.Storage.Objects.{is_digest}

-- What the loop over the bindings has seen: the primary URIs, and each alias with its primary.
pub record Seen : Type 0 where
  pub primary_uris : List String
  pub aliases : List String

abbrev pub among : String → List String → Bool
among x xs = any (λ y. y == x) xs

unfoldable pub assert_digest : String → Result (Unit {0})
assert_digest digest = raise_if (not (is_digest digest)) (bundle_structure_error "invalid digest")

-- `except UriIdentityError as exc: raise BundleStructureError(str(exc))`
abbrev pub as_structure_error : Error → Error
as_structure_error (uri_identity_error m) = bundle_structure_error m
as_structure_error e = e

abbrev pub structural : Result String → Result (Unit {0})
structural (ok uri) = ok tt
structural (err e) = err (as_structure_error e)

-- `artifact_by_path.get(path)`, whose last artifact of a path wins; the paths are distinct by then.
abbrev pub artifact_at : String → List BundleArtifact → Option BundleArtifact
artifact_at path artifacts = find (λ (a : BundleArtifact). a.logical_path == path) artifacts

abbrev pub same_content : UriBinding → Option BundleArtifact → Result (Unit {0})
same_content b none = err (bundle_structure_error "binding artifact_path not in payload")
same_content b (some a) =
    raise_if (not (a.content.sha256 == b.content_sha256))
      (bundle_structure_error "binding SHA mismatch")

unfoldable pub assert_canonical_serialized_cik : String → Result String
assert_canonical_serialized_cik cik = do
  normalized ← validate_cik cik
  raise_if (not (cik == normalized)) (bundle_structure_error "noncanonical serialized CIK")
  ok cik

unfoldable pub assert_canonical_serialized_accession : String → Result String
assert_canonical_serialized_accession accession = do
  normalized ← validate_accession accession
  raise_if (not (accession == normalized))
      (bundle_structure_error "noncanonical serialized accession")
  ok accession

module _ {D T : Type 0} (lib : BundleLibrary D T) where
  abbrev pub assert_uri : String → Result (Unit {0})
  assert_uri uri = structural (assert_serialized_binding_uri lib.uris uri)

  -- The loop over the aliases of a binding with the primary URI `primary`.
  unfoldable pub add_aliases : String → List String → List String → Seen → Result Seen
  add_aliases primary seen_here [] seen = ok seen
  add_aliases primary seen_here (alias ∷ rest) seen = do
    raise_if (among alias seen_here)
        (bundle_structure_error "duplicate replay alias within binding")
    assert_uri alias
    raise_if (alias == primary) (bundle_structure_error "alias equals primary URI")
    raise_if (among alias seen.primary_uris)
        (bundle_structure_error "alias collides with primary URI")
    raise_if (among alias seen.aliases) (bundle_structure_error "alias shared across bindings")
    add_aliases primary (alias ∷ seen_here) rest (record seen { aliases = alias ∷ seen.aliases })

  -- `_validate_binding`
  unfoldable pub validate_binding : List BundleArtifact → UriBinding → Seen → Result Seen
  validate_binding artifacts b seen = do
    assert_uri b.document_uri
    assert_digest b.content_sha256
    raise_if (among b.document_uri seen.primary_uris)
        (bundle_structure_error "duplicate primary binding URI")
    raise_if (among b.document_uri seen.aliases)
        (bundle_structure_error "primary URI collides with alias")
    same_content b (artifact_at b.artifact_path artifacts)
    add_aliases b.document_uri [] b.replay_aliases
        (record seen { primary_uris = b.document_uri ∷ seen.primary_uris })

  unfoldable pub validate_bindings : List BundleArtifact → List UriBinding → Seen → Result Seen
  validate_bindings artifacts [] seen = ok seen
  validate_bindings artifacts (b ∷ bs) seen = do
    next ← validate_binding artifacts b seen
    validate_bindings artifacts bs next

  unfoldable pub validate_uris : List String → List String → Result (Unit {0})
  validate_uris primary_uris [] = ok tt
  validate_uris primary_uris (uri ∷ uris) = do
    assert_uri uri
    raise_if (not (among uri primary_uris))
        (bundle_structure_error "report-input URI missing authoritative primary binding")
    validate_uris primary_uris uris

  unfoldable pub validate_reports : List String → List XbrlReportInput → Result (Unit {0})
  validate_reports primary_uris [] = ok tt
  validate_reports primary_uris (r ∷ rs) = do
    validate_uris primary_uris (document_uris r)
    validate_reports primary_uris rs

  unfoldable pub validate_bundle_structure : FilingBundle D T → Result (Unit {0})
  validate_bundle_structure bundle = do
    assert_digest bundle.payload_hash
    expected ← compute_payload_hash lib bundle.artifacts
    raise_if (not (expected == bundle.payload_hash))
        (bundle_structure_error "payload_hash mismatch")
    raise_if (has_duplicates (paths_of bundle.artifacts))
        (bundle_structure_error "duplicate artifact logical_path")
    seen ←
        validate_bindings bundle.artifacts bundle.uri_bindings
          (record { primary_uris = []; aliases = [] })
    validate_reports seen.primary_uris bundle.report_inputs
