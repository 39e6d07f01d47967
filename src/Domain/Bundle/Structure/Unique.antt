-- ===== src/Domain/Bundle/Structure/Unique.antt =====
-- src/edgar/domain/validation.py: what a bundle of a valid structure keeps to.
use edgar.Prelude.{
  not-false, ◌≡◌, refl, sym, ap, ◌∙◌, subst, Bool, true, false, not, ◌||◌, List, [], ◌∷◌, Option,
  none, some, String, ok, raise_if-then, raise_if-eq-ok, ok_injective, >>=-eq-ok, ◌==◌, string_eq,
  All, Bool-cases, inl, inr, arith,
}
use edgar.Domain.Bundle.{
  BundleArtifact, UriBinding, XbrlReportInput, FilingBundle, BundleLibrary, has_duplicates,
  document_uris, paths_of, compute_payload_hash,
}
use edgar.Domain.Bundle.Structure.{
  Seen, among, assert_digest, artifact_at, same_content, assert_uri, add_aliases, validate_binding,
  validate_bindings, validate_uris, validate_reports, validate_bundle_structure,
}

-- The loops push the primary URIs and the aliases on what they have seen.
abbrev pub push_all : List String → List String → List String
push_all [] acc = acc
push_all (x ∷ xs) acc = push_all xs (x ∷ acc)

abbrev pub primaries_of : List UriBinding → List String → List String
primaries_of [] acc = acc
primaries_of (b ∷ bs) acc = primaries_of bs (b.document_uri ∷ acc)

abbrev pub aliases_of : List UriBinding → List String → List String
aliases_of [] acc = acc
aliases_of (b ∷ bs) acc = aliases_of bs (push_all b.replay_aliases acc)

-- No text is among both, or twice in one of the lists.
abbrev pub IsUnique : List String → List String → Type 0
IsUnique primary_uris aliases =
    (has_duplicates primary_uris ≡ false)
    × (has_duplicates aliases ≡ false)
    × All (λ a. among a primary_uris ≡ false) aliases

-- The artifact of a binding is in the payload, with the content that the binding names.
abbrev pub Resolves : List BundleArtifact → UriBinding → Type 0
Resolves artifacts b =
    (a : BundleArtifact) × (artifact_at b.artifact_path artifacts ≡ some a)
    × (a.content.sha256 ≡ b.content_sha256)

or_false : (a b : Bool) → a ≡ false → b ≡ false → (a || b) ≡ false
or_false a b h k = ground arith

or_both : (a b : Bool) → (a || b) ≡ false → (a ≡ false) × (b ≡ false)
or_both a b h = ground arith

other_way : (u a : String) → (a == u) ≡ false → (u == a) ≡ false
other_way u a h = elim (Bool-cases (u == a)) [
  | inl e ↦
      let same = (string_eq.equal_iff u a).0 e in
      absurd (cc (h, (string_eq.equal_iff a u).1 (sym same)))
  | inr e ↦ e
]

-- A new primary URI that is no alias keeps the aliases apart from the primaries.
apart :
    (u : String) (primary_uris aliases : List String)
    → among u aliases ≡ false
    → All (λ a. among a primary_uris ≡ false) aliases
    → All (λ a. among a (u ∷ primary_uris) ≡ false) aliases
apart u primary_uris [] h k = tt
apart u primary_uris (a ∷ as') h k =
    let (not_here, not_there) = or_both (a == u) (among u as') h in
    (
      or_false (u == a) (among a primary_uris) (other_way u a not_here) k.0,
      apart u primary_uris as' not_there k.1,
    )

same_content_sound :
    (artifacts : List BundleArtifact) (b : UriBinding) (found : Option BundleArtifact)
    → artifact_at b.artifact_path artifacts ≡ found
    → same_content b found ≡ ok tt
    → Resolves artifacts b
same_content_sound artifacts b none f h = absurd (cc h)
same_content_sound artifacts b (some a) f h = (
  a,
  f,
  (string_eq.equal_iff a.content.sha256 b.content_sha256).0 (not-false _ (raise_if-eq-ok _ _ h)),
)

module _ {D T : Type 0} (lib : BundleLibrary D T) where
  add_aliases_sound :
      (primary : String) (here rest : List String) (seen out : Seen)
      → IsUnique seen.primary_uris seen.aliases
      → add_aliases lib primary here rest seen ≡ ok out
      → IsUnique out.primary_uris out.aliases
        × (out.primary_uris ≡ seen.primary_uris)
        × (out.aliases ≡ push_all rest seen.aliases)
  unfolding add_aliases
  add_aliases_sound primary here [] seen out u h =
      let e = ok_injective h in
      (
        subst (λ s. IsUnique s.primary_uris s.aliases) e u,
        ap (λ s. s.primary_uris) (sym e),
        ap (λ s. s.aliases) (sym e),
      )
  add_aliases_sound primary here (a ∷ rest) seen out u h =
      let (k0, h0) = raise_if-then (among a here) _ _ h in
      let (v, k1, h1) = >>=-eq-ok (assert_uri lib a) _ h0 in
      let (k2, h2) = raise_if-then (a == primary) _ _ h1 in
      let (k3, h3) = raise_if-then (among a seen.primary_uris) _ _ h2 in
      let (k4, h4) = raise_if-then (among a seen.aliases) _ _ h3 in
      add_aliases_sound primary (a ∷ here) rest (record seen { aliases = a ∷ seen.aliases }) out
        (u.0, or_false _ _ k4 u.1, (k3, u.2)) h4

  validate_binding_sound :
      (artifacts : List BundleArtifact) (b : UriBinding) (seen out : Seen)
      → IsUnique seen.primary_uris seen.aliases
      → validate_binding lib artifacts b seen ≡ ok out
      → IsUnique out.primary_uris out.aliases
        × (out.primary_uris ≡ (b.document_uri ∷ seen.primary_uris))
        × (out.aliases ≡ push_all b.replay_aliases seen.aliases)
        × Resolves artifacts b
  unfolding validate_binding
  validate_binding_sound artifacts b seen out u h =
      let (v0, k0, h0) = >>=-eq-ok (assert_uri lib b.document_uri) _ h in
      let (v1, k1, h1) = >>=-eq-ok (assert_digest b.content_sha256) _ h0 in
      let (k2, h2) = raise_if-then (among b.document_uri seen.primary_uris) _ _ h1 in
      let (k3, h3) = raise_if-then (among b.document_uri seen.aliases) _ _ h2 in
      let (v4, k4, h4) = >>=-eq-ok (same_content b (artifact_at b.artifact_path artifacts)) _ h3 in
      let u' : IsUnique (b.document_uri ∷ seen.primary_uris) seen.aliases =
        (or_false _ _ k2 u.0, u.1, apart b.document_uri seen.primary_uris seen.aliases k3 u.2) in
      let (w, p, a) =
        add_aliases_sound b.document_uri [] b.replay_aliases
          (record seen { primary_uris = b.document_uri ∷ seen.primary_uris }) out u' h4 in
      (w, p, a, same_content_sound artifacts b (artifact_at b.artifact_path artifacts) refl k4)

  validate_bindings_sound :
      (artifacts : List BundleArtifact) (bs : List UriBinding) (seen out : Seen)
      → IsUnique seen.primary_uris seen.aliases
      → validate_bindings lib artifacts bs seen ≡ ok out
      → IsUnique out.primary_uris out.aliases
        × (out.primary_uris ≡ primaries_of bs seen.primary_uris)
        × (out.aliases ≡ aliases_of bs seen.aliases)
        × All (Resolves artifacts) bs
  unfolding validate_bindings
  validate_bindings_sound artifacts [] seen out u h =
      let e = ok_injective h in
      (
        subst (λ s. IsUnique s.primary_uris s.aliases) e u,
        ap (λ s. s.primary_uris) (sym e),
        ap (λ s. s.aliases) (sym e),
        tt,
      )
  validate_bindings_sound artifacts (b ∷ bs) seen out u h =
      let (next, k, h1) = >>=-eq-ok (validate_binding lib artifacts b seen) _ h in
      let (u1, p1, a1, r1) = validate_binding_sound artifacts b seen next u k in
      let (u2, p2, a2, r2) = validate_bindings_sound artifacts bs next out u1 h1 in
      (u2, p2 ∙ ap (primaries_of bs) p1, a2 ∙ ap (aliases_of bs) a1, (r1, r2))

  validate_uris_sound :
      (primary_uris uris : List String)
      → validate_uris lib primary_uris uris ≡ ok tt
      → All (λ u. among u primary_uris ≡ true) uris
  unfolding validate_uris
  validate_uris_sound primary_uris [] h = tt
  validate_uris_sound primary_uris (u ∷ us) h =
      let (v, k, h1) = >>=-eq-ok (assert_uri lib u) _ h in
      let (k2, h2) = raise_if-then (not (among u primary_uris)) _ _ h1 in
      (not-false (among u primary_uris) k2, validate_uris_sound primary_uris us h2)

  validate_reports_sound :
      (primary_uris : List String) (rs : List XbrlReportInput)
      → validate_reports lib primary_uris rs ≡ ok tt
      → All (λ r. All (λ u. among u primary_uris ≡ true) (document_uris r)) rs
  unfolding validate_reports
  validate_reports_sound primary_uris [] h = tt
  validate_reports_sound primary_uris (r ∷ rs) h =
      let (v, k, h1) = >>=-eq-ok (validate_uris lib primary_uris (document_uris r)) _ h in
      (
        validate_uris_sound primary_uris (document_uris r) k,
        validate_reports_sound primary_uris rs h1,
      )

  -- In a bundle that `validate_bundle_structure` accepts no URI is bound twice, as a primary URI or an
  -- alias; each binding's artifact is in the payload and has the content that the binding names; each
  -- document of a report input is bound as a primary URI; and the payload hash is the one stored.
  pub validate_bundle_structure_sound :
      (bundle : FilingBundle D T)
      → validate_bundle_structure lib bundle ≡ ok tt
      → IsUnique (primaries_of bundle.uri_bindings []) (aliases_of bundle.uri_bindings [])
        × All (Resolves bundle.artifacts) bundle.uri_bindings
        × All
            (λ r. All (λ u. among u (primaries_of bundle.uri_bindings []) ≡ true) (document_uris r))
            bundle.report_inputs
        × (compute_payload_hash lib bundle.artifacts ≡ ok bundle.payload_hash)
  unfolding validate_bundle_structure
  validate_bundle_structure_sound bundle h =
      let (v, k, h1) = >>=-eq-ok (assert_digest bundle.payload_hash) _ h in
      let (expected, e, h2) = >>=-eq-ok (compute_payload_hash lib bundle.artifacts) _ h1 in
      let (k3, h3) = raise_if-then (not (expected == bundle.payload_hash)) _ _ h2 in
      let (k4, h4) = raise_if-then (has_duplicates (paths_of bundle.artifacts)) _ _ h3 in
      let (seen, k5, h5) =
        >>=-eq-ok
          (validate_bindings lib bundle.artifacts bundle.uri_bindings
            (record { primary_uris = []; aliases = [] }))
          _ h4 in
      let (u, p, a, r) =
        validate_bindings_sound bundle.artifacts bundle.uri_bindings
          (record { primary_uris = []; aliases = [] }) seen (refl, refl, tt) k5 in
      let reports = validate_reports_sound seen.primary_uris bundle.report_inputs h5 in
      let same = (string_eq.equal_iff expected bundle.payload_hash).0 (not-false _ k3) in
      (
        subst (λ ps. IsUnique ps (aliases_of bundle.uri_bindings [])) p
            (subst (IsUnique seen.primary_uris) a u),
        r,
        subst (λ ps. All (λ q. All (λ u. among u ps ≡ true) (document_uris q)) bundle.report_inputs)
            p reports,
        e ∙ ap ok same,
      )
