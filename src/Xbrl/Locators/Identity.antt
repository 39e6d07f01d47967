-- ===== src/Xbrl/Locators/Identity.antt =====
-- src/edgar/xbrl/locators.py: one locator addresses one element of a document.
use edgar.Prelude.{
  ◌≤◌, ◌≡◌, ◌⊎◌, refl, sym, ap, ◌∙◌, arith, true, false, not, List, Option, none, some, String, ok,
  ok_injective, raise_if-then, >>=-eq-ok, value_error, ◌==◌, string_eq, Bool-cases, inl, inr,
}
use edgar.Prelude.Text.{is_empty}
use edgar.Domain.Decode.{contains}
use edgar.Domain.Uri.{assert_serialized_binding_uri}
use edgar.Xbrl.Records.{RecordLibrary, SourceLocator, build_locator, locator_schemes}
use edgar.Xbrl.Locators.{Segment, found, format_expanded_path}
use edgar.Xbrl.Locators.Scan.{found_some}
use edgar.Xbrl.Locators.Readback.{parse_expanded_path-format_expanded_path}
use edgar.Xbrl.Locators.Elements.{
  Node, Position, other_node, at, xml_id_of, plain_id_of, values_in, count, is_unique,
  expanded_element_path, by_id, by_path, locate, element_locator,
}
use edgar.Xbrl.Locators.Positions.{expanded_element_path-injective}
use edgar.Xbrl.Locators.Unique.{Has, unique_position}

-- A locator by an id that the index counts once.
abbrev ById : (Node → Option String) → Node → Position → String → Type 0
ById get root p value =
    (n : Node) × (at root p ≡ some n) × Has get value n × (count value (values_in get root) ≤ 1)

abbrev ByPath : Node → Position → String → Type 0
ByPath root p value =
    (path : List Segment) × (expanded_element_path root p ≡ some path)
    × (format_expanded_path path ≡ ok value)

-- The three kinds of locators.
abbrev Located : Node → Position → SourceLocator → Type 0
Located root p l =
    ((l.scheme ≡ "xml_id") × ById xml_id_of root p l.value)
    ⊎ (((l.scheme ≡ "unqualified_id") × ById plain_id_of root p l.value)
        ⊎ ((l.scheme ≡ "expanded_element_path") × ByPath root p l.value))

is_unique_sound :
    (values : List String) (v : String)
    → is_unique values (some v) ≡ true
    → (is_empty v ≡ false) × (count v values ≤ 1)
is_unique_sound values v h = elim (Bool-cases (is_empty v)) [
  | inl e ↦ absurd (cc (rw e at h))
  | inr e ↦ (e, ground arith)
]

unique_given :
    (values : List String) (o : Option String)
    → is_unique values o ≡ true
    → (v : String) × (o ≡ some v)
unique_given values none h = absurd (cc h)
unique_given values (some v) h = (v, refl)

module _ {D : Type 0} (lib : RecordLibrary D) (document_uri : String) where
  build_locator_same : (l out : SourceLocator) → build_locator lib l ≡ ok out → l ≡ out
  unfolding build_locator
  build_locator_same l out h =
      let (_, _, h1) = >>=-eq-ok (assert_serialized_binding_uri lib.uris l.document_uri) _ h in
      let (_, h2) =
        raise_if-then (not (contains locator_schemes l.scheme))
          (value_error "unknown locator scheme") _ h1 in
      let (_, h3) =
        raise_if-then (is_empty l.value) (value_error "locator value must be non-empty") _ h2 in
      ok_injective h3

  by_id_sound :
      (get : Node → Option String) (scheme : String) (root : Node) (p : Position) (n : Node)
      (l : SourceLocator)
      → at root p ≡ some n
      → is_unique (values_in get root) (get n) ≡ true
      → by_id lib document_uri scheme (get n) ≡ ok l
      → (l.scheme ≡ scheme) × ById get root p l.value
  by_id_sound get scheme root p n l a u h =
      let (v, given) = unique_given (values_in get root) (get n) u in
      let same = build_locator_same _ l (rw given at h) in
      let (full, once) = is_unique_sound (values_in get root) v (rw given at u) in
      let value : v ≡ l.value = ap (λ (k : SourceLocator). k.value) same in
      (ap (λ (k : SourceLocator). k.scheme) (sym same), rw (sym value) (n, a, (given, full), once))

  by_path_sound :
      (root : Node) (p : Position) (l : SourceLocator)
      → by_path lib document_uri root p ≡ ok l
      → (l.scheme ≡ "expanded_element_path") × ByPath root p l.value
  by_path_sound root p l h =
      let (path, e, h1) =
        >>=-eq-ok (found (expanded_element_path root p) "only element nodes can be located") _ h in
      let (text, f, h2) = >>=-eq-ok (format_expanded_path path) _ h1 in
      let same = build_locator_same _ l h2 in
      (
        ap (λ (k : SourceLocator). k.scheme) (sym same),
        (
          path,
          found_some (expanded_element_path root p) "only element nodes can be located" path e,
          f ∙ ap (λ (k : SourceLocator). ok k.value) same,
        ),
      )

  locate_sound :
      (root : Node) (p : Position) (n : Node) (l : SourceLocator)
      → at root p ≡ some n
      → locate lib document_uri root p n ≡ ok l
      → Located root p l
  locate_sound root p n l a h =
      elim (Bool-cases (is_unique (values_in xml_id_of root) (xml_id_of n))) [
        | inl u ↦ inl (by_id_sound xml_id_of "xml_id" root p n l a u (rw u at h))
        | inr not_xml ↦ elim (Bool-cases (is_unique (values_in plain_id_of root) (plain_id_of n))) [
          | inl u ↦
              inr (
                inl
                  (by_id_sound plain_id_of "unqualified_id" root p n l a u (rw (not_xml, u) at h)))
          | inr not_plain ↦ inr (inr (by_path_sound root p l (rw (not_xml, not_plain) at h)))
        ]
      ]

  element_locator-Located :
      (root : Node) (p : Position) (l : SourceLocator)
      → element_locator lib document_uri root p ≡ ok l
      → Located root p l
  unfolding element_locator
  element_locator-Located root p l h =
      let (n, f, h1) = >>=-eq-ok (found (at root p) "only element nodes can be located") _ h in
      locate_sound root p n l (found_some (at root p) "only element nodes can be located" n f) h1

ById-injective :
    (get : Node → Option String) (root : Node) (p q : Position) (v : String)
    → get other_node ≡ none
    → ById get root p v
    → ById get root q v
    → p ≡ q
ById-injective get root p q v o (n, a, has, once) (m, b, has', _) =
    unique_position get v root p q n m o once a has b has'

ByPath-injective :
    (root : Node) (p q : Position) (v : String) → ByPath root p v → ByPath root q v → p ≡ q
ByPath-injective root p q v (path, e, f) (path', e', f') =
    let same : path' ≡ path = ok_injective (
      sym (parse_expanded_path-format_expanded_path path' v f')
      ∙ parse_expanded_path-format_expanded_path path v f) in
    expanded_element_path-injective root p q path e (e' ∙ ap some same)

-- Two different words are not one scheme.
two_schemes : (s a b : String) → (a == b) ≡ false → s ≡ a → s ≡ b → ⊥
two_schemes s a b d e f = absurd (cc (d, (string_eq.equal_iff a b).1 (sym e ∙ f)))

Located-once :
    (root : Node) (p q : Position) (l : SourceLocator) → Located root p l → Located root q l → p ≡ q
Located-once root p q l (inl (s, a)) (inl (t, b)) =
    ById-injective xml_id_of root p q l.value refl a b
Located-once root p q l (inr (inl (s, a))) (inr (inl (t, b))) =
    ById-injective plain_id_of root p q l.value refl a b
Located-once root p q l (inr (inr (s, a))) (inr (inr (t, b))) =
    ByPath-injective root p q l.value a b
Located-once root p q l (inl (s, a)) (inr (inl (t, b))) =
    absurd (two_schemes l.scheme "xml_id" "unqualified_id" refl s t)
Located-once root p q l (inl (s, a)) (inr (inr (t, b))) =
    absurd (two_schemes l.scheme "xml_id" "expanded_element_path" refl s t)
Located-once root p q l (inr (inl (s, a))) (inl (t, b)) =
    absurd (two_schemes l.scheme "xml_id" "unqualified_id" refl t s)
Located-once root p q l (inr (inl (s, a))) (inr (inr (t, b))) =
    absurd (two_schemes l.scheme "unqualified_id" "expanded_element_path" refl s t)
Located-once root p q l (inr (inr (s, a))) (inl (t, b)) =
    absurd (two_schemes l.scheme "xml_id" "expanded_element_path" refl t s)
Located-once root p q l (inr (inr (s, a))) (inr (inl (t, b))) =
    absurd (two_schemes l.scheme "unqualified_id" "expanded_element_path" refl t s)

-- In one document two places with one locator are one element, whether the locator is an `xml:id`,
-- an `id` or an expanded path.
pub element_locator-injective :
    {D : Type 0} (lib : RecordLibrary D) (document_uri : String) (root : Node) (p q : Position)
    (l : SourceLocator)
    → element_locator lib document_uri root p ≡ ok l
    → element_locator lib document_uri root q ≡ ok l
    → p ≡ q
element_locator-injective lib document_uri root p q l h g =
    Located-once root p q l (element_locator-Located lib document_uri root p l h)
      (element_locator-Located lib document_uri root q l g)
