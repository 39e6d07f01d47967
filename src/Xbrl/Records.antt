-- ===== src/Xbrl/Records.antt =====
-- src/edgar/xbrl/records.py: the helpers of the records, qualified names and source locators.
-- A field of a `Literal` type is a text that a check compares with the allowed ones. `RecordLibrary`
-- is Python's `Decimal` and the URI functions. The labels of the messages are not kept.
pub mod Readback
pub mod Diagnostics
pub mod Concepts
pub mod References
pub mod Roles
pub mod Contexts
pub mod Units
pub mod Facts
pub mod Relationships
pub mod Issues
pub mod Clark
pub mod Decoded
pub mod Scenarios
use Prim.Native.Char.{Char, code}
use edgar.Prelude.{
  ℕ, ◌≡◌, refl, Bool, true, false, not, ◌&&◌, ◌||◌, List, [], ◌∷◌, Option, none, some, String,
  Result, ok, err, raise_if, raise_if-eq-ok, >>=-eq-ok, value_error, record_decode_error, ◌>>=◌,
  ◌>>◌, ◌==◌, string_eq, any, All, nat_beq, if◌then◌else◌,
}
use edgar.Prelude.Text.{is_empty, any_char}
use edgar.Prelude.Int.{ℤ}
use edgar.Prelude.Json.{
  Json, Items, Fields, null, boolean, integer, floating, text, array, object, nil, cons, end, field,
  nullable_to_json, get_field, items_of, decode_items, decode_items-items_of,
}
use edgar.Domain.Decode.{
  require_object, require_exact_keys, require_str, require_bool, require_int, require_list,
  contains, nullable, required,
}
use edgar.Domain.Uri.{UriLibrary, assert_serialized_binding_uri}

-- `str(d)`, `Decimal(text)`, none on an `InvalidOperation`, and `d.is_finite()`.
pub record RecordLibrary (D : Type 0) : Type 0 where
  pub uris : UriLibrary
  pub str : D → String
  pub decimal : String → Option D
  pub is_finite : D → Bool

unfoldable pub require_literal : List String → Json → Result String
require_literal allowed value = do
  word ← require_str value
  raise_if (not (contains allowed word)) (record_decode_error "must be one of the allowed words")
  ok word

unfoldable pub require_nullable_literal : List String → Json → Result (Option String)
require_nullable_literal allowed = nullable (require_literal allowed)

unfoldable pub require_nullable_str : Json → Result (Option String)
require_nullable_str = nullable require_str

unfoldable pub require_nullable_bool : Json → Result (Option Bool)
require_nullable_bool = nullable require_bool

unfoldable pub require_nullable_int : Json → Result (Option ℤ)
require_nullable_int = nullable require_int

-- `value is not None and value not in allowed`
abbrev pub outside : List String → Option String → Bool
outside allowed none = false
outside allowed (some word) = not (contains allowed word)

abbrev mutual
  -- `_require_json_value`: a float is refused, at each depth.
  pub require_json_value : Json → Result Json
  require_json_value null = ok null
  require_json_value (boolean b) = ok (boolean b)
  require_json_value (integer n) = ok (integer n)
  require_json_value (text s) = ok (text s)
  require_json_value (floating s) = err (record_decode_error "has unsupported JSON type")
  require_json_value (array vs) = do out ← json_items vs; ok (array out)
  require_json_value (object fs) = do out ← json_fields fs; ok (object out)

  pub json_items : Items → Result Items
  json_items nil = ok nil
  json_items (cons v vs) = do item ← require_json_value v; out ← json_items vs; ok (cons item out)

  pub json_fields : Fields → Result Fields
  json_fields end = ok end
  json_fields (field key v fs) = do
    item ← require_json_value v
    out ← json_fields fs
    ok (field key item out)

pub record ExpandedQName : Type 0 where
  pub namespace_uri : Option String
  pub local_name : String

-- `value is not None and not value`
abbrev pub empty_text : Option String → Bool
empty_text none = false
empty_text (some s) = is_empty s

-- `":{}/ \t\r\n"`
abbrev is_name_breaker : ℕ → Bool
is_name_breaker c = any (nat_beq c) (58 ∷ 123 ∷ 125 ∷ 47 ∷ 32 ∷ 9 ∷ 13 ∷ 10 ∷ [])

-- The constructor, with its `__post_init__`.
unfoldable pub build_qname : ExpandedQName → Result ExpandedQName
build_qname q = do
  raise_if (is_empty q.local_name) (value_error "local_name must be non-empty")
  raise_if (any_char is_name_breaker q.local_name) (value_error "local_name is not an NCName")
  raise_if (empty_text q.namespace_uri) (value_error "namespace_uri must be None or non-empty")
  ok q

unfoldable pub qname_to_dict : ExpandedQName → Json
qname_to_dict q = object (
    field "namespace_uri" (nullable_to_json text q.namespace_uri)
      (field "local_name" (text q.local_name) end))

abbrev qname_keys : List String
qname_keys = "namespace_uri" ∷ "local_name" ∷ []

unfoldable pub require_qname : Json → Result ExpandedQName
require_qname value = do
  obj ← require_object value
  require_exact_keys obj qname_keys
  namespace ← required require_nullable_str obj "namespace_uri"
  name ← required require_str obj "local_name"
  build_qname (record { namespace_uri = namespace; local_name = name })

unfoldable pub require_nullable_qname : Json → Result (Option ExpandedQName)
require_nullable_qname = nullable require_qname

unfoldable pub require_qnames : Json → Result (List ExpandedQName)
require_qnames value = do items ← require_list value; decode_items require_qname items

-- `_assert_identity_qname`, whose test of the type always passes.
abbrev pub assert_identity_qname : ExpandedQName → Result (Unit {0})
assert_identity_qname q =
    raise_if (is_empty q.local_name) (value_error "local_name must be non-empty")

pub record SourceLocator : Type 0 where
  pub document_uri : String
  pub scheme : String
  pub value : String

abbrev pub locator_schemes : List String
locator_schemes = "xml_id" ∷ "unqualified_id" ∷ "expanded_element_path" ∷ []

unfoldable pub locator_to_dict : SourceLocator → Json
locator_to_dict l = object (
    field "document_uri" (text l.document_uri)
      (field "scheme" (text l.scheme) (field "value" (text l.value) end)))

abbrev locator_keys : List String
locator_keys = "document_uri" ∷ "scheme" ∷ "value" ∷ []

-- `_decode_records` on a JSON array.
unfoldable pub decode_records : {A : Type 0} → (Json → Result A) → Json → Result (List A)
decode_records decode value = do items ← require_list value; decode_items decode items

unfoldable pub records_to_list : {A : Type 0} → (A → Json) → List A → Json
records_to_list encode rs = array (items_of encode rs)

module _ {D : Type 0} (lib : RecordLibrary D) where
  unfoldable pub build_locator : SourceLocator → Result SourceLocator
  build_locator l = do
    assert_serialized_binding_uri lib.uris l.document_uri
    raise_if (not (contains locator_schemes l.scheme)) (value_error "unknown locator scheme")
    raise_if (is_empty l.value) (value_error "locator value must be non-empty")
    ok l

  unfoldable pub require_locator : Json → Result SourceLocator
  require_locator value = do
    obj ← require_object value
    require_exact_keys obj locator_keys
    scheme ← required (require_literal locator_schemes) obj "scheme"
    document_uri ← required require_str obj "document_uri"
    word ← required require_str obj "value"
    build_locator (record { document_uri = document_uri; scheme = scheme; value = word })

  unfoldable pub require_nullable_locator : Json → Result (Option SourceLocator)
  require_nullable_locator = nullable require_locator

  unfoldable pub require_locators : Json → Result (List SourceLocator)
  require_locators value = do items ← require_list value; decode_items require_locator items

  -- `Decimal(text)`, refused where it is no number or not a finite one.
  abbrev finite_decimal : Option D → Result D
  finite_decimal none = err (record_decode_error "is not an exact decimal")
  finite_decimal (some d) =
      if lib.is_finite d then ok d else err (record_decode_error "must be a finite decimal")

  abbrev require_decimal : Json → Result D
  require_decimal value = do word ← require_str value; finite_decimal (lib.decimal word)

  unfoldable pub require_nullable_decimal : Json → Result (Option D)
  require_nullable_decimal = nullable require_decimal

  unfoldable pub decimal_to_json : Option D → Json
  decimal_to_json o = nullable_to_json (λ d. text (lib.str d)) o

  -- `value is not None and not value.is_finite()`
  abbrev pub infinite : Option D → Bool
  infinite none = false
  infinite (some d) = not (lib.is_finite d)

  abbrev pub assert_finite_decimal : Option D → Result (Unit {0})
  assert_finite_decimal o = raise_if (infinite o) (value_error "must be a finite decimal")
