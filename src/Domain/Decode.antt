-- ===== src/Domain/Decode.antt =====
-- src/edgar/domain/decode.py: strict decoding of JSON types. The labels of the messages are not kept.
-- Dates are those of Python: `from_iso` and `iso` are its `fromisoformat` and `isoformat`.
use edgar.Prelude.{
  ◌≡◌, refl, Bool, false, not, List, Option, none, some, String, Result, ok, err, raise_if,
  bundle_decode_error, ◌>>=◌, ◌>>◌, ◌==◌, string_eq, beq_refl, any,
}
use edgar.Prelude.Text.{is_empty}
use edgar.Prelude.Int.{ℤ}
use edgar.Prelude.Json.{
  Json, Items, Fields, get_field, null, boolean, integer, text, array, object, keys_of,
  decode_items,
}

abbrev pub require_object : Json → Result Fields
require_object (object fs) = ok fs
require_object _ = err (bundle_decode_error "must be a JSON object")

abbrev pub contains : List String → String → Bool
contains keys key = any (λ k. k == key) keys

abbrev pub require_exact_keys : Fields → List String → Result (Unit {0})
require_exact_keys data_fields keys = do
  raise_if (any (λ k. not (contains (keys_of data_fields) k)) keys)
      (bundle_decode_error "missing fields")
  raise_if (any (λ k. not (contains keys k)) (keys_of data_fields))
      (bundle_decode_error "has unknown fields")

abbrev pub require_str : Json → Result String
require_str (text s) = ok s
require_str _ = err (bundle_decode_error "must be a JSON string")

abbrev pub require_bool : Json → Result Bool
require_bool (boolean b) = ok b
require_bool _ = err (bundle_decode_error "must be a JSON boolean")

abbrev pub require_int : Json → Result ℤ
require_int (integer n) = ok n
require_int _ = err (bundle_decode_error "must be a JSON integer")

abbrev pub require_list : Json → Result Items
require_list (array vs) = ok vs
require_list _ = err (bundle_decode_error "must be a JSON array")

abbrev pub require_list_of_str : Json → Result (List String)
require_list_of_str value = do items ← require_list value; decode_items require_str items

-- `decoder(obj[key])`
abbrev pub required {ℓ} : {A : Type ℓ} → (Json → Result A) → Fields → String → Result A
required decode obj key = get_field key obj >>= decode

-- `None if value is None else …`
abbrev pub nullable {ℓ} : {A : Type ℓ} → (Json → Result A) → Json → Result (Option A)
nullable decode null = ok none
nullable decode v = do a ← decode v; ok (some a)

abbrev pub require_nullable_str : Json → Result (Option String)
require_nullable_str = nullable require_str

module _ {D : Type 0} (from_iso : String → Result D) (iso : D → String) where
  -- `require_canonical_date` and `require_canonical_datetime`, which differ in the type.
  abbrev pub require_canonical : Json → Result D
  require_canonical value = do
    raw ← require_str value
    raise_if (is_empty raw) (bundle_decode_error "must not be empty")
    parsed ← from_iso raw
    raise_if (not (iso parsed == raw)) (bundle_decode_error "is not canonical")
    ok parsed

  abbrev pub require_nullable_canonical : Json → Result (Option D)
  require_nullable_canonical = nullable require_canonical

  -- The text that a date prints as decodes to the date, if `fromisoformat` reads it back.
  pub require_canonical-iso :
      (d : D)
      → from_iso (iso d) ≡ ok d
      → is_empty (iso d) ≡ false
      → require_canonical (text (iso d)) ≡ ok d
  require_canonical-iso d h e = rw (e, h, beq_refl (iso d)) refl
