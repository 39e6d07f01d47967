-- ===== src/Prelude/Json.antt =====
-- JSON values as Python's `json` gives them. An object is the list of its fields; a float is kept as
-- the text that it prints as, since the decoders only refuse it.
use edgar.Prelude.{
  ◌≡◌, refl, Bool, List, [], ◌∷◌, Option, none, some, String, Result, ok, err, ◌>>=◌, ◌==◌,
  string_eq, All, if◌then◌else◌, key_error,
}
use edgar.Prelude.Int.{ℤ}

mutual
  pub data Json : Type 0 where
    null : Json
    boolean : Bool → Json
    integer : ℤ → Json
    floating : String → Json
    text : String → Json
    array : Items → Json
    object : Fields → Json

  pub data Items : Type 0 where
    nil : Items
    cons : Json → Items → Items

  pub data Fields : Type 0 where
    end : Fields
    field : String → Json → Fields → Fields

abbrev pub keys_of : Fields → List String
keys_of end = []
keys_of (field k v fs) = k ∷ keys_of fs

-- `obj[key]`
abbrev pub get_field : String → Fields → Result Json
get_field key end = err (key_error key)
get_field key (field k v fs) = if k == key then ok v else get_field key fs

module _ {ℓ} {A : Type ℓ} where
  abbrev pub items_of : (A → Json) → List A → Items
  items_of encode [] = nil
  items_of encode (a ∷ as') = cons (encode a) (items_of encode as')

  -- A tuple of what a decoder makes of the items, in their order.
  abbrev pub decode_items : (Json → Result A) → Items → Result (List A)
  decode_items decode nil = ok []
  decode_items decode (cons v vs) = do a ← decode v; rest ← decode_items decode vs; ok (a ∷ rest)

  -- A decoder that inverts an encoder on each element inverts it on the list.
  pub decode_items-items_of :
      (decode : Json → Result A) (encode : A → Json) (l : List A)
      → All (λ a. decode (encode a) ≡ ok a) l
      → decode_items decode (items_of encode l) ≡ ok l
  decode_items-items_of decode encode [] h = refl
  decode_items-items_of decode encode (a ∷ as') h =
      rw (h.0, decode_items-items_of decode encode as' h.1) refl

-- A field that may be `None`.
unfoldable pub nullable_to_json {ℓ} : {A : Type ℓ} → (A → Json) → Option A → Json
nullable_to_json encode none = null
nullable_to_json encode (some a) = encode a
