-- ===== src/Xbrl/Records/Decoded.antt =====
-- src/edgar/xbrl/records.py: what holds of each record that `from_dict` returns.
use edgar.Prelude.{
  not-false, ◌≡◌, refl, sym, subst, Bool, true, false, not, ◌||◌, Result, ok, err, Error, raise_if,
  raise_if-then, ok_injective, >>=-eq-ok, value_error, record_decode_error, ◌>>=◌, ◌>>◌, ◌==◌,
  string_eq, if◌then◌else◌, ap, ◌∙◌,
}
use edgar.Prelude.Json.{
  Json, Items, Fields, null, boolean, integer, floating, text, array, object, nil, cons, end, field,
}
use edgar.Domain.Decode.{contains}
use edgar.Xbrl.Records.{RecordLibrary, require_json_value, json_items, json_fields}
use edgar.Xbrl.Records.Facts.{bool_beq}
use edgar.Xbrl.Records.Contexts.{
  ContextDimensionRecord, build_context_dimension, read_context_dimension,
  context_dimension_from_dict, context_elements, member_kinds, assert_member, given,
}

abbrev mutual
  -- Whether a float stands anywhere in a value.
  pub has_float : Json → Bool
  has_float null = false
  has_float (boolean b) = false
  has_float (integer n) = false
  has_float (floating s) = true
  has_float (text s) = false
  has_float (array vs) = items_float vs
  has_float (object fs) = fields_float fs

  pub items_float : Items → Bool
  items_float nil = false
  items_float (cons v vs) = has_float v || items_float vs

  pub fields_float : Fields → Bool
  fields_float end = false
  fields_float (field k v fs) = has_float v || fields_float fs

abbrev pub unsupported : {A : Type 0} → Result A
unsupported = err (record_decode_error "has unsupported JSON type")

bind_one :
    {A C : Type 0} (b : Bool) (x : A) (f : A → C)
    → ((if b then unsupported else ok x) >>= λ a. ok (f a)) ≡ (if b then unsupported else ok (f x))
bind_one true x f = refl
bind_one false x f = refl

bind_two :
    {A B C : Type 0} (a b : Bool) (x : A) (y : B) (f : A → B → C)
    → ((if a then unsupported else ok x) >>= λ i.
        (if b then unsupported else ok y) >>= λ o. ok (f i o))
      ≡ (if a || b then unsupported else ok (f x y))
bind_two true b x y f = refl
bind_two false true x y f = refl
bind_two false false x y f = refl

mutual
  json_value_lem : (v : Json) → require_json_value v ≡ (if has_float v then unsupported else ok v)
  json_value_lem null = refl
  json_value_lem (boolean b) = refl
  json_value_lem (integer n) = refl
  json_value_lem (floating s) = refl
  json_value_lem (text s) = refl
  json_value_lem (array vs) = rw (json_items_lem vs) (bind_one (items_float vs) vs array)
  json_value_lem (object fs) = rw (json_fields_lem fs) (bind_one (fields_float fs) fs object)

  json_items_lem : (vs : Items) → json_items vs ≡ (if items_float vs then unsupported else ok vs)
  json_items_lem nil = refl
  json_items_lem (cons v vs) =
      rw (json_value_lem v, json_items_lem vs)
        (bind_two (has_float v) (items_float vs) v vs (λ i o. cons i o))

  json_fields_lem :
      (fs : Fields) → json_fields fs ≡ (if fields_float fs then unsupported else ok fs)
  json_fields_lem end = refl
  json_fields_lem (field k v fs) =
      rw (json_value_lem v, json_fields_lem fs)
        (bind_two (has_float v) (fields_float fs) v fs (λ i o. field k i o))

-- The fields of a plain object come back as they are.
pub json_fields_plain : (fs : Fields) → fields_float fs ≡ false → json_fields fs ≡ ok fs
json_fields_plain fs h = json_fields_lem fs ∙ ap (λ b. if b then unsupported else ok fs) h

-- `_require_json_value` returns the value it is given, unless a float stands in it at some depth,
-- which it refuses.
pub require_json_value_lem :
    (v : Json) → require_json_value v ≡ (if has_float v then unsupported else ok v)
require_json_value_lem v = json_value_lem v

agree : (a b : Bool) → not (bool_beq a b) ≡ false → a ≡ b
agree true b e = sym (not-false b e)
agree false true e = absurd (cc e)
agree false false e = refl

abbrev pub IsOneKind : ContextDimensionRecord → Type 0
IsOneKind r =
    (contains member_kinds r.member_kind ≡ true)
    × (given r.member ≡ (r.member_kind == "explicit"))
    × (given r.typed_member_xml ≡ not (r.member_kind == "explicit"))

one_kind_by :
    (m x explicit : Bool) (e1 e2 e3 e4 : Error) {u : Unit {0}}
    → (if explicit
        then raise_if (not m) e1 >> raise_if x e2
        else raise_if (not x) e3 >> raise_if m e4)
      ≡ ok u
    → (m ≡ explicit) × (x ≡ not explicit)
one_kind_by true true true e1 e2 e3 e4 h = absurd (cc h)
one_kind_by true false true e1 e2 e3 e4 h = (refl, refl)
one_kind_by false x true e1 e2 e3 e4 h = absurd (cc h)
one_kind_by true true false e1 e2 e3 e4 h = absurd (cc h)
one_kind_by false true false e1 e2 e3 e4 h = (refl, refl)
one_kind_by m false false e1 e2 e3 e4 h = absurd (cc h)

one_kind :
    (r : ContextDimensionRecord) {u : Unit {0}}
    → assert_member r ≡ ok u
    → (given r.member ≡ (r.member_kind == "explicit"))
      × (given r.typed_member_xml ≡ not (r.member_kind == "explicit"))
one_kind r h =
    one_kind_by (given r.member) (given r.typed_member_xml) (r.member_kind == "explicit")
      (value_error "explicit dimension requires a member QName")
      (value_error "explicit dimension must not carry typed member XML")
      (value_error "typed dimension requires typed_member_xml")
      (value_error "typed dimension must not carry an explicit member QName") h

module _ {D : Type 0} (lib : RecordLibrary D) where
  built_dimension : (r s : ContextDimensionRecord) → build_context_dimension r ≡ ok s → IsOneKind s
  unfolding build_context_dimension
  built_dimension r s h =
      let (k1, h1) =
        raise_if-then (not (contains context_elements r.context_element))
          (value_error "unknown context_element") _ h in
      let (k2, h2) =
        raise_if-then (not (contains member_kinds r.member_kind))
          (value_error "unknown member_kind") _ h1 in
      let (u, k3, h3) = >>=-eq-ok (assert_member r) _ h2 in
      subst IsOneKind (ok_injective h3) (not-false _ k2, (one_kind r k3).0, (one_kind r k3).1)

  -- A dimension record that `from_dict` returns is explicit or typed: it has a member exactly where it
  -- is explicit, and XML exactly where it is not.
  pub context_dimension_from_dict-IsOneKind :
      (v : Json) (r : ContextDimensionRecord)
      → context_dimension_from_dict lib v ≡ ok r
      → IsOneKind r
  unfolding context_dimension_from_dict
  context_dimension_from_dict-IsOneKind v r h =
      let (x, k, b) = >>=-eq-ok (read_context_dimension lib v) _ h in built_dimension x r b
