-- ===== src/Xbrl/Records/Readback.antt =====
-- src/edgar/xbrl/records.py: what the shared encoders write, the shared decoders read back.
use edgar.Prelude.{
  not-false, ◌≡◌, refl, Bool, true, false, not, List, Option, none, some, String, Result, ok,
  raise_if-then, >>=-eq-ok, All, All-map, OnSome,
}
use edgar.Prelude.Int.{ℤ}
use edgar.Prelude.Json.{nullable_to_json, Json, text, boolean, integer, decode_items-items_of}
use edgar.Domain.Decode.{contains}
use edgar.Domain.Uri.{assert_serialized_binding_uri}
use edgar.Xbrl.Records.{
  RecordLibrary, require_literal, require_nullable_literal, require_nullable_str,
  require_nullable_bool, require_nullable_int, outside, ExpandedQName, build_qname, qname_to_dict,
  require_qname, require_nullable_qname, require_qnames, SourceLocator, build_locator,
  locator_to_dict, require_locator, require_nullable_locator, require_locators,
  require_nullable_decimal, decimal_to_json, infinite, decode_records, records_to_list,
  locator_schemes,
}

pub require_literal-text :
    (allowed : List String) (s : String)
    → not (contains allowed s) ≡ false
    → require_literal allowed (text s) ≡ ok s
unfolding require_literal
require_literal-text allowed s h = rw h refl

pub require_nullable_literal_lem :
    (allowed : List String) (o : Option String)
    → outside allowed o ≡ false
    → require_nullable_literal allowed (nullable_to_json text o) ≡ ok o
unfolding require_nullable_literal nullable_to_json
require_nullable_literal_lem allowed none h = refl
require_nullable_literal_lem allowed (some s) h = rw (require_literal-text allowed s h) refl

pub require_nullable_str_lem :
    (o : Option String) → require_nullable_str (nullable_to_json text o) ≡ ok o
unfolding require_nullable_str nullable_to_json
require_nullable_str_lem none = refl
require_nullable_str_lem (some s) = refl

pub require_nullable_bool_lem :
    (o : Option Bool) → require_nullable_bool (nullable_to_json boolean o) ≡ ok o
unfolding require_nullable_bool nullable_to_json
require_nullable_bool_lem none = refl
require_nullable_bool_lem (some s) = refl

pub require_nullable_int_lem :
    (o : Option ℤ) → require_nullable_int (nullable_to_json integer o) ≡ ok o
unfolding require_nullable_int nullable_to_json
require_nullable_int_lem none = refl
require_nullable_int_lem (some s) = refl

pub require_qname-qname_to_dict :
    (q : ExpandedQName) → build_qname q ≡ ok q → require_qname (qname_to_dict q) ≡ ok q
unfolding require_qname qname_to_dict
require_qname-qname_to_dict q h = rw (require_nullable_str_lem q.namespace_uri) h

-- A name that `ExpandedQName` accepts.
abbrev pub IsQName : ExpandedQName → Type 0
IsQName q = build_qname q ≡ ok q

pub require_nullable_qname_lem :
    (o : Option ExpandedQName)
    → OnSome IsQName o
    → require_nullable_qname (nullable_to_json qname_to_dict o) ≡ ok o
unfolding require_nullable_qname nullable_to_json qname_to_dict
require_nullable_qname_lem none h = refl
require_nullable_qname_lem (some q) h = rw (require_qname-qname_to_dict q h) refl

pub decode_records-records_to_list :
    {A : Type 0} (decode : Json → Result A) (encode : A → Json) (rs : List A)
    → All (λ a. decode (encode a) ≡ ok a) rs
    → decode_records decode (records_to_list encode rs) ≡ ok rs
unfolding decode_records records_to_list
decode_records-records_to_list decode encode rs h = decode_items-items_of decode encode rs h

pub require_qnames-records_to_list :
    (qs : List ExpandedQName)
    → All IsQName qs
    → require_qnames (records_to_list qname_to_dict qs) ≡ ok qs
unfolding require_qnames records_to_list
require_qnames-records_to_list qs h =
    decode_items-items_of require_qname qname_to_dict qs (All-map require_qname-qname_to_dict qs h)

module _ {D : Type 0} (lib : RecordLibrary D) where
  -- A locator that `SourceLocator` accepts.
  abbrev pub IsLocator : SourceLocator → Type 0
  IsLocator l = build_locator lib l ≡ ok l

  build_locator_scheme :
      (l : SourceLocator) → IsLocator l → not (contains locator_schemes l.scheme) ≡ false
  unfolding build_locator
  build_locator_scheme l h =
      let (x, h1, h2) = >>=-eq-ok (assert_serialized_binding_uri lib.uris l.document_uri) _ h in
      (raise_if-then _ _ _ h2).0

  pub require_locator-locator_to_dict :
      (l : SourceLocator) → IsLocator l → require_locator lib (locator_to_dict l) ≡ ok l
  unfolding require_locator locator_to_dict
  require_locator-locator_to_dict l h =
      rw (require_literal-text locator_schemes l.scheme (build_locator_scheme l h)) h

  pub require_nullable_locator_lem :
      (o : Option SourceLocator)
      → OnSome IsLocator o
      → require_nullable_locator lib (nullable_to_json locator_to_dict o) ≡ ok o
  unfolding require_nullable_locator nullable_to_json locator_to_dict
  require_nullable_locator_lem none h = refl
  require_nullable_locator_lem (some q) h = rw (require_locator-locator_to_dict q h) refl

  -- Python reads a finite `Decimal` back from its `str`.
  abbrev pub ReadsBack : Type 0
  ReadsBack = (d : D) → lib.is_finite d ≡ true → lib.decimal (lib.str d) ≡ some d

  pub require_nullable_decimal_lem :
      (o : Option D)
      → ReadsBack
      → infinite lib o ≡ false
      → require_nullable_decimal lib (decimal_to_json lib o) ≡ ok o
  unfolding require_nullable_decimal decimal_to_json nullable_to_json
  require_nullable_decimal_lem none reads h = refl
  require_nullable_decimal_lem (some d) reads h =
      let f : lib.is_finite d ≡ true = not-false (lib.is_finite d) h in rw (reads d f, f) refl

  pub require_locators-records_to_list :
      (ls : List SourceLocator)
      → All IsLocator ls
      → require_locators lib (records_to_list locator_to_dict ls) ≡ ok ls
  unfolding require_locators records_to_list
  require_locators-records_to_list ls h =
      decode_items-items_of (require_locator lib) locator_to_dict ls
        (All-map require_locator-locator_to_dict ls h)
