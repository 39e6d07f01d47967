-- ===== src/Xbrl/Records/Clark.antt =====
-- src/edgar/xbrl/records.py: the Clark notation of a qualified name, `{namespace}local`.
use Prim.Native.Char.{Char, code}
use edgar.Prelude.{
  ℕ, ◌≡◌, refl, ◌∙◌, arith, Bool, false, Option, none, some, String, Result, ok, err, raise_if-then,
  value_error, OnSome, nat_beq, if◌then◌else◌, Bool-cases, inl, inr,
}
use edgar.Prelude.Text.{is_empty, any_char}
use edgar.Registry.Mapping.{partition_brace}
use edgar.Xbrl.Records.{ExpandedQName, build_qname, is_name_breaker}
use edgar.Xbrl.Records.Readback.{IsQName}

-- `f"{namespace_uri}}}{local_name}"`
abbrev closed : String → String → String
closed String.[] local = String.◌∷◌ "}" local
closed (String.◌∷◌ c s) local = String.◌∷◌ c (closed s local)

abbrev clark_text : Option String → String → String
clark_text none local = local
clark_text (some namespace) local = String.◌∷◌ "{" (closed namespace local)

unfoldable pub clark : ExpandedQName → String
clark q = clark_text q.namespace_uri q.local_name

abbrev from_parts : Option (String × String) → Result ExpandedQName
from_parts none = err (value_error "malformed Clark notation")
from_parts (some (namespace, local)) =
    build_qname (record { namespace_uri = some namespace; local_name = local })

abbrev unqualified : String → Result ExpandedQName
unqualified text = build_qname (record { namespace_uri = none; local_name = text })

-- `text[1:].partition("}")` behind a brace, and otherwise the whole text.
unfoldable pub from_clark : String → Result ExpandedQName
from_clark String.[] = unqualified String.[]
from_clark (String.◌∷◌ c s) =
    if nat_beq (code c) 123 then from_parts (partition_brace s) else unqualified (String.◌∷◌ c s)

abbrev pub is_closing : ℕ → Bool
is_closing c = nat_beq c 125

partition_brace-closed :
    (namespace local : String)
    → any_char is_closing namespace ≡ false
    → partition_brace (closed namespace local) ≡ some (namespace, local)
partition_brace-closed String.[] local h = refl
partition_brace-closed (String.◌∷◌ c s) local h = elim (Bool-cases (is_closing (code c))) [
  | inl e ↦ absurd (cc (rw e at h))
  | inr e ↦ let k = partition_brace-closed s local (rw e at h) in rw (e, k) refl
]

-- A local name does not begin with a brace.
no_brace :
    (c : Char) (s : String)
    → any_char is_name_breaker (String.◌∷◌ c s) ≡ false
    → nat_beq (code c) 123 ≡ false
no_brace c s h = ground arith

from_clark-local :
    (local : String) → any_char is_name_breaker local ≡ false → from_clark local ≡ unqualified local
unfolding from_clark
from_clark-local String.[] h = refl
from_clark-local (String.◌∷◌ c s) h = rw (no_brace c s h) refl

local_part : (q : ExpandedQName) → IsQName q → any_char is_name_breaker q.local_name ≡ false
unfolding build_qname
local_part q h =
    let (k, h1) =
      raise_if-then (is_empty q.local_name) (value_error "local_name must be non-empty") _ h in
    (raise_if-then (any_char is_name_breaker q.local_name)
      (value_error "local_name is not an NCName") _ h1).0

clark_back :
    (namespace : Option String) (local : String)
    → any_char is_name_breaker local ≡ false
    → OnSome (λ n. any_char is_closing n ≡ false) namespace
    → from_clark (clark_text namespace local)
      ≡ build_qname (record { namespace_uri = namespace; local_name = local })
unfolding from_clark
clark_back none local h k = from_clark-local local h
clark_back (some namespace) local h k = rw (partition_brace-closed namespace local k) refl

-- `from_clark` reads the Clark notation of an accepted name back as that name, if no `}` stands in its
-- namespace.
pub from_clark-clark :
    (q : ExpandedQName)
    → IsQName q
    → OnSome (λ n. any_char is_closing n ≡ false) q.namespace_uri
    → from_clark (clark q) ≡ ok q
unfolding clark
from_clark-clark q h k = clark_back q.namespace_uri q.local_name (local_part q h) k ∙ h
