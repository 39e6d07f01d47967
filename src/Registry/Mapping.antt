-- ===== src/Registry/Mapping.antt =====
-- src/edgar/registry/mapping.py: the validated inputs of the ledger. `ExpandedQName` is that of
-- src/edgar/xbrl/records.py. Pydantic raises a validator's `ValueError` as its own `ValidationError`.
use Prim.Native.Char.{code}
use edgar.Prelude.{
  ℕ, Bool, not, List, [], ◌∷◌, Option, none, some, String, Result, ok, err, raise_if, value_error,
  ◌>>=◌, ◌>>◌, ◌==◌, string_eq, any, leb, nat_beq, if◌then◌else◌,
}
use edgar.Prelude.Text.{strip, is_empty, any_char}
use edgar.Domain.Identifiers.{validate_cik}
use edgar.Registry.Interval.{Scope, ScopeKind, global, issuer}
use edgar.Registry.Store.{Relation, MappingMethod, MappingEvidenceItem}

-- `text.partition("}")`, none if there is no brace.
abbrev pub partition_brace : String → Option (String × String)
partition_brace String.[] = none
partition_brace (String.◌∷◌ c s) =
    let rest = partition_brace s in
    if nat_beq (code c) b'}'
    then some (String.[], s)
    else elim rest [ none ↦ none | some (a, b) ↦ some (String.◌∷◌ c a, b) ]

-- `":{}/ \t\r\n"`
abbrev not_nc_name_char : ℕ → Bool
not_nc_name_char c = any (nat_beq c) (b':' ∷ b'{' ∷ b'}' ∷ b'/' ∷ 32 ∷ 9 ∷ 13 ∷ 10 ∷ [])

-- `ExpandedQName.__post_init__`, for a namespace that is given.
unfoldable pub expanded_qname : String → String → Result (String × String)
expanded_qname namespace_uri local_name = do
  raise_if (is_empty local_name) (value_error "local_name must be non-empty")
  raise_if (any_char not_nc_name_char local_name) (value_error "local_name is not an NCName")
  raise_if (is_empty namespace_uri) (value_error "namespace_uri must be None or non-empty")
  ok (namespace_uri, local_name)

abbrev from_partition : Option (String × String) → Result (String × String)
from_partition none = err (value_error "source concept must be in Clark notation")
from_partition (some (namespace, local)) = expanded_qname namespace local

abbrev clark_of : String → Result (String × String)
clark_of String.[] = err (value_error "source concept must be in Clark notation")
clark_of (String.◌∷◌ c s) =
    if nat_beq (code c) b'{'
    then from_partition (partition_brace s)
    else err (value_error "source concept must be in Clark notation")

-- `parse_clark_qname`: a text with no `{` in front or no `}` is rejected before `from_clark`, which
-- finds the brace then; an empty namespace is refused by `ExpandedQName` already.
unfoldable pub parse_clark_qname : String → Result (String × String)
parse_clark_qname value = clark_of (strip value)

pub record MappingAssertionCreate : Type 0 where
  pub concept : String
  pub target_metric_key : String
  pub relation : Relation
  pub scope : Scope
  pub method : MappingMethod
  pub rationale : Option String
  pub evidence : List MappingEvidenceItem
  pub created_by : String

pub record MappingAssertionRevision : Type 0 where
  pub method : MappingMethod
  pub rationale : Option String
  pub evidence : List MappingEvidenceItem
  pub created_by : String

abbrev stripped_nonblank : String → Result String
stripped_nonblank value = do
  let stripped = strip value
  raise_if (is_empty stripped) (value_error "must be non-empty")
  ok stripped

abbrev stripped_rationale : Option String → Result (Option String)
stripped_rationale none = ok none
stripped_rationale (some value) = do stripped ← stripped_nonblank value; ok (some stripped)

-- `_cik`
abbrev padded_cik : Option String → Result (Option String)
padded_cik none = ok none
padded_cik (some value) = do
  normalized ← validate_cik value
  raise_if (not (value == normalized)) (value_error "cik must be zero-padded")
  ok (some normalized)

abbrev scope_rule : ScopeKind → Option String → Result (Unit {0})
scope_rule global (some cik) = err (value_error "global scope requires issuer_cik to be omitted")
scope_rule issuer none = err (value_error "issuer scope requires issuer_cik")
scope_rule _ _ = ok tt

abbrev date_rule : Option ℕ → Option ℕ → Result (Unit {0})
date_rule (some valid_from) (some valid_to) =
    raise_if (not (leb valid_from valid_to)) (value_error "valid_from must be <= valid_to")
date_rule _ _ = ok tt

-- The validators of `MappingAssertionCreate`, in the order of the fields, then of the model. The
-- evidence items are validated on their own.
unfoldable pub validate_create : MappingAssertionCreate → Result MappingAssertionCreate
validate_create create = do
  parse_clark_qname create.concept
  target_metric_key ← stripped_nonblank create.target_metric_key
  issuer_cik ← padded_cik create.scope.issuer_cik
  rationale ← stripped_rationale create.rationale
  created_by ← stripped_nonblank create.created_by
  scope_rule create.scope.kind issuer_cik
  date_rule create.scope.valid_from create.scope.valid_to
  ok (record create {
    target_metric_key = target_metric_key;
    scope = record create.scope { issuer_cik = issuer_cik };
    rationale = rationale;
    created_by = created_by;
  })
