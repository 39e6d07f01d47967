-- ===== src/Financials/Models.antt =====
-- src/edgar/financials/models.py, taxonomy_family.py of src/edgar/xbrl, and `clark_qname` of
-- src/edgar/domain/concept_id.py.
use edgar.Prelude.{
  ℕ, Bool, true, false, ◌&&◌, ◌||◌, List, [], ◌∷◌, Option, none, some, String, Result, ok, raise_if,
  value_error, ◌>>◌, ◌==◌, string_eq, option_eq, any, nat_beq, if◌then◌else◌,
}
use edgar.Prelude.Text.{is_empty, any_char}
use edgar.Prelude.Decimal.{Decimal}
use Prim.Native.String.{◌++◌ as str_append}
use text.Mathlib.Text.{starts_with}

pub data Relation : Type 0 where
  exact narrower broader related : Relation

abbrev pub relation_is_exact : Relation → Bool
relation_is_exact exact = true
relation_is_exact _ = false

abbrev pub relation_is_broader : Relation → Bool
relation_is_broader broader = true
relation_is_broader _ = false

pub data ObservationStatus : Type 0 where
  value missing unsupported conflict : ObservationStatus

pub data ObservationReason : Type 0 where
  broader_only decision_scope wrong_form : ObservationReason

pub record UnitMeasureRow : Type 0 where
  pub side : String
  pub ordinal : ℕ
  pub measure_namespace_uri : Option String
  pub measure_local_name : String

pub record FactRow : Type 0 where
  pub fact_id : ℕ
  pub concept_namespace : String
  pub concept_local_name : String
  pub source_qname : String
  pub context_id : ℕ
  pub value_status : String
  pub resolved_numeric : Option Decimal
  pub is_nil : Bool
  pub decimals : Option String
  pub lexical_value : Option String
  pub entity_scheme : String
  pub entity_identifier : String
  pub period_kind : String
  pub instant_lexical : Option String
  pub start_lexical : Option String
  pub end_lexical : Option String
  pub has_dimensions : Bool
  pub unit_measures : List UnitMeasureRow

pub record Support : Type 0 where
  pub fact_id : ℕ
  pub accession : String
  pub concept_namespace : String
  pub concept_local_name : String
  pub source_qname : String
  pub metric : String
  pub relation : Relation
  pub decision_id : String
  pub application_method : String
  pub tier : ℕ

pub record SupportRef : Type 0 where
  pub fact_id : ℕ
  pub decision_id : String
  pub relation : Relation
  pub tier : ℕ
  pub source_qname : String
  pub application_method : String

pub record Observation : Type 0 where
  pub cik : String
  pub accession : String
  pub metric : String
  pub fy : Option String
  pub report_focus : Option String
  pub period_role : Option String
  pub period_start : Option String
  pub period_end : Option String
  pub status : ObservationStatus
  pub reason : Option ObservationReason
  pub numeric : Option Decimal
  pub decimals : Option String
  pub unit : Option String
  pub decision_ids : List String
  pub fact_ids : List ℕ
  pub supports : List SupportRef
  pub relation : Option Relation
  pub tier : Option ℕ
  pub available_at : Option String
  pub view : String

pub data SemanticFamily : Type 0 where
  us_gaap dei srt other : SemanticFamily

pub data TaxonomyOrigin : Type 0 where
  standard issuer : TaxonomyOrigin

pub record TaxonomyClassification : Type 0 where
  pub semantic_family : SemanticFamily
  pub origin : TaxonomyOrigin

abbrev us_gaap_prefixes : List String
us_gaap_prefixes =
    "http://xbrl.us/us-gaap/" ∷ "http://fasb.org/us-gaap/" ∷ "https://xbrl.us/us-gaap/"
    ∷ "https://fasb.org/us-gaap/" ∷ []

abbrev dei_prefixes : List String
dei_prefixes =
    "http://xbrl.us/dei/" ∷ "http://xbrl.sec.gov/dei/" ∷ "https://xbrl.us/dei/"
    ∷ "https://xbrl.sec.gov/dei/" ∷ []

abbrev srt_prefixes : List String
srt_prefixes = "http://fasb.org/srt/" ∷ "https://fasb.org/srt/" ∷ []

-- `namespace_uri.startswith(prefix)` for some prefix.
abbrev some_prefix : String → List String → Bool
some_prefix s prefixes = any (λ prefix. starts_with s prefix) prefixes

unfoldable pub semantic_family_of : String → SemanticFamily
semantic_family_of namespace_uri =
    if some_prefix namespace_uri us_gaap_prefixes
    then us_gaap
    else if some_prefix namespace_uri dei_prefixes
    then dei
    else if some_prefix namespace_uri srt_prefixes
    then srt
    else other

-- What `urlparse` reads off a URI: its scheme, host name and path.
pub record ParsedUri : Type 0 where
  pub scheme : String
  pub hostname : Option String
  pub path : String

abbrev standard_hosts : List String
standard_hosts = "xbrl.sec.gov" ∷ "fasb.org" ∷ "xbrl.us" ∷ []

abbrev host_is_standard : Option String → Bool
host_is_standard none = false
host_is_standard (some host) = any (λ h. host == h) standard_hosts

unfoldable pub standard_host : ParsedUri → Bool
standard_host parsed =
    (parsed.scheme == "http" || parsed.scheme == "https") && host_is_standard parsed.hostname

module _ (urlparse : String → ParsedUri) where
  -- A family that has a prefix is standard; another namespace is standard by its host.
  abbrev classify_family : String → SemanticFamily → TaxonomyClassification
  classify_family namespace_uri other = record {
    semantic_family = other;
    origin = if standard_host (urlparse namespace_uri) then standard else issuer;
  }
  classify_family namespace_uri family = record { semantic_family = family; origin = standard }

  -- The callers pass a text, never None.
  unfoldable pub classify : String → TaxonomyClassification
  classify namespace_uri =
      if is_empty namespace_uri
      then record { semantic_family = other; origin = issuer }
      else classify_family namespace_uri (semantic_family_of namespace_uri)

unfoldable pub clark_qname : String → String → Result String
clark_qname namespace_uri local_name = do
  raise_if (is_empty namespace_uri) (value_error "namespace_uri must be non-empty")
  raise_if (is_empty local_name) (value_error "local_name must be non-empty")
  raise_if (any_char (λ c. nat_beq c b'}') namespace_uri)
      (value_error "namespace_uri must not contain '}'")
  ok (str_append (str_append (str_append "{" namespace_uri) "}") local_name)
