-- ===== src/Financials/Decisions.antt =====
-- src/edgar/financials/decisions.py and resolve.py: the reviewed decisions that map source concepts
-- to metrics, the filings and concepts that a decision applies to, and the supports of facts.
-- `urlparse` is Python's; a hash of a metric's definition is given with each metric key.
pub mod Loading
pub mod Supports
use edgar.Prelude.{
  ℕ, ◌≡◌, Bool, true, false, not, ◌&&◌, ◌||◌, List, [], ◌∷◌, ◌++◌, Option, none, some, String,
  Result, ok, err, Error, raise_if, value_error, stale_accepted_decision_error, ◌>>=◌, ◌>>◌, ◌==◌,
  string_eq, any, filter, find, if◌then◌else◌,
}
use edgar.Prelude.Text.{strip, is_empty}
use edgar.Domain.Identifiers.{validate_cik}
use edgar.Financials.Models.{
  Relation, FactRow, Support, SemanticFamily, us_gaap, dei, srt, other, TaxonomyOrigin, standard,
  issuer, ParsedUri, classify, clark_qname,
}

pub data DecisionFamily : Type 0 where
  us_gaap_family dei_family srt_family issuer_family : DecisionFamily

pub data DecisionStatus : Type 0 where
  accepted rejected : DecisionStatus

pub record DecisionEvidence : Type 0 where
  pub kind : String
  pub artifact_sha256 : Option String
  pub concept : Option String
  pub accession : Option String
  pub locator : Option String
  pub quote : Option String

pub record DecisionSource : Type 0 where
  pub family : DecisionFamily
  pub local_name : String
  pub issuer_cik : Option String
  pub exclude_qnames : List String

pub record DecisionRecord : Type 0 where
  pub id : String
  pub metric : String
  pub source : DecisionSource
  pub relation : Relation
  pub exclude_ciks : List String
  pub status : DecisionStatus
  pub method : String
  pub rationale : String
  pub evidence : List DecisionEvidence
  pub contract_hash : String

pub record LoadedDecision : Type 0 where
  pub record_of : DecisionRecord
  pub stale_inactive : Bool

abbrev pub is_accepted : DecisionStatus → Bool
is_accepted accepted = true
is_accepted rejected = false

-- A text that is given and not empty.
abbrev truthy : Option String → Bool
truthy none = false
truthy (some s) = not (is_empty s)

-- `_normalize_issuer_cik` and `_issuer_cik_family_rules`
abbrev family_rule : DecisionFamily → Option String → Result (Unit {0})
family_rule issuer_family cik =
    raise_if (not (truthy cik)) (value_error "issuer family decisions require source.issuer_cik")
family_rule _ none = ok tt
family_rule _ (some cik) =
    err (value_error "issuer_cik is only allowed when source.family is issuer")

abbrev normalize_issuer_cik : Option String → Result (Option String)
normalize_issuer_cik none = ok none
normalize_issuer_cik (some value) = do cik ← validate_cik value; ok (some cik)

unfoldable pub validate_source : DecisionSource → Result DecisionSource
validate_source source = do
  cik ← normalize_issuer_cik source.issuer_cik
  family_rule source.family cik
  ok (record source { issuer_cik = cik })

abbrev is_substantive : DecisionEvidence → Bool
is_substantive ev =
    (truthy ev.accession && truthy ev.locator)
    || (truthy ev.concept && (truthy ev.quote || truthy ev.artifact_sha256))
    || any (λ k. ev.kind == k) ("filing_fact" ∷ "taxonomy" ∷ "metalinks" ∷ [])

abbrev no_evidence : List DecisionEvidence → Bool
no_evidence [] = true
no_evidence (_ ∷ _) = false

-- `_rationale_non_empty` and `_evidence_when_operational`; both statuses are operational.
unfoldable pub validate_record : DecisionRecord → Result DecisionRecord
validate_record r = do
  source ← validate_source r.source
  raise_if (is_empty (strip r.rationale)) (value_error "rationale must be non-empty")
  raise_if (no_evidence r.evidence) (value_error "operational decisions require evidence")
  raise_if (not (any is_substantive r.evidence))
      (value_error "evidence must point at filing or taxonomy facts")
  ok (record r { source = source })

-- `validate_cik(c) == normalized`
abbrev same_cik : String → String → Result Bool
same_cik c normalized = do cik ← validate_cik c; ok (cik == normalized)

-- `any(validate_cik(c) == normalized for c in ciks)`, which stops at the first hit.
abbrev any_same_cik : List String → String → Result Bool
any_same_cik [] normalized = ok false
any_same_cik (c ∷ cs) normalized =
    let rest = any_same_cik cs normalized in
    same_cik c normalized >>= λ hit. if hit then ok true else rest

unfoldable pub issuer_excluded : DecisionRecord → String → Result Bool
issuer_excluded r filing_cik = do
  normalized ← validate_cik filing_cik
  any_same_cik r.exclude_ciks normalized

abbrev equal_ciks : String → String → Result Bool
equal_ciks a b = do x ← validate_cik a; y ← validate_cik b; ok (x == y)

-- `assert record.source.issuer_cik is not None`
abbrev issuer_filing : DecisionFamily → Option String → String → Result Bool
issuer_filing issuer_family none filing_cik = err (value_error "assertion failed")
issuer_filing issuer_family (some cik) filing_cik = equal_ciks cik filing_cik
issuer_filing _ cik filing_cik = ok true

unfoldable pub decision_applies_to_filing : DecisionRecord → String → Result Bool
decision_applies_to_filing r filing_cik = do
  excluded ← issuer_excluded r filing_cik
  let by_family = issuer_filing r.source.family r.source.issuer_cik filing_cik
  if excluded then ok false else by_family

abbrev pub family_beq : DecisionFamily → SemanticFamily → Bool
family_beq us_gaap_family us_gaap = true
family_beq dei_family dei = true
family_beq srt_family srt = true
family_beq _ _ = false

abbrev pub is_issuer_origin : TaxonomyOrigin → Bool
is_issuer_origin issuer = true
is_issuer_origin standard = false

-- The decision keys of `_decision_key`.
pub record DecisionKey : Type 0 where
  pub metric : String
  pub family : DecisionFamily
  pub issuer : String
  pub local_name : String

abbrev or_empty : Option String → String
or_empty none = ""
or_empty (some s) = s

unfoldable pub decision_key : DecisionRecord → DecisionKey
decision_key r = record {
  metric = r.metric;
  family = r.source.family;
  issuer = or_empty r.source.issuer_cik;
  local_name = r.source.local_name;
}

abbrev same_family : DecisionFamily → DecisionFamily → Bool
same_family us_gaap_family us_gaap_family = true
same_family dei_family dei_family = true
same_family srt_family srt_family = true
same_family issuer_family issuer_family = true
same_family _ _ = false

abbrev pub key_beq : DecisionKey → DecisionKey → Bool
key_beq a b =
    a.metric == b.metric
    && (same_family a.family b.family && (a.issuer == b.issuer && a.local_name == b.local_name))

-- The loop over the files: `record.metric in metrics`, the current hash and the stale flag. `hashes`
-- gives the hash of each metric's definition.
unfoldable pub load_with : Bool → DecisionRecord → Option (String × String) → Result LoadedDecision
load_with fatal_stale_accepted r none = err (value_error "unknown metric")
load_with fatal_stale_accepted r (some (_, current_hash)) = do
  let stale = not (r.contract_hash == current_hash)
  raise_if (stale && (is_accepted r.status && fatal_stale_accepted)) stale_accepted_decision_error
  ok (record { record_of = r; stale_inactive = stale })

unfoldable pub load_one : List (String × String) → Bool → DecisionRecord → Result LoadedDecision
unfolding load_with
load_one hashes fatal_stale_accepted r =
    load_with fatal_stale_accepted r (find (λ (m : String × String). m.0 == r.metric) hashes)

unfoldable pub load_all :
    List (String × String) → Bool → List DecisionRecord → Result (List LoadedDecision)
load_all hashes fatal [] = ok []
load_all hashes fatal (raw ∷ raws) = do
  r ← validate_record raw
  loaded ← load_one hashes fatal r
  rest ← load_all hashes fatal raws
  ok (loaded ∷ rest)

-- The loop over `keys_seen`.
unfoldable pub check_keys : List DecisionKey → List LoadedDecision → Result (Unit {0})
check_keys keys_seen [] = ok tt
check_keys keys_seen (ld ∷ lds) =
    let key = decision_key ld.record_of in
    let skip = check_keys keys_seen lds in
    let add = check_keys (key ∷ keys_seen) lds in
    if ld.stale_inactive
    then skip
    else if any (key_beq key) keys_seen
    then err (value_error "duplicate decision key")
    else add

-- `load_decisions`, from the parsed files in the order of their paths.
unfoldable pub load_decisions :
    List (String × String) → Bool → List DecisionRecord → Result (List LoadedDecision)
load_decisions hashes fatal raws = do
  loaded ← load_all hashes fatal raws
  check_keys [] loaded
  ok loaded

abbrev issuer_matches : Option String → String → Bool → Result Bool
issuer_matches none filing_cik origin = ok false
issuer_matches (some cik) filing_cik true = equal_ciks cik filing_cik
issuer_matches (some cik) filing_cik false = ok false

-- A decision that `resolve_supports` does not skip.
abbrev pub is_active : LoadedDecision → Bool
is_active ld = not (ld.stale_inactive || not (is_accepted ld.record_of.status))

abbrev pub new_support : String → FactRow → DecisionRecord → String → Support
new_support accession fact r source_qname = record {
  fact_id = fact.fact_id;
  accession = accession;
  concept_namespace = fact.concept_namespace;
  concept_local_name = fact.concept_local_name;
  source_qname = source_qname;
  metric = r.metric;
  relation = r.relation;
  decision_id = r.id;
  application_method = r.method;
  tier = 1;
}

abbrev support_when : Bool → String → FactRow → DecisionRecord → Result (List Support)
support_when false accession fact r = ok []
support_when true accession fact r = do
  source_qname ← clark_qname fact.concept_namespace fact.concept_local_name
  ok (new_support accession fact r source_qname ∷ [])

module _ (urlparse : String → ParsedUri) where
  abbrev family_matches : DecisionRecord → String → String → DecisionFamily → Result Bool
  family_matches r filing_cik namespace_uri issuer_family =
      issuer_matches r.source.issuer_cik filing_cik
        (is_issuer_origin (classify urlparse namespace_uri).origin)
  family_matches r filing_cik namespace_uri family =
      ok (family_beq family (classify urlparse namespace_uri).semantic_family)

  -- What follows the test of the local name.
  abbrev qname_matches : DecisionRecord → String → String → String → Result Bool
  qname_matches r filing_cik namespace_uri local_name = do
    qname ← clark_qname namespace_uri local_name
    let by_family = family_matches r filing_cik namespace_uri r.source.family
    if any (λ q. q == qname) r.source.exclude_qnames then ok false else by_family

  unfoldable pub concept_matches_decision : DecisionRecord → String → String → String → Result Bool
  concept_matches_decision r filing_cik namespace_uri local_name =
      if r.source.local_name == local_name
      then qname_matches r filing_cik namespace_uri local_name
      else ok false

  -- What follows the tests of the decision itself, in the inner loop of `resolve_supports`.
  abbrev support_if_matched :
      Bool → String → String → FactRow → DecisionRecord → Result (List Support)
  support_if_matched true accession filing_cik fact r = ok []
  support_if_matched false accession filing_cik fact r = do
    matched ← concept_matches_decision r filing_cik fact.concept_namespace fact.concept_local_name
    support_when matched accession fact r

  -- The body of the inner loop of `resolve_supports`: the supports that a decision adds.
  unfoldable pub support_of : String → String → FactRow → LoadedDecision → Result (List Support)
  support_of accession filing_cik fact ld =
      if is_active ld
      then (do
        excluded ← issuer_excluded ld.record_of filing_cik
        support_if_matched excluded accession filing_cik fact ld.record_of)
      else ok []

  -- The inner loop.
  unfoldable pub supports_of_fact :
      String → String → FactRow → List LoadedDecision → Result (List Support)
  supports_of_fact accession filing_cik fact [] = ok []
  supports_of_fact accession filing_cik fact (ld ∷ lds) = do
    added ← support_of accession filing_cik fact ld
    rest ← supports_of_fact accession filing_cik fact lds
    ok (added ++ rest)

  unfoldable pub resolve_supports :
      List FactRow → List LoadedDecision → String → String → Result (List Support)
  resolve_supports [] decisions accession filing_cik = ok []
  resolve_supports (fact ∷ facts) decisions accession filing_cik = do
    added ← supports_of_fact accession filing_cik fact decisions
    rest ← resolve_supports facts decisions accession filing_cik
    ok (added ++ rest)

  -- `expand_clark_qnames_for_decision`: the set as a list without repetitions.
  unfoldable pub expand_clark_qnames_for_decision :
      DecisionRecord → String → List String → Result (List String)
  expand_clark_qnames_for_decision r filing_cik [] = ok []
  expand_clark_qnames_for_decision r filing_cik (ns ∷ namespaces) = do
    matched ← concept_matches_decision r filing_cik ns r.source.local_name
    let rest = expand_clark_qnames_for_decision r filing_cik namespaces
    let with_name = clark_qname ns r.source.local_name >>= λ q. rest >>= λ qs.
        ok
          (if any (λ x. x == q) r.source.exclude_qnames || any (λ x. x == q) qs then qs else q ∷ qs)
    if matched then with_name else rest
