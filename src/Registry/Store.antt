-- ===== src/Registry/Store.antt =====
-- src/edgar/db/registry.py over the tables of src/edgar/db/registry_schema.py: the mirror of
-- canonical metrics and the append-only mapping assertions, with the constraints of the tables.
-- A table is the list of its rows, the newest first; a primary key comes from a sequence, and a
-- concept's UUID is a number. The checks of an enumerated column are the data types here.
use edgar.Prelude.{
  ℕ, ◌+◌, Bool, true, false, not, ◌&&◌, ◌||◌, List, [], ◌∷◌, map, Option, none, some, String,
  Result, ok, raise_if, lookup_error, integrity_error, ◌>>◌, nat_beq, ◌==◌, nat_eq, string_eq,
  option_eq, any, filter, find, leb,
}
use edgar.Prelude.Text.{str_length, all_chars}
use edgar.Registry.Interval.{Scope, ScopeKind, global, issuer}
use edgar.Registry.Metrics.{MetricRow}

pub data Relation : Type 0 where
  exact narrower broader related : Relation

pub data MappingStatus : Type 0 where
  candidate accepted rejected : MappingStatus

pub data MappingMethod : Type 0 where
  curated deterministic_rule lexical_candidate structural_candidate : MappingMethod
  model_candidate human_review : MappingMethod

abbrev pub is_exact : Relation → Bool
is_exact exact = true
is_exact _ = false

abbrev pub is_candidate : MappingStatus → Bool
is_candidate candidate = true
is_candidate _ = false

abbrev pub is_accepted : MappingStatus → Bool
is_accepted accepted = true
is_accepted _ = false

abbrev is_rejected : MappingStatus → Bool
is_rejected rejected = true
is_rejected _ = false

-- `MappingEvidenceItem`: `data` holds the keys with their JSON texts.
pub record MappingEvidenceItem : Type 0 where
  pub kind : String
  pub summary : Option String
  pub snapshot : List (String × String)
  pub accessions : List String

abbrev pub has_snapshot : MappingEvidenceItem → Bool
has_snapshot item = elim item.snapshot [ [] ↦ false | _ ∷ _ ↦ true ]

-- The columns of `CLAIM_FIELDS`, which a revision copies from what it supersedes.
pub record Claim : Type 0 where
  pub source_concept_id : ℕ
  pub target_metric_key : String
  pub target_definition_hash : String
  pub relation : Relation
  pub scope : Scope

-- The columns of `registry.mapping_assertion` but its key.
pub record NewAssertion : Type 0 where
  pub supersedes_id : Option ℕ
  pub claim : Claim
  pub status : MappingStatus
  pub method : MappingMethod
  pub rationale : Option String
  pub evidence : List MappingEvidenceItem
  pub created_at : ℕ
  pub created_by : String

pub record MappingAssertion : Type 0 where
  pub id : ℕ
  pub row : NewAssertion

-- A row of `source.concept`.
pub record Concept : Type 0 where
  pub id : ℕ
  pub namespace_uri : String
  pub local_name : String

pub record Db : Type 0 where
  pub concepts : List Concept
  pub issuers : List String
  pub metrics : List MetricRow
  pub assertions : List MappingAssertion
  pub next_id : ℕ

abbrev pub metric_key : MetricRow → String
metric_key row = row.payload.metric.key

unfoldable pub fetch_canonical_metric : Db → String → Option MetricRow
fetch_canonical_metric db key = find (λ row. metric_key row == key) db.metrics

unfoldable pub referenced_metric_keys : Db → List String
referenced_metric_keys db =
    map (λ (a : MappingAssertion). a.row.claim.target_metric_key) db.assertions

unfoldable pub fetch_concept_by_qname : Db → String → String → Option Concept
fetch_concept_by_qname db namespace_uri local_name =
    find (λ c. c.namespace_uri == namespace_uri && c.local_name == local_name) db.concepts

unfoldable pub fetch_issuer : Db → String → Option String
fetch_issuer db cik = find (λ c. c == cik) db.issuers

unfoldable pub fetch_mapping_assertion : Db → ℕ → Option MappingAssertion
fetch_mapping_assertion db assertion_id = find (λ a. a.id == assertion_id) db.assertions

-- `SELECT … FOR UPDATE`: the lock orders transactions, each of which is one step here.
unfoldable pub lock_source_concept : Db → ℕ → Result (Unit {0})
lock_source_concept db concept_id =
    raise_if (not (any (λ c. c.id == concept_id) db.concepts))
      (lookup_error "source.concept not found")

abbrev pub supersedes : ℕ → MappingAssertion → Bool
supersedes assertion_id a = a.row.supersedes_id == some assertion_id

-- The column is unique, so there is at most one row.
unfoldable pub successor_id : Db → ℕ → Option ℕ
successor_id db assertion_id = elim (find (supersedes assertion_id) db.assertions) [
  | none ↦ none
  | some a ↦ some a.id
]

-- The outer join with no successor.
abbrev pub is_current : Db → MappingAssertion → Bool
is_current db a = not (any (supersedes a.id) db.assertions)

unfoldable pub fetch_current_assertions : Db → List MappingAssertion
fetch_current_assertions db = filter (is_current db) db.assertions

abbrev pub some_and : Option String → (String → Bool) → Bool
some_and none p = false
some_and (some s) p = p s

-- `btrim(s) <> ''`, which trims spaces only.
abbrev pub nonblank : String → Bool
nonblank s = not (all_chars (λ c. nat_beq c 32) s)

abbrev pub scope_issuer_check : ScopeKind → Option String → Bool
scope_issuer_check global none = true
scope_issuer_check issuer (some cik) = true
scope_issuer_check _ _ = false

abbrev pub valid_range_check : Option ℕ → Option ℕ → Bool
valid_range_check (some a) (some b) = leb a b
valid_range_check _ _ = true

abbrev pub is_empty_list : List MappingEvidenceItem → Bool
is_empty_list [] = true
is_empty_list (_ ∷ _) = false

abbrev pub unique_check : Option ℕ → List MappingAssertion → Bool
unique_check none rows = true
unique_check (some i) rows = not (any (supersedes i) rows)

abbrev pub supersedes_exists : Option ℕ → List MappingAssertion → Bool
supersedes_exists none rows = true
supersedes_exists (some i) rows = any (λ a. a.id == i) rows

abbrev pub issuer_exists : Option String → List String → Bool
issuer_exists none issuers = true
issuer_exists (some cik) issuers = any (λ c. c == cik) issuers

-- `SHA256_CHECK`
abbrev pub is_sha256 : String → Bool
is_sha256 s =
    nat_beq (str_length s) 64
    && all_chars (λ c. (leb 48 c && leb c 57) || (leb 97 c && leb c 102)) s

-- The unique, foreign key and check constraints of `registry.mapping_assertion`. The types see to the
-- checks of `relation`, `scope_kind`, `status` and `method`, and that the evidence is an array.
unfoldable pub assertion_constraints : Db → NewAssertion → Result (Unit {0})
assertion_constraints db r = do
  raise_if (not (unique_check r.supersedes_id db.assertions))
      (integrity_error "uq_registry_mapping_assertion_supersedes_id")
  raise_if (not (supersedes_exists r.supersedes_id db.assertions))
      (integrity_error "mapping_assertion_supersedes_id_fkey")
  raise_if (not (any (λ c. c.id == r.claim.source_concept_id) db.concepts))
      (integrity_error "mapping_assertion_source_concept_id_fkey")
  raise_if (not (any (λ m. metric_key m == r.claim.target_metric_key) db.metrics))
      (integrity_error "mapping_assertion_target_metric_key_fkey")
  raise_if (not (issuer_exists r.claim.scope.issuer_cik db.issuers))
      (integrity_error "mapping_assertion_issuer_cik_fkey")
  raise_if (not (is_sha256 r.claim.target_definition_hash))
      (integrity_error "ck_registry_mapping_assertion_target_definition_hash")
  raise_if (not (nonblank r.created_by))
      (integrity_error "ck_registry_mapping_assertion_created_by")
  raise_if (not (scope_issuer_check r.claim.scope.kind r.claim.scope.issuer_cik))
      (integrity_error "ck_registry_mapping_assertion_scope_issuer")
  raise_if (not (valid_range_check r.claim.scope.valid_from r.claim.scope.valid_to))
      (integrity_error "ck_registry_mapping_assertion_valid_range")
  raise_if
      (is_accepted r.status
        && not (some_and r.rationale nonblank && not (is_empty_list r.evidence)))
      (integrity_error "ck_registry_mapping_assertion_accepted")
  raise_if (is_rejected r.status && not (some_and r.rationale nonblank))
      (integrity_error "ck_registry_mapping_assertion_rejected")

unfoldable pub add_assertion : Db → NewAssertion → Db
add_assertion db r = record db {
  assertions = (record { id = db.next_id; row = r }) ∷ db.assertions;
  next_id = db.next_id + 1;
}

-- The new key, and the table with the row.
unfoldable pub insert_mapping_assertion : Db → NewAssertion → Result (ℕ × Db)
insert_mapping_assertion db r = do assertion_constraints db r; ok (db.next_id, add_assertion db r)
