-- ===== src/Registry/Metrics.antt =====
-- Canonical metrics: src/edgar/registry/models.py, the definition hash of hashing.py, and the mirror
-- payloads that src/edgar/registry/service.py compares. SHA-256 of canonical JSON is the parameter
-- `digest`.
use edgar.Prelude.{
  ℕ, ◌≡◌, Bool, true, ◌&&◌, List, Option, none, some, String, Result, err, raise_if,
  registry_out_of_sync, ◌==◌, string_eq, list_eq, arith, and_true, beq→eq, beq_refl, eq_iff,
  list_beq_iff, sort_by, not,
}
use edgar.Prelude.Text.{leb_string}
use text.Mathlib.TextPositions.{eq_refl}

pub record CanonicalMetric : Type 0 where
  pub key : String
  pub name : String
  pub kind : String
  pub statement : String
  pub period_type : String
  pub value_kind : String
  pub unit_dimension : String
  pub definition : String
  pub includes : List String
  pub excludes : List String

-- The fields of `DEFINITION_HASH_FIELDS`, with the lists sorted.
pub record DefinitionPayload : Type 0 where
  pub key : String
  pub kind : String
  pub statement : String
  pub period_type : String
  pub value_kind : String
  pub unit_dimension : String
  pub definition : String
  pub includes : List String
  pub excludes : List String

unfoldable pub definition_payload : CanonicalMetric → DefinitionPayload
definition_payload m = record {
  key = m.key;
  kind = m.kind;
  statement = m.statement;
  period_type = m.period_type;
  value_kind = m.value_kind;
  unit_dimension = m.unit_dimension;
  definition = m.definition;
  includes = sort_by leb_string m.includes;
  excludes = sort_by leb_string m.excludes;
}

-- The payload that `mirror_payload` and `row_mirror_payload` build.
pub record MirrorPayload : Type 0 where
  pub metric : CanonicalMetric
  pub definition_hash : String

-- A row of `registry.canonical_metric`.
pub record MetricRow : Type 0 where
  pub payload : MirrorPayload
  pub synced_at : ℕ

abbrev metric_beq : CanonicalMetric → CanonicalMetric → Bool
metric_beq a b =
    a.key == b.key
    && (a.name == b.name
        && (a.kind == b.kind
            && (a.statement == b.statement
                && (a.period_type == b.period_type
                    && (a.value_kind == b.value_kind
                        && (a.unit_dimension == b.unit_dimension
                            && (a.definition == b.definition
                                && (a.includes == b.includes && a.excludes == b.excludes))))))))

unfoldable pub payload_beq : MirrorPayload → MirrorPayload → Bool
payload_beq a b = a.definition_hash == b.definition_hash && metric_beq a.metric b.metric

metric_beq→eq : (a b : CanonicalMetric) → metric_beq a b ≡ true → a ≡ b
metric_beq→eq a b h = ground (
  arith,
  eq_iff a.key b.key,
  eq_iff a.name b.name,
  eq_iff a.kind b.kind,
  eq_iff a.statement b.statement,
  eq_iff a.period_type b.period_type,
  eq_iff a.value_kind b.value_kind,
  eq_iff a.unit_dimension b.unit_dimension,
  eq_iff a.definition b.definition,
  list_beq_iff string_eq a.includes b.includes,
  list_beq_iff string_eq a.excludes b.excludes,
)

metric_beq_refl : (a : CanonicalMetric) → metric_beq a a ≡ true
metric_beq_refl a = simp (eq_refl, beq_refl a.includes, beq_refl a.excludes)

pub payload_beq→eq : (a b : MirrorPayload) → payload_beq a b ≡ true → a ≡ b
unfolding payload_beq
payload_beq→eq a b h =
    let (x, y) =
      and_true (a.definition_hash == b.definition_hash) (metric_beq a.metric b.metric) h in
    cc (beq→eq a.definition_hash b.definition_hash x, metric_beq→eq a.metric b.metric y)

pub payload_beq_refl : (a : MirrorPayload) → payload_beq a a ≡ true
unfolding payload_beq
payload_beq_refl a = rw (beq_refl a.definition_hash, metric_beq_refl a.metric)

module _ (digest : DefinitionPayload → String) where
  unfoldable pub definition_hash : CanonicalMetric → String
  definition_hash m = digest (definition_payload m)

  unfoldable pub mirror_payload : CanonicalMetric → MirrorPayload
  mirror_payload m = record { metric = m; definition_hash = definition_hash m }

  unfoldable pub require_yaml_mirror_match : CanonicalMetric → Option MetricRow → Result (Unit {0})
  require_yaml_mirror_match metric none = err registry_out_of_sync
  require_yaml_mirror_match metric (some row) =
      raise_if (not (payload_beq (mirror_payload metric) row.payload)) registry_out_of_sync
