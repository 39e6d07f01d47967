-- ===== src/Registry/Sync.antt =====
-- `RegistryService._sync` of src/edgar/registry/service.py: the mirror of the canonical metrics is
-- brought in line with the metrics that the YAML files give, in their order.
pub mod Mirror
use edgar.Prelude.{
  ℕ, ◌≡◌, ◌≢◌, ◌∙◌, refl, sym, ap, subst, ◌⊎◌, inl, inr, Bool, true, false, not, ◌&&◌, ◌||◌, List,
  [], ◌∷◌, map, Option, none, some, String, Result, ok, err, raise_if, unsafe_metric_deletion,
  integrity_error, ◌>>=◌, ◌>>◌, >>=-eq-ok, raise_if-eq-ok, Bool-cases, Option-cases, ◌==◌,
  string_eq, beq_refl, beq→eq, any, filter, find, All, In, In→any, sort_by, arith, if◌then◌else◌,
}
use edgar.Prelude.Text.{leb_string}
use edgar.Registry.Metrics.{
  CanonicalMetric, DefinitionPayload, MirrorPayload, MetricRow, mirror_payload, payload_beq,
  payload_beq→eq, payload_beq_refl, require_yaml_mirror_match,
}
use edgar.Registry.Store.{Db, metric_key, fetch_canonical_metric, referenced_metric_keys}

pub data Outcome : Type 0 where
  was_added was_changed was_unchanged : Outcome

pub record CanonicalSyncResult : Type 0 where
  pub added : List String
  pub changed : List String
  pub removed : List String
  pub unchanged : List String

abbrev same_outcome : Outcome → Outcome → Bool
same_outcome was_added was_added = true
same_outcome was_changed was_changed = true
same_outcome was_unchanged was_unchanged = true
same_outcome _ _ = false

-- The keys that the loop has put in one of its three lists.
abbrev pub keys_with : Outcome → List (String × Outcome) → List String
keys_with o outcomes = sort_by leb_string (
    map (λ (x : String × Outcome). x.0)
      (filter (λ (x : String × Outcome). same_outcome o x.1) outcomes))

abbrev pub row_of : String → List MetricRow → Option MetricRow
row_of key rows = find (λ row. metric_key row == key) rows

-- The primary key of the table refuses a second row of one key.
unfoldable pub insert_canonical_metric : MetricRow → List MetricRow → Result (List MetricRow)
insert_canonical_metric row rows = do
  raise_if (any (λ r. metric_key r == metric_key row) rows)
      (integrity_error "canonical_metric_pkey")
  ok (row ∷ rows)

unfoldable pub update_canonical_metric : String → MetricRow → List MetricRow → List MetricRow
update_canonical_metric key row [] = []
update_canonical_metric key row (r ∷ rows) =
    (if metric_key r == key then row else r) ∷ update_canonical_metric key row rows

unfoldable pub delete_canonical_metrics : List String → List MetricRow → List MetricRow
delete_canonical_metrics keys rows = filter (λ r. not (any (λ k. k == metric_key r) keys)) rows

abbrev pub is_in : List String → String → Bool
is_in keys key = any (λ k. k == key) keys

abbrev distinct_keys : List String → List String
distinct_keys [] = []
distinct_keys (k ∷ ks) = let rest = distinct_keys ks in if is_in rest k then rest else k ∷ rest

abbrev pub is_none_left : List String → Bool
is_none_left [] = true
is_none_left (_ ∷ _) = false

module _ (digest : DefinitionPayload → String) where
  abbrev pub new_row : ℕ → CanonicalMetric → MetricRow
  new_row now m = record { payload = mirror_payload digest m; synced_at = now }

  -- One turn of the loop over the YAML metrics, by the row that was there when the loop began.
  unfoldable pub sync_metric :
      Option MetricRow → ℕ → CanonicalMetric → List MetricRow → Result (Outcome × List MetricRow)
  sync_metric none now m rows = do
    inserted ← insert_canonical_metric (new_row now m) rows
    ok (was_added, inserted)
  sync_metric (some row) now m rows =
      if payload_beq row.payload (mirror_payload digest m)
      then ok (was_unchanged, rows)
      else ok (was_changed, update_canonical_metric m.key (new_row now m) rows)

  unfoldable pub sync_loop :
      List MetricRow
      → ℕ
      → List CanonicalMetric
      → List MetricRow
      → Result (List (String × Outcome) × List MetricRow)
  sync_loop existing now [] rows = ok ([], rows)
  sync_loop existing now (m ∷ ms) rows = do
    step ← sync_metric (row_of m.key existing) now m rows
    rest ← sync_loop existing now ms step.1
    ok ((m.key, step.0) ∷ rest.0, rest.1)

  abbrev pub removed_keys : List MetricRow → List CanonicalMetric → List String
  removed_keys existing yaml = sort_by leb_string (
      filter (λ k. not (is_in (map (λ (m : CanonicalMetric). m.key) yaml) k))
        (distinct_keys (map metric_key existing)))

  abbrev pub blocked_keys : List String → List String → List String
  blocked_keys removed referenced = filter (λ k. is_in referenced k) removed

  unfoldable pub sync : Db → ℕ → List CanonicalMetric → Result (CanonicalSyncResult × Db)
  sync db now yaml = do
    done ← sync_loop db.metrics now yaml db.metrics
    let removed = removed_keys db.metrics yaml
    raise_if (not (is_none_left (blocked_keys removed (referenced_metric_keys db))))
        unsafe_metric_deletion
    ok (
      record {
        added = keys_with was_added done.0;
        changed = keys_with was_changed done.0;
        removed = removed;
        unchanged = keys_with was_unchanged done.0;
      },
      record db { metrics = delete_canonical_metrics removed done.1 },
    )
