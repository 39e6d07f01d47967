-- ===== src/Registry/Sync/Mirror.antt =====
-- The mirror after `RegistryService._sync` of src/edgar/registry/service.py.
use edgar.Prelude.{
  ℕ, ◌≡◌, ◌∙◌, refl, sym, ap, subst, inl, inr, true, false, not, List, [], ◌∷◌, map, Option, none,
  some, String, ok, >>=-eq-ok, Bool-cases, ◌==◌, string_eq, beq_refl, beq→eq, any, filter, All,
  All-In, In, any→In, In-filter, In-sort_by, raise_if, integrity_error, unsafe_metric_deletion,
}
use edgar.Prelude.Text.{leb_string}
use edgar.Registry.Metrics.{
  CanonicalMetric, DefinitionPayload, MetricRow, mirror_payload, payload_beq, payload_beq→eq,
  payload_beq_refl, require_yaml_mirror_match,
}
use edgar.Registry.Store.{Db, metric_key, fetch_canonical_metric, referenced_metric_keys}
use edgar.Registry.Sync.{
  Outcome, CanonicalSyncResult, row_of, insert_canonical_metric, update_canonical_metric,
  delete_canonical_metrics, is_in, distinct_keys, is_none_left, new_row, sync_metric, sync_loop,
  removed_keys, blocked_keys, sync,
}

row_of-update :
    (key : String) (new : MetricRow) (rows : List MetricRow) (r : MetricRow)
    → metric_key new ≡ key
    → row_of key rows ≡ some r
    → row_of key (update_canonical_metric key new rows) ≡ some new
unfolding update_canonical_metric
row_of-update key new [] r e h = absurd (cc h)
row_of-update key new (x ∷ rows) r e h = elim (Bool-cases (metric_key x == key)) [
  | inl t ↦ rw (t, e, beq_refl key)
  | inr t ↦ rw (t, t) (row_of-update key new rows r e (rw t at h))
]

row_of-update_other :
    (key k : String) (new : MetricRow) (rows : List MetricRow)
    → metric_key new ≡ key
    → (key == k) ≡ false
    → row_of k (update_canonical_metric key new rows) ≡ row_of k rows
unfolding update_canonical_metric
row_of-update_other key k new [] e d = refl
row_of-update_other key k new (x ∷ rows) e d = elim (Bool-cases (metric_key x == key)) [
  | inl t ↦
      let f : (metric_key x == k) ≡ false = rw (beq→eq (metric_key x) key t) d in
      rw (t, e, d, f) (row_of-update_other key k new rows e d)
  | inr t ↦ elim (Bool-cases (metric_key x == k)) [
    | inl s ↦ rw (t, s) refl
    | inr s ↦ rw (t, s) (row_of-update_other key k new rows e d)
  ]
]

row_of-delete :
    (keys : List String) (k : String) (rows : List MetricRow)
    → is_in keys k ≡ false
    → row_of k (delete_canonical_metrics keys rows) ≡ row_of k rows
unfolding delete_canonical_metrics
row_of-delete keys k [] h = refl
row_of-delete keys k (x ∷ rows) h = elim (Bool-cases (metric_key x == k)) [
  | inl t ↦
      let q : is_in keys (metric_key x) ≡ false = rw (beq→eq (metric_key x) k t) h in rw (q, t) refl
  | inr t ↦ elim (Bool-cases (is_in keys (metric_key x))) [
    | inl s ↦ rw (s, t) (row_of-delete keys k rows h)
    | inr s ↦ rw (s, t) (row_of-delete keys k rows h)
  ]
]

module _ (digest : DefinitionPayload → String) where
  -- The table has the row that the YAML metric asks for.
  abbrev pub Mirrors : List MetricRow → CanonicalMetric → Type 0
  Mirrors rows m =
      (r : MetricRow) × ((row_of m.key rows ≡ some r) × (r.payload ≡ mirror_payload digest m))

  new_row-key : (now : ℕ) (m : CanonicalMetric) → metric_key (new_row digest now m) ≡ m.key
  unfolding mirror_payload
  new_row-key now m = refl

  abbrev Kept : CanonicalMetric → List MetricRow → List MetricRow → Type 0
  Kept m rows rows' = (k : String) → (m.key == k) ≡ false → row_of k rows' ≡ row_of k rows

  sync_metric-Mirrors :
      (o : Option MetricRow) (now : ℕ) (m : CanonicalMetric) (rows : List MetricRow)
      (s : Outcome × List MetricRow)
      → row_of m.key rows ≡ o
      → sync_metric digest o now m rows ≡ ok s
      → Mirrors s.1 m × Kept m rows s.1
  unfolding sync_metric insert_canonical_metric
  sync_metric-Mirrors none now m rows (o, l) e h =
      let (l2, e2, h2) = >>=-eq-ok (insert_canonical_metric (new_row digest now m) rows) _ h in
      let (u, e3, h3) =
        >>=-eq-ok
          (raise_if (any (λ r. metric_key r == metric_key (new_row digest now m)) rows)
            (integrity_error "canonical_metric_pkey"))
          _ e2 in
      let p : new_row digest now m ∷ rows ≡ l = cc in
      subst (λ x. Mirrors x m × Kept m rows x) p
        (
          (new_row digest now m, (rw (new_row-key now m, beq_refl m.key) refl, refl)),
          λ k d. rw (new_row-key now m, d) refl,
        )
  sync_metric-Mirrors (some row) now m rows (o, l) e h =
      elim (Bool-cases (payload_beq row.payload (mirror_payload digest m))) [
        | inl t ↦
            let p : rows ≡ l = cc (rw t at h) in
            subst (λ x. Mirrors x m × Kept m rows x) p
              ((row, (e, payload_beq→eq row.payload (mirror_payload digest m) t)), λ k d. refl)
        | inr t ↦
            let p : update_canonical_metric m.key (new_row digest now m) rows ≡ l =
              cc (rw t at h) in
            subst (λ x. Mirrors x m × Kept m rows x) p
              (
                (
                  new_row digest now m,
                  (row_of-update m.key (new_row digest now m) rows row (new_row-key now m) e, refl),
                ),
                λ k d.
                    row_of-update_other m.key k (new_row digest now m) rows (new_row-key now m) d,
              )
      ]

  -- No two of the YAML metrics have one key.
  abbrev pub DistinctMetrics : List CanonicalMetric → Type 0
  DistinctMetrics [] = Unit
  DistinctMetrics (m ∷ ms) =
      All (λ n. ((n.key == m.key) ≡ false) × ((m.key == n.key) ≡ false)) ms × DistinctMetrics ms

  abbrev AsBefore : List MetricRow → List MetricRow → CanonicalMetric → Type 0
  AsBefore existing rows m = row_of m.key rows ≡ row_of m.key existing

  All-before :
      (existing rows rows' : List MetricRow) (m : CanonicalMetric) (ms : List CanonicalMetric)
      → Kept m rows rows'
      → All (λ n. ((n.key == m.key) ≡ false) × ((m.key == n.key) ≡ false)) ms
      → All (AsBefore existing rows) ms
      → All (AsBefore existing rows') ms
  All-before existing rows rows' m [] keep d h = tt
  All-before existing rows rows' m (n ∷ ms) keep d h =
      (keep n.key d.0.1 ∙ h.0, All-before existing rows rows' m ms keep d.1 h.1)

  sync_loop-Mirrors :
      (existing : List MetricRow) (now : ℕ) (ms : List CanonicalMetric) (rows : List MetricRow)
      (d : List (String × Outcome) × List MetricRow)
      → All (AsBefore existing rows) ms
      → DistinctMetrics ms
      → sync_loop digest existing now ms rows ≡ ok d
      → All (Mirrors d.1) ms
        × ((k : String) → All (λ m. (m.key == k) ≡ false) ms → row_of k d.1 ≡ row_of k rows)
  unfolding sync_loop
  sync_loop-Mirrors existing now [] rows (o, l) b v h =
      let p : rows ≡ l = cc in (tt, λ k d. ap (row_of k) (sym p))
  sync_loop-Mirrors existing now (m ∷ ms) rows (o, l) b v h =
      let (s, e1, h1) = >>=-eq-ok (sync_metric digest (row_of m.key existing) now m rows) _ h in
      let (rest, e2, h2) = >>=-eq-ok (sync_loop digest existing now ms s.1) _ h1 in
      let p : rest.1 ≡ l = cc in
      let (mi, keep) = sync_metric-Mirrors (row_of m.key existing) now m rows s b.0 e1 in
      let (all, same) =
        sync_loop-Mirrors existing now ms s.1 rest (All-before existing rows s.1 m ms keep v.0 b.1)
          v.1 e2 in
      let (r, (f, g)) = mi in
      subst
        (λ x.
          All (Mirrors x) (m ∷ ms)
          × ((k : String) → All (λ n. (n.key == k) ≡ false) (m ∷ ms) → row_of k x ≡ row_of k rows))
        p (((r, (same m.key (firsts m ms v.0) ∙ f, g)), all), λ k d. same k d.1 ∙ keep k d.0)
    where
      firsts :
          (m : CanonicalMetric) (ms : List CanonicalMetric)
          → All (λ n. ((n.key == m.key) ≡ false) × ((m.key == n.key) ≡ false)) ms
          → All (λ n. (n.key == m.key) ≡ false) ms
      firsts m [] d = tt
      firsts m (n ∷ ms) d = (d.0.0, firsts m ms d.1)

  key_of-In :
      (ms : List CanonicalMetric) (m : CanonicalMetric)
      → In m ms
      → is_in (map (λ (n : CanonicalMetric). n.key) ms) m.key ≡ true
  key_of-In [] m i = absurd i
  key_of-In (n ∷ ms) m (inl e) = rw (e, beq_refl n.key) refl
  key_of-In (n ∷ ms) m (inr i) = elim (Bool-cases (n.key == m.key)) [
    | inl t ↦ rw t refl
    | inr t ↦ rw t (key_of-In ms m i)
  ]

  not_removed :
      (existing : List MetricRow) (ms : List CanonicalMetric) (m : CanonicalMetric)
      → In m ms
      → is_in (removed_keys digest existing ms) m.key ≡ false
  not_removed existing ms m i = elim (Bool-cases (is_in (removed_keys digest existing ms) m.key)) [
    | inr e ↦ e
    | inl e ↦
        let (k, j, q) = any→In (λ k. k == m.key) (removed_keys digest existing ms) e in
        let keep = λ (k : String). not (is_in (map (λ (n : CanonicalMetric). n.key) ms) k) in
        let ks = distinct_keys (map metric_key existing) in
        let l = In-filter keep ks k ((In-sort_by leb_string (filter keep ks) k).0 j) in
        let here : is_in (map (λ (n : CanonicalMetric). n.key) ms) k ≡ true =
          rw (beq→eq k m.key q) (key_of-In ms m i) in
        absurd (cc (l.1, here))
  ]

  matches :
      (rows : List MetricRow) (existing : List MetricRow) (yaml : List CanonicalMetric)
      (m : CanonicalMetric)
      → In m yaml
      → Mirrors rows m
      → require_yaml_mirror_match digest m
          (row_of m.key (delete_canonical_metrics (removed_keys digest existing yaml) rows))
        ≡ ok tt
  unfolding require_yaml_mirror_match
  matches rows existing yaml m i (r, (f, g)) =
      let e =
        row_of-delete (removed_keys digest existing yaml) m.key rows
          (not_removed existing yaml m i) in
      rw (e, f, g, payload_beq_refl (mirror_payload digest m)) refl

  -- After a synchronisation that returns, with YAML metrics of distinct keys, the check of the mirror
  -- that proposals and acceptances make passes for each of the metrics.
  pub sync-Mirrors :
      (db : Db) (now : ℕ) (yaml : List CanonicalMetric) (result : CanonicalSyncResult) (db' : Db)
      → DistinctMetrics yaml
      → sync digest db now yaml ≡ ok (result, db')
      → (m : CanonicalMetric) → In m yaml
      → require_yaml_mirror_match digest m (fetch_canonical_metric db' m.key) ≡ ok tt
  unfolding sync fetch_canonical_metric
  sync-Mirrors db now yaml result db' v h m i =
      let (d, e1, h1) = >>=-eq-ok (sync_loop digest db.metrics now yaml db.metrics) _ h in
      let removed = removed_keys digest db.metrics yaml in
      let (u, e2, h2) =
        >>=-eq-ok
          (raise_if (not (is_none_left (blocked_keys digest removed (referenced_metric_keys db))))
            unsafe_metric_deletion)
          _ h1 in
      let p : (record db { metrics = delete_canonical_metrics removed d.1 }) ≡ db' = cc in
      let (all, _) = sync_loop-Mirrors db.metrics now yaml db.metrics d (before yaml) v e1 in
      subst (λ (x : Db). require_yaml_mirror_match digest m (row_of m.key x.metrics) ≡ ok tt) p
        (matches d.1 db.metrics yaml m i (All-In (Mirrors d.1) yaml all m i))
    where
      before : (ms : List CanonicalMetric) → All (AsBefore db.metrics db.metrics) ms
      before [] = tt
      before (m ∷ ms) = (refl, before ms)
