-- ===== src/Registry/Service/Ledger/History.antt =====
-- The lives of the assertions of src/edgar/registry/service.py: what a row may revise, in every table
-- that the methods reach.
use edgar.Prelude.{
  ℕ, ◌<◌, ◌≡◌, refl, sym, ◌∙◌, ap, subst, inl, inr, Bool, true, not, ◌||◌, List, [], ◌∷◌, Option,
  none, some, String, ok, raise_if, raise_if-then, not-false, ◌≢◌, >>=-eq-ok, ok_injective, find,
  any, any→In, In, All, All-In, arith, Bool-cases, ◌==◌, nat_eq, option_eq, beq→eq,
  mapping_decision_error, unsafe_metric_deletion,
}
use edgar.Registry.Store.{
  Db, NewAssertion, MappingAssertion, MappingStatus, candidate, accepted, rejected, is_candidate,
  is_accepted, supersedes, is_current, add_assertion, fetch_mapping_assertion, successor_id,
  fetch_concept_by_qname, insert_mapping_assertion, referenced_metric_keys,
}
use edgar.Registry.Metrics.{DefinitionPayload}
use edgar.Registry.Mapping.{parse_clark_qname}
use edgar.Registry.Service.{
  require_current, or_raise, is_some, blank, unknown_issuer, require_yaml_metric, propose_mapping,
  reject_mapping,
}
use edgar.Registry.Sync.{sync, sync_loop, removed_keys, blocked_keys, is_none_left}
use edgar.Registry.Service.Ledger.{IsLedger, insert-Inserted}
use edgar.Registry.Service.Ledger.Methods.{
  accept-Accepts, Step, propose, accept, reject, synchronise, Reach, here, next, Reach-IsLedger,
}

-- The decisions on an assertion; none leads out of a rejection.
pub data Decides : MappingStatus → MappingStatus → Type 0 where
  accepts : Decides candidate accepted
  rejects : Decides candidate rejected
  revokes : Decides accepted rejected

-- A first row is a candidate; a revision is of an older row, has its claim, and decides on its status.
abbrev pub Revises : List MappingAssertion → MappingAssertion → Option ℕ → Type 0
Revises rows a none = a.row.status ≡ candidate
Revises rows a (some i) =
    (c : MappingAssertion) × In c rows
    × (c.id ≡ i)
    × (a.row.claim ≡ c.row.claim)
    × Decides c.row.status a.row.status

-- The rows, the newest first: each has a key above those of the older rows, and revises one of them if
-- it revises any.
abbrev pub IsHistory : List MappingAssertion → Type 0
IsHistory [] = Unit
IsHistory (a ∷ rows) =
    Revises rows a a.row.supersedes_id × All (λ b. b.id < a.id) rows × IsHistory rows

find-In :
    {A : Type 0} (p : A → Bool) (xs : List A) (a : A) → find p xs ≡ some a → In a xs × (p a ≡ true)
find-In p [] a h = absurd (cc h)
find-In p (x ∷ xs) a h = elim (Bool-cases (p x)) [
  | inl e ↦ (inl (cc (rw e at h)), cc (rw e at h))
  | inr e ↦ let (j, q) = find-In p xs a (rw e at h) in (inr j, q)
]

-- What is current stands in the table, under its key.
current-In :
    (db : Db) (i : ℕ) (c : MappingAssertion)
    → require_current db i ≡ ok c
    → In c db.assertions × (c.id ≡ i)
unfolding require_current fetch_mapping_assertion
current-In db i c h =
    let (row, found, h1) = >>=-eq-ok (or_raise (fetch_mapping_assertion db i) _) _ h in
    let (_, _, h2) = >>=-eq-ok (raise_if (is_some (successor_id db i)) _) _ h1 in
    let (j, e) =
      find-In (λ a. a.id == i) db.assertions row (given (fetch_mapping_assertion db i) row found) in
    subst (λ r. In r db.assertions × (r.id ≡ i)) (ok_injective h2) (j, beq→eq row.id i e)
  where
    given :
        (o : Option MappingAssertion) (row : MappingAssertion)
        → or_raise o (mapping_decision_error "not found") ≡ ok row
        → o ≡ some row
    given none row e = absurd (cc e)
    given (some r) row e = ap some (ok_injective e)

may_accept : (s : MappingStatus) → is_candidate s ≡ true → Decides s accepted
may_accept candidate h = accepts
may_accept accepted h = absurd (cc h)
may_accept rejected h = absurd (cc h)

may_reject : (s : MappingStatus) → (is_candidate s || is_accepted s) ≡ true → Decides s rejected
may_reject candidate h = rejects
may_reject accepted h = revokes
may_reject rejected h = absurd (cc h)

inserted-IsHistory :
    (db : Db) (r : NewAssertion) (i : ℕ) (db' : Db)
    → IsLedger db
    → IsHistory db.assertions
    → insert_mapping_assertion db r ≡ ok (i, db')
    → Revises db.assertions (record { id = db.next_id; row = r }) r.supersedes_id
    → IsHistory db'.assertions
unfolding add_assertion
inserted-IsHistory db r i db' l h e v = rw (insert-Inserted db r i db' e).table (v, l.fresh, h)

Step-IsHistory :
    (digest : DefinitionPayload → String) (t u : Db)
    → Step digest t u
    → IsLedger t
    → IsHistory t.assertions
    → IsHistory u.assertions
unfolding propose_mapping reject_mapping sync
Step-IsHistory digest t u (propose yaml now create i e) l h =
    let (parts, _, e2) = >>=-eq-ok (parse_clark_qname create.concept) _ e in
    let (concept, _, e3) = >>=-eq-ok (or_raise (fetch_concept_by_qname t parts.0 parts.1) _) _ e2 in
    let (_, _, e4) =
      >>=-eq-ok (raise_if (unknown_issuer digest yaml t create.scope.issuer_cik) _) _ e3 in
    let (metric, _, e5) =
      >>=-eq-ok (require_yaml_metric digest yaml t create.target_metric_key) _ e4 in
    inserted-IsHistory t _ i u l h e5 refl
Step-IsHistory digest t u (accept yaml now assertion_id revision i e) l h =
    let a = accept-Accepts digest yaml t now assertion_id revision i u e in
    let (j, k) = current-In t assertion_id a.current a.is_found in
    inserted-IsHistory t _ i u l h a.inserted
      (a.current, j, k, refl, may_accept a.current.row.status a.was_candidate)
Step-IsHistory digest t u (reject now assertion_id revision i e) l h =
    let (c, found, e2) = >>=-eq-ok (require_current t assertion_id) _ e in
    let (undecided, e3) =
      raise_if-then (not (is_candidate c.row.status || is_accepted c.row.status))
        (mapping_decision_error "rejected assertions are terminal") _ e2 in
    let (_, _, e4) = >>=-eq-ok (raise_if (blank revision.rationale) _) _ e3 in
    let (j, k) = current-In t assertion_id c found in
    inserted-IsHistory t _ i u l h e4
      (c, j, k, refl, may_reject c.row.status (not-false _ undecided))
Step-IsHistory digest t u (synchronise yaml now result e) l h =
    let (d, e1, h1) = >>=-eq-ok (sync_loop digest t.metrics now yaml t.metrics) _ e in
    let (_, _, h2) =
      >>=-eq-ok
        (raise_if
          (not (
            is_none_left (
              blocked_keys digest (removed_keys digest t.metrics yaml) (referenced_metric_keys t))))
          unsafe_metric_deletion)
        _ h1 in
    let same : u.assertions ≡ t.assertions = cc in subst IsHistory (sym same) h

-- In every table that proposals, acceptances, rejections and synchronisations of the mirror reach
-- from an empty ledger, a row that revises none is a candidate, and a row that revises one has the
-- claim of that older row and is an acceptance of a candidate, or a rejection of a candidate or of an
-- accepted row. Each row has a key above those of the older rows.
pub Reach-IsHistory :
    (digest : DefinitionPayload → String) (start db : Db)
    → start.assertions ≡ []
    → Reach digest start db
    → IsHistory db.assertions
Reach-IsHistory digest start db e here = rw e tt
Reach-IsHistory digest start db e (next {t = t} r s) =
    Step-IsHistory digest t db s (Reach-IsLedger digest start t e r)
      (Reach-IsHistory digest start t e r)

same_row :
    (rows : List MappingAssertion) (a b : MappingAssertion)
    → IsHistory rows
    → In a rows
    → In b rows
    → a.id ≡ b.id
    → a ≡ b
same_row [] a b h i j e = elim i [ ]
same_row (x ∷ rows) a b h (inl i) (inl j) e = i ∙ sym j
same_row (x ∷ rows) a b h (inl i) (inr j) e =
    let below = All-In (λ r. r.id < x.id) rows h.1 b j in
    let at : a.id ≡ x.id = ap (λ r. r.id) i in absurd (omega arith)
same_row (x ∷ rows) a b h (inr i) (inl j) e =
    let below = All-In (λ r. r.id < x.id) rows h.1 a i in
    let at : b.id ≡ x.id = ap (λ r. r.id) j in absurd (omega arith)
same_row (x ∷ rows) a b h (inr i) (inr j) e = same_row rows a b h.2 i j e

not_decided : {s t : MappingStatus} → Decides s t → s ≢ rejected
not_decided accepts = cc
not_decided rejects = cc
not_decided revokes = cc

-- What a row of a history supersedes has not been rejected.
revised-not_rejected :
    (rows : List MappingAssertion) (a : MappingAssertion) (i : ℕ)
    → IsHistory rows
    → In a rows
    → a.row.supersedes_id ≡ some i
    → (c : MappingAssertion) × In c rows × (c.id ≡ i) × (c.row.status ≢ rejected)
revised-not_rejected [] a i h j e = elim j [ ]
revised-not_rejected (x ∷ rows) a i h (inl j) e =
    let (c, k, n, _, d) = subst (Revises rows x) (ap (λ r. r.row.supersedes_id) (sym j) ∙ e) h.0 in
    (c, inr k, n, not_decided d)
revised-not_rejected (x ∷ rows) a i h (inr j) e =
    let (c, k, n, d) = revised-not_rejected rows a i h.2 j e in (c, inr k, n, d)

-- In every table reached from an empty ledger a rejected assertion has no successor: it stays the
-- current row of its line.
pub Reach-rejected_is_current :
    (digest : DefinitionPayload → String) (start db : Db) (c : MappingAssertion)
    → start.assertions ≡ []
    → Reach digest start db
    → In c db.assertions
    → c.row.status ≡ rejected
    → is_current db c ≡ true
Reach-rejected_is_current digest start db c e r j s =
    elim (Bool-cases (any (supersedes c.id) db.assertions)) [
      | inr last ↦ rw last refl
      | inl revised ↦
          let h = Reach-IsHistory digest start db e r in
          let (a, i, hit) = any→In (supersedes c.id) db.assertions revised in
          let (b, k, n, d) =
            revised-not_rejected db.assertions a c.id h i
              (beq→eq a.row.supersedes_id (some c.id) hit) in
          absurd (d (ap (λ x. x.row.status) (same_row db.assertions b c h k j n) ∙ s))
    ]
