-- ===== src/Sec/Fetch/Loop/Recovery.antt =====
-- src/edgar/sec/client.py: `fetch_to_store` outlasts a server that is busy for a while.
use edgar.Prelude.{
  ℕ, zero, suc, ◌+◌, ◌≤◌, ◌<◌, ◌≡◌, refl, sym, ap, ◌∙◌, subst, arith, true, false, Option, none,
  some, String, ok, err, ltb,
}
use edgar.Storage.Objects.{StoredObject}
use edgar.Sec.Destination.{UrlParts, validate_url_syntax}
use edgar.Sec.Fetch.{
  Response, PinnedRequest, World, Fetcher, FetchState, Turn, again, redirect, finish, HopEnd,
  next_hop, done, is_redirect, is_retryable, pinned_request, peer_check, length_check,
}
use edgar.Sec.Fetch.Attempts.{attempt_once}
use edgar.Sec.Fetch.Loop.Bounds.{emit_attempts}
use edgar.Sec.Fetch.Loop.{
  attempts_loop, after_turn, one_hop, hops_loop, after_hop, initial, fetch_to_store, Ended, handled,
}

-- The URI is let through, and a response comes from the pinned address.
pub record Reachable (w : World) (url : String) (p : PinnedRequest) : Type 0 where
  pub parts : UrlParts
  pub valid : validate_url_syntax w.net url ≡ ok parts
  pub pinned : (n : ℕ) → pinned_request w.net n url ≡ ok p

-- A response that asks to try again later.
pub record IsBusy (w : World) (p : PinnedRequest) (r : Response) : Type 0 where
  pub from_peer : peer_check w.net p.destination.pinned_ip r.peer_ip ≡ ok tt
  pub no_redirect : is_redirect r.status_code ≡ false
  pub retryable : is_retryable r.status_code ≡ true

-- A response whose body is stored as `obj`.
pub record IsServed (w : World) (max_bytes n : ℕ) (p : PinnedRequest) (r : Response)
    (obj : StoredObject) : Type 0 where
  pub from_peer : peer_check w.net p.destination.pinned_ip r.peer_ip ≡ ok tt
  pub no_redirect : is_redirect r.status_code ≡ false
  pub settled : is_retryable r.status_code ≡ false
  pub success : w.is_success r.status_code ≡ true
  pub short : length_check w max_bytes r.content_length ≡ ok tt
  pub kept : w.put_stream n max_bytes ≡ ok obj

-- The attempt goes on with the same URI, and the attempt has the object.
abbrev Waits : String → ℕ → Turn → Type 0
Waits url n (again s) = (s.current ≡ url) × (s.attempts ≡ n)
Waits url n (redirect s) = 1 ≤ 0
Waits url n (finish s r) = 1 ≤ 0

abbrev Serves : ℕ → StoredObject → Turn → Type 0
Serves n obj (again s) = 1 ≤ 0
Serves n obj (redirect s) = 1 ≤ 0
Serves n obj (finish s (err e)) = 1 ≤ 0
Serves n obj (finish s (ok (result, kept))) = (kept ≡ obj) × (s.attempts ≡ n)

abbrev HopServes : ℕ → StoredObject → HopEnd → Type 0
HopServes n obj (next_hop s) = 1 ≤ 0
HopServes n obj (done s (err e)) = 1 ≤ 0
HopServes n obj (done s (ok (result, kept))) = (kept ≡ obj) × (s.attempts ≡ n)

-- The call has returned the object, after that many requests.
abbrev pub Returned : ℕ → StoredObject → Option Ended → Type 0
Returned n obj none = 1 ≤ 0
Returned n obj (some (s, err e)) = 1 ≤ 0
Returned n obj (some (s, ok (result, kept))) = (kept ≡ obj) × (s.attempts ≡ n)

module _ (f : Fetcher) (w : World) (url : String) (max_bytes : ℕ) (p : PinnedRequest)
    (reach : Reachable w url p) where
  valid_here :
      (s : FetchState) → s.current ≡ url → validate_url_syntax w.net s.current ≡ ok reach.parts
  valid_here s c = ap (validate_url_syntax w.net) c ∙ reach.valid

  pinned_here :
      (s : FetchState) → s.current ≡ url → pinned_request w.net (suc s.attempts) s.current ≡ ok p
  pinned_here s c = ap (pinned_request w.net (suc s.attempts)) c ∙ reach.pinned (suc s.attempts)

  busy_attempt :
      (attempt : ℕ) (s : FetchState) (r : Response)
      → s.current ≡ url
      → w.stream (suc s.attempts) p ≡ ok r
      → IsBusy w p r
      → ltb attempt f.max_retries ≡ true
      → Waits url (suc s.attempts) (attempt_once f w max_bytes attempt s)
  unfolding attempt_once
  busy_attempt attempt s r c answer busy more =
      rw
        (
          valid_here s c,
          pinned_here s c,
          answer,
          busy.from_peer,
          busy.no_redirect,
          busy.retryable,
          more,
        )
        (c, refl)

  served_attempt :
      (attempt : ℕ) (s : FetchState) (r : Response) (obj : StoredObject)
      → s.current ≡ url
      → w.stream (suc s.attempts) p ≡ ok r
      → IsServed w max_bytes (suc s.attempts) p r obj
      → Serves (suc s.attempts) obj (attempt_once f w max_bytes attempt s)
  unfolding attempt_once
  served_attempt attempt s r obj c answer served =
      rw
        (
          valid_here s c,
          pinned_here s c,
          answer,
          served.from_peer,
          served.no_redirect,
          served.settled,
          served.success,
          served.short,
          served.kept,
        )
        (refl, emit_attempts f _)

  after_served :
      (n : ℕ) (obj : StoredObject) (rest : FetchState → HopEnd) (t : Turn)
      → Serves n obj t
      → HopServes n obj (after_turn rest t)
  after_served n obj rest (again s) h = absurd (omega arith)
  after_served n obj rest (redirect s) h = absurd (omega arith)
  after_served n obj rest (finish s (err e)) h = h
  after_served n obj rest (finish s (ok (result, kept))) h = h

  after_waiting :
      (n m : ℕ) (obj : StoredObject) (rest : FetchState → HopEnd) (t : Turn)
      → Waits url n t
      → ((s : FetchState) → s.current ≡ url → s.attempts ≡ n → HopServes m obj (rest s))
      → HopServes m obj (after_turn rest t)
  after_waiting n m obj rest (again s) h k = k s h.0 h.1
  after_waiting n m obj rest (redirect s) h k = absurd (omega arith)
  after_waiting n m obj rest (finish s r) h k = absurd (omega arith)

  -- `wait` busy answers, up to request number `last`, and then the object.
  attempts_loop_served :
      (wait left attempt last : ℕ) (s : FetchState) (obj : StoredObject) (busy : Response)
      (served : Response)
      → s.current ≡ url
      → s.attempts ≡ attempt
      → attempt + wait ≡ last
      → last ≤ f.max_retries
      → wait < left
      → ((n : ℕ) → n ≤ last → w.stream n p ≡ ok busy)
      → IsBusy w p busy
      → w.stream (suc last) p ≡ ok served
      → IsServed w max_bytes (suc last) p served obj
      → HopServes (suc last) obj (attempts_loop f w url max_bytes left attempt s)
  unfolding attempts_loop
  attempts_loop_served wait zero attempt last s obj busy served c a t h l b ib e ie =
      absurd (omega arith)
  attempts_loop_served zero (suc left) attempt last s obj busy served c a t h l b ib e ie =
      let same : last ≡ s.attempts = omega arith in
      let answer : w.stream (suc s.attempts) p ≡ ok served =
        ap (λ n. w.stream (suc n) p) (sym same) ∙ e in
      let is_served = subst (λ n. IsServed w max_bytes (suc n) p served obj) same ie in
      let turn = served_attempt attempt s served obj c answer is_served in
      after_served (suc last) obj _ (attempt_once f w max_bytes attempt s)
        (subst (λ n. Serves (suc n) obj (attempt_once f w max_bytes attempt s)) (sym same) turn)
  attempts_loop_served (suc wait) (suc left) attempt last s obj busy served c a t h l b ib e ie =
      after_waiting (suc s.attempts) (suc last) obj _ (attempt_once f w max_bytes attempt s)
        (busy_attempt attempt s busy c (b (suc s.attempts) (omega arith)) ib (ground arith))
        (λ s' c' a'.
          attempts_loop_served wait left (suc attempt) last s' obj busy served c' (a' ∙ ap suc a)
            (omega arith) h (omega arith) b ib e ie)

  returned :
      (n : ℕ) (obj : StoredObject) (rest : FetchState → Option Ended) (t : HopEnd)
      → HopServes n obj t
      → Returned n obj (handled f w url max_bytes (after_hop rest t))
  returned n obj rest (next_hop s) h = absurd (omega arith)
  returned n obj rest (done s (err e)) h = absurd (omega arith)
  returned n obj rest (done s (ok (result, kept))) h = h

  -- Where the URI is let through, the server is busy for the first `last` requests, at most as many as
  -- there may be retries, and then serves a body that is stored as the object, `fetch_to_store` returns
  -- that object after one request more.
  pub fetch_to_store_recovers :
      (last : ℕ) (obj : StoredObject) (busy served : Response)
      → last ≤ f.max_retries
      → ((n : ℕ) → n ≤ last → w.stream n p ≡ ok busy)
      → IsBusy w p busy
      → w.stream (suc last) p ≡ ok served
      → IsServed w max_bytes (suc last) p served obj
      → Returned (suc last) obj (fetch_to_store f w url max_bytes)
  unfolding fetch_to_store hops_loop
  fetch_to_store_recovers last obj busy served h b ib e ie =
      returned (suc last) obj _ (one_hop f w url max_bytes (initial f w url max_bytes)) (
        attempts_loop_served last (suc f.max_retries) 0 last
          (record (initial f w url max_bytes) { hop_error = none }) obj busy served refl refl
          (omega arith) h (omega arith) b ib e ie)
