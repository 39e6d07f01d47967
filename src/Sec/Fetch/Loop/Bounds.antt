-- ===== src/Sec/Fetch/Loop/Bounds.antt =====
-- src/edgar/sec/client.py: `fetch_to_store` ends, within a bounded number of requests.
use edgar.Prelude.{
  subst, ◌>>◌, ℕ, zero, suc, ◌+◌, ◌*◌, ◌≤◌, ◌<◌, ◌≡◌, refl, sym, arith, ◌&&◌, [], ◌∷◌, ◌++◌, Option,
  none, some, String, Result, ok, err, Error, Bool-cases, inl, inr, ltb, max_redirects_exceeded,
}
use native.Mathlib.Nat.{suc-mul}
use edgar.Storage.Objects.{StoredObject}
use edgar.Sec.Destination.{validate_url_syntax}
use edgar.Sec.Fetch.{
  Response, PinnedRequest, World, Fetcher, FetchState, Locals, Turn, again, redirect, finish,
  HopEnd, next_hop, done, is_redirect, is_retryable, require_location, peer_check, pinned_request,
  emit, no_locals,
}
use edgar.Sec.Fetch.Attempts.{
  handle, joined_to, follow, conclude, stored, checked, locals_of, respond, request, attempt_once,
  counted, is_final,
}
use edgar.Sec.Fetch.Loop.{
  attempts_loop, after_turn, one_hop, hops_loop, after_hop, initial, fetch_to_store, exhausted,
  unhandled, Ended, handled,
}

-- What an attempt that begins with this count of redirects, as request number `n`, keeps to: an end
-- of a hop has one redirect more, and within the limit.
abbrev Counted : Fetcher → ℕ → ℕ → Turn → Type 0
Counted f count n (again s) =
    (s.attempts ≡ n) × (count ≤ s.redirect_count) × (s.redirect_count ≤ f.max_redirects)
Counted f count n (redirect s) =
    (s.attempts ≡ n) × (count < s.redirect_count) × (s.redirect_count ≤ f.max_redirects)
Counted f count n (finish s r) = s.attempts ≡ n

pub emit_attempts : (f : Fetcher) (s : FetchState) → (emit f s).attempts ≡ s.attempts
unfolding emit
emit_attempts f s = ground arith

module _ (f : Fetcher) (w : World) (max_bytes attempt : ℕ) where
  handle-Counted :
      (l : Locals) (e : Error) (s : FetchState) (count : ℕ)
      → count ≤ s.redirect_count
      → s.redirect_count ≤ f.max_redirects
      → Counted f count s.attempts (handle f w max_bytes attempt l e s)
  unfolding handle
  handle-Counted l e s count h k = elim (Bool-cases (is_final f.max_retries attempt e)) [
    | inl q ↦ rw q (emit_attempts f _)
    | inr q ↦ rw q (refl, h, k)
  ]

  over-Counted :
      (l : Locals) (s : FetchState) (count : ℕ)
      → Counted f count s.attempts
          (handle f w max_bytes attempt l (max_redirects_exceeded "exceeded MAX_REDIRECTS") s)
  unfolding handle
  over-Counted l s count = emit_attempts f _

  joined_to-Counted :
      (l : Locals) (s : FetchState) (r : Result String) (count : ℕ)
      → count < s.redirect_count
      → s.redirect_count ≤ f.max_redirects
      → Counted f count s.attempts (joined_to f w max_bytes attempt l s r)
  joined_to-Counted l s (err e) count h k = handle-Counted l e s count (omega arith) k
  joined_to-Counted l s (ok next) count h k = (refl, h, k)

  follow-Counted :
      (l : Locals) (s : FetchState) (r : Result String) (count : ℕ)
      → count ≤ s.redirect_count
      → s.redirect_count ≤ f.max_redirects
      → Counted f count s.attempts (follow f w max_bytes attempt l s r)
  follow-Counted l s (err e) count h k = handle-Counted l e s count h k
  follow-Counted l s (ok location) count h k =
      elim (Bool-cases (ltb f.max_redirects (suc s.redirect_count))) [
        | inl q ↦ rw q (over-Counted l (counted f w max_bytes attempt l s) count)
        | inr q ↦ rw q (
            joined_to-Counted l (counted f w max_bytes attempt l s)
              (w.net.urljoin s.current location) count (omega arith) (ground arith))
      ]

  conclude-Counted :
      (l : Locals) (p : PinnedRequest) (response : Response) (s : FetchState)
      (r : Result StoredObject) (count : ℕ)
      → count ≤ s.redirect_count
      → s.redirect_count ≤ f.max_redirects
      → Counted f count s.attempts (conclude f w max_bytes attempt l p response s r)
  conclude-Counted l p response s (err e) count h k = handle-Counted l e s count h k
  conclude-Counted l p response s (ok obj) count h k = emit_attempts f _

  checked-Counted :
      (l : Locals) (p : PinnedRequest) (response : Response) (s : FetchState)
      (r : Result (Unit {0})) (count : ℕ)
      → count ≤ s.redirect_count
      → s.redirect_count ≤ f.max_redirects
      → Counted f count s.attempts (checked f w max_bytes attempt l p response s r)
  checked-Counted l p response s (err e) count h k = handle-Counted l e s count h k
  checked-Counted l p response s (ok u) count h k =
      elim (Bool-cases (is_redirect response.status_code)) [
        | inl q ↦ rw q (follow-Counted l s (require_location response.location) count h k)
        | inr q ↦
            elim (Bool-cases (is_retryable response.status_code && ltb attempt f.max_retries)) [
              | inl r ↦ rw (q, r) (refl, h, k)
              | inr r ↦
                  rw (q, r)
                    (conclude-Counted l p response s (stored f w max_bytes attempt response s) count
                      h k)
            ]
      ]

  respond-Counted :
      (p : PinnedRequest) (s : FetchState) (r : Result Response) (count : ℕ)
      → count ≤ s.redirect_count
      → s.redirect_count ≤ f.max_redirects
      → Counted f count s.attempts (respond f w max_bytes attempt p s r)
  respond-Counted p s (err e) count h k = handle-Counted _ e s count h k
  respond-Counted p s (ok response) count h k =
      checked-Counted
        (locals_of f w max_bytes attempt p response.peer_ip (some response.status_code)) p response
        s (peer_check w.net p.destination.pinned_ip response.peer_ip) count h k

  request-Counted :
      (s : FetchState) (r : Result PinnedRequest) (count : ℕ)
      → count ≤ s.redirect_count
      → s.redirect_count ≤ f.max_redirects
      → Counted f count s.attempts (request f w max_bytes attempt s r)
  request-Counted s (err e) count h k = handle-Counted no_locals e s count h k
  request-Counted s (ok p) count h k =
      respond-Counted p (record s { requests = s.requests ++ (p.request_url ∷ []) })
        (w.stream s.attempts p) count h k

  attempt_once-Counted :
      (s : FetchState)
      → s.redirect_count ≤ f.max_redirects
      → Counted f s.redirect_count (suc s.attempts) (attempt_once f w max_bytes attempt s)
  unfolding attempt_once
  attempt_once-Counted s k =
      let s1 = record s { attempts = suc s.attempts } in
      request-Counted s1
        (validate_url_syntax w.net s1.current >> pinned_request w.net s1.attempts s1.current)
        s.redirect_count (omega arith) k

-- The same of a whole hop that has `left` attempts.
abbrev HopCounted : Fetcher → ℕ → ℕ → HopEnd → Type 0
HopCounted f count n (next_hop s) =
    (s.attempts ≤ n) × (count < s.redirect_count) × (s.redirect_count ≤ f.max_redirects)
HopCounted f count n (done s r) = s.attempts ≤ n

-- The call ended, within that many requests.
abbrev EndsWithin : ℕ → Option Ended → Type 0
EndsWithin n none = 1 ≤ 0
EndsWithin n (some e) = e.0.attempts ≤ n

spend : (a b fuel k : ℕ) → a ≤ b + k → a + fuel * k ≤ b + suc fuel * k
spend a b fuel k h = rw (suc-mul fuel k) (omega arith)

within_done : (a b fuel k : ℕ) → a ≤ b + k → a ≤ b + suc fuel * k
within_done a b fuel k h = let q = spend a b fuel k h in omega arith

within_more : (o : Option Ended) (m n : ℕ) → m ≤ n → EndsWithin m o → EndsWithin n o
within_more none m n h k = k
within_more (some e) m n h k = omega arith

module _ (f : Fetcher) (w : World) (url : String) (max_bytes : ℕ) where
  exhausted_attempts : (s : FetchState) → (exhausted f w url max_bytes s).attempts ≡ s.attempts
  exhausted_attempts s = emit_attempts f _

  attempts_loop_counted :
      (left attempt : ℕ) (s : FetchState) (count : ℕ)
      → count ≤ s.redirect_count
      → s.redirect_count ≤ f.max_redirects
      → HopCounted f count (s.attempts + left) (attempts_loop f w url max_bytes left attempt s)
  unfolding attempts_loop
  attempts_loop_counted zero attempt s count h k = let e = exhausted_attempts s in omega arith
  attempts_loop_counted (suc left) attempt s count h k =
      turn (attempt_once f w max_bytes attempt s) (attempt_once-Counted f w max_bytes attempt s k)
        (λ s' h' k'. attempts_loop_counted left (suc attempt) s' count h' k')
    where
      turn :
          (t : Turn)
          → Counted f s.redirect_count (suc s.attempts) t
          → ((s' : FetchState)
              → count ≤ s'.redirect_count
              → s'.redirect_count ≤ f.max_redirects
              → HopCounted f count
                  (s'.attempts + left)
                  (attempts_loop f w url max_bytes left (suc attempt) s'))
          → HopCounted f count
              (s.attempts + suc left)
              (after_turn (λ s'. attempts_loop f w url max_bytes left (suc attempt) s') t)
      turn (again s') c rest =
          let same : s'.attempts + left ≡ s.attempts + suc left = let e = c.0 in omega arith in
          subst (λ n. HopCounted f count n (attempts_loop f w url max_bytes left (suc attempt) s'))
            same (rest s' (let e = c.1 in omega arith) c.2)
      turn (redirect s') c rest = let (e, less, most) = c in (omega arith, omega arith, most)
      turn (finish s' r) c rest = omega arith

  -- As many hops as there may still be redirects, and one more, are enough.
  hops_loop_within :
      (fuel : ℕ) (s : FetchState)
      → s.redirect_count ≤ f.max_redirects
      → f.max_redirects < s.redirect_count + fuel
      → EndsWithin (s.attempts + fuel * suc f.max_retries) (hops_loop f w url max_bytes fuel s)
  unfolding hops_loop
  hops_loop_within zero s k h = absurd (omega arith)
  hops_loop_within (suc fuel) s k h =
      hop (one_hop f w url max_bytes s)
        (attempts_loop_counted (suc f.max_retries) 0 (record s { hop_error = none })
          s.redirect_count (omega arith) k)
        (λ s' k' h'. hops_loop_within fuel s' k' h')
    where
      hop :
          (t : HopEnd)
          → HopCounted f s.redirect_count (s.attempts + suc f.max_retries) t
          → ((s' : FetchState)
              → s'.redirect_count ≤ f.max_redirects
              → f.max_redirects < s'.redirect_count + fuel
              → EndsWithin
                  (s'.attempts + fuel * suc f.max_retries)
                  (hops_loop f w url max_bytes fuel s'))
          → EndsWithin
              (s.attempts + suc fuel * suc f.max_retries)
              (after_hop (λ s'. hops_loop f w url max_bytes fuel s') t)
      hop (next_hop s') c rest =
          let (some_attempts, less, most) = c in
          within_more (hops_loop f w url max_bytes fuel s') (s'.attempts + fuel * suc f.max_retries)
            (s.attempts + suc fuel * suc f.max_retries)
            (spend s'.attempts s.attempts fuel (suc f.max_retries) some_attempts)
            (rest s' most (omega arith))
      hop (done s' r) c rest = within_done s'.attempts s.attempts fuel (suc f.max_retries) c

  handled_within :
      (n : ℕ) (o : Option Ended)
      → EndsWithin n o
      → (e : Ended) × (handled f w url max_bytes o ≡ some e) × (e.0.attempts ≤ n)
  handled_within n none h = absurd (omega arith)
  handled_within n (some (s, ok r)) h = ((s, ok r), refl, h)
  handled_within n (some (s, err e)) h = elim (Bool-cases s.emitted) [
    | inl q ↦ ((s, err e), rw q refl, h)
    | inr q ↦ (
      (unhandled f w url max_bytes s e, err e),
      rw q refl,
      subst (λ k. k ≤ n) (sym (emit_attempts f _)) h,
    )
  ]

  -- `fetch_to_store` ends, whatever the network answers: it returns or raises after at most
  -- (max_redirects + 1) * (max_retries + 1) requests.
  pub fetch_to_store_ends :
      (e : Ended) × (fetch_to_store f w url max_bytes ≡ some e)
      × (e.0.attempts ≤ suc f.max_redirects * suc f.max_retries)
  unfolding fetch_to_store
  fetch_to_store_ends = handled_within (suc f.max_redirects * suc f.max_retries) _ (
      within_more (hops_loop f w url max_bytes (suc f.max_redirects) (initial f w url max_bytes))
        (0 + suc f.max_redirects * suc f.max_retries) (suc f.max_redirects * suc f.max_retries)
        (omega arith)
        (hops_loop_within (suc f.max_redirects) (initial f w url max_bytes) (omega arith)
          (omega arith)))
