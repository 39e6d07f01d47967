-- ===== src/Sec/Fetch/Loop/Turns.antt =====
-- src/edgar/sec/client.py: what one attempt of `fetch_to_store` sends, records and tells.
use edgar.Prelude.{
  ℕ, suc, ◌≡◌, refl, false, ◌&&◌, List, [], ◌∷◌, ◌++◌, some, String, Result, ok, err, Error,
  >>=-eq-ok, Bool-cases, inl, inr, All, OnSome, ltb, if◌then◌else◌, max_redirects_exceeded, ◌>>◌,
}
use edgar.Storage.Objects.{StoredObject}
use edgar.Sec.Destination.{validate_url_syntax}
use edgar.Sec.Destination.Public.{IsPublic, IsNumeric}
use edgar.Sec.Fetch.Pinned.{IsUrlOfPublic, IsUrlAt, pinned_request-IsUrlAt}
use edgar.Sec.Fetch.{
  FetchHop, FetchTrace, Response, PinnedRequest, World, Fetcher, FetchState, Locals, Turn, again,
  redirect, finish, is_redirect, is_retryable, require_location, peer_check, pinned_request, emit,
  no_locals,
}
use edgar.Sec.Fetch.Attempts.{
  handle, joined_to, follow, conclude, stored, checked, locals_of, respond, request, attempt_once,
  counted, is_final,
}

-- A hop that records a public address, or none.
abbrev pub IsPublicHop : World → FetchHop → Type 0
IsPublicHop w hop = OnSome (IsPublic w.net) hop.pinned_ip

-- The log of a sink that has been told the trace once; without a sink it stays empty.
abbrev pub told : Fetcher → FetchTrace → List FetchTrace
told f trace = if f.has_sink then trace ∷ [] else []

-- A call that goes on has told its sink nothing; one that ended has told it its trace.
abbrev pub Open : World → FetchState → Type 0
Open w s =
    All (IsPublicHop w) s.trace.hops
    × (s.emitted ≡ false)
    × (s.log ≡ [])
    × All (IsUrlOfPublic w.net) s.requests

abbrev pub Closed : Fetcher → World → FetchState → Type 0
Closed f w s =
    All (IsPublicHop w) s.trace.hops
    × (s.emitted ≡ f.has_sink)
    × (s.log ≡ told f s.trace)
    × All (IsUrlOfPublic w.net) s.requests

abbrev pub TurnTold : Fetcher → World → Turn → Type 0
TurnTold f w (again s) = Open w s
TurnTold f w (redirect s) = Open w s
TurnTold f w (finish s r) = Closed f w s

All-snoc {ℓ} :
    {A : Type ℓ} (P : A → Type 0) (xs : List A) (y : A) → All P xs → P y → All P (xs ++ (y ∷ []))
All-snoc P [] y h k = (k, tt)
All-snoc P (x ∷ xs) y h k = (h.0, All-snoc P xs y h.1 k)

pub emit_closes : (f : Fetcher) (w : World) (s : FetchState) → Open w s → Closed f w (emit f s)
unfolding emit
emit_closes f w s h =
    let (hops, e, l, sent) = h in
    elim (Bool-cases f.has_sink) [
      | inl q ↦ rw (e, q, l) (hops, refl, refl, sent)
      | inr q ↦ rw (e, q) (hops, refl, l, sent)
    ]

module _ (f : Fetcher) (w : World) (max_bytes attempt : ℕ) where
  handle_told :
      (l : Locals) (e : Error) (s : FetchState)
      → OnSome (IsPublic w.net) l.pinned_ip
      → Open w s
      → TurnTold f w (handle f w max_bytes attempt l e s)
  unfolding handle
  handle_told l e s p h =
      let (hops, b, g, sent) = h in
      elim (Bool-cases (is_final f.max_retries attempt e)) [
        | inl q ↦
            rw q (emit_closes f w _ (All-snoc (IsPublicHop w) s.trace.hops _ hops p, b, g, sent))
        | inr q ↦ rw q (All-snoc (IsPublicHop w) s.trace.hops _ hops p, b, g, sent)
      ]

  joined_to_told :
      (l : Locals) (s : FetchState) (r : Result String)
      → OnSome (IsPublic w.net) l.pinned_ip
      → Open w s
      → TurnTold f w (joined_to f w max_bytes attempt l s r)
  joined_to_told l s (err e) p h = handle_told l e s p h
  joined_to_told l s (ok next) p h = h

  counted-Open :
      (l : Locals) (s : FetchState)
      → OnSome (IsPublic w.net) l.pinned_ip
      → Open w s
      → Open w (counted f w max_bytes attempt l s)
  counted-Open l s p h = (All-snoc (IsPublicHop w) s.trace.hops _ h.0 p, h.1, h.2, h.3)

  follow_told :
      (l : Locals) (s : FetchState) (r : Result String)
      → OnSome (IsPublic w.net) l.pinned_ip
      → Open w s
      → TurnTold f w (follow f w max_bytes attempt l s r)
  follow_told l s (err e) p h = handle_told l e s p h
  follow_told l s (ok location) p h =
      let s1 = counted f w max_bytes attempt l s in
      let o = counted-Open l s p h in
      elim (Bool-cases (ltb f.max_redirects (suc s.redirect_count))) [
        | inl q ↦ rw q (handle_told l (max_redirects_exceeded "exceeded MAX_REDIRECTS") s1 p o)
        | inr q ↦ rw q (joined_to_told l s1 (w.net.urljoin s.current location) p o)
      ]

  conclude_told :
      (l : Locals) (p : PinnedRequest) (response : Response) (s : FetchState)
      (r : Result StoredObject)
      → OnSome (IsPublic w.net) l.pinned_ip
      → Open w s
      → TurnTold f w (conclude f w max_bytes attempt l p response s r)
  conclude_told l p response s (err e) q h = handle_told l e s q h
  conclude_told l p response s (ok obj) q h =
      emit_closes f w _ (All-snoc (IsPublicHop w) s.trace.hops _ h.0 q, h.1, h.2, h.3)

  checked_told :
      (l : Locals) (p : PinnedRequest) (response : Response) (s : FetchState)
      (r : Result (Unit {0}))
      → OnSome (IsPublic w.net) l.pinned_ip
      → Open w s
      → TurnTold f w (checked f w max_bytes attempt l p response s r)
  checked_told l p response s (err e) q h = handle_told l e s q h
  checked_told l p response s (ok u) q h = elim (Bool-cases (is_redirect response.status_code)) [
    | inl a ↦ rw a (follow_told l s (require_location response.location) q h)
    | inr a ↦ elim (Bool-cases (is_retryable response.status_code && ltb attempt f.max_retries)) [
      | inl r ↦ rw (a, r) (All-snoc (IsPublicHop w) s.trace.hops _ h.0 q, h.1, h.2, h.3)
      | inr r ↦
          rw (a, r) (conclude_told l p response s (stored f w max_bytes attempt response s) q h)
    ]
  ]

  respond_told :
      (p : PinnedRequest) (s : FetchState) (r : Result Response)
      → IsPublic w.net p.destination.pinned_ip
      → Open w s
      → TurnTold f w (respond f w max_bytes attempt p s r)
  respond_told p s (err e) q h = handle_told _ e s q h
  respond_told p s (ok response) q h =
      checked_told (locals_of f w max_bytes attempt p response.peer_ip (some response.status_code))
        p response s (peer_check w.net p.destination.pinned_ip response.peer_ip) q h

  request_told :
      (s : FetchState) (r : Result PinnedRequest)
      → ((p : PinnedRequest)
          → r ≡ ok p
          → IsPublic w.net p.destination.pinned_ip
            × IsUrlAt w.net p.destination.pinned_ip p.request_url)
      → Open w s
      → TurnTold f w (request f w max_bytes attempt s r)
  request_told s (err e) q h = handle_told no_locals e s tt h
  request_told s (ok p) q h =
      let (public, at) = q p refl in
      let url = p.request_url in
      respond_told p (record s { requests = s.requests ++ (url ∷ []) }) (w.stream s.attempts p)
        public
        (
          h.0,
          h.1,
          h.2,
          All-snoc (IsUrlOfPublic w.net) s.requests url h.3 (p.destination.pinned_ip, public, at),
        )

  pub attempt_once_told :
      (s : FetchState)
      → IsNumeric w.net
      → Open w s
      → TurnTold f w (attempt_once f w max_bytes attempt s)
  unfolding attempt_once
  attempt_once_told s n h =
      let s1 = record s { attempts = suc s.attempts } in
      request_told s1
        (validate_url_syntax w.net s1.current >> pinned_request w.net s1.attempts s1.current)
        (λ p e.
          let (u, k, e1) = >>=-eq-ok (validate_url_syntax w.net s1.current) _ e in
          pinned_request-IsUrlAt w.net s1.attempts s1.current p n e1)
        h
