-- ===== src/Sec/Fetch/Loop/Traces.antt =====
-- src/edgar/sec/client.py: the requests of `fetch_to_store`, and what it tells its sink.
use edgar.Prelude.{
  ℕ, zero, suc, ◌≡◌, refl, sym, ap, ◌∙◌, subst, Bool, true, false, List, [], ◌∷◌, Option, none,
  some, String, ok, err, Error, All, if◌then◌else◌,
}
use edgar.Sec.Destination.Public.{IsNumeric}
use edgar.Sec.Fetch.Pinned.{IsUrlOfPublic}
use edgar.Sec.Fetch.{
  FetchHop, World, Fetcher, FetchState, Turn, again, redirect, finish, HopEnd, next_hop, done, emit,
}
use edgar.Sec.Fetch.Attempts.{attempt_once}
use edgar.Sec.Fetch.Loop.{
  attempts_loop, after_turn, one_hop, hops_loop, after_hop, initial, fetch_to_store, unhandled,
  Ended, handled, hops_or,
}
use edgar.Sec.Fetch.Loop.Turns.{
  IsPublicHop, told, Open, Closed, TurnTold, emit_closes, attempt_once_told,
}

abbrev some_or : Ended → Option Ended → Ended
some_or default none = default
some_or default (some x) = x

some_injective : {x y : Ended} → some x ≡ some y → x ≡ y
some_injective {x = x} h = ap (some_or x) h

-- A property of both branches that holds under their tests.
by_test :
    (P : FetchState → Type 0) (b : Bool) (x y : FetchState)
    → (b ≡ true → P x)
    → (b ≡ false → P y)
    → P (if b then x else y)
by_test P true x y h k = h refl
by_test P false x y h k = k refl

abbrev HopTold : Fetcher → World → HopEnd → Type 0
HopTold f w (next_hop s) = Open w s
HopTold f w (done s r) = Closed f w s

abbrev EndTold : Fetcher → World → Option Ended → Type 0
EndTold f w none = Unit
EndTold f w (some e) = Closed f w e.0

module _ (f : Fetcher) (w : World) (url : String) (max_bytes : ℕ) where
  after_turn_told :
      (rest : FetchState → HopEnd)
      → ((s : FetchState) → Open w s → HopTold f w (rest s))
      → (t : Turn) → TurnTold f w t
      → HopTold f w (after_turn rest t)
  after_turn_told rest r (again s) h = r s h
  after_turn_told rest r (redirect s) h = h
  after_turn_told rest r (finish s e) h = h

  after_hop_told :
      (rest : FetchState → Option Ended)
      → ((s : FetchState) → Open w s → EndTold f w (rest s))
      → (t : HopEnd) → HopTold f w t
      → EndTold f w (after_hop rest t)
  after_hop_told rest r (next_hop s) h = r s h
  after_hop_told rest r (done s e) h = h

  attempts_loop_told :
      (left attempt : ℕ) (s : FetchState)
      → IsNumeric w.net
      → Open w s
      → HopTold f w (attempts_loop f w url max_bytes left attempt s)
  unfolding attempts_loop
  attempts_loop_told zero attempt s n h = emit_closes f w _ h
  attempts_loop_told (suc left) attempt s n h =
      after_turn_told _ (λ s' h'. attempts_loop_told left (suc attempt) s' n h')
        (attempt_once f w max_bytes attempt s) (attempt_once_told f w max_bytes attempt s n h)

  hops_loop_told :
      (fuel : ℕ) (s : FetchState)
      → IsNumeric w.net
      → Open w s
      → EndTold f w (hops_loop f w url max_bytes fuel s)
  unfolding hops_loop
  hops_loop_told zero s n h = tt
  hops_loop_told (suc fuel) s n h =
      after_hop_told _ (λ s' h'. hops_loop_told fuel s' n h') (one_hop f w url max_bytes s)
        (attempts_loop_told (suc f.max_retries) 0 (record s { hop_error = none }) n h)

  hops_or_public :
      (hop : FetchHop) (hops : List FetchHop)
      → IsPublicHop w hop
      → All (IsPublicHop w) hops
      → All (IsPublicHop w) (hops_or hop hops)
  hops_or_public hop [] h k = (h, tt)
  hops_or_public hop (x ∷ xs) h k = k

  unhandled-Closed :
      (s : FetchState) (e : Error)
      → s.emitted ≡ false
      → Closed f w s
      → Closed f w (unhandled f w url max_bytes s e)
  unfolding emit
  unhandled-Closed s e n h =
      let (hops, b, l, sent) = h in
      let quiet : f.has_sink ≡ false = sym b ∙ n in
      let silent : s.log ≡ [] = l ∙ rw quiet refl in
      rw (n, quiet) (hops_or_public _ s.trace.hops tt hops, refl, silent, sent)

  handled-Closed :
      (o : Option Ended) (e : Ended)
      → EndTold f w o
      → handled f w url max_bytes o ≡ some e
      → Closed f w e.0
  handled-Closed none e h k = absurd (cc k)
  handled-Closed (some (s, ok r)) e h k = subst (λ x. Closed f w x.0) (some_injective k) h
  handled-Closed (some (s, err x)) e h k =
      subst (λ x'. Closed f w x'.0) (some_injective k)
        (by_test (Closed f w) s.emitted s (unhandled f w url max_bytes s x) (λ _. h)
          (λ n. unhandled-Closed s x n h))

  -- If `getaddrinfo` answers texts of addresses, the URL of each request that `fetch_to_store` sends
  -- has a public address as its network location, never a name, and each address that its trace
  -- records is public. Where there is a sink it is told exactly one trace, the one with which the call
  -- ends, whether it returns or raises.
  pub fetch_to_store-told :
      (e : Ended)
      → IsNumeric w.net
      → fetch_to_store f w url max_bytes ≡ some e
      → All (IsUrlOfPublic w.net) e.0.requests
        × All (IsPublicHop w) e.0.trace.hops
        × (e.0.log ≡ told f e.0.trace)
  unfolding fetch_to_store
  fetch_to_store-told e n h =
      let start : Open w (initial f w url max_bytes) = (tt, refl, refl, tt) in
      let (hops, b, l, sent) =
        handled-Closed
          (hops_loop f w url max_bytes (suc f.max_redirects) (initial f w url max_bytes)) e
          (hops_loop_told (suc f.max_redirects) (initial f w url max_bytes) n start) h in
      (sent, hops, l)
