-- ===== src/Sec/Fetch/Loop.antt =====
-- src/edgar/sec/client.py: the loops of `fetch_to_store` over the attempts and the redirects.
pub mod Bounds
pub mod Turns
pub mod Traces
pub mod Recovery
use edgar.Prelude.{
  ℕ, zero, suc, ◌≡◌, Bool, true, false, not, List, [], ◌∷◌, Option, none, some, String, Result, ok,
  err, Error, runtime_error, if◌then◌else◌,
}
use edgar.Storage.Objects.{StoredObject}
use edgar.Sec.Fetch.{
  FetchHop, FetchTrace, FetchResult, World, Fetcher, FetchState, Turn, again, redirect, finish,
  HopEnd, next_hop, done, no_locals, hop_of, add_hop, emit,
}
use edgar.Sec.Fetch.Attempts.{attempt_once, fail_with}

-- How a call ends: its last state, and what it returns or raises.
abbrev pub Ended : Type 0
Ended = FetchState × Result (FetchResult × StoredObject)

abbrev pub message_or : String → Option String → String
message_or default none = default
message_or default (some m) = m

-- `if builder.error is None` and `if not builder.hops` of the outer handler.
abbrev error_or : String → Option String → Option String
error_or message none = some message
error_or message (some m) = some m

abbrev hops_or : FetchHop → List FetchHop → List FetchHop
hops_or hop [] = hop ∷ []
hops_or hop (h ∷ hs) = h ∷ hs

-- What follows an attempt, with the rest of the loop, and what follows a hop.
abbrev pub after_turn : (FetchState → HopEnd) → Turn → HopEnd
after_turn rest (again s) = rest s
after_turn rest (redirect s) = next_hop s
after_turn rest (finish s r) = done s r

abbrev pub after_hop : (FetchState → Option Ended) → HopEnd → Option Ended
after_hop rest (next_hop s) = rest s
after_hop rest (done s r) = some (s, r)

module _ (f : Fetcher) (w : World) (url : String) (max_bytes : ℕ) where
  -- The `else` of the loop.
  abbrev pub exhausted : FetchState → FetchState
  exhausted s = fail_with f (message_or "failed to fetch after retries" s.hop_error) s

  -- `for attempt in range(self.max_retries + 1)`, by the number of attempts that are left.
  unfoldable pub attempts_loop : ℕ → ℕ → FetchState → HopEnd
  attempts_loop zero attempt s =
      done (exhausted s) (err (runtime_error "failed to fetch after retries"))
  attempts_loop (suc left) attempt s =
      after_turn (λ s'. attempts_loop left (suc attempt) s') (attempt_once f w max_bytes attempt s)

  abbrev pub one_hop : FetchState → HopEnd
  one_hop s = attempts_loop (suc f.max_retries) 0 (record s { hop_error = none })

  -- `while True`, on fuel; none where the fuel runs out.
  unfoldable pub hops_loop : ℕ → FetchState → Option Ended
  hops_loop zero s = none
  hops_loop (suc fuel) s = after_hop (λ s'. hops_loop fuel s') (one_hop s)

  -- The outer handler, where nothing has been emitted yet.
  abbrev pub unhandled : FetchState → Error → FetchState
  unhandled s e =
      let error = error_or (w.describe e) s.trace.error in
      let hop = hop_of (record s { current = url }) no_locals error (w.now s.attempts) in
      emit f
        (record s { trace = record s.trace { error = error; hops = hops_or hop s.trace.hops } })

  abbrev pub outer_except : Ended → Ended
  outer_except (s, ok r) = (s, ok r)
  outer_except (s, err e) = ((if s.emitted then s else unhandled s e), err e)

  abbrev pub initial : FetchState
  initial = record {
    trace = record {
      requested_uri = url;
      hops = [];
      final_uri = none;
      content_sha256 = none;
      byte_size = none;
      error = none;
      redirect_count = 0;
    };
    emitted = false;
    log = [];
    current = url;
    redirect_count = 0;
    attempts = 0;
    slept = [];
    requests = [];
    hop_error = none;
  }

  abbrev pub handled : Option Ended → Option Ended
  handled none = none
  handled (some e) = some (outer_except e)

  -- `fetch_to_store`; the fuel is one hop more than there may be redirects.
  unfoldable pub fetch_to_store : Option Ended
  fetch_to_store = handled (hops_loop (suc f.max_redirects) initial)
