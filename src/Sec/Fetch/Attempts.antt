-- ===== src/Sec/Fetch/Attempts.antt =====
-- src/edgar/sec/client.py: one attempt of `fetch_to_store`, with its handlers.
use edgar.Prelude.{
  ℕ, suc, Bool, true, not, ◌&&◌, ◌||◌, [], ◌∷◌, ◌++◌, Option, none, some, String, Result, ok, err,
  Error, raise_if, destination_forbidden, size_limit_exceeded, max_redirects_exceeded,
  http_status_error, ◌>>◌, ltb, leb, if◌then◌else◌,
}
use edgar.Sec.Destination.{validate_url_syntax}
use edgar.Storage.Objects.{StoredObject}
use edgar.Sec.Fetch.{
  Response, PinnedRequest, World, Fetcher, FetchState, Locals, Turn, again, redirect, finish,
  is_redirect, is_retryable, no_locals, hop_of, add_hop, emit, sleep, pinned_request, peer_check,
  length_check, require_location,
}
use Prim.Native.String.{◌++◌ as str_append}

-- Which handler raises again: those of the refusals always, the others after the last attempt.
abbrev pub is_final : ℕ → ℕ → Error → Bool
is_final max_retries attempt (size_limit_exceeded m) = true
is_final max_retries attempt (max_redirects_exceeded m) = true
is_final max_retries attempt (destination_forbidden m) = true
is_final max_retries attempt (http_status_error status) =
    leb max_retries attempt || not (is_retryable status)
is_final max_retries attempt e = leb max_retries attempt

-- The status that the hop of an exception has.
abbrev pub status_of : Locals → Error → Option ℕ
status_of l (http_status_error status) = some status
status_of l e = l.http_status

-- `builder.error = hop_error` and `self._emit(builder)`
abbrev pub fail_with : Fetcher → String → FetchState → FetchState
fail_with f message s = emit f (record s { trace = record s.trace { error = some message } })

module _ (f : Fetcher) (w : World) (max_bytes attempt : ℕ) where
  -- The handlers: the hop with the error, then the end or the sleep.
  unfoldable pub handle : Locals → Error → FetchState → Turn
  handle l e s =
      let message = w.describe e in
      let hop =
        hop_of s (record l { http_status = status_of l e }) (some message) (w.now s.attempts) in
      let s1 = record (add_hop hop s) { hop_error = some message } in
      if is_final f.max_retries attempt e
      then finish (fail_with f message s1) (err e)
      else again (sleep attempt s1)

  abbrev pub joined_to : Locals → FetchState → Result String → Turn
  joined_to l s (err e) = handle l e s
  joined_to l s (ok next) = redirect (record s { current = next })

  -- A redirect: its hop, the count, then the next URI.
  abbrev pub counted : Locals → FetchState → FetchState
  counted l s =
      let s1 = add_hop (hop_of s l none (w.now s.attempts)) s in
      record s1 {
        redirect_count = suc s.redirect_count;
        trace = record s1.trace { redirect_count = suc s.redirect_count };
      }

  abbrev pub follow : Locals → FetchState → Result String → Turn
  follow l s (err e) = handle l e s
  follow l s (ok location) =
      let s1 = counted l s in
      if ltb f.max_redirects s1.redirect_count
      then handle l (max_redirects_exceeded "exceeded MAX_REDIRECTS") s1
      else joined_to l s1 (w.net.urljoin s.current location)

  abbrev pub retry : Locals → ℕ → FetchState → Turn
  retry l status s =
      let message = str_append "retryable_status_" (w.net.str_of_int status) in
      again (sleep attempt (add_hop (hop_of s l (some message) (w.now s.attempts)) s))

  abbrev pub concluded : Locals → PinnedRequest → Response → FetchState → StoredObject → FetchState
  concluded l p response s obj =
      let s1 = add_hop (hop_of s l none (w.now s.attempts)) s in
      emit f (record s1 {
        trace = record s1.trace {
          final_uri = some s.current;
          content_sha256 = some obj.sha256;
          byte_size = some obj.byte_size;
          redirect_count = s.redirect_count;
        };
      })

  -- The last part of an attempt, with what `put_stream` stored.
  abbrev pub conclude : Locals → PinnedRequest → Response → FetchState → Result StoredObject → Turn
  conclude l p response s (err e) = handle l e s
  conclude l p response s (ok obj) =
      let s1 = concluded l p response s obj in
      finish s1 (
        ok (
          record {
            requested_uri = s.trace.requested_uri;
            final_uri = s.current;
            status_code = response.status_code;
            redirect_count = s.redirect_count;
            sha256 = obj.sha256;
            byte_size = obj.byte_size;
            pinned_ip = p.destination.pinned_ip;
            observed_at = w.now s.attempts;
            peer_ip = response.peer_ip;
            trace = s1.trace;
          },
          obj,
        ))

  abbrev pub stored : Response → FetchState → Result StoredObject
  stored response s = do
    raise_if (not (w.is_success response.status_code)) (http_status_error response.status_code)
    length_check w max_bytes response.content_length
    w.put_stream s.attempts max_bytes

  abbrev pub checked : Locals → PinnedRequest → Response → FetchState → Result (Unit {0}) → Turn
  checked l p response s (err e) = handle l e s
  checked l p response s (ok u) =
      if is_redirect response.status_code
      then follow l s (require_location response.location)
      else if is_retryable response.status_code && ltb attempt f.max_retries
      then retry l response.status_code s
      else conclude l p response s (stored response s)

  abbrev pub locals_of : PinnedRequest → Option String → Option ℕ → Locals
  locals_of p peer status = record {
    candidates = p.destination.candidate_ips;
    pinned_ip = some p.destination.pinned_ip;
    peer_ip = peer;
    http_status = status;
  }

  abbrev pub respond : PinnedRequest → FetchState → Result Response → Turn
  respond p s (err e) = handle (locals_of p none none) e s
  respond p s (ok response) =
      checked (locals_of p response.peer_ip (some response.status_code)) p response s
        (peer_check w.net p.destination.pinned_ip response.peer_ip)

  abbrev pub request : FetchState → Result PinnedRequest → Turn
  request s (err e) = handle no_locals e s
  request s (ok p) =
      respond p (record s { requests = s.requests ++ (p.request_url ∷ []) }) (w.stream s.attempts p)

  -- The body of the loop over the attempts.
  unfoldable pub attempt_once : FetchState → Turn
  attempt_once s0 =
      let s = record s0 { attempts = suc s0.attempts } in
      request s (validate_url_syntax w.net s.current >> pinned_request w.net s.attempts s.current)
