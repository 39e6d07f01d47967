-- ===== src/Sec/Fetch.antt =====
-- src/edgar/sec/client.py: `ControlledFetcher.fetch_to_store`. Each attempt is one request; what the
-- network and the store answer is the `World`, which may answer differently at each attempt: its
-- functions take the number of the attempt. The sink of traces is a log and does not raise.
-- The headers of a result are not kept. The seconds that the client sleeps are the list of the powers of two, without the random part, and
-- the throttle's clock is not modelled.
pub mod Attempts
pub mod Pinned
pub mod Loop
pub mod Scenarios
use Prim.Native.Char.{Char, code}
use edgar.Prelude.{
  ℕ, zero, suc, ◌+◌, ◌^◌, ◌≡◌, Bool, true, false, not, ◌&&◌, ◌||◌, List, [], ◌∷◌, ◌++◌, Option,
  none, some, String, Result, ok, err, Error, raise_if, destination_forbidden, size_limit_exceeded,
  max_redirects_exceeded, http_status_error, runtime_error, ◌>>=◌, ◌>>◌, ◌==◌, string_eq, any,
  nat_beq, ltb, leb, if◌then◌else◌,
}
use edgar.Prelude.Text.{is_empty, any_char}
use edgar.Prelude.Int.{ℤ, pos, ltb_ℤ}
use edgar.Sec.Destination.{
  NetLibrary, ParsedUrl, ResolvedDestination, resolve_destination, validate_url_syntax,
  default_port,
}
use edgar.Storage.Objects.{StoredObject}
use Prim.Native.String.{◌++◌ as str_append}

pub record FetchHop : Type 0 where
  pub uri : String
  pub resolved_candidates : List String
  pub pinned_ip : Option String
  pub peer_ip : Option String
  pub http_status : Option ℕ
  pub error : Option String
  pub observed_at : String

-- `FetchTrace`, which is also what `_TraceBuilder` holds beside `emitted`.
pub record FetchTrace : Type 0 where
  pub requested_uri : String
  pub hops : List FetchHop
  pub final_uri : Option String
  pub content_sha256 : Option String
  pub byte_size : Option ℕ
  pub error : Option String
  pub redirect_count : ℕ

pub record FetchResult : Type 0 where
  pub requested_uri : String
  pub final_uri : String
  pub status_code : ℕ
  pub redirect_count : ℕ
  pub sha256 : String
  pub byte_size : ℕ
  pub pinned_ip : String
  pub observed_at : String
  pub peer_ip : Option String
  pub trace : FetchTrace

pub record Response : Type 0 where
  pub status_code : ℕ
  pub peer_ip : Option String
  pub location : Option String
  pub content_length : Option String

pub record PinnedRequest : Type 0 where
  pub request_url : String
  pub destination : ResolvedDestination

pub record World : Type 0 where
  pub net : NetLibrary
  pub now : ℕ → String
  pub stream : ℕ → PinnedRequest → Result Response
  pub is_success : ℕ → Bool
  pub int_of : String → Option ℤ
  pub put_stream : ℕ → ℕ → Result StoredObject
  pub describe : Error → String

pub record Fetcher : Type 0 where
  pub max_redirects : ℕ
  pub max_retries : ℕ
  pub has_sink : Bool

-- The builder, the sink's log, the current URI, how many attempts and sleeps there were, and the URLs
-- that were sent, which only the network sees.
pub record FetchState : Type 0 where
  pub trace : FetchTrace
  pub emitted : Bool
  pub log : List FetchTrace
  pub current : String
  pub redirect_count : ℕ
  pub attempts : ℕ
  pub slept : List ℕ
  pub requests : List String
  pub hop_error : Option String

-- The variables of an attempt that its handlers read.
pub record Locals : Type 0 where
  pub candidates : List String
  pub pinned_ip : Option String
  pub peer_ip : Option String
  pub http_status : Option ℕ

-- How an attempt ends: the loop goes on, breaks to the next hop, or the call returns or raises.
pub data Turn : Type 0 where
  again : FetchState → Turn
  redirect : FetchState → Turn
  finish : FetchState → Result (FetchResult × StoredObject) → Turn

-- How the loop over the attempts of one hop ends.
pub data HopEnd : Type 0 where
  next_hop : FetchState → HopEnd
  done : FetchState → Result (FetchResult × StoredObject) → HopEnd

abbrev pub redirect_statuses : List ℕ
redirect_statuses = 301 ∷ 302 ∷ 303 ∷ 307 ∷ 308 ∷ []

abbrev pub retry_statuses : List ℕ
retry_statuses = 429 ∷ 500 ∷ 502 ∷ 503 ∷ 504 ∷ []

abbrev pub is_redirect : ℕ → Bool
is_redirect status = any (nat_beq status) redirect_statuses

abbrev pub is_retryable : ℕ → Bool
is_retryable status = any (nat_beq status) retry_statuses

abbrev pub no_locals : Locals
no_locals = record { candidates = []; pinned_ip = none; peer_ip = none; http_status = none }

abbrev pub hop_of : FetchState → Locals → Option String → String → FetchHop
hop_of s l error now = record {
  uri = s.current;
  resolved_candidates = l.candidates;
  pinned_ip = l.pinned_ip;
  peer_ip = l.peer_ip;
  http_status = l.http_status;
  error = error;
  observed_at = now;
}

-- `builder.hops.append(hop)`
abbrev pub add_hop : FetchHop → FetchState → FetchState
add_hop hop s = record s { trace = record s.trace { hops = s.trace.hops ++ (hop ∷ []) } }

-- `_emit`
unfoldable pub emit : Fetcher → FetchState → FetchState
emit f s =
    if not s.emitted && f.has_sink
    then record s { log = s.log ++ (s.trace ∷ []); emitted = true }
    else s

abbrev pub sleep : ℕ → FetchState → FetchState
sleep attempt s = record s { slept = s.slept ++ (2 ^ attempt ∷ []) }

abbrev pub starts_bracket : String → Bool
starts_bracket String.[] = false
starts_bracket (String.◌∷◌ c s) = nat_beq (code c) 91

abbrev pub has_colon : String → Bool
has_colon s = any_char (λ c. nat_beq c 58) s

abbrev pub colon_port : NetLibrary → String → ℕ → String → String
colon_port net host port scheme =
    if nat_beq port (default_port scheme)
    then host
    else str_append (str_append host ":") (net.str_of_int port)

abbrev pub or_slash : String → String
or_slash path = if is_empty path then "/" else path

abbrev pub bracketed : String → String
bracketed ip =
    if has_colon ip && not (starts_bracket ip) then str_append "[" (str_append ip "]") else ip

-- `_pinned_request`
unfoldable pub pinned_request : NetLibrary → ℕ → String → Result PinnedRequest
pinned_request net call url = do
  dest ← resolve_destination net call url
  parsed ← net.urlparse url
  let netloc = colon_port net (bracketed dest.pinned_ip) dest.port dest.scheme
  ok (record {
    request_url =
        net.urlunparse dest.scheme netloc (or_slash parsed.path) parsed.params parsed.query;
    destination = dest;
  })

abbrev pub peer_check : NetLibrary → String → Option String → Result (Unit {0})
peer_check net pinned none = ok tt
peer_check net pinned (some peer) = do
  same ← net.same_address pinned peer
  raise_if (not same) (destination_forbidden "peer differs from pinned")

-- `Content-Length`: no number is no limit.
abbrev over_limit : ℕ → Option ℤ → Bool
over_limit max_bytes none = false
over_limit max_bytes (some n) = ltb_ℤ (pos max_bytes) n

abbrev pub length_check : World → ℕ → Option String → Result (Unit {0})
length_check w max_bytes none = ok tt
length_check w max_bytes (some cl) =
    raise_if (over_limit max_bytes (w.int_of cl))
      (size_limit_exceeded "Content-Length exceeds max_bytes")

-- `if not location`
abbrev pub require_location : Option String → Result String
require_location none = err (runtime_error "redirect without Location")
require_location (some l) =
    if is_empty l then err (runtime_error "redirect without Location") else ok l
