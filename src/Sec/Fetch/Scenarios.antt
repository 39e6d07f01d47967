-- ===== src/Sec/Fetch/Scenarios.antt =====
-- A fetch of src/edgar/sec/client.py that is redirected, refused once with 503, and then answered.
use edgar.Prelude.{
  arith, le→leb, ℕ, suc, ◌*◌, ◌≤◌, ◌≡◌, refl, [], ◌∷◌, Option, none, some, String, ok, Bool, true,
  false, ◌==◌, string_eq, nat_beq, leb, ltb, ◌&&◌, All, In, subst, ok_injective, if◌then◌else◌,
}
use edgar.Prelude.Text.{is_empty, strip, is_space}
use edgar.Sec.Destination.{
  Address, ParsedUrl, NetLibrary, ResolvedDestination, resolve_destination, validate_url_syntax,
  resolve_public_ips, public_ips,
}
use edgar.Sec.Destination.Public.{IsAddress, IsNumeric, IsPublic, resolve_destination-IsPublic}
use edgar.Domain.Uri.{has_query_mark}
use edgar.Storage.Objects.{StoredObject}
use edgar.Sec.Fetch.Loop.Recovery.{Reachable, Returned, fetch_to_store_recovers}
use edgar.Sec.Fetch.{pinned_request, PinnedRequest, World, Fetcher, Response}
use edgar.Sec.Fetch.Loop.{fetch_to_store, Ended}
use edgar.Sec.Fetch.Loop.Bounds.{fetch_to_store_ends}
use edgar.Sec.Fetch.Pinned.{IsUrlOfPublic}
use edgar.Sec.Fetch.Loop.Turns.{IsPublicHop, told}
use edgar.Sec.Fetch.Loop.Traces.{fetch_to_store-told}
use Prim.Native.String.{◌++◌ as str_append}

abbrev parsed : ParsedUrl
parsed = record {
  scheme = "https";
  username = none;
  password = none;
  hostname = some "www.sec.gov";
  port = ok none;
  path = "/a";
  params = "";
  query = "";
}

abbrev address : Bool → Address
address private = record {
  is_private = private;
  is_loopback = false;
  is_link_local = false;
  is_multicast = false;
  is_reserved = false;
  is_unspecified = false;
}

abbrev net : NetLibrary
net = record {
  urlparse = λ url. ok parsed;
  urlunparse = λ scheme netloc path params query.
      str_append (str_append scheme "://") (str_append netloc path);
  urljoin = λ base location. ok location;
  lower = λ s. s;
  str_of_int = λ n. "503";
  ip_address = λ ip. if ip == "www.sec.gov" then none else some (address (ip == "10.0.0.1"));
  same_address = λ a b. ok (a == b);
  getaddrinfo = λ call hostname port. ok ("23.1.2.3" ∷ "23.1.2.4" ∷ "23.1.2.3" ∷ []);
}

abbrev response : ℕ → Option String → Response
response status location = record {
  status_code = status;
  peer_ip = some "23.1.2.3";
  location = location;
  content_length = some "3";
}

abbrev answers : ℕ → Response
answers n =
    if nat_beq n 1
    then response 302 (some "https://www.sec.gov/b")
    else if nat_beq n 2
    then response 503 none
    else response 200 none

abbrev world : World
world = record {
  net = net;
  now = λ n. "2024-05-01T00:00:00+00:00";
  stream = λ n p. ok (answers n);
  is_success = λ status. leb 200 status && ltb status 300;
  int_of = λ s. none;
  put_stream = λ n max_bytes. ok (record { sha256 = "ab"; byte_size = 3 });
  describe = λ e. "error";
}

abbrev fetcher : Fetcher
fetcher = record { max_redirects = 2; max_retries = 1; has_sink = true }

abbrev url : String
url = "https://www.sec.gov/a"

fetch_to_store_ends_example :
    (e : Ended) × (fetch_to_store fetcher world url 100 ≡ some e) × (e.0.attempts ≤ suc 2 * suc 1)
fetch_to_store_ends_example = fetch_to_store_ends fetcher world url 100

abbrev ended : Ended
ended = (fetch_to_store_ends fetcher world url 100).0

numeric : IsNumeric net
numeric call hostname port infos h =
    subst (All (IsAddress net)) (ok_injective h)
      ((address false, refl), ((address false, refl), ((address false, refl), tt)))

fetch_to_store-told_example :
    All (IsUrlOfPublic net) ended.0.requests
    × All (IsPublicHop world) ended.0.trace.hops
    × (ended.0.log ≡ told fetcher ended.0.trace)
fetch_to_store-told_example =
    fetch_to_store-told fetcher world url 100 ended numeric
      (fetch_to_store_ends fetcher world url 100).1

abbrev destination : ResolvedDestination
destination = record {
  hostname = "www.sec.gov";
  port = 443;
  scheme = "https";
  pinned_ip = "23.1.2.3";
  candidate_ips = "23.1.2.3" ∷ "23.1.2.4" ∷ [];
}

resolved : resolve_destination net 1 url ≡ ok destination
unfolding resolve_destination validate_url_syntax resolve_public_ips public_ips is_empty strip
    is_space
resolved = refl

resolve_destination-IsPublic_example :
    All (IsPublic net) destination.candidate_ips
    × IsPublic net destination.pinned_ip
    × In destination.pinned_ip destination.candidate_ips
resolve_destination-IsPublic_example =
    resolve_destination-IsPublic net 1 url destination numeric resolved

-- A server that answers 503 to the first request, and then serves.
abbrev recovering : World
recovering = record world {
  stream = λ n p. ok (if leb n 1 then response 503 none else response 200 none);
}

abbrev request_pinned : PinnedRequest
request_pinned = record { request_url = "https://23.1.2.3/a"; destination = destination }

reachable : Reachable recovering url request_pinned
unfolding resolve_destination validate_url_syntax resolve_public_ips public_ips pinned_request
    is_empty strip is_space has_query_mark
reachable = record {
  parts = record { scheme = "https"; hostname = "www.sec.gov"; port = 443; path_query = "/a" };
  valid = refl;
  pinned = λ n. refl;
}

abbrev stored_object : StoredObject
stored_object = record { sha256 = "ab"; byte_size = 3 }

fetch_to_store_recovers_example :
    Returned 2 stored_object (fetch_to_store fetcher recovering url 100)
fetch_to_store_recovers_example =
    fetch_to_store_recovers fetcher recovering url 100 request_pinned reachable 1 stored_object
      (response 503 none) (response 200 none) (omega arith) (λ n h. rw (le→leb n 1 h) refl)
      (record { from_peer = refl; no_redirect = refl; retryable = refl }) refl
      (record {
        from_peer = refl;
        no_redirect = refl;
        settled = refl;
        success = refl;
        short = refl;
        kept = refl;
      })
