-- ===== src/Sec/Destination.antt =====
-- src/edgar/sec/ssrf.py: which destinations a fetch may connect to. `NetLibrary` is what the code
-- calls of `urllib.parse`, `ipaddress` and `socket`; a `ValueError` of `ip_address` is none.
pub mod Public
use Prim.Native.Char.{Char, code}
use edgar.Prelude.{
  ℕ, ◌≡◌, Bool, true, false, not, ◌&&◌, ◌||◌, List, [], ◌∷◌, Option, none, some, String, Result, ok,
  err, raise_if, value_error, destination_forbidden, ◌>>=◌, ◌>>◌, ◌==◌, string_eq, any, nat_beq,
  ltb, if◌then◌else◌,
}
use edgar.Prelude.Text.{strip, is_empty, all_chars}
use edgar.Domain.Uri.{has_query_mark}
use Prim.Native.String.{◌++◌ as str_append}

pub record Address : Type 0 where
  pub is_private : Bool
  pub is_loopback : Bool
  pub is_link_local : Bool
  pub is_multicast : Bool
  pub is_reserved : Bool
  pub is_unspecified : Bool

-- `parsed.port` may raise when it is read.
pub record ParsedUrl : Type 0 where
  pub scheme : String
  pub username : Option String
  pub password : Option String
  pub hostname : Option String
  pub port : Result (Option ℕ)
  pub path : String
  pub params : String
  pub query : String

-- `getaddrinfo` may answer differently at each call: its first argument counts the calls.
pub record NetLibrary : Type 0 where
  pub urlparse : String → Result ParsedUrl
  pub urlunparse : String → String → String → String → String → String
  pub urljoin : String → String → Result String
  pub lower : String → String
  pub str_of_int : ℕ → String
  pub ip_address : String → Option Address
  pub same_address : String → String → Result Bool
  pub getaddrinfo : ℕ → String → ℕ → Result (List String)

pub record ResolvedDestination : Type 0 where
  pub hostname : String
  pub port : ℕ
  pub scheme : String
  pub pinned_ip : String
  pub candidate_ips : List String

pub record UrlParts : Type 0 where
  pub scheme : String
  pub hostname : String
  pub port : ℕ
  pub path_query : String

abbrev forbidden_address : Address → Bool
forbidden_address a =
    a.is_private
    || (a.is_loopback
        || (a.is_link_local || (a.is_multicast || (a.is_reserved || a.is_unspecified))))

abbrev pub forbidden_literal : Option Address → Bool
forbidden_literal none = false
forbidden_literal (some a) = forbidden_address a

abbrev pub default_port : String → ℕ
default_port scheme = if scheme == "https" then 443 else 80

-- `parsed.port or default_port`
abbrev port_or : ℕ → Option ℕ → ℕ
port_or default none = default
port_or default (some p) = if nat_beq p 0 then default else p

abbrev path_or_slash : String → String
path_or_slash path = if is_empty path then "/" else path

-- `url.rstrip("#").endswith("?")`: whether the last character other than `#` is `?`.
abbrev ends_asking : Bool → String → Bool
ends_asking asks String.[] = asks
ends_asking asks (String.◌∷◌ c s) =
    let kept = ends_asking asks s in
    let next = ends_asking (nat_beq (code c) 63) s in if nat_beq (code c) 35 then kept else next

abbrev path_query : String → ParsedUrl → String
path_query url parsed =
    if not (is_empty parsed.query)
    then str_append (str_append (path_or_slash parsed.path) "?") parsed.query
    else if ends_asking false url || has_query_mark url
    then str_append (path_or_slash parsed.path) "?"
    else path_or_slash parsed.path

abbrev given : Option String → Bool
given none = false
given (some s) = true

abbrev require_hostname : Option String → Result String
require_hostname none = err (destination_forbidden "URL missing hostname")
require_hostname (some h) =
    if is_empty h then err (destination_forbidden "URL missing hostname") else ok h

-- Whether the text is among the given ones.
abbrev pub among : String → List String → Bool
among ip ips = any (λ x. x == ip) ips

abbrev pub is_nil : List String → Bool
is_nil [] = true
is_nil (x ∷ xs) = false

-- The accumulators of the loop of `resolve_public_ips`.
pub record Sorted : Type 0 where
  pub ips : List String
  pub seen : List String
  pub forbidden : List String

-- The addresses that the loop kept, in the order in which they came.
abbrev pub in_order : List String → List String → List String
in_order [] out = out
in_order (ip ∷ rest) out = in_order rest (ip ∷ out)

-- `candidates[0]`
abbrev pub first_candidate : List String → Result String
first_candidate [] = err (value_error "list index out of range")
first_candidate (ip ∷ ips) = ok ip

module _ (net : NetLibrary) where
  abbrev pub is_forbidden_ip : String → Bool
  is_forbidden_ip ip = forbidden_literal (net.ip_address ip)

  unfoldable pub validate_url_syntax : String → Result UrlParts
  validate_url_syntax url = do
    raise_if (is_empty (strip url)) (destination_forbidden "empty URL")
    parsed ← net.urlparse url
    let scheme = net.lower parsed.scheme
    raise_if (not (scheme == "http" || scheme == "https"))
        (destination_forbidden "disallowed scheme")
    raise_if (given parsed.username || given parsed.password)
        (destination_forbidden "URL credentials are forbidden")
    hostname ← require_hostname parsed.hostname
    raise_if (not (all_chars (λ c. ltb c 128) hostname))
        (destination_forbidden "non-ASCII hostname unsupported")
    raise_if (is_forbidden_ip hostname) (destination_forbidden "forbidden destination address")
    port ← parsed.port
    ok (record {
      scheme = scheme;
      hostname = net.lower hostname;
      port = port_or (default_port scheme) port;
      path_query = path_query url parsed;
    })

  -- One address of the answer.
  abbrev pub sort_one : Sorted → String → Sorted
  sort_one acc ip =
      if among ip acc.seen
      then acc
      else if is_forbidden_ip ip
      then record acc { seen = ip ∷ acc.seen; forbidden = ip ∷ acc.forbidden }
      else record acc { seen = ip ∷ acc.seen; ips = ip ∷ acc.ips }

  -- The loop of `resolve_public_ips`.
  abbrev pub sort_all : Sorted → List String → Sorted
  sort_all acc [] = acc
  sort_all acc (ip ∷ rest) = sort_all (sort_one acc ip) rest

  unfoldable pub public_ips : List String → Result (List String)
  public_ips infos = do
    let sorted = sort_all (record { ips = []; seen = []; forbidden = [] }) infos
    raise_if (not (is_nil sorted.forbidden)) (destination_forbidden "mixed or private DNS")
    raise_if (is_nil sorted.ips) (destination_forbidden "no public addresses")
    ok (in_order sorted.ips [])

  -- A `gaierror` is a refusal too: `getaddrinfo` gives it as `destination_forbidden`.
  unfoldable pub resolve_public_ips : ℕ → String → ℕ → Result (List String)
  resolve_public_ips call hostname port = do
    infos ← net.getaddrinfo call hostname port
    public_ips infos

  -- A literal address is its own candidate. `DestinationForbidden` is a `ValueError`, so a forbidden
  -- literal falls through to the resolution of names.
  abbrev pub candidates_of : ℕ → String → ℕ → Option Address → Result (List String)
  candidates_of call hostname port none = resolve_public_ips call hostname port
  candidates_of call hostname port (some a) =
      if forbidden_address a then resolve_public_ips call hostname port else ok (hostname ∷ [])

  unfoldable pub resolve_destination : ℕ → String → Result ResolvedDestination
  resolve_destination call url = do
    parts ← validate_url_syntax url
    candidates ← candidates_of call parts.hostname parts.port (net.ip_address parts.hostname)
    pinned ← first_candidate candidates
    ok (record {
      hostname = parts.hostname;
      port = parts.port;
      scheme = parts.scheme;
      pinned_ip = pinned;
      candidate_ips = candidates;
    })
