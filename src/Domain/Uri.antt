-- ===== src/Domain/Uri.antt =====
-- src/edgar/domain/uri.py: the normal form of a URI. The splitting and joining of URIs are those of
-- `urllib.parse`, and the texts of cases, ASCII bytes and numbers are Python's: the parameters of
-- `UriLibrary`.
pub mod DotSegments
pub mod Samples
pub mod Scenarios
use Prim.Native.Char.{Char, code}
use edgar.Prelude.{
  ℕ, zero, suc, ◌+◌, ◌-◌, ◌*◌, ◌/◌, ◌%◌, ◌≡◌, Bool, true, false, not, ◌&&◌, ◌||◌, List, [], ◌∷◌,
  Option, none, some, String, Result, ok, err, raise_if, uri_identity_error, ◌>>=◌, ◌>>◌, ◌==◌,
  string_eq, nat_eq, option_eq, nat_beq, ltb, leb, any, if◌then◌else◌,
}
use edgar.Prelude.Text.{strip, is_empty, is_space, any_char, all_chars, str_length, digit_char}
use Prim.Native.String.{◌++◌ as str_append}

pub record SplitUri : Type 0 where
  pub scheme : String
  pub username : Option String
  pub password : Option String
  pub hostname : Option String
  pub port : Result (Option ℕ)
  pub path : String
  pub query : String

-- `urlsplit(uri)`, whose port is read later and may raise then; `urlunsplit` of scheme, netloc, path
-- and query, with an empty fragment.
pub record UriLibrary : Type 0 where
  pub urlsplit : String → Result SplitUri
  pub urlunsplit : String → String → String → String → String
  pub urljoin : String → String → String
  pub upper : String → String
  pub lower : String → String
  pub ascii_char : ℕ → Char
  pub str_of_int : ℕ → String

-- `s.startswith(prefix)` and then what stands behind it.
abbrev pub after_prefix : List ℕ → String → Option String
after_prefix [] s = some s
after_prefix (p ∷ ps) String.[] = none
after_prefix (p ∷ ps) (String.◌∷◌ c s) =
    let rest = after_prefix ps s in if nat_beq (code c) p then rest else none

abbrev pub slash : ℕ
slash = 47

abbrev pub dot : ℕ
dot = 46

-- The text before the first slash, and what follows from that slash on.
abbrev pub before_slash : String → String
before_slash String.[] = String.[]
before_slash (String.◌∷◌ c s) =
    let rest = before_slash s in if nat_beq (code c) slash then String.[] else String.◌∷◌ c rest

abbrev pub from_slash : String → String
from_slash String.[] = String.[]
from_slash (String.◌∷◌ c s) =
    let rest = from_slash s in if nat_beq (code c) slash then String.◌∷◌ c s else rest

-- The last branch: the first segment, with its slash if it has one, and the rest.
abbrev pub first_segment : String → String × String
first_segment String.[] = (String.[], String.[])
first_segment (String.◌∷◌ c s) =
    if nat_beq (code c) slash
    then (String.◌∷◌ c (before_slash s), from_slash s)
    else (before_slash (String.◌∷◌ c s), from_slash (String.◌∷◌ c s))

-- `output.pop()`, where the output is kept with its last segment in front.
abbrev pub pop : List String → List String
pop [] = []
pop (x ∷ xs) = xs

-- One turn of the loop of `_remove_dot_segments` on its input buffer and output.
pub record Buffers : Type 0 where
  pub input : String
  pub output : List String

abbrev pub first_of : Option Buffers → Buffers → Buffers
first_of none b = b
first_of (some a) b = a

-- `"/" + rest`, where the text begins with the prefix.
abbrev pub skipping : List ℕ → String → (String → Buffers) → Option Buffers
skipping prefix input f = elim (after_prefix prefix input) [
  | none ↦ none
  | some rest ↦ some (f rest)
]

abbrev pub if_empty : String → Buffers → Option Buffers
if_empty String.[] b = some b
if_empty (String.◌∷◌ c s) b = none

-- `input == literal`
abbrev pub equals : List ℕ → String → Buffers → Option Buffers
equals literal input b = elim (after_prefix literal input) [
  | none ↦ none
  | some rest ↦ if_empty rest b
]

abbrev pub move_segment : Buffers → Buffers
move_segment b =
    let cut = first_segment b.input in record { input = cut.1; output = cut.0 ∷ b.output }

-- The tests of the loop, in their order.
abbrev pub leading_parent : Buffers → Option Buffers
leading_parent b = skipping (dot ∷ dot ∷ slash ∷ []) b.input (λ rest. record b { input = rest })

abbrev pub leading_here : Buffers → Option Buffers
leading_here b = skipping (dot ∷ slash ∷ []) b.input (λ rest. record b { input = rest })

abbrev pub inner_here : Buffers → Option Buffers
inner_here b =
    skipping (slash ∷ dot ∷ slash ∷ []) b.input (λ rest. record b { input = String.◌∷◌ "/" rest })

abbrev pub final_here : Buffers → Option Buffers
final_here b = equals (slash ∷ dot ∷ []) b.input (record b { input = "/" })

abbrev pub inner_parent : Buffers → Option Buffers
inner_parent b =
    skipping (slash ∷ dot ∷ dot ∷ slash ∷ []) b.input
      (λ rest. record { input = String.◌∷◌ "/" rest; output = pop b.output })

abbrev pub final_parent : Buffers → Option Buffers
final_parent b =
    equals (slash ∷ dot ∷ dot ∷ []) b.input (record { input = "/"; output = pop b.output })

abbrev pub only_dot : Buffers → Option Buffers
only_dot b = equals (dot ∷ []) b.input (record b { input = "" })

abbrev pub only_dots : Buffers → Option Buffers
only_dots b = equals (dot ∷ dot ∷ []) b.input (record b { input = "" })

unfoldable pub remove_step : Buffers → Buffers
remove_step b = first_of (leading_parent b) (
    first_of (leading_here b) (
      first_of (inner_here b) (
        first_of (final_here b) (
          first_of (inner_parent b) (
            first_of (final_parent b)
              (first_of (only_dot b) (first_of (only_dots b) (move_segment b))))))))

-- The loop, on fuel; none where the fuel runs out.
unfoldable pub remove_loop : ℕ → Buffers → Option (List String)
remove_loop zero b = none
remove_loop (suc fuel) b =
    let rest = remove_loop fuel (remove_step b) in if is_empty b.input then some b.output else rest

abbrev pub join_reversed : List String → String → String
join_reversed [] acc = acc
join_reversed (x ∷ xs) acc = join_reversed xs (str_append x acc)

abbrev joined : Option (List String) → String
joined none = ""
joined (some output) = join_reversed output ""

abbrev is_hex_digit : ℕ → Bool
is_hex_digit c = (leb 48 c && leb c 57) || ((leb 65 c && leb c 70) || (leb 97 c && leb c 102))

abbrev hex_value : ℕ → ℕ
hex_value c = if leb c 57 then c - 48 else if leb c 70 then c - 55 else c - 87

-- `_UNRESERVED`
abbrev is_unreserved : ℕ → Bool
is_unreserved c =
    (leb 65 c && leb c 90)
    || ((leb 97 c && leb c 122)
        || ((leb 48 c && leb c 57) || any (nat_beq c) (45 ∷ 46 ∷ 95 ∷ 126 ∷ [])))

abbrev is_percent : Char → Bool
is_percent c = nat_beq (code c) 37

abbrev is_hex : Char → Bool
is_hex c = is_hex_digit (code c)

abbrev triple : Char → Char → Char → String
triple c a b = String.◌∷◌ c (String.◌∷◌ a (String.◌∷◌ b String.[]))

abbrev default_port : String → Option ℕ
default_port scheme =
    if scheme == "http" then some 80 else if scheme == "https" then some 443 else none

abbrev pub path_segments : String → Option (List String)
path_segments path = remove_loop (suc (str_length path)) (record { input = path; output = [] })

-- `_remove_dot_segments`
unfoldable pub remove_dot_segments : String → String
remove_dot_segments path = joined (path_segments path)

-- `"?" in uri.split("#", 1)[0]`
unfoldable pub has_query_mark : String → Bool
has_query_mark String.[] = false
has_query_mark (String.◌∷◌ c s) =
    let rest = has_query_mark s in
    if nat_beq (code c) 35 then false else if nat_beq (code c) 63 then true else rest

-- A text before its first `#`, and from there on.
abbrev fragment_split : String → String × String
fragment_split String.[] = (String.[], String.[])
fragment_split (String.◌∷◌ c s) =
    let rest = fragment_split s in
    if nat_beq (code c) 35 then (String.[], String.◌∷◌ c s) else (String.◌∷◌ c rest.0, rest.1)

-- `head + "?" + ("#" + frag if frag else "")`, of a text partitioned at `#`.
abbrev fragment_tail : String → String
fragment_tail String.[] = String.[]
fragment_tail (String.◌∷◌ c String.[]) = String.[]
fragment_tail s = s

abbrev with_query_mark : String → String
with_query_mark result =
    let cut = fragment_split result in str_append (str_append cut.0 "?") (fragment_tail cut.1)

abbrev given : Option String → Bool
given none = false
given (some s) = true

abbrev require_host : Option String → Result String
require_host none = err (uri_identity_error "URI without host rejected")
require_host (some h) =
    if is_empty h then err (uri_identity_error "URI without host rejected") else ok h

module _ (lib : UriLibrary) where
  -- `_uppercase_percent_escapes`
  unfoldable pub uppercase_percent_escapes : String → String
  uppercase_percent_escapes (String.◌∷◌ c (String.◌∷◌ a (String.◌∷◌ b s))) =
      let escaped = str_append (lib.upper (triple c a b)) (uppercase_percent_escapes s) in
      let plain = String.◌∷◌ c (uppercase_percent_escapes (String.◌∷◌ a (String.◌∷◌ b s))) in
      if is_percent c && (is_hex a && is_hex b) then escaped else plain
  uppercase_percent_escapes s = s

  -- One escape of three characters: an unreserved character is decoded, all else is upper-cased.
  abbrev decoded_escape : Char → Char → Char → String
  decoded_escape c a b =
      let byte = 16 * hex_value (code a) + hex_value (code b) in
      if is_hex a && (is_hex b && is_unreserved byte)
      then String.◌∷◌ (lib.ascii_char byte) String.[]
      else lib.upper (triple c a b)

  -- `_decode_unreserved_percents`
  unfoldable pub decode_unreserved_percents : String → String
  decode_unreserved_percents (String.◌∷◌ c (String.◌∷◌ a (String.◌∷◌ b s))) =
      let decoded = str_append (decoded_escape c a b) (decode_unreserved_percents s) in
      let plain = String.◌∷◌ c (decode_unreserved_percents (String.◌∷◌ a (String.◌∷◌ b s))) in
      if is_percent c then decoded else plain
  decode_unreserved_percents s = s

  abbrev pub normalize_component : String → String
  normalize_component value = decode_unreserved_percents (uppercase_percent_escapes value)

  abbrev netloc_of : String → String → Option ℕ → String
  netloc_of scheme host none = host
  netloc_of scheme host (some port) =
      if some port == default_port scheme
      then host
      else str_append (str_append host ":") (lib.str_of_int port)

  abbrev normal_path : String → String
  normal_path path =
      let component = normalize_component path in
      remove_dot_segments (if is_empty component then "/" else component)

  -- The last part: the URI joined again, with an empty query kept.
  abbrev rebuilt : String → String → Option ℕ → Bool → SplitUri → String
  rebuilt scheme host port has_query split =
      let asks = not (is_empty split.query) || has_query in
      let query = (if asks then normalize_component split.query else "") in
      let result =
        lib.urlunsplit scheme (netloc_of scheme host port) (normal_path split.path) query in
      if has_query && (is_empty split.query && not (has_query_mark result))
      then with_query_mark result
      else result

  -- `normalize_uri` with the default `allowed_schemes`.
  unfoldable pub normalize_uri : String → Result String
  normalize_uri uri = do
    raise_if (not (uri == strip uri) || any_char is_space uri)
        (uri_identity_error "URI contains whitespace")
    split ← lib.urlsplit uri
    let scheme = lib.lower split.scheme
    raise_if (is_empty scheme) (uri_identity_error "relative URI rejected")
    raise_if (not (scheme == "http" || scheme == "https"))
        (uri_identity_error "disallowed URI scheme")
    raise_if (given split.username || given split.password)
        (uri_identity_error "credentials rejected in URI")
    host ← require_host split.hostname
    raise_if (not (all_chars (λ c. ltb c 128) host)) (uri_identity_error "non-ASCII hostname")
    raise_if (any_char (λ c. nat_beq c 58) host) (uri_identity_error "IPv6-literal hosts")
    port ← split.port
    ok (rebuilt scheme (lib.lower host) port (has_query_mark uri) split)

  unfoldable pub resolve_document_uri : String → String → Result String
  resolve_document_uri base_uri reference = do
    base ← normalize_uri base_uri
    normalize_uri (lib.urljoin base reference)

  unfoldable pub assert_serialized_binding_uri : String → Result String
  assert_serialized_binding_uri uri = do
    normalized ← normalize_uri uri
    raise_if (not (normalized == uri))
        (uri_identity_error "serialized binding URI is not canonical")
    ok uri
