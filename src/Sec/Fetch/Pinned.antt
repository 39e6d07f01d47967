-- ===== src/Sec/Fetch/Pinned.antt =====
-- src/edgar/sec/client.py: the URL of the request that `_pinned_request` makes.
use edgar.Prelude.{
  ℕ, ◌≡◌, refl, ◌⊎◌, inl, inr, not, ◌&&◌, String, ok, ok_injective, >>=-eq-ok, Bool-cases, subst,
  nat_beq, string_eq,
}
use edgar.Sec.Destination.{NetLibrary, resolve_destination, default_port}
use edgar.Sec.Destination.Public.{IsPublic, IsNumeric, resolve_destination-IsPublic}
use edgar.Sec.Fetch.{
  PinnedRequest, pinned_request, colon_port, bracketed, has_colon, starts_bracket, or_slash,
}
use Prim.Native.String.{◌++◌ as str_append}

-- An address in a URL: bare or in brackets, and alone or with a port.
abbrev pub IsHostOf : String → String → Type 0
IsHostOf ip host = (host ≡ ip) ⊎ (host ≡ str_append "[" (str_append ip "]"))

abbrev pub IsNetlocOf : NetLibrary → String → String → Type 0
IsNetlocOf net ip netloc =
    (host : String) × IsHostOf ip host
    × ((netloc ≡ host)
        ⊎ ((port : ℕ) × (netloc ≡ str_append (str_append host ":") (net.str_of_int port))))

-- A URL that is put together with the address as its network location.
abbrev pub IsUrlAt : NetLibrary → String → String → Type 0
IsUrlAt net ip url =
    (scheme : String) × (netloc : String) × (path : String) × (params : String) × (query : String)
    × IsNetlocOf net ip netloc
    × (url ≡ net.urlunparse scheme netloc path params query)

-- A URL that leads to a public address, whatever names mean.
abbrev pub IsUrlOfPublic : NetLibrary → String → Type 0
IsUrlOfPublic net url = (ip : String) × IsPublic net ip × IsUrlAt net ip url

bracketed-IsHostOf : (ip : String) → IsHostOf ip (bracketed ip)
bracketed-IsHostOf ip = elim (Bool-cases (has_colon ip && not (starts_bracket ip))) [
  | inl e ↦ rw e (inr refl)
  | inr e ↦ rw e (inl refl)
]

colon_port-IsNetlocOf :
    (net : NetLibrary) (ip host : String) (port : ℕ) (scheme : String)
    → IsHostOf ip host
    → IsNetlocOf net ip (colon_port net host port scheme)
colon_port-IsNetlocOf net ip host port scheme h =
    elim (Bool-cases (nat_beq port (default_port scheme))) [
      | inl e ↦ rw e (host, h, inl refl)
      | inr e ↦ rw e (host, h, inr (port, refl))
    ]

-- A pinned request goes to the pinned address, which is public.
pub pinned_request-IsUrlAt :
    (net : NetLibrary) (call : ℕ) (url : String) (p : PinnedRequest)
    → IsNumeric net
    → pinned_request net call url ≡ ok p
    → IsPublic net p.destination.pinned_ip × IsUrlAt net p.destination.pinned_ip p.request_url
unfolding pinned_request
pinned_request-IsUrlAt net call url p n h =
    let (d, k, h1) = >>=-eq-ok (resolve_destination net call url) _ h in
    let (parsed, k', h2) = >>=-eq-ok (net.urlparse url) _ h1 in
    let netloc = colon_port net (bracketed d.pinned_ip) d.port d.scheme in
    subst
      (λ r.
        IsPublic net r.destination.pinned_ip × IsUrlAt net r.destination.pinned_ip r.request_url)
      (ok_injective h2)
      (
        (resolve_destination-IsPublic net call url d n k).1,
        (
          d.scheme,
          netloc,
          or_slash parsed.path,
          parsed.params,
          parsed.query,
          colon_port-IsNetlocOf net d.pinned_ip (bracketed d.pinned_ip) d.port d.scheme
              (bracketed-IsHostOf d.pinned_ip),
          refl,
        ),
      )
