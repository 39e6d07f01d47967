-- ===== src/Sec/Destination/Public.antt =====
-- src/edgar/sec/ssrf.py: the destinations that are let through are public.
use edgar.Prelude.{
  ℕ, ◌≡◌, refl, subst, false, not, List, [], ◌∷◌, Option, none, some, String, ok, raise_if,
  >>=-eq-ok, ok_injective, destination_forbidden, string_eq, All, In, sym, Bool-cases, inl, inr,
  arith,
}
use edgar.Sec.Destination.{
  Address, NetLibrary, ResolvedDestination, Sorted, forbidden_address, is_nil, among,
  is_forbidden_ip, sort_one, sort_all, in_order, public_ips, resolve_public_ips, candidates_of,
  first_candidate, resolve_destination, validate_url_syntax,
}

-- The six flags of an address that is public.
abbrev pub IsPublicAddress : Address → Type 0
IsPublicAddress a =
    (a.is_private ≡ false)
    × (a.is_loopback ≡ false)
    × (a.is_link_local ≡ false)
    × (a.is_multicast ≡ false)
    × (a.is_reserved ≡ false)
    × (a.is_unspecified ≡ false)

-- The text of an address, and that of a public one.
abbrev pub IsAddress : NetLibrary → String → Type 0
IsAddress net ip = (a : Address) × (net.ip_address ip ≡ some a)

abbrev pub IsPublic : NetLibrary → String → Type 0
IsPublic net ip = (a : Address) × (net.ip_address ip ≡ some a) × IsPublicAddress a

-- `getaddrinfo` answers the texts of addresses, which `ipaddress` reads.
abbrev pub IsNumeric : NetLibrary → Type 0
IsNumeric net =
    (call : ℕ) (hostname : String) (port : ℕ) (infos : List String)
    → net.getaddrinfo call hostname port ≡ ok infos
    → All (IsAddress net) infos

public_flags : (a : Address) → forbidden_address a ≡ false → IsPublicAddress a
public_flags a h =
    (ground arith, ground arith, ground arith, ground arith, ground arith, ground arith)

module _ (net : NetLibrary) where
  allowed : (ip : String) → IsAddress net ip → is_forbidden_ip net ip ≡ false → IsPublic net ip
  allowed ip n h = let (a, e) = n in (a, e, public_flags a (rw e at h))

  sort_all-IsPublic :
      (infos : List String) (acc : Sorted)
      → All (IsAddress net) infos
      → All (IsPublic net) acc.ips
      → All (IsPublic net) (sort_all net acc infos).ips
  sort_all-IsPublic [] acc n h = h
  sort_all-IsPublic (ip ∷ rest) acc n h =
      sort_all-IsPublic rest (sort_one net acc ip) n.1 (step ip acc n.0 h)
    where
      step :
          (ip : String) (acc : Sorted)
          → IsAddress net ip
          → All (IsPublic net) acc.ips
          → All (IsPublic net) (sort_one net acc ip).ips
      step ip acc n h = elim (Bool-cases (among ip acc.seen)) [
        | inl e ↦ rw e h
        | inr e ↦ elim (Bool-cases (is_forbidden_ip net ip)) [
          | inl f ↦ rw (e, f) h
          | inr f ↦ rw (e, f) (allowed ip n f, h)
        ]
      ]

  in_order-IsPublic :
      (ips out : List String)
      → All (IsPublic net) ips
      → All (IsPublic net) out
      → All (IsPublic net) (in_order ips out)
  in_order-IsPublic [] out h k = k
  in_order-IsPublic (ip ∷ ips) out h k = in_order-IsPublic ips (ip ∷ out) h.1 (h.0, k)

  public_ips-IsPublic :
      (infos ips : List String)
      → All (IsAddress net) infos
      → public_ips net infos ≡ ok ips
      → All (IsPublic net) ips
  unfolding public_ips
  public_ips-IsPublic infos ips n h =
      let sorted = sort_all net (record { ips = []; seen = []; forbidden = [] }) infos in
      let (u, k, h1) =
        >>=-eq-ok
          (raise_if (not (is_nil sorted.forbidden)) (destination_forbidden "mixed or private DNS"))
          _ h in
      let (v, k', h2) =
        >>=-eq-ok (raise_if (is_nil sorted.ips) (destination_forbidden "no public addresses")) _
          h1 in
      subst (All (IsPublic net)) (ok_injective h2) (
        in_order-IsPublic sorted.ips []
          (sort_all-IsPublic infos (record { ips = []; seen = []; forbidden = [] }) n tt) tt)

  candidates-IsPublic :
      (call : ℕ) (hostname : String) (port : ℕ) (found : Option Address) (ips : List String)
      → IsNumeric net
      → net.ip_address hostname ≡ found
      → candidates_of net call hostname port found ≡ ok ips
      → All (IsPublic net) ips
  unfolding resolve_public_ips
  candidates-IsPublic call hostname port none ips n a h =
      let (infos, k, h1) = >>=-eq-ok (net.getaddrinfo call hostname port) _ h in
      public_ips-IsPublic infos ips (n call hostname port infos k) h1
  candidates-IsPublic call hostname port (some address) ips n a h =
      elim (Bool-cases (forbidden_address address)) [
        | inl e ↦
            let (infos, k, h1) = >>=-eq-ok (net.getaddrinfo call hostname port) _ (rw e at h) in
            public_ips-IsPublic infos ips (n call hostname port infos k) h1
        | inr e ↦
            subst (All (IsPublic net)) (ok_injective (rw e at h))
              ((address, a, public_flags address e), tt)
      ]

  first_candidate-IsPublic :
      (ips : List String) (ip : String)
      → All (IsPublic net) ips
      → first_candidate ips ≡ ok ip
      → IsPublic net ip × In ip ips
  first_candidate-IsPublic [] ip a h = absurd (cc h)
  first_candidate-IsPublic (x ∷ xs) ip a h =
      (subst (IsPublic net) (ok_injective h) a.0, inl (sym (ok_injective h)))

  -- If `getaddrinfo` answers texts of addresses, the candidates of a destination that
  -- `resolve_destination` lets through are public addresses, whatever the resolution of names answers:
  -- none is private, loopback, link-local, multicast, reserved or unspecified. The pinned address is
  -- public too, and one of the candidates.
  pub resolve_destination-IsPublic :
      (call : ℕ) (url : String) (d : ResolvedDestination)
      → IsNumeric net
      → resolve_destination net call url ≡ ok d
      → All (IsPublic net) d.candidate_ips
        × IsPublic net d.pinned_ip
        × In d.pinned_ip d.candidate_ips
  unfolding resolve_destination
  resolve_destination-IsPublic call url d n h =
      let (parts, k, h1) = >>=-eq-ok (validate_url_syntax net url) _ h in
      let (ips, c, h2) =
        >>=-eq-ok (candidates_of net call parts.hostname parts.port (net.ip_address parts.hostname))
          _ h1 in
      let (ip, p, h3) = >>=-eq-ok (first_candidate ips) _ h2 in
      let all =
        candidates-IsPublic call parts.hostname parts.port (net.ip_address parts.hostname) ips n
          refl c in
      let (public, among_them) = first_candidate-IsPublic ips ip all p in
      subst
        (λ r.
          All (IsPublic net) r.candidate_ips
          × IsPublic net r.pinned_ip
          × In r.pinned_ip r.candidate_ips)
        (ok_injective h3) (all, public, among_them)
