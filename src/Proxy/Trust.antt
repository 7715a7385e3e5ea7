-- ===== src/Proxy/Trust.antt =====
-- Whose word the key of a client rests on.
use civic_archive_api.Prelude.{
  String, ◌≡◌, refl, ◌⊎◌, inl, inr, true, false, Option, none, some, List, Bool-cases,
}
use civic_archive_api.Text.{is_empty}
use civic_archive_api.Http.{Request}
use civic_archive_api.Proxy.{
  IpAddresses, remote_ip, first_hop, is_trusted_proxy, if_address, forwarded_key, client_key,
}

module _ (ip : IpAddresses) where
  open ip use {Address, Network, ip_address}

  -- The key is the first hop of the header, and that is an address.
  pub record IsForwarded (r : Request) (key : String) : Type 0 where
    pub header : String
    pub sent : r.header "X-Forwarded-For" ≡ some header
    pub hop : first_hop header ≡ key
    pub address : Address
    pub parsed : ip_address key ≡ some address

  if_address_cases :
      (r : Request) (h : String) (o : Option Address) (fallback : String)
      → r.header "X-Forwarded-For" ≡ some h
      → ip_address (first_hop h) ≡ o
      → (if_address ip o (first_hop h) fallback ≡ fallback)
        ⊎ IsForwarded r (if_address ip o (first_hop h) fallback)
  unfolding if_address
  if_address_cases r h none fallback e parsed = inl refl
  if_address_cases r h (some a) fallback e parsed =
      inr (record { header = h; sent = e; hop = refl; address = a; parsed = parsed })

  forwarded_key_cases :
      (r : Request) (o : Option String) (fallback : String)
      → r.header "X-Forwarded-For" ≡ o
      → (forwarded_key ip o fallback ≡ fallback) ⊎ IsForwarded r (forwarded_key ip o fallback)
  unfolding forwarded_key
  forwarded_key_cases r none fallback e = inl refl
  forwarded_key_cases r (some h) fallback e = elim (Bool-cases (is_empty h)) [
    | inl empty ↦ rw empty (inl refl)
    | inr full ↦ rw full (elim (Bool-cases (is_empty (first_hop h))) [
      | inl empty ↦ rw empty (inl refl)
      | inr named ↦ rw named (if_address_cases r h (ip_address (first_hop h)) fallback e refl)
    ])
  ]

  -- The key of a client is the address of its peer, or, where that peer is a trusted proxy, the first
  -- hop of `X-Forwarded-For`, which is then an address.
  pub client_key_cases :
      (r : Request) (networks : List Network)
      → (client_key ip r networks ≡ remote_ip r)
        ⊎ ((is_trusted_proxy ip (remote_ip r) networks ≡ true)
            × IsForwarded r (client_key ip r networks))
  unfolding client_key
  client_key_cases r networks = elim (Bool-cases (is_trusted_proxy ip (remote_ip r) networks)) [
    | inl trusted ↦
        rw trusted (elim (forwarded_key_cases r (r.header "X-Forwarded-For") (remote_ip r) refl) [
          | inl same ↦ inl same
          | inr hop ↦ inr (refl, hop)
        ])
    | inr distrusted ↦ rw distrusted (inl refl)
  ]

  -- Without trust in the peer the headers have no say: two requests of one peer have one key.
  client_key-eq :
      (r r' : Request) (networks : List Network)
      → is_trusted_proxy ip (remote_ip r) networks ≡ false
      → remote_ip r' ≡ remote_ip r
      → client_key ip r' networks ≡ client_key ip r networks
  unfolding client_key
  client_key-eq r r' networks distrusted same = rw (same, distrusted) refl
