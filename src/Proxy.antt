-- ===== src/Proxy.antt =====
-- app/security_proxy.py: the identity of a client behind trusted proxies. The functions of
-- Python's `ipaddress` are a parameter.
pub mod Trust
use Prim.Native.String
use civic_archive_api.Prelude.{
  String, Bool, true, false, Option, none, some, List, [], ◌∷◌, any, eqb, if◌then◌else◌,
}
use civic_archive_api.Text.{is_empty, strip, split_by}
use civic_archive_api.Errors.{runtime_error, Result, ok, raise, ◌>>=◌}
use civic_archive_api.Http.{Request}

pub record IpAddresses : Type 1 where
  pub Address : Type 0
  pub Network : Type 0
  -- `none` is `ValueError`
  pub ip_address : String → Option Address
  -- with `strict=False`
  pub ip_network : String → Option Network
  -- `address in network`
  pub contains : Network → Address → Bool

-- `request.client.host if request.client else "unknown"`
unfoldable pub remote_ip : Request → String
remote_ip r = elim r.client_host [ none ↦ "unknown" | some host ↦ host ]

-- `forwarded_for.split(",")[0].strip()`
unfoldable pub first_part : List String → String
first_part [] = ""
first_part (part ∷ parts) = part

unfoldable pub first_hop : String → String
unfolding first_part split_by strip
first_hop forwarded_for = strip (first_part (split_by (λ c. eqb c b',') forwarded_for))

module _ (ip : IpAddresses) where
  open ip use {Address, Network, ip_address, ip_network, contains}

  -- The first entry that is no network raises, so the later ones count only if it is one.
  unfoldable pub parse_trusted_proxy_networks : List String → Result (List Network)
  unfolding is_empty strip
  parse_trusted_proxy_networks [] = ok []
  parse_trusted_proxy_networks (raw ∷ cidrs) =
      let rest = parse_trusted_proxy_networks cidrs in
      let value = strip raw in
      if is_empty value then rest else elim (ip_network value) [
        | none ↦ raise (runtime_error (String.◌++◌ "Invalid TRUSTED_PROXY_CIDRS entry: " value))
        | some network ↦ (do networks ← rest; ok (network ∷ networks))
      ]

  -- `any(remote_addr in network for network in trusted_proxy_networks)`
  unfoldable pub in_networks : Option Address → List Network → Bool
  in_networks none networks = false
  in_networks (some address) networks = any (λ network. contains network address) networks

  unfoldable pub is_trusted_proxy : String → List Network → Bool
  unfolding in_networks
  is_trusted_proxy remote_ip_value [] = false
  is_trusted_proxy remote_ip_value (n ∷ networks) =
      in_networks (ip_address remote_ip_value) (n ∷ networks)

  -- `try: ip_address(first_hop); return first_hop`
  unfoldable pub if_address : Option Address → String → String → String
  if_address none hop fallback = fallback
  if_address (some address) hop fallback = hop

  -- The hop that `X-Forwarded-For` names, if it is an address; `fallback` otherwise.
  unfoldable pub forwarded_key : Option String → String → String
  forwarded_key none fallback = fallback
  forwarded_key (some forwarded_for) fallback =
      let hop = first_hop forwarded_for in
      if is_empty forwarded_for
      then fallback
      else if is_empty hop
      then fallback
      else if_address (ip_address hop) hop fallback

  unfoldable pub client_key : Request → List Network → String
  unfolding remote_ip
  client_key r networks =
      if is_trusted_proxy (remote_ip r) networks
      then forwarded_key (r.header "X-Forwarded-For") (remote_ip r)
      else remote_ip r
