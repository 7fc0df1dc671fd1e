-- ===== src/Tunnel/Hostname.antt =====
-- `extractSubdomainFromAddr` of internal/tunnel/mc_proxy.go: which subdomain a player's address or
-- an HTTP host names. Texts are ASCII.
pub mod Laws
use void_link_tunnels.Base.{none, some, ◌∷◌, Bytes}
use void_link_tunnels.Text.{to_lower, cut_suffix, first_part, last_part, split_host_port}

-- The host of `addr`, if it carries a port, and `addr` itself otherwise.
unfoldable pub strip_port : Bytes → Bytes
strip_port addr = elim (split_host_port addr) [ none ↦ addr | some (host, _) ↦ host ]

-- The rest of the function, over a host and a domain in lower case.
unfoldable pub label_under : Bytes → Bytes → Bytes
label_under host domain = elim (cut_suffix host (b'.' ∷ domain)) [
  | none ↦ first_part b'.' host
  | some prefix ↦ last_part b'.' prefix
]

unfoldable pub extract_subdomain_from_addr : Bytes → Bytes → Bytes
unfolding strip_port label_under
extract_subdomain_from_addr addr domain = label_under (to_lower (strip_port addr)) (to_lower domain)
