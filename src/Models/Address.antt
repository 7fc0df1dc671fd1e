-- ===== src/Models/Address.antt =====
-- The addresses that a user is shown lead back to the tunnel's subdomain.
use void_link_tunnels.Base.{ℕ, ◌≡◌, ◌≢◌, Option, none, some, ◌++◌, Bytes, codes, arith}
use void_link_tunnels.Base.Int.{ℤ, decimal, decimal-All}
use void_link_tunnels.Text.Host.{IsHost}
use void_link_tunnels.Tunnel.Hostname.{extract_subdomain_from_addr}
use void_link_tunnels.Tunnel.Hostname.Laws.{IsLabel, extract_subdomain_from_addr-dotted}
use void_link_tunnels.Models.{Tunnel, to_response, udp_addr, http_addr, full_addr}

decimal-IsHost : (n : ℕ) → IsHost (decimal n)
decimal-IsHost n = record {
  colon = decimal-All (λ c. c ≢ b':') (λ d h. omega arith) n;
  left = decimal-All (λ c. c ≢ b'[') (λ d h. omega arith) n;
  right = decimal-All (λ c. c ≢ b']') (λ d h. omega arith) n;
}

-- An address that is given at all names the subdomain.
abbrev pub Leads : Option Bytes → Bytes → Bytes → Type 0
Leads none domain sub = Unit
Leads (some addr) domain sub = extract_subdomain_from_addr addr domain ≡ sub

http_addr-Leads :
    (full domain sub : Bytes) (port : Option ℤ)
    → extract_subdomain_from_addr (codes "map." ++ full) domain ≡ sub
    → Leads (http_addr full port) domain sub
http_addr-Leads full domain sub none h = tt
http_addr-Leads full domain sub (some _) h = h

-- For a tunnel with a public port whose subdomain is a label, on a domain without colon or bracket:
-- from the address that the response gives for Minecraft, from that for the web map (if HTTP is
-- enabled) and from that for voice the proxies extract the tunnel's own subdomain.
pub to_response-Leads :
    (domain : Bytes) (t : Tunnel) (port : ℕ)
    → IsLabel t.subdomain
    → IsHost domain
    → t.udp_public_port ≡ some port
    → (extract_subdomain_from_addr (to_response domain t).mc_address domain ≡ t.subdomain)
      × Leads (to_response domain t).http_address domain t.subdomain
      × (extract_subdomain_from_addr (to_response domain t).udp_address domain ≡ t.subdomain)
unfolding to_response udp_addr
to_response-Leads domain t port hl hd e =
    let (short, with_port, long, _) =
      extract_subdomain_from_addr-dotted t.subdomain domain (decimal port) (codes "map") hl hd
        (decimal-IsHost port) map_IsHost in
    (
      short,
      http_addr-Leads (full_addr t domain) domain t.subdomain t.http_local_port long,
      rw e with_port,
    )
  where
    map_IsHost : IsHost (codes "map")
    map_IsHost = record { colon = omega arith; left = omega arith; right = omega arith }
