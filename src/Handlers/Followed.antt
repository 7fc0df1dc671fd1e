-- ===== src/Handlers/Followed.antt =====
-- What it means that the routing tables follow the rows, and what a start and a stop of a tunnel do
-- to a row.
use void_link_tunnels.Base.{
  ℕ, ◌≡◌, ◌≢◌, ap, true, false, none, some, [], Bytes, All, arith, ◌==◌, bytes_eq, nat_eq,
  bytes_beq_iff, inl, inr, if◌then◌else◌,
}
use void_link_tunnels.Base.Map.{load}
use void_link_tunnels.Models.{Tunnel}
use void_link_tunnels.Services.{registration, start_tunnel, stop_tunnel}
use void_link_tunnels.Tunnel.Server.{Server}
use void_link_tunnels.Tunnel.Server.Registry.{register_tunnel-load, unregister_tunnel-load}
use void_link_tunnels.Handlers.{World}
use void_link_tunnels.Handlers.Rows.{Distinct, SameOrOther, activated}

-- The subdomain of a row is routed to its tunnel if it is active, and nowhere otherwise.
abbrev pub IsFollowed : Server → Tunnel → Type 0
IsFollowed s t = load t.subdomain s.subdomain_map ≡ (if t.is_active then some t.id else none)

-- The rows are distinct, and the routing tables follow them.
pub record IsSynced (w : World) : Type 0 where
  pub distinct : Distinct w.tunnels
  pub followed : All (IsFollowed w.server) w.tunnels

-- The routing of a subdomain after a start and after a stop.
pub start_tunnel-route :
    (t : Tunnel) (s : Server) (name : Bytes)
    → load name (start_tunnel t s).0.subdomain_map
      ≡ (if t.subdomain == name then some t.id else load name s.subdomain_map)
unfolding start_tunnel
start_tunnel-route t s name = (register_tunnel-load (registration t) s name []).0

pub stop_tunnel-route :
    (t : Tunnel) (s : Server) (name : Bytes)
    → load name (stop_tunnel t s).0.subdomain_map
      ≡ (if t.subdomain == name then none else load name s.subdomain_map)
unfolding stop_tunnel
stop_tunnel-route t s name =
    (unregister_tunnel-load t.id t.subdomain t.udp_public_port s name [] 0).0

pub started_row :
    (now : ℕ) (t : Tunnel) (s : Server) (u : Tunnel)
    → SameOrOther t u
    → IsFollowed s u
    → IsFollowed (start_tunnel t s).0 (activated true now t.id u)
started_row now t s u (inl same) h = ground (
  arith,
  same,
  start_tunnel-route t s t.subdomain,
  bytes_beq_iff t.subdomain t.subdomain,
  bytes_beq_iff t.id t.id,
)
started_row now t s u (inr other) h = ground (
  arith,
  other.id,
  other.subdomain,
  start_tunnel-route t s u.subdomain,
  bytes_beq_iff t.subdomain u.subdomain,
  bytes_beq_iff u.id t.id,
)

pub stopped_row :
    (now : ℕ) (t : Tunnel) (s : Server) (u : Tunnel)
    → SameOrOther t u
    → IsFollowed s u
    → IsFollowed (stop_tunnel t s).0 (activated false now t.id u)
stopped_row now t s u (inl same) h = ground (
  arith,
  same,
  stop_tunnel-route t s t.subdomain,
  bytes_beq_iff t.subdomain t.subdomain,
  bytes_beq_iff t.id t.id,
)
stopped_row now t s u (inr other) h = ground (
  arith,
  other.id,
  other.subdomain,
  stop_tunnel-route t s u.subdomain,
  bytes_beq_iff t.subdomain u.subdomain,
  bytes_beq_iff u.id t.id,
)

pub undone_row :
    (t : Tunnel) (s : Server) (u : Tunnel)
    → t.is_active ≡ false
    → SameOrOther t u
    → IsFollowed s u
    → IsFollowed (stop_tunnel t (start_tunnel t s).0).0 u
undone_row t s u idle (inl same) h = ground (
  arith,
  same,
  idle,
  stop_tunnel-route t (start_tunnel t s).0 t.subdomain,
  bytes_beq_iff t.subdomain t.subdomain,
)
undone_row t s u idle (inr other) h = ground (
  arith,
  other.subdomain,
  stop_tunnel-route t (start_tunnel t s).0 u.subdomain,
  start_tunnel-route t s u.subdomain,
  bytes_beq_iff t.subdomain u.subdomain,
)

-- A row that is left after a deletion.
pub left_row :
    (t : Tunnel) (s : Server) (u : Tunnel)
    → (u.id ≢ t.id) × SameOrOther t u
    → IsFollowed s u
    → IsFollowed (if t.is_active then stop_tunnel t s else (s, [])).0 u
left_row t s u (ne, inl same) h = absurd (ne (ap (λ v. v.id) same))
left_row t s u (ne, inr other) h = ground (
  arith,
  other.subdomain,
  stop_tunnel-route t s u.subdomain,
  bytes_beq_iff t.subdomain u.subdomain,
)
