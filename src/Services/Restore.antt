-- ===== src/Services/Restore.antt =====
-- What is routed once the active tunnels are restored at startup.
use void_link_tunnels.Base.{
  ◌≡◌, ◌≢◌, refl, ◌∙◌, Option, none, some, List, [], ◌∷◌, All, bytes_beq_iff, bytes_eq, arith,
}
use void_link_tunnels.Base.Map.{load}
use void_link_tunnels.Tunnel.Server.{Server}
use void_link_tunnels.Tunnel.Server.Registry.{register_tunnel-load}
use void_link_tunnels.Models.{Tunnel}
use void_link_tunnels.Services.{registration, start_tunnel, restore_rows, restore_active_tunnels}

-- The tables route a tunnel's subdomain to it, with its Minecraft port and its HTTP port, if any.
pub record IsRegistered (tun : Tunnel) (s : Server) : Type 0 where
  pub routed : load tun.subdomain s.subdomain_map ≡ some tun.id
  pub mc_port : load tun.id s.tunnel_mc_port ≡ some tun.mc_local_port
  pub http_port : load tun.id s.tunnel_http_port ≡ tun.http_local_port

-- Two tunnels of the database: the id is the primary key, and the subdomain is unique.
pub record IsOther (a b : Tunnel) : Type 0 where
  pub id : b.id ≢ a.id
  pub subdomain : b.subdomain ≢ a.subdomain

-- What holds of the row, if it could be scanned.
abbrev pub Scanned : (Tunnel → Type 0) → Option Tunnel → Type 0
Scanned P none = Unit
Scanned P (some tun) = P tun

abbrev pub Distinct : List (Option Tunnel) → Type 0
Distinct [] = Unit
Distinct (none ∷ rows) = Distinct rows
Distinct (some tun ∷ rows) = All (Scanned (IsOther tun)) rows × Distinct rows

start_tunnel-IsRegistered : (tun : Tunnel) (s : Server) → IsRegistered tun (start_tunnel tun s).0
unfolding start_tunnel
start_tunnel-IsRegistered tun s =
    let (routed, mc, http, _) = register_tunnel-load (registration tun) s tun.subdomain tun.id in
    let same_name = (bytes_beq_iff tun.subdomain tun.subdomain).1 refl in
    let same_id = (bytes_beq_iff tun.id tun.id).1 refl in
    record {
      routed = routed ∙ rw same_name;
      mc_port = mc ∙ rw same_id;
      http_port = http ∙ rw same_id;
    }

start_tunnel-IsOther :
    (a b : Tunnel) (s : Server)
    → IsOther a b
    → IsRegistered a s
    → IsRegistered a (start_tunnel b s).0
unfolding start_tunnel
start_tunnel-IsOther a b s other h =
    let (routed, mc, http, _) = register_tunnel-load (registration b) s a.subdomain a.id in
    record {
      routed = ground (arith, h.routed, other.subdomain, bytes_beq_iff b.subdomain a.subdomain);
      mc_port = ground (arith, h.mc_port, other.id, bytes_beq_iff b.id a.id);
      http_port = ground (arith, h.http_port, other.id, bytes_beq_iff b.id a.id);
    }

restore_rows-IsOther :
    (rows : List (Option Tunnel)) (tun : Tunnel) (s : Server)
    → All (Scanned (IsOther tun)) rows
    → IsRegistered tun s
    → IsRegistered tun (restore_rows rows s).0
unfolding restore_rows
restore_rows-IsOther [] tun s h r = r
restore_rows-IsOther (none ∷ rows) tun s (_, h) r = restore_rows-IsOther rows tun s h r
restore_rows-IsOther (some b ∷ rows) tun s (hb, h) r =
    restore_rows-IsOther rows tun _ h (start_tunnel-IsOther tun b s hb r)

restore_rows-IsRegistered :
    (rows : List (Option Tunnel)) (s : Server)
    → Distinct rows
    → All (Scanned (λ tun. IsRegistered tun (restore_rows rows s).0)) rows
unfolding restore_rows
restore_rows-IsRegistered [] s d = tt
restore_rows-IsRegistered (none ∷ rows) s d = (tt, restore_rows-IsRegistered rows s d)
restore_rows-IsRegistered (some tun ∷ rows) s (fresh, d) = (
  restore_rows-IsOther rows tun _ fresh (start_tunnel-IsRegistered tun s),
  restore_rows-IsRegistered rows _ d,
)

start_tunnel-clients : (tun : Tunnel) (s : Server) → (start_tunnel tun s).0.clients ≡ s.clients
unfolding start_tunnel
start_tunnel-clients tun s = (register_tunnel-load (registration tun) s [] []).3

restore_rows-clients :
    (rows : List (Option Tunnel)) (s : Server) → (restore_rows rows s).0.clients ≡ s.clients
unfolding restore_rows
restore_rows-clients [] s = refl
restore_rows-clients (none ∷ rows) s = restore_rows-clients rows s
restore_rows-clients (some tun ∷ rows) s = restore_rows-clients rows _ ∙ start_tunnel-clients tun s

-- The query for the active tunnels gives rows of different ids and subdomains: after the restore,
-- every tunnel whose row could be scanned is routed by its subdomain, with its Minecraft port and
-- with an HTTP port exactly where the row has one, whatever rows failed, and the connected clients
-- are those from before.
pub restore_active_tunnels-IsRegistered :
    (rows : List (Option Tunnel)) (s : Server)
    → Distinct rows
    → All (Scanned (λ tun. IsRegistered tun (restore_active_tunnels (some rows) s).0)) rows
      × ((restore_active_tunnels (some rows) s).0.clients ≡ s.clients)
unfolding restore_active_tunnels
restore_active_tunnels-IsRegistered rows s d =
    (restore_rows-IsRegistered rows s d, restore_rows-clients rows s)
