-- ===== src/Services.antt =====
-- `TunnelService` of internal/services/tunnel_service.go: the tunnels of the database in the
-- routing tables of the server.
pub mod Lifecycle
pub mod Restore
pub mod Subdomain
pub mod Email
use void_link_tunnels.Base.{ℕ, Bool, Option, none, some, List, [], ◌∷◌, ◌++◌, Bytes}
use void_link_tunnels.Models.{Tunnel}
use void_link_tunnels.Tunnel.Server.{
  Server, Effect, TunnelRegistration, register_tunnel, unregister_tunnel, is_client_connected,
  is_udp_port_in_use,
}

abbrev pub registration : Tunnel → TunnelRegistration
registration tun = record {
  tunnel_id = tun.id;
  subdomain = tun.subdomain;
  mc_local_port = tun.mc_local_port;
  http_local_port = tun.http_local_port;
  udp_local_port = tun.udp_local_port;
  udp_public_port = tun.udp_public_port;
}

-- `StartTunnel`, which returns no error.
unfoldable pub start_tunnel : Tunnel → Server → Server × List Effect
start_tunnel tun s = register_tunnel (registration tun) s

unfoldable pub stop_tunnel : Tunnel → Server → Server × List Effect
stop_tunnel tun s = unregister_tunnel tun.id tun.subdomain tun.udp_public_port s

-- `IsClientConnected` and `IsUDPPortInUse` of the service.
abbrev pub client_connected : Bytes → Server → Bool
client_connected tunnel_id s = is_client_connected tunnel_id s

abbrev pub udp_port_in_use : ℕ → Server → Bool
udp_port_in_use port s = is_udp_port_in_use port s

-- The loop over the rows; a row that cannot be scanned is passed over.
unfoldable pub restore_rows : List (Option Tunnel) → Server → Server × List Effect
restore_rows [] s = (s, [])
restore_rows (none ∷ rows) s = restore_rows rows s
restore_rows (some tun ∷ rows) s =
    let (s', started) = start_tunnel tun s in
    let (s'', later) = restore_rows rows s' in (s'', started ++ later)

-- `RestoreActiveTunnels`, given what the query for the active tunnels yields: an error, or its rows,
-- each with the result of the scan.
unfoldable pub restore_active_tunnels :
    Option (List (Option Tunnel)) → Server → Server × List Effect
unfolding restore_rows
restore_active_tunnels none s = (s, [])
restore_active_tunnels (some rows) s = restore_rows rows s
