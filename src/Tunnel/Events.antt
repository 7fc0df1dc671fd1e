-- ===== src/Tunnel/Events.antt =====
-- Everything that happens to the state of the server of internal/tunnel, as a sequence of events:
-- registrations by the API, connections to the control port, ends of control channels, voice
-- listeners and packets, and players with their sessions.
pub mod Linked
use void_link_tunnels.Base.{ℕ, Bool, Option, none, some, List, [], ◌∷◌, Bytes}
use void_link_tunnels.Base.Int.{ℤ}
use void_link_tunnels.Tunnel.Server.{Server, TunnelRegistration, register_tunnel, unregister_tunnel}
use void_link_tunnels.Tunnel.Server.Control.{JwtParse, handle_new_conn, control_ended}
use void_link_tunnels.Tunnel.Server.Data.{Session}
use void_link_tunnels.Tunnel.Server.Udp.{start_udp_port_listener, handle_udp_packet}
use void_link_tunnels.Tunnel.Proxy.{
  open_mc_connection, open_http_connection, session_connected, session_over, session_timeout,
}

-- An event, with what the environment decides for it.
pub data Event : Type 0 where
  registers : TunnelRegistration → Event
  unregisters : Bytes → Bytes → Option ℕ → Event
  connects : ℕ → Option Bytes → Event
  channel_ends : Bytes → ℕ → Event
  listener_opens : ℕ → Option ℕ → Event
  packet_arrives : ℕ → Bytes → Bytes → Bytes → ℤ → Bool → Event
  player_joins : ℕ → Bytes → ℕ → Bool → Event
  browser_asks : ℕ → Bytes → ℕ → Bool → Event
  data_conn_arrives : Session → Bytes → ℕ → Event
  relay_ends : Session → ℕ → Event
  session_gives_up : Session → Event

module _ (jwt_parse : JwtParse) where
  unfoldable pub react : Event → Server → Server
  react (registers reg) s = (register_tunnel reg s).0
  react (unregisters tunnel_id subdomain port) s = (unregister_tunnel tunnel_id subdomain port s).0
  react (connects conn line) s = (handle_new_conn jwt_parse conn line s).1
  react (channel_ends tunnel_id ref) s = control_ended tunnel_id ref s
  react (listener_opens port pc) s = start_udp_port_listener port pc s
  react (packet_arrives pc addr payload tunnel_id local_port sent) s =
      (handle_udp_packet pc addr payload tunnel_id local_port sent s).0
  react (player_joins player stream ts sent) s = (open_mc_connection player stream ts sent s).1
  react (browser_asks player stream ts sent) s = (open_http_connection player stream ts sent s).1
  react (data_conn_arrives session ahead data_conn) s =
      (session_connected session ahead data_conn s).0
  react (relay_ends session data_conn) s = (session_over session data_conn s).0
  react (session_gives_up session) s = (session_timeout session s).0

  abbrev pub react_all : List Event → Server → Server
  react_all [] s = s
  react_all (event ∷ rest) s = react_all rest (react event s)
