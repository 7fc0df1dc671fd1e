-- ===== src/Tunnel/Events/Linked.antt =====
-- The clients of the server's table, and those that players get, after any events.
use void_link_tunnels.Base.{
  ℕ, ◌≡◌, refl, Bool, Option, none, some, List, [], ◌∷◌, Bytes, codes, not, nat_eq, bytes_eq,
  bytes_beq, Bool-cases, Option-cases, inl, inr,
}
use void_link_tunnels.Base.Int.{ℤ}
use void_link_tunnels.Base.Map
use void_link_tunnels.Tunnel.Server.Data.{forget}
use void_link_tunnels.Base.Map.{load, load-empty}
use void_link_tunnels.Text.{trim_space, fields}
use void_link_tunnels.Tunnel.Handshake.{parse_minecraft_handshake}
use void_link_tunnels.Tunnel.Handshake
use void_link_tunnels.Tunnel.Server.{Server, ClientConn}
use void_link_tunnels.Tunnel.Server.Control.{
  JwtParse, validate_jwt, is_registered, handle_control_conn, auth_line, data_line, first_line,
  handle_new_conn,
}
use void_link_tunnels.Tunnel.Server.Udp.{start_udp_port_listener, handle_udp_packet}
use void_link_tunnels.Tunnel.Server.Links.{
  IsHeld, IsLinked, accept_client-IsLinked, control_ended-IsLinked, update_pending-IsLinked,
  open_session-IsLinked, handle_data_conn-IsLinked, register_tunnel-IsLinked,
  unregister_tunnel-IsLinked,
}
use void_link_tunnels.Tunnel.Proxy.{
  mc_route, load_or_store_port, open_mc_connection, read_headers, http_route, open_http_connection,
  session_connected, session_over, session_timeout,
}
use void_link_tunnels.Tunnel.Events.{
  Event, registers, unregisters, connects, channel_ends, listener_opens, packet_arrives,
  player_joins, browser_asks, data_conn_arrives, relay_ends, session_gives_up, react, react_all,
}

module _ (jwt_parse : JwtParse) where
  handle_control_conn-IsLinked :
      (conn : ℕ) (token tunnel_id : Bytes) (s : Server)
      → IsLinked s
      → IsLinked (handle_control_conn jwt_parse conn token tunnel_id s).1
  unfolding handle_control_conn
  handle_control_conn-IsLinked conn token tunnel_id s h =
      elim (Bool-cases (not (validate_jwt jwt_parse token s))) [
        | inl refused ↦ rw refused h
        | inr valid ↦ elim (Bool-cases (not (is_registered tunnel_id s))) [
          | inl inactive ↦ rw (valid, inactive) h
          | inr active ↦ rw (valid, active) (accept_client-IsLinked conn tunnel_id s h)
        ]
      ]

  auth_line-IsLinked :
      (conn : ℕ) (args : List Bytes) (s : Server)
      → IsLinked s
      → IsLinked (auth_line jwt_parse conn args s).1
  unfolding auth_line
  auth_line-IsLinked conn [] s h = h
  auth_line-IsLinked conn (token ∷ []) s h = h
  auth_line-IsLinked conn (token ∷ tunnel_id ∷ rest) s h =
      handle_control_conn-IsLinked conn token tunnel_id s h

  data_line-IsLinked :
      (conn : ℕ) (args : List Bytes) (s : Server) → IsLinked s → IsLinked (data_line conn args s).1
  unfolding data_line
  data_line-IsLinked conn [] s h = h
  data_line-IsLinked conn (conn_id ∷ rest) s h = handle_data_conn-IsLinked conn conn_id s h

  first_line-IsLinked :
      (conn : ℕ) (words : List Bytes) (s : Server)
      → IsLinked s
      → IsLinked (first_line jwt_parse conn words s).1
  unfolding first_line
  first_line-IsLinked conn [] s h = h
  first_line-IsLinked conn (command ∷ args) s h =
      elim (Bool-cases (bytes_beq command (codes "AUTH"))) [
        | inl auth ↦ rw auth (auth_line-IsLinked conn args s h)
        | inr no_auth ↦ elim (Bool-cases (bytes_beq command (codes "DATA"))) [
          | inl data_conn ↦ rw (no_auth, data_conn) (data_line-IsLinked conn args s h)
          | inr unknown ↦ rw (no_auth, unknown) h
        ]
      ]

  handle_new_conn-IsLinked :
      (conn : ℕ) (line : Option Bytes) (s : Server)
      → IsLinked s
      → IsLinked (handle_new_conn jwt_parse conn line s).1
  unfolding handle_new_conn
  handle_new_conn-IsLinked conn none s h = h
  handle_new_conn-IsLinked conn (some line) s h =
      first_line-IsLinked conn (fields (trim_space line)) s h

start_udp_port_listener-IsLinked :
    (port : ℕ) (pc : Option ℕ) (s : Server)
    → IsLinked s
    → IsLinked (start_udp_port_listener port pc s)
unfolding start_udp_port_listener
start_udp_port_listener-IsLinked port none s h = h
start_udp_port_listener-IsLinked port (some pc) s h = h

handle_udp_packet-IsLinked :
    (pc : ℕ) (addr payload tunnel_id : Bytes) (local_port : ℤ) (sent : Bool) (s : Server)
    → IsLinked s
    → IsLinked (handle_udp_packet pc addr payload tunnel_id local_port sent s).0
unfolding handle_udp_packet
handle_udp_packet-IsLinked pc addr payload tunnel_id local_port sent s h =
    elim (Option-cases (load tunnel_id s.clients)) [
      | inl gone ↦ rw (gone, handle_udp_packet) h
      | inr (ref, found) ↦ rw (found, handle_udp_packet) h
    ]

load_or_store_port-IsLinked :
    (tunnel_id : Bytes) (s : Server) → IsLinked s → IsLinked (load_or_store_port tunnel_id s).1
unfolding load_or_store_port
load_or_store_port-IsLinked tunnel_id s h = elim (Option-cases (load tunnel_id s.tunnel_mc_port)) [
  | inl gone ↦ rw (gone, load_or_store_port) h
  | inr (port, found) ↦ rw (found, load_or_store_port) h
]

open_mc_connection-IsLinked :
    (player : ℕ) (stream : Bytes) (ts : ℕ) (sent : Bool) (s : Server)
    → IsLinked s
    → IsLinked (open_mc_connection player stream ts sent s).1
unfolding open_mc_connection
open_mc_connection-IsLinked player stream ts sent s h =
    elim (Option-cases (mc_route (parse_minecraft_handshake (Handshake.start stream)).0 s)) [
      | inl refused ↦ rw (refused, open_mc_connection) h
      | inr ((tunnel_id, client), found) ↦
          rw (found, open_mc_connection)
            (open_session-IsLinked player client _ _ _ sent _
              (load_or_store_port-IsLinked tunnel_id s h))
    ]

open_http_connection-IsLinked :
    (player : ℕ) (stream : Bytes) (ts : ℕ) (sent : Bool) (s : Server)
    → IsLinked s
    → IsLinked (open_http_connection player stream ts sent s).1
unfolding open_http_connection
open_http_connection-IsLinked player stream ts sent s h =
    elim (Option-cases (http_route (read_headers stream).host s)) [
      | inl refused ↦ rw (refused, open_http_connection) h
      | inr ((port, client), found) ↦
          rw (found, open_http_connection) (open_session-IsLinked player client _ _ _ sent s h)
    ]

react-IsLinked :
    (jwt_parse : JwtParse) (event : Event) (s : Server)
    → IsLinked s
    → IsLinked (react jwt_parse event s)
unfolding react session_connected session_over session_timeout forget
react-IsLinked jwt_parse (registers reg) s h = register_tunnel-IsLinked reg s h
react-IsLinked jwt_parse (unregisters tunnel_id subdomain port) s h =
    unregister_tunnel-IsLinked tunnel_id subdomain port s h
react-IsLinked jwt_parse (connects conn line) s h = handle_new_conn-IsLinked jwt_parse conn line s h
react-IsLinked jwt_parse (channel_ends tunnel_id ref) s h = control_ended-IsLinked tunnel_id ref s h
react-IsLinked jwt_parse (listener_opens port pc) s h = start_udp_port_listener-IsLinked port pc s h
react-IsLinked jwt_parse (packet_arrives pc addr payload tunnel_id local_port sent) s h =
    handle_udp_packet-IsLinked pc addr payload tunnel_id local_port sent s h
react-IsLinked jwt_parse (player_joins player stream ts sent) s h =
    open_mc_connection-IsLinked player stream ts sent s h
react-IsLinked jwt_parse (browser_asks player stream ts sent) s h =
    open_http_connection-IsLinked player stream ts sent s h
react-IsLinked jwt_parse (data_conn_arrives session ahead data_conn) s h = record {
  held = h.held;
  fresh = h.fresh;
}
react-IsLinked jwt_parse (relay_ends session data_conn) s h =
    update_pending-IsLinked session.client _ s h
react-IsLinked jwt_parse (session_gives_up session) s h =
    update_pending-IsLinked session.client _ s h

react_all-IsLinked :
    (jwt_parse : JwtParse) (events : List Event) (s : Server)
    → IsLinked s
    → IsLinked (react_all jwt_parse events s)
react_all-IsLinked jwt_parse [] s h = h
react_all-IsLinked jwt_parse (event ∷ rest) s h =
    react_all-IsLinked jwt_parse rest (react jwt_parse event s) (react-IsLinked jwt_parse event s h)

start-IsLinked : (s : Server) → s.clients ≡ Map.empty → s.objects ≡ Map.empty → IsLinked s
start-IsLinked s no_clients no_objects = record {
  held = λ id ref e. absurd (cc (rw no_clients at e, load-empty {V = ℕ} id));
  fresh = λ ref above. rw no_objects (load-empty ref);
}

held_client :
    (id : Bytes) (o : Option ClientConn)
    → IsHeld id o
    → (client : ClientConn) × (o ≡ some client) × (client.tunnel_id ≡ id)
held_client id none h = absurd h
held_client id (some client) h = (client, refl, h)

pub react_all-clients :
    (jwt_parse : JwtParse) (events : List Event) (s : Server) (tunnel_id : Bytes) (ref : ℕ)
    → s.clients ≡ Map.empty
    → s.objects ≡ Map.empty
    → load tunnel_id (react_all jwt_parse events s).clients ≡ some ref
    → (client : ClientConn) × (load ref (react_all jwt_parse events s).objects ≡ some client)
      × (client.tunnel_id ≡ tunnel_id)
react_all-clients jwt_parse events s tunnel_id ref no_clients no_objects found =
    let linked = react_all-IsLinked jwt_parse events s (start-IsLinked s no_clients no_objects) in
    held_client tunnel_id _ (linked.held tunnel_id ref found)
