-- ===== src/Tunnel/Server.antt =====
-- The state of `tunnel.Server` (internal/tunnel/server.go), its registrations, and what the
-- handlers do to the outside. Connections, packet connections, client objects and channels are
-- handles: `*ClientConn` and `chan net.Conn` are compared and shared by reference, so they live in
-- two heaps, `objects` and `channels`. A `net.Addr` is its printed form.
pub mod Links
pub mod Control
pub mod Udp
pub mod Data
pub mod Registry
use void_link_tunnels.Base.{
  ℕ, ◌+◌, Bool, Option, none, some, List, [], ◌∷◌, ◌++◌, Bytes, codes, is_some, if◌then◌else◌,
  nat_eq, bytes_eq,
}
use void_link_tunnels.Base.Int.{ℤ}
use void_link_tunnels.Base.Map
use void_link_tunnels.Base.Map.{Map, load, store, delete}

pub record TunnelRegistration : Type 0 where
  pub tunnel_id : Bytes
  pub subdomain : Bytes
  pub mc_local_port : ℤ
  pub http_local_port : Option ℤ
  pub udp_local_port : ℤ
  pub udp_public_port : Option ℕ

pub record UdpPlayerEntry : Type 0 where
  pub pc : ℕ
  pub addr : Bytes

-- `reader`, `writer` and the mutex of the source belong to `conn`.
pub record ClientConn : Type 0 where
  pub tunnel_id : Bytes
  pub conn : ℕ
  pub pending_tcp : Map Bytes ℕ

pub record Server : Type 0 where
  pub jwt_secret : Bytes
  pub tunnel_port : ℕ
  pub mc_proxy_port : ℕ
  pub http_proxy_port : ℕ
  pub domain : Bytes
  pub min_port : ℕ
  pub max_port : ℕ
  pub clients : Map Bytes ℕ
  pub subdomain_map : Map Bytes Bytes
  pub tunnel_mc_port : Map Bytes ℤ
  pub tunnel_http_port : Map Bytes ℤ
  pub port_owners : Map ℕ Bytes
  pub port_local_map : Map ℕ ℤ
  pub udp_listeners : Map ℕ ℕ
  pub udp_player_map : Map Bytes UdpPlayerEntry
  pub objects : Map ℕ ClientConn
  pub channels : Map ℕ (Option ℕ)
  pub next_ref : ℕ

-- What a handler does to the outside, in order. `listen` is the start of a goroutine
-- `startUDPPortListener`, and `relay` the copying between two connections until both have ended.
pub data Effect : Type 0 where
  write : ℕ → Bytes → Effect
  close : ℕ → Effect
  close_packet : ℕ → Effect
  write_to : ℕ → Bytes → Bytes → Effect
  listen : ℕ → Bytes → ℤ → Effect
  relay : ℕ → ℕ → Effect

-- `NewServer`
abbrev pub new_server : Bytes → ℕ → ℕ → ℕ → Bytes → ℕ → ℕ → Server
new_server jwt_secret tunnel_port mc_proxy_port http_proxy_port domain min_port max_port = record {
  jwt_secret = jwt_secret;
  tunnel_port = tunnel_port;
  mc_proxy_port = mc_proxy_port;
  http_proxy_port = http_proxy_port;
  domain = domain;
  min_port = min_port;
  max_port = max_port;
  clients = Map.empty;
  subdomain_map = Map.empty;
  tunnel_mc_port = Map.empty;
  tunnel_http_port = Map.empty;
  port_owners = Map.empty;
  port_local_map = Map.empty;
  udp_listeners = Map.empty;
  udp_player_map = Map.empty;
  objects = Map.empty;
  channels = Map.empty;
  next_ref = 0;
}

-- The HTTP port of a registration: set, or removed where HTTP is disabled.
unfoldable pub register_http : Bytes → Option ℤ → Map Bytes ℤ → Map Bytes ℤ
register_http tunnel_id none ports = delete tunnel_id ports
register_http tunnel_id (some port) ports = store tunnel_id port ports

-- The UDP part of a registration: a listener is started only if none runs on the port.
unfoldable pub register_udp : Bytes → ℤ → Option ℕ → Server → Server × List Effect
register_udp tunnel_id local_port none s = (s, [])
register_udp tunnel_id local_port (some port) s =
    if is_some (load port s.udp_listeners) then (s, []) else (
      record s {
        port_owners = store port tunnel_id s.port_owners;
        port_local_map = store port local_port s.port_local_map;
      },
      listen port tunnel_id local_port ∷ [],
    )

unfoldable pub register_tunnel : TunnelRegistration → Server → Server × List Effect
unfolding register_http register_udp
register_tunnel reg s =
    register_udp reg.tunnel_id reg.udp_local_port reg.udp_public_port (record s {
      subdomain_map = store reg.subdomain reg.tunnel_id s.subdomain_map;
      tunnel_mc_port = store reg.tunnel_id reg.mc_local_port s.tunnel_mc_port;
      tunnel_http_port = register_http reg.tunnel_id reg.http_local_port s.tunnel_http_port;
    })

-- The UDP part of `UnregisterTunnel`: the port is released, and its listener closed if it runs.
unfoldable pub release_udp : Option ℕ → Server → Server × List Effect
release_udp none s = (s, [])
release_udp (some port) s = (
  record s {
    port_owners = delete port s.port_owners;
    port_local_map = delete port s.port_local_map;
    udp_listeners = delete port s.udp_listeners;
  },
  elim (load port s.udp_listeners) [ none ↦ [] | some pc ↦ close_packet pc ∷ [] ],
)

-- `(*ClientConn).close` on what a map gave, if anything.
unfoldable pub close_client : Option ℕ → Server → List Effect
close_client none s = []
close_client (some ref) s = elim (load ref s.objects) [
  | none ↦ []
  | some client ↦ close client.conn ∷ []
]

unfoldable pub unregister_tunnel : Bytes → Bytes → Option ℕ → Server → Server × List Effect
unfolding release_udp close_client
unregister_tunnel tunnel_id subdomain udp_public_port s =
    let (s', closed) = release_udp udp_public_port (record s {
      subdomain_map = delete subdomain s.subdomain_map;
      tunnel_mc_port = delete tunnel_id s.tunnel_mc_port;
      tunnel_http_port = delete tunnel_id s.tunnel_http_port;
    }) in
    (
      record s' { clients = delete tunnel_id s'.clients },
      closed ++ close_client (load tunnel_id s'.clients) s',
    )

unfoldable pub is_client_connected : Bytes → Server → Bool
is_client_connected tunnel_id s = is_some (load tunnel_id s.clients)

unfoldable pub is_udp_port_in_use : ℕ → Server → Bool
is_udp_port_in_use port s = is_some (load port s.port_owners)
