-- ===== src/Models.antt =====
-- `Tunnel` and `TunnelResponse` of internal/models/tunnel.go. An id is its printed form.
pub mod Address
pub mod User
use void_link_tunnels.Base.{ℕ, Bool, Option, none, some, List, ◌∷◌, ◌++◌, Bytes, codes}
use void_link_tunnels.Base.Int.{ℤ, decimal}

pub record Tunnel : Type 0 where
  pub id : Bytes
  pub user_id : Bytes
  pub name : Bytes
  pub subdomain : Bytes
  pub region : Bytes
  pub is_active : Bool
  pub mc_local_port : ℤ
  pub http_local_port : Option ℤ
  pub udp_local_port : ℤ
  pub udp_public_port : Option ℕ
  pub created_at : ℕ
  pub updated_at : ℕ

pub record TunnelResponse : Type 0 where
  pub id : Bytes
  pub name : Bytes
  pub subdomain : Bytes
  pub region : Bytes
  pub is_active : Bool
  pub mc_address : Bytes
  pub mc_local_port : ℤ
  pub http_address : Option Bytes
  pub http_local_port : Option ℤ
  pub udp_address : Bytes
  pub udp_public_port : ℕ
  pub udp_local_port : ℤ
  pub created_at : ℕ

pub record TunnelListResponse : Type 0 where
  pub tunnels : List TunnelResponse
  pub count : ℕ
  pub limit : ℕ

-- `t.Subdomain + "." + domain`
abbrev pub full_addr : Tunnel → Bytes → Bytes
full_addr t domain = t.subdomain ++ b'.' ∷ domain

-- `&httpAddr`, where HTTP is enabled.
abbrev pub http_addr : Bytes → Option ℤ → Option Bytes
http_addr full none = none
http_addr full (some _) = some (codes "map." ++ full)

-- `UDPAddress`: empty, unless a public port is allocated.
unfoldable pub udp_addr : Bytes → Option ℕ → Bytes
unfolding decimal
udp_addr full none = codes ""
udp_addr full (some port) = full ++ b':' ∷ decimal port

abbrev pub port_or_zero : Option ℕ → ℕ
port_or_zero none = 0
port_or_zero (some port) = port

unfoldable pub to_response : Bytes → Tunnel → TunnelResponse
unfolding udp_addr
to_response domain t = record {
  id = t.id;
  name = t.name;
  subdomain = t.subdomain;
  region = t.region;
  is_active = t.is_active;
  mc_address = full_addr t domain;
  mc_local_port = t.mc_local_port;
  http_address = http_addr (full_addr t domain) t.http_local_port;
  http_local_port = t.http_local_port;
  udp_address = udp_addr (full_addr t domain) t.udp_public_port;
  udp_public_port = port_or_zero t.udp_public_port;
  udp_local_port = t.udp_local_port;
  created_at = t.created_at;
}

-- The body of a request for a new tunnel; a port of 0 stands for the default.
pub record CreateTunnelRequest : Type 0 where
  pub name : Bytes
  pub mc_local_port : ℤ
  pub http_local_port : Option ℤ
  pub udp_local_port : ℤ

-- The body of a request for a change; what it leaves out stays.
pub record UpdateTunnelRequest : Type 0 where
  pub name : Option Bytes
  pub mc_local_port : Option ℤ
  pub http_local_port : Option ℤ
  pub udp_local_port : Option ℤ
