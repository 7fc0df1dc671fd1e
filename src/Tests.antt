-- ===== src/Tests.antt =====
-- Concrete data for the tests: a server for the domain eu.example.com with one tunnel, happy-cat,
-- whose client is the object 3 on the connection 9.
mod Join
mod Web
mod Channel
mod Voice
mod Lifecycle
mod Requests
mod Edit
mod Names
mod Accounts
mod Api
mod Relay
mod Sorting
mod Environment
mod Events
use void_link_tunnels.Base.{
  ℕ, ◌≡◌, ◌≢◌, refl, true, none, some, [], ◌∷◌, ◌++◌, Bytes, codes, nat_eq, bytes_eq, bytes_beq,
  arith,
}
use void_link_tunnels.Base.Int.{ℤ, pos}
use void_link_tunnels.Base.Map
use void_link_tunnels.Base.Map.{load, store}
use void_link_tunnels.Text.{cut_first, first_part, cut_suffix, trim_suffix}
use void_link_tunnels.Text.Host.{IsHost}
use void_link_tunnels.Tunnel.Hostname.Laws.{IsLabel}
use void_link_tunnels.Tunnel.Handshake.{clean_address}
use void_link_tunnels.Tunnel.Handshake.Packet.{Handshake, put_body, put_handshake, IsSendable}
use void_link_tunnels.Tunnel.Handshake.VarInt.{put_varint, put_groups}
use void_link_tunnels.Tunnel.Server.{Server, ClientConn, new_server}
use void_link_tunnels.Models.{Tunnel}

abbrev pub cat : Bytes
cat = codes "happy-cat"

abbrev pub zone : Bytes
zone = codes "eu.example.com"

abbrev pub map_label : Bytes
map_label = codes "map"

abbrev pub port_text : Bytes
port_text = codes "25565"

pub cat-IsLabel : IsLabel cat
cat-IsLabel = record {
  host = record { colon = omega arith; left = omega arith; right = omega arith };
  dot = omega arith;
  lower = ground arith;
}

pub cat-named : cat ≢ []
cat-named = cc

pub zone-IsHost : IsHost zone
zone-IsHost = record { colon = omega arith; left = omega arith; right = omega arith }

pub map_label-IsHost : IsHost map_label
map_label-IsHost = record { colon = omega arith; left = omega arith; right = omega arith }

pub port_text-IsHost : IsHost port_text
port_text-IsHost = record { colon = omega arith; left = omega arith; right = omega arith }

abbrev pub cat_tunnel : Tunnel
cat_tunnel = record {
  id = codes "t1";
  user_id = codes "u1";
  name = codes "Survival";
  subdomain = cat;
  region = codes "eu";
  is_active = true;
  mc_local_port = pos 25565;
  http_local_port = some (pos 8123);
  udp_local_port = pos 24454;
  udp_public_port = some 20001;
  created_at = 0;
  updated_at = 0;
}

abbrev pub dog_tunnel : Tunnel
dog_tunnel = record cat_tunnel { id = codes "t2"; subdomain = codes "sad-dog" }

abbrev pub cat_client : ClientConn
cat_client = record { tunnel_id = codes "t1"; conn = 9; pending_tcp = Map.empty }

-- The client is connected, and nothing is registered.
abbrev pub connected : Server
connected =
    let s = new_server (codes "secret") 7000 25565 8081 zone 20000 30000 in
    record s {
      clients = store (codes "t1") 3 s.clients;
      objects = store 3 cat_client s.objects;
      next_ref = 4;
    }

-- The tunnel is registered, too.
abbrev pub serving_cat : Server
serving_cat =
    let s = connected in
    record s {
      subdomain_map = store cat (codes "t1") s.subdomain_map;
      tunnel_mc_port = store (codes "t1") (pos 25565) s.tunnel_mc_port;
      tunnel_http_port = store (codes "t1") (pos 8123) s.tunnel_http_port;
    }

-- What a Forge client sends that joins happy-cat.eu.example.com.
abbrev pub hello : Handshake
hello = record {
  protocol = 765;
  address = codes "happy-cat.eu.example.com." ++ 0 ∷ codes "FML";
  trailer = 0x63 ∷ 0xdd ∷ 2 ∷ [];
}

pub hello-IsSendable : IsSendable hello
unfolding put_body put_varint put_groups
hello-IsSendable = record {
  some_address = omega arith;
  short_address = omega arith;
  protocol = omega arith;
  short_packet = omega arith;
}

pub clean_hello : clean_address hello.address ≡ codes "happy-cat.eu.example.com"
unfolding clean_address first_part cut_first trim_suffix cut_suffix bytes_beq
clean_hello = refl

pub serving_cat-clients : load (codes "t1") serving_cat.clients ≡ some 3
unfolding load store bytes_beq
serving_cat-clients = refl

pub serving_cat-subdomains : load cat serving_cat.subdomain_map ≡ some (codes "t1")
unfolding load store bytes_beq
serving_cat-subdomains = refl

pub serving_cat-objects : load 3 serving_cat.objects ≡ some cat_client
unfolding load store
serving_cat-objects = refl

pub serving_cat-mc_port : load (codes "t1") serving_cat.tunnel_mc_port ≡ some (pos 25565)
unfolding load store bytes_beq
serving_cat-mc_port = refl

pub serving_cat-http_port : load (codes "t1") serving_cat.tunnel_http_port ≡ some (pos 8123)
unfolding load store bytes_beq
serving_cat-http_port = refl
