-- ===== src/Tests/Events.antt =====
-- A server on which happy-cat is registered, whose client connects, and a player joins.
use void_link_tunnels.Base.{
  ◌≡◌, refl, true, some, List, [], ◌∷◌, codes, nat_eq, bytes_eq, bytes_beq,
}
use void_link_tunnels.Base.Map.{load, store, delete, range_first}
use void_link_tunnels.Text.{trim_space, fields}
use void_link_tunnels.Services.{registration}
use void_link_tunnels.Tunnel.Server.{Server, new_server, register_tunnel}
use void_link_tunnels.Tunnel.Server.Control.{
  JwtParse, validate_jwt, is_registered, accept_client, handle_control_conn, auth_line, first_line,
  handle_new_conn, control_ended,
}
use void_link_tunnels.Tunnel.Events.{Event, registers, connects, channel_ends, react, react_all}
use void_link_tunnels.Tests.{cat, zone, cat_tunnel, cat-IsLabel, cat-named, zone-IsHost, hello}
use void_link_tunnels.Base.Int.{pos}
use void_link_tunnels.Tunnel.Handshake.Packet.{put_handshake}
use void_link_tunnels.Tunnel.Server.Data.{Session}
use void_link_tunnels.Tunnel.Proxy.{generate_id}
use void_link_tunnels.Tunnel.Proxy.Minecraft.{IsServed}

abbrev accepting : JwtParse
accepting token key = some true

abbrev fresh_server : Server
fresh_server = new_server (codes "secret") 7001 25565 8081 zone 20000 30000

-- The client connects twice; the end of the first channel comes late.
abbrev story : List Event
story =
    registers (registration cat_tunnel)
    ∷ connects 9 (some (codes "AUTH tok t1"))
    ∷ connects 11 (some (codes "AUTH tok t1"))
    ∷ channel_ends (codes "t1") 0
    ∷ []

connected : load (codes "t1") (react_all accepting story fresh_server).clients ≡ some 1
unfolding react handle_new_conn first_line auth_line handle_control_conn validate_jwt is_registered
    accept_client register_tunnel control_ended trim_space fields load store delete range_first
    bytes_beq
connected = refl

-- Then a player joins.
abbrev peopled : Server
peopled = react_all accepting story fresh_server

served : IsServed cat peopled
unfolding react handle_new_conn first_line auth_line handle_control_conn validate_jwt is_registered
    accept_client register_tunnel control_ended trim_space fields load store delete range_first
    bytes_beq
served = record {
  tunnel_id = codes "t1";
  client = 1;
  port = pos 25565;
  label = cat-IsLabel;
  named = cat-named;
  domain = zone-IsHost;
  routed = refl;
  connected = refl;
  mc_port = refl;
}

abbrev cat_session : Session
cat_session = record {
  player = 7;
  client = 1;
  conn_id = generate_id 5;
  channel = 2;
  buffered = put_handshake hello;
}
