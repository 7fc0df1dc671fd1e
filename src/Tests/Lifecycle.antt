-- ===== src/Tests/Lifecycle.antt =====
-- The tunnel happy-cat is started, stopped and restored.
use void_link_tunnels.Base.{
  ◌≡◌, ◌≢◌, refl, true, false, Option, none, some, List, [], ◌∷◌, ◌++◌, Bytes, codes, All,
  bytes_beq, bytes_beq_iff, nat_eq, bytes_eq, ap,
}
use void_link_tunnels.Base.Int.{pos}
use void_link_tunnels.Base.Map.{load, store, delete}
use void_link_tunnels.Tunnel.Hostname.{extract_subdomain_from_addr}
use void_link_tunnels.Tunnel.Handshake.Packet.{put_handshake}
use void_link_tunnels.Tunnel.Server.{
  Server, TunnelRegistration, register_tunnel, unregister_tunnel, release_udp, is_udp_port_in_use,
}
use void_link_tunnels.Tunnel.Server.Udp.Late.{late, register_tunnel-late}
use void_link_tunnels.Tunnel.Server.Data.{Session, open_session}
use void_link_tunnels.Tunnel.Server.Data.Opened.{IsOpened}
use void_link_tunnels.Tunnel.Proxy.{generate_id, open_mc_connection}
use void_link_tunnels.Tunnel.Proxy.Minecraft.{IsServed, IsRouted, open_mc_connection-put_handshake}
use void_link_tunnels.Models.{Tunnel, to_response}
use void_link_tunnels.Services.{registration, start_tunnel, stop_tunnel, restore_active_tunnels}
use void_link_tunnels.Services.Lifecycle.{
  IsReady, open_mc_connection-start_tunnel, stop_tunnel-IsRouted,
}
use void_link_tunnels.Services.Restore.{
  IsRegistered, Scanned, Distinct, restore_active_tunnels-IsRegistered,
}
use void_link_tunnels.Tests.{
  cat, cat-IsLabel, cat-named, zone-IsHost, connected, serving_cat, serving_cat-clients,
  serving_cat-objects, cat_client, cat_tunnel, dog_tunnel, hello, hello-IsSendable, clean_hello,
}

cat-IsReady : IsReady cat_tunnel 3 cat_client connected
cat-IsReady = record {
  label = cat-IsLabel;
  named = cat-named;
  domain = zone-IsHost;
  connected = serving_cat-clients;
  found = serving_cat-objects;
}

abbrev more : Bytes
more = codes "login"

open_mc_connection-start_tunnel_example :
    let s' = (start_tunnel cat_tunnel connected).0 in
    IsOpened 7 3
      (generate_id 5)
      (pos 25565)
      (put_handshake hello)
      cat_client
      s'
      (λ sent. open_mc_connection 7 (put_handshake hello ++ more) 5 sent s')
unfolding to_response
open_mc_connection-start_tunnel_example =
    open_mc_connection-start_tunnel 7 5 3 cat_client hello more cat_tunnel connected cat-IsReady
      hello-IsSendable clean_hello

abbrev first : TunnelRegistration
first = registration cat_tunnel

abbrev second : TunnelRegistration
second = registration dog_tunnel

register_tunnel-late_example :
    let (s', effects) = register_tunnel second (late first second 20001 6 connected) in
    (effects ≡ []) × (load 20001 s'.port_owners ≡ none) × (is_udp_port_in_use 20001 s' ≡ false)
register_tunnel-late_example = register_tunnel-late first second 20001 6 connected refl

abbrev rows : List (Option Tunnel)
rows = some cat_tunnel ∷ none ∷ some dog_tunnel ∷ []

rows-Distinct : Distinct rows
unfolding bytes_beq
rows-Distinct = (
  (
    tt,
    (
      record {
        id = λ e. absurd (cc ((bytes_beq_iff (codes "t2") (codes "t1")).1 e));
        subdomain = λ e. absurd (cc ((bytes_beq_iff (codes "sad-dog") cat).1 e));
      },
      tt,
    ),
  ),
  (tt, tt),
)

restore_active_tunnels-IsRegistered_example :
    All (Scanned (λ tun. IsRegistered tun (restore_active_tunnels (some rows) connected).0)) rows
    × ((restore_active_tunnels (some rows) connected).0.clients ≡ connected.clients)
restore_active_tunnels-IsRegistered_example =
    restore_active_tunnels-IsRegistered rows connected rows-Distinct

-- Another tunnel is stopped.
abbrev dog_stopped : Server
dog_stopped = (stop_tunnel dog_tunnel serving_cat).0

still_served : IsServed cat dog_stopped
unfolding stop_tunnel load store delete bytes_beq unregister_tunnel release_udp
still_served = record {
  tunnel_id = codes "t1";
  client = 3;
  port = pos 25565;
  label = cat-IsLabel;
  named = cat-named;
  domain = zone-IsHost;
  routed = refl;
  connected = refl;
  mc_port = refl;
}

abbrev cat_session : Session
cat_session = record {
  player = 7;
  client = 3;
  conn_id = generate_id 5;
  channel = 4;
  buffered = put_handshake hello;
}

session_opened :
    (open_mc_connection 7 (put_handshake hello ++ more) 5 true dog_stopped).0 ≡ some cat_session
unfolding open_session still_served stop_tunnel unregister_tunnel release_udp
session_opened =
    ap (λ r. r.0)
      (open_mc_connection-put_handshake 7 5 hello more cat true dog_stopped still_served
        hello-IsSendable clean_hello)

stop_tunnel-IsRouted_example :
    (v : IsRouted (put_handshake hello ++ more) dog_stopped cat_session) × (v.tunnel_id
      ≢ codes "t2")
    × (extract_subdomain_from_addr v.addr dog_stopped.domain ≢ codes "sad-dog")
stop_tunnel-IsRouted_example =
    stop_tunnel-IsRouted dog_tunnel serving_cat 7 5 (put_handshake hello ++ more) true cat_session
      session_opened
