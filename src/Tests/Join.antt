-- ===== src/Tests/Join.antt =====
-- A player joins happy-cat.eu.example.com.
use void_link_tunnels.Base.{
  ◌≡◌, ◌∙◌, true, some, ◌∷◌, ◌++◌, Bytes, codes, arith, Lacks, nat_eq, bytes_eq, ap,
}
use void_link_tunnels.Base.Int.{pos}
use void_link_tunnels.Tunnel.Hostname.{extract_subdomain_from_addr}
use void_link_tunnels.Tunnel.Hostname.Laws.{dotted, extract_subdomain_from_addr-dotted}
use void_link_tunnels.Tunnel.Handshake.{ok, start, clean_address, parse_minecraft_handshake}
use void_link_tunnels.Tunnel.Handshake.Packet.{
  put_handshake, parse_minecraft_handshake-put_handshake,
}
use void_link_tunnels.Tunnel.Handshake.Buffer.{parse_minecraft_handshake-stream}
use void_link_tunnels.Tunnel.Server.Data.{Session, open_session}
use void_link_tunnels.Tunnel.Proxy.{generate_id, open_mc_connection}
use void_link_tunnels.Tunnel.Proxy.Minecraft.{IsServed, open_mc_connection-put_handshake}
use void_link_tunnels.Tests.{
  cat, zone, map_label, port_text, cat-IsLabel, cat-named, zone-IsHost, map_label-IsHost,
  port_text-IsHost, hello, hello-IsSendable, clean_hello, serving_cat, serving_cat-clients,
  serving_cat-subdomains, serving_cat-mc_port,
}

abbrev cat_served : IsServed cat serving_cat
cat_served = record {
  tunnel_id = codes "t1";
  client = 3;
  port = pos 25565;
  label = cat-IsLabel;
  named = cat-named;
  domain = zone-IsHost;
  routed = serving_cat-subdomains;
  connected = serving_cat-clients;
  mc_port = serving_cat-mc_port;
}

abbrev more : Bytes
more = codes "login"

parse_minecraft_handshake-put_handshake_example :
    parse_minecraft_handshake (start (put_handshake hello ++ more))
    ≡ (ok (clean_address hello.address), record { unread = more; seen = put_handshake hello })
parse_minecraft_handshake-put_handshake_example =
    parse_minecraft_handshake-put_handshake hello more hello-IsSendable

extract_subdomain_from_addr-dotted_example :
    (extract_subdomain_from_addr (dotted cat zone) zone ≡ cat)
    × (extract_subdomain_from_addr (dotted cat zone ++ b':' ∷ port_text) zone ≡ cat)
    × (extract_subdomain_from_addr (dotted map_label (dotted cat zone)) zone ≡ cat)
    × (extract_subdomain_from_addr (dotted map_label (dotted cat zone) ++ b':' ∷ port_text) zone
        ≡ cat)
extract_subdomain_from_addr-dotted_example =
    extract_subdomain_from_addr-dotted cat zone port_text map_label cat-IsLabel zone-IsHost
      port_text-IsHost map_label-IsHost

abbrev shouted : Bytes
shouted = codes "Happy-Cat.EU.example.com:25565"

parse_minecraft_handshake-stream_example :
    let r = (parse_minecraft_handshake (start more)).1 in r.seen ++ r.unread ≡ more
parse_minecraft_handshake-stream_example = parse_minecraft_handshake-stream more

cat-Lacks : Lacks 0 cat
cat-Lacks = omega arith

parsed_hello :
    (parse_minecraft_handshake (start (put_handshake hello ++ more))).0
    ≡ ok (codes "happy-cat.eu.example.com")
parsed_hello =
    ap (λ r. r.0) (parse_minecraft_handshake-put_handshake hello more hello-IsSendable)
    ∙ ap ok clean_hello

-- The session that the player gets.
abbrev cat_session : Session
cat_session = record {
  player = 7;
  client = 3;
  conn_id = generate_id 5;
  channel = 4;
  buffered = put_handshake hello;
}

session_opened :
    (open_mc_connection 7 (put_handshake hello ++ more) 5 true serving_cat).0 ≡ some cat_session
unfolding open_session
session_opened = ap (λ r. r.0) opened
  where
    opened :
        open_mc_connection 7 (put_handshake hello ++ more) 5 true serving_cat
        ≡ open_session 7 3 (generate_id 5) (pos 25565) (put_handshake hello) true serving_cat
    opened =
        open_mc_connection-put_handshake 7 5 hello more cat true serving_cat cat_served
          hello-IsSendable clean_hello
