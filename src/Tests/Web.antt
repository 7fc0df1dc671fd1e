-- ===== src/Tests/Web.antt =====
-- A visitor of map.happy-cat.eu.example.com.
use void_link_tunnels.Base.{
  ◌≡◌, refl, true, none, some, List, [], ◌∷◌, ◌++◌, Bytes, codes, arith, All, nat_eq, bytes_eq,
  ◌&&◌, ◌==◌, if◌then◌else◌,
}
use void_link_tunnels.Base.Int.{pos}
use void_link_tunnels.Text.{
  to_lower, lower_byte, trim_space, trim_left, trim_right, is_space, has_prefix, split_host_port,
  split_plain, cut_last, contains,
}
use void_link_tunnels.Base.Map.{load}
use void_link_tunnels.Tunnel.Hostname.{strip_port}
use void_link_tunnels.Tunnel.Hostname.Laws.{dotted}
use void_link_tunnels.Tunnel.Server.{Effect, close, relay}
use void_link_tunnels.Tunnel.Server.Data.{Session, pending_channel}
use void_link_tunnels.Tunnel.Server.Data.Opened.{IsOpened}
use void_link_tunnels.Tunnel.Proxy.{
  generate_id, host_after, open_http_connection, session_connected, session_over, session_timeout,
}
use void_link_tunnels.Tunnel.Proxy.HeaderBlock.{IsField, put_headers, host_of}
use void_link_tunnels.Tunnel.Proxy.Web.{IsWebServed, open_http_connection-put_headers}
use void_link_tunnels.Tunnel.Proxy.Finish.{written, session_connected-session_timeout}
use void_link_tunnels.Tests.{
  cat, zone, map_label, cat-IsLabel, cat-named, zone-IsHost, map_label-IsHost, serving_cat,
  serving_cat-clients, serving_cat-subdomains, serving_cat-http_port, serving_cat-objects,
  cat_client,
}

abbrev cat_served : IsWebServed cat serving_cat
cat_served = record {
  tunnel_id = codes "t1";
  client = 3;
  port = pos 8123;
  label = cat-IsLabel;
  named = cat-named;
  domain = zone-IsHost;
  routed = serving_cat-subdomains;
  http_port = serving_cat-http_port;
  connected = serving_cat-clients;
}

abbrev lines : List Bytes
lines = codes "GET / HTTP/1.1\r" ∷ codes "Host: map.happy-cat.eu.example.com:80\r" ∷ []

abbrev body : Bytes
body = codes "x=1"

lines-IsField : All IsField lines
unfolding trim_space trim_left trim_right is_space
lines-IsField = (
  record { one_line = omega arith; text = cc },
  (record { one_line = omega arith; text = cc }, tt),
)

lines-host : strip_port (host_of lines []) ≡ dotted map_label (dotted cat zone)
unfolding strip_port host_of host_after trim_space trim_left trim_right is_space to_lower lower_byte
    has_prefix split_host_port split_plain cut_last contains
lines-host = refl

open_http_connection-put_headers_example :
    IsOpened 7 3
      (generate_id 5)
      (pos 8123)
      (put_headers lines)
      cat_client
      serving_cat
      (λ sent. open_http_connection 7 (put_headers lines ++ body) 5 sent serving_cat)
open_http_connection-put_headers_example =
    open_http_connection-put_headers 7 5 lines body map_label cat cat_client serving_cat cat_served
      serving_cat-objects lines-IsField map_label-IsHost lines-host

abbrev cat_session : Session
cat_session = record {
  player = 7;
  client = 3;
  conn_id = generate_id 5;
  channel = 4;
  buffered = put_headers lines;
}

session_opened :
    (open_http_connection 7 (put_headers lines ++ body) 5 true serving_cat).0 ≡ some cat_session
session_opened =
    (open_http_connection-put_headers 7 5 lines body map_label cat cat_client serving_cat cat_served
      serving_cat-objects lines-IsField map_label-IsHost lines-host).session

session_connected-session_timeout_example :
    let (relaying, effects) = session_connected cat_session body 8 serving_cat in
    let (over, closing) = session_over cat_session 8 relaying in
    let (late, late_closing) = session_timeout cat_session serving_cat in
    let left =
      if cat_session.client == 3 && cat_session.conn_id == cat
      then none
      else pending_channel cat 3 serving_cat in
    ((given : List Effect) × (effects ≡ given ++ relay 7 8 ∷ [])
      × (written 8 given ≡ cat_session.buffered ++ body))
    × (pending_channel cat 3 relaying ≡ pending_channel cat 3 serving_cat)
    × (load 4 relaying.channels ≡ some none)
    × (pending_channel cat 3 over ≡ left)
    × (pending_channel cat 3 late ≡ left)
    × (closing ≡ close 7 ∷ close 8 ∷ close 8 ∷ close 7 ∷ [])
    × (late_closing ≡ close 7 ∷ [])
session_connected-session_timeout_example =
    session_connected-session_timeout cat_session body cat 8 3 serving_cat
