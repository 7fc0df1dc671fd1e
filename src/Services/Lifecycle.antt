-- ===== src/Services/Lifecycle.antt =====
-- A tunnel from its start to its stop: who is routed to it.
use mathlib.Core.Path.{subst}
use void_link_tunnels.Tunnel.Hostname.{strip_port, extract_subdomain_from_addr}
use void_link_tunnels.Tunnel.Proxy.{read_headers}
use void_link_tunnels.Base.{
  ℕ, ◌≡◌, ◌≢◌, refl, ◌∙◌, ap, sym, Bool, none, some, [], ◌++◌, Bytes, bytes_beq_iff, nat_eq,
  bytes_eq, arith,
}
use void_link_tunnels.Base.Map.{Map, load}
use void_link_tunnels.Text.Host.{IsHost}
use void_link_tunnels.Tunnel.Hostname.Laws.{IsLabel, dotted}
use void_link_tunnels.Tunnel.Handshake.{clean_address}
use void_link_tunnels.Tunnel.Handshake.Packet.{Handshake, put_handshake, IsSendable}
use void_link_tunnels.Tunnel.Server.{
  Server, ClientConn, register_tunnel, register_udp, is_client_connected,
}
use void_link_tunnels.Tunnel.Server.Registry.{register_tunnel-load, unregister_tunnel-load}
use void_link_tunnels.Tunnel.Server.Data.{Session}
use void_link_tunnels.Tunnel.Server.Data.Opened.{IsOpened, IsOpened-same, open_session-IsOpened}
use void_link_tunnels.Tunnel.Proxy.{generate_id, open_mc_connection, open_http_connection}
use void_link_tunnels.Tunnel.Proxy.Minecraft.{
  IsServed, open_mc_connection-put_handshake, IsRouted, open_mc_connection-IsRouted,
}
use void_link_tunnels.Tunnel.Proxy.Web.{IsWebRouted, open_http_connection-IsWebRouted}
use void_link_tunnels.Models.{Tunnel, to_response}
use void_link_tunnels.Services.{registration, start_tunnel, stop_tunnel}

register_tunnel-domain : (reg : _) (s : Server) → (register_tunnel reg s).0.domain ≡ s.domain
unfolding register_tunnel register_udp
register_tunnel-domain reg s = ground arith

register_tunnel-objects : (reg : _) (s : Server) → (register_tunnel reg s).0.objects ≡ s.objects
unfolding register_tunnel register_udp
register_tunnel-objects reg s = ground arith

-- A tunnel that can be reached by its name, and the client object that serves it.
pub record IsReady (tun : Tunnel) (client : ℕ) (object : ClientConn) (s : Server) : Type 0 where
  pub label : IsLabel tun.subdomain
  pub named : tun.subdomain ≢ []
  pub domain : IsHost s.domain
  pub connected : load tun.id s.clients ≡ some client
  pub found : load client s.objects ≡ some object

-- A tunnel is started whose subdomain is a label and whose client is connected. Then a player whose
-- handshake names the Minecraft address of the tunnel's response (after the suffixes of clients and
-- proxies are dropped) gets a session with the tunnel's own client, which is sent OPEN with the
-- session's id and the tunnel's Minecraft port; the session's channel is pending, and the handshake
-- is kept unchanged. If the client cannot be told, the player gets no session and is disconnected,
-- and nothing is pending under the id.
pub open_mc_connection-start_tunnel :
    (player ts client : ℕ) (object : ClientConn) (h : Handshake) (rest : Bytes) (tun : Tunnel)
    (s : Server)
    → IsReady tun client object s
    → IsSendable h
    → clean_address h.address ≡ (to_response s.domain tun).mc_address
    → let s' = (start_tunnel tun s).0 in
      IsOpened player client
        (generate_id ts)
        tun.mc_local_port
        (put_handshake h)
        object
        s'
        (λ sent. open_mc_connection player (put_handshake h ++ rest) ts sent s')
unfolding start_tunnel to_response
open_mc_connection-start_tunnel player ts client object h rest tun s r ok_packet e =
    let (routed, mc, http, clients) =
      register_tunnel-load (registration tun) s tun.subdomain tun.id in
    let same_domain = sym (register_tunnel-domain (registration tun) s) in
    let served : IsServed tun.subdomain (start_tunnel tun s).0 = record {
      tunnel_id = tun.id;
      client = client;
      port = tun.mc_local_port;
      label = r.label;
      named = r.named;
      domain = subst IsHost same_domain r.domain;
      routed = routed ∙ rw ((bytes_beq_iff tun.subdomain tun.subdomain).1 refl);
      connected = ap (load tun.id) clients ∙ r.connected;
      mc_port = mc ∙ rw ((bytes_beq_iff tun.id tun.id).1 refl);
    } in
    let s' = (start_tunnel tun s).0 in
    let kept = ap (load client) (register_tunnel-objects (registration tun) s) ∙ r.found in
    let opened =
      open_session-IsOpened player client (generate_id ts) tun.mc_local_port (put_handshake h)
        object s' kept in
    IsOpened-same _ _
      (λ sent.
        open_mc_connection-put_handshake player ts h rest tun.subdomain sent _ served ok_packet
          (e ∙ ap (dotted tun.subdomain) same_domain))
      opened

stop_tunnel-load :
    (tun : Tunnel) (s : Server)
    → (load tun.subdomain (stop_tunnel tun s).0.subdomain_map ≡ none)
      × (load tun.id (stop_tunnel tun s).0.clients ≡ none)
unfolding stop_tunnel is_client_connected
stop_tunnel-load tun s =
    let (name, _, _, client, _, _) =
      unregister_tunnel-load tun.id tun.subdomain tun.udp_public_port s tun.subdomain tun.id 0 in
    (
      ground (arith, bytes_beq_iff tun.subdomain tun.subdomain),
      ground (arith, bytes_beq_iff tun.id tun.id),
    )

-- A key that is present is not one that is absent.
keys-ne :
    {V : Type 0} (m : Map Bytes V) (j k : Bytes) (v : V)
    → load k m ≡ none
    → load j m ≡ some v
    → j ≢ k
keys-ne m j k v absent present same = ground arith

-- After a tunnel is stopped, whoever gets a session of the Minecraft proxy, whatever they send, has
-- named another subdomain and is with another tunnel.
pub stop_tunnel-IsRouted :
    (tun : Tunnel) (s : Server) (player ts : ℕ) (stream : Bytes) (sent : Bool) (session : Session)
    → (open_mc_connection player stream ts sent (stop_tunnel tun s).0).0 ≡ some session
    → (v : IsRouted stream (stop_tunnel tun s).0 session) × (v.tunnel_id ≢ tun.id)
      × (extract_subdomain_from_addr v.addr (stop_tunnel tun s).0.domain ≢ tun.subdomain)
stop_tunnel-IsRouted tun s player ts stream sent session h =
    let (name, client) = stop_tunnel-load tun s in
    let v = open_mc_connection-IsRouted player ts stream sent _ session h in
    (v, keys-ne _ _ _ _ client v.connected, keys-ne _ _ _ _ name v.registered)

-- After a tunnel is stopped, whoever gets a session of the web proxy, whatever they send, has named
-- another subdomain and is with another tunnel.
pub stop_tunnel-IsWebRouted :
    (tun : Tunnel) (s : Server) (player ts : ℕ) (stream : Bytes) (sent : Bool) (session : Session)
    → (open_http_connection player stream ts sent (stop_tunnel tun s).0).0 ≡ some session
    → (v : IsWebRouted stream (stop_tunnel tun s).0 session) × (v.tunnel_id ≢ tun.id)
      × (extract_subdomain_from_addr
            (strip_port (read_headers stream).host)
            (stop_tunnel tun s).0.domain
          ≢ tun.subdomain)
stop_tunnel-IsWebRouted tun s player ts stream sent session h =
    let (name, client) = stop_tunnel-load tun s in
    let v = open_http_connection-IsWebRouted player ts stream sent _ session h in
    (v, keys-ne _ _ _ _ client v.connected, keys-ne _ _ _ _ name v.registered)
