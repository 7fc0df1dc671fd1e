-- ===== src/Tunnel/Proxy/Minecraft.antt =====
-- A Minecraft player who joins a tunnel's address: from the bytes of the handshake to the client.
use void_link_tunnels.Base.{
  ℕ, ◌≡◌, ◌≢◌, refl, ◌∙◌, ap, sym, Bool, some, [], ◌++◌, Bytes, nat_eq, bytes_eq, bytes_beq,
  bytes_beq_iff, arith, Option-cases, Bool-cases, inl, inr,
}
use void_link_tunnels.Base.Int.{ℤ}
use void_link_tunnels.Base.Map.{load}
use void_link_tunnels.Text.Host.{IsHost}
use void_link_tunnels.Tunnel.Hostname.{extract_subdomain_from_addr}
use void_link_tunnels.Tunnel.Hostname.Laws.{IsLabel, dotted, extract_subdomain_from_addr-dotted}
use void_link_tunnels.Tunnel.Handshake.{
  Result, ok, err, start, parse_minecraft_handshake, clean_address,
}
use void_link_tunnels.Tunnel.Handshake.Packet.{
  Handshake, put_handshake, IsSendable, parse_minecraft_handshake-put_handshake,
}
use void_link_tunnels.Tunnel.Server.{Server}
use void_link_tunnels.Tunnel.Server.Data.{Session, open_session}
use void_link_tunnels.Tunnel.Proxy.{
  generate_id, mc_route, load_or_store_port, open_mc_connection, if_named,
}

pub if_named_lem : (name : Bytes) → name ≢ [] → if_named name ≡ some name
if_named_lem name h = ground (arith, bytes_beq_iff name [])

-- What the server's tables must hold for a subdomain to be joined: a registration with a port, and
-- a connected client.
pub record IsServed (sub : Bytes) (s : Server) : Type 0 where
  pub tunnel_id : Bytes
  pub client : ℕ
  pub port : ℤ
  pub label : IsLabel sub
  pub named : sub ≢ []
  pub domain : IsHost s.domain
  pub routed : load sub s.subdomain_map ≡ some tunnel_id
  pub connected : load tunnel_id s.clients ≡ some client
  pub mc_port : load tunnel_id s.tunnel_mc_port ≡ some port

mc_route_served :
    (sub addr : Bytes) (s : Server) (v : IsServed sub s)
    → addr ≡ dotted sub s.domain
    → mc_route (ok addr) s ≡ some (v.tunnel_id, v.client)
unfolding mc_route
mc_route_served sub addr s v e =
    let found : extract_subdomain_from_addr addr s.domain ≡ sub =
      ap (λ a. extract_subdomain_from_addr a s.domain) e
      ∙ (extract_subdomain_from_addr-dotted sub s.domain [] [] v.label v.domain none_at_all
          none_at_all).0 in
    rw (found, if_named_lem sub v.named) (rw v.routed (rw v.connected))
  where
    none_at_all : IsHost []
    none_at_all = record { colon = tt; left = tt; right = tt }

-- A player whose handshake names a served subdomain of the server's domain (after the suffixes that
-- clients and proxies add are dropped) gets a session with exactly the tunnel's client, for the
-- tunnel's port, and what goes first to the client are the bytes of the handshake, unchanged. This
-- holds whatever the player sends behind the handshake, and whether or not the client can be told.
pub open_mc_connection-put_handshake :
    (player ts : ℕ) (h : Handshake) (rest sub : Bytes) (sent : Bool) (s : Server)
    (v : IsServed sub s)
    → IsSendable h
    → clean_address h.address ≡ dotted sub s.domain
    → open_mc_connection player (put_handshake h ++ rest) ts sent s
      ≡ open_session player v.client (generate_id ts) v.port (put_handshake h) sent s
unfolding open_mc_connection load_or_store_port
open_mc_connection-put_handshake player ts h rest sub sent s v ok_packet e =
    rw
      (
        parse_minecraft_handshake-put_handshake h rest ok_packet,
        mc_route_served sub (clean_address h.address) s v e,
        v.mc_port,
        open_mc_connection,
        load_or_store_port,
      )
      (rw (parse_minecraft_handshake-put_handshake h rest ok_packet))

-- How a player was routed: the address that was parsed, and the tunnel that its subdomain leads to.
pub record IsRouted (stream : Bytes) (s : Server) (session : Session) : Type 0 where
  pub addr : Bytes
  pub tunnel_id : Bytes
  pub parsed : (parse_minecraft_handshake (start stream)).0 ≡ ok addr
  pub registered : load (extract_subdomain_from_addr addr s.domain) s.subdomain_map ≡ some tunnel_id
  pub connected : load tunnel_id s.clients ≡ some session.client
  pub player_bytes : session.buffered ≡ (parse_minecraft_handshake (start stream)).1.seen

mc_route_sound :
    (parsed : Result Bytes) (s : Server) (tunnel_id : Bytes) (client : ℕ)
    → mc_route parsed s ≡ some (tunnel_id, client)
    → (addr : Bytes) × (parsed ≡ ok addr)
      × (load (extract_subdomain_from_addr addr s.domain) s.subdomain_map ≡ some tunnel_id)
      × (load tunnel_id s.clients ≡ some client)
unfolding mc_route
mc_route_sound (err e) s tunnel_id client h = absurd (cc)
mc_route_sound (ok addr) s tunnel_id client h =
    let name = extract_subdomain_from_addr addr s.domain in
    elim (Bool-cases (bytes_beq name [])) [
      | inl empty ↦ absurd (ground arith)
      | inr named ↦ elim (Option-cases (load name s.subdomain_map)) [
        | inl n ↦ absurd (ground arith)
        | inr (id, routed) ↦ elim (Option-cases (load id s.clients)) [
          | inl n ↦ absurd (ground arith)
          | inr (ref, connected) ↦ (addr, refl, ground arith, ground arith)
        ]
      ]
    ]

pub open_session-eq-some :
    (player ref : ℕ) (conn_id : Bytes) (port : ℤ) (buffered : Bytes) (sent : Bool) (s : Server)
    (session : Session)
    → (open_session player ref conn_id port buffered sent s).0 ≡ some session
    → (session.client ≡ ref) × (session.buffered ≡ buffered) × (session.player ≡ player)
unfolding open_session
open_session-eq-some player ref conn_id port buffered sent s session h = ground arith

-- Whatever a player of the Minecraft proxy sends: if a session is opened, an address was parsed that
-- names, under the server's domain, a registered subdomain, the session is with that tunnel's
-- present client, and the bytes that were read from the player are kept as they were sent.
pub open_mc_connection-IsRouted :
    (player ts : ℕ) (stream : Bytes) (sent : Bool) (s : Server) (session : Session)
    → (open_mc_connection player stream ts sent s).0 ≡ some session
    → IsRouted stream s session
unfolding open_mc_connection
open_mc_connection-IsRouted player ts stream sent s session h =
    let parsed = (parse_minecraft_handshake (start stream)).0 in
    elim (Option-cases (mc_route parsed s)) [
      | inl n ↦ absurd (ground (arith, n))
      | inr ((id, ref), routed) ↦
          let (addr, e, registered, connected) = mc_route_sound parsed s id ref routed in
          let (client, buffered, _) =
            open_session-eq-some player ref (generate_id ts) _ _ sent _ session
              (rw (routed, open_mc_connection) at h) in
          record {
            addr = addr;
            tunnel_id = id;
            parsed = e;
            registered = registered;
            connected = connected ∙ ap some (sym client);
            player_bytes = buffered;
          }
    ]
