-- ===== src/Tunnel/Server/Registry.antt =====
-- What `RegisterTunnel` and `UnregisterTunnel` do to the routing tables, key by key.
use void_link_tunnels.Base.{
  ℕ, ◌≡◌, refl, ◌∙◌, ap, Bool, true, false, not, ◌&&◌, ◌||◌, Option, none, some, [], ◌∷◌, Bytes,
  is_some, if◌then◌else◌, nat_eq, bytes_eq, arith, ◌==◌, bytes_beq, nat_beq, nat_beq_iff,
  Option-cases, inl, inr,
}
use void_link_tunnels.Base.Int.{ℤ}
use void_link_tunnels.Base.Map.{Map, load, load-store, load-delete}
use void_link_tunnels.Tunnel.Server.{
  Server, TunnelRegistration, listen, register_tunnel, register_http, register_udp,
  unregister_tunnel, release_udp, is_client_connected, is_udp_port_in_use,
}

load-register_http :
    (id t : Bytes) (port : Option ℤ) (m : Map Bytes ℤ)
    → load t (register_http id port m) ≡ (if bytes_beq id t then port else load t m)
unfolding register_http
load-register_http id t none m = load-delete id t m
load-register_http id t (some p) m = load-store id t p m

-- The tables of names, ports and clients do not depend on the UDP part.
pub record SameRoutes (a b : Server) : Type 0 where
  pub subdomain_map : a.subdomain_map ≡ b.subdomain_map
  pub tunnel_mc_port : a.tunnel_mc_port ≡ b.tunnel_mc_port
  pub tunnel_http_port : a.tunnel_http_port ≡ b.tunnel_http_port
  pub clients : a.clients ≡ b.clients

register_udp-SameRoutes :
    (id : Bytes) (p : ℤ) (port : Option ℕ) (s : Server) → SameRoutes (register_udp id p port s).0 s
unfolding register_udp
register_udp-SameRoutes id p none s = ground arith
register_udp-SameRoutes id p (some port) s = ground arith

release_udp-SameRoutes : (port : Option ℕ) (s : Server) → SameRoutes (release_udp port s).0 s
unfolding release_udp
release_udp-SameRoutes none s = ground arith
release_udp-SameRoutes (some port) s = ground arith

-- After a registration the subdomain leads to the tunnel, and the tunnel has the ports of the
-- registration, no HTTP port if it names none. Every other subdomain and tunnel keeps what it had,
-- and the connected clients are untouched.
pub register_tunnel-load :
    (reg : TunnelRegistration) (s : Server) (subdomain tunnel_id : Bytes)
    → let s' = (register_tunnel reg s).0 in
      (load subdomain s'.subdomain_map ≡ (
        if reg.subdomain == subdomain then some reg.tunnel_id else load subdomain s.subdomain_map))
      × (load tunnel_id s'.tunnel_mc_port ≡ (
          if reg.tunnel_id == tunnel_id
          then some reg.mc_local_port
          else load tunnel_id s.tunnel_mc_port))
      × (load tunnel_id s'.tunnel_http_port ≡ (
          if reg.tunnel_id == tunnel_id
          then reg.http_local_port
          else load tunnel_id s.tunnel_http_port))
      × (s'.clients ≡ s.clients)
unfolding register_tunnel
register_tunnel-load reg s subdomain tunnel_id =
    let same = register_udp-SameRoutes reg.tunnel_id reg.udp_local_port reg.udp_public_port _ in
    (
      ap (load subdomain) same.subdomain_map ∙ load-store _ subdomain _ s.subdomain_map,
      ap (load tunnel_id) same.tunnel_mc_port ∙ load-store _ tunnel_id _ s.tunnel_mc_port,
      ap (load tunnel_id) same.tunnel_http_port
          ∙ load-register_http _ tunnel_id _ s.tunnel_http_port,
      same.clients,
    )

-- Whether a port is the one that is released.
abbrev pub is_released : Option ℕ → ℕ → Bool
is_released none port = false
is_released (some p) port = nat_beq p port

-- The tables of UDP ports do not depend on the rest of the state.
release_udp-load :
    (udp : Option ℕ) (s : Server) (port : ℕ)
    → (load port (release_udp udp s).0.port_owners
        ≡ (if is_released udp port then none else load port s.port_owners))
      × (load port (release_udp udp s).0.port_local_map
          ≡ (if is_released udp port then none else load port s.port_local_map))
      × (load port (release_udp udp s).0.udp_listeners
          ≡ (if is_released udp port then none else load port s.udp_listeners))
unfolding release_udp
release_udp-load none s port = (refl, refl, refl)
release_udp-load (some p) s port = (
  load-delete p port s.port_owners,
  load-delete p port s.port_local_map,
  load-delete p port s.udp_listeners,
)

is_some-if :
    (b : Bool) (o : Option ℕ) → is_some (if b then none else o) ≡ (if b then false else is_some o)
is_some-if true o = refl
is_some-if false o = refl

-- After a tunnel is unregistered its subdomain leads nowhere, it has no ports, no client of it is
-- connected, and its public UDP port has no owner and no listener. All other subdomains, tunnels,
-- clients and ports keep what they had.
pub unregister_tunnel-load :
    (id name : Bytes) (udp : Option ℕ) (s : Server) (subdomain tunnel_id : Bytes) (port : ℕ)
    → let s' = (unregister_tunnel id name udp s).0 in
      (load subdomain s'.subdomain_map
        ≡ (if name == subdomain then none else load subdomain s.subdomain_map))
      × (load tunnel_id s'.tunnel_mc_port
          ≡ (if id == tunnel_id then none else load tunnel_id s.tunnel_mc_port))
      × (load tunnel_id s'.tunnel_http_port
          ≡ (if id == tunnel_id then none else load tunnel_id s.tunnel_http_port))
      × (is_client_connected tunnel_id s'
          ≡ (if id == tunnel_id then false else is_client_connected tunnel_id s))
      × (load port s'.port_owners
          ≡ (if is_released udp port then none else load port s.port_owners))
      × (load port s'.udp_listeners
          ≡ (if is_released udp port then none else load port s.udp_listeners))
unfolding unregister_tunnel is_client_connected
unregister_tunnel-load id name udp s subdomain tunnel_id port =
    let same = release_udp-SameRoutes udp _ in
    let (owners, _, listeners) = release_udp-load udp _ port in
    (
      ap (load subdomain) same.subdomain_map ∙ load-delete name subdomain s.subdomain_map,
      ap (load tunnel_id) same.tunnel_mc_port ∙ load-delete id tunnel_id s.tunnel_mc_port,
      ap (load tunnel_id) same.tunnel_http_port ∙ load-delete id tunnel_id s.tunnel_http_port,
      ap is_some (load-delete id tunnel_id _)
          ∙ ap (λ o. is_some (if bytes_beq id tunnel_id then none else o))
              (ap (load tunnel_id) same.clients)
          ∙ is_some-if (bytes_beq id tunnel_id) (load tunnel_id s.clients),
      owners,
      listeners,
    )

-- A registration with a public UDP port starts a listener on it, for its tunnel and local port,
-- exactly if none runs there; then the tunnel owns the port, and otherwise the owner stays. The
-- owners of all other ports stay in both cases.
pub register_tunnel-listen :
    (reg : TunnelRegistration) (s : Server) (port other : ℕ)
    → reg.udp_public_port ≡ some port
    → let (s', effects) = register_tunnel reg s in
      let idle = not (is_some (load port s.udp_listeners)) in
      (effects ≡ (if idle then listen port reg.tunnel_id reg.udp_local_port ∷ [] else []))
      × (load other s'.port_owners
          ≡ (if idle && port == other then some reg.tunnel_id else load other s.port_owners))
      × (is_udp_port_in_use port s' ≡ (idle || is_udp_port_in_use port s))
unfolding register_tunnel is_udp_port_in_use
register_tunnel-listen reg s port other e =
    rw (e, register_udp)
      (elim (Option-cases (load port s.udp_listeners)) [
        | inl idle ↦ rw idle (
          refl,
          load-store port other reg.tunnel_id s.port_owners,
          ap is_some (load-store port port reg.tunnel_id s.port_owners)
              ∙ rw ((nat_beq_iff port port).1 refl),
        )
        | inr (pc, busy) ↦ rw busy (refl, refl, refl)
      ])
