-- ===== src/Tunnel/Server/Udp/Late.antt =====
-- A listener starts in a goroutine of its own: what happens if the tunnel is stopped before the
-- goroutine has stored its socket, and what happens if it is stopped afterwards.
use void_link_tunnels.Base.{
  ℕ, ◌≡◌, refl, ◌∙◌, true, false, none, some, [], ◌∷◌, nat_eq, bytes_eq, nat_beq_iff,
}
use void_link_tunnels.Base.Map.{load, load-store}
use void_link_tunnels.Tunnel.Server.{
  Server, TunnelRegistration, listen, register_tunnel, unregister_tunnel, is_udp_port_in_use,
}
use void_link_tunnels.Tunnel.Server.Registry.{register_tunnel-listen, unregister_tunnel-load}
use void_link_tunnels.Tunnel.Server.Udp.{start_udp_port_listener}

module _ (first second : TunnelRegistration) (port pc : ℕ) (s : Server) where
  -- A tunnel is started and stopped.
  abbrev pub stopped : Server
  stopped =
      (unregister_tunnel first.tunnel_id first.subdomain (some port) (register_tunnel first s).0).0

  -- Its listener stores the socket only now.
  abbrev pub late : Server
  late = start_udp_port_listener port (some pc) stopped

  -- The order that was meant: the listener runs when the tunnel is stopped.
  abbrev pub orderly : Server
  orderly =
      (unregister_tunnel first.tunnel_id first.subdomain (some port)
        (start_udp_port_listener port (some pc) (register_tunnel first s).0)).0

  freed : (load port stopped.port_owners ≡ none) × (load port stopped.udp_listeners ≡ none)
  freed =
      let laws =
        unregister_tunnel-load first.tunnel_id first.subdomain (some port)
          (register_tunnel first s).0 first.subdomain first.tunnel_id port in
      (laws.4 ∙ rw ((nat_beq_iff port port).1 refl), laws.5 ∙ rw ((nat_beq_iff port port).1 refl))

  late_listener : load port late.udp_listeners ≡ some pc
  unfolding start_udp_port_listener
  late_listener =
      load-store port port pc stopped.udp_listeners ∙ rw ((nat_beq_iff port port).1 refl)

  late_owner : load port late.port_owners ≡ none
  unfolding start_udp_port_listener
  late_owner = freed.0

  -- A tunnel is stopped before its listener has stored its socket. The listener then stays: the
  -- next tunnel with that public port gets no listener, and once it is registered the port has no
  -- owner.
  pub register_tunnel-late :
      second.udp_public_port ≡ some port
      → let (s', effects) = register_tunnel second late in
        (effects ≡ []) × (load port s'.port_owners ≡ none) × (is_udp_port_in_use port s' ≡ false)
  unfolding is_udp_port_in_use
  register_tunnel-late e =
      let (started, owners, used) = register_tunnel-listen second late port port e in
      (
        started ∙ rw late_listener,
        owners ∙ rw late_listener late_owner,
        used ∙ rw (late_listener, late_owner),
      )

  orderly_listener : load port orderly.udp_listeners ≡ none
  orderly_listener =
      (unregister_tunnel-load first.tunnel_id first.subdomain (some port)
        (start_udp_port_listener port (some pc) (register_tunnel first s).0) first.subdomain
        first.tunnel_id port).5
      ∙ rw ((nat_beq_iff port port).1 refl)

  -- A tunnel is stopped while its listener runs: the next tunnel with that public port gets a
  -- listener of its own and owns the port.
  pub register_tunnel-orderly :
      second.udp_public_port ≡ some port
      → let (s', effects) = register_tunnel second orderly in
        (effects ≡ listen port second.tunnel_id second.udp_local_port ∷ [])
        × (load port s'.port_owners ≡ some second.tunnel_id)
        × (is_udp_port_in_use port s' ≡ true)
  register_tunnel-orderly e =
      let (started, owners, used) = register_tunnel-listen second orderly port port e in
      (
        started ∙ rw orderly_listener,
        owners ∙ rw (orderly_listener, (nat_beq_iff port port).1 refl),
        used ∙ rw orderly_listener,
      )
