-- ===== src/Tunnel/Server/Control/Replace.antt =====
-- A tunnel has one client: a new one takes the place of the old one, and the end of the old one's
-- loop does not remove the new one.
use void_link_tunnels.Base.{
  ℕ, ◌≡◌, ◌<◌, refl, ◌∙◌, false, none, some, [], ◌∷◌, Bytes, codes, ◌&&◌, ◌==◌, if◌then◌else◌,
  nat_eq, bytes_eq, bytes_beq_iff, nat_beq_iff, Bool-cases, inl, inr, arith, nat_beq,
}
use void_link_tunnels.Base.Map
use void_link_tunnels.Base.Map.{Map, load, store, delete, load-store, load-delete, map_laws}
use void_link_tunnels.Tunnel.Server.{Server, ClientConn, write, close, close_client}
use void_link_tunnels.Tunnel.Server.Control.{accept_client, is_current, control_ended}

-- The new client is the tunnel's client, as a fresh object with the connection and no pending
-- connection; the clients of all other tunnels stay.
pub accept_client-load :
    (conn : ℕ) (id tunnel_id : Bytes) (s : Server)
    → let s' = (accept_client conn id s).0 in
      (load tunnel_id s'.clients
        ≡ (if id == tunnel_id then some s.next_ref else load tunnel_id s.clients))
      × (load s.next_ref s'.objects
          ≡ some (record { tunnel_id = id; conn = conn; pending_tcp = Map.empty }))
unfolding accept_client
accept_client-load conn id tunnel_id s = (
  load-store id tunnel_id s.next_ref (delete id s.clients)
      ∙ ground (arith, load-delete id tunnel_id s.clients),
  load-store s.next_ref s.next_ref _ s.objects ∙ rw ((nat_beq_iff s.next_ref s.next_ref).1 refl),
)

-- The client that was connected before is told nothing and its connection is closed, before the
-- new one is answered OK.
pub accept_client-close :
    (conn old : ℕ) (id : Bytes) (client : ClientConn) (s : Server)
    → load id s.clients ≡ some old
    → load old s.objects ≡ some client
    → (accept_client conn id s).1 ≡ close client.conn ∷ write conn (codes "OK\n") ∷ []
unfolding accept_client
accept_client-close conn old id client s e o = rw (e, close_client) (rw (o, close_client))

-- When the loop of a client ends that was replaced, nothing changes; when the loop of the present
-- client ends, its tunnel has no client any more, and all other tunnels keep theirs.
pub control_ended-load :
    (id tunnel_id : Bytes) (ref : ℕ) (s : Server)
    → load tunnel_id (control_ended id ref s).clients
      ≡ (if is_current id ref s && id == tunnel_id then none else load tunnel_id s.clients)
unfolding control_ended
control_ended-load id tunnel_id ref s = elim (Bool-cases (is_current id ref s)) [
  | inl current ↦ rw current (load-delete id tunnel_id s.clients)
  | inr stale ↦ rw stale
]

is_current-accept_client :
    (conn old : ℕ) (id : Bytes) (s : Server)
    → is_current id old (accept_client conn id s).0 ≡ nat_beq s.next_ref old
unfolding is_current
is_current-accept_client conn old id s =
    let here : load id (accept_client conn id s).0.clients ≡ some s.next_ref =
      (accept_client-load conn id id s).0 ∙ rw ((bytes_beq_iff id id).1 refl) in
    rw (here, is_current)

-- The loop of an older client of the tunnel (an object made before) ends after a new one was
-- accepted: nothing changes, so the new one stays.
pub control_ended-accept_client :
    (conn old : ℕ) (id : Bytes) (s : Server)
    → old < s.next_ref
    → control_ended id old (accept_client conn id s).0 ≡ (accept_client conn id s).0
unfolding control_ended
control_ended-accept_client conn old id s older =
    let stale : nat_beq s.next_ref old ≡ false = ground arith in
    rw (is_current-accept_client conn old id s, stale)
