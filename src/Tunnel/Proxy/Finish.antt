-- ===== src/Tunnel/Proxy/Finish.antt =====
-- How a session ends: its id is forgotten, and only its id.
use void_link_tunnels.Base.{
  ℕ, ◌≡◌, refl, ◌∙◌, ap, none, some, List, [], ◌∷◌, ◌++◌, Bytes, arith, Option-cases, inl, inr,
  if◌then◌else◌, ◌&&◌, ◌==◌, nat_beq, bytes_beq, bytes_eq, nat_eq, nat_beq_iff, append-nil,
}
use void_link_tunnels.Base.Map.{load, delete, load-delete, load-store}
use void_link_tunnels.Tunnel.Server.{Server, Effect, write, close, relay}
use void_link_tunnels.Tunnel.Server.Data.{Session, pending_channel, forget}
use void_link_tunnels.Tunnel.Server.Data.Delivery.{pending_channel-update_pending}
use void_link_tunnels.Tunnel.Proxy.{write_ahead, session_connected, session_over, session_timeout}

pending_channel-forget :
    (ref r : ℕ) (conn_id j : Bytes) (s : Server)
    → pending_channel j r (forget ref conn_id s)
      ≡ (if nat_beq ref r && bytes_beq conn_id j then none else pending_channel j r s)
unfolding forget pending_channel
pending_channel-forget ref r conn_id j s = elim (Option-cases (load ref s.objects)) [
  | inl n ↦ ground (arith, nat_beq_iff ref r)
  | inr (client, found) ↦
      let changed = pending_channel-update_pending ref r (delete conn_id) j client s found in
      let left = load-delete conn_id j client.pending_tcp in ground (arith, nat_beq_iff ref r)
]

-- The bytes that are written to a connection, in order.
pub written : ℕ → List Effect → Bytes
written conn [] = []
written conn (write c bytes ∷ effects) =
    let rest = written conn effects in if nat_beq c conn then bytes ++ rest else rest
written conn (_ ∷ effects) = written conn effects

-- When a data connection arrives, the buffered bytes and then the bytes read ahead are written
-- to it, and nothing else, before the relay begins, and nothing is done after; the ids stay as they
-- are, and the channel has room for another connection.
pub session_connected_lem :
    (session : Session) (ahead : Bytes) (data_conn : ℕ) (s : Server)
    → let (s', effects) = session_connected session ahead data_conn s in
      ((j : Bytes) (r : ℕ) → pending_channel j r s' ≡ pending_channel j r s)
      × (load session.channel s'.channels ≡ some none)
      × ((given : List Effect) × (effects ≡ given ++ relay session.player data_conn ∷ [])
          × (written data_conn given ≡ session.buffered ++ ahead))
unfolding session_connected written pending_channel
session_connected_lem session ahead data_conn s = (
  λ j r. refl,
  load-store session.channel session.channel none s.channels
      ∙ rw ((nat_beq_iff session.channel session.channel).1 refl),
  (
    write data_conn session.buffered ∷ write_ahead data_conn ahead,
    refl,
    rw ((nat_beq_iff data_conn data_conn).1 refl)
        (ap (λ l. session.buffered ++ l) (all_ahead ahead)),
  ),
)
  where
    all_ahead : (bytes : Bytes) → written data_conn (write_ahead data_conn bytes) ≡ bytes
    all_ahead [] = refl
    all_ahead (b ∷ bytes) = rw ((nat_beq_iff data_conn data_conn).1 refl) (append-nil (b ∷ bytes))

-- When a data connection has arrived, what is written to it before the relay begins are the buffered
-- bytes and then the bytes read ahead; nothing follows the relay, the session's id stays, and its
-- channel has room again. When the relay is over, or no data connection comes in time, of the ids
-- that the clients wait for only the session's is gone, and only from its own client; both
-- connections are closed, each twice, or the player's alone.
pub session_connected-session_timeout :
    (session : Session) (ahead j : Bytes) (data_conn r : ℕ) (s : Server)
    → let (relaying, effects) = session_connected session ahead data_conn s in
      let (over, closing) = session_over session data_conn relaying in
      let (late, late_closing) = session_timeout session s in
      let left =
        if session.client == r && session.conn_id == j then none else pending_channel j r s in
      ((given : List Effect) × (effects ≡ given ++ relay session.player data_conn ∷ [])
        × (written data_conn given ≡ session.buffered ++ ahead))
      × (pending_channel j r relaying ≡ pending_channel j r s)
      × (load session.channel relaying.channels ≡ some none)
      × (pending_channel j r over ≡ left)
      × (pending_channel j r late ≡ left)
      × (closing
          ≡ close session.player ∷ close data_conn ∷ close data_conn ∷ close session.player ∷ [])
      × (late_closing ≡ close session.player ∷ [])
unfolding session_over session_timeout
session_connected-session_timeout session ahead j data_conn r s =
    let (ids, room, effects) = session_connected_lem session ahead data_conn s in
    let relaying = (session_connected session ahead data_conn s).0 in
    let kept =
      ap (λ p. if nat_beq session.client r && bytes_beq session.conn_id j then none else p)
        (ids j r) in
    (
      effects,
      ids j r,
      room,
      pending_channel-forget session.client r session.conn_id j relaying ∙ kept,
      pending_channel-forget session.client r session.conn_id j s,
      refl,
      refl,
    )
