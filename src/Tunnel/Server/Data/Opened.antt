-- ===== src/Tunnel/Server/Data/Opened.antt =====
-- What it means that a player gets a session with a client, and what happens where the client cannot be
-- told.
use void_link_tunnels.Base.{
  ℕ, ◌≡◌, refl, ◌∙◌, ap, Bool, true, false, Option, none, some, List, [], ◌∷◌, ◌++◌, Bytes, codes,
  bytes_beq_iff, nat_beq_iff, nat_eq, bytes_eq,
}
use void_link_tunnels.Base.Int.{ℤ, int_text}
use void_link_tunnels.Base.Map.{load, store, delete, load-store, load-delete}
use void_link_tunnels.Tunnel.Server.{Server, ClientConn, Effect, write, close}
use void_link_tunnels.Tunnel.Server.Data.{
  Session, pending_channel, update_pending, client_write, open_message, forget, open_session,
}
use void_link_tunnels.Tunnel.Server.Data.Delivery.{
  waiting, pending_waiting, channel_waiting, pending_channel-update_pending,
}

-- A handler's end on a server `s`, given whether the client can be told. If it can, the player has a
-- session with the client, under the id and with a new channel that is empty and pending, and the
-- client is sent OPEN with the id and the port. If it cannot, there is no session, the player's
-- connection is closed, and the id is not pending.
pub record IsOpened (player ref : ℕ) (conn_id : Bytes) (port : ℤ) (buffered : Bytes)
    (client : ClientConn) (s : Server) (end : Bool → Option Session × Server × List Effect)
    : Type 0 where
  pub session :
      (end true).0
      ≡ some (record {
        player = player;
        client = ref;
        conn_id = conn_id;
        channel = s.next_ref;
        buffered = buffered;
      })
  pub told :
      (end true).2
      ≡ write client.conn
          (codes "OPEN " ++ (conn_id ++ (codes " " ++ (int_text port ++ codes "\n"))))
        ∷ []
  pub pending : pending_channel conn_id ref (end true).1 ≡ some s.next_ref
  pub empty : load s.next_ref (end true).1.channels ≡ some none
  pub no_session : (end false).0 ≡ none
  pub closed : (end false).2 ≡ close player ∷ []
  pub forgotten : pending_channel conn_id ref (end false).1 ≡ none

-- It is the same of two handlers that end alike.
pub IsOpened-same :
    {player ref : ℕ} {conn_id : Bytes} {port : ℤ} {buffered : Bytes} {client : ClientConn}
    {s : Server} (end end' : Bool → Option Session × Server × List Effect)
    → ((sent : Bool) → end sent ≡ end' sent)
    → IsOpened player ref conn_id port buffered client s end'
    → IsOpened player ref conn_id port buffered client s end
IsOpened-same {player} {ref} {conn_id} {port} {buffered} {client} {s} end end' same h = record {
  session = ap (λ e. e.0) (same true) ∙ h.session;
  told = ap (λ e. e.2) (same true) ∙ h.told;
  pending = ap (λ e. pending_channel conn_id ref e.1) (same true) ∙ h.pending;
  empty = ap (λ e. load s.next_ref e.1.channels) (same true) ∙ h.empty;
  no_session = ap (λ e. e.0) (same false) ∙ h.no_session;
  closed = ap (λ e. e.2) (same false) ∙ h.closed;
  forgotten = ap (λ e. pending_channel conn_id ref e.1) (same false) ∙ h.forgotten;
}

module _ (player ref : ℕ) (conn_id : Bytes) (port : ℤ) (buffered : Bytes) (client : ClientConn)
    (s : Server) where
  object_waiting :
      load ref s.objects ≡ some client
      → load ref (waiting player ref conn_id port buffered s).objects
        ≡ some (record client { pending_tcp = store conn_id s.next_ref client.pending_tcp })
  unfolding open_session update_pending
  object_waiting found =
      rw (found, update_pending)
        (load-store ref ref _ s.objects ∙ rw ((nat_beq_iff ref ref).1 refl))

  forgotten_after :
      load ref s.objects ≡ some client
      → pending_channel conn_id ref (open_session player ref conn_id port buffered false s).1 ≡ none
  unfolding open_session forget
  forgotten_after found =
      pending_channel-update_pending ref ref (delete conn_id) conn_id _ _ (object_waiting found)
      ∙ rw ((nat_beq_iff ref ref).1 refl) (
          load-delete conn_id conn_id (store conn_id s.next_ref client.pending_tcp)
          ∙ rw ((bytes_beq_iff conn_id conn_id).1 refl))

  pub open_session-IsOpened :
      load ref s.objects ≡ some client
      → IsOpened player ref conn_id port buffered client s
          (λ sent. open_session player ref conn_id port buffered sent s)
  unfolding open_session client_write open_message
  open_session-IsOpened found = record {
    session = refl;
    told = rw (found, client_write);
    pending =
        pending_waiting player ref conn_id port buffered s client ref found
        ∙ rw ((nat_beq_iff ref ref).1 refl);
    empty = channel_waiting player ref conn_id port buffered s;
    no_session = refl;
    closed = refl;
    forgotten = forgotten_after found;
  }
