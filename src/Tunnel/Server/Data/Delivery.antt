-- ===== src/Tunnel/Server/Data/Delivery.antt =====
-- A data connection reaches the session that it was opened for, and no other.
use void_link_tunnels.Base.{
  ℕ, ◌≡◌, ◌≢◌, refl, ◌∙◌, ap, sym, Bool, true, none, some, [], ◌∷◌, Bytes, is_some, ◌==◌,
  if◌then◌else◌, nat_eq, bytes_eq, nat_beq_iff, nat_beq, bytes_beq_iff, arith, Option-cases,
  Bool-cases, inl, inr, ◌⊎◌,
}
use void_link_tunnels.Base.Int.{ℤ}
use void_link_tunnels.Base.Map.{
  Map, load, store, load-store, range_first, range_first_sound, range_first-ne-none,
}
use void_link_tunnels.Tunnel.Server.{Server, ClientConn, close}
use void_link_tunnels.Tunnel.Server.Data.{
  pending_channel, deliver, find_pending, handle_data_conn, update_pending, open_session,
}

pub pending_channel-update_pending :
    (ref r : ℕ) (f : Map Bytes ℕ → Map Bytes ℕ) (j : Bytes) (client : ClientConn) (s : Server)
    → load ref s.objects ≡ some client
    → pending_channel j r (update_pending ref f s)
      ≡ (if nat_beq ref r then load j (f client.pending_tcp) else pending_channel j r s)
unfolding pending_channel update_pending
pending_channel-update_pending ref r f j client s e =
    rw (e, update_pending)
      (rw (load-store ref r _ s.objects, pending_channel)
        (elim (Bool-cases (nat_beq ref r)) [ inl same ↦ rw same | inr other ↦ rw other ]))

module _ (player ref : ℕ) (conn_id : Bytes) (port : ℤ) (buffered : Bytes) (s : Server) where
  -- The server once the session waits.
  abbrev pub waiting : Server
  waiting = (open_session player ref conn_id port buffered true s).1

  pub pending_waiting :
      (client : ClientConn) (r : ℕ)
      → load ref s.objects ≡ some client
      → pending_channel conn_id r waiting
        ≡ (if nat_beq ref r then some s.next_ref else pending_channel conn_id r s)
  unfolding open_session
  pending_waiting client r e =
      pending_channel-update_pending ref r (store conn_id s.next_ref) conn_id client _ e
      ∙ rw
          (
            load-store conn_id conn_id s.next_ref client.pending_tcp,
            (bytes_beq_iff conn_id conn_id).1 refl,
          )
          (unfold pending_channel in refl)

  pub channel_waiting : load s.next_ref waiting.channels ≡ some none
  unfolding open_session update_pending
  channel_waiting = elim (Option-cases (load ref s.objects)) [
    | inl n ↦ rw (n, update_pending) new
    | inr (client, found) ↦ rw (found, update_pending) new
  ]
    where
      new : load s.next_ref (store s.next_ref none s.channels) ≡ some none
      new =
          load-store s.next_ref s.next_ref none s.channels
          ∙ rw ((nat_beq_iff s.next_ref s.next_ref).1 refl)

  clients_waiting : waiting.clients ≡ s.clients
  unfolding open_session update_pending
  clients_waiting = ground arith

  -- What makes a session deliverable: the client that was asked is the client of some tunnel, and
  -- no other client has a pending connection with the session's id.
  pub record IsOwn : Type 0 where
    pub client : ClientConn
    pub tunnel_id : Bytes
    pub object : load ref s.objects ≡ some client
    pub current : load tunnel_id s.clients ≡ some ref
    pub alone : (r : ℕ) → r ≢ ref → pending_channel conn_id r s ≡ none

  find_pending-waiting : IsOwn → find_pending conn_id waiting ≡ some ref
  unfolding find_pending
  find_pending-waiting own = elim (Option-cases (range_first test waiting.clients)) [
    | inl n ↦ absurd (
        range_first-ne-none test waiting.clients own.tunnel_id ref
          (ap (load own.tunnel_id) clients_waiting ∙ own.current) passes n)
    | inr (r, found) ↦
        let (key, here, hit) = range_first_sound test waiting.clients r found in
        found ∙ ap some (only r hit)
  ]
    where
      test : ℕ → Bool
      test r = is_some (pending_channel conn_id r waiting)

      passes : test ref ≡ true
      passes =
          ap is_some (pending_waiting own.client ref own.object) ∙ rw ((nat_beq_iff ref ref).1 refl)

      only : (r : ℕ) → test r ≡ true → r ≡ ref
      only r hit = elim (Bool-cases (nat_beq ref r)) [
        | inl same ↦ sym ((nat_beq_iff ref r).0 same)
        | inr other ↦ absurd (
            ground (arith, pending_waiting own.client r own.object, own.alone r, nat_beq_iff ref r))
      ]

  handle_data_conn-waiting :
      (conn : ℕ)
      → IsOwn
      → handle_data_conn conn conn_id waiting
        ≡ (record waiting { channels = store s.next_ref (some conn) waiting.channels }, [])
  unfolding handle_data_conn deliver
  handle_data_conn-waiting conn own =
      rw (find_pending-waiting own, handle_data_conn)
        (rw (pending_waiting own.client ref own.object, (nat_beq_iff ref ref).1 refl)
          (rw (channel_waiting, deliver)))

  -- A session waits, its client is the client of some tunnel, and no other client has a pending
  -- connection with the session's id. When the data connection arrives, it is put into the session's
  -- own channel and not closed, and no other channel changes.
  pub handle_data_conn-open_session :
      (conn channel : ℕ)
      → IsOwn
      → let (s', effects) = handle_data_conn conn conn_id waiting in
        (effects ≡ [])
        × (load channel s'.channels
            ≡ (if s.next_ref == channel then some (some conn) else load channel waiting.channels))
  handle_data_conn-open_session conn channel own =
      rw (handle_data_conn-waiting conn own)
        (refl, load-store s.next_ref channel (some conn) waiting.channels)

deliver_cases :
    (conn channel : ℕ) (s : Server)
    → (deliver conn (some channel) s ≡ (s, close conn ∷ []))
      ⊎ ((load channel s.channels ≡ some none)
          × (deliver conn (some channel) s
              ≡ (record s { channels = store channel (some conn) s.channels }, [])))
unfolding deliver
deliver_cases conn channel s = elim (Option-cases (load channel s.channels)) [
  | inl n ↦ inl (rw (n, deliver))
  | inr (none, e) ↦ inr (e, rw (e, deliver))
  | inr (some other, e) ↦ inl (rw (e, deliver))
]

-- A data connection is never lost: it is closed and nothing changes, or it is put into one channel
-- of the state that was empty, and nothing else changes. So what a channel holds is not replaced.
pub handle_data_conn_cases :
    (conn : ℕ) (conn_id : Bytes) (s : Server)
    → (handle_data_conn conn conn_id s ≡ (s, close conn ∷ []))
      ⊎ ((channel : ℕ) × (load channel s.channels ≡ some none)
          × (handle_data_conn conn conn_id s
              ≡ (record s { channels = store channel (some conn) s.channels }, [])))
unfolding handle_data_conn find_pending
handle_data_conn_cases conn conn_id s = elim (Option-cases (range_first test s.clients)) [
  | inl n ↦ inl (rw (n, handle_data_conn))
  | inr (ref, found) ↦
      let (key, here, hit) = range_first_sound test s.clients ref found in
      elim (Option-cases (pending_channel conn_id ref s)) [
        | inl n ↦ absurd (ground arith)
        | inr (channel, e) ↦ elim (deliver_cases conn channel s) [
          | inl closed ↦ inl (rw (found, handle_data_conn) (rw e closed))
          | inr (empty, put) ↦ inr (channel, empty, rw (found, handle_data_conn) (rw e put))
        ]
      ]
]
  where
    test : ℕ → Bool
    test r = is_some (pending_channel conn_id r s)
