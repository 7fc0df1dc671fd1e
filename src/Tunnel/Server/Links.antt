-- ===== src/Tunnel/Server/Links.antt =====
-- The client objects behind the table of clients: what all handlers of internal/tunnel keep true.
use void_link_tunnels.Base.{
  ℕ, ◌+◌, ◌≤◌, ◌≡◌, refl, sym, ap, ◌∙◌, Bool, true, false, Option, none, some, Bytes, nat_beq,
  nat_beq_iff, nat_eq, bytes_eq, bytes_beq, bytes_beq_iff, Bool-cases, Option-cases, inl, inr,
  arith, is_some,
}
use void_link_tunnels.Base.Int.{ℤ}
use void_link_tunnels.Base.Map.{Map, load, store, delete, load-store, load-delete}
use void_link_tunnels.Tunnel.Server.{
  Server, ClientConn, TunnelRegistration, register_http, register_udp, register_tunnel, release_udp,
  unregister_tunnel,
}
use void_link_tunnels.Tunnel.Server.Control.{accept_client, is_current, control_ended}
use void_link_tunnels.Tunnel.Server.Data.{
  update_pending, forget, open_session, deliver, find_pending, pending_channel, handle_data_conn,
}

-- What a client stands for: the object behind it exists, and is one of the tunnel.
abbrev pub IsHeld : Bytes → Option ClientConn → Type 0
IsHeld id none = ⊥
IsHeld id (some client) = client.tunnel_id ≡ id

-- No client is a dangling reference or another tunnel's, and no object has a reference that is yet
-- to be given out.
pub record Linked (clients : Map Bytes ℕ) (objects : Map ℕ ClientConn) (next_ref : ℕ) : Type 0 where
  pub held : (id : Bytes) (ref : ℕ) → load id clients ≡ some ref → IsHeld id (load ref objects)
  pub fresh : (ref : ℕ) → next_ref ≤ ref → load ref objects ≡ none

abbrev pub IsLinked : Server → Type 0
IsLinked s = Linked s.clients s.objects s.next_ref

-- An entry of the table is removed.
Linked-delete :
    (tunnel_id : Bytes) (clients : Map Bytes ℕ) (objects : Map ℕ ClientConn) (next : ℕ)
    → Linked clients objects next
    → Linked (delete tunnel_id clients) objects next
Linked-delete tunnel_id clients objects next h = record {
  held = λ id ref e.
      let e' = sym (load-delete tunnel_id id clients) ∙ e in
      elim (Bool-cases (bytes_beq tunnel_id id)) [
        | inl same ↦ absurd (cc (rw same at e'))
        | inr other ↦ h.held id ref (rw other at e')
      ];
  fresh = h.fresh;
}

-- An object with a new reference takes an entry.
Linked-insert :
    (client : ClientConn) (clients : Map Bytes ℕ) (objects : Map ℕ ClientConn) (next : ℕ)
    → Linked clients objects next
    → Linked (store client.tunnel_id next clients) (store next client objects) (next + 1)
Linked-insert client clients objects next h = record {
  held = λ id ref e.
      let e' = sym (load-store client.tunnel_id id next clients) ∙ e in
      elim (Bool-cases (bytes_beq client.tunnel_id id)) [
        | inl same ↦
            let is_next : next ≡ ref = cc (rw same at e') in
            rw (load-store next ref client objects, (nat_beq_iff next ref).1 is_next)
              ((bytes_beq_iff client.tunnel_id id).0 same)
        | inr other ↦
            let stays = h.held id ref (rw other at e') in
            elim (Bool-cases (nat_beq next ref)) [
              | inl hit ↦
                  let above : next ≤ ref = ground arith in absurd (rw (h.fresh ref above) at stays)
              | inr miss ↦ rw (load-store next ref client objects, miss) stays
            ]
      ];
  fresh = λ ref above.
      let differs : nat_beq next ref ≡ false = ground arith in
      load-store next ref client objects ∙ rw differs (h.fresh ref (omega arith));
}

-- An object changes, but not its tunnel.
Linked-replace :
    (ref : ℕ) (old new : ClientConn) (clients : Map Bytes ℕ) (objects : Map ℕ ClientConn) (next : ℕ)
    → load ref objects ≡ some old
    → new.tunnel_id ≡ old.tunnel_id
    → Linked clients objects next
    → Linked clients (store ref new objects) next
Linked-replace ref old new clients objects next found same h = record {
  held = λ id r e. elim (Bool-cases (nat_beq ref r)) [
    | inl hit ↦
        let here = ap (λ k. load k objects) (sym ((nat_beq_iff ref r).0 hit)) ∙ found in
        rw (load-store ref r new objects, hit) (same ∙ (rw here at (h.held id r e)))
    | inr miss ↦ rw (load-store ref r new objects, miss) (h.held id r e)
  ];
  fresh = λ r above. elim (Bool-cases (nat_beq ref r)) [
    | inl hit ↦
        let here = ap (λ k. load k objects) (sym ((nat_beq_iff ref r).0 hit)) ∙ found in
        absurd (cc (here, h.fresh r above))
    | inr miss ↦ load-store ref r new objects ∙ rw miss (h.fresh r above)
  ];
}

-- The handlers that change the table of clients or an object.
pub accept_client-IsLinked :
    (conn : ℕ) (tunnel_id : Bytes) (s : Server)
    → IsLinked s
    → IsLinked (accept_client conn tunnel_id s).0
unfolding accept_client
accept_client-IsLinked conn tunnel_id s h =
    Linked-insert _ (delete tunnel_id s.clients) s.objects s.next_ref
      (Linked-delete tunnel_id s.clients s.objects s.next_ref h)

pub control_ended-IsLinked :
    (tunnel_id : Bytes) (ref : ℕ) (s : Server)
    → IsLinked s
    → IsLinked (control_ended tunnel_id ref s)
unfolding control_ended
control_ended-IsLinked tunnel_id ref s h = elim (Bool-cases (is_current tunnel_id ref s)) [
  | inl current ↦ rw current (Linked-delete tunnel_id s.clients s.objects s.next_ref h)
  | inr other ↦ rw other h
]

pub update_pending-IsLinked :
    (ref : ℕ) (f : Map Bytes ℕ → Map Bytes ℕ) (s : Server)
    → IsLinked s
    → IsLinked (update_pending ref f s)
unfolding update_pending
update_pending-IsLinked ref f s h = elim (Option-cases (load ref s.objects)) [
  | inl gone ↦ rw (gone, update_pending) h
  | inr (client, found) ↦
      rw (found, update_pending)
        (Linked-replace ref client _ s.clients s.objects s.next_ref found refl h)
]

-- A reference more is given out, to a channel.
Linked-later :
    (clients : Map Bytes ℕ) (objects : Map ℕ ClientConn) (next : ℕ)
    → Linked clients objects next
    → Linked clients objects (next + 1)
Linked-later clients objects next h = record {
  held = h.held;
  fresh = λ ref above. h.fresh ref (omega arith);
}

pub open_session-IsLinked :
    (player ref : ℕ) (conn_id : Bytes) (port : ℤ) (buffered : Bytes) (sent : Bool) (s : Server)
    → IsLinked s
    → IsLinked (open_session player ref conn_id port buffered sent s).1
unfolding open_session forget
open_session-IsLinked player ref conn_id port buffered true s h =
    update_pending-IsLinked ref _ _ (Linked-later s.clients s.objects s.next_ref h)
open_session-IsLinked player ref conn_id port buffered false s h =
    update_pending-IsLinked ref _ _
      (update_pending-IsLinked ref _ _ (Linked-later s.clients s.objects s.next_ref h))

deliver-IsLinked :
    (conn : ℕ) (channel : Option ℕ) (s : Server) → IsLinked s → IsLinked (deliver conn channel s).0
unfolding deliver
deliver-IsLinked conn none s h = h
deliver-IsLinked conn (some channel) s h = elim (Option-cases (load channel s.channels)) [
  | inl gone ↦ rw (gone, deliver) h
  | inr (none, empty) ↦ rw (empty, deliver) h
  | inr (some other, full) ↦ rw (full, deliver) h
]

pub handle_data_conn-IsLinked :
    (conn : ℕ) (conn_id : Bytes) (s : Server)
    → IsLinked s
    → IsLinked (handle_data_conn conn conn_id s).0
unfolding handle_data_conn deliver
handle_data_conn-IsLinked conn conn_id s h = elim (Option-cases (find_pending conn_id s)) [
  | inl unknown ↦ rw (unknown, handle_data_conn) h
  | inr (ref, found) ↦
      rw (found, handle_data_conn) (deliver-IsLinked conn (pending_channel conn_id ref s) s h)
]

pub register_tunnel-IsLinked :
    (reg : TunnelRegistration) (s : Server) → IsLinked s → IsLinked (register_tunnel reg s).0
unfolding register_tunnel register_udp
register_tunnel-IsLinked reg s h = by_port reg.udp_public_port
  where
    by_port :
        (port : Option ℕ)
        → IsLinked
            (register_udp reg.tunnel_id reg.udp_local_port port (record s {
              subdomain_map = store reg.subdomain reg.tunnel_id s.subdomain_map;
              tunnel_mc_port = store reg.tunnel_id reg.mc_local_port s.tunnel_mc_port;
              tunnel_http_port = register_http reg.tunnel_id reg.http_local_port s.tunnel_http_port;
            })).0
    by_port none = h
    by_port (some port) = elim (Bool-cases (is_some (load port s.udp_listeners))) [
      | inl running ↦ rw running h
      | inr free ↦ rw free h
    ]

pub unregister_tunnel-IsLinked :
    (tunnel_id subdomain : Bytes) (port : Option ℕ) (s : Server)
    → IsLinked s
    → IsLinked (unregister_tunnel tunnel_id subdomain port s).0
unfolding unregister_tunnel release_udp
unregister_tunnel-IsLinked tunnel_id subdomain none s h =
    Linked-delete tunnel_id s.clients s.objects s.next_ref h
unregister_tunnel-IsLinked tunnel_id subdomain (some port) s h =
    Linked-delete tunnel_id s.clients s.objects s.next_ref h
