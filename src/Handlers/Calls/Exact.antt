-- ===== src/Handlers/Calls/Exact.antt =====
-- Over any sequence of requests the routing table is the one that the rows describe.
use void_link_tunnels.Base.{
  ◌≡◌, refl, sym, ◌∙◌, true, false, none, some, List, [], ◌∷◌, Bytes, bytes_eq, bytes_beq,
  bytes_beq_iff, Bool-cases, inl, inr,
}
use void_link_tunnels.Base.Lists.{All}
use void_link_tunnels.Base.Map.{load}
use void_link_tunnels.Models.{Tunnel}
use void_link_tunnels.Tunnel.Server.{Server}
use void_link_tunnels.Handlers.{World, get, start, stop, remove}
use void_link_tunnels.Handlers.Followed.{IsFollowed, IsSynced}
use void_link_tunnels.Handlers.Rows.{Distinct}
use void_link_tunnels.Services.Restore.{IsOther}
use void_link_tunnels.Handlers.Synced.{
  with_tunnel-IsSynced, start-IsSynced, stop-IsSynced, remove-IsSynced,
}
use void_link_tunnels.Handlers.Edit.{Limits, subdomain_exists, update}
use void_link_tunnels.Handlers.Edit.Kept.{update-IsSynced}
use void_link_tunnels.Handlers.Listing.{list_tunnels}
use void_link_tunnels.Handlers.Calls.{
  TunnelCall, lists, creates, reads, updates, removes, starts, stops, handle_tunnel, handle_all,
  IsCarriedOut, route_of,
}
use void_link_tunnels.Handlers.Calls.Clear.{
  IsClear, start_read-IsClear, stop_read-IsClear, update_read-IsClear, remove_read-IsClear,
  with_tunnel-IsClear,
}
use void_link_tunnels.Handlers.Calls.Created.{create-Growth, Growth-IsSynced, Growth-IsClear}

-- The rows are distinct, and each subdomain is routed as they say: to the tunnel that has it, if it
-- is active, and nowhere if none has it.
pub record IsExact (w : World) : Type 0 where
  pub synced : IsSynced w
  pub clear : IsClear w.tunnels w.server

-- A name that is another row's leads nowhere by these rows.
pub route_of-others :
    (t : Tunnel) (name : Bytes) (rows : List Tunnel)
    → t.subdomain ≡ name
    → All (IsOther t) rows
    → route_of name rows ≡ none
unfolding route_of
route_of-others t name [] named h = refl
route_of-others t name (u ∷ rows) named (hu, h) = elim (Bool-cases (bytes_beq u.subdomain name)) [
  | inl same ↦ absurd (hu.subdomain ((bytes_beq_iff u.subdomain name).0 same ∙ sym named))
  | inr other ↦ rw other (route_of-others t name rows named h)
]

-- The routing table, as a function of the rows.
pub load-route_of :
    (name : Bytes) (rows : List Tunnel) (s : Server)
    → Distinct rows
    → All (IsFollowed s) rows
    → (subdomain_exists name rows ≡ false → load name s.subdomain_map ≡ none)
    → load name s.subdomain_map ≡ route_of name rows
unfolding route_of subdomain_exists
load-route_of name [] s d h clear = clear refl
load-route_of name (t ∷ rows) s (fresh, d) (ht, h) clear =
    elim (Bool-cases (bytes_beq t.subdomain name)) [
      | inl same ↦
          let named : t.subdomain ≡ name = (bytes_beq_iff t.subdomain name).0 same in
          elim (Bool-cases t.is_active) [
            | inl active ↦ rw (same, active) (rw (named, active) at ht)
            | inr idle ↦
                rw (same, idle)
                  ((rw (named, idle) at ht) ∙ sym (route_of-others t name rows named fresh))
          ]
      | inr other ↦ rw other (load-route_of name rows s d h (λ e. clear (rw (other, e))))
    ]

handle_tunnel-IsExact :
    (cfg : Limits) (user : Bytes) (call : TunnelCall) (w : World)
    → IsCarriedOut (user, call)
    → IsExact w
    → IsExact (handle_tunnel cfg user call w).1
unfolding handle_tunnel list_tunnels get start stop remove update
handle_tunnel-IsExact cfg user (lists order_by true readable) w out e = e
handle_tunnel-IsExact cfg user (lists order_by false readable) w out e = e
handle_tunnel-IsExact cfg user (creates ch body now) w out e =
    let growth = create-Growth cfg ch body user now w in
    record {
      synced = Growth-IsSynced user w _ growth e.synced e.clear;
      clear = Growth-IsClear user w _ growth e.clear;
    }
handle_tunnel-IsExact cfg user (reads parsed up) w out e = record {
  synced = with_tunnel-IsSynced parsed user up w _ e.synced (λ id t found. e.synced);
  clear = with_tunnel-IsClear parsed user up w _ e.clear (λ id t found. e.clear);
}
handle_tunnel-IsExact cfg user (updates none body now up written) w out e = e
handle_tunnel-IsExact cfg user (updates (some id) (inl m) now up written) w out e = e
handle_tunnel-IsExact cfg user (updates (some id) (inr req) now up written) w out e = record {
  synced = update-IsSynced cfg.domain cfg.region (some id) (inr req) user now up written w e.synced;
  clear = with_tunnel-IsClear (some id) user up w _ e.clear (λ id t found.
      update_read-IsClear id user w t found e.clear cfg.domain cfg.region req now written);
}
handle_tunnel-IsExact cfg user (removes parsed up written) w out e = record {
  synced = rw out (remove-IsSynced parsed user up w e.synced);
  clear =
      with_tunnel-IsClear parsed user up w _ e.clear
        (λ id t found. remove_read-IsClear id user w t found e.clear written e.synced);
}
handle_tunnel-IsExact cfg user (starts parsed now up written) w out e = record {
  synced = start-IsSynced parsed user now up written w e.synced;
  clear =
      with_tunnel-IsClear parsed user up w _ e.clear
        (λ id t found. start_read-IsClear id user w t found e.clear now written);
}
handle_tunnel-IsExact cfg user (stops parsed now up written) w out e = record {
  synced = rw out (stop-IsSynced parsed user now up w e.synced);
  clear =
      with_tunnel-IsClear parsed user up w _ e.clear
        (λ id t found. stop_read-IsClear id user w t found e.clear now written);
}

handle_all-IsExact :
    (cfg : Limits) (calls : List (Bytes × TunnelCall)) (w : World)
    → All IsCarriedOut calls
    → IsExact w
    → IsExact (handle_all cfg calls w)
handle_all-IsExact cfg [] w out e = e
handle_all-IsExact cfg ((user, call) ∷ rest) w (o, out) e =
    handle_all-IsExact cfg rest _ out (handle_tunnel-IsExact cfg user call w o e)

-- Let users send any requests for tunnels, in any order, and let the database carry out the
-- statements of stops and deletions. Then the routing table of subdomains stays a function of the
-- rows: a subdomain leads to the tunnel that has it, if that is active, and else nowhere.
pub handle_all-route_of :
    (cfg : Limits) (calls : List (Bytes × TunnelCall)) (w : World) (name : Bytes)
    → All IsCarriedOut calls
    → IsExact w
    → load name (handle_all cfg calls w).server.subdomain_map
      ≡ route_of name (handle_all cfg calls w).tunnels
handle_all-route_of cfg calls w name out e =
    let exact = handle_all-IsExact cfg calls w out e in
    load-route_of name (handle_all cfg calls w).tunnels (handle_all cfg calls w).server
      exact.synced.distinct exact.synced.followed (exact.clear name)
