-- ===== src/Handlers/Calls/Tenants.antt =====
-- A request of one user leaves the rows of the others as they are.
use void_link_tunnels.Base.{
  ℕ, ◌≡◌, ◌≢◌, refl, sym, ◌∙◌, Bool, true, false, Option, none, some, List, [], ◌∷◌, Bytes,
  bytes_eq, bytes_beq_iff, Bool-cases, Option-cases, inl, inr, arith,
}
use void_link_tunnels.Base.Lists.{All}
use void_link_tunnels.Models.{Tunnel, UpdateTunnelRequest}
use void_link_tunnels.Handlers.{
  World, Reply, select_tunnel, query_tunnel, set_active, delete_row, with_tunnel, get, start, stop,
  remove, start_read, stop_read, remove_read,
}
use void_link_tunnels.Handlers.Rows.{Distinct, SameOrOther, select_tunnel-SameOrOther}
use void_link_tunnels.Handlers.Edit.{
  Limits, update_row, apply_update, update_read, update, bad_name,
}
use void_link_tunnels.Handlers.Listing.{rows_of, list_tunnels}
use void_link_tunnels.Handlers.Calls.{
  TunnelCall, lists, creates, reads, updates, removes, starts, stops, handle_tunnel,
}
use void_link_tunnels.Handlers.Calls.Created.{Growth, same, grown, create-Growth}

-- The row that is found is the user's.
select_tunnel-owner :
    (id user : Bytes) (rows : List Tunnel) (t : Tunnel)
    → select_tunnel id user rows ≡ some t
    → t.user_id ≡ user
unfolding select_tunnel
select_tunnel-owner id user [] t e = absurd (cc)
select_tunnel-owner id user (u ∷ rows) t e =
    ground (arith, bytes_beq_iff u.user_id user, select_tunnel-owner id user rows t)

module _ (t : Tunnel) (other : Bytes) (foreign : t.user_id ≢ other) where
  -- The statements of the handlers reach the row `t` only.
  rows_of-set_active :
      (active : Bool) (now : ℕ) (rows : List Tunnel)
      → All (SameOrOther t) rows
      → rows_of other (set_active active now t.id rows) ≡ rows_of other rows
  unfolding rows_of set_active
  rows_of-set_active active now [] all = refl
  rows_of-set_active active now (u ∷ rows) (inl e, all) =
      ground (arith, e, rows_of-set_active active now rows all, bytes_beq_iff t.user_id other)
  rows_of-set_active active now (u ∷ rows) (inr differs, all) =
      ground (arith, differs.id, rows_of-set_active active now rows all, bytes_beq_iff u.id t.id)

  rows_of-update_row :
      (now : ℕ) (t' : Tunnel) (rows : List Tunnel)
      → t'.id ≡ t.id
      → All (SameOrOther t) rows
      → rows_of other (update_row now t' rows) ≡ rows_of other rows
  unfolding rows_of update_row
  rows_of-update_row now t' [] e all = refl
  rows_of-update_row now t' (u ∷ rows) e (inl e', all) =
      ground (arith, e', rows_of-update_row now t' rows e all, bytes_beq_iff t.user_id other)
  rows_of-update_row now t' (u ∷ rows) e (inr differs, all) =
      ground (arith, differs.id, rows_of-update_row now t' rows e all, bytes_beq_iff u.id t'.id)

  rows_of-delete_row :
      (rows : List Tunnel)
      → All (SameOrOther t) rows
      → rows_of other (delete_row t.id rows) ≡ rows_of other rows
  unfolding rows_of delete_row
  rows_of-delete_row [] all = refl
  rows_of-delete_row (u ∷ rows) (inl e, all) =
      ground (arith, e, rows_of-delete_row rows all, bytes_beq_iff t.user_id other)
  rows_of-delete_row (u ∷ rows) (inr differs, all) =
      ground (arith, differs.id, rows_of-delete_row rows all, bytes_beq_iff u.id t.id)

-- What is left of the others' rows after each of the handlers.
module _ (other : Bytes) (w : World) (t : Tunnel) (foreign : t.user_id ≢ other)
    (only_one : All (SameOrOther t) w.tunnels) where
  start_read-rows_of :
      (now : ℕ) (written : Bool)
      → rows_of other (start_read now written w t).1.tunnels ≡ rows_of other w.tunnels
  unfolding start_read
  start_read-rows_of now written = elim (Bool-cases t.is_active) [
    | inl active ↦ rw active
    | inr idle ↦ elim (Bool-cases written) [
      | inl ok ↦ rw (idle, ok) (rows_of-set_active t other foreign true now w.tunnels only_one)
      | inr failed ↦ rw (idle, failed)
    ]
  ]

  stop_read-rows_of :
      (now : ℕ) (written : Bool)
      → rows_of other (stop_read now written w t).1.tunnels ≡ rows_of other w.tunnels
  unfolding stop_read
  stop_read-rows_of now written = elim (Bool-cases t.is_active) [
    | inr idle ↦ rw idle
    | inl active ↦ elim (Bool-cases written) [
      | inl ok ↦ rw (active, ok) (rows_of-set_active t other foreign false now w.tunnels only_one)
      | inr failed ↦ rw (active, failed)
    ]
  ]

  remove_read-rows_of :
      (written : Bool) → rows_of other (remove_read written w t).1.tunnels ≡ rows_of other w.tunnels
  unfolding remove_read
  remove_read-rows_of true = rows_of-delete_row t other foreign w.tunnels only_one
  remove_read-rows_of false = refl

  update_read-rows_of :
      (domain region : Bytes) (req : UpdateTunnelRequest) (now : ℕ) (written : Bool)
      → rows_of other (update_read domain region req now written w t).1.tunnels
        ≡ rows_of other w.tunnels
  unfolding update_read apply_update
  update_read-rows_of domain region req now written = elim (Bool-cases t.is_active) [
    | inl active ↦ rw active
    | inr idle ↦ elim (Bool-cases (bad_name req.name)) [
      | inl bad ↦ rw (idle, bad)
      | inr good ↦ elim (Bool-cases written) [
        | inl ok ↦
            rw (idle, good, ok)
              (rows_of-update_row t other foreign now (apply_update req t) w.tunnels refl only_one)
        | inr failed ↦ rw (idle, good, failed)
      ]
    ]
  ]

with_tunnel-rows_of :
    (parsed : Option Bytes) (user other : Bytes) (up : Bool) (w : World) (k : Tunnel → Reply)
    → user ≢ other
    → Distinct w.tunnels
    → ((t : Tunnel)
        → t.user_id ≢ other
        → All (SameOrOther t) w.tunnels
        → rows_of other (k t).1.tunnels ≡ rows_of other w.tunnels)
    → rows_of other (with_tunnel parsed user up w k).1.tunnels ≡ rows_of other w.tunnels
unfolding with_tunnel query_tunnel
with_tunnel-rows_of none user other up w k differ d hk = refl
with_tunnel-rows_of (some id) user other false w k differ d hk = refl
with_tunnel-rows_of (some id) user other true w k differ d hk =
    elim (Option-cases (select_tunnel id user w.tunnels)) [
      | inl n ↦ rw (n, with_tunnel)
      | inr (t, found) ↦
          let owner = select_tunnel-owner id user w.tunnels t found in
          rw (found, with_tunnel)
            (hk t (λ e. differ (sym owner ∙ e))
              (select_tunnel-SameOrOther id user w.tunnels t found d))
    ]

Growth-rows_of :
    (user other : Bytes) (w w' : World)
    → user ≢ other
    → Growth user w w'
    → rows_of other w'.tunnels ≡ rows_of other w.tunnels
unfolding rows_of
Growth-rows_of user other w w' differ (same e) = rw e
Growth-rows_of user other w w' differ (grown t own idle fresh free e) =
    rw e (ground (arith, own, bytes_beq_iff t.user_id other))

-- Where no two rows share an id or a subdomain, a request of one user leaves the rows of any other
-- user as they are.
pub handle_tunnel-rows_of :
    (cfg : Limits) (user other : Bytes) (call : TunnelCall) (w : World)
    → user ≢ other
    → Distinct w.tunnels
    → rows_of other (handle_tunnel cfg user call w).1.tunnels ≡ rows_of other w.tunnels
unfolding handle_tunnel list_tunnels get start stop remove update
handle_tunnel-rows_of cfg user other (lists order_by true readable) w differ d = refl
handle_tunnel-rows_of cfg user other (lists order_by false readable) w differ d = refl
handle_tunnel-rows_of cfg user other (creates ch body now) w differ d =
    Growth-rows_of user other w _ differ (create-Growth cfg ch body user now w)
handle_tunnel-rows_of cfg user other (reads parsed up) w differ d =
    with_tunnel-rows_of parsed user other up w _ differ d (λ t foreign one. refl)
handle_tunnel-rows_of cfg user other (updates none body now up written) w differ d = refl
handle_tunnel-rows_of cfg user other (updates (some id) (inl m) now up written) w differ d = refl
handle_tunnel-rows_of cfg user other (updates (some id) (inr req) now up written) w differ d =
    with_tunnel-rows_of (some id) user other up w _ differ d (λ t foreign one.
      update_read-rows_of other w t foreign one cfg.domain cfg.region req now written)
handle_tunnel-rows_of cfg user other (removes parsed up written) w differ d =
    with_tunnel-rows_of parsed user other up w _ differ d
      (λ t foreign one. remove_read-rows_of other w t foreign one written)
handle_tunnel-rows_of cfg user other (starts parsed now up written) w differ d =
    with_tunnel-rows_of parsed user other up w _ differ d
      (λ t foreign one. start_read-rows_of other w t foreign one now written)
handle_tunnel-rows_of cfg user other (stops parsed now up written) w differ d =
    with_tunnel-rows_of parsed user other up w _ differ d
      (λ t foreign one. stop_read-rows_of other w t foreign one now written)
