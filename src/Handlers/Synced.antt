-- ===== src/Handlers/Synced.antt =====
-- The routing tables follow the database: what `Start`, `Stop` and `Delete` keep true.
use void_link_tunnels.Base.{
  ℕ, ◌≡◌, ◌≢◌, refl, ◌∙◌, Bool, true, false, Option, none, some, Bytes, bytes_eq, nat_eq,
  bytes_beq_iff, Bool-cases, Option-cases, inl, inr,
}
use void_link_tunnels.Base.{arith, All, List, [], ◌∷◌, bytes_beq, ◌&&◌, ◌≢◌}
use void_link_tunnels.Base.Map.{load}
use void_link_tunnels.Models.{Tunnel}
use void_link_tunnels.Services.{start_tunnel, stop_tunnel}
use void_link_tunnels.Handlers.{
  World, Reply, select_tunnel, query_tunnel, delete_row, with_tunnel, start_read, start, stop_read,
  stop, remove_read, remove, get, only, not_found,
}
use void_link_tunnels.Handlers.Rows.{
  SameOrOther, select_tunnel-SameOrOther, All-set_active, Distinct-set_active, All-delete_row,
  Distinct-delete_row, delete_row-ids, All-zip,
}
use void_link_tunnels.Handlers.Followed.{
  IsFollowed, IsSynced, stop_tunnel-route, started_row, stopped_row, undone_row, left_row,
}

start_read-IsSynced :
    (id user : Bytes) (now : ℕ) (written : Bool) (w : World) (t : Tunnel)
    → select_tunnel id user w.tunnels ≡ some t
    → IsSynced w
    → IsSynced (start_read now written w t).1
unfolding start_read start_tunnel stop_tunnel
start_read-IsSynced id user now written w t e h =
    let rows = select_tunnel-SameOrOther id user w.tunnels t e h.distinct in
    elim (Bool-cases t.is_active) [
      | inl active ↦ rw active h
      | inr idle ↦ elim (Bool-cases written) [
        | inl ok ↦
            rw (idle, ok)
              (record {
                distinct = Distinct-set_active true now t.id w.tunnels h.distinct;
                followed =
                    All-set_active (IsFollowed (start_tunnel t w.server).0) true now t.id w.tunnels
                      (All-zip (SameOrOther t) (IsFollowed w.server) _ (started_row now t w.server)
                        w.tunnels rows h.followed);
              })
        | inr failed ↦
            rw (idle, failed)
              (record {
                distinct = h.distinct;
                followed =
                    All-zip (SameOrOther t) (IsFollowed w.server) _
                      (λ u. undone_row t w.server u idle) w.tunnels rows h.followed;
              })
      ]
    ]

stop_read-IsSynced :
    (id user : Bytes) (now : ℕ) (w : World) (t : Tunnel)
    → select_tunnel id user w.tunnels ≡ some t
    → IsSynced w
    → IsSynced (stop_read now true w t).1
unfolding stop_read stop_tunnel
stop_read-IsSynced id user now w t e h =
    let rows = select_tunnel-SameOrOther id user w.tunnels t e h.distinct in
    elim (Bool-cases t.is_active) [
      | inl active ↦ rw active (record {
        distinct = Distinct-set_active false now t.id w.tunnels h.distinct;
        followed = All-set_active (IsFollowed (stop_tunnel t w.server).0) false now t.id w.tunnels (
            All-zip (SameOrOther t) (IsFollowed w.server) _ (stopped_row now t w.server) w.tunnels
              rows h.followed);
      })
      | inr idle ↦ rw idle h
    ]

remove_read-IsSynced :
    (id user : Bytes) (w : World) (t : Tunnel)
    → select_tunnel id user w.tunnels ≡ some t
    → IsSynced w
    → IsSynced (remove_read true w t).1
unfolding remove_read
remove_read-IsSynced id user w t e h =
    let rows = select_tunnel-SameOrOther id user w.tunnels t e h.distinct in
    let kept = All-delete_row (SameOrOther t) t.id w.tunnels rows in
    record {
      distinct = Distinct-delete_row t.id w.tunnels h.distinct;
      followed =
          All-zip (λ u. (u.id ≢ t.id) × SameOrOther t u) (IsFollowed w.server) _
            (left_row t w.server) (delete_row t.id w.tunnels)
            (All-zip _ (SameOrOther t) _ (λ u ne same. (ne, same)) (delete_row t.id w.tunnels)
              (delete_row-ids t.id w.tunnels) kept)
            (All-delete_row (IsFollowed w.server) t.id w.tunnels h.followed);
    }

-- What holds before the query and after each tunnel that it may find holds after the handler.
pub with_tunnel-IsSynced :
    (parsed : Option Bytes) (user : Bytes) (up : Bool) (w : World) (k : Tunnel → Reply)
    → IsSynced w
    → ((id : Bytes) (t : Tunnel) → select_tunnel id user w.tunnels ≡ some t → IsSynced (k t).1)
    → IsSynced (with_tunnel parsed user up w k).1
unfolding with_tunnel query_tunnel
with_tunnel-IsSynced none user up w k h hk = h
with_tunnel-IsSynced (some id) user false w k h hk = h
with_tunnel-IsSynced (some id) user true w k h hk =
    elim (Option-cases (select_tunnel id user w.tunnels)) [
      | inl n ↦ rw (n, with_tunnel) h
      | inr (t, found) ↦ rw (found, with_tunnel) (hk id t found)
    ]

-- Suppose that no two rows share an id or a subdomain, and that the subdomains of the active rows
-- are routed to their tunnels and those of the others nowhere. A start keeps this true on every
-- path, also if the tunnel is not the user's, is active, or if the database fails before or after
-- the tunnel is registered.
pub start-IsSynced :
    (parsed : Option Bytes) (user : Bytes) (now : ℕ) (up written : Bool) (w : World)
    → IsSynced w
    → IsSynced (start parsed user now up written w).1
unfolding start
start-IsSynced parsed user now up written w h =
    with_tunnel-IsSynced parsed user up w (start_read now written w) h
      (λ id t e. start_read-IsSynced id user now written w t e h)

-- A stop whose update the database carries out keeps true, on every path, that the rows are distinct
-- and that exactly the subdomains of the active rows among them are routed, to their tunnels.
pub stop-IsSynced :
    (parsed : Option Bytes) (user : Bytes) (now : ℕ) (up : Bool) (w : World)
    → IsSynced w
    → IsSynced (stop parsed user now up true w).1
unfolding stop
stop-IsSynced parsed user now up w h =
    with_tunnel-IsSynced parsed user up w (stop_read now true w) h
      (λ id t e. stop_read-IsSynced id user now w t e h)

-- A deletion that the database carries out keeps true, on every path, that the rows are distinct and
-- that exactly the subdomains of the active rows among them are routed, to their tunnels.
pub remove-IsSynced :
    (parsed : Option Bytes) (user : Bytes) (up : Bool) (w : World)
    → IsSynced w
    → IsSynced (remove parsed user up true w).1
unfolding remove
remove-IsSynced parsed user up w h =
    with_tunnel-IsSynced parsed user up w (remove_read true w) h
      (λ id t e. remove_read-IsSynced id user w t e h)

-- A user stops an active tunnel of theirs, and the update fails: the rows are as before, so the
-- tunnel stays active in the database, but its subdomain is routed nowhere.
pub stop-failed :
    (id user : Bytes) (now : ℕ) (w : World) (t : Tunnel)
    → select_tunnel id user w.tunnels ≡ some t
    → t.is_active ≡ true
    → let w' = (stop (some id) user now true false w).1 in
      (w'.tunnels ≡ w.tunnels) × (load t.subdomain w'.server.subdomain_map ≡ none)
unfolding stop with_tunnel query_tunnel stop_read stop_tunnel
stop-failed id user now w t e active =
    let route = stop_tunnel-route t w.server t.subdomain in
    rw (e, with_tunnel)
      (rw active (refl, route ∙ rw ((bytes_beq_iff t.subdomain t.subdomain).1 refl)))

with_tunnel-refused :
    (id user : Bytes) (up : Bool) (w : World) (k : Tunnel → Reply)
    → select_tunnel id user w.tunnels ≡ none
    → with_tunnel (some id) user up w k ≡ only w not_found
unfolding with_tunnel query_tunnel
with_tunnel-refused id user up w k e = elim (Bool-cases up) [
  | inl good ↦ rw (good, e, with_tunnel, query_tunnel)
  | inr bad ↦ rw (bad, with_tunnel, query_tunnel)
]

select_tunnel-not_theirs :
    (id user : Bytes) (rows : List Tunnel)
    → All (λ t. t.id ≡ id → t.user_id ≢ user) rows
    → select_tunnel id user rows ≡ none
unfolding select_tunnel
select_tunnel-not_theirs id user [] h = refl
select_tunnel-not_theirs id user (t ∷ rows) (other, h) =
    elim (Bool-cases (bytes_beq t.id id && bytes_beq t.user_id user)) [
      | inr miss ↦ rw miss (select_tunnel-not_theirs id user rows h)
      | inl hit ↦ absurd (
          other ((bytes_beq_iff t.id id).0 (ground arith))
            ((bytes_beq_iff t.user_id user).0 (ground arith)))
    ]

-- Each row with the id, if there is one, is another user's: reading, starting, stopping and deleting
-- it are all answered with 404, and change neither the database nor the server nor anything outside.
pub with_tunnel-not_found :
    (domain id user : Bytes) (now : ℕ) (up written : Bool) (w : World)
    → All (λ t. t.id ≡ id → t.user_id ≢ user) w.tunnels
    → (get domain (some id) user up w ≡ only w not_found)
      × (start (some id) user now up written w ≡ only w not_found)
      × (stop (some id) user now up written w ≡ only w not_found)
      × (remove (some id) user up written w ≡ only w not_found)
unfolding get start stop remove
with_tunnel-not_found domain id user now up written w h =
    let e = select_tunnel-not_theirs id user w.tunnels h in
    (
      with_tunnel-refused id user up w _ e,
      with_tunnel-refused id user up w _ e,
      with_tunnel-refused id user up w _ e,
      with_tunnel-refused id user up w _ e,
    )
