-- ===== src/Handlers/Calls/Clear.antt =====
-- A name that no row has is routed nowhere: what keeps this true.
use void_link_tunnels.Base.{
  ℕ, ◌≡◌, refl, sym, ◌∙◌, Bool, true, false, Option, none, some, List, [], ◌∷◌, Bytes, bytes_eq,
  bytes_beq, bytes_beq_iff, Bool-cases, Option-cases, inl, inr, arith, if◌then◌else◌,
}
use void_link_tunnels.Base.Lists.{All}
use void_link_tunnels.Base.Map.{load}
use void_link_tunnels.Models.{Tunnel, UpdateTunnelRequest}
use void_link_tunnels.Services.{start_tunnel, stop_tunnel}
use void_link_tunnels.Tunnel.Server.{Server}
use void_link_tunnels.Handlers.{
  World, Reply, select_tunnel, query_tunnel, set_active, delete_row, with_tunnel, start_read,
  stop_read, remove_read,
}
use void_link_tunnels.Handlers.Rows.{SameOrOther, All-select_tunnel, select_tunnel-SameOrOther}
use void_link_tunnels.Handlers.Followed.{
  IsFollowed, IsSynced, start_tunnel-route, stop_tunnel-route,
}
use void_link_tunnels.Handlers.Edit.{
  subdomain_exists, update_row, apply_update, update_read, bad_name,
}

abbrev pub IsClear : List Tunnel → Server → Type 0
IsClear rows s =
    (name : Bytes) → subdomain_exists name rows ≡ false → load name s.subdomain_map ≡ none

subdomain_exists-set_active :
    (active : Bool) (now : ℕ) (id name : Bytes) (rows : List Tunnel)
    → subdomain_exists name (set_active active now id rows) ≡ subdomain_exists name rows
unfolding subdomain_exists set_active
subdomain_exists-set_active active now id name [] = refl
subdomain_exists-set_active active now id name (t ∷ rows) =
    ground (arith, subdomain_exists-set_active active now id name rows)

subdomain_exists-update_row :
    (now : ℕ) (t : Tunnel) (name : Bytes) (rows : List Tunnel)
    → subdomain_exists name (update_row now t rows) ≡ subdomain_exists name rows
unfolding subdomain_exists update_row
subdomain_exists-update_row now t name [] = refl
subdomain_exists-update_row now t name (u ∷ rows) =
    ground (arith, subdomain_exists-update_row now t name rows)

-- A row that is found has its name.
subdomain_exists-select_tunnel :
    (id user name : Bytes) (rows : List Tunnel) (t : Tunnel)
    → select_tunnel id user rows ≡ some t
    → subdomain_exists name rows ≡ false
    → bytes_beq t.subdomain name ≡ false
unfolding subdomain_exists select_tunnel
subdomain_exists-select_tunnel id user name [] t e h = absurd (cc)
subdomain_exists-select_tunnel id user name (u ∷ rows) t e h =
    ground (arith, subdomain_exists-select_tunnel id user name rows t)

-- A name that is gone after the deletion of `t` was not there before, unless it is that of `t`.
subdomain_exists-delete_row :
    (name : Bytes) (t : Tunnel) (rows : List Tunnel)
    → All (SameOrOther t) rows
    → bytes_beq t.subdomain name ≡ false
    → subdomain_exists name (delete_row t.id rows) ≡ false
    → subdomain_exists name rows ≡ false
unfolding subdomain_exists delete_row
subdomain_exists-delete_row name t [] all other h = refl
subdomain_exists-delete_row name t (u ∷ rows) (inl same, all) other h =
    ground (arith, same, bytes_beq_iff u.id t.id, subdomain_exists-delete_row name t rows all other)
subdomain_exists-delete_row name t (u ∷ rows) (inr differs, all) other h =
    ground (
      arith,
      differs.id,
      bytes_beq_iff u.id t.id,
      subdomain_exists-delete_row name t rows all other,
    )

-- The routes of a name that is not the tunnel's.
start_other :
    (t : Tunnel) (s : Server) (name : Bytes)
    → bytes_beq t.subdomain name ≡ false
    → load name (start_tunnel t s).0.subdomain_map ≡ load name s.subdomain_map
start_other t s name other = start_tunnel-route t s name ∙ rw other

stop_other :
    (t : Tunnel) (s : Server) (name : Bytes)
    → bytes_beq t.subdomain name ≡ false
    → load name (stop_tunnel t s).0.subdomain_map ≡ load name s.subdomain_map
stop_other t s name other = stop_tunnel-route t s name ∙ rw other

stop_none :
    (t : Tunnel) (s : Server) (name : Bytes)
    → bytes_beq t.subdomain name ≡ true
    → load name (stop_tunnel t s).0.subdomain_map ≡ none
stop_none t s name same = stop_tunnel-route t s name ∙ rw same

-- The same after the deletion of a tunnel, which is stopped if it is active.
abbrev left : Tunnel → Server → Server
left t s = (if t.is_active then stop_tunnel t s else (s, [])).0

left_other :
    (t : Tunnel) (s : Server) (name : Bytes)
    → bytes_beq t.subdomain name ≡ false
    → load name (left t s).subdomain_map ≡ load name s.subdomain_map
unfolding stop_tunnel
left_other t s name other = elim (Bool-cases t.is_active) [
  | inl active ↦ rw active (stop_other t s name other)
  | inr idle ↦ rw idle
]

left_same :
    (t : Tunnel) (s : Server) (name : Bytes)
    → bytes_beq t.subdomain name ≡ true
    → IsFollowed s t
    → load name (left t s).subdomain_map ≡ none
unfolding stop_tunnel
left_same t s name same followed = elim (Bool-cases t.is_active) [
  | inl active ↦ rw active (stop_none t s name same)
  | inr idle ↦
      let named : t.subdomain ≡ name = (bytes_beq_iff t.subdomain name).0 same in
      rw idle (rw (named, idle) at followed)
]

module _ (id user : Bytes) (w : World) (t : Tunnel)
    (found : select_tunnel id user w.tunnels ≡ some t) (clear : IsClear w.tunnels w.server) where
  pub start_read-IsClear :
      (now : ℕ) (written : Bool)
      → IsClear (start_read now written w t).1.tunnels (start_read now written w t).1.server
  unfolding start_read start_tunnel stop_tunnel
  start_read-IsClear now written = elim (Bool-cases t.is_active) [
    | inl active ↦ rw active clear
    | inr idle ↦ elim (Bool-cases written) [
      | inl ok ↦
          rw (idle, ok)
            λ name gone.
              let before = sym (subdomain_exists-set_active true now t.id name w.tunnels) ∙ gone in
              let other = subdomain_exists-select_tunnel id user name w.tunnels t found before in
              start_other t w.server name other ∙ clear name before
      | inr failed ↦
          rw (idle, failed)
            λ name before.
              let other = subdomain_exists-select_tunnel id user name w.tunnels t found before in
              stop_other t (start_tunnel t w.server).0 name other
              ∙ start_other t w.server name other
              ∙ clear name before
    ]
  ]

  pub stop_read-IsClear :
      (now : ℕ) (written : Bool)
      → IsClear (stop_read now written w t).1.tunnels (stop_read now written w t).1.server
  unfolding stop_read stop_tunnel
  stop_read-IsClear now written = elim (Bool-cases t.is_active) [
    | inr idle ↦ rw idle clear
    | inl active ↦ elim (Bool-cases written) [
      | inl ok ↦
          rw (active, ok)
            λ name gone.
              let before = sym (subdomain_exists-set_active false now t.id name w.tunnels) ∙ gone in
              let other = subdomain_exists-select_tunnel id user name w.tunnels t found before in
              stop_other t w.server name other ∙ clear name before
      | inr failed ↦
          rw (active, failed)
            λ name before.
              let other = subdomain_exists-select_tunnel id user name w.tunnels t found before in
              stop_other t w.server name other ∙ clear name before
    ]
  ]

  pub update_read-IsClear :
      (domain region : Bytes) (req : UpdateTunnelRequest) (now : ℕ) (written : Bool)
      → IsClear
          (update_read domain region req now written w t).1.tunnels
          (update_read domain region req now written w t).1.server
  unfolding update_read
  update_read-IsClear domain region req now written = elim (Bool-cases t.is_active) [
    | inl active ↦ rw active clear
    | inr idle ↦ elim (Bool-cases (bad_name req.name)) [
      | inl bad ↦ rw (idle, bad) clear
      | inr good ↦ elim (Bool-cases written) [
        | inl ok ↦
            rw (idle, good, ok)
              λ name gone.
                clear name
                  (sym (subdomain_exists-update_row now (apply_update req t) name w.tunnels) ∙ gone)
        | inr failed ↦ rw (idle, good, failed) clear
      ]
    ]
  ]

  -- After a deletion: a name that no row has now is one that none had, or the tunnel's.
  pub remove_read-IsClear :
      (written : Bool)
      → IsSynced w
      → IsClear (remove_read written w t).1.tunnels (remove_read written w t).1.server
  unfolding remove_read
  remove_read-IsClear written synced = elim (Bool-cases written) [
    | inl ok ↦ rw ok λ name gone. elim (Bool-cases (bytes_beq t.subdomain name)) [
      | inl same ↦
          left_same t w.server name same
            (All-select_tunnel (IsFollowed w.server) id user w.tunnels t found synced.followed)
      | inr other ↦
          let before =
            subdomain_exists-delete_row name t w.tunnels
              (select_tunnel-SameOrOther id user w.tunnels t found synced.distinct) other gone in
          left_other t w.server name other ∙ clear name before
    ]
    | inr failed ↦ rw failed λ name before.
        let other = subdomain_exists-select_tunnel id user name w.tunnels t found before in
        left_other t w.server name other ∙ clear name before
  ]

-- What holds before the query and after each tunnel that it may find.
pub with_tunnel-IsClear :
    (parsed : Option Bytes) (user : Bytes) (up : Bool) (w : World) (k : Tunnel → Reply)
    → IsClear w.tunnels w.server
    → ((id : Bytes) (t : Tunnel)
        → select_tunnel id user w.tunnels ≡ some t
        → IsClear (k t).1.tunnels (k t).1.server)
    → IsClear (with_tunnel parsed user up w k).1.tunnels (with_tunnel parsed user up w k).1.server
unfolding with_tunnel query_tunnel
with_tunnel-IsClear none user up w k h hk = h
with_tunnel-IsClear (some id) user false w k h hk = h
with_tunnel-IsClear (some id) user true w k h hk =
    elim (Option-cases (select_tunnel id user w.tunnels)) [
      | inl n ↦ rw (n, with_tunnel) h
      | inr (t, found) ↦ rw (found, with_tunnel) (hk id t found)
    ]
