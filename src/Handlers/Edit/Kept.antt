-- ===== src/Handlers/Edit/Kept.antt =====
-- What `Update` keeps of the rows and of the routing tables that follow them.
use void_link_tunnels.Base.{
  ℕ, ◌≡◌, refl, ◌∙◌, sym, Bool, Option, none, some, List, [], ◌∷◌, Bytes, All, Bool-cases, ◌⊎◌, inl,
  inr, if◌then◌else◌, ◌==◌, bytes_eq, bytes_beq,
}
use void_link_tunnels.Models.{Tunnel, UpdateTunnelRequest}
use void_link_tunnels.Services.Restore.{IsOther}
use void_link_tunnels.Tunnel.Server.{Server}
use void_link_tunnels.Handlers.{World}
use void_link_tunnels.Handlers.Rows.{Distinct, All-map}
use void_link_tunnels.Handlers.Synced.{with_tunnel-IsSynced}
use void_link_tunnels.Handlers.Followed.{IsSynced, IsFollowed}
use void_link_tunnels.Handlers.Edit.{apply_update, bad_name, update_row, update_read, update}

-- What the statement does to one row.
abbrev edited : ℕ → Tunnel → Tunnel → Tunnel
edited now t u =
    if u.id == t.id
    then record u {
      name = t.name;
      mc_local_port = t.mc_local_port;
      http_local_port = t.http_local_port;
      udp_local_port = t.udp_local_port;
      updated_at = now;
    }
    else u

edited-keys :
    (now : ℕ) (t u : Tunnel)
    → ((edited now t u).id ≡ u.id)
      × ((edited now t u).subdomain ≡ u.subdomain)
      × ((edited now t u).is_active ≡ u.is_active)
edited-keys now t u = elim (Bool-cases (bytes_beq u.id t.id)) [
  | inl same ↦ rw same (refl, refl, refl)
  | inr other ↦ rw other (refl, refl, refl)
]

All-update_row :
    (Q : Tunnel → Type 0) (now : ℕ) (t : Tunnel) (rows : List Tunnel)
    → All (λ u. Q (edited now t u)) rows
    → All Q (update_row now t rows)
unfolding update_row
All-update_row Q now t [] h = tt
All-update_row Q now t (u ∷ rows) (hu, h) = (hu, All-update_row Q now t rows h)

IsOther-edited :
    (now : ℕ) (t a b : Tunnel) → IsOther a b → IsOther (edited now t a) (edited now t b)
IsOther-edited now t a b h =
    let (ia, sa, _) = edited-keys now t a in
    let (ib, sb, _) = edited-keys now t b in
    record { id = λ e. h.id (sym ib ∙ e ∙ ia); subdomain = λ e. h.subdomain (sym sb ∙ e ∙ sa) }

Distinct-update_row :
    (now : ℕ) (t : Tunnel) (rows : List Tunnel) → Distinct rows → Distinct (update_row now t rows)
unfolding update_row
Distinct-update_row now t [] d = tt
Distinct-update_row now t (u ∷ rows) (fresh, d) = (
  All-update_row (IsOther (edited now t u)) now t rows
      (All-map (IsOther u) _ (IsOther-edited now t u) rows fresh),
  Distinct-update_row now t rows d,
)

IsFollowed-edited :
    (now : ℕ) (t : Tunnel) (s : Server) (u : Tunnel)
    → IsFollowed s u
    → IsFollowed s (edited now t u)
IsFollowed-edited now t s u h = elim (Bool-cases (bytes_beq u.id t.id)) [
  | inl same ↦ rw same h
  | inr other ↦ rw other h
]

update_read-IsSynced :
    (domain region : Bytes) (req : UpdateTunnelRequest) (now : ℕ) (written : Bool) (w : World)
    (t : Tunnel)
    → IsSynced w
    → IsSynced (update_read domain region req now written w t).1
unfolding update_read
update_read-IsSynced domain region req now written w t h = elim (Bool-cases t.is_active) [
  | inl active ↦ rw active h
  | inr idle ↦ elim (Bool-cases (bad_name req.name)) [
    | inl bad ↦ rw (idle, bad) h
    | inr good ↦ elim (Bool-cases written) [
      | inl ok ↦
          rw (idle, good, ok)
            (record {
              distinct = Distinct-update_row now (apply_update req t) w.tunnels h.distinct;
              followed = All-update_row (IsFollowed w.server) now (apply_update req t) w.tunnels (
                  All-map (IsFollowed w.server) _
                    (IsFollowed-edited now (apply_update req t) w.server) w.tunnels h.followed);
            })
      | inr failed ↦ rw (idle, good, failed) h
    ]
  ]
]

-- A change of a tunnel keeps true that the rows are distinct and that exactly the subdomains of the
-- active rows among them are routed, on every path, whatever the request holds and whether or not
-- the database carries it out.
pub update-IsSynced :
    (domain region : Bytes) (parsed : Option Bytes) (body : Bytes ⊎ UpdateTunnelRequest)
    (user : Bytes) (now : ℕ) (up written : Bool) (w : World)
    → IsSynced w
    → IsSynced (update domain region parsed body user now up written w).1
unfolding update
update-IsSynced domain region none body user now up written w h = h
update-IsSynced domain region (some id) (inl e) user now up written w h = h
update-IsSynced domain region (some id) (inr req) user now up written w h =
    with_tunnel-IsSynced (some id) user up w _ h
      (λ i t e. update_read-IsSynced domain region req now written w t h)
