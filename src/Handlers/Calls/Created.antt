-- ===== src/Handlers/Calls/Created.antt =====
-- What `Create` does to the rows: nothing, or one inactive row more, of the user.
use void_link_tunnels.Base.{
  ℕ, ◌≡◌, refl, ◌∙◌, Bool, false, Option, none, some, List, [], ◌∷◌, Bytes, ◌||◌, bytes_eq,
  bytes_beq, bytes_beq_iff, Bool-cases, Option-cases, inl, inr, arith, ◌⊎◌, leb,
}
use void_link_tunnels.Base.Lists.{All}
use void_link_tunnels.Models.{Tunnel, CreateTunnelRequest}
use void_link_tunnels.Services.Restore.{IsOther}
use void_link_tunnels.Handlers.{World, allocate_udp_port, port_exists}
use void_link_tunnels.Handlers.Followed.{IsSynced}
use void_link_tunnels.Handlers.Calls.Clear.{IsClear}
use void_link_tunnels.Handlers.Edit.{
  Limits, Choices, count_rows, new_row, subdomain_exists, id_exists, find_subdomain, insert_row,
  create_named, create,
}

pub data Growth (user : Bytes) (w w' : World) : Type 0 where
  same : w' ≡ w → Growth user w w'
  grown :
      (t : Tunnel)
      → t.user_id ≡ user
      → t.is_active ≡ false
      → id_exists t.id w.tunnels ≡ false
      → subdomain_exists t.subdomain w.tunnels ≡ false
      → w' ≡ record w { tunnels = t ∷ w.tunnels }
      → Growth user w w'

or_false : (a b c : Bool) → (a || b || c) ≡ false → (a ≡ false) × (b ≡ false)
or_false a b c h = ground arith

insert_row-Growth :
    (cfg : Limits) (req : CreateTunnelRequest) (user name : Bytes) (now port : ℕ)
    (id : Option Bytes) (w : World)
    → Growth user w (insert_row cfg req user now name port id w).1
unfolding insert_row
insert_row-Growth cfg req user name now port none w = same refl
insert_row-Growth cfg req user name now port (some id) w =
    elim (Bool-cases
      (id_exists id w.tunnels || subdomain_exists name w.tunnels || port_exists port w.tunnels)) [
        | inl taken ↦ rw taken (same refl)
        | inr free ↦
            let (fresh, unnamed) = or_false _ _ _ free in
            rw free (grown (new_row cfg req user now id name port) refl refl fresh unnamed refl)
      ]

create_named-Growth :
    (cfg : Limits) (ch : Choices) (req : CreateTunnelRequest) (user : Bytes) (now : ℕ) (w : World)
    → Growth user w (create_named cfg ch req user now w).1
unfolding create_named
create_named-Growth cfg ch req user now w = elim (Option-cases (find_subdomain ch w.tunnels 0 10)) [
  | inl n ↦ rw (n, create_named) (same refl)
  | inr (name, found) ↦ elim (Bool-cases (bytes_beq name [])) [
    | inl empty ↦ rw (found, empty, create_named) (same refl)
    | inr named ↦
        elim (Option-cases (allocate_udp_port ch.ports_up cfg.min_port cfg.max_port w.tunnels)) [
          | inl n ↦ rw (found, named, n, create_named) (same refl)
          | inr (port, free) ↦
              rw (found, named, free, create_named)
                (insert_row-Growth cfg req user name now port ch.inserted w)
        ]
  ]
]

pub create-Growth :
    (cfg : Limits) (ch : Choices) (body : Bytes ⊎ CreateTunnelRequest) (user : Bytes) (now : ℕ)
    (w : World)
    → Growth user w (create cfg ch body user now w).1
unfolding create create_named
create-Growth cfg ch (inl e) user now w = same refl
create-Growth cfg ch (inr req) user now w = elim (Bool-cases ch.counted) [
  | inl counted ↦ elim (Bool-cases (leb cfg.max_tunnels (count_rows user w.tunnels))) [
    | inl full ↦ rw (counted, full) (same refl)
    | inr room ↦ rw (counted, room) (create_named-Growth cfg ch req user now w)
  ]
  | inr failed ↦ rw failed (same refl)
]

-- A row with an id and a subdomain that no row has is another than all of them.
All-IsOther :
    (t : Tunnel) (rows : List Tunnel)
    → id_exists t.id rows ≡ false
    → subdomain_exists t.subdomain rows ≡ false
    → All (IsOther t) rows
unfolding id_exists subdomain_exists
All-IsOther t [] fresh free = tt
All-IsOther t (u ∷ rows) fresh free = (
  record {
    id = λ e. absurd (ground (arith, bytes_beq_iff u.id t.id));
    subdomain = λ e. absurd (ground (arith, bytes_beq_iff u.subdomain t.subdomain));
  },
  All-IsOther t rows (ground arith) (ground arith),
)

pub Growth-IsSynced :
    (user : Bytes) (w w' : World)
    → Growth user w w'
    → IsSynced w
    → IsClear w.tunnels w.server
    → IsSynced w'
Growth-IsSynced user w w' (same e) synced clear = rw e synced
Growth-IsSynced user w w' (grown t own idle fresh free e) synced clear = rw e (record {
  distinct = (All-IsOther t w.tunnels fresh free, synced.distinct);
  followed = (clear t.subdomain free ∙ rw idle, synced.followed);
})

pub Growth-IsClear :
    (user : Bytes) (w w' : World)
    → Growth user w w'
    → IsClear w.tunnels w.server
    → IsClear w'.tunnels w'.server
unfolding subdomain_exists
Growth-IsClear user w w' (same e) clear = rw e clear
Growth-IsClear user w w' (grown t own idle fresh free e) clear =
    rw e (λ name none_has. clear name (ground arith))
