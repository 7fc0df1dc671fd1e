-- ===== src/Handlers/Rows.antt =====
-- What the statements on the table `tunnels` keep of its rows.
use mathlib.Core.Path.{subst}
use void_link_tunnels.Base.{
  ℕ, ◌≡◌, ◌≢◌, refl, ◌∙◌, sym, Bool, ◌&&◌, some, List, [], ◌∷◌, Bytes, All, arith, ◌==◌, bytes_eq,
  nat_eq, bytes_beq, bytes_beq_iff, Bool-cases, inl, inr, if◌then◌else◌, ◌⊎◌,
}
use void_link_tunnels.Models.{Tunnel}
use void_link_tunnels.Services.Restore.{IsOther}
use void_link_tunnels.Handlers.{select_tunnel, set_active, delete_row}

-- The rows of a table, each an other row than those behind it.
abbrev pub Distinct : List Tunnel → Type 0
Distinct [] = Unit
Distinct (t ∷ rows) = All (IsOther t) rows × Distinct rows

-- A row is the one given, or another.
abbrev pub SameOrOther : Tunnel → Tunnel → Type 0
SameOrOther t u = (u ≡ t) ⊎ IsOther t u

pub IsOther-sym : (a b : Tunnel) → IsOther a b → IsOther b a
IsOther-sym a b h = record { id = λ e. h.id (sym e); subdomain = λ e. h.subdomain (sym e) }

pub All-map :
    (P Q : Tunnel → Type 0)
    → ((u : Tunnel) → P u → Q u)
    → (rows : List Tunnel) → All P rows
    → All Q rows
All-map P Q f [] h = tt
All-map P Q f (u ∷ rows) (hu, h) = (f u hu, All-map P Q f rows h)

-- The value of a predicate at the row that is found.
pub All-select_tunnel :
    (P : Tunnel → Type 0) (id user : Bytes) (rows : List Tunnel) (t : Tunnel)
    → select_tunnel id user rows ≡ some t
    → All P rows
    → P t
unfolding select_tunnel
All-select_tunnel P id user [] t e h = absurd (cc)
All-select_tunnel P id user (u ∷ rows) t e (hu, h) =
    elim (Bool-cases (bytes_beq u.id id && bytes_beq u.user_id user)) [
      | inl here ↦ subst P (ground arith) hu
      | inr there ↦ All-select_tunnel P id user rows t (ground arith) h
    ]

pub select_tunnel-SameOrOther :
    (id user : Bytes) (rows : List Tunnel) (t : Tunnel)
    → select_tunnel id user rows ≡ some t
    → Distinct rows
    → All (SameOrOther t) rows
unfolding select_tunnel
select_tunnel-SameOrOther id user [] t e d = tt
select_tunnel-SameOrOther id user (u ∷ rows) t e (fresh, d) =
    elim (Bool-cases (bytes_beq u.id id && bytes_beq u.user_id user)) [
      | inl here ↦
          let same : u ≡ t = ground arith in
          (
            inl same,
            All-map (IsOther u) (SameOrOther t) (λ v h. inr (subst (λ a. IsOther a v) same h)) rows
                fresh,
          )
      | inr there ↦
          let found : select_tunnel id user rows ≡ some t = ground arith in
          (
            inr (IsOther-sym u t (All-select_tunnel (IsOther u) id user rows t found fresh)),
            select_tunnel-SameOrOther id user rows t found d,
          )
    ]

-- What the statements do to one row.
abbrev pub activated : Bool → ℕ → Bytes → Tunnel → Tunnel
activated active now id t =
    if t.id == id then record t { is_active = active; updated_at = now } else t

pub activated-keys :
    (active : Bool) (now : ℕ) (id : Bytes) (t : Tunnel)
    → ((activated active now id t).id ≡ t.id)
      × ((activated active now id t).subdomain ≡ t.subdomain)
activated-keys active now id t = elim (Bool-cases (bytes_beq t.id id)) [
  | inl same ↦ rw same (refl, refl)
  | inr other ↦ rw other (refl, refl)
]

pub All-set_active :
    (Q : Tunnel → Type 0) (active : Bool) (now : ℕ) (id : Bytes) (rows : List Tunnel)
    → All (λ u. Q (activated active now id u)) rows
    → All Q (set_active active now id rows)
unfolding set_active
All-set_active Q active now id [] h = tt
All-set_active Q active now id (u ∷ rows) (hu, h) = (hu, All-set_active Q active now id rows h)

pub IsOther-activated :
    (active : Bool) (now : ℕ) (id : Bytes) (a b : Tunnel)
    → IsOther a b
    → IsOther (activated active now id a) (activated active now id b)
IsOther-activated active now id a b h =
    let (ia, sa) = activated-keys active now id a in
    let (ib, sb) = activated-keys active now id b in
    record { id = λ e. h.id (sym ib ∙ e ∙ ia); subdomain = λ e. h.subdomain (sym sb ∙ e ∙ sa) }

pub Distinct-set_active :
    (active : Bool) (now : ℕ) (id : Bytes) (rows : List Tunnel)
    → Distinct rows
    → Distinct (set_active active now id rows)
unfolding set_active
Distinct-set_active active now id [] d = tt
Distinct-set_active active now id (u ∷ rows) (fresh, d) = (
  All-set_active (IsOther (activated active now id u)) active now id rows
      (All-map (IsOther u) _ (IsOther-activated active now id u) rows fresh),
  Distinct-set_active active now id rows d,
)

pub All-delete_row :
    (P : Tunnel → Type 0) (id : Bytes) (rows : List Tunnel)
    → All P rows
    → All P (delete_row id rows)
unfolding delete_row
All-delete_row P id [] h = tt
All-delete_row P id (u ∷ rows) (hu, h) = elim (Bool-cases (bytes_beq u.id id)) [
  | inl same ↦ rw same (All-delete_row P id rows h)
  | inr other ↦ rw other (hu, All-delete_row P id rows h)
]

pub Distinct-delete_row :
    (id : Bytes) (rows : List Tunnel) → Distinct rows → Distinct (delete_row id rows)
unfolding delete_row
Distinct-delete_row id [] d = tt
Distinct-delete_row id (u ∷ rows) (fresh, d) = elim (Bool-cases (bytes_beq u.id id)) [
  | inl same ↦ rw same (Distinct-delete_row id rows d)
  | inr other ↦ rw other (All-delete_row (IsOther u) id rows fresh, Distinct-delete_row id rows d)
]

-- The rows that are left have another id.
pub delete_row-ids : (id : Bytes) (rows : List Tunnel) → All (λ u. u.id ≢ id) (delete_row id rows)
unfolding delete_row
delete_row-ids id [] = tt
delete_row-ids id (u ∷ rows) = elim (Bool-cases (bytes_beq u.id id)) [
  | inl same ↦ rw same (delete_row-ids id rows)
  | inr other ↦
      rw other ((λ e. absurd (ground (arith, bytes_beq_iff u.id id))), delete_row-ids id rows)
]

pub All-zip :
    (P Q R : Tunnel → Type 0)
    → ((u : Tunnel) → P u → Q u → R u)
    → (rows : List Tunnel) → All P rows
    → All Q rows
    → All R rows
All-zip P Q R f [] hp hq = tt
All-zip P Q R f (u ∷ rows) (pu, hp) (qu, hq) = (f u pu qu, All-zip P Q R f rows hp hq)
