-- ===== src/Tests/Sorting.antt =====
-- A database that sorts rows by insertion.
use mathlib.Core.List.{Perm}
use mathlib.Core.List.Perm
use void_link_tunnels.Base.{
  ℕ, ◌≤◌, List, [], ◌∷◌, All, ltb, if◌then◌else◌, inl, inr, Bool-cases, arith,
}
use void_link_tunnels.Models.{Tunnel}
use void_link_tunnels.Handlers.Listing.{OrderBy}
use void_link_tunnels.Handlers.Listing.Sorted.{IsNewestFirst, IsOrderBy}

insert_by : (Tunnel → ℕ) → Tunnel → List Tunnel → List Tunnel
insert_by key t [] = t ∷ []
insert_by key t (u ∷ rows) =
    let rest = insert_by key t rows in if ltb (key t) (key u) then u ∷ rest else t ∷ u ∷ rows

pub insertion_sort : OrderBy
unfolding insert_by
insertion_sort key [] = []
insertion_sort key (t ∷ rows) = insert_by key t (insertion_sort key rows)

module _ (key : Tunnel → ℕ) where
  All-le :
      (a b : ℕ) (rows : List Tunnel) → a ≤ b → All (λ u. key u ≤ a) rows → All (λ u. key u ≤ b) rows
  All-le a b [] h all = tt
  All-le a b (t ∷ rows) h (ht, all) = (omega arith, All-le a b rows h all)

  All-insert_by :
      (b : ℕ) (t : Tunnel) (rows : List Tunnel)
      → key t ≤ b
      → All (λ u. key u ≤ b) rows
      → All (λ u. key u ≤ b) (insert_by key t rows)
  unfolding insert_by
  All-insert_by b t [] ht all = (ht, tt)
  All-insert_by b t (u ∷ rows) ht (hu, all) = elim (Bool-cases (ltb (key t) (key u))) [
    | inl older ↦ rw older (hu, All-insert_by b t rows ht all)
    | inr newer ↦ rw newer (ht, (hu, all))
  ]

  insert_by-IsNewestFirst :
      (t : Tunnel) (rows : List Tunnel)
      → IsNewestFirst key rows
      → IsNewestFirst key (insert_by key t rows)
  unfolding insert_by
  insert_by-IsNewestFirst t [] h = (tt, tt)
  insert_by-IsNewestFirst t (u ∷ rows) (hu, h) = elim (Bool-cases (ltb (key t) (key u))) [
    | inl older ↦
        rw older (All-insert_by (key u) t rows (ground arith) hu, insert_by-IsNewestFirst t rows h)
    | inr newer ↦
        let below : key u ≤ key t = ground arith in
        rw newer ((below, All-le (key u) (key t) rows below hu), (hu, h))
  ]

  insert_by-Perm : (t : Tunnel) (rows : List Tunnel) → Perm (insert_by key t rows) (t ∷ rows)
  unfolding insert_by
  insert_by-Perm t [] = Perm.rfl
  insert_by-Perm t (u ∷ rows) = elim (Bool-cases (ltb (key t) (key u))) [
    | inl older ↦ rw older (Perm.trans (Perm.cons u (insert_by-Perm t rows)) (Perm.swap t u rows))
    | inr newer ↦ rw newer Perm.rfl
  ]

  sort-falls : (rows : List Tunnel) → IsNewestFirst key (insertion_sort key rows)
  unfolding insertion_sort
  sort-falls [] = tt
  sort-falls (t ∷ rows) = insert_by-IsNewestFirst t (insertion_sort key rows) (sort-falls rows)

  sort-Perm : (rows : List Tunnel) → Perm (insertion_sort key rows) rows
  unfolding insertion_sort
  sort-Perm [] = Perm.rfl
  sort-Perm (t ∷ rows) =
      Perm.trans (insert_by-Perm t (insertion_sort key rows)) (Perm.cons t (sort-Perm rows))

pub insertion_sort-IsOrderBy : IsOrderBy insertion_sort
insertion_sort-IsOrderBy = record { same = sort-Perm; falling = sort-falls }
