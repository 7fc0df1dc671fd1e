-- ===== src/Handlers/Listing/Sorted.antt =====
-- The list that a user is shown.
use mathlib.Core.Nat
use mathlib.Core.List.{Perm, length as core_length}
use mathlib.Core.List.Perm
use void_link_tunnels.Base.{
  ℕ, ◌≤◌, ◌≡◌, refl, sym, ◌∙◌, ap, Bool, true, List, [], ◌∷◌, Bytes, length, map, bytes_eq, inl,
  inr, Bool-cases, arith, suc,
}
use void_link_tunnels.Base.Lists.{All}
use void_link_tunnels.Models.{Tunnel, TunnelResponse, to_response}
use void_link_tunnels.Handlers.{World, only, tunnel_list}
use void_link_tunnels.Handlers.Edit.{Limits, count_rows}
use void_link_tunnels.Handlers.Listing.{OrderBy, rows_of, scan_rows, list_tunnels}

-- The newest first.
abbrev pub IsDescending : List TunnelResponse → Type 0
IsDescending [] = Unit
IsDescending (t ∷ rest) = All (λ u. u.created_at ≤ t.created_at) rest × IsDescending rest

abbrev pub IsNewestFirst : (Tunnel → ℕ) → List Tunnel → Type 0
IsNewestFirst key [] = Unit
IsNewestFirst key (t ∷ rest) = All (λ u. key u ≤ key t) rest × IsNewestFirst key rest

-- What PostgreSQL documents of `ORDER BY … DESC`: the same rows, by falling values of the column.
pub record IsOrderBy (order_by : OrderBy) : Type 0 where
  pub same : (key : Tunnel → ℕ) (rows : List Tunnel) → Perm (order_by key rows) rows
  pub falling : (key : Tunnel → ℕ) (rows : List Tunnel) → IsNewestFirst key (order_by key rows)

-- Where all rows can be read, the scan shows them all, in their order.
scan_rows_all :
    (domain : Bytes) (rows : List Tunnel)
    → scan_rows (λ t. true) domain rows ≡ map (to_response domain) rows
unfolding scan_rows
scan_rows_all domain [] = refl
scan_rows_all domain (t ∷ rows) =
    ap (λ rest. to_response domain t ∷ rest) (scan_rows_all domain rows)

All-scan_rows :
    (readable : Tunnel → Bool) (b : ℕ) (domain : Bytes) (rows : List Tunnel)
    → All (λ u. u.created_at ≤ b) rows
    → All (λ u. u.created_at ≤ b) (scan_rows readable domain rows)
unfolding scan_rows to_response
All-scan_rows readable b domain [] h = tt
All-scan_rows readable b domain (t ∷ rows) (ht, h) = elim (Bool-cases (readable t)) [
  | inl shown ↦ rw shown (ht, All-scan_rows readable b domain rows h)
  | inr skipped ↦ rw skipped (All-scan_rows readable b domain rows h)
]

scan_rows-IsDescending :
    (readable : Tunnel → Bool) (domain : Bytes) (rows : List Tunnel)
    → IsNewestFirst (λ t. t.created_at) rows
    → IsDescending (scan_rows readable domain rows)
unfolding scan_rows to_response
scan_rows-IsDescending readable domain [] h = tt
scan_rows-IsDescending readable domain (t ∷ rows) (ht, h) = elim (Bool-cases (readable t)) [
  | inl shown ↦ rw shown (
    All-scan_rows readable t.created_at domain rows ht,
    scan_rows-IsDescending readable domain rows h,
  )
  | inr skipped ↦ rw skipped (scan_rows-IsDescending readable domain rows h)
]

-- The library's length as a native number.
native_count : Nat.ℕ → ℕ
native_count Nat.zero = 0
native_count (Nat.suc n) = suc (native_count n)

native_count-length : (rows : List Tunnel) → native_count (core_length rows) ≡ length rows
unfolding native_count
native_count-length [] = refl
native_count-length (t ∷ rows) = ap suc (native_count-length rows)

length-Perm : (rows sorted : List Tunnel) → Perm sorted rows → length sorted ≡ length rows
length-Perm rows sorted p =
    sym (native_count-length sorted) ∙ ap native_count (Perm.length-eq p) ∙ native_count-length rows

length-rows_of :
    (user_id : Bytes) (rows : List Tunnel) → length (rows_of user_id rows) ≡ count_rows user_id rows
unfolding rows_of count_rows
length-rows_of user_id [] = refl
length-rows_of user_id (t ∷ rows) = ground (arith, length-rows_of user_id rows)

length-scan_rows :
    (domain : Bytes) (rows : List Tunnel) → length (scan_rows (λ t. true) domain rows) ≡ length rows
unfolding scan_rows
length-scan_rows domain [] = refl
length-scan_rows domain (t ∷ rows) = ap suc (length-scan_rows domain rows)

-- The list that a user is shown, where the database sorts as documented and all rows can be read, has
-- the user's tunnels, each once, the newest first; the count is their number.
pub list_tunnels_lem :
    (cfg : Limits) (order_by : OrderBy) (user_id : Bytes) (w : World)
    → IsOrderBy order_by
    → (shown : List TunnelResponse) × (list_tunnels cfg order_by true (λ t. true) user_id w
        ≡ only w (
            tunnel_list (record {
              tunnels = shown;
              count = count_rows user_id w.tunnels;
              limit = cfg.max_tunnels;
            })))
      × IsDescending shown
      × Perm shown (map (to_response cfg.domain) (rows_of user_id w.tunnels))
unfolding list_tunnels
list_tunnels_lem cfg order_by user_id w law =
    let of_user = rows_of user_id w.tunnels in
    let rows = order_by (λ t. t.created_at) of_user in
    let count : length (scan_rows (λ t. true) cfg.domain rows) ≡ count_rows user_id w.tunnels =
      length-scan_rows cfg.domain rows
      ∙ length-Perm of_user rows (law.same (λ t. t.created_at) of_user)
      ∙ length-rows_of user_id w.tunnels in
    (
      scan_rows (λ t. true) cfg.domain rows,
      rw count,
      scan_rows-IsDescending (λ t. true) cfg.domain rows (law.falling (λ t. t.created_at) of_user),
      rw (scan_rows_all cfg.domain rows)
          (Perm.map (to_response cfg.domain) (law.same (λ t. t.created_at) of_user)),
    )
