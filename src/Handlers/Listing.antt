-- ===== src/Handlers/Listing.antt =====
-- `List` of internal/handlers/tunnels.go; how the database sorts is an argument.
pub mod Sorted
use void_link_tunnels.Base.{
  ℕ, Bool, List, [], ◌∷◌, Bytes, codes, length, ◌==◌, bytes_eq, if◌then◌else◌,
}
use void_link_tunnels.Models.{Tunnel, TunnelResponse, TunnelListResponse, to_response}
use void_link_tunnels.Handlers.{error, tunnel_list, World, Reply, only}
use void_link_tunnels.Handlers.Edit.{Limits}

-- `WHERE user_id = $1`
unfoldable pub rows_of : Bytes → List Tunnel → List Tunnel
rows_of user_id [] = []
rows_of user_id (t ∷ rows) =
    let rest = rows_of user_id rows in if t.user_id == user_id then t ∷ rest else rest

-- The database's `ORDER BY … DESC`, for a column; rows with the same value may come in any order.
abbrev pub OrderBy : Type 0
OrderBy = (Tunnel → ℕ) → List Tunnel → List Tunnel

-- The loop over the rows; one that cannot be read is passed over.
unfoldable pub scan_rows : (Tunnel → Bool) → Bytes → List Tunnel → List TunnelResponse
scan_rows readable domain [] = []
scan_rows readable domain (t ∷ rows) =
    let rest = scan_rows readable domain rows in
    if readable t then to_response domain t ∷ rest else rest

-- `List`, given the database's sorting, whether the query is carried out and which rows can be read.
unfoldable pub list_tunnels : Limits → OrderBy → Bool → (Tunnel → Bool) → Bytes → World → Reply
unfolding scan_rows rows_of
list_tunnels cfg order_by up readable user_id w =
    let rows = order_by (λ t. t.created_at) (rows_of user_id w.tunnels) in
    let tunnels = scan_rows readable cfg.domain rows in
    if up
    then only w (
        tunnel_list (record { tunnels = tunnels; count = length tunnels; limit = cfg.max_tunnels }))
    else only w (error 500 (codes "Failed to fetch tunnels"))
