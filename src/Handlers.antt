-- ===== src/Handlers.antt =====
-- The tunnel handlers of internal/handlers/tunnels.go: `Get`, `Delete`, `Start`, `Stop` and
-- `allocateUDPPort`. The table `tunnels` of the database is a list of its rows. The argument
-- `parsed` is what `uuid.Parse` makes of the path; `up` and `written` say whether the database
-- carries out the query and the statement; `now` is its clock.
pub mod Rows
pub mod Followed
pub mod Synced
pub mod Pool
pub mod Edit
pub mod Listing
pub mod Calls
use void_link_tunnels.Base.{
  ℕ, zero, suc, ◌+◌, ◌-◌, Bool, true, false, not, ◌&&◌, ◌||◌, Option, none, some, List, [], ◌∷◌,
  ◌++◌, Bytes, codes, ◌==◌, bytes_eq, nat_eq, if◌then◌else◌, nat_beq,
}
use void_link_tunnels.Models.{Tunnel, TunnelResponse, TunnelListResponse, to_response}
use void_link_tunnels.Services.{start_tunnel, stop_tunnel}
use void_link_tunnels.Tunnel.Server.{Server, Effect}

-- What is sent back: the status, and an error, a message or a tunnel; or, with 200, a list.
pub data Response : Type 0 where
  error : ℕ → Bytes → Response
  message : ℕ → Bytes → Response
  tunnel : ℕ → TunnelResponse → Response
  tunnel_list : TunnelListResponse → Response

pub record World : Type 0 where
  pub tunnels : List Tunnel
  pub server : Server

-- `SELECT … FROM tunnels WHERE id = $1 AND user_id = $2`
unfoldable pub select_tunnel : Bytes → Bytes → List Tunnel → Option Tunnel
select_tunnel id user_id [] = none
select_tunnel id user_id (t ∷ rows) =
    if t.id == id && t.user_id == user_id then some t else select_tunnel id user_id rows

-- The query as the handlers see it: a failure is no row, too.
unfoldable pub query_tunnel : Bool → Bytes → Bytes → List Tunnel → Option Tunnel
query_tunnel up id user_id rows = if up then select_tunnel id user_id rows else none

-- `UPDATE tunnels SET is_active = $active, updated_at = NOW() WHERE id = $1`
unfoldable pub set_active : Bool → ℕ → Bytes → List Tunnel → List Tunnel
set_active active now id [] = []
set_active active now id (t ∷ rows) =
    (if t.id == id then record t { is_active = active; updated_at = now } else t)
    ∷ set_active active now id rows

-- `DELETE FROM tunnels WHERE id = $1`
unfoldable pub delete_row : Bytes → List Tunnel → List Tunnel
delete_row id [] = []
delete_row id (t ∷ rows) = let rest = delete_row id rows in if t.id == id then rest else t ∷ rest

abbrev pub Reply : Type 0
Reply = Response × World × List Effect

-- A reply that changes nothing.
abbrev pub only : World → Response → Reply
only w response = (response, w, [])

abbrev pub not_found : Response
not_found = error 404 (codes "Tunnel not found")

-- What the four handlers have in common: the path, and the tunnel of this user.
unfoldable pub with_tunnel : Option Bytes → Bytes → Bool → World → (Tunnel → Reply) → Reply
unfolding query_tunnel
with_tunnel none user_id up w k = only w (error 400 (codes "Invalid tunnel ID"))
with_tunnel (some id) user_id up w k = elim (query_tunnel up id user_id w.tunnels) [
  | none ↦ only w not_found
  | some t ↦ k t
]

-- `Get`
unfoldable pub get : Bytes → Option Bytes → Bytes → Bool → World → Reply
get domain parsed user_id up w =
    with_tunnel parsed user_id up w λ t. only w (tunnel 200 (to_response domain t))

-- `Start`, once the tunnel is read.
unfoldable pub start_read : ℕ → Bool → World → Tunnel → Reply
unfolding set_active
start_read now written w t =
    let (started, effects) = start_tunnel t w.server in
    let (stopped, undone) = stop_tunnel t started in
    if t.is_active
    then only w (error 400 (codes "Tunnel is already active"))
    else if written
    then (
      message 200 (codes "Tunnel started"),
      record { tunnels = set_active true now t.id w.tunnels; server = started },
      effects,
    )
    else (
      error 500 (codes "Failed to update tunnel status"),
      record { tunnels = w.tunnels; server = stopped },
      effects ++ undone,
    )

unfoldable pub start : Option Bytes → Bytes → ℕ → Bool → Bool → World → Reply
start parsed user_id now up written w = with_tunnel parsed user_id up w (start_read now written w)

-- `Stop`, once the tunnel is read.
unfoldable pub stop_read : ℕ → Bool → World → Tunnel → Reply
unfolding set_active
stop_read now written w t =
    let (stopped, effects) = stop_tunnel t w.server in
    if not t.is_active
    then only w (error 400 (codes "Tunnel is not active"))
    else if written
    then (
      message 200 (codes "Tunnel stopped"),
      record { tunnels = set_active false now t.id w.tunnels; server = stopped },
      effects,
    )
    else (
      error 500 (codes "Failed to update tunnel status"),
      record { tunnels = w.tunnels; server = stopped },
      effects,
    )

unfoldable pub stop : Option Bytes → Bytes → ℕ → Bool → Bool → World → Reply
stop parsed user_id now up written w = with_tunnel parsed user_id up w (stop_read now written w)

-- `Delete`, once the tunnel is read.
unfoldable pub remove_read : Bool → World → Tunnel → Reply
unfolding delete_row
remove_read written w t =
    let (server, effects) = if t.is_active then stop_tunnel t w.server else (w.server, []) in
    if written
    then (
      message 200 (codes "Tunnel deleted"),
      record { tunnels = delete_row t.id w.tunnels; server = server },
      effects,
    )
    else (
      error 500 (codes "Failed to delete tunnel"),
      record { tunnels = w.tunnels; server = server },
      effects,
    )

unfoldable pub remove : Option Bytes → Bytes → Bool → Bool → World → Reply
remove parsed user_id up written w = with_tunnel parsed user_id up w (remove_read written w)

-- Whether a public port is the one of a row.
abbrev pub has_port : ℕ → Option ℕ → Bool
has_port port none = false
has_port port (some p) = nat_beq p port

-- `SELECT EXISTS(SELECT 1 FROM tunnels WHERE udp_public_port = $1)`
unfoldable pub port_exists : ℕ → List Tunnel → Bool
port_exists port [] = false
port_exists port (t ∷ rows) = has_port port t.udp_public_port || port_exists port rows

-- The loop of `allocateUDPPort`, for `n` more ports; a query that fails leaves `exists` false.
unfoldable pub find_port : (ℕ → Bool) → List Tunnel → ℕ → ℕ → Option ℕ
find_port up rows port zero = none
find_port up rows port (suc n) =
    let rest = find_port up rows (suc port) n in
    if up port && port_exists port rows then rest else some port

-- `allocateUDPPort`, given for which ports the query is carried out.
unfoldable pub allocate_udp_port : (ℕ → Bool) → ℕ → ℕ → List Tunnel → Option ℕ
unfolding find_port
allocate_udp_port up min_port max_port rows = find_port up rows min_port (suc max_port - min_port)
