-- ===== src/Handlers/Edit.antt =====
-- `Create` and `Update` of internal/handlers/tunnels.go. A body is the request, or the text of the
-- error of `ShouldBindJSON`. A time that the source leaves unset is 0.
pub mod Kept
pub mod Limit
use void_link_tunnels.Base.{
  ℕ, zero, suc, Bool, true, false, not, ◌&&◌, ◌||◌, Option, none, some, List, [], ◌∷◌, ◌++◌, Bytes,
  codes, length, ltb, leb, ◌==◌, bytes_eq, nat_eq, if◌then◌else◌, ◌⊎◌, inl, inr,
}
use void_link_tunnels.Base.Int.{ℤ, pos, is_zero}
use void_link_tunnels.Models.{Tunnel, CreateTunnelRequest, UpdateTunnelRequest, to_response}
use void_link_tunnels.Handlers.{
  Response, error, tunnel, World, Reply, only, with_tunnel, port_exists, allocate_udp_port,
}

abbrev pub or_kept : {A : Type 0} → Option A → A → A
or_kept none old = old
or_kept (some new) old = new

-- The HTTP port after a change: 0 disables HTTP.
abbrev pub http_after : Option ℤ → Option ℤ → Option ℤ
http_after none old = old
http_after (some port) old = if is_zero port then none else some port

-- A given name must have 1 to 100 bytes.
abbrev pub bad_name : Option Bytes → Bool
bad_name none = false
bad_name (some name) = ltb (length name) 1 || ltb 100 (length name)

unfoldable pub apply_update : UpdateTunnelRequest → Tunnel → Tunnel
apply_update req t = record t {
  name = or_kept req.name t.name;
  mc_local_port = or_kept req.mc_local_port t.mc_local_port;
  http_local_port = http_after req.http_local_port t.http_local_port;
  udp_local_port = or_kept req.udp_local_port t.udp_local_port;
}

-- `UPDATE tunnels SET name=$1, …, updated_at=NOW() WHERE id = $5`, with the values of `t`.
unfoldable pub update_row : ℕ → Tunnel → List Tunnel → List Tunnel
update_row now t [] = []
update_row now t (u ∷ rows) =
    (if u.id == t.id
      then record u {
        name = t.name;
        mc_local_port = t.mc_local_port;
        http_local_port = t.http_local_port;
        udp_local_port = t.udp_local_port;
        updated_at = now;
      }
      else u)
    ∷ update_row now t rows

-- `Update`, once the tunnel is read.
unfoldable pub update_read : Bytes → Bytes → UpdateTunnelRequest → ℕ → Bool → World → Tunnel → Reply
unfolding apply_update update_row
update_read domain region req now written w t =
    let t' = apply_update req t in
    if t.is_active
    then only w (error 400 (codes "Stop the tunnel before editing it"))
    else if bad_name req.name
    then only w (error 400 (codes "Name must be 1-100 characters"))
    else if not written
    then only w (error 500 (codes "Failed to update tunnel"))
    else (
      tunnel 200 (to_response domain (record t' { region = region; created_at = 0 })),
      record w { tunnels = update_row now t' w.tunnels },
      [],
    )

unfoldable pub update :
    Bytes
    → Bytes
    → Option Bytes
    → Bytes ⊎ UpdateTunnelRequest
    → Bytes
    → ℕ
    → Bool
    → Bool
    → World
    → Reply
update domain region none body user_id now up written w =
    only w (error 400 (codes "Invalid tunnel ID"))
update domain region (some id) (inl e) user_id now up written w =
    only w (error 400 (codes "Invalid request: " ++ e))
update domain region (some id) (inr req) user_id now up written w =
    with_tunnel (some id) user_id up w (update_read domain region req now written w)

-- `SELECT COUNT(*) FROM tunnels WHERE user_id = $1`
unfoldable pub count_rows : Bytes → List Tunnel → ℕ
count_rows user_id [] = 0
count_rows user_id (t ∷ rows) =
    let rest = count_rows user_id rows in if t.user_id == user_id then suc rest else rest

-- `SELECT EXISTS(SELECT 1 FROM tunnels WHERE subdomain = $1)`
unfoldable pub subdomain_exists : Bytes → List Tunnel → Bool
subdomain_exists name [] = false
subdomain_exists name (t ∷ rows) = t.subdomain == name || subdomain_exists name rows

-- Whether a row has the id, which is the primary key.
unfoldable pub id_exists : Bytes → List Tunnel → Bool
id_exists id [] = false
id_exists id (t ∷ rows) = t.id == id || id_exists id rows

abbrev pub default_port : ℕ → ℤ → ℤ
default_port d port = if is_zero port then pos d else port

-- What the environment decides: what `Generate` yields at each attempt, for which attempts and ports
-- the queries are carried out, whether the count is, and the id that the database gives, if it can
-- insert.
pub record Choices : Type 0 where
  pub counted : Bool
  pub generated : ℕ → Option Bytes
  pub names_up : ℕ → Bool
  pub ports_up : ℕ → Bool
  pub inserted : Option Bytes

-- The loop over the attempts, of which `n` are left; a failed query leaves `exists` false.
unfoldable pub find_subdomain : Choices → List Tunnel → ℕ → ℕ → Option Bytes
find_subdomain ch rows attempt zero = none
find_subdomain ch rows attempt (suc n) =
    let rest = find_subdomain ch rows (suc attempt) n in
    elim (ch.generated attempt) [
      | none ↦ rest
      | some name ↦ if ch.names_up attempt && subdomain_exists name rows then rest else some name
    ]

-- The limits of the configuration.
pub record Limits : Type 0 where
  pub domain : Bytes
  pub region : Bytes
  pub max_tunnels : ℕ
  pub min_port : ℕ
  pub max_port : ℕ

-- The row that `Create` inserts. A row is inactive by default.
abbrev pub new_row : Limits → CreateTunnelRequest → Bytes → ℕ → Bytes → Bytes → ℕ → Tunnel
new_row cfg req user_id now id name port = record {
  id = id;
  user_id = user_id;
  name = req.name;
  subdomain = name;
  region = cfg.region;
  is_active = false;
  mc_local_port = default_port 25565 req.mc_local_port;
  http_local_port = req.http_local_port;
  udp_local_port = default_port 24454 req.udp_local_port;
  udp_public_port = some port;
  created_at = now;
  updated_at = now;
}

-- The insertion; the database refuses an id, a subdomain or a public port that a row has (all are
-- unique).
unfoldable pub insert_row :
    Limits → CreateTunnelRequest → Bytes → ℕ → Bytes → ℕ → Option Bytes → World → Reply
insert_row cfg req user_id now name port none w =
    only w (error 500 (codes "Failed to create tunnel"))
insert_row cfg req user_id now name port (some id) w =
    let row = new_row cfg req user_id now id name port in
    if id_exists id w.tunnels || subdomain_exists name w.tunnels || port_exists port w.tunnels
    then only w (error 500 (codes "Failed to create tunnel"))
    else (
      tunnel 201 (to_response cfg.domain (record row { created_at = 0; updated_at = 0 })),
      record w { tunnels = row ∷ w.tunnels },
      [],
    )

-- `Create` from the search for a subdomain on.
unfoldable pub create_named : Limits → Choices → CreateTunnelRequest → Bytes → ℕ → World → Reply
unfolding find_subdomain
create_named cfg ch req user_id now w =
    let failed = only w (error 500 (codes "Failed to generate unique subdomain")) in
    elim (find_subdomain ch w.tunnels 0 10) [
      | none ↦ failed
      | some name ↦
          if name == []
          then failed
          else elim (allocate_udp_port ch.ports_up cfg.min_port cfg.max_port w.tunnels) [
            | none ↦ only w (error 503 (codes "No available UDP ports"))
            | some port ↦ insert_row cfg req user_id now name port ch.inserted w
          ]
    ]

-- `Create`. The message of status 403 is without its numbers.
unfoldable pub create : Limits → Choices → Bytes ⊎ CreateTunnelRequest → Bytes → ℕ → World → Reply
create cfg ch (inl e) user_id now w = only w (error 400 (codes "Invalid request: " ++ e))
create cfg ch (inr req) user_id now w =
    if not ch.counted
    then only w (error 500 (codes "Failed to check tunnel limit"))
    else if leb cfg.max_tunnels (count_rows user_id w.tunnels)
    then only w (error 403 (codes "Tunnel limit reached"))
    else create_named cfg ch req user_id now w
