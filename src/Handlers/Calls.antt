-- ===== src/Handlers/Calls.antt =====
-- The requests of internal/handlers/tunnels.go as values, and a sequence of them.
pub mod Clear
pub mod Created
pub mod Exact
pub mod Tenants
pub mod Restart
use void_link_tunnels.Base.{
  ℕ, Bool, true, Option, none, some, List, [], ◌∷◌, Bytes, ◌⊎◌, ◌≡◌, ◌==◌, bytes_eq, ◌&&◌,
  if◌then◌else◌,
}
use void_link_tunnels.Models.{Tunnel, CreateTunnelRequest, UpdateTunnelRequest}
use void_link_tunnels.Handlers.{World, Reply, get, start, stop, remove}
use void_link_tunnels.Handlers.Edit.{Limits, Choices, create, update}
use void_link_tunnels.Handlers.Listing.{OrderBy, list_tunnels}

-- A request of one user, with what the environment decides for it.
pub data TunnelCall : Type 0 where
  lists : OrderBy → Bool → (Tunnel → Bool) → TunnelCall
  creates : Choices → Bytes ⊎ CreateTunnelRequest → ℕ → TunnelCall
  reads : Option Bytes → Bool → TunnelCall
  updates : Option Bytes → Bytes ⊎ UpdateTunnelRequest → ℕ → Bool → Bool → TunnelCall
  removes : Option Bytes → Bool → Bool → TunnelCall
  starts : Option Bytes → ℕ → Bool → Bool → TunnelCall
  stops : Option Bytes → ℕ → Bool → Bool → TunnelCall

unfoldable pub handle_tunnel : Limits → Bytes → TunnelCall → World → Reply
handle_tunnel cfg user (lists order_by up readable) w = list_tunnels cfg order_by up readable user w
handle_tunnel cfg user (creates ch body now) w = create cfg ch body user now w
handle_tunnel cfg user (reads parsed up) w = get cfg.domain parsed user up w
handle_tunnel cfg user (updates parsed body now up written) w =
    update cfg.domain cfg.region parsed body user now up written w
handle_tunnel cfg user (removes parsed up written) w = remove parsed user up written w
handle_tunnel cfg user (starts parsed now up written) w = start parsed user now up written w
handle_tunnel cfg user (stops parsed now up written) w = stop parsed user now up written w

-- The requests of several users, one after another.
abbrev pub handle_all : Limits → List (Bytes × TunnelCall) → World → World
handle_all cfg [] w = w
handle_all cfg ((user, call) ∷ rest) w = handle_all cfg rest (handle_tunnel cfg user call w).1

-- The database carries out the statement of a stop and of a deletion.
abbrev pub IsCarriedOut : Bytes × TunnelCall → Type 0
IsCarriedOut (user, removes parsed up written) = written ≡ true
IsCarriedOut (user, stops parsed now up written) = written ≡ true
IsCarriedOut (user, _) = Unit

-- Where the rows of the database lead a subdomain: to the tunnel that has it, if it is active.
unfoldable pub route_of : Bytes → List Tunnel → Option Bytes
route_of name [] = none
route_of name (t ∷ rows) =
    if t.subdomain == name && t.is_active then some t.id else route_of name rows
