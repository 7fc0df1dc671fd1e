-- ===== src/Tunnel/Server/Control.antt =====
-- The control channel of internal/tunnel/server.go: `handleNewConn`, `validateJWT`,
-- `handleControlConnFromReader`, and `readControlLoop` line by line. `jwt.Parse` is code of another
-- module, so it is a parameter.
pub mod Accept
pub mod Replace
pub mod Lines
use void_link_tunnels.Base.{
  ℕ, ◌+◌, Bool, true, false, Option, none, some, List, [], ◌∷◌, ◌++◌, Bytes, codes, is_some, not,
  ◌==◌, if◌then◌else◌, nat_eq, bytes_eq,
}
use void_link_tunnels.Base.Map
use void_link_tunnels.Base.Map.{load, store, delete, range_first}
use void_link_tunnels.Text.{trim_space, fields}
use void_link_tunnels.Text.Hex.{decode_string}
use void_link_tunnels.Tunnel.Server.{
  Server, ClientConn, UdpPlayerEntry, Effect, write, close, write_to, close_client,
}
use void_link_tunnels.Tunnel.Server.Data.{handle_data_conn}

-- The signing method that a token's header names.
pub data SigningMethod : Type 0 where
  hmac other : SigningMethod

-- `jwt.Parse`, given a token and the function that hands out the key: `none` is an error, and
-- `some valid` a token with its field `Valid`.
abbrev pub JwtParse : Type 0
JwtParse = Bytes → (SigningMethod → Option Bytes) → Option Bool

-- The key function of `validateJWT`: an error unless the method is HMAC.
abbrev pub key_for : Bytes → SigningMethod → Option Bytes
key_for secret hmac = some secret
key_for secret other = none

module _ (jwt_parse : JwtParse) where
  -- `validateJWT` returns no error.
  unfoldable pub validate_jwt : Bytes → Server → Bool
  validate_jwt token s = elim (jwt_parse token (key_for s.jwt_secret)) [
    | none ↦ false
    | some valid ↦ valid
  ]

-- The walk over `subdomainMap` for a registration of the tunnel.
unfoldable pub is_registered : Bytes → Server → Bool
is_registered tunnel_id s = is_some (range_first (λ id. id == tunnel_id) s.subdomain_map)

-- A client object for the connection takes the place of the tunnel's client, which is closed.
unfoldable pub accept_client : ℕ → Bytes → Server → Server × List Effect
unfolding close_client
accept_client conn tunnel_id s =
    let client : ClientConn = record {
      tunnel_id = tunnel_id;
      conn = conn;
      pending_tcp = Map.empty;
    } in
    (
      record s {
        clients = store tunnel_id s.next_ref (delete tunnel_id s.clients);
        objects = store s.next_ref client s.objects;
        next_ref = s.next_ref + 1;
      },
      close_client (load tunnel_id s.clients) s ++ write conn (codes "OK\n") ∷ [],
    )

-- How the handler of a new connection goes on: it is done, or it serves the client behind the
-- reference, in `readControlLoop`.
pub data Next : Type 0 where
  done : Next
  serving : ℕ → Next

-- The case DATA of `handleNewConn`, given the words behind it.
unfoldable pub data_line : ℕ → List Bytes → Server → Next × Server × List Effect
data_line conn [] s = (done, s, close conn ∷ [])
data_line conn (conn_id ∷ _) s =
    let (s', effects) = handle_data_conn conn conn_id s in
    (done, s', write conn (codes "OK\n") ∷ effects)

module _ (jwt_parse : JwtParse) where
  unfoldable pub handle_control_conn : ℕ → Bytes → Bytes → Server → Next × Server × List Effect
  unfolding validate_jwt is_registered accept_client
  handle_control_conn conn token tunnel_id s =
      if not (validate_jwt jwt_parse token s)
      then (done, s, write conn (codes "ERROR unauthorized\n") ∷ close conn ∷ [])
      else if not (is_registered tunnel_id s)
      then (done, s, write conn (codes "ERROR tunnel not active\n") ∷ close conn ∷ [])
      else let (s', effects) = accept_client conn tunnel_id s in (serving s.next_ref, s', effects)

  -- The case AUTH, given the words behind it.
  unfoldable pub auth_line : ℕ → List Bytes → Server → Next × Server × List Effect
  auth_line conn (token ∷ tunnel_id ∷ _) s = handle_control_conn conn token tunnel_id s
  auth_line conn _ s = (done, s, write conn (codes "ERROR invalid handshake\n") ∷ close conn ∷ [])

  -- The switch over the words of the first line.
  unfoldable pub first_line : ℕ → List Bytes → Server → Next × Server × List Effect
  unfolding auth_line data_line
  first_line conn [] s = (done, s, close conn ∷ [])
  first_line conn (command ∷ args) s =
      if command == codes "AUTH"
      then auth_line conn args s
      else if command == codes "DATA"
      then data_line conn args s
      else (done, s, write conn (codes "ERROR unknown command\n") ∷ close conn ∷ [])

  -- `handleNewConn`, given the first line, or `none` where reading it fails.
  unfoldable pub handle_new_conn : ℕ → Option Bytes → Server → Next × Server × List Effect
  unfolding first_line
  handle_new_conn conn none s = (done, s, close conn ∷ [])
  handle_new_conn conn (some line) s = first_line conn (fields (trim_space line)) s

-- What one line of the control channel makes the loop do. `panic` is an index out of range.
pub data LineResult : Type 0 where
  panic : LineResult
  effects : List Effect → LineResult

-- UDP_REPLY, given the words behind it: a payload in hex for the player behind the id.
unfoldable pub udp_reply : List Bytes → Server → List Effect
udp_reply (conn_id ∷ payload ∷ _) s = elim (decode_string payload) [
  | none ↦ []
  | some body ↦ elim (load conn_id s.udp_player_map) [
    | none ↦ []
    | some entry ↦ write_to entry.pc entry.addr body ∷ []
  ]
]
udp_reply _ s = []

-- The switch over the words of a line that is not blank.
unfoldable pub control_words : List Bytes → Server → LineResult
unfolding udp_reply
control_words [] s = panic
control_words (command ∷ args) s =
    if command == codes "PONG"
    then effects []
    else if command == codes "UDP_REPLY"
    then effects (udp_reply args s)
    else effects []

-- One round of `readControlLoop`, on a line that was read.
unfoldable pub control_line : Bytes → Server → LineResult
unfolding control_words
control_line line s =
    let trimmed = trim_space line in
    if trimmed == [] then effects [] else control_words (fields trimmed) s

-- The client's object is still the one in the map.
unfoldable pub is_current : Bytes → ℕ → Server → Bool
is_current tunnel_id ref s = elim (load tunnel_id s.clients) [
  | none ↦ false
  | some current ↦ current == ref
]

-- What follows `readControlLoop`: `CompareAndDelete` of the object that was served.
unfoldable pub control_ended : Bytes → ℕ → Server → Server
unfolding is_current
control_ended tunnel_id ref s =
    if is_current tunnel_id ref s then record s { clients = delete tunnel_id s.clients } else s
