-- ===== src/Tunnel/Proxy.antt =====
-- The two shared proxies, `handleMCConnection` of internal/tunnel/mc_proxy.go and
-- `handleHTTPConnection` of internal/tunnel/http_proxy.go, each in two parts: up to the message
-- OPEN, and from the `select` on. What the player sends is a list of bytes; a read past its end, or
-- past the deadline, fails. The clock's value is an argument.
pub mod Ids
pub mod Minecraft
pub mod HeaderBlock
pub mod Web
pub mod Finish
use void_link_tunnels.Base.{
  ℕ, suc, zero, ◌+◌, ◌*◌, ◌/◌, ◌%◌, ◌^◌, Bool, true, false, not, Option, none, some, List, [], ◌∷◌,
  ◌++◌, Bytes, codes, ◌==◌, nat_beq, if◌then◌else◌, nat_eq, bytes_eq, ◌>>=◌,
}
use void_link_tunnels.Base.Int.{ℤ, pos}
use void_link_tunnels.Base.Map.{load, store}
use void_link_tunnels.Text.{to_lower, trim_space, has_prefix, split_host_port}
use void_link_tunnels.Text.Hex.{encode_to_string}
use void_link_tunnels.Tunnel.Hostname.{extract_subdomain_from_addr, strip_port}
use void_link_tunnels.Tunnel.Handshake.{Result, ok, err, Reader, start, parse_minecraft_handshake}
use void_link_tunnels.Tunnel.Server.{Server, Effect, write, close, relay}
use void_link_tunnels.Tunnel.Server.Data.{Session, open_session, forget}

-- `byte(ts >> (i * 8))`
abbrev pub byte_at : ℕ → ℕ → ℕ
byte_at ts i = ts / 2 ^ (i * 8) % 256

-- The eight bytes of `generateID`, before they are written in hex.
unfoldable pub id_bytes : ℕ → Bytes
id_bytes ts =
    byte_at ts 0
    ∷ byte_at ts 1
    ∷ byte_at ts 2
    ∷ byte_at ts 3
    ∷ byte_at ts 4
    ∷ byte_at ts 5
    ∷ byte_at ts 6
    ∷ byte_at ts 7
    ∷ []

-- `generateID`, given the time in nanoseconds.
unfoldable pub generate_id : ℕ → Bytes
unfolding id_bytes encode_to_string
generate_id ts = encode_to_string (id_bytes ts)

abbrev pub accepted : Result Bytes → Option Bytes
accepted (ok addr) = some addr
accepted (err _) = none

-- A lookup goes on only with a subdomain that is not empty.
abbrev pub if_named : Bytes → Option Bytes
if_named name = if name == [] then none else some name

-- The lookups of `handleMCConnection`: the tunnel and its client. Each failure returns.
unfoldable pub mc_route : Result Bytes → Server → Option (Bytes × ℕ)
mc_route parsed s = do
  server_addr ← accepted parsed
  subdomain ← if_named (extract_subdomain_from_addr server_addr s.domain)
  tunnel_id ← load subdomain s.subdomain_map
  client ← load tunnel_id s.clients
  some (tunnel_id, client)

-- `tunnelMCPort.LoadOrStore(tunnelID, 25565)`
unfoldable pub load_or_store_port : Bytes → Server → ℤ × Server
load_or_store_port tunnel_id s = elim (load tunnel_id s.tunnel_mc_port) [
  | none ↦ (pos 25565, record s { tunnel_mc_port = store tunnel_id (pos 25565) s.tunnel_mc_port })
  | some port ↦ (port, s)
]

-- `handleMCConnection` up to the message OPEN; a handler that returns closes the player.
unfoldable pub open_mc_connection :
    ℕ → Bytes → ℕ → Bool → Server → Option Session × Server × List Effect
unfolding mc_route load_or_store_port
open_mc_connection player stream ts sent s =
    let (parsed, reader) = parse_minecraft_handshake (start stream) in
    elim (mc_route parsed s) [
      | none ↦ (none, s, close player ∷ [])
      | some (tunnel_id, client) ↦
          let (port, s') = load_or_store_port tunnel_id s in
          open_session player client (generate_id ts) port reader.seen sent s'
    ]

-- `trimmed[5:]`
abbrev pub after_five : Bytes → Bytes
after_five (_ ∷ _ ∷ _ ∷ _ ∷ _ ∷ s) = s
after_five _ = []

-- What a header line that is not blank makes of the host seen so far.
unfoldable pub host_after : Bytes → Bytes → Bytes
host_after trimmed host =
    if has_prefix (to_lower trimmed) (codes "host:") then trim_space (after_five trimmed) else host

-- What the header loop knows when it ends: the last Host header, and `raw`; the rest is unread.
pub record Headers : Type 0 where
  pub host : Bytes
  pub raw : Bytes
  pub unread : Bytes

-- The header loop; `line` is what was read of the present line. The stream may end within a line.
unfoldable pub header_loop : Bytes → Bytes → Bytes → Bytes → Headers
header_loop [] raw line host = record { host = host; raw = raw; unread = [] }
header_loop (c ∷ s) raw line host =
    let raw' = raw ++ c ∷ [] in
    let line' = line ++ c ∷ [] in
    let stop : Headers = record { host = host; raw = raw'; unread = s } in
    let next_line = header_loop s raw' [] (host_after (trim_space line') host) in
    let same_line = header_loop s raw' line' host in
    if nat_beq c b'\n' then if trim_space line' == [] then stop else next_line else same_line

unfoldable pub read_headers : Bytes → Headers
unfolding header_loop host_after
read_headers stream = header_loop stream [] [] []

-- The lookups of `handleHTTPConnection`: the HTTP port and the client of the tunnel.
unfoldable pub http_route : Bytes → Server → Option (ℤ × ℕ)
unfolding strip_port
http_route host_header s = do
  header ← if_named host_header
  subdomain ← if_named (extract_subdomain_from_addr (strip_port header) s.domain)
  tunnel_id ← load subdomain s.subdomain_map
  port ← load tunnel_id s.tunnel_http_port
  client ← load tunnel_id s.clients
  some (port, client)

-- `handleHTTPConnection` up to the message OPEN.
unfoldable pub open_http_connection :
    ℕ → Bytes → ℕ → Bool → Server → Option Session × Server × List Effect
unfolding http_route read_headers
open_http_connection player stream ts sent s =
    let headers = read_headers stream in
    elim (http_route headers.host s) [
      | none ↦ (none, s, close player ∷ [])
      | some (port, client) ↦ open_session player client (generate_id ts) port headers.raw sent s
    ]

-- `if reader.Buffered() > 0`: what the HTTP handler's reader has taken beyond the headers.
abbrev pub write_ahead : ℕ → Bytes → List Effect
write_ahead data_conn [] = []
write_ahead data_conn (b ∷ s) = write data_conn (b ∷ s) ∷ []

-- The first case of the `select`: a data connection is received from the session's channel, which
-- has room again, and is written the buffered bytes and those read ahead (the Minecraft handler has
-- none); then the relay begins. The id stays until the relay is over.
unfoldable pub session_connected : Session → Bytes → ℕ → Server → Server × List Effect
session_connected session ahead data_conn s = (
  record s { channels = store session.channel none s.channels },
  write data_conn session.buffered
      ∷ (write_ahead data_conn ahead ++ relay session.player data_conn ∷ []),
)

-- The relay is over: it closes both connections, and the deferred calls run, of which two close them
-- once more.
unfoldable pub session_over : Session → ℕ → Server → Server × List Effect
unfolding forget
session_over session data_conn s = (
  forget session.client session.conn_id s,
  close session.player ∷ close data_conn ∷ close data_conn ∷ close session.player ∷ [],
)

-- The second case: the time for the data connection is over.
unfoldable pub session_timeout : Session → Server → Server × List Effect
unfolding forget
session_timeout session s = (forget session.client session.conn_id s, close session.player ∷ [])
