-- ===== src/Lib.antt =====
-- A verification library for VoidLink Tunnels: the tunnel server, which lets players reach a game
-- server behind a desktop client, and its HTTP API, with the accounts of its users.
--
-- The parts of the program and their models. A tunnel is a row of the database. Starting it enters
-- its subdomain and ports into the tables of the server; a desktop client then opens a control
-- channel for it. A player's connection to one of the two shared proxies is routed by the subdomain
-- of its address to that client, which is asked with OPEN for a data connection under a fresh id;
-- voice packets go over the control channel itself.
--   Tunnel.Hostname: extractSubdomainFromAddr (internal/tunnel/mc_proxy.go).
--   Tunnel.Handshake: parseMinecraftHandshake (internal/tunnel/mc_proxy.go).
--   Tunnel.Server: Server, RegisterTunnel, UnregisterTunnel, IsClientConnected, IsUDPPortInUse
--     (internal/tunnel/server.go); Tunnel.Server.Control: handleNewConn, validateJWT,
--     handleControlConnFromReader and the lines of readControlLoop; Tunnel.Server.Data:
--     handleDataConn, and the sessions of the proxies; Tunnel.Server.Udp: startUDPPortListener and
--     handleUDPPacket.
--   Tunnel.Proxy: handleMCConnection (internal/tunnel/mc_proxy.go), handleHTTPConnection
--     (internal/tunnel/http_proxy.go) and generateID (internal/tunnel/server.go).
--   Models: Tunnel, TunnelResponse and ToResponse (internal/models/tunnel.go).
--   Services: TunnelService (internal/services/tunnel_service.go); Services.Subdomain:
--     SubdomainService (internal/services/subdomain.go); Services.Email: EmailService
--     (internal/services/email.go), whose IsConfigured is an argument of ForgotPassword.
--   Tunnel.Relay: relay (internal/tunnel/server.go), as a step relation. Tunnel.Events: everything
--     that happens to the server's state, as a sequence of events; Tunnel.Server.Links: what all
--     handlers keep true of the client objects.
--   Handlers: Get, Delete, Start, Stop and allocateUDPPort (internal/handlers/tunnels.go);
--     Handlers.Edit: Create and Update; Handlers.Listing: List; Handlers.Calls: these requests as
--     values, and sequences of them. The rows of the table tunnels are a list, whose unique columns
--     are those of internal/database/migrations.go.
--   Accounts: the tables users, refresh_tokens and password_reset_tokens, and handlers as chains of
--     steps on them. Accounts.Tokens: JWTManager (internal/utils/jwt.go); Accounts.Auth: Register,
--     Login, Refresh, Logout, Me, and Accounts.Reset: ForgotPassword and ResetPassword
--     (internal/handlers/auth.go); Accounts.TwoFactor: Setup, Verify and Disable
--     (internal/handlers/twofactor.go), with TOTPService (internal/services/totp.go);
--     Accounts.Rules: what holds after a chain; Accounts.Moves: what a request may do to a user.
--     Models.User: the data of internal/models/user.go.
--   Middleware: AuthMiddleware (internal/middleware/auth.go). Api: the routes of
--     cmd/server/main.go and the endpoints of internal/handlers/health.go, which call the handlers
--     of accounts and of tunnels behind the middleware.
--   Config: Load, getEnv and getEnvInt (internal/config/config.go).
--   Text: the functions of Go's strings, net and encoding/hex that these call. Base: shared helpers,
--     among them Base.Map for sync.Map. Tests: concrete data and runs.
--
-- How state and calls are modelled. A handler is a function from the state to the state and the list
-- of its effects on connections, in order. Connections, packet connections, client objects and
-- channels are handles, since the source shares and compares them by reference; client objects and
-- channels live in two heaps of the state. Each handler runs as one step; where the source runs a
-- part in a goroutine of its own (the start of a voice listener, the wait for a data connection,
-- the end of a control channel), it is a step of its own. What the environment decides is an
-- argument: the clock, whether a send or a statement of the database succeeds, whether a socket
-- opens, what a query yields. For a request on an account these are a record, Env: one time for the
-- whole request, in microseconds, which statements are carried out, the id of a new row, random
-- bytes and what bcrypt makes of a password. A request's body is what the decoder yields after its
-- validation. Signing and parsing of JSON web tokens, SHA-256, bcrypt's
-- comparison and the TOTP library are parameters, the record Primitives; what a theorem needs of
-- them is among its hypotheses. The router of the API is one, too: a request names its handler.
--
-- Bounds. Texts are lists of bytes, and ASCII where Go's functions look at letters or spaces. A
-- connection is the finite list of the bytes that it yields, and all loops recur on it; the search
-- for a port recurs on the number of ports left. Ports of the pool and ids of handles are natural
-- numbers, local ports are integers, as they come unchecked from a request. A VarInt stays below
-- 2^35, so Go's int does not overflow. A net.Addr and a UUID are their printed forms.
--
-- A relay starts as one effect of a session, and has its own model from there; each connection
-- yields finitely many pieces, and a peer may end by itself or only once it has seen the half-close.
--
-- Not modelled: accept loops, deadlines, pings and logging; the connection to the
-- database and its migrations; the construction of the parts at the start.
-- Two requests are taken one after the other, not interleaved between their statements.
pub mod Base
pub mod Text
pub mod Tunnel
pub mod Models
pub mod Services
pub mod Handlers
pub mod Accounts
pub mod Config
pub mod Middleware
pub mod Api
pub mod Tests
