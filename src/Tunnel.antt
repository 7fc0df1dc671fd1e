-- ===== src/Tunnel.antt =====
-- The tunnel server, internal/tunnel.
pub mod Hostname
pub mod Handshake
pub mod Server
pub mod Proxy
pub mod Relay
pub mod Events
