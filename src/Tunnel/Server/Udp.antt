-- ===== src/Tunnel/Server/Udp.antt =====
-- The voice chat listeners of internal/tunnel/server.go: `startUDPPortListener` and
-- `handleUDPPacket`. Whether the socket opens, and whether `client.send` succeeds, is up to the
-- environment.
pub mod Voice
pub mod Late
use void_link_tunnels.Base.{
  ℕ, Bool, Option, none, some, List, [], ◌++◌, Bytes, codes, if◌then◌else◌, nat_eq, bytes_eq,
}
use void_link_tunnels.Base.Int.{ℤ, int_text}
use void_link_tunnels.Base.Map.{load, store}
use void_link_tunnels.Text.Hex.{encode_to_string}
use void_link_tunnels.Tunnel.Server.{Server, Effect}
use void_link_tunnels.Tunnel.Server.Data.{client_write}

-- The first part of `startUDPPortListener`, given the socket, if the port could be bound. The loop
-- behind it hands each packet to `handleUDPPacket`.
unfoldable pub start_udp_port_listener : ℕ → Option ℕ → Server → Server
start_udp_port_listener public_port none s = s
start_udp_port_listener public_port (some pc) s = record s {
  udp_listeners = store public_port pc s.udp_listeners;
}

unfoldable pub udp_packet_message : Bytes → ℤ → Bytes → Bytes
unfolding int_text encode_to_string
udp_packet_message conn_id local_port payload =
    codes "UDP_PKT "
    ++ (conn_id
        ++ (codes " "
            ++ (int_text local_port ++ (codes " " ++ (encode_to_string payload ++ codes "\n")))))

-- A packet from the address `addr` on the socket `pc`.
unfoldable pub handle_udp_packet :
    ℕ → Bytes → Bytes → Bytes → ℤ → Bool → Server → Server × List Effect
unfolding client_write
handle_udp_packet pc addr payload tunnel_id local_port sent s = elim (load tunnel_id s.clients) [
  | none ↦ (s, [])
  | some ref ↦ (
    record s { udp_player_map = store addr (record { pc = pc; addr = addr }) s.udp_player_map },
    if sent then client_write ref (udp_packet_message addr local_port payload) s else [],
  )
]
