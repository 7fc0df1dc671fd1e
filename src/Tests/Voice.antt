-- ===== src/Tests/Voice.antt =====
-- A voice packet of a player, and the reply.
use void_link_tunnels.Base.{
  ◌≡◌, ◌≢◌, true, none, [], ◌∷◌, Bytes, codes, arith, nat_eq, bytes_eq, All,
}
use void_link_tunnels.Base.Int.{pos}
use void_link_tunnels.Base.Map.{load}
use void_link_tunnels.Text.{is_space}
use void_link_tunnels.Text.Words.{IsWord}
use void_link_tunnels.Text.Hex.{IsByte}
use void_link_tunnels.Tunnel.Server.{write_to}
use void_link_tunnels.Tunnel.Server.Control.{effects, control_line}
use void_link_tunnels.Tunnel.Server.Udp.{handle_udp_packet}
use void_link_tunnels.Tunnel.Server.Udp.Voice.{reply_message, control_line-handle_udp_packet}
use void_link_tunnels.Tests.{serving_cat, serving_cat-clients}

abbrev player : Bytes
player = codes "203.0.113.7:50123"

abbrev packet : Bytes
packet = codes "hi"

abbrev answer : Bytes
answer = 0 ∷ 255 ∷ []

player-IsWord : IsWord player
unfolding is_space
player-IsWord = record { solid = ground arith; some_byte = cc }

answer-bytes : All IsByte answer
answer-bytes = omega arith

some_client : load (codes "t1") serving_cat.clients ≢ none
some_client = cc serving_cat-clients

control_line-handle_udp_packet_example :
    control_line
      (reply_message player answer)
      (handle_udp_packet 6 player packet (codes "t1") (pos 24454) true serving_cat).0
    ≡ effects (write_to 6 player answer ∷ [])
control_line-handle_udp_packet_example =
    control_line-handle_udp_packet 6 player packet answer (codes "t1") (pos 24454) true serving_cat
      some_client player-IsWord answer-bytes (cc)
