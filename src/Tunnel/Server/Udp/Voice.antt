-- ===== src/Tunnel/Server/Udp/Voice.antt =====
-- A voice packet and the reply to it: the reply finds its way back to the player.
use void_link_tunnels.Base.{
  ℕ, ◌≡◌, ◌≢◌, refl, ◌∙◌, ap, Bool, none, some, [], ◌∷◌, ◌++◌, Bytes, codes, nat_eq, bytes_eq,
  bytes_beq, bytes_beq_iff, Option-cases, inl, inr, All,
}
use void_link_tunnels.Base.Int.{ℤ}
use void_link_tunnels.Base.Map.{load, load-store}
use void_link_tunnels.Text.{fields, is_space}
use void_link_tunnels.Text.Words.{IsWord, fields-word, fields-nil}
use void_link_tunnels.Text.Hex.{
  IsByte, encode_to_string, decode_string-encode_to_string, encode_to_string-IsWord,
}
use void_link_tunnels.Tunnel.Server.{Server, write_to, UdpPlayerEntry}
use void_link_tunnels.Tunnel.Server.Control.{effects, udp_reply, control_words, control_line}
use void_link_tunnels.Tunnel.Server.Control.Lines.{control_line_of_words}
use void_link_tunnels.Tunnel.Server.Udp.{handle_udp_packet}

-- The reply that a desktop client sends for a player.
abbrev pub reply_message : Bytes → Bytes → Bytes
reply_message conn_id payload =
    codes "UDP_REPLY" ++ (32 ∷ (conn_id ++ (32 ∷ (encode_to_string payload ++ (10 ∷ [])))))

reply-IsWord : IsWord (codes "UDP_REPLY")
unfolding is_space
reply-IsWord = record {
  solid = (refl, (refl, (refl, (refl, (refl, (refl, (refl, (refl, (refl, tt)))))))));
  some_byte = cc;
}

fields-reply_message :
    (conn_id payload : Bytes)
    → IsWord conn_id
    → IsWord (encode_to_string payload)
    → fields (reply_message conn_id payload)
      ≡ codes "UDP_REPLY" ∷ conn_id ∷ encode_to_string payload ∷ []
unfolding is_space
fields-reply_message conn_id payload hc hp =
    fields-word (codes "UDP_REPLY") _ 32 reply-IsWord refl
    ∙ ap (λ ws. codes "UDP_REPLY" ∷ ws)
        (fields-word conn_id _ 32 hc refl
          ∙ ap (λ ws. conn_id ∷ ws)
              (fields-word (encode_to_string payload) [] 10 hp refl
                ∙ ap (λ ws. encode_to_string payload ∷ ws) fields-nil))

udp_reply_known :
    (conn_id payload : Bytes) (entry : UdpPlayerEntry) (s : Server)
    → All IsByte payload
    → load conn_id s.udp_player_map ≡ some entry
    → udp_reply (conn_id ∷ encode_to_string payload ∷ []) s
      ≡ write_to entry.pc entry.addr payload ∷ []
unfolding udp_reply
udp_reply_known conn_id payload entry s bytes known =
    rw (decode_string-encode_to_string payload bytes, udp_reply) (rw (known, udp_reply))

player_known :
    (pc : ℕ) (addr packet tunnel_id : Bytes) (local_port : ℤ) (sent : Bool) (s : Server)
    → load tunnel_id s.clients ≢ none
    → load addr (handle_udp_packet pc addr packet tunnel_id local_port sent s).0.udp_player_map
      ≡ some (record { pc = pc; addr = addr })
unfolding handle_udp_packet
player_known pc addr packet tunnel_id local_port sent s client =
    elim (Option-cases (load tunnel_id s.clients)) [
      | inl n ↦ absurd (client n)
      | inr (ref, found) ↦
          rw (found, handle_udp_packet)
            (load-store addr addr _ s.udp_player_map ∙ rw ((bytes_beq_iff addr addr).1 refl))
    ]

control_line-reply_message :
    (conn_id payload : Bytes) (s : Server)
    → IsWord conn_id
    → IsWord (encode_to_string payload)
    → control_line (reply_message conn_id payload) s
      ≡ effects (udp_reply (conn_id ∷ encode_to_string payload ∷ []) s)
unfolding control_words bytes_beq
control_line-reply_message conn_id payload s hc hp =
    control_line_of_words _ _ _ s (fields-reply_message conn_id payload hc hp)

-- A packet of a player, whose address is one word, reaches a tunnel with a client: in the state
-- that it leaves, a reply that names the player, with a payload of one byte or more, is written to
-- exactly that player's address on the socket of that packet. This holds whether or not the packet
-- could be passed on.
pub control_line-handle_udp_packet :
    (pc : ℕ) (addr packet payload tunnel_id : Bytes) (local_port : ℤ) (sent : Bool) (s : Server)
    → load tunnel_id s.clients ≢ none
    → IsWord addr
    → All IsByte payload
    → payload ≢ []
    → control_line
        (reply_message addr payload)
        (handle_udp_packet pc addr packet tunnel_id local_port sent s).0
      ≡ effects (write_to pc addr payload ∷ [])
control_line-handle_udp_packet pc addr packet payload tunnel_id local_port sent s client word bytes
      ne =
    let s' = (handle_udp_packet pc addr packet tunnel_id local_port sent s).0 in
    control_line-reply_message addr payload s' word (encode_to_string-IsWord payload bytes ne)
    ∙ ap effects (
        udp_reply_known addr payload (record { pc = pc; addr = addr }) s' bytes
          (player_known pc addr packet tunnel_id local_port sent s client))
