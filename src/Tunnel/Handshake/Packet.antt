-- ===== src/Tunnel/Handshake/Packet.antt =====
-- A handshake as a client sends it, and what the server makes of it.
use void_link_tunnels.Base.{
  ℕ, ◌^◌, ◌≤◌, ◌<◌, ◌≡◌, refl, false, some, [], ◌∷◌, ◌++◌, append_assoc, arith, Bytes, length,
  nat_beq, ltb, ◌||◌,
}
use void_link_tunnels.Tunnel.Handshake.{
  ok, start, split_at, read_full, clean_address, parse_body, parse_minecraft_handshake,
}
use void_link_tunnels.Tunnel.Handshake.VarInt.{put_varint, put_groups, read_varint-put_varint}

-- The packet of the protocol's documentation: packet id 0, the protocol version, the server's
-- address behind its length, then the port and the next state, which the server does not read.
pub record Handshake : Type 0 where
  pub protocol : ℕ
  pub address : Bytes
  pub trailer : Bytes

unfoldable pub put_body : Handshake → Bytes
put_body h =
    put_varint 0
    ++ (put_varint h.protocol ++ (put_varint (length h.address) ++ (h.address ++ h.trailer)))

unfoldable pub put_handshake : Handshake → Bytes
put_handshake h = put_varint (length (put_body h)) ++ put_body h

split_at-length : (x y : Bytes) → split_at (length x) (x ++ y) ≡ some (x, y)
unfolding split_at
split_at-length [] y = refl
split_at-length (b ∷ x) y = rw (split_at-length x y)

read_full-append :
    (x y seen : Bytes)
    → read_full (length x) (record { unread = x ++ y; seen = seen })
      ≡ (ok x, record { unread = y; seen = seen ++ x })
unfolding read_full
read_full-append x y seen = rw (split_at-length x y, read_full)

-- The numbers of a packet fit: the length of the address is not zero and at most 255, the
-- protocol version is below 2^35, and the packet has at most 32768 bytes.
pub record IsSendable (h : Handshake) : Type 0 where
  pub some_address : 0 < length h.address
  pub short_address : length h.address ≤ 255
  pub protocol : h.protocol < 2 ^ 35
  pub short_packet : length (put_body h) ≤ 32768

in_range : (most n : ℕ) → 0 < n → n ≤ most → (nat_beq n 0 || ltb most n) ≡ false
in_range most n low high = ground arith

put_body_nonempty : (h : Handshake) → IsSendable h → 0 < length (put_body h)
unfolding put_body put_varint put_groups
put_body_nonempty h p = omega arith

parse_body-put_body :
    (h : Handshake)
    → IsSendable h
    → (parse_body (start (put_body h))).0 ≡ ok (clean_address h.address)
unfolding parse_body put_body
parse_body-put_body h p =
    let n = length h.address in
    let tail = h.address ++ h.trailer in
    rw (
      read_varint-put_varint 0 (put_varint h.protocol ++ (put_varint n ++ tail)) [] (omega arith),
      read_varint-put_varint h.protocol (put_varint n ++ tail) ([] ++ put_varint 0) p.protocol,
      read_varint-put_varint n tail (([] ++ put_varint 0) ++ put_varint h.protocol) (omega arith),
      in_range 255 n p.some_address p.short_address,
      read_full-append h.address h.trailer
          (([] ++ put_varint 0) ++ put_varint h.protocol ++ put_varint n),
    )

-- A client's handshake whose address has 1 to 255 bytes, whose protocol version is below 2^35, and
-- whose packet has at most 32768 bytes is accepted: the server finds its address without the suffix
-- behind a zero byte and without one trailing dot, has buffered the packet's bytes and nothing else,
-- and has left what follows them unread.
pub parse_minecraft_handshake-put_handshake :
    (h : Handshake) (rest : Bytes)
    → IsSendable h
    → parse_minecraft_handshake (start (put_handshake h ++ rest))
      ≡ (ok (clean_address h.address), record { unread = rest; seen = put_handshake h })
unfolding parse_minecraft_handshake put_handshake
parse_minecraft_handshake-put_handshake h rest p =
    let n = length (put_body h) in
    rw (
      append_assoc (put_varint n) (put_body h) rest,
      read_varint-put_varint n (put_body h ++ rest) [] (omega arith),
      in_range 32768 n (put_body_nonempty h p) p.short_packet,
      read_full-append (put_body h) rest ([] ++ put_varint n),
      parse_body-put_body h p,
    )
