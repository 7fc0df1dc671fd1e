-- ===== src/Tunnel/Handshake.antt =====
-- `parseMinecraftHandshake` of internal/tunnel/mc_proxy.go. The connection is the list of the bytes
-- that it yields before it ends or its deadline passes; a read beyond them is an error. A reader
-- also keeps the bytes that it has handed out, which is what the `TeeReader` writes to `raw`.
-- The values of a VarInt stay below 2^35, so Go's 64-bit `int` cannot overflow here.
pub mod VarInt
pub mod Packet
pub mod Buffer
pub mod Address
use Prim.Native.Nat.{bit_and, bit_or}
use void_link_tunnels.Base.{
  ℕ, zero, suc, ◌+◌, ◌*◌, ◌^◌, Bool, true, false, ◌||◌, Option, none, some, List, [], ◌∷◌, ◌++◌,
  Bytes, nat_beq, ltb, leb, if◌then◌else◌, codes,
}
use void_link_tunnels.Text.{first_part, trim_suffix}

pub data ParseError : Type 0 where
  read_failed varint_too_large bad_packet_length not_handshake bad_address_length : ParseError

pub data Result {ℓ} (A : Type ℓ) : Type ℓ where
  ok : A → Result A
  err : ParseError → Result A

-- `unread` is what the source still holds, `seen` what was read from it.
pub record Reader : Type 0 where
  pub unread : Bytes
  pub seen : Bytes

abbrev pub start : Bytes → Reader
start s = record { unread = s; seen = [] }

abbrev pub Read : Type 0 → Type 0
Read A = Reader → Result A × Reader

module _ {A B : Type 0} where
  abbrev pub then_read : Result A → (A → Read B) → Read B
  then_read (ok a) f r = f a r
  then_read (err e) f r = (err e, r)

infixl 5 ◌>>=◌ ◌>>◌
abbrev pub ◌>>=◌ : {A B : Type 0} → Read A → (A → Read B) → Read B
◌>>=◌ m f r = let (a, r') = m r in then_read a f r'

abbrev pub ◌>>◌ : {A B : Type 0} → Read A → Read B → Read B
m >> k = m >>= λ _. k

abbrev pub pure : {A : Type 0} → A → Read A
pure a r = (ok a, r)

abbrev pub fail_if : Bool → ParseError → Read (Unit {0})
fail_if b e r = (if b then err e else ok tt, r)

abbrev pub lift : {A : Type 0} → Result A → Read A
lift a r = (a, r)

-- A caller that puts its own error in place of the reader's.
abbrev pub replace_error : {A : Type 0} → ParseError → Result A → Result A
replace_error e (ok a) = ok a
replace_error e (err _) = err e

abbrev pub failing_as : {A : Type 0} → Read A → ParseError → Read A
failing_as m e r = let (a, r') = m r in (replace_error e a, r')

-- The loop of `readVarInt`, and of `readVarIntFrom`, which has the same body: a round reads one
-- byte, and the round that would follow shift 28 is not made.
unfoldable pub varint_loop : Bytes → Bytes → ℕ → ℕ → Result ℕ × Reader
varint_loop [] seen result shift = (err read_failed, record { unread = []; seen = seen })
varint_loop (b ∷ s) seen result shift =
    let result' = bit_or result (bit_and b 0x7f * 2 ^ shift) in
    let now : Reader = record { unread = s; seen = seen ++ b ∷ [] } in
    let more = varint_loop s (seen ++ b ∷ []) result' (shift + 7) in
    if nat_beq (bit_and b 0x80) 0
    then (ok result', now)
    else if leb 35 (shift + 7)
    then (err varint_too_large, now)
    else more

unfoldable pub read_varint : Read ℕ
unfolding varint_loop
read_varint r = varint_loop r.unread r.seen 0 0

-- The first `n` bytes and the rest, if there are so many.
unfoldable pub split_at : ℕ → Bytes → Option (Bytes × Bytes)
split_at zero s = some ([], s)
split_at (suc n) [] = none
split_at (suc n) (b ∷ s) = elim (split_at n s) [ none ↦ none | some (x, y) ↦ some (b ∷ x, y) ]

-- `io.ReadFull`: a source that is too short is read to its end.
unfoldable pub read_full : ℕ → Read Bytes
unfolding split_at
read_full n r = elim (split_at n r.unread) [
  | none ↦ (err read_failed, record { unread = []; seen = r.seen ++ r.unread })
  | some (x, y) ↦ (ok x, record { unread = y; seen = r.seen ++ x })
]

-- Cut a BungeeCord or Forge suffix at the first zero byte, then one trailing dot.
unfoldable pub clean_address : Bytes → Bytes
unfolding first_part trim_suffix
clean_address addr = trim_suffix (first_part 0 addr) (b'.' ∷ [])

-- What is parsed from the packet body, through a reader of its own.
unfoldable pub parse_body : Read Bytes
parse_body = do
  packet_id ← failing_as read_varint not_handshake
  fail_if (ltb 0 packet_id) not_handshake
  read_varint
  addr_len ← failing_as read_varint bad_address_length
  fail_if (nat_beq addr_len 0 || ltb 255 addr_len) bad_address_length
  addr ← read_full addr_len
  pure (clean_address addr)

-- The server address, and a reader whose `seen` is the second result, `raw.Bytes()`.
unfoldable pub parse_minecraft_handshake : Read Bytes
parse_minecraft_handshake = do
  packet_len ← failing_as read_varint bad_packet_length
  fail_if (nat_beq packet_len 0 || ltb 32768 packet_len) bad_packet_length
  body ← read_full packet_len
  lift (parse_body (start body)).0
