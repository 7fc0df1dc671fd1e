-- ===== src/Tunnel/Proxy/Ids.antt =====
-- The ids of `generateID` are as different as the clock's values.
use void_link_tunnels.Base.{
  ℕ, ◌+◌, ◌*◌, ◌^◌, ◌<◌, ◌≡◌, ◌∙◌, sym, ap, arith, some, [], ◌∷◌, Bytes, All,
}
use void_link_tunnels.Text.Words.{IsWord}
use void_link_tunnels.Text.Hex.{
  IsByte, decode_string, decode_string-encode_to_string, encode_to_string-IsWord,
}
use void_link_tunnels.Tunnel.Proxy.{id_bytes, generate_id}

id_bytes-IsByte : (ts : ℕ) → All IsByte (id_bytes ts)
unfolding id_bytes
id_bytes-IsByte ts = omega arith

-- The number that eight bytes stand for, lowest first.
from_bytes : Bytes → ℕ
from_bytes [] = 0
from_bytes (b ∷ s) = b + 256 * from_bytes s

from_bytes-id_bytes : (ts : ℕ) → ts < 2 ^ 64 → from_bytes (id_bytes ts) ≡ ts
unfolding from_bytes id_bytes
from_bytes-id_bytes ts h = omega arith

some_injective : {x y : Bytes} → some x ≡ some y → x ≡ y
some_injective h = cc

-- Two times within 64 bits that yield the same id are the same time: ids of different nanoseconds
-- differ.
pub generate_id_injective :
    (a b : ℕ) → a < 2 ^ 64 → b < 2 ^ 64 → generate_id a ≡ generate_id b → a ≡ b
unfolding generate_id
generate_id_injective a b ha hb h =
    let same : some (id_bytes a) ≡ some (id_bytes b) =
      sym (decode_string-encode_to_string (id_bytes a) (id_bytes-IsByte a))
      ∙ ap decode_string h
      ∙ decode_string-encode_to_string (id_bytes b) (id_bytes-IsByte b) in
    sym (from_bytes-id_bytes a ha) ∙ ap from_bytes (some_injective same) ∙ from_bytes-id_bytes b hb

-- An id is one word of a line.
pub generate_id-IsWord : (ts : ℕ) → IsWord (generate_id ts)
unfolding generate_id id_bytes
generate_id-IsWord ts = encode_to_string-IsWord (id_bytes ts) (id_bytes-IsByte ts) (cc)
