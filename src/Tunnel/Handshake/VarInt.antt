-- ===== src/Tunnel/Handshake/VarInt.antt =====
-- The VarInt of the Minecraft protocol: an encoder, and the loop that reads what it wrote.
use Prim.Native.Nat.{bit_and}
use native.Mathlib.Nat.{pow-suc}
use native.Mathlib.Numerals.{towards_suc}
use void_link_tunnels.Base.{
  ℕ, zero, suc, ◌+◌, ◌*◌, ◌/◌, ◌%◌, ◌^◌, ◌<◌, ◌≡◌, ap, ◌∙◌, [], ◌∷◌, ◌++◌, append_assoc, arith,
  Bytes, ltb, if◌then◌else◌, Bool-cases, inl, inr,
}
use void_link_tunnels.Base.Bits.{bit_and_low, bit_and_top, bit_or_shifted}
use void_link_tunnels.Tunnel.Handshake.{ok, varint_loop, read_varint}

-- A client writes groups of seven bits, lowest first, with the top bit set on all but the last.
unfoldable pub put_groups : ℕ → ℕ → Bytes
put_groups zero n = n ∷ []
put_groups (suc k) n =
    let more = (n % 128 + 128) ∷ put_groups k (n / 128) in if ltb n 128 then n ∷ [] else more

-- At most five groups, so for numbers below 2^35.
unfoldable pub put_varint : ℕ → Bytes
unfolding put_groups
put_varint = put_groups 4

-- One round on a last byte, and on a byte with the top bit set over the group `g`.
last_round :
    (b : ℕ) (s seen : Bytes) (r sh : ℕ)
    → b < 128
    → r < 2 ^ sh
    → varint_loop (b ∷ s) seen r sh
      ≡ (ok (r + b * 2 ^ sh), record { unread = s; seen = seen ++ b ∷ [] })
unfolding varint_loop
last_round b s seen r sh hb hr =
    let low : bit_and b 0x7f ≡ b = omega (arith, bit_and_low b) in
    let top : bit_and b 0x80 ≡ 0 = omega (arith, bit_and_top b) in
    rw (low, top, bit_or_shifted r b sh hr)

inner_round :
    (g : ℕ) (s seen : Bytes) (r sh : ℕ)
    → g < 128
    → r < 2 ^ sh
    → sh + 7 < 35
    → varint_loop ((g + 128) ∷ s) seen r sh
      ≡ varint_loop s (seen ++ (g + 128) ∷ []) (r + g * 2 ^ sh) (sh + 7)
unfolding varint_loop
inner_round g s seen r sh hg hr hs =
    let low : bit_and (g + 128) 0x7f ≡ g = omega (arith, bit_and_low (g + 128)) in
    let top : bit_and (g + 128) 0x80 ≡ 128 = omega (arith, bit_and_top (g + 128)) in
    rw (low, top, bit_or_shifted r g sh hr) (ground arith)

shift_seven : (s : ℕ) → 2 ^ (s + 7) ≡ 128 * 2 ^ s
shift_seven s = simp towards_suc (omega (arith, pow-suc 2 s))

-- The groups read so far stay below the shift.
group_bound : (g r sh : ℕ) → g < 128 → r < 2 ^ sh → r + g * 2 ^ sh < 2 ^ (sh + 7)
group_bound g r sh hg hr = grind (arith, shift_seven sh)

-- The lowest group of `n` and the rest, both shifted by `sh`.
regroup : (n r sh : ℕ) → r + n % 128 * 2 ^ sh + n / 128 * 2 ^ (sh + 7) ≡ r + n * 2 ^ sh
regroup n r sh =
    let whole : n % 128 + n / 128 * 128 ≡ n = omega arith in
    omega (arith, ap (λ (t : ℕ). t * 2 ^ sh) whole, ap (λ (t : ℕ). n / 128 * t) (shift_seven sh))

varint_loop-put_groups :
    (k n : ℕ) (s seen : Bytes) (r sh : ℕ)
    → n < 128 ^ suc k
    → r < 2 ^ sh
    → sh + 7 * k < 35
    → varint_loop (put_groups k n ++ s) seen r sh
      ≡ (ok (r + n * 2 ^ sh), record { unread = s; seen = seen ++ put_groups k n })
unfolding put_groups
varint_loop-put_groups zero n s seen r sh hn hr hs = last_round n s seen r sh (omega arith) hr
varint_loop-put_groups (suc k) n s seen r sh hn hr hs = elim (Bool-cases (ltb n 128)) [
  | inl small ↦ rw small (last_round n s seen r sh (ground arith) hr)
  | inr large ↦ rw large (
      inner_round (n % 128) (put_groups k (n / 128) ++ s) seen r sh (omega arith) hr (omega arith)
      ∙ varint_loop-put_groups k (n / 128) s (seen ++ (n % 128 + 128) ∷ []) (r + n % 128 * 2 ^ sh)
          (sh + 7) (omega (arith, pow-suc 128 (suc k)))
          (group_bound (n % 128) r sh (omega arith) hr) (omega arith)
      ∙ rw (regroup n r sh, append_assoc seen ((n % 128 + 128) ∷ []) (put_groups k (n / 128))))
]

-- Reading an encoded number gives the number back, and takes exactly its bytes from the source.
pub read_varint-put_varint :
    (n : ℕ) (s seen : Bytes)
    → n < 2 ^ 35
    → read_varint (record { unread = put_varint n ++ s; seen = seen })
      ≡ (ok n, record { unread = s; seen = seen ++ put_varint n })
unfolding read_varint put_varint
read_varint-put_varint n s seen h =
    varint_loop-put_groups 4 n s seen 0 0 h (omega arith) (omega arith) ∙ rw (zero_shift n)
  where
    zero_shift : (m : ℕ) → 0 + m * 2 ^ 0 ≡ m
    zero_shift m = omega arith
