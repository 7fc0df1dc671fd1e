-- ===== src/Text/Hex.antt =====
-- `encoding/hex`: two lower case digits for a byte; decoding takes digits of both cases.
use void_link_tunnels.Base.{
  ℕ, ◌+◌, ◌-◌, ◌*◌, ◌/◌, ◌%◌, ◌≡◌, ◌<◌, refl, false, Option, none, some, [], ◌∷◌, arith, Bytes, All,
  leb, ltb, ◌&&◌, if◌then◌else◌, ◌>>=◌, ◌≢◌, ap, ◌∙◌,
}
use void_link_tunnels.Text.{is_space}
use void_link_tunnels.Text.Words.{IsWord}

abbrev pub IsByte : ℕ → Type 0
IsByte b = b < 256

unfoldable pub hex_digit : ℕ → ℕ
hex_digit d = if ltb d 10 then b'0' + d else b'a' + (d - 10)

unfoldable pub hex_value : ℕ → Option ℕ
hex_value c =
    if leb b'0' c && leb c b'9'
    then some (c - b'0')
    else if leb b'a' c && leb c b'f'
    then some (c - b'a' + 10)
    else if leb b'A' c && leb c b'F'
    then some (c - b'A' + 10)
    else none

unfoldable pub encode_to_string : Bytes → Bytes
unfolding hex_digit
encode_to_string [] = []
encode_to_string (b ∷ s) = hex_digit (b / 16) ∷ hex_digit (b % 16) ∷ encode_to_string s

-- `none` is an error: a byte that is no digit, or an odd length.
unfoldable pub decode_string : Bytes → Option Bytes
unfolding hex_value
decode_string [] = some []
decode_string (h ∷ []) = none
decode_string (h ∷ l ∷ s) = do
  x ← hex_value h
  y ← hex_value l
  rest ← decode_string s
  some ((x * 16 + y) ∷ rest)

hex_value-hex_digit : (d : ℕ) → d < 16 → hex_value (hex_digit d) ≡ some d
unfolding hex_value hex_digit
hex_value-hex_digit d h = ground arith

hex_digit-solid : (d : ℕ) → d < 16 → is_space (hex_digit d) ≡ false
unfolding hex_digit is_space
hex_digit-solid d h = ground arith

decode_string-cons :
    (h l x y : ℕ) (s r : Bytes)
    → hex_value h ≡ some x
    → hex_value l ≡ some y
    → decode_string s ≡ some r
    → decode_string (h ∷ l ∷ s) ≡ some ((x * 16 + y) ∷ r)
unfolding decode_string
decode_string-cons h l x y s r p q e = rw (p, q, e)

encoded_byte : (b : ℕ) → b / 16 * 16 + b % 16 ≡ b
encoded_byte b = omega arith

-- Decoding an encoded payload gives it back.
pub decode_string-encode_to_string :
    (s : Bytes) → All IsByte s → decode_string (encode_to_string s) ≡ some s
unfolding encode_to_string
decode_string-encode_to_string [] h = unfold decode_string in refl
decode_string-encode_to_string (b ∷ s) (hb, h) =
    decode_string-cons _ _ _ _ _ _ (hex_value-hex_digit (b / 16) (omega arith))
      (hex_value-hex_digit (b % 16) (omega arith)) (decode_string-encode_to_string s h)
    ∙ ap (λ (c : ℕ). some (c ∷ s)) (encoded_byte b)

encode_to_string-solid :
    (s : Bytes) → All IsByte s → All (λ c. is_space c ≡ false) (encode_to_string s)
unfolding encode_to_string
encode_to_string-solid [] h = tt
encode_to_string-solid (b ∷ s) (hb, h) = (
  hex_digit-solid (b / 16) (omega arith),
  (hex_digit-solid (b % 16) (omega arith), encode_to_string-solid s h),
)

-- The hex text of a payload that is not empty is one word of a line.
pub encode_to_string-IsWord : (s : Bytes) → All IsByte s → s ≢ [] → IsWord (encode_to_string s)
unfolding encode_to_string
encode_to_string-IsWord [] h ne = absurd (ne refl)
encode_to_string-IsWord (b ∷ s) h ne = record {
  solid = encode_to_string-solid (b ∷ s) h;
  some_byte = cc;
}
