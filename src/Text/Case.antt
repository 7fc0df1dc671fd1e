-- ===== src/Text/Case.antt =====
-- Laws of `to_lower`, and how it passes through the functions that look for a mark: a byte that is
-- no letter.
use mathlib.Core.Option
use void_link_tunnels.Base.{
  ℕ, ◌≡◌, refl, [], ◌∷◌, ◌++◌, arith, Bytes, All, nat_beq, Option-cases, inl, inr, ◌<◌, ◌⊎◌,
}
use void_link_tunnels.Text.{to_lower, lower_byte, contains, cut_first, cut_last}

-- Neither an upper nor a lower case letter.
abbrev pub IsMark : ℕ → Type 0
IsMark b = (b < b'A') ⊎ ((b'Z' < b) × (b < b'a')) ⊎ (b'z' < b)

abbrev pub IsLowerByte : ℕ → Type 0
IsLowerByte c = (c < b'A') ⊎ (b'Z' < c)

-- No upper case letter occurs.
abbrev pub IsLower : Bytes → Type 0
IsLower = All IsLowerByte

lower_byte_lem : (c : ℕ) → IsLowerByte c → lower_byte c ≡ c
unfolding lower_byte
lower_byte_lem c h = ground arith

lower_byte-IsLowerByte : (c : ℕ) → IsLowerByte (lower_byte c)
unfolding lower_byte
lower_byte-IsLowerByte c = ground arith

-- A mark is the lower case of itself alone.
pub nat_beq-lower_byte : (b c : ℕ) → IsMark b → nat_beq (lower_byte c) b ≡ nat_beq c b
unfolding lower_byte
nat_beq-lower_byte b c h = ground arith

pub to_lower_of_IsLower : (s : Bytes) → IsLower s → to_lower s ≡ s
unfolding to_lower
to_lower_of_IsLower [] h = refl
to_lower_of_IsLower (c ∷ s) (hc, h) = cc (lower_byte_lem c hc, to_lower_of_IsLower s h)

pub to_lower-IsLower : (s : Bytes) → IsLower (to_lower s)
unfolding to_lower
to_lower-IsLower [] = tt
to_lower-IsLower (c ∷ s) = (lower_byte-IsLowerByte c, to_lower-IsLower s)

pub to_lower_idem : (s : Bytes) → to_lower (to_lower s) ≡ to_lower s
to_lower_idem s = to_lower_of_IsLower (to_lower s) (to_lower-IsLower s)

pub to_lower-append : (s t : Bytes) → to_lower (s ++ t) ≡ to_lower s ++ to_lower t
unfolding to_lower
to_lower-append [] t = refl
to_lower-append (c ∷ s) t = rw (to_lower-append s t)

pub contains-to_lower : (b : ℕ) (s : Bytes) → IsMark b → contains b (to_lower s) ≡ contains b s
unfolding contains to_lower
contains-to_lower b [] h = refl
contains-to_lower b (c ∷ s) h = rw (nat_beq-lower_byte b c h, contains-to_lower b s h)

-- Both parts of a cut in lower case.
abbrev pub lower_both : Bytes × Bytes → Bytes × Bytes
lower_both (x, y) = (to_lower x, to_lower y)

pub cut_first-to_lower :
    (b : ℕ) (s : Bytes)
    → IsMark b
    → cut_first b (to_lower s) ≡ Option.map lower_both (cut_first b s)
unfolding cut_first to_lower
cut_first-to_lower b [] h = refl
cut_first-to_lower b (c ∷ s) h = elim (Option-cases (cut_first b s)) [
  | inl n ↦ ground (arith, nat_beq-lower_byte b c h, cut_first-to_lower b s h)
  | inr (p, found) ↦ ground (arith, nat_beq-lower_byte b c h, cut_first-to_lower b s h)
]

pub cut_last-to_lower :
    (b : ℕ) (s : Bytes) → IsMark b → cut_last b (to_lower s) ≡ Option.map lower_both (cut_last b s)
unfolding cut_last to_lower
cut_last-to_lower b [] h = refl
cut_last-to_lower b (c ∷ s) h = elim (Option-cases (cut_last b s)) [
  | inl n ↦
      ground (arith, nat_beq-lower_byte b c h, cut_last-to_lower b s h, contains-to_lower b s h)
  | inr (p, found) ↦
      ground (arith, nat_beq-lower_byte b c h, cut_last-to_lower b s h, contains-to_lower b s h)
]
