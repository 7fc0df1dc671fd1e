-- ===== src/Base/Bits.antt =====
-- Masks and shifted groups as arithmetic: what a loop over seven-bit groups needs.
use Prim.Native.Nat.{
  ℕ, zero, suc, ◌+◌, ◌*◌, ◌/◌, ◌%◌, ◌^◌, ◌≤◌, ◌<◌, max, bit_and, bit_or, digits, bit_or-bitwise,
}
use mathlib.Core.Path.{◌≡◌, refl, ap, ◌∙◌}
use mathlib.Core.Bool.{Bool, true, ◌&&◌}
use native.Mathlib.Omega.{arith}
use native.Mathlib.Nat.{pow-suc}
use void_link_tunnels.Base.Tests.{nat_beq, nat_beq_iff}

-- A table over a small range, checked by evaluation.
holds_below : ℕ → (ℕ → Bool) → Bool
holds_below zero p = true
holds_below (suc n) p = p n && holds_below n p

holds_below_sound : (n : ℕ) (p : ℕ → Bool) (x : ℕ) → holds_below n p ≡ true → x < n → p x ≡ true
unfolding holds_below
holds_below_sound zero p x h lt = absurd (omega arith)
holds_below_sound (suc n) p x h lt = ground (arith, holds_below_sound n p x)

low_table : holds_below 256 (λ b. nat_beq (bit_and b 0x7f) (b % 128)) ≡ true
unfolding holds_below
low_table = refl

top_table : holds_below 256 (λ b. nat_beq (bit_and b 0x80) (b / 128 * 128)) ≡ true
unfolding holds_below
top_table = refl

pub bit_and_low : (b : ℕ) → b < 256 → bit_and b 0x7f ≡ b % 128
bit_and_low b h = (nat_beq_iff _ _).0 (holds_below_sound 256 _ b low_table h)

pub bit_and_top : (b : ℕ) → b < 256 → bit_and b 0x80 ≡ b / 128 * 128
bit_and_top b h = (nat_beq_iff _ _).0 (holds_below_sound 256 _ b top_table h)

abbrev or_digits : ℕ → ℕ → ℕ → ℕ
or_digits n a b = digits (λ b. b) max n a b

shifted_twice : (g s : ℕ) → g * 2 ^ suc s ≡ 2 * (g * 2 ^ s)
shifted_twice g s = omega (arith, ap (λ (t : ℕ). g * t) (pow-suc 2 s))

half_shifted : (g s : ℕ) → g * 2 ^ suc s / 2 ≡ g * 2 ^ s
half_shifted g s = omega (arith, shifted_twice g s)

or_digits_add : (n a g s : ℕ) → a ≤ n → a < 2 ^ s → or_digits n a (g * 2 ^ s) ≡ a + g * 2 ^ s
or_digits_add zero zero g s p q = omega arith
or_digits_add zero (suc a) g s p q = absurd (omega arith)
or_digits_add (suc n) zero g s p q = omega arith
or_digits_add (suc n) (suc a) g zero p q = absurd (omega arith)
or_digits_add (suc n) (suc a) g (suc s) p q = omega (
  arith,
  shifted_twice g s,
  ap (or_digits n (suc a / 2)) (half_shifted g s)
      ∙ or_digits_add n (suc a / 2) g s (omega arith) (omega (arith, pow-suc 2 s)),
)

-- An or with a number that was shifted past the first one is a sum.
pub bit_or_shifted : (a g s : ℕ) → a < 2 ^ s → bit_or a (g * 2 ^ s) ≡ a + g * 2 ^ s
bit_or_shifted a g s h = bit_or-bitwise a (g * 2 ^ s) ∙ or_digits_add a a g s (omega arith) h
