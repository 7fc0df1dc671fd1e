-- ===== src/Base/Int.antt =====
-- Go's `int` where the program only stores it, prints it and compares it with zero: local ports
-- come unchecked from a request, so they may be negative.
use void_link_tunnels.Base.Tests.{if◌then◌else◌, ltb, Bool-cases}
use void_link_tunnels.Base.Lists.{Bytes, All}
use mathlib.Core.Logic.{inl, inr}
use native.Mathlib.Omega.{arith}
use Prim.Native.Nat.{ℕ, zero, suc, ◌+◌, ◌/◌, ◌%◌, ◌<◌}
use mathlib.Core.Bool.{Bool, true, false}
use mathlib.Core.List.{[], ◌∷◌}

-- `negsuc n` is -(n + 1).
pub data ℤ : Type 0 where
  pos : ℕ → ℤ
  negsuc : ℕ → ℤ

abbrev pub is_zero : ℤ → Bool
is_zero (pos zero) = true
is_zero _ = false

unfoldable pub digits_from : ℕ → ℕ → Bytes → Bytes
digits_from zero n out = (b'0' + n % 10) ∷ out
digits_from (suc fuel) n out =
    let more = digits_from fuel (n / 10) ((b'0' + n % 10) ∷ out) in
    if ltb n 10 then (b'0' + n % 10) ∷ out else more

-- `%d`. A number has no more digits than its value, so its value is fuel enough.
unfoldable pub decimal : ℕ → Bytes
unfolding digits_from
decimal n = digits_from n n []

unfoldable pub int_text : ℤ → Bytes
unfolding decimal
int_text (pos n) = decimal n
int_text (negsuc n) = b'-' ∷ decimal (suc n)

digits_from-All :
    (P : ℕ → Type 0)
    → ((d : ℕ) → d < 10 → P (b'0' + d))
    → (fuel n : ℕ) (out : Bytes) → All P out
    → All P (digits_from fuel n out)
unfolding digits_from
digits_from-All P digit zero n out h = (digit (n % 10) (omega arith), h)
digits_from-All P digit (suc fuel) n out h = elim (Bool-cases (ltb n 10)) [
  | inl small ↦ rw small (digit (n % 10) (omega arith), h)
  | inr large ↦ rw large (digits_from-All P digit fuel (n / 10) _ (digit (n % 10) (omega arith), h))
]

-- A decimal number holds digits only.
pub decimal-All : (P : ℕ → Type 0) → ((d : ℕ) → d < 10 → P (b'0' + d)) → (n : ℕ) → All P (decimal n)
unfolding decimal
decimal-All P digit n = digits_from-All P digit n n [] tt
