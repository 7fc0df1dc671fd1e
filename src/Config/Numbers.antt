-- ===== src/Config/Numbers.antt =====
-- Numbers that are written as decimal text are read back, and nothing out of range is.
use void_link_tunnels.Base.{
  ℕ, zero, suc, ◌+◌, ◌*◌, ◌-◌, ◌/◌, ◌%◌, ◌≤◌, ◌<◌, ◌≡◌, ◌≢◌, refl, ◌∙◌, ap, true, false, ◌&&◌,
  Option, none, some, [], ◌∷◌, Bytes, ltb, leb, nat_beq, Bool-cases, Option-cases, inl, inr, arith,
  bytes_eq, bytes_beq, ◌>>=◌,
}
use void_link_tunnels.Base.Lists.{All}
use void_link_tunnels.Base.Int.{ℤ, pos, negsuc, digits_from, decimal, decimal-All, int_text}
use void_link_tunnels.Config.{
  digits_after, unsigned, max_int, in_range, negated, atoi, Environment, get_env_int,
}

-- One digit more.
digits_after-digit :
    (n d : ℕ) (out : Bytes)
    → d < 10
    → digits_after n ((b'0' + d) ∷ out) ≡ digits_after (n * 10 + d) out
unfolding digits_after
digits_after-digit n d out h =
    let digit : leb b'0' (b'0' + d) && leb (b'0' + d) b'9' ≡ true = ground arith in
    rw digit (ap (λ k. digits_after k out) (omega arith))

-- What is read of the digits of a number, before those of `out`.
digits_after-digits_from :
    (fuel n : ℕ) (out : Bytes)
    → n ≤ fuel
    → digits_after 0 (digits_from fuel n out) ≡ digits_after n out
unfolding digits_from
digits_after-digits_from zero n out h =
    digits_after-digit 0 (n % 10) out (omega arith) ∙ ap (λ k. digits_after k out) (omega arith)
digits_after-digits_from (suc fuel) n out h = elim (Bool-cases (ltb n 10)) [
  | inl small ↦ rw small (
      digits_after-digit 0 (n % 10) out (omega arith) ∙ ap (λ k. digits_after k out) (ground arith))
  | inr large ↦ rw large (
      digits_after-digits_from fuel (n / 10) _ (ground arith)
      ∙ digits_after-digit (n / 10) (n % 10) out (omega arith)
      ∙ ap (λ k. digits_after k out) (omega arith))
]

digits_after-decimal : (n : ℕ) → digits_after 0 (decimal n) ≡ some n
unfolding decimal digits_after
digits_after-decimal n = digits_after-digits_from n n [] (omega arith)

-- The bytes of a decimal number are digits, and there is one.
abbrev IsDigit : ℕ → Type 0
IsDigit c = (b'0' ≤ c) × (c ≤ b'9')

digits_from-ne-nil : (fuel n : ℕ) (out : Bytes) → digits_from fuel n out ≢ []
unfolding digits_from
digits_from-ne-nil zero n out = λ e. cc
digits_from-ne-nil (suc fuel) n out = elim (Bool-cases (ltb n 10)) [
  | inl small ↦ rw small (λ e. cc)
  | inr large ↦ rw large (digits_from-ne-nil fuel (n / 10) ((b'0' + n % 10) ∷ out))
]

decimal-ne-nil : (n : ℕ) → decimal n ≢ []
unfolding decimal
decimal-ne-nil n = digits_from-ne-nil n n []

unsigned_of_digits : (s : Bytes) → s ≢ [] → unsigned s ≡ digits_after 0 s
unfolding unsigned
unsigned_of_digits [] h = absurd (h refl)
unsigned_of_digits (c ∷ s) h = refl

atoi_of_digits : (s : Bytes) → s ≢ [] → All IsDigit s → atoi s ≡ (digits_after 0 s >>= in_range)
unfolding atoi unsigned
atoi_of_digits [] h d = absurd (h refl)
atoi_of_digits (c ∷ s) h ((low, high), d) =
    let no_plus : nat_beq c b'+' ≡ false = ground arith in
    let no_minus : nat_beq c b'-' ≡ false = ground arith in rw (no_plus, no_minus)

-- The range of `int`.
abbrev pub IsInt : ℤ → Type 0
IsInt (pos n) = n ≤ max_int
IsInt (negsuc n) = n ≤ max_int

atoi-int_text : (z : ℤ) → IsInt z → atoi (int_text z) ≡ some z
unfolding int_text atoi
atoi-int_text (pos n) h =
    atoi_of_digits (decimal n) (decimal-ne-nil n)
      (decimal-All IsDigit (λ d low. (omega arith, omega arith)) n)
    ∙ rw (digits_after-decimal n) (ground arith)
atoi-int_text (negsuc n) h =
    rw (unsigned_of_digits (decimal (suc n)) (decimal-ne-nil (suc n)), digits_after-decimal (suc n))
      (ground arith)

int_text-ne-nil : (z : ℤ) → bytes_beq (int_text z) [] ≡ false
unfolding int_text bytes_beq
int_text-ne-nil (pos n) = not_nil (decimal n) (decimal-ne-nil n)
  where
    not_nil : (s : Bytes) → s ≢ [] → bytes_beq s [] ≡ false
    not_nil [] h = absurd (h refl)
    not_nil (c ∷ s) h = refl
int_text-ne-nil (negsuc n) = refl

-- A variable that holds a number of the range of `int`, in decimal, is read as that number, whatever
-- the default.
pub get_env_int-int_text :
    (env : Environment) (key : Bytes) (z default_value : ℤ)
    → env key ≡ int_text z
    → IsInt z
    → get_env_int env key default_value ≡ z
unfolding get_env_int
get_env_int-int_text env key z default_value set range =
    rw (set, int_text-ne-nil z, atoi-int_text z range)

in_range-IsInt : (o : Option ℕ) (z : ℤ) → (o >>= in_range) ≡ some z → IsInt z
in_range-IsInt none z h = absurd (cc)
in_range-IsInt (some n) z h = elim (Bool-cases (leb n max_int)) [
  | inl small ↦ let same : pos n ≡ z = ground arith in rw (← same) (ground arith)
  | inr large ↦ absurd (ground arith)
]

negated-IsInt : (o : Option ℕ) (z : ℤ) → (o >>= negated) ≡ some z → IsInt z
negated-IsInt none z h = absurd (cc)
negated-IsInt (some n) z h = elim (Bool-cases (nat_beq n 0)) [
  | inl is_zero ↦ let same : pos 0 ≡ z = ground arith in rw (← same) (ground arith)
  | inr other ↦ elim (Bool-cases (leb n (max_int + 1))) [
    | inl small ↦ let same : negsuc (n - 1) ≡ z = ground arith in rw (← same) (ground arith)
    | inr large ↦ absurd (ground arith)
  ]
]

atoi-IsInt : (s : Bytes) (z : ℤ) → atoi s ≡ some z → IsInt z
unfolding atoi
atoi-IsInt [] z h = absurd (cc)
atoi-IsInt (c ∷ s) z h = elim (Bool-cases (nat_beq c b'+')) [
  | inl plus ↦ in_range-IsInt (unsigned s) z (rw plus at h)
  | inr no_plus ↦ elim (Bool-cases (nat_beq c b'-')) [
    | inl minus ↦ negated-IsInt (unsigned s) z (rw (no_plus, minus) at h)
    | inr plain ↦ in_range-IsInt (unsigned (c ∷ s)) z (rw (no_plus, plain) at h)
  ]
]

-- Whatever a variable holds, what is read of it is in the range of `int`, where the default is.
pub get_env_int-IsInt :
    (env : Environment) (key : Bytes) (default_value : ℤ)
    → IsInt default_value
    → IsInt (get_env_int env key default_value)
unfolding get_env_int
get_env_int-IsInt env key default_value h = elim (Bool-cases (bytes_beq (env key) [])) [
  | inl unset ↦ rw unset h
  | inr set ↦ elim (Option-cases (atoi (env key))) [
    | inl bad ↦ rw (set, bad) h
    | inr (z, good) ↦ rw (set, good) (atoi-IsInt (env key) z good)
  ]
]
