-- ===== src/Text/Cut.antt =====
-- Laws of the functions that cut a text at a byte or before a suffix.
use void_link_tunnels.Base.{
  ℕ, ◌≡◌, refl, true, false, none, some, [], ◌∷◌, ◌++◌, arith, Bytes, Lacks, bytes_beq,
  bytes_beq_iff, nat_beq, Bool-cases, Option-cases, inl, inr, length, length-append, ◌<◌, ap,
}
use void_link_tunnels.Text.{contains, cut_first, cut_last, cut_suffix, last_part, first_part}

pub contains_of_Lacks : (b : ℕ) (s : Bytes) → Lacks b s → contains b s ≡ false
unfolding contains
contains_of_Lacks b [] h = refl
contains_of_Lacks b (c ∷ s) (hc, h) = ground (arith, contains_of_Lacks b s h)

pub Lacks-of_contains : (b : ℕ) (s : Bytes) → contains b s ≡ false → Lacks b s
unfolding contains
Lacks-of_contains b [] h = tt
Lacks-of_contains b (c ∷ s) h = ground (arith, Lacks-of_contains b s)

pub contains-append_cons : (b : ℕ) (s t : Bytes) → contains b (s ++ b ∷ t) ≡ true
unfolding contains
contains-append_cons b [] t = ground arith
contains-append_cons b (c ∷ s) t = ground (arith, contains-append_cons b s t)

-- A byte that is missing before the cut and after it is missing from `s ++ t`.
pub contains-append :
    (b : ℕ) (s t : Bytes) → contains b s ≡ false → contains b (s ++ t) ≡ contains b t
unfolding contains
contains-append b [] t h = refl
contains-append b (c ∷ s) t h = ground (arith, contains-append b s t)

pub cut_first-append : (b : ℕ) (s t : Bytes) → Lacks b s → cut_first b (s ++ b ∷ t) ≡ some (s, t)
unfolding cut_first
cut_first-append b [] t h = ground arith
cut_first-append b (c ∷ s) t (hc, h) = ground (arith, cut_first-append b s t h)

pub cut_first_of_Lacks : (b : ℕ) (s : Bytes) → Lacks b s → cut_first b s ≡ none
unfolding cut_first
cut_first_of_Lacks b [] h = refl
cut_first_of_Lacks b (c ∷ s) (hc, h) = ground (arith, cut_first_of_Lacks b s h)

pub cut_last_of_Lacks : (b : ℕ) (s : Bytes) → Lacks b s → cut_last b s ≡ none
unfolding cut_last
cut_last_of_Lacks b [] h = refl
cut_last_of_Lacks b (c ∷ s) (hc, h) = ground (arith, contains_of_Lacks b s h)

pub cut_last-append : (b : ℕ) (s t : Bytes) → Lacks b t → cut_last b (s ++ b ∷ t) ≡ some (s, t)
unfolding cut_last
cut_last-append b [] t h = ground (arith, contains_of_Lacks b t h)
cut_last-append b (c ∷ s) t h = ground (arith, cut_last-append b s t h, contains-append_cons b s t)

-- What a cut says of the text: it is the two parts around the byte, and the byte is not before.
pub cut_first_sound :
    (b : ℕ) (s x y : Bytes) → cut_first b s ≡ some (x, y) → (s ≡ x ++ b ∷ y) × Lacks b x
unfolding cut_first
cut_first_sound b [] x y h = cc
cut_first_sound b (c ∷ s) x y h = elim (Bool-cases (nat_beq c b)) [
  | inl e ↦ ground arith
  | inr e ↦ elim (Option-cases (cut_first b s)) [
    | inl n ↦ ground arith
    | inr ((x', y'), found) ↦ ground (arith, cut_first_sound b s x' y' found)
  ]
]

pub Lacks-of_cut_first : (b : ℕ) (s : Bytes) → cut_first b s ≡ none → Lacks b s
unfolding cut_first
Lacks-of_cut_first b [] h = tt
Lacks-of_cut_first b (c ∷ s) h = ground (arith, Lacks-of_cut_first b s)

pub first_part-Lacks : (b : ℕ) (s : Bytes) → Lacks b (first_part b s)
unfolding first_part
first_part-Lacks b s = elim (Option-cases (cut_first b s)) [
  | inl n ↦ rw (n, first_part) (Lacks-of_cut_first b s n)
  | inr ((x, y), found) ↦ rw (found, first_part) (cut_first_sound b s x y found).1
]

pub cut_last_sound :
    (b : ℕ) (s x y : Bytes) → cut_last b s ≡ some (x, y) → (s ≡ x ++ b ∷ y) × Lacks b y
unfolding cut_last
cut_last_sound b [] x y h = cc
cut_last_sound b (c ∷ s) x y h = elim (Bool-cases (contains b s)) [
  | inl e ↦ elim (Option-cases (cut_last b s)) [
    | inl n ↦ ground arith
    | inr ((x', y'), found) ↦ ground (arith, cut_last_sound b s x' y' found)
  ]
  | inr e ↦ ground (arith, Lacks-of_contains b s e)
]

pub Lacks-of_cut_last : (b : ℕ) (s : Bytes) → cut_last b s ≡ none → Lacks b s
unfolding cut_last
Lacks-of_cut_last b [] h = tt
Lacks-of_cut_last b (c ∷ s) h =
    ground (arith, Lacks-of_cut_last b s, contains_of_Lacks b s, Lacks-of_contains b s)

pub last_part-Lacks : (b : ℕ) (s : Bytes) → Lacks b (last_part b s)
unfolding last_part
last_part-Lacks b s = elim (Option-cases (cut_last b s)) [
  | inl n ↦ rw (n, last_part) (Lacks-of_cut_last b s n)
  | inr ((x, y), found) ↦ rw (found, last_part) (cut_last_sound b s x y found).1
]

-- A text longer than the suffix is not equal to it, so the cut is made where the suffix begins.
ne_of_longer : (s t : Bytes) → length t < length s → bytes_beq s t ≡ false
ne_of_longer s t h = elim (Bool-cases (bytes_beq s t)) [
  | inl e ↦ absurd (omega (arith, ap (length {0}) ((bytes_beq_iff s t).0 e)))
  | inr e ↦ e
]

cut_suffix_self : (t : Bytes) → cut_suffix t t ≡ some []
unfolding cut_suffix bytes_beq
cut_suffix_self [] = refl
cut_suffix_self (c ∷ t) = rw ((bytes_beq_iff (c ∷ t) (c ∷ t)).1 refl)

cut_suffix-cons :
    (c : ℕ) (s t x : Bytes)
    → bytes_beq (c ∷ s) t ≡ false
    → cut_suffix s t ≡ some x
    → cut_suffix (c ∷ s) t ≡ some (c ∷ x)
unfolding cut_suffix
cut_suffix-cons c s t x e found = ground arith

pub cut_suffix-append : (s t : Bytes) → cut_suffix (s ++ t) t ≡ some s
cut_suffix-append [] t = cut_suffix_self t
cut_suffix-append (c ∷ s) t =
    cut_suffix-cons c (s ++ t) t s (ne_of_longer (c ∷ s ++ t) t (omega (arith, length-append s t)))
      (cut_suffix-append s t)

pub cut_suffix_sound : (s t x : Bytes) → cut_suffix s t ≡ some x → s ≡ x ++ t
unfolding cut_suffix
cut_suffix_sound [] t x h = ground (arith, bytes_beq_iff [] t)
cut_suffix_sound (c ∷ s) t x h = elim (Bool-cases (bytes_beq (c ∷ s) t)) [
  | inl e ↦ ground (arith, bytes_beq_iff (c ∷ s) t)
  | inr e ↦ elim (Option-cases (cut_suffix s t)) [
    | inl n ↦ ground arith
    | inr (x', found) ↦ ground (arith, cut_suffix_sound s t x' found)
  ]
]
