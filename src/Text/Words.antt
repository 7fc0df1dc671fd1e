-- ===== src/Text/Words.antt =====
-- Laws of `fields` and `trim_space`: how a line of the protocol falls into words.
use void_link_tunnels.Base.{
  ℕ, ◌≡◌, ◌≢◌, refl, ◌∙◌, true, false, [], ◌∷◌, ◌++◌, append_assoc, append-nil, arith, Bytes, All,
  Bool-cases, inl, inr, bytes_beq, bytes_beq_iff, sym, ap,
}
use void_link_tunnels.Text.{is_space, trim_left, trim_right, trim_space, fields_from, fields}

-- A word: bytes that are no space, and at least one.
pub record IsWord (w : Bytes) : Type 0 where
  pub solid : All (λ c. is_space c ≡ false) w
  pub some_byte : w ≢ []

fields_from-word :
    (w s acc : Bytes)
    → All (λ c. is_space c ≡ false) w
    → fields_from (w ++ s) acc ≡ fields_from s (acc ++ w)
unfolding fields_from
fields_from-word [] s acc h = rw append-nil
fields_from-word (c ∷ w) s [] (hc, h) = rw hc (fields_from-word w s (c ∷ []) h)
fields_from-word (c ∷ w) s (d ∷ acc) (hc, h) =
    rw hc (fields_from-word w s (d ∷ acc ++ c ∷ []) h ∙ rw (append_assoc acc (c ∷ []) w))

fields_from_space :
    (c : ℕ) (w s : Bytes)
    → is_space c ≡ true
    → w ≢ []
    → fields_from (c ∷ s) w ≡ w ∷ fields_from s []
unfolding fields_from
fields_from_space c [] s e h = absurd (h refl)
fields_from_space c (d ∷ w) s e h = rw e

-- A word and a space behind it are the first field.
pub fields-word :
    (w s : Bytes) (c : ℕ) → IsWord w → is_space c ≡ true → fields (w ++ c ∷ s) ≡ w ∷ fields s
unfolding fields
fields-word w s c h e =
    fields_from-word w (c ∷ s) [] h.solid ∙ fields_from_space c w s e h.some_byte

-- A word alone is the only field.
pub fields_of_IsWord : (w : Bytes) → IsWord w → fields w ≡ w ∷ []
unfolding fields
fields_of_IsWord w h = rw (append-nil w) at (fields_from-word w [] [] h.solid ∙ last w h.some_byte)
  where
    last : (w : Bytes) → w ≢ [] → fields_from [] w ≡ w ∷ []
    last [] h = absurd (h refl)
    last (d ∷ w) h = refl

fields_from-trim_right : (s acc : Bytes) → fields_from (trim_right s) acc ≡ fields_from s acc
unfolding fields_from trim_right
fields_from-trim_right [] acc = refl
fields_from-trim_right (c ∷ s) [] =
    ground (arith, fields_from-trim_right s [], fields_from-trim_right s (c ∷ []))
fields_from-trim_right (c ∷ s) (d ∷ acc) =
    ground (arith, fields_from-trim_right s [], fields_from-trim_right s (d ∷ acc ++ c ∷ []))

fields_from-trim_left : (s : Bytes) → fields_from (trim_left s) [] ≡ fields_from s []
unfolding fields_from trim_left
fields_from-trim_left [] = refl
fields_from-trim_left (c ∷ s) = ground (arith, fields_from-trim_left s)

-- Trimming a line does not change its words.
pub fields-trim_space : (s : Bytes) → fields (trim_space s) ≡ fields s
unfolding fields trim_space
fields-trim_space s = fields_from-trim_right (trim_left s) [] ∙ fields_from-trim_left s

fields_from-ne-nil : (s : Bytes) (c : ℕ) (w : Bytes) → fields_from s (c ∷ w) ≢ []
unfolding fields_from
fields_from-ne-nil [] c w = cc
fields_from-ne-nil (d ∷ s) c w = ground (arith, fields_from-ne-nil s c (w ++ d ∷ []))

fields-trim_left_ne : (s : Bytes) → trim_left s ≢ [] → fields_from (trim_left s) [] ≢ []
unfolding fields_from trim_left
fields-trim_left_ne [] h = absurd (h refl)
fields-trim_left_ne (c ∷ s) h = ground (arith, fields-trim_left_ne s, fields_from-ne-nil s c [])

trim_right-nil : (s : Bytes) → s ≡ [] → trim_right s ≡ []
unfolding trim_right
trim_right-nil [] h = refl
trim_right-nil (c ∷ s) h = cc

-- A line that is not blank has a word.
pub fields-ne-nil : (s : Bytes) → trim_space s ≢ [] → fields (trim_space s) ≢ []
unfolding fields trim_space
fields-ne-nil s h e =
    fields-trim_left_ne s (λ z. h (trim_right-nil (trim_left s) z))
      (rw (fields_from-trim_right (trim_left s) []) at e)

pub fields-nil : fields [] ≡ []
unfolding fields fields_from
fields-nil = refl

-- A line with a word is not blank.
pub trim_space-ne-nil : (s : Bytes) → fields s ≢ [] → bytes_beq (trim_space s) [] ≡ false
unfolding bytes_beq
trim_space-ne-nil s h = elim (Bool-cases (bytes_beq (trim_space s) [])) [
  | inl e ↦ absurd (
      h (
        sym (fields-trim_space s) ∙ ap fields ((bytes_beq_iff (trim_space s) []).0 e) ∙ fields-nil))
  | inr e ↦ e
]
