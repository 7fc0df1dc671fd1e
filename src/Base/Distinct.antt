-- ===== src/Base/Distinct.antt =====
-- Tables with a unique column.
use void_link_tunnels.Base.Tests.{if◌then◌else◌, Bool-cases}
use void_link_tunnels.Base.Lists.{Bytes, All}
use void_link_tunnels.Base.Classes.{bytes_eq, bytes_beq, bytes_beq_iff, ◌==◌}
use void_link_tunnels.Base.Rows.{
  select_row, update_rows, delete_rows, All-delete_rows, All-update_rows, All-select_row,
  select_row_of_All, All-of_select_row,
}
use mathlib.Core.Path.{◌≡◌, refl, sym, ◌∙◌, subst}
use mathlib.Core.Logic.{◌≢◌, ◌⊎◌, inl, inr}
use mathlib.Core.Bool.{Bool, true, false}
use mathlib.Core.Option.{none, some}
use mathlib.Core.List.{List, [], ◌∷◌}
use native.Mathlib.Omega.{arith}

module _ {ℓ} {A : Type ℓ} (key : A → Bytes) where
  -- No row has the key of a row before it.
  abbrev pub Distinct : List A → Type 0
  Distinct [] = Unit
  Distinct (a ∷ rows) = All (λ b. key b ≢ key a) rows × Distinct rows

  pub Distinct-delete_rows :
      (p : A → Bool) (rows : List A) → Distinct rows → Distinct (delete_rows p rows)
  unfolding delete_rows
  Distinct-delete_rows p [] d = tt
  Distinct-delete_rows p (a ∷ rows) (fresh, d) = elim (Bool-cases (p a)) [
    | inl hit ↦ rw hit (Distinct-delete_rows p rows d)
    | inr miss ↦
        rw miss (All-delete_rows (λ b. key b ≢ key a) p rows fresh, Distinct-delete_rows p rows d)
  ]

  updated_key :
      (p : A → Bool) (f : A → A) (a : A)
      → ((b : A) → key (f b) ≡ key b)
      → key (if p a then f a else a) ≡ key a
  updated_key p f a keep = elim (Bool-cases (p a)) [
    | inl hit ↦ rw hit (keep a)
    | inr miss ↦ rw miss
  ]

  pub Distinct-update_rows :
      (p : A → Bool) (f : A → A) (rows : List A)
      → ((b : A) → key (f b) ≡ key b)
      → Distinct rows
      → Distinct (update_rows p f rows)
  unfolding update_rows
  Distinct-update_rows p f [] keep d = tt
  Distinct-update_rows p f (a ∷ rows) keep (fresh, d) = (
    subst (λ k. All (λ b. key b ≢ k) (update_rows p f rows)) (sym (updated_key p f a keep))
        (All-update_rows (λ b. key b ≢ key a) p f rows (λ b h e. h (sym (keep b) ∙ e)) fresh),
    Distinct-update_rows p f rows keep d,
  )

  key_test : (k : Bytes) (a : A) → bytes_beq (key a) k ≡ false → key a ≢ k
  key_test k a miss e = absurd (ground (arith, bytes_beq_iff (key a) k))

  All-ne :
      (k : Bytes) (rows : List A)
      → All (λ a. bytes_beq (key a) k ≡ false) rows
      → All (λ a. key a ≢ k) rows
  All-ne k [] h = tt
  All-ne k (a ∷ rows) (ha, h) = (key_test k a ha, All-ne k rows h)

  -- A row with a key that none has may be added.
  pub Distinct-insert :
      (a : A) (rows : List A)
      → select_row (λ b. key b == key a) rows ≡ none
      → Distinct rows
      → Distinct (a ∷ rows)
  Distinct-insert a rows e d = (All-ne (key a) rows (All-of_select_row _ rows e), d)

  -- The row that is found by its key is the only one with it.
  pub Distinct-select_row :
      (k : Bytes) (rows : List A) (a : A)
      → Distinct rows
      → select_row (λ b. key b == k) rows ≡ some a
      → All (λ b. (b ≡ a) ⊎ (bytes_beq (key b) k ≡ false)) rows
  unfolding select_row
  Distinct-select_row k [] a d e = tt
  Distinct-select_row k (b ∷ rows) a (fresh, d) e = elim (Bool-cases (bytes_beq (key b) k)) [
    | inl hit ↦
        let same : b ≡ a = ground arith in
        (inl same, others rows ((bytes_beq_iff (key b) k).0 hit) fresh)
    | inr miss ↦ (inr miss, Distinct-select_row k rows a d (ground arith))
  ]
    where
      others :
          (rows : List A)
          → key b ≡ k
          → All (λ c. key c ≢ key b) rows
          → All (λ c. (c ≡ a) ⊎ (bytes_beq (key c) k ≡ false)) rows
      others [] e h = tt
      others (c ∷ rows) e (hc, h) = (
        elim (Bool-cases (bytes_beq (key c) k)) [
          | inl hit ↦ absurd (hc ((bytes_beq_iff (key c) k).0 hit ∙ sym e))
          | inr miss ↦ inr miss
        ],
        others rows e h,
      )

  others_kept :
      (p : A → Bool) (k : Bytes) (rows : List A) (a : A)
      → p a ≡ true
      → All (λ b. (b ≡ a) ⊎ (bytes_beq (key b) k ≡ false)) rows
      → All (λ b. bytes_beq (key b) k ≡ false) (delete_rows p rows)
  unfolding delete_rows
  others_kept p k [] a hit h = tt
  others_kept p k (b ∷ rows) a hit (inl same, h) =
      let gone : p b ≡ true = rw same hit in rw gone (others_kept p k rows a hit h)
  others_kept p k (b ∷ rows) a hit (inr miss, h) = elim (Bool-cases (p b)) [
    | inl gone ↦ rw gone (others_kept p k rows a hit h)
    | inr kept ↦ rw kept (miss, others_kept p k rows a hit h)
  ]

  -- A deletion that reaches the one row with a key leaves none with it.
  pub select_row-delete_rows_self :
      (p : A → Bool) (k : Bytes) (rows : List A) (a : A)
      → Distinct rows
      → select_row (λ b. key b == k) rows ≡ some a
      → p a ≡ true
      → select_row (λ b. key b == k) (delete_rows p rows) ≡ none
  select_row-delete_rows_self p k rows a d e hit =
      select_row_of_All _ _ (others_kept p k rows a hit (Distinct-select_row k rows a d e))

  found_key :
      (q : A → Bool) (k : Bytes) (rows : List A) (a : A)
      → All (λ b. key b ≢ k) rows
      → select_row q rows ≡ some a
      → key a ≢ k
  found_key q k rows a h e = All-select_row (λ b. key b ≢ k) q rows a h e

  -- A row that is found by any test is the one that is found by its key.
  pub select_row-key :
      (q : A → Bool) (rows : List A) (a : A)
      → Distinct rows
      → select_row q rows ≡ some a
      → select_row (λ b. key b == key a) rows ≡ some a
  unfolding select_row
  select_row-key q [] a d e = absurd (cc)
  select_row-key q (b ∷ rows) a (fresh, d) e = elim (Bool-cases (q b)) [
    | inl hit ↦
        let same : b ≡ a = ground arith in rw same (rw ((bytes_beq_iff (key a) (key a)).1 refl))
    | inr miss ↦
        let found : select_row q rows ≡ some a = ground arith in
        let differ = found_key q (key b) rows a fresh found in
        elim (Bool-cases (bytes_beq (key b) (key a))) [
          | inl same ↦ absurd (differ (sym ((bytes_beq_iff (key b) (key a)).0 same)))
          | inr other ↦ rw other (select_row-key q rows a d found)
        ]
  ]
