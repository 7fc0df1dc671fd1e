-- ===== src/Base/Rows.antt =====
-- A table of the database as the list of its rows: the statements with a condition on one row, and
-- their laws. A `SELECT` of one row takes the first.
use void_link_tunnels.Base.Tests.{if◌then◌else◌, Bool-cases}
use void_link_tunnels.Base.Lists.{All}
use mathlib.Core.Path.{◌≡◌, refl, subst}
use mathlib.Core.Logic.{inl, inr}
use mathlib.Core.Bool.{Bool, true, false}
use mathlib.Core.Option.{Option, none, some}
use mathlib.Core.List.{List, [], ◌∷◌}
use native.Mathlib.Omega.{arith}

module _ {ℓ} {A : Type ℓ} where
  unfoldable pub select_row : (A → Bool) → List A → Option A
  select_row p [] = none
  select_row p (a ∷ rows) = if p a then some a else select_row p rows

  unfoldable pub update_rows : (A → Bool) → (A → A) → List A → List A
  update_rows p f [] = []
  update_rows p f (a ∷ rows) = (if p a then f a else a) ∷ update_rows p f rows

  unfoldable pub delete_rows : (A → Bool) → List A → List A
  delete_rows p [] = []
  delete_rows p (a ∷ rows) = let rest = delete_rows p rows in if p a then rest else a ∷ rest

  pub select_row_sound :
      (p : A → Bool) (rows : List A) (a : A) → select_row p rows ≡ some a → p a ≡ true
  unfolding select_row
  select_row_sound p [] a e = absurd (cc)
  select_row_sound p (b ∷ rows) a e = elim (Bool-cases (p b)) [
    | inl hit ↦ ground arith
    | inr miss ↦ select_row_sound p rows a (ground arith)
  ]

  -- Where no row passes the test, none is found, and a deletion leaves such rows only.
  pub select_row_of_All :
      (p : A → Bool) (rows : List A) → All (λ a. p a ≡ false) rows → select_row p rows ≡ none
  unfolding select_row
  select_row_of_All p [] h = refl
  select_row_of_All p (a ∷ rows) (ha, h) = ground (arith, select_row_of_All p rows h)

  pub All-of_select_row :
      (p : A → Bool) (rows : List A) → select_row p rows ≡ none → All (λ a. p a ≡ false) rows
  unfolding select_row
  All-of_select_row p [] e = tt
  All-of_select_row p (a ∷ rows) e = (ground arith, All-of_select_row p rows (ground arith))

  pub delete_rows_lem : (p : A → Bool) (rows : List A) → All (λ a. p a ≡ false) (delete_rows p rows)
  unfolding delete_rows
  delete_rows_lem p [] = tt
  delete_rows_lem p (a ∷ rows) = elim (Bool-cases (p a)) [
    | inl hit ↦ rw hit (delete_rows_lem p rows)
    | inr miss ↦ rw miss (miss, delete_rows_lem p rows)
  ]

  pub All-select_row {κ} :
      (P : A → Type κ) (p : A → Bool) (rows : List A) (a : A)
      → All P rows
      → select_row p rows ≡ some a
      → P a
  unfolding select_row
  All-select_row P p [] a h e = absurd (cc)
  All-select_row P p (b ∷ rows) a (hb, h) e = elim (Bool-cases (p b)) [
    | inl hit ↦ subst P (ground arith) hb
    | inr miss ↦ All-select_row P p rows a h (ground arith)
  ]

  pub All-delete_rows {κ} :
      (P : A → Type κ) (p : A → Bool) (rows : List A) → All P rows → All P (delete_rows p rows)
  unfolding delete_rows
  All-delete_rows P p [] h = tt
  All-delete_rows P p (a ∷ rows) (ha, h) = elim (Bool-cases (p a)) [
    | inl hit ↦ rw hit (All-delete_rows P p rows h)
    | inr miss ↦ rw miss (ha, All-delete_rows P p rows h)
  ]

  pub All-update_rows {κ} :
      (P : A → Type κ) (p : A → Bool) (f : A → A) (rows : List A)
      → ((a : A) → P a → P (f a))
      → All P rows
      → All P (update_rows p f rows)
  unfolding update_rows
  All-update_rows P p f [] keep h = tt
  All-update_rows P p f (a ∷ rows) keep (ha, h) = elim (Bool-cases (p a)) [
    | inl hit ↦ rw hit (keep a ha, All-update_rows P p f rows keep h)
    | inr miss ↦ rw miss (ha, All-update_rows P p f rows keep h)
  ]

  -- A search by another test `q` that a deletion by `p` cannot disturb.
  pub select_row-delete_rows :
      (p q : A → Bool) (rows : List A) (a : A)
      → select_row q rows ≡ some a
      → p a ≡ false
      → select_row q (delete_rows p rows) ≡ some a
  unfolding select_row delete_rows
  select_row-delete_rows p q [] a e h = absurd (cc)
  select_row-delete_rows p q (b ∷ rows) a e h = elim (Bool-cases (q b)) [
    | inl hit ↦
        let same : b ≡ a = ground arith in
        let kept : p b ≡ false = rw same h in rw kept (rw hit (ground arith))
    | inr miss ↦
        let found : select_row q rows ≡ some a = ground arith in
        let rest = select_row-delete_rows p q rows a found h in
        elim (Bool-cases (p b)) [ inl gone ↦ rw gone rest | inr kept ↦ rw kept (rw miss rest) ]
  ]

  -- The row that a search finds after an update that keeps the search's test.
  pub select_row-update_rows :
      (q p : A → Bool) (f : A → A) (rows : List A) (a : A)
      → ((b : A) → q (f b) ≡ q b)
      → select_row q rows ≡ some a
      → select_row q (update_rows p f rows) ≡ some (if p a then f a else a)
  unfolding select_row update_rows
  select_row-update_rows q p f [] a keep e = absurd (cc)
  select_row-update_rows q p f (b ∷ rows) a keep e = elim (Bool-cases (q b)) [
    | inl hit ↦
        let same : b ≡ a = ground arith in
        rw (← same) (elim (Bool-cases (p b)) [
          | inl changed ↦ rw changed (rw (keep b, hit))
          | inr kept ↦ rw kept (rw hit)
        ])
    | inr miss ↦
        let found : select_row q rows ≡ some a = ground arith in
        let rest = select_row-update_rows q p f rows a keep found in
        elim (Bool-cases (p b)) [
          | inl changed ↦ rw changed (rw (keep b, miss) rest)
          | inr kept ↦ rw kept (rw miss rest)
        ]
  ]
