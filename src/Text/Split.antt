-- ===== src/Text/Split.antt =====
-- Laws of `split`.
use void_link_tunnels.Base.{ℕ, ◌≡◌, refl, true, false, [], ◌∷◌, ◌++◌, Bytes, Lacks, arith, nat_beq}
use void_link_tunnels.Text.{split}

-- A text without the separator is the one part.
pub split_of_Lacks : (b : ℕ) (s : Bytes) → Lacks b s → split b s ≡ s ∷ []
unfolding split
split_of_Lacks b [] h = refl
split_of_Lacks b (c ∷ s) (hc, h) =
    let miss : nat_beq c b ≡ false = ground arith in rw (miss, split_of_Lacks b s h)

-- What stands before the first separator is the first part.
pub split-append : (b : ℕ) (s t : Bytes) → Lacks b s → split b (s ++ b ∷ t) ≡ s ∷ split b t
unfolding split
split-append b [] t h = let hit : nat_beq b b ≡ true = ground arith in rw hit
split-append b (c ∷ s) t (hc, h) =
    let miss : nat_beq c b ≡ false = ground arith in rw (miss, split-append b s t h)
