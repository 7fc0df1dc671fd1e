-- ===== src/Services/Subdomain.antt =====
-- `SubdomainService` of internal/services/subdomain.go. What `bufio.Scanner` makes of the word list
-- is an argument (its lines, and whether it ended without an error), and so is `rand.Int`.
pub mod Label
use void_link_tunnels.Base.{
  ℕ, zero, suc, Bool, true, false, not, ◌&&◌, Option, none, some, List, [], ◌∷◌, ◌++◌, Bytes, codes,
  length, leb, ltb, nat_beq, if◌then◌else◌,
}
use void_link_tunnels.Text.{to_lower, trim_space}

-- `isAlpha`
unfoldable pub is_alpha : Bytes → Bool
is_alpha [] = true
is_alpha (c ∷ s) = leb b'a' c && leb c b'z' && is_alpha s

-- The test of `loadWords` on a word.
abbrev pub is_good : Bytes → Bool
is_good word = leb 3 (length word) && leb (length word) 10 && is_alpha word

-- The loop of `loadWords` over the lines of the file.
unfoldable pub load_words : List Bytes → List Bytes
load_words [] = []
load_words (line ∷ lines) =
    let word = trim_space (to_lower line) in
    let rest = load_words lines in if is_good word then word ∷ rest else rest

-- `defaultWords`
unfoldable pub default_words : List Bytes
default_words =
    codes "wolf"
    ∷ codes "bear"
    ∷ codes "fox"
    ∷ codes "hawk"
    ∷ codes "eagle"
    ∷ codes "tiger"
    ∷ codes "lion"
    ∷ codes "shark"
    ∷ codes "dragon"
    ∷ codes "phoenix"
    ∷ codes "raven"
    ∷ codes "falcon"
    ∷ codes "panther"
    ∷ codes "cobra"
    ∷ codes "viper"
    ∷ codes "lynx"
    ∷ codes "horse"
    ∷ codes "deer"
    ∷ codes "owl"
    ∷ codes "crow"
    ∷ codes "fire"
    ∷ codes "ice"
    ∷ codes "storm"
    ∷ codes "thunder"
    ∷ codes "shadow"
    ∷ codes "light"
    ∷ codes "dark"
    ∷ codes "frost"
    ∷ codes "flame"
    ∷ codes "wind"
    ∷ codes "stone"
    ∷ codes "iron"
    ∷ codes "steel"
    ∷ codes "gold"
    ∷ codes "silver"
    ∷ codes "crystal"
    ∷ codes "ember"
    ∷ codes "ash"
    ∷ codes "cloud"
    ∷ codes "star"
    ∷ codes "swift"
    ∷ codes "brave"
    ∷ codes "bold"
    ∷ codes "silent"
    ∷ codes "wild"
    ∷ codes "fierce"
    ∷ codes "rapid"
    ∷ codes "steady"
    ∷ codes "mystic"
    ∷ codes "cosmic"
    ∷ codes "ancient"
    ∷ codes "prime"
    ∷ codes "alpha"
    ∷ codes "omega"
    ∷ codes "epic"
    ∷ codes "noble"
    ∷ codes "royal"
    ∷ codes "grand"
    ∷ codes "elite"
    ∷ codes "ultra"
    ∷ codes "blade"
    ∷ codes "arrow"
    ∷ codes "shield"
    ∷ codes "spear"
    ∷ codes "crown"
    ∷ codes "helm"
    ∷ codes "forge"
    ∷ codes "tower"
    ∷ codes "gate"
    ∷ codes "bridge"
    ∷ codes "castle"
    ∷ codes "fortress"
    ∷ codes "citadel"
    ∷ codes "realm"
    ∷ codes "domain"
    ∷ codes "kingdom"
    ∷ codes "empire"
    ∷ codes "legion"
    ∷ codes "order"
    ∷ codes "guild"
    ∷ codes "red"
    ∷ codes "blue"
    ∷ codes "green"
    ∷ codes "black"
    ∷ codes "white"
    ∷ codes "gray"
    ∷ codes "purple"
    ∷ codes "orange"
    ∷ codes "crimson"
    ∷ codes "azure"
    ∷ codes "cyber"
    ∷ codes "neon"
    ∷ codes "pixel"
    ∷ codes "byte"
    ∷ codes "data"
    ∷ codes "core"
    ∷ codes "nexus"
    ∷ codes "vertex"
    ∷ codes "matrix"
    ∷ codes "grid"
    ∷ codes "zen"
    ∷ codes "apex"
    ∷ codes "nova"
    ∷ codes "pulse"
    ∷ codes "wave"
    ∷ codes "flux"
    ∷ codes "spark"
    ∷ codes "bolt"
    ∷ codes "rush"
    ∷ codes "blast"
    ∷ codes "quest"
    ∷ codes "hunt"
    ∷ codes "raid"
    ∷ codes "siege"
    ∷ codes "strike"
    ∷ codes "force"
    ∷ codes "power"
    ∷ codes "might"
    ∷ codes "fury"
    ∷ codes "rage"
    ∷ []

-- `NewSubdomainService`: the words of the service, given the file, if it can be opened.
unfoldable pub new_subdomain_service : Option (List Bytes × Bool) → List Bytes
unfolding load_words default_words
new_subdomain_service none = default_words
new_subdomain_service (some (lines, true)) = load_words lines
new_subdomain_service (some (lines, false)) = default_words

-- `Generate` returns a name or an error, or `rand.Int` panics, as it does on an empty range.
pub data Generated {ℓ} (A : Type ℓ) : Type ℓ where
  name : A → Generated A
  failed panic : Generated A

unfoldable pub nth : List Bytes → ℕ → Option Bytes
nth [] k = none
nth (w ∷ words) zero = some w
nth (w ∷ words) (suc k) = nth words k

-- A word in front of the rest of the words.
abbrev pub cons_name : Option Bytes → Generated (List Bytes) → Generated (List Bytes)
cons_name none rest = panic
cons_name (some w) (name words) = name (w ∷ words)
cons_name (some w) failed = failed
cons_name (some w) panic = panic

-- The loop of `Generate`, for `n` more words; `draw i m` is what `rand.Int` yields for a number
-- below `m` at round `i`, or an error.
unfoldable pub pick_words : (ℕ → ℕ → Option ℕ) → List Bytes → ℕ → ℕ → Generated (List Bytes)
unfolding nth
pick_words draw words i zero = name []
pick_words draw words i (suc n) =
    let rest = pick_words draw words (suc i) n in
    if nat_beq (length words) 0
    then panic
    else elim (draw i (length words)) [ none ↦ failed | some k ↦ cons_name (nth words k) rest ]

-- `strings.Join(parts, "-")`
unfoldable pub join : List Bytes → Bytes
join [] = []
join (w ∷ []) = w
join (w ∷ v ∷ words) = w ++ b'-' ∷ join (v ∷ words)

-- `Generate`; `more` says whether three words are taken, and not two.
unfoldable pub generate : (ℕ → ℕ → Option ℕ) → Bool → List Bytes → Generated Bytes
unfolding pick_words join
generate draw more words = elim (pick_words draw words 0 (if more then 3 else 2)) [
  | name picked ↦ name (join picked)
  | failed ↦ failed
  | panic ↦ panic
]
