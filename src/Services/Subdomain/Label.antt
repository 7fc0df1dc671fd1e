-- ===== src/Services/Subdomain/Label.antt =====
-- Every name that the generator yields is one label, which the proxies find again in an address.
use void_link_tunnels.Base.{
  ℕ, zero, suc, ◌≡◌, ◌≢◌, ◌≤◌, refl, Bool, true, false, ◌&&◌, Option, none, some, List, [], ◌∷◌,
  ◌++◌, Bytes, All, All-append, Lacks, Bool-cases, Option-cases, inl, inr, ◌⊎◌, arith, nat_beq,
  length,
}
use mathlib.Core.Path.{subst}
use void_link_tunnels.Text.{to_lower, trim_space}
use void_link_tunnels.Text.Case.{IsLowerByte}
use void_link_tunnels.Tunnel.Hostname.Laws.{IsLabel}
use void_link_tunnels.Services.Subdomain.{
  is_alpha, is_good, load_words, default_words, new_subdomain_service, Generated, name, failed,
  panic, nth, cons_name, pick_words, join, generate,
}

-- A byte of a name: a lower case letter or a dash.
abbrev IsNameByte : ℕ → Type 0
IsNameByte c = (c ≡ b'-') ⊎ ((b'a' ≤ c) × (c ≤ b'z'))

abbrev IsName : Bytes → Type 0
IsName w = All IsNameByte w × (w ≢ [])

is_alpha-IsNameByte : (w : Bytes) → is_alpha w ≡ true → All IsNameByte w
unfolding is_alpha
is_alpha-IsNameByte [] h = tt
is_alpha-IsNameByte (c ∷ w) h = (ground arith, is_alpha-IsNameByte w (ground arith))

is_good-IsName : (w : Bytes) → is_good w ≡ true → IsName w
is_good-IsName w h = (is_alpha-IsNameByte w (ground arith), λ e. absurd (ground arith))

load_words-IsName : (lines : List Bytes) → All IsName (load_words lines)
unfolding load_words
load_words-IsName [] = tt
load_words-IsName (line ∷ lines) = elim (Bool-cases (is_good (trim_space (to_lower line)))) [
  | inl good ↦ rw good (is_good-IsName _ good, load_words-IsName lines)
  | inr bad ↦ rw bad (load_words-IsName lines)
]

all_good : List Bytes → Bool
all_good [] = true
all_good (w ∷ words) = is_good w && all_good words

all_good-IsName : (words : List Bytes) → all_good words ≡ true → All IsName words
unfolding all_good
all_good-IsName [] h = tt
all_good-IsName (w ∷ words) h =
    (is_good-IsName w (ground arith), all_good-IsName words (ground arith))

default_words-IsName : All IsName default_words
default_words-IsName = all_good-IsName default_words good
  where
    good : all_good default_words ≡ true
    good = unfold all_good default_words is_alpha in refl

nth-IsName :
    (words : List Bytes) (k : ℕ) (w : Bytes) → All IsName words → nth words k ≡ some w → IsName w
unfolding nth
nth-IsName [] k w h e = absurd (cc)
nth-IsName (v ∷ words) zero w (hv, h) e = let same : v ≡ w = cc in subst IsName same hv
nth-IsName (v ∷ words) (suc k) w (hv, h) e = nth-IsName words k w h e

-- What the loop must yield for `join` to make a name of it.
abbrev IsPicked : ℕ → Generated (List Bytes) → Type 0
IsPicked n (name words) = All IsName words × (length words ≡ n)
IsPicked n failed = Unit
IsPicked n panic = Unit

cons_name-IsPicked :
    (n : ℕ) (w : Option Bytes) (rest : Generated (List Bytes))
    → ((v : Bytes) → w ≡ some v → IsName v)
    → IsPicked n rest
    → IsPicked (suc n) (cons_name w rest)
cons_name-IsPicked n none rest hw h = tt
cons_name-IsPicked n (some w) (name words) hw (h, e) = ((hw w refl, h), omega arith)
cons_name-IsPicked n (some w) failed hw h = tt
cons_name-IsPicked n (some w) panic hw h = tt

pick_words-IsPicked :
    (draw : ℕ → ℕ → Option ℕ) (words : List Bytes) (i n : ℕ)
    → All IsName words
    → IsPicked n (pick_words draw words i n)
unfolding pick_words
pick_words-IsPicked draw words i zero h = (tt, refl)
pick_words-IsPicked draw words i (suc n) h = elim (Bool-cases (nat_beq (length words) 0)) [
  | inl empty ↦ rw empty tt
  | inr some_words ↦ elim (Option-cases (draw i (length words))) [
    | inl n ↦ rw (some_words, n) tt
    | inr (k, drawn) ↦
        rw (some_words, drawn)
          (cons_name-IsPicked n (nth words k) (pick_words draw words (suc i) n)
            (λ v e. nth-IsName words k v h e) (pick_words-IsPicked draw words (suc i) n h))
  ]
]

append-ne-nil : (w s : Bytes) → w ≢ [] → w ++ s ≢ []
append-ne-nil [] s h = absurd (h refl)
append-ne-nil (c ∷ w) s h = cc

join-IsName : (words : List Bytes) → All IsName words → words ≢ [] → IsName (join words)
unfolding join
join-IsName [] h ne = absurd (ne refl)
join-IsName (w ∷ []) (hw, h) ne = hw
join-IsName (w ∷ v ∷ words) (hw, h) ne = (
  All-append IsNameByte w (b'-' ∷ join (v ∷ words)) hw.0
      (inl refl, (join-IsName (v ∷ words) h (cc)).0),
  append-ne-nil w _ hw.1,
)

All-map : (P Q : ℕ → Type 0) → ((c : ℕ) → P c → Q c) → (s : Bytes) → All P s → All Q s
All-map P Q f [] h = tt
All-map P Q f (c ∷ s) (hc, h) = (f c hc, All-map P Q f s h)

IsLabel-of_bytes : (s : Bytes) → All IsNameByte s → IsLabel s
IsLabel-of_bytes s h =
    let lacks : (b : ℕ) → (b ≡ b':') ⊎ (b ≡ b'[') ⊎ (b ≡ b']') ⊎ (b ≡ b'.') → Lacks b s =
      λ b hb. All-map IsNameByte (λ c. c ≢ b) (λ c hc. omega arith) s h in
    record {
      host = record {
        colon = lacks b':' (omega arith);
        left = lacks b'[' (omega arith);
        right = lacks b']' (omega arith);
      };
      dot = lacks b'.' (omega arith);
      lower = All-map IsNameByte IsLowerByte (λ c hc. omega arith) s h;
    }

new_subdomain_service-IsName :
    (file : Option (List Bytes × Bool)) → All IsName (new_subdomain_service file)
unfolding new_subdomain_service
new_subdomain_service-IsName none = default_words-IsName
new_subdomain_service-IsName (some (lines, true)) = load_words-IsName lines
new_subdomain_service-IsName (some (lines, false)) = default_words-IsName

joined :
    (n : ℕ) (sub : Bytes) (picked : Generated (List Bytes))
    → IsPicked (suc n) picked
    → elim picked [ name ws ↦ name (join ws) | failed ↦ failed | panic ↦ panic ] ≡ name sub
    → IsLabel sub × (sub ≢ [])
joined n sub (name ws) (h, e) same =
    let (bytes, ne) = join-IsName ws h (λ nil. absurd (ground arith)) in
    let equal : join ws ≡ sub = cc in
    (subst IsLabel equal (IsLabel-of_bytes (join ws) bytes), subst (λ s. s ≢ []) equal ne)
joined n sub failed h same = absurd (cc)
joined n sub panic h same = absurd (cc)

-- Whatever the word list holds, and also if it cannot be read: a name that the generator yields is
-- one label in lower case, without a dot, colon or bracket, and not empty. So it can be routed.
pub generate-IsLabel :
    (draw : ℕ → ℕ → Option ℕ) (more : Bool) (file : Option (List Bytes × Bool)) (sub : Bytes)
    → generate draw more (new_subdomain_service file) ≡ name sub
    → IsLabel sub × (sub ≢ [])
unfolding generate
generate-IsLabel draw true file sub e =
    joined 2 sub _ (pick_words-IsPicked draw _ 0 3 (new_subdomain_service-IsName file)) e
generate-IsLabel draw false file sub e =
    joined 1 sub _ (pick_words-IsPicked draw _ 0 2 (new_subdomain_service-IsName file)) e
