-- ===== src/Text.antt =====
-- The functions of Go's `strings` and `net` packages that the program calls, over bytes.
-- `to_lower` and `trim_space` are those of ASCII text: no letter or space above 127.
pub mod Cut
pub mod Case
pub mod Host
pub mod Words
pub mod Split
pub mod Hex
use void_link_tunnels.Base.{
  ℕ, zero, suc, ◌+◌, Bool, true, false, not, ◌&&◌, ◌||◌, Option, none, some, List, [], ◌∷◌, ◌++◌,
  map, Bytes, leb, nat_beq, if◌then◌else◌, ◌>>=◌, bytes_beq, length, ◌-◌,
}
use mathlib.Core.List.{reverse}

-- strings.ToLower
unfoldable pub lower_byte : ℕ → ℕ
lower_byte c = if leb b'A' c && leb c b'Z' then c + 32 else c

unfoldable pub to_lower : Bytes → Bytes
to_lower [] = []
to_lower (c ∷ s) = lower_byte c ∷ to_lower s

-- strings.IndexByte(s, b) >= 0
unfoldable pub contains : ℕ → Bytes → Bool
contains b [] = false
contains b (c ∷ s) = if nat_beq c b then true else contains b s

-- `s[:i]` and `s[i+1:]` for the first `i` with `s[i] == b`.
unfoldable pub cut_first : ℕ → Bytes → Option (Bytes × Bytes)
cut_first b [] = none
cut_first b (c ∷ s) =
    let rest = (do (before, after) ← cut_first b s; some (c ∷ before, after)) in
    if nat_beq c b then some ([], s) else rest

-- The same for the last such `i`.
unfoldable pub cut_last : ℕ → Bytes → Option (Bytes × Bytes)
unfolding contains
cut_last b [] = none
cut_last b (c ∷ s) =
    let rest = (do (before, after) ← cut_last b s; some (c ∷ before, after)) in
    if contains b s then rest else if nat_beq c b then some ([], s) else none

-- strings.HasPrefix
unfoldable pub has_prefix : Bytes → Bytes → Bool
has_prefix s [] = true
has_prefix [] (p ∷ ps) = false
has_prefix (c ∷ s) (p ∷ ps) = nat_beq c p && has_prefix s ps

-- strings.CutSuffix: what stands before the suffix, if the text ends in it. It is the result of
-- `HasSuffix` and of `TrimSuffix` in one.
unfoldable pub cut_suffix : Bytes → Bytes → Option Bytes
unfolding bytes_beq
cut_suffix [] suffix = if bytes_beq [] suffix then some [] else none
cut_suffix (c ∷ s) suffix =
    let rest = (do before ← cut_suffix s suffix; some (c ∷ before)) in
    if bytes_beq (c ∷ s) suffix then some [] else rest

unfoldable pub trim_suffix : Bytes → Bytes → Bytes
unfolding cut_suffix
trim_suffix s suffix = elim (cut_suffix s suffix) [ none ↦ s | some before ↦ before ]

-- The last element of strings.Split(s, b): what stands behind the last `b`.
unfoldable pub last_part : ℕ → Bytes → Bytes
unfolding cut_last
last_part b s = elim (cut_last b s) [ none ↦ s | some (before, after) ↦ after ]

-- The first element of strings.SplitN(s, b, 2): what stands before the first `b`.
unfoldable pub first_part : ℕ → Bytes → Bytes
unfolding cut_first
first_part b s = elim (cut_first b s) [ none ↦ s | some (before, after) ↦ before ]

-- Puts a byte in front of the first part.
abbrev pub onto_first : ℕ → List Bytes → List Bytes
onto_first c [] = (c ∷ []) ∷ []
onto_first c (part ∷ parts) = (c ∷ part) ∷ parts

-- strings.Split, for a separator of one byte.
unfoldable pub split : ℕ → Bytes → List Bytes
split b [] = [] ∷ []
split b (c ∷ s) = let rest = split b s in if nat_beq c b then [] ∷ rest else onto_first c rest

-- unicode.IsSpace, for ASCII.
unfoldable pub is_space : ℕ → Bool
is_space c = nat_beq c 32 || leb 9 c && leb c 13

unfoldable pub trim_left : Bytes → Bytes
trim_left [] = []
trim_left (c ∷ s) = if is_space c then trim_left s else c ∷ s

unfoldable pub trim_right : Bytes → Bytes
trim_right [] = []
trim_right (c ∷ s) = elim (trim_right s) [
  | [] ↦ if is_space c then [] else c ∷ []
  | d ∷ r ↦ c ∷ d ∷ r
]

-- strings.TrimSpace
unfoldable pub trim_space : Bytes → Bytes
unfolding trim_left trim_right is_space
trim_space s = trim_right (trim_left s)

-- The words of `s` behind the bytes `word` of an unfinished one.
unfoldable pub fields_from : Bytes → Bytes → List Bytes
fields_from [] [] = []
fields_from [] (w ∷ ws) = (w ∷ ws) ∷ []
fields_from (c ∷ s) [] = if is_space c then fields_from s [] else fields_from s (c ∷ [])
fields_from (c ∷ s) (w ∷ ws) =
    let closed = (w ∷ ws) ∷ fields_from s [] in
    let longer = fields_from s (w ∷ ws ++ c ∷ []) in if is_space c then closed else longer

-- strings.Fields
unfoldable pub fields : Bytes → List Bytes
unfolding fields_from is_space
fields s = fields_from s []

-- net.SplitHostPort where the host is in brackets; `s` is what follows the first byte.
-- The colon behind the bracket must be the last one, and no bracket may stand elsewhere.
unfoldable pub split_bracketed : Bytes → Option (Bytes × Bytes)
unfolding cut_first contains
split_bracketed s = do
  (host, after) ← cut_first b']' s
  elim after [
    | [] ↦ none
    | c ∷ port ↦
        if nat_beq c b':' && not (contains b':' port || contains b'[' s || contains b']' port)
        then some (host, port)
        else none
  ]

-- net.SplitHostPort where the first byte is no bracket.
unfoldable pub split_plain : Bytes → Option (Bytes × Bytes)
unfolding cut_last contains
split_plain s = do
  (host, port) ← cut_last b':' s
  if contains b':' host || contains b'[' s || contains b']' s then none else some (host, port)

-- net.SplitHostPort; `none` is an error.
unfoldable pub split_host_port : Bytes → Option (Bytes × Bytes)
unfolding split_bracketed split_plain
split_host_port [] = none
split_host_port (c ∷ s) = if nat_beq c b'[' then split_bracketed s else split_plain (c ∷ s)
