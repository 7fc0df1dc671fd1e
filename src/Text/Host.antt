-- ===== src/Text/Host.antt =====
-- Laws of `split_host_port`.
use mathlib.Core.Option
use void_link_tunnels.Base.{
  ◌≡◌, refl, Option, none, some, [], ◌∷◌, ◌++◌, arith, Bytes, Lacks, nat_beq, Option-cases, inl,
  inr, not, ◌&&◌, ◌||◌, ◌>>=◌, if◌then◌else◌,
}
use void_link_tunnels.Text.{
  to_lower, contains, cut_first, cut_last, split_plain, split_bracketed, split_host_port,
}
use void_link_tunnels.Text.Case.{
  lower_both, contains-to_lower, cut_first-to_lower, cut_last-to_lower, nat_beq-lower_byte,
}
use void_link_tunnels.Text.Cut.{
  contains_of_Lacks, cut_last_of_Lacks, cut_last-append, contains-append,
}

-- A host name or an IPv4 address: no colon and no bracket.
pub record IsHost (s : Bytes) : Type 0 where
  pub colon : Lacks b':' s
  pub left : Lacks b'[' s
  pub right : Lacks b']' s

-- A host that is given without a port is no host and port.
pub split_host_port_of_IsHost : (s : Bytes) → IsHost s → split_host_port s ≡ none
unfolding split_host_port split_plain
split_host_port_of_IsHost [] h = refl
split_host_port_of_IsHost (c ∷ s) h = ground (arith, cut_last_of_Lacks b':' (c ∷ s) h.colon, h.left)

split_plain-append : (s t : Bytes) → IsHost s → IsHost t → split_plain (s ++ b':' ∷ t) ≡ some (s, t)
unfolding split_plain contains
split_plain-append s t hs ht = rw (
  cut_last-append b':' s t ht.colon,
  contains_of_Lacks b':' s hs.colon,
  contains-append b'[' s (b':' ∷ t) (contains_of_Lacks b'[' s hs.left),
  contains-append b']' s (b':' ∷ t) (contains_of_Lacks b']' s hs.right),
  contains_of_Lacks b'[' t ht.left,
  contains_of_Lacks b']' t ht.right,
)

-- A host and a port come apart at the colon between them.
pub split_host_port-append :
    (s t : Bytes) → IsHost s → IsHost t → split_host_port (s ++ b':' ∷ t) ≡ some (s, t)
unfolding split_host_port
split_host_port-append [] t hs ht = split_plain-append [] t hs ht
split_host_port-append (c ∷ s) t hs ht = ground (arith, split_plain-append (c ∷ s) t hs ht, hs.left)

split_plain-to_lower :
    (s : Bytes) → split_plain (to_lower s) ≡ Option.map lower_both (split_plain s)
unfolding split_plain
split_plain-to_lower s = elim (Option-cases (cut_last b':' s)) [
  | inl n ↦ ground (arith, cut_last-to_lower b':' s (omega arith))
  | inr ((x, y), found) ↦ ground (
    arith,
    cut_last-to_lower b':' s (omega arith),
    contains-to_lower b':' x (omega arith),
    contains-to_lower b'[' s (omega arith),
    contains-to_lower b']' s (omega arith),
  )
]

-- What is asked of the text behind the closing bracket commutes with the change of case.
bracketed_end : Bytes → Bytes × Bytes → Option (Bytes × Bytes)
bracketed_end s (host, []) = none
bracketed_end s (host, c ∷ port) =
    if nat_beq c b':' && not (contains b':' port || contains b'[' s || contains b']' port)
    then some (host, port)
    else none

split_bracketed-bracketed_end :
    (s : Bytes) → split_bracketed s ≡ (cut_first b']' s >>= bracketed_end s)
unfolding split_bracketed bracketed_end
split_bracketed-bracketed_end s = elim (Option-cases (cut_first b']' s)) [
  | inl n ↦ rw n
  | inr ((x, []), found) ↦ rw found
  | inr ((x, c ∷ y), found) ↦ rw found
]

bracketed_end-to_lower :
    (s : Bytes) (p : Bytes × Bytes)
    → bracketed_end (to_lower s) (lower_both p) ≡ Option.map lower_both (bracketed_end s p)
unfolding bracketed_end to_lower
bracketed_end-to_lower s (x, []) = refl
bracketed_end-to_lower s (x, c ∷ y) = ground (
  arith,
  nat_beq-lower_byte b':' c (omega arith),
  contains-to_lower b':' y (omega arith),
  contains-to_lower b'[' s (omega arith),
  contains-to_lower b']' y (omega arith),
)

split_bracketed-to_lower :
    (s : Bytes) → split_bracketed (to_lower s) ≡ Option.map lower_both (split_bracketed s)
split_bracketed-to_lower s =
    rw
      (
        split_bracketed-bracketed_end s,
        split_bracketed-bracketed_end (to_lower s),
        cut_first-to_lower b']' s (omega arith),
      )
      (elim (Option-cases (cut_first b']' s)) [
        | inl n ↦ rw n
        | inr (p, found) ↦ rw found (bracketed_end-to_lower s p)
      ])

-- Splitting a text in lower case gives the parts in lower case.
pub split_host_port-to_lower :
    (s : Bytes) → split_host_port (to_lower s) ≡ Option.map lower_both (split_host_port s)
unfolding split_host_port to_lower
split_host_port-to_lower [] = refl
split_host_port-to_lower (c ∷ s) = ground (
  arith,
  nat_beq-lower_byte b'[' c (omega arith),
  split_bracketed-to_lower s,
  split_plain-to_lower (c ∷ s),
)
