-- ===== src/Tunnel/Hostname/Laws.antt =====
-- What `extractSubdomainFromAddr` finds in an address, and what it may return at all.
use mathlib.Core.Path.{subst}
use void_link_tunnels.Base.{
  ℕ, ◌≡◌, ◌∷◌, ◌++◌, append_assoc, arith, Bytes, All, All-append, All-append_left, All-append_right,
  Lacks, Option-cases, inl, inr, ◌∙◌,
}
use void_link_tunnels.Text.{
  to_lower, lower_byte, cut_suffix, cut_first, cut_last, first_part, last_part, split_host_port,
}
use void_link_tunnels.Text.Case.{
  IsLower, IsLowerByte, to_lower-append, to_lower-IsLower, to_lower_of_IsLower, to_lower_idem,
}
use void_link_tunnels.Text.Cut.{
  first_part-Lacks, last_part-Lacks, cut_suffix-append, cut_suffix_sound, cut_first_sound,
  cut_last_sound, cut_last_of_Lacks, cut_last-append,
}
use void_link_tunnels.Text.Host.{
  IsHost, split_host_port_of_IsHost, split_host_port-append, split_host_port-to_lower,
}
use void_link_tunnels.Tunnel.Hostname.{strip_port, label_under, extract_subdomain_from_addr}

-- One label of a host name, in lower case: what the server hands out as a subdomain.
pub record IsLabel (s : Bytes) : Type 0 where
  pub host : IsHost s
  pub dot : Lacks b'.' s
  pub lower : IsLower s

-- `a.b`
abbrev pub dotted : Bytes → Bytes → Bytes
dotted a b = a ++ b'.' ∷ b

dotted-IsHost : (a b : Bytes) → IsHost a → IsHost b → IsHost (dotted a b)
dotted-IsHost a b ha hb = record {
  colon = All-append _ a (b'.' ∷ b) ha.colon (omega arith, hb.colon);
  left = All-append _ a (b'.' ∷ b) ha.left (omega arith, hb.left);
  right = All-append _ a (b'.' ∷ b) ha.right (omega arith, hb.right);
}

last_part_of_Lacks : (s : Bytes) → Lacks b'.' s → last_part b'.' s ≡ s
unfolding last_part
last_part_of_Lacks s h = rw (cut_last_of_Lacks b'.' s h, last_part)

last_part-append : (s t : Bytes) → Lacks b'.' t → last_part b'.' (dotted s t) ≡ t
unfolding last_part
last_part-append s t h = rw (cut_last-append b'.' s t h, last_part)

strip_port_of_IsHost : (s : Bytes) → IsHost s → strip_port s ≡ s
unfolding strip_port
strip_port_of_IsHost s h = rw (split_host_port_of_IsHost s h, strip_port)

strip_port-append : (s t : Bytes) → IsHost s → IsHost t → strip_port (s ++ b':' ∷ t) ≡ s
unfolding strip_port
strip_port-append s t hs ht = rw (split_host_port-append s t hs ht, strip_port)

-- An address under the domain, in any case: the label is the last one before the domain.
extract_under :
    (addr domain host pre : Bytes)
    → strip_port addr ≡ host
    → to_lower host ≡ dotted pre (to_lower domain)
    → extract_subdomain_from_addr addr domain ≡ last_part b'.' pre
unfolding extract_subdomain_from_addr
extract_under addr domain host pre stripped lowered = rw (
  stripped,
  lowered,
  cut_suffix-append pre (b'.' ∷ to_lower domain),
  label_under,
  extract_subdomain_from_addr,
)

to_lower-dotted : (a b : Bytes) → to_lower (dotted a b) ≡ dotted (to_lower a) (to_lower b)
unfolding to_lower lower_byte
to_lower-dotted a b = to_lower-append a (b'.' ∷ b)

-- The address of a subdomain, with or without further labels in front of it.
extract_label :
    (addr sub domain : Bytes)
    → IsLabel sub
    → strip_port addr ≡ dotted sub domain
    → extract_subdomain_from_addr addr domain ≡ sub
extract_label addr sub domain h stripped =
    extract_under addr domain (dotted sub domain) sub stripped
      (rw (to_lower-dotted sub domain, to_lower_of_IsLower sub h.lower))
    ∙ last_part_of_Lacks sub h.dot

extract_last_label :
    (addr pre sub domain : Bytes)
    → IsLabel sub
    → strip_port addr ≡ dotted pre (dotted sub domain)
    → extract_subdomain_from_addr addr domain ≡ sub
extract_last_label addr pre sub domain h stripped =
    extract_under addr domain (dotted pre (dotted sub domain)) (dotted (to_lower pre) sub) stripped
      (rw (
        to_lower-dotted pre (dotted sub domain),
        to_lower-dotted sub domain,
        to_lower_of_IsLower sub h.lower,
        append_assoc (to_lower pre) (b'.' ∷ sub) (b'.' ∷ to_lower domain),
      ))
    ∙ last_part-append (to_lower pre) sub h.dot

-- The address `sub.domain`, the same with a port, and the same behind further labels
-- (`map.sub.domain`, also with a port) all name the subdomain `sub`, if `sub` is a label in lower
-- case and the domain, the port and the further labels hold no colon and no bracket.
pub extract_subdomain_from_addr-dotted :
    (sub domain port pre : Bytes)
    → IsLabel sub
    → IsHost domain
    → IsHost port
    → IsHost pre
    → (extract_subdomain_from_addr (dotted sub domain) domain ≡ sub)
      × (extract_subdomain_from_addr (dotted sub domain ++ b':' ∷ port) domain ≡ sub)
      × (extract_subdomain_from_addr (dotted pre (dotted sub domain)) domain ≡ sub)
      × (extract_subdomain_from_addr (dotted pre (dotted sub domain) ++ b':' ∷ port) domain ≡ sub)
extract_subdomain_from_addr-dotted sub domain port pre hs hd hp hr =
    let short = dotted-IsHost sub domain hs.host hd in
    let long = dotted-IsHost pre (dotted sub domain) hr short in
    (
      extract_label _ sub domain hs (strip_port_of_IsHost _ short),
      extract_label _ sub domain hs (strip_port-append _ port short hp),
      extract_last_label _ pre sub domain hs (strip_port_of_IsHost _ long),
      extract_last_label _ pre sub domain hs (strip_port-append _ port long hp),
    )

to_lower-strip_port :
    (addr : Bytes) → to_lower (strip_port (to_lower addr)) ≡ to_lower (strip_port addr)
unfolding strip_port
to_lower-strip_port addr = elim (Option-cases (split_host_port addr)) [
  | inl n ↦ ground (arith, split_host_port-to_lower addr, to_lower_idem addr)
  | inr ((host, port), found) ↦ ground (arith, split_host_port-to_lower addr, to_lower_idem host)
]

-- The case of the letters in the address and in the domain makes no difference.
pub extract_subdomain_from_addr-to_lower :
    (addr domain : Bytes)
    → extract_subdomain_from_addr (to_lower addr) (to_lower domain)
      ≡ extract_subdomain_from_addr addr domain
unfolding extract_subdomain_from_addr
extract_subdomain_from_addr-to_lower addr domain =
    cc (to_lower-strip_port addr, to_lower_idem domain)

part_of_prefix :
    (P : ℕ → Type 0) (b : ℕ) (s x y : Bytes) → s ≡ x ++ b ∷ y → All P s → All P x × All P y
part_of_prefix P b s x y e h =
    let split : All P (x ++ b ∷ y) = subst (All P) e h in
    (All-append_left P x (b ∷ y) split, (All-append_right P x (b ∷ y) split).1)

first_part-All : (P : ℕ → Type 0) (b : ℕ) (s : Bytes) → All P s → All P (first_part b s)
unfolding first_part
first_part-All P b s h = elim (Option-cases (cut_first b s)) [
  | inl n ↦ rw (n, first_part) h
  | inr ((x, y), found) ↦
      rw (found, first_part) (part_of_prefix P b s x y (cut_first_sound b s x y found).0 h).0
]

last_part-All : (P : ℕ → Type 0) (b : ℕ) (s : Bytes) → All P s → All P (last_part b s)
unfolding last_part
last_part-All P b s h = elim (Option-cases (cut_last b s)) [
  | inl n ↦ rw (n, last_part) h
  | inr ((x, y), found) ↦
      rw (found, last_part) (part_of_prefix P b s x y (cut_last_sound b s x y found).0 h).1
]

-- Whatever the address and the domain, what is extracted is one label in lower case: it holds no
-- dot and no upper case letter.
pub extract_subdomain_from_addr-Lacks :
    (addr domain : Bytes)
    → Lacks b'.' (extract_subdomain_from_addr addr domain)
      × IsLower (extract_subdomain_from_addr addr domain)
unfolding extract_subdomain_from_addr
extract_subdomain_from_addr-Lacks addr domain =
    let host = to_lower (strip_port addr) in
    let suffix = b'.' ∷ to_lower domain in
    elim (Option-cases (cut_suffix host suffix)) [
      | inl n ↦
          rw (n, label_under)
            (first_part-Lacks b'.' host, first_part-All IsLowerByte b'.' host (to_lower-IsLower _))
      | inr (pre, found) ↦
          rw (found, label_under)
            (
              last_part-Lacks b'.' pre,
              last_part-All IsLowerByte b'.' pre (
                  All-append_left IsLowerByte pre suffix
                    (subst IsLower (cut_suffix_sound host suffix pre found) (to_lower-IsLower _))),
            )
    ]
