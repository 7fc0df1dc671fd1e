-- ===== src/Tunnel/Server/Control/Lines.antt =====
-- The lines of the control channel.
use void_link_tunnels.Base.{
  ◌≡◌, ◌≢◌, refl, ◌∙◌, List, [], ◌∷◌, Bytes, nat_eq, bytes_eq, bytes_beq, bytes_beq_iff, Bool-cases,
  inl, inr, arith,
}
use void_link_tunnels.Text.{trim_space, fields}
use void_link_tunnels.Text.Words.{fields-ne-nil, fields-trim_space, trim_space-ne-nil}
use void_link_tunnels.Tunnel.Server.{Server}
use void_link_tunnels.Tunnel.Server.Control.{panic, control_words, control_line}

control_words-ne-panic :
    (words : List Bytes) (s : Server) → words ≢ [] → control_words words s ≢ panic
unfolding control_words
control_words-ne-panic [] s h = absurd (h refl)
control_words-ne-panic (c ∷ args) s h = ground arith

-- No line that a client can send makes the loop index into an empty list of words.
pub control_line-ne-panic : (line : Bytes) (s : Server) → control_line line s ≢ panic
unfolding control_line
control_line-ne-panic line s = elim (Bool-cases (bytes_beq (trim_space line) [])) [
  | inl blank ↦ rw blank (cc)
  | inr word ↦ rw word (
      control_words-ne-panic (fields (trim_space line)) s
        (fields-ne-nil line (λ e. absurd (ground (arith, bytes_beq_iff (trim_space line) [])))))
]

-- A line that has words is handled by its words.
pub control_line_of_words :
    (line c : Bytes) (args : List Bytes) (s : Server)
    → fields line ≡ c ∷ args
    → control_line line s ≡ control_words (c ∷ args) s
unfolding control_line
control_line_of_words line c args s e =
    rw (trim_space-ne-nil line (λ n. absurd (cc)), fields-trim_space line ∙ e)
