-- ===== src/Tunnel/Handshake/Buffer.antt =====
-- What the reader has handed out and what is left are the connection's bytes, on every path.
use void_link_tunnels.Base.{
  ℕ, zero, suc, ◌≡◌, refl, sym, ap, ◌∙◌, Bool, some, [], ◌∷◌, ◌++◌, append_assoc, append-nil, arith,
  Bytes, length, Option-cases, inl, inr,
}
use void_link_tunnels.Tunnel.Handshake.{
  Result, ok, err, ParseError, Reader, Read, start, ◌>>=◌, then_read, failing_as, fail_if, lift,
  varint_loop, read_varint, split_at, read_full, parse_body, parse_minecraft_handshake,
  bad_packet_length,
}

-- The bytes of the source, as far as the reader knows it.
abbrev pub stream : Reader → Bytes
stream r = r.seen ++ r.unread

-- `m` loses no byte and makes none up.
pub record Conserves {A : Type 0} (m : Read A) : Type 0 where
  pub at : (r : Reader) → stream (m r).1 ≡ stream r

varint_loop-stream :
    (s seen : Bytes) (result shift : ℕ) → stream (varint_loop s seen result shift).1 ≡ seen ++ s
unfolding varint_loop
varint_loop-stream [] seen result shift = refl
varint_loop-stream (b ∷ s) seen result shift =
    grind (arith, varint_loop-stream s (seen ++ b ∷ []), append_assoc seen (b ∷ []) s)

read_varint-Conserves : Conserves read_varint
unfolding read_varint
read_varint-Conserves = record { at = λ r. varint_loop-stream r.unread r.seen 0 0 }

pub split_at_sound :
    (n : ℕ) (s x y : Bytes) → split_at n s ≡ some (x, y) → (s ≡ x ++ y) × (length x ≡ n)
unfolding split_at
split_at_sound zero s x y h = ground arith
split_at_sound (suc n) [] x y h = cc
split_at_sound (suc n) (b ∷ s) x y h = elim (Option-cases (split_at n s)) [
  | inl short ↦ ground arith
  | inr ((x', y'), found) ↦ ground (arith, split_at_sound n s x' y' found)
]

read_full-Conserves : (n : ℕ) → Conserves (read_full n)
unfolding read_full
read_full-Conserves n = record {
  at = λ r. elim (Option-cases (split_at n r.unread)) [
    | inl short ↦ rw (short, read_full) (append-nil (r.seen ++ r.unread))
    | inr ((x, y), found) ↦
        rw (found, read_full)
          (append_assoc r.seen x y
            ∙ ap (λ t. r.seen ++ t) (sym (split_at_sound n r.unread x y found).0))
  ];
}

module _ {A B : Type 0} where
  then_read-stream :
      (a : Result A) (f : A → Read B) (r : Reader)
      → ((a : A) → Conserves (f a))
      → stream (then_read a f r).1 ≡ stream r
  then_read-stream (ok a) f r k = (k a).at r
  then_read-stream (err e) f r k = refl

  bind-Conserves :
      (m : Read A) (f : A → Read B)
      → Conserves m
      → ((a : A) → Conserves (f a))
      → Conserves (m >>= f)
  bind-Conserves m f hm hf = record { at = λ r. then_read-stream (m r).0 f (m r).1 hf ∙ hm.at r }

failing_as-Conserves :
    {A : Type 0} (m : Read A) (e : ParseError) → Conserves m → Conserves (failing_as m e)
failing_as-Conserves m e h = record { at = h.at }

fail_if-Conserves : (b : Bool) (e : ParseError) → Conserves (fail_if b e)
fail_if-Conserves b e = record { at = λ r. refl }

lift-Conserves : {A : Type 0} (a : Result A) → Conserves (lift a)
lift-Conserves a = record { at = λ r. refl }

parse-Conserves : Conserves parse_minecraft_handshake
unfolding parse_minecraft_handshake
parse-Conserves =
    bind-Conserves (failing_as read_varint bad_packet_length) _
      (failing_as-Conserves read_varint bad_packet_length read_varint-Conserves)
      λ n.
        bind-Conserves (fail_if _ bad_packet_length) _ (fail_if-Conserves _ bad_packet_length) λ _.
          bind-Conserves (read_full n) _ (read_full-Conserves n)
            λ body. lift-Conserves (parse_body (start body)).0

-- Whether the handshake is accepted or refused, the buffered bytes followed by what was not read
-- are the bytes of the connection, in order: what is sent on before the relay starts is exactly
-- what was taken from the player.
pub parse_minecraft_handshake-stream :
    (s : Bytes) → let r = (parse_minecraft_handshake (start s)).1 in r.seen ++ r.unread ≡ s
parse_minecraft_handshake-stream s = parse-Conserves.at (start s)
