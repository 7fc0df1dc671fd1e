-- ===== src/Tunnel/Handshake/Address.antt =====
-- Which addresses an accepted handshake may yield, and what becomes of the suffixes that clients
-- and proxies add.
use void_link_tunnels.Base.{
  ℕ, ◌≤◌, ◌≡◌, refl, ap, Bool, false, [], ◌∷◌, ◌++◌, arith, Bytes, All, All-append, All-append_left,
  Lacks, length, length-append, Option-cases, inl, inr, nat_beq, ltb, ◌||◌,
}
use mathlib.Core.Path.{subst}
use void_link_tunnels.Text.{first_part, trim_suffix, cut_suffix, cut_first}
use void_link_tunnels.Text.Cut.{
  first_part-Lacks, cut_suffix_sound, cut_suffix-append, cut_first-append, cut_first_sound,
  cut_first_of_Lacks,
}
use void_link_tunnels.Tunnel.Handshake.{
  Result, ok, err, ParseError, Reader, Read, start, ◌>>=◌, then_read, failing_as, fail_if,
  read_varint, split_at, read_full, clean_address, parse_body, bad_packet_length,
  bad_address_length, not_handshake, parse_minecraft_handshake,
}
use void_link_tunnels.Tunnel.Handshake.Buffer.{split_at_sound}

first_part_of_Lacks : (b : ℕ) (s : Bytes) → Lacks b s → first_part b s ≡ s
unfolding first_part
first_part_of_Lacks b s h = rw (cut_first_of_Lacks b s h, first_part)

first_part-append : (b : ℕ) (s t : Bytes) → Lacks b s → first_part b (s ++ b ∷ t) ≡ s
unfolding first_part
first_part-append b s t h = rw (cut_first-append b s t h, first_part)

-- What stands behind a zero byte does not count, and one dot at the end is dropped.
pub clean_address-append :
    (s forge : Bytes)
    → Lacks 0 s
    → (clean_address (s ++ 0 ∷ forge) ≡ clean_address s)
      × (clean_address (s ++ b'.' ∷ []) ≡ s)
      × (clean_address ((s ++ b'.' ∷ []) ++ 0 ∷ forge) ≡ s)
unfolding clean_address trim_suffix
clean_address-append s forge h =
    let dot : Lacks 0 (s ++ b'.' ∷ []) = All-append _ s (b'.' ∷ []) h (omega arith) in
    (
      rw (first_part-append 0 s forge h, first_part_of_Lacks 0 s h),
      rw (first_part_of_Lacks 0 (s ++ b'.' ∷ []) dot, cut_suffix-append s (b'.' ∷ []), trim_suffix),
      rw (
        first_part-append 0 (s ++ b'.' ∷ []) forge dot,
        cut_suffix-append s (b'.' ∷ []),
        trim_suffix,
      ),
    )

trim_suffix_parts :
    (P : ℕ → Type 0) (s t : Bytes)
    → All P s
    → All P (trim_suffix s t) × (length (trim_suffix s t) ≤ length s)
unfolding trim_suffix
trim_suffix_parts P s t h = elim (Option-cases (cut_suffix s t)) [
  | inl n ↦ rw (n, trim_suffix) (h, omega arith)
  | inr (x, found) ↦
      let e = cut_suffix_sound s t x found in
      rw (found, trim_suffix)
        (
          All-append_left P x t (subst (All P) e h),
          omega (arith, ap (length {0}) e, length-append x t),
        )
]

length-first_part : (b : ℕ) (s : Bytes) → length (first_part b s) ≤ length s
unfolding first_part
length-first_part b s = elim (Option-cases (cut_first b s)) [
  | inl n ↦ rw (n, first_part) (omega arith)
  | inr ((x, y), found) ↦
      rw (found, first_part)
        (omega (arith, ap (length {0}) (cut_first_sound b s x y found).0, length-append x (b ∷ y)))
]

clean_address_bounds :
    (s : Bytes) → Lacks 0 (clean_address s) × (length (clean_address s) ≤ length s)
unfolding clean_address
clean_address_bounds s =
    let (lacks, short) = trim_suffix_parts _ (first_part 0 s) (b'.' ∷ []) (first_part-Lacks 0 s) in
    (lacks, omega (arith, short, length-first_part 0 s))

-- Every result of `m` satisfies `P`.
record Yields {A : Type 0} (P : A → Type 0) (m : Read A) : Type 0 where
  at : (r : Reader) (a : A) → (m r).0 ≡ ok a → P a

module _ {A B : Type 0} (Q : A → Type 0) (P : B → Type 0) where
  then_read-Yields :
      (f : A → Read B) (x : Result A) (r : Reader) (b : B)
      → ((a : A) → x ≡ ok a → Yields P (f a))
      → (then_read x f r).0 ≡ ok b
      → P b
  then_read-Yields f (ok a) r b k h = (k a refl).at r b h
  then_read-Yields f (err e) r b k h = cc

  Yields-bind :
      (m : Read A) (f : A → Read B)
      → Yields Q m
      → ((a : A) → Q a → Yields P (f a))
      → Yields P (m >>= f)
  Yields-bind m f hm hf = record {
    at = λ r b h. then_read-Yields f (m r).0 (m r).1 b (λ a e. hf a (hm.at r a e)) h;
  }

-- The same where nothing of the first result matters.
Yields-after :
    {A B : Type 0} (P : B → Type 0) (m : Read A) (f : A → Read B)
    → ((a : A) → Yields P (f a))
    → Yields P (m >>= f)
Yields-after P m f k = Yields-bind (λ _. Unit {0}) P m f (record { at = λ r a h. tt }) (λ a _. k a)

read_full-Yields : (n : ℕ) → Yields (λ x. length x ≡ n) (read_full n)
unfolding read_full
read_full-Yields n = record {
  at = λ r x h. elim (Option-cases (split_at n r.unread)) [
    | inl short ↦ ground arith
    | inr ((x', y), found) ↦ ground (arith, split_at_sound n r.unread x' y found)
  ];
}

fail_if-Yields : (b : Bool) (e : ParseError) → Yields (λ _. b ≡ false) (fail_if b e)
fail_if-Yields b e = record { at = λ r u h. ground arith }

abbrev ResultIs : (Bytes → Type 0) → Result Bytes → Type 0
ResultIs P (ok a) = P a
ResultIs P (err e) = Unit

abbrev IsAddress : Bytes → Type 0
IsAddress addr = Lacks 0 addr × (length addr ≤ 255)

short-IsAddress :
    (n : ℕ) (x : Bytes)
    → (nat_beq n 0 || ltb 255 n) ≡ false
    → length x ≡ n
    → IsAddress (clean_address x)
short-IsAddress n x fits full =
    let (lacks, short) = clean_address_bounds x in
    let bound : n ≤ 255 = ground arith in (lacks, omega arith)

parse_body-Yields : Yields IsAddress parse_body
unfolding parse_body
parse_body-Yields = Yields-after IsAddress (failing_as read_varint not_handshake) _ λ id.
    Yields-after IsAddress (fail_if (ltb 0 id) not_handshake) _ λ _.
      Yields-after IsAddress read_varint _ λ _.
        Yields-after IsAddress (failing_as read_varint bad_address_length) _ λ n.
          Yields-bind (λ _. (nat_beq n 0 || ltb 255 n) ≡ false) IsAddress
            (fail_if (nat_beq n 0 || ltb 255 n) bad_address_length) _
            (fail_if-Yields _ bad_address_length)
            λ _ fits.
              Yields-bind (λ x. length x ≡ n) IsAddress (read_full n) _ (read_full-Yields n)
                λ x full. record {
                  at = λ r a h. subst (ResultIs IsAddress) h (short-IsAddress n x fits full);
                }

parse-Yields : Yields IsAddress parse_minecraft_handshake
unfolding parse_minecraft_handshake
parse-Yields = Yields-after IsAddress (failing_as read_varint bad_packet_length) _ λ n.
    Yields-after IsAddress (fail_if (nat_beq n 0 || ltb 32768 n) bad_packet_length) _ λ _.
      Yields-after IsAddress (read_full n) _
        λ body. record { at = λ r a h. parse_body-Yields.at (start body) a h }

-- An address that is accepted holds no zero byte and has at most 255 bytes, whatever was sent.
pub parse_minecraft_handshake-Lacks :
    (s addr : Bytes)
    → (parse_minecraft_handshake (start s)).0 ≡ ok addr
    → Lacks 0 addr × (length addr ≤ 255)
parse_minecraft_handshake-Lacks s addr h = parse-Yields.at (start s) addr h
