-- ===== src/Tunnel/Relay/Ends.antt =====
-- The relay ends: each half-close ends the peer that waits for it.
use void_link_tunnels.Base.{
  ℕ, suc, ◌+◌, ◌≤◌, ◌≡◌, refl, Bool, true, false, ◌&&◌, List, [], ◌∷◌, Bytes, ◌⊎◌, inl, inr, length,
  arith, Bool-cases,
}
use void_link_tunnels.Tunnel.Relay.{
  Phase, copying, closing, reporting, finished, Direction, Relay, direction, relay, Advance, copies,
  drops, ends, ends_dropping, half_closes, reports, Step, forwards, backwards, closes, Run, here,
  next,
}

-- The steps that a direction can still take.
abbrev steps_left : Phase → List Bytes → ℕ
steps_left copying pieces = length pieces + 3
steps_left closing pieces = 2
steps_left reporting pieces = 1
steps_left finished pieces = 0

abbrev left_open : Bool → ℕ
left_open true = 0
left_open false = 1

abbrev measure : Relay → ℕ
measure r =
    steps_left r.forth.phase r.forth.pieces
    + steps_left r.back.phase r.back.pieces
    + left_open r.closed

Advance-steps_left :
    {seen : Bool} {d e : Direction}
    → Advance seen d e
    → suc (steps_left e.phase e.pieces) ≡ steps_left d.phase d.pieces
Advance-steps_left (copies d piece rest at_loop more) = rw (at_loop, more) (omega arith)
Advance-steps_left (drops d piece rest at_loop more) = rw (at_loop, more) (omega arith)
Advance-steps_left (ends d at_loop none_left over) = rw (at_loop, none_left) (omega arith)
Advance-steps_left (ends_dropping d at_loop none_left over) = rw (at_loop, none_left) (omega arith)
Advance-steps_left (half_closes d at_end) = rw at_end (omega arith)
Advance-steps_left (reports d at_end) = rw at_end (omega arith)

Step-measure : {r s : Relay} → Step r s → suc (measure s) ≡ measure r
Step-measure (forwards r step) = omega (arith, Advance-steps_left step)
Step-measure (backwards r step) = omega (arith, Advance-steps_left step)
Step-measure (closes r f b open_yet) = rw (f, b, open_yet) (omega arith)

Run-measure : {start r : Relay} {n : ℕ} → Run start n r → n + measure r ≡ measure start
Run-measure here = omega arith
Run-measure (next run step) = omega (arith, Run-measure run, Step-measure step)

-- The environment of a direction does not change, and behind the half-close it has been made.
abbrev HasEnded : Phase → Direction → Type 0
HasEnded copying d = Unit
HasEnded closing d = Unit
HasEnded reporting d = d.half_closed ≡ true
HasEnded finished d = d.half_closed ≡ true

record IsTold (waits : Bool) (d : Direction) : Type 0 where
  same : d.waits ≡ waits
  tcp : d.is_tcp ≡ true
  told : HasEnded d.phase d

Advance-IsTold :
    {seen : Bool} {waits : Bool} {d e : Direction}
    → Advance seen d e
    → IsTold waits d
    → IsTold waits e
Advance-IsTold (copies d piece rest at_loop more) h = record {
  same = h.same;
  tcp = h.tcp;
  told = rw at_loop tt;
}
Advance-IsTold (drops d piece rest at_loop more) h = record {
  same = h.same;
  tcp = h.tcp;
  told = rw at_loop tt;
}
Advance-IsTold (ends d at_loop none_left over) h = record { same = h.same; tcp = h.tcp; told = tt }
Advance-IsTold (ends_dropping d at_loop none_left over) h = record {
  same = h.same;
  tcp = h.tcp;
  told = tt;
}
Advance-IsTold (half_closes d at_end) h = record { same = h.same; tcp = h.tcp; told = h.tcp }
Advance-IsTold (reports d at_end) h = record {
  same = h.same;
  tcp = h.tcp;
  told = rw at_end at h.told;
}

Run-IsTold :
    {waits waits' : Bool} {start r : Relay} {n : ℕ}
    → Run start n r
    → IsTold waits start.forth × IsTold waits' start.back
    → IsTold waits r.forth × IsTold waits' r.back
Run-IsTold here h = h
Run-IsTold (next run (forwards r step)) h =
    let (f, b) = Run-IsTold run h in (Advance-IsTold step f, b)
Run-IsTold (next run (backwards r step)) h =
    let (f, b) = Run-IsTold run h in (f, Advance-IsTold step b)
Run-IsTold (next run (closes r f b open_yet)) h = Run-IsTold run h

-- A goroutine has finished, can go on, or is blocked by a peer that waits for the other direction,
-- which is not half-closed.
data Standing (seen : Bool) (d : Direction) : Type 0 where
  is_finished : d.phase ≡ finished → d.half_closed ≡ true → Standing seen d
  goes_on : (e : Direction) → Advance seen d e → Standing seen d
  blocked : d.waits ≡ true → seen ≡ false → d.phase ≡ copying → Standing seen d

Direction-Standing :
    (seen waits : Bool) (p : Phase) (pieces : List Bytes) (d : Direction)
    → d.phase ≡ p
    → d.pieces ≡ pieces
    → IsTold waits d
    → Standing seen d
Direction-Standing seen waits copying [] d ep ed h = elim (Bool-cases d.waits) [
  | inr alone ↦ goes_on _ (ends d ep ed (inl alone))
  | inl waiting ↦ elim (Bool-cases seen) [
    | inl end ↦ goes_on _ (ends d ep ed (inr end))
    | inr open_yet ↦ blocked waiting open_yet ep
  ]
]
Direction-Standing seen waits copying (piece ∷ rest) d ep ed h =
    goes_on _ (copies d piece rest ep ed)
Direction-Standing seen waits closing pieces d ep ed h = goes_on _ (half_closes d ep)
Direction-Standing seen waits reporting pieces d ep ed h = goes_on _ (reports d ep)
Direction-Standing seen waits finished pieces d ep ed h = is_finished ep (rw ep at h.told)

-- Not both peers wait for each other.
Relay-progress :
    {waits waits' : Bool} (r : Relay)
    → waits && waits' ≡ false
    → IsTold waits r.forth
    → IsTold waits' r.back
    → (r.closed ≡ true) ⊎ ((s : Relay) × Step r s)
Relay-progress r not_both f b =
    meet (Direction-Standing r.back.half_closed _ r.forth.phase r.forth.pieces r.forth refl refl f)
      (Direction-Standing r.forth.half_closed _ r.back.phase r.back.pieces r.back refl refl b)
  where
    meet :
        Standing r.back.half_closed r.forth
        → Standing r.forth.half_closed r.back
        → (r.closed ≡ true) ⊎ ((s : Relay) × Step r s)
    meet (goes_on e step) other = inr (_, forwards r step)
    meet (is_finished p told) (goes_on e step) = inr (_, backwards r step)
    meet (blocked w not_seen p) (goes_on e step) = inr (_, backwards r step)
    meet (is_finished p told) (is_finished p' told') = elim (Bool-cases r.closed) [
      | inl is_closed ↦ inl is_closed
      | inr open_yet ↦ inr (_, closes r p p' open_yet)
    ]
    meet (is_finished p told) (blocked w not_seen p') = absurd (cc)
    meet (blocked w not_seen p) (is_finished p' told') = absurd (cc)
    meet (blocked w not_seen p) (blocked w' not_seen' p') = absurd (ground (arith, f.same, b.same))

pub relay_ends :
    (pieces pieces' : List Bytes) (last last' : Bytes) (waits waits' : Bool) (n : ℕ) (r : Relay)
    → waits && waits' ≡ false
    → Run (relay (direction pieces last waits true) (direction pieces' last' waits' true)) n r
    → (n ≤ length pieces + length pieces' + 7) × ((r.closed ≡ true) ⊎ ((s : Relay) × Step r s))
relay_ends pieces pieces' last last' waits waits' n r not_both run =
    let start : IsTold waits (direction pieces last waits true) = record {
      same = refl;
      tcp = refl;
      told = tt;
    } in
    let start' : IsTold waits' (direction pieces' last' waits' true) = record {
      same = refl;
      tcp = refl;
      told = tt;
    } in
    let (f, b) = Run-IsTold run (start, start') in
    (omega (arith, Run-measure run), Relay-progress r not_both f b)
