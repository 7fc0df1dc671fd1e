-- ===== src/Tunnel/Relay/Whole.antt =====
-- The relay hands on all that it has read.
use void_link_tunnels.Base.{
  ℕ, ◌≡◌, ◌≢◌, refl, sym, ◌∙◌, Bool, true, false, List, [], ◌∷◌, ◌++◌, Bytes, append_assoc,
  append-nil, ◌⊎◌, inl, inr,
}
use void_link_tunnels.Tunnel.Relay.{
  Phase, copying, closing, reporting, finished, Direction, Relay, direction, relay, Advance, copies,
  drops, ends, ends_dropping, half_closes, reports, Step, forwards, backwards, closes, Run, here,
  next,
}

abbrev pub join : List Bytes → Bytes → Bytes
join [] last = last
join (piece ∷ rest) last = piece ++ join rest last

-- What a direction has still to write.
abbrev ahead : Phase → List Bytes → Bytes → Bytes
ahead copying pieces last = join pieces last
ahead closing pieces last = []
ahead reporting pieces last = []
ahead finished pieces last = []

abbrev pub remaining : Direction → Bytes
remaining d = ahead d.phase d.pieces d.last

-- Unless a write has failed, what is written and what is ahead are the whole text.
abbrev IsWhole : Bytes → Direction → Type 0
IsWhole text d = (d.lost ≡ true) ⊎ (d.written ++ remaining d ≡ text)

Advance-IsWhole :
    {seen : Bool} {d e : Direction} (text : Bytes)
    → Advance seen d e
    → IsWhole text d
    → IsWhole text e
Advance-IsWhole text (copies d piece rest at_loop more) (inl lost) = inl lost
Advance-IsWhole text (copies d piece rest at_loop more) (inr whole) =
    inr
      (rw at_loop (append_assoc d.written piece (join rest d.last) ∙ (rw (at_loop, more) at whole)))
Advance-IsWhole text (drops d piece rest at_loop more) h = inl refl
Advance-IsWhole text (ends d at_loop none_left over) (inl lost) = inl lost
Advance-IsWhole text (ends d at_loop none_left over) (inr whole) =
    inr (append-nil (d.written ++ d.last) ∙ (rw (at_loop, none_left) at whole))
Advance-IsWhole text (ends_dropping d at_loop none_left over) h = inl refl
Advance-IsWhole text (half_closes d at_end) (inl lost) = inl lost
Advance-IsWhole text (half_closes d at_end) (inr whole) = inr (rw at_end at whole)
Advance-IsWhole text (reports d at_end) (inl lost) = inl lost
Advance-IsWhole text (reports d at_end) (inr whole) = inr (rw at_end at whole)

Run-IsWhole :
    (forth back : Bytes) {start r : Relay} {n : ℕ}
    → Run start n r
    → IsWhole forth start.forth × IsWhole back start.back
    → IsWhole forth r.forth × IsWhole back r.back
Run-IsWhole forth back here h = h
Run-IsWhole forth back (next run (forwards r step)) h =
    let (f, b) = Run-IsWhole forth back run h in (Advance-IsWhole forth step f, b)
Run-IsWhole forth back (next run (backwards r step)) h =
    let (f, b) = Run-IsWhole forth back run h in (f, Advance-IsWhole back step b)
Run-IsWhole forth back (next run (closes r f b open_yet)) h = Run-IsWhole forth back run h

-- The connections are not closed before both goroutines have reported.
abbrev IsOpenOrDone : Relay → Type 0
IsOpenOrDone r = (r.closed ≡ false) ⊎ ((r.forth.phase ≡ finished) × (r.back.phase ≡ finished))

not_finished : {seen : Bool} {d e : Direction} → Advance seen d e → d.phase ≢ finished
not_finished (copies d piece rest at_loop more) f = cc
not_finished (drops d piece rest at_loop more) f = cc
not_finished (ends d at_loop none_left over) f = cc
not_finished (ends_dropping d at_loop none_left over) f = cc
not_finished (half_closes d at_end) f = cc
not_finished (reports d at_end) f = cc

Step-IsOpenOrDone : {r s : Relay} → Step r s → IsOpenOrDone r → IsOpenOrDone s
Step-IsOpenOrDone (forwards r step) (inl open_yet) = inl open_yet
Step-IsOpenOrDone (forwards r step) (inr (f, b)) = absurd (not_finished step f)
Step-IsOpenOrDone (backwards r step) (inl open_yet) = inl open_yet
Step-IsOpenOrDone (backwards r step) (inr (f, b)) = absurd (not_finished step b)
Step-IsOpenOrDone (closes r f b open_yet) h = inr (f, b)

Run-IsOpenOrDone : {start r : Relay} {n : ℕ} → Run start n r → IsOpenOrDone start → IsOpenOrDone r
Run-IsOpenOrDone here h = h
Run-IsOpenOrDone (next run step) h = Step-IsOpenOrDone step (Run-IsOpenOrDone run h)

whole_at_end :
    (text : Bytes) (d : Direction)
    → IsWhole text d
    → d.phase ≡ finished
    → d.lost ≡ false
    → d.written ≡ text
whole_at_end text d (inl lost) f kept = absurd (cc)
whole_at_end text d (inr whole) f kept = sym (append-nil d.written) ∙ (rw f at whole)

-- When a relay has closed the connections and no write has failed, each side has been sent all the
-- bytes that the other has sent, in their order.
pub relay_whole :
    (pieces pieces' : List Bytes) (last last' : Bytes) (waits waits' tcp tcp' : Bool) (n : ℕ)
    (r : Relay)
    → Run (relay (direction pieces last waits tcp) (direction pieces' last' waits' tcp')) n r
    → r.closed ≡ true
    → r.forth.lost ≡ false
    → r.back.lost ≡ false
    → (r.forth.written ≡ join pieces last) × (r.back.written ≡ join pieces' last')
relay_whole pieces pieces' last last' waits waits' tcp tcp' n r run is_closed kept kept' =
    let (f, b) = Run-IsWhole (join pieces last) (join pieces' last') run (inr refl, inr refl) in
    elim (Run-IsOpenOrDone run (inl refl)) [
      | inl open_yet ↦ absurd (cc)
      | inr (pf, pb) ↦ (whole_at_end _ r.forth f pf kept, whole_at_end _ r.back b pb kept')
    ]
