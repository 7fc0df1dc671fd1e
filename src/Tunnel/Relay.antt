-- ===== src/Tunnel/Relay.antt =====
-- `relay` of internal/tunnel/server.go: two goroutines copy bytes between two connections, one in
-- each direction, and a third waits for both. A connection yields the pieces that its reads return;
-- the read that fails, which ends the loop, may return bytes, too. A read blocks where the peer has
-- nothing more to send and has not ended: some peers end only when they have seen the end of what is
-- sent to them, which is the half-close of the other direction.
pub mod Whole
pub mod Ends
use void_link_tunnels.Base.{ℕ, suc, Bool, true, false, List, [], ◌∷◌, ◌++◌, Bytes, ◌≡◌, ◌⊎◌}

-- Where a goroutine `cp` stands: in the loop, before the half-close, before `done <- struct{}{}`,
-- and after it.
pub data Phase : Type 0 where
  copying : Phase
  closing : Phase
  reporting : Phase
  finished : Phase

-- One direction: what its source will yield, whether that peer waits for the end of the other
-- direction before it ends, whether the destination is a TCP connection, and what has happened to
-- the destination: what was written to it, and whether it was half-closed. A failed write goes
-- unnoticed; `lost` remembers it.
pub record Direction : Type 0 where
  pub pieces : List Bytes
  pub last : Bytes
  pub waits : Bool
  pub is_tcp : Bool
  pub written : Bytes
  pub half_closed : Bool
  pub lost : Bool
  pub phase : Phase

pub record Relay : Type 0 where
  pub forth : Direction
  pub back : Direction
  pub closed : Bool

abbrev pub direction : List Bytes → Bytes → Bool → Bool → Direction
direction pieces last waits is_tcp = record {
  pieces = pieces;
  last = last;
  waits = waits;
  is_tcp = is_tcp;
  written = [];
  half_closed = false;
  lost = false;
  phase = copying;
}

abbrev pub relay : Direction → Direction → Relay
relay forth back = record { forth = forth; back = back; closed = false }

-- The read at the end of the pieces returns: the peer has ended by itself, or has seen the end.
abbrev pub IsOver : Bool → Direction → Type 0
IsOver seen d = (d.waits ≡ false) ⊎ (seen ≡ true)

-- What one goroutine does next: one turn of the loop, or one step behind it. `seen` says whether the
-- other direction, whose destination is the source of this one, has been half-closed.
pub data Advance (seen : Bool) : Direction → Direction → Type 0 where
  copies :
      (d : Direction) (piece : Bytes) (rest : List Bytes)
      → d.phase ≡ copying
      → d.pieces ≡ piece ∷ rest
      → Advance seen d (record d { pieces = rest; written = d.written ++ piece })
  drops :
      (d : Direction) (piece : Bytes) (rest : List Bytes)
      → d.phase ≡ copying
      → d.pieces ≡ piece ∷ rest
      → Advance seen d (record d { pieces = rest; lost = true })
  ends :
      (d : Direction)
      → d.phase ≡ copying
      → d.pieces ≡ []
      → IsOver seen d
      → Advance seen d (record d { written = d.written ++ d.last; phase = closing })
  ends_dropping :
      (d : Direction)
      → d.phase ≡ copying
      → d.pieces ≡ []
      → IsOver seen d
      → Advance seen d (record d { lost = true; phase = closing })
  half_closes :
      (d : Direction)
      → d.phase ≡ closing
      → Advance seen d (record d { half_closed = d.is_tcp; phase = reporting })
  reports : (d : Direction) → d.phase ≡ reporting → Advance seen d (record d { phase = finished })

-- The goroutines take turns in any order; the connections are closed when both have reported.
pub data Step : Relay → Relay → Type 0 where
  forwards :
      (r : Relay) {d : Direction}
      → Advance r.back.half_closed r.forth d
      → Step r (record r { forth = d })
  backwards :
      (r : Relay) {d : Direction}
      → Advance r.forth.half_closed r.back d
      → Step r (record r { back = d })
  closes :
      (r : Relay)
      → r.forth.phase ≡ finished
      → r.back.phase ≡ finished
      → r.closed ≡ false
      → Step r (record r { closed = true })

-- A run of so many steps.
pub data Run (start : Relay) : ℕ → Relay → Type 0 where
  here : Run start 0 start
  next : {n : ℕ} {r s : Relay} → Run start n r → Step r s → Run start (suc n) s
