-- ===== src/Tests/Relay.antt =====
-- A relay of two pieces one way and none the other, whose peer ends once it has seen the end.
use void_link_tunnels.Base.{◌≡◌, refl, true, false, [], ◌∷◌, Bytes, codes, List, inl, inr}
use void_link_tunnels.Tunnel.Relay.{
  Direction, Relay, direction, relay, copies, ends, half_closes, reports, forwards, backwards,
  closes, Run, here, next, finished,
}
use void_link_tunnels.Tunnel.Relay.Whole.{relay_whole, join}

abbrev pieces : List Bytes
pieces = codes "he" ∷ codes "llo" ∷ []

abbrev before : Relay
before = relay (direction pieces [] false true) (direction [] (codes "bye") true true)

abbrev forth : Direction
forth = record {
  pieces = [];
  last = [];
  waits = false;
  is_tcp = true;
  written = codes "hello";
  half_closed = true;
  lost = false;
  phase = finished;
}

abbrev back : Direction
back = record {
  pieces = [];
  last = codes "bye";
  waits = true;
  is_tcp = true;
  written = codes "bye";
  half_closed = true;
  lost = false;
  phase = finished;
}

abbrev after : Relay
after = record { forth = forth; back = back; closed = true }

-- The first direction ends, and then the second one.
relayed : Run before 9 after
relayed =
    next
      (next
        (next
          (next
            (next
              (next
                (next
                  (next
                    (next here (forwards _ (copies _ (codes "he") (codes "llo" ∷ []) refl refl)))
                    (forwards _ (copies _ (codes "llo") [] refl refl)))
                  (forwards _ (ends _ refl refl (inl refl))))
                (forwards _ (half_closes _ refl)))
              (backwards _ (ends _ refl refl (inr refl))))
            (forwards _ (reports _ refl)))
          (backwards _ (half_closes _ refl)))
        (backwards _ (reports _ refl)))
      (closes _ refl refl refl)

relay_whole_example : (codes "hello" ≡ join pieces []) × (codes "bye" ≡ join [] (codes "bye"))
relay_whole_example =
    relay_whole pieces [] [] (codes "bye") false true true true 9 after relayed refl refl refl
