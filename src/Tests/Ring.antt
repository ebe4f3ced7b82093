-- ===== src/Tests/Ring.antt =====
-- The ring of events as a queue, on concrete inputs.
use go_sliding_window.Base.{◌≡◌, refl, true, false, some, List, [], ◌∷◌, arith}
use go_sliding_window.Base.Int.{pos}
use go_sliding_window.Packet.{Time}
use go_sliding_window.Events.{
  EventRingBuf, RingWrite, write_ptrs, read_and_maybe_advance, adopt, reset,
}
use go_sliding_window.Events.Recent.{IsRing}
use go_sliding_window.Events.Queue.{events, events-adopt}
use go_sliding_window.Events.Written.{Writes}
use go_sliding_window.Events.Loop.{write_ptrs-Writes}
use go_sliding_window.Events.Reading.{Reads, read_and_maybe_advance-Reads}

-- Four places, with events in the last one and the first.
abbrev around : EventRingBuf
around = record {
  a = pos 5 ∷ pos 0 ∷ pos 0 ∷ pos 4 ∷ [];
  n = 4;
  window = pos 10;
  beg = 3;
  readable = 2;
}

around-IsRing : IsRing around
around-IsRing = (refl, omega arith, omega arith)

abbrev five : List Time
five = pos 1 ∷ pos 2 ∷ pos 3 ∷ pos 4 ∷ pos 5 ∷ []

-- Five events are more than there is room for.
events-adopt_example :
    IsRing (adopt five around)
    × (events (adopt five around) ≡ five)
    × IsRing (reset around)
    × (events (reset around) ≡ [])
events-adopt_example = events-adopt five around around-IsRing

-- Only two of the three events fit, and they go around the end.
write_ptrs-Writes_example :
    (out : RingWrite) × (write_ptrs (pos 7 ∷ pos 8 ∷ pos 9 ∷ []) around ≡ some out)
    × Writes 0 false (pos 7 ∷ pos 8 ∷ pos 9 ∷ []) around out
write_ptrs-Writes_example = write_ptrs-Writes (pos 7 ∷ pos 8 ∷ pos 9 ∷ []) around around-IsRing

read_and_maybe_advance-Reads_example :
    Reads true
      (pos 0 ∷ pos 0 ∷ pos 0 ∷ [])
      around
      (read_and_maybe_advance true (pos 0 ∷ pos 0 ∷ pos 0 ∷ []) around)
read_and_maybe_advance-Reads_example =
    read_and_maybe_advance-Reads true (pos 0 ∷ pos 0 ∷ pos 0 ∷ []) around around-IsRing
