-- ===== src/Events/Advance.antt =====
-- overing.go: the events that were read leave the ring.
use native.Mathlib.Nat.{mod-lt}
use go_sliding_window.Base.{
  ℕ, zero, suc, ◌+◌, ◌-◌, ◌%◌, ◌<◌, ◌≤◌, ◌≡◌, refl, sym, ◌∙◌, ap, false, length, length-drop, drop,
  get_or, ltb, arith,
}
use go_sliding_window.Base.Int.{pos}
use go_sliding_window.Events.{EventRingBuf, drop_oldest, advance_ring}
use go_sliding_window.Events.Recent.{IsRing, wrap}
use go_sliding_window.Events.Queue.{events, length-events, get_or-events, events-ext}
use go_sliding_window.Events.Slices.{get_or-drop}

drop_oldest-IsRing : (m : ℕ) (b : EventRingBuf) → IsRing b → IsRing (drop_oldest m b)
drop_oldest-IsRing m b (hl, hb, hr) =
    let some_place : 0 < b.n = omega (arith, hb) in
    (hl, mod-lt (b.beg + m) some_place, omega (arith, hr))

-- Dropping the oldest events moves the beginning of the queue.
events-drop_oldest :
    (m : ℕ) (b : EventRingBuf)
    → IsRing b
    → m ≤ b.readable
    → events (drop_oldest m b) ≡ drop m (events b)
events-drop_oldest m b (hl, hb, hr) few =
    let ring : IsRing b = (hl, hb, hr) in
    let left : length (drop m (events b)) ≡ b.readable - m =
      omega (arith, length-drop m (events b), length-events b ring) in
    events-ext (drop_oldest m b) (drop m (events b)) (drop_oldest-IsRing m b ring) left (λ i lt.
      let moved = wrap (b.beg + m) b.n (omega (arith, hb, hr, few)) in
      let later = wrap (b.beg + (m + i)) b.n (omega (arith, hb, hr, lt)) in
      let again = wrap ((b.beg + m) % b.n + i) b.n (grind (arith, moved, lt, hb, hr)) in
      let same : ((b.beg + m) % b.n + i) % b.n ≡ (b.beg + (m + i)) % b.n =
        grind (arith, moved, later, again, hb, hr, lt) in
      ap (λ k. get_or b.a k (pos 0)) same
      ∙ sym (get_or-events b (m + i) ring (omega (arith, lt)))
      ∙ sym (get_or-drop m (events b) i (pos 0)))

pub advance_ring_lem :
    (m : ℕ) (b : EventRingBuf)
    → IsRing b
    → m ≤ b.readable
    → IsRing (advance_ring (pos m) b) × (events (advance_ring (pos m) b) ≡ drop m (events b))
unfolding advance_ring
advance_ring_lem zero b ring few = (ring, refl)
advance_ring_lem (suc k) b ring few =
    let no : ltb b.readable (suc k) ≡ false = ground (arith, few) in
    rw no (drop_oldest-IsRing (suc k) b ring, events-drop_oldest (suc k) b ring few)
