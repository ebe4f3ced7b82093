-- ===== src/Events/Loop.antt =====
-- overing.go: the loop of `WritePtrs` ends within three rounds.

use go_sliding_window.Base.{
  ℕ, suc, ◌+◌, ◌-◌, ◌<◌, ◌≤◌, ◌≡◌, refl, ◌∙◌, ap, ◌⊎◌, inl, inr, Bool, true, false, Bool-cases,
  some, List, ◌++◌, append_assoc, min, length, length-drop, take, drop, ltb, ◌==◌, if◌then◌else◌,
  arith,
}
use go_sliding_window.Packet.{Time}
use go_sliding_window.Events.{
  EventRingBuf, round_size, write_round, write_loop, write_ptrs, RingWrite,
}
use go_sliding_window.Events.Recent.{IsRing, wrap}
use go_sliding_window.Events.Queue.{events}
use go_sliding_window.Events.Written.{
  start, round_size-le, write_round-IsRing, events-write_round, take-split, Writes, Settles,
  nothing_more,
}

ends_empty :
    (fuel : ℕ) (p : List Time) (b : EventRingBuf) → IsRing b → length p ≡ 0 → Settles (suc fuel) p b
unfolding write_loop
ends_empty fuel p b ring h n err =
    let empty : (length p == 0) ≡ true = ground (arith, h) in
    let none_over : ltb (b.n - b.readable) (length p) ≡ false = ground (arith, h) in
    (
      record { written = n; short = err; ring_after = b },
      rw empty refl,
      (ring, nothing_more p b (omega (arith, h)), omega (arith, h), rw none_over refl),
    )

ends_full :
    (fuel : ℕ) (p : List Time) (b : EventRingBuf)
    → IsRing b
    → 0 < length p
    → b.n - b.readable ≡ 0
    → Settles (suc fuel) p b
unfolding write_loop
ends_full fuel p b ring some_left h n err =
    let left : (length p == 0) ≡ false = ground (arith, some_left) in
    let full : (b.n - b.readable == 0) ≡ true = ground (arith, h) in
    let over : ltb (b.n - b.readable) (length p) ≡ true = ground (arith, h, some_left) in
    (
      record { written = n; short = true; ring_after = b },
      rw (left, full) refl,
      (ring, nothing_more p b (omega (arith, h)), omega (arith, h), rw over refl),
    )

-- Nothing is left, or there is no room.
ends_now :
    (fuel : ℕ) (p : List Time) (b : EventRingBuf)
    → IsRing b
    → (length p ≡ 0) ⊎ (b.n - b.readable ≡ 0)
    → Settles (suc fuel) p b
ends_now fuel p b ring (inl h) = ends_empty fuel p b ring h
ends_now fuel p b ring (inr h) = elim (Bool-cases (length p == 0)) [
  | inl t ↦ ends_empty fuel p b ring (ground (arith, t))
  | inr f ↦ ends_full fuel p b ring (ground (arith, f)) h
]

Writes-round :
    (n : ℕ) (err : Bool) (p : List Time) (b : EventRingBuf) (out : RingWrite)
    → IsRing b
    → Writes
        (n + round_size p b)
        (if ltb (b.n - b.readable) (length p) then true else err)
        (drop (round_size p b) p)
        (write_round p b)
        out
    → Writes n err p b out
unfolding write_round
Writes-round n err p b out ring (ring', same, count, short) =
    let k = round_size p b in
    let (lt, fits, room, given) = round_size-le p b ring in
    let left = length-drop k p in
    let total : k + min (length (drop k p)) (b.n - (b.readable + k))
        ≡ min (length p) (b.n - b.readable) =
      omega (arith, left, room, given) in
    (
      ring',
      same
          ∙ ap
              (λ (l : List Time).
                l ++ take (min (length (drop k p)) (b.n - (b.readable + k))) (drop k p))
              (events-write_round p b ring)
          ∙ append_assoc (events b) (take k p) _
          ∙ ap (λ (l : List Time). events b ++ l)
              (take-split k (min (length (drop k p)) (b.n - (b.readable + k))) p
                ∙ ap (λ m. take m p) total),
      omega (arith, count, total),
      short ∙ elim (Bool-cases (ltb (b.n - b.readable) (length p))) [
        | inl t ↦
            let over : ltb (b.n - (b.readable + k)) (length (drop k p)) ≡ true =
              ground (arith, t, left, room, given) in
            rw (t, over) refl
        | inr f ↦
            let under : ltb (b.n - (b.readable + k)) (length (drop k p)) ≡ false =
              ground (arith, f, left, room, given) in
            rw (f, under) refl
      ],
    )

ends_later :
    (fuel : ℕ) (p : List Time) (b : EventRingBuf)
    → IsRing b
    → 0 < length p
    → 0 < b.n - b.readable
    → Settles fuel (drop (round_size p b) p) (write_round p b)
    → Settles (suc fuel) p b
unfolding write_loop
ends_later fuel p b ring some_left some_room ends n err =
    let k = round_size p b in
    let (out, goes, w) = ends (n + k) (if ltb (b.n - b.readable) (length p) then true else err) in
    let left : (length p == 0) ≡ false = ground (arith, some_left) in
    let room : (b.n - b.readable == 0) ≡ false = ground (arith, some_room) in
    (out, rw (left, room) goes, Writes-round n err p b out ring w)

ends_or :
    (fuel : ℕ) (p : List Time) (b : EventRingBuf)
    → IsRing b
    → (0 < length p
        → 0 < b.n - b.readable
        → Settles fuel (drop (round_size p b) p) (write_round p b))
    → Settles (suc fuel) p b
ends_or fuel p b ring next = elim (Bool-cases (ltb 0 (min (length p) (b.n - b.readable)))) [
  | inl t ↦
      let some_left : 0 < length p = ground (arith, t) in
      let some_room : 0 < b.n - b.readable = ground (arith, t) in
      ends_later fuel p b ring some_left some_room (next some_left some_room)
  | inr f ↦ ends_now fuel p b ring (ground (arith, f))
]

-- The room does not go around the end of the slice.
abbrev Straight : EventRingBuf → Type 0
Straight b = start b + (b.n - b.readable) ≤ b.n

two_rounds : (p : List Time) (b : EventRingBuf) → IsRing b → Straight b → Settles 2 p b
unfolding round_size write_round
two_rounds p b ring straight = ends_or 1 p b ring (λ left room.
    let size = length-drop (round_size p b) p in
    let done : (length (drop (round_size p b) p) ≡ 0) ⊎ (b.n - (b.readable + round_size p b) ≡ 0) =
      grind (arith, size, straight) in
    ends_now 0 (drop (round_size p b) p) (write_round p b) (write_round-IsRing p b ring) done)

-- After a round nothing is left, or there is no room, or the next one starts at the beginning.
after_round :
    (p : List Time) (b : EventRingBuf)
    → IsRing b
    → ((length (drop (round_size p b) p) ≡ 0) ⊎ (b.n - (b.readable + round_size p b) ≡ 0))
      ⊎ Straight (write_round p b)
unfolding round_size write_round
after_round p b (hl, hb, hr) =
    let size = length-drop (round_size p b) p in
    let first = wrap (b.beg + b.readable) b.n (omega (arith, hb, hr)) in
    let k = round_size p b in
    let facts = round_size-le p b (hl, hb, hr) in
    let next = wrap (b.beg + (b.readable + k)) b.n (omega (arith, hb, hr, facts)) in
    elim (Bool-cases (ltb k (length p))) [
      | inl t ↦ elim (Bool-cases (ltb k (b.n - b.readable))) [
        | inl u ↦
            let more : k < length p = ground (arith, t) in
            let room : k < b.n - b.readable = ground (arith, u) in
            let at_end : start b + k ≡ b.n = grind (arith, first, more, room, hb, hr) in
            let turn : b.beg + (b.readable + k) ≡ b.n = grind (arith, first, at_end, room, hb) in
            inr (grind (arith, next, turn))
        | inr v ↦ inl (inr (ground (arith, v)))
      ]
      | inr f ↦ inl (inl (ground (arith, f, size)))
    ]

three_rounds : (p : List Time) (b : EventRingBuf) → IsRing b → Settles 3 p b
unfolding write_round
three_rounds p b ring = ends_or 2 p b ring (λ left room.
    let ring' = write_round-IsRing p b ring in
    elim (after_round p b ring) [
      | inl done ↦ ends_now 1 (drop (round_size p b) p) (write_round p b) ring' done
      | inr straight ↦ two_rounds (drop (round_size p b) p) (write_round p b) ring' straight
    ])

-- `WritePtrs` ends: it writes as many events as there is room for behind those in the ring, says how
-- many, and reports a short write exactly if that is not all of them.
pub write_ptrs-Writes :
    (p : List Time) (b : EventRingBuf)
    → IsRing b
    → (out : RingWrite) × (write_ptrs p b ≡ some out) × Writes 0 false p b out
unfolding write_ptrs
write_ptrs-Writes p b ring = three_rounds p b ring 0 false
