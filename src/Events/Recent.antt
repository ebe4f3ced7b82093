-- ===== src/Events/Recent.antt =====
-- overing.go: the ring holds the last events, oldest first.
use native.Mathlib.Nat.{mod-lt, mod-eq_of_lt, mod-eq-sub-mod}
use go_sliding_window.Base.{
  ℕ, suc, ◌+◌, ◌-◌, ◌%◌, ◌≤◌, ◌<◌, ◌≡◌, ◌≢◌, ◌&&◌, min, ltb, ltb→lt, refl, sym, ◌∙◌, ap, ◌⊎◌, inl,
  inr, true, false, Bool-cases, some, List, ◌==◌, length, get_or, set, length-set, get_or-set_self,
  get_or-set_ne, arith,
}
use go_sliding_window.Base.Int.{pos, leb_ℤ}
use go_sliding_window.Packet.{Time, time_sub}
use go_sliding_window.Events.{EventRingBuf, put_event, within_window, add_event_check_overflow}

abbrev pub IsRing : EventRingBuf → Type 0
IsRing b = (length b.a ≡ b.n) × (b.beg < b.n) × (b.readable ≤ b.n)

-- The event at position `i`, counted from the oldest.
abbrev pub event_at : EventRingBuf → ℕ → Time
event_at b i = get_or b.a ((b.beg + i) % b.n) (pos 0)

pub wrap : (m n : ℕ) → m < n + n → ((m < n) × (m % n ≡ m)) ⊎ ((n ≤ m) × (m % n ≡ m - n))
wrap m n h = elim (Bool-cases (ltb m n)) [
  | inl t ↦ let lt = ltb→lt m n t in inl (lt, mod-eq_of_lt lt)
  | inr f ↦
      let le : n ≤ m = ground arith in
      let less : m - n < n = omega (arith, h, le) in inr (le, mod-eq-sub-mod le ∙ mod-eq_of_lt less)
]

-- Two positions of a ring, less than its size apart, are two places.
places_differ : (n beg i r : ℕ) → beg < n → i < r → r < n → (beg + r) % n ≢ (beg + i) % n
places_differ n beg i r hb hi hr e =
    let far = wrap (beg + r) n (omega (arith, hb, hr)) in
    let near = wrap (beg + i) n (omega (arith, hb, hi, hr)) in grind (arith, e, far, near)

-- Position `i` of the ring that begins one place later.
next_place : (n beg i : ℕ) → beg < n → i < n → ((beg + 1) % n + i) % n ≡ (beg + (i + 1)) % n
next_place n beg i hb hi =
    let start = wrap (beg + 1) n (omega (arith, hb)) in
    let there = wrap (beg + (i + 1)) n (omega (arith, hb, hi)) in
    elim start [
      | inl (lt, q) ↦
          let same : beg + 1 + i ≡ beg + (i + 1) = omega arith in rw q (ap (λ m. m % n) same)
      | inr (le, q) ↦
          let same : beg + 1 - n + i ≡ i = omega (arith, le, hb) in
          let back : (beg + (i + 1)) % n ≡ i = grind (arith, there, le, hb) in
          rw q (ap (λ m. m % n) same ∙ mod-eq_of_lt hi ∙ sym back)
    ]

full_turn : (n beg : ℕ) → beg < n → (beg + n) % n ≡ (beg + 0) % n
full_turn n beg hb =
    let once = wrap (beg + n) n (omega (arith, hb)) in
    let here = wrap (beg + 0) n (omega (arith, hb)) in grind (arith, once, here)

place-lt : (b : EventRingBuf) (m : ℕ) → IsRing b → m % b.n < length b.a
place-lt b m (hl, hb, hr) =
    let some_place : 0 < b.n = omega (arith, hb) in
    let lt = mod-lt m some_place in omega (arith, lt, hl)

add_full :
    (b : EventRingBuf) (e : Time)
    → IsRing b
    → b.readable ≡ b.n
    → IsRing (put_event b e)
      × ((put_event b e).readable ≡ b.n)
      × (event_at (put_event b e) (b.n - 1) ≡ e)
      × ((i : ℕ) → suc i < b.n → event_at (put_event b e) i ≡ event_at b (i + 1))
unfolding put_event
add_full b e (hl, hb, hr) full =
    let none_left : (b.n - b.readable == 0) ≡ true = ground (arith, full) in
    let n = b.n in
    let last : n - 1 + 1 ≡ b.readable = omega (arith, hb, full) in
    let newest : ((b.beg + 1) % n + (n - 1)) % n ≡ (b.beg + b.readable) % n =
      next_place n b.beg (n - 1) hb (omega (arith, hb)) ∙ ap (λ k. (b.beg + k) % n) last in
    let turn : (b.beg + b.readable) % n ≡ (b.beg + 0) % n =
      ap (λ k. (b.beg + k) % n) full ∙ full_turn n b.beg hb in
    rw none_left (
      (length-set b.a _ e ∙ hl, mod-lt (b.beg + 1) (omega (arith, hb)), hr),
      full,
      ap (λ k. get_or (set b.a ((b.beg + b.readable) % n) e) k (pos 0)) newest
          ∙ get_or-set_self b.a _ e (pos 0) (place-lt b (b.beg + b.readable) (hl, hb, hr)),
      λ i hi.
          ap (λ k. get_or (set b.a ((b.beg + b.readable) % n) e) k (pos 0))
            (next_place n b.beg i hb (omega (arith, hi)))
          ∙ get_or-set_ne b.a _ _ e (pos 0) (λ q.
            places_differ n b.beg 0 (i + 1) hb (omega arith) (omega (arith, hi)) (sym q ∙ turn)),
    )

add_free :
    (b : EventRingBuf) (e : Time)
    → IsRing b
    → b.readable < b.n
    → IsRing (put_event b e)
      × ((put_event b e).readable ≡ suc b.readable)
      × (event_at (put_event b e) b.readable ≡ e)
      × ((i : ℕ) → i < b.readable → event_at (put_event b e) i ≡ event_at b i)
unfolding put_event
add_free b e (hl, hb, hr) free =
    let some_left : (b.n - b.readable == 0) ≡ false = ground (arith, free) in
    rw some_left (
      (length-set b.a _ e ∙ hl, hb, free),
      refl,
      get_or-set_self b.a _ e (pos 0) (place-lt b (b.beg + b.readable) (hl, hb, hr)),
      λ i hi. get_or-set_ne b.a _ _ e (pos 0) (places_differ b.n b.beg i b.readable hb hi free),
    )

put_event-same :
    (b : EventRingBuf) (e : Time)
    → ((put_event b e).n ≡ b.n)
      × ((put_event b e).window ≡ b.window)
      × ((put_event b e).a ≡ set b.a ((b.beg + b.readable) % b.n) e)
unfolding put_event
put_event-same b e = ground arith

within_window_lem :
    (b : EventRingBuf) (youngest : ℕ) (e : Time)
    → IsRing b
    → get_or b.a youngest (pos 0) ≡ e
    → within_window b youngest ≡ ((b.readable == b.n) && leb_ℤ (time_sub e (event_at b 0)) b.window)
unfolding within_window
within_window_lem b youngest e (hl, hb, hr) new =
    let first : (b.beg + 0) % b.n ≡ b.beg = mod-eq_of_lt (omega (arith, hb)) ∙ omega arith in
    elim (Bool-cases (ltb 0 (b.n - b.readable))) [
      | inl space ↦
          let short : (b.readable == b.n) ≡ false = ground (arith, space) in rw (space, short) refl
      | inr space ↦
          let whole : (b.readable == b.n) ≡ true = ground (arith, space, hr) in
          rw (space, whole, new, first) refl
    ]

-- `b'` is `b` after the event `e`.
abbrev pub Added : EventRingBuf → Time → EventRingBuf → Type 0
Added b e b' =
    IsRing b'
    × (b'.readable ≡ min b.n (suc b.readable))
    × (event_at b' (b'.readable - 1) ≡ e)
    × ((i : ℕ)
        → suc i < b'.readable
        → event_at b' i ≡ event_at b (i + (suc b.readable - b'.readable)))

put_event-Added : (b : EventRingBuf) (e : Time) → IsRing b → Added b e (put_event b e)
put_event-Added b e ring = elim (Bool-cases (ltb b.readable b.n)) [
  | inl t ↦
      let free = ltb→lt b.readable b.n t in
      let (r, k, l, old) = add_free b e ring free in
      let at_end : (put_event b e).readable - 1 ≡ b.readable = omega (arith, k) in
      (
        r,
        omega (arith, k, free),
        ap (event_at (put_event b e)) at_end ∙ l,
        λ i hi.
            let same : i ≡ i + (suc b.readable - (put_event b e).readable) = omega (arith, k) in
            old i (omega (arith, k, hi)) ∙ ap (event_at b) same,
      )
  | inr f ↦
      let full : b.readable ≡ b.n = ground (arith, f, ring.2) in
      let (r, k, l, old) = add_full b e ring full in
      let at_end : (put_event b e).readable - 1 ≡ b.n - 1 = omega (arith, k) in
      (
        r,
        omega (arith, k, full),
        ap (event_at (put_event b e)) at_end ∙ l,
        λ i hi.
            let same : i + 1 ≡ i + (suc b.readable - (put_event b e).readable) =
              omega (arith, k, full) in
            old i (omega (arith, k, hi)) ∙ ap (event_at b) same,
      )
]

-- An event added to a ring of at least one place never panics, and gives a ring of the same size that
-- holds one event more, up to its size: the new event last, before it the events that were there, in
-- their order and whatever their age, less the oldest one if the ring was full. The answer is whether the ring is full now
-- and the new event came within the window after the oldest that it holds.
pub add_event-Added :
    (b : EventRingBuf) (e : Time)
    → IsRing b
    → (b' : EventRingBuf) × (b'.n ≡ b.n)
      × Added b e b'
      × (add_event_check_overflow b e
          ≡ some (b', (b'.readable == b'.n) && leb_ℤ (time_sub e (event_at b' 0)) b'.window))
unfolding add_event_check_overflow
add_event-Added b e ring =
    let b' = put_event b e in
    let (size, wide, written) = put_event-same b e in
    let added = put_event-Added b e ring in
    let place = (b.beg + b.readable) % b.n in
    let new : get_or b'.a place (pos 0) ≡ e =
      ap (λ (l : List Time). get_or l place (pos 0)) written
      ∙ get_or-set_self b.a place e (pos 0) (place-lt b (b.beg + b.readable) ring) in
    let some_place : (b.n == 0) ≡ false = ground (arith, ring.1) in
    (b', size, added, rw (some_place, within_window_lem b' place e added.0 new) refl)
