-- ===== src/Events/Written.antt =====
-- overing.go: `WritePtrs` adds to the end of the queue what there is room for.
use native.Mathlib.Nat.{mod-lt}
use go_sliding_window.Base.{
  ℕ, zero, suc, ◌+◌, ◌-◌, ◌%◌, ◌<◌, ◌≤◌, ◌≡◌, refl, sym, ◌∙◌, ap, ◌⊎◌, inl, inr, Bool, true,
  Bool-cases, some, List, [], ◌∷◌, ◌++◌, append-nil, min, length, length-append, length-take, take,
  drop, get_or, ltb, if◌then◌else◌, arith,
}
use go_sliding_window.Base.Int.{pos}
use go_sliding_window.Packet.{Time}
use go_sliding_window.Events.{EventRingBuf, round_size, write_round, write_loop, RingWrite}
use go_sliding_window.Events.Recent.{IsRing, event_at, wrap}
use go_sliding_window.Events.Queue.{events, length-events, get_or-events, events-ext}
use go_sliding_window.Events.Slices.{
  get_or-append_left, get_or-append_right, get_or-take, length-copy_at, copy_at-before,
  copy_at-inside, copy_at-after,
}

-- Where the next event goes.
abbrev pub start : EventRingBuf → ℕ
start b = (b.beg + b.readable) % b.n

-- A round writes no further than the end of the slice, and than there is room.
pub round_size-le :
    (p : List Time) (b : EventRingBuf)
    → IsRing b
    → (start b < b.n)
      × (start b + round_size p b ≤ b.n)
      × (round_size p b ≤ b.n - b.readable)
      × (round_size p b ≤ length p)
unfolding round_size
round_size-le p b (hl, hb, hr) =
    let some_place : 0 < b.n = omega (arith, hb) in
    let lt = mod-lt (b.beg + b.readable) some_place in omega (arith, lt, hb, hr)

pub write_round-IsRing : (p : List Time) (b : EventRingBuf) → IsRing b → IsRing (write_round p b)
unfolding write_round
write_round-IsRing p b (hl, hb, hr) =
    let (lt, fits, room, given) = round_size-le p b (hl, hb, hr) in
    let same =
      length-copy_at b.a (start b) (round_size p b) p (pos 0) (omega (arith, fits, hl)) given in
    (same ∙ hl, hb, omega (arith, room, hr))

-- A round changes no event that is in the queue, and puts the new ones behind them.
event_at-write_round :
    (p : List Time) (b : EventRingBuf) (i : ℕ)
    → IsRing b
    → i < (write_round p b).readable
    → event_at (write_round p b) i ≡ get_or (events b ++ take (round_size p b) p) i (pos 0)
unfolding write_round
event_at-write_round p b i (hl, hb, hr) lt =
    let ring : IsRing b = (hl, hb, hr) in
    let (below, fits, room, given) = round_size-le p b ring in
    let k = round_size p b in
    let inside : start b + k ≤ length b.a = omega (arith, fits, hl) in
    let size = length-events b ring in
    let place = wrap (b.beg + i) b.n (omega (arith, hb, hr, room, lt)) in
    let first = wrap (b.beg + b.readable) b.n (omega (arith, hb, hr)) in
    elim (Bool-cases (ltb i b.readable)) [
      | inl t ↦
          let old : i < b.readable = ground (arith, t) in
          let apart : ((b.beg + i) % b.n < start b) ⊎ (start b + k ≤ (b.beg + i) % b.n) =
            grind (arith, place, first, old, room, hb, hr, fits) in
          elim apart [
            | inl h ↦ copy_at-before b.a (start b) k p (pos 0) inside given _ h
            | inr h ↦ copy_at-after b.a (start b) k p (pos 0) inside given _ h
          ]
          ∙ sym (get_or-events b i ring old)
          ∙ sym (get_or-append_left (events b) (take k p) i (pos 0) (omega (arith, old, size)))
      | inr f ↦
          let new : b.readable ≤ i = ground (arith, f) in
          let there : (b.beg + i) % b.n ≡ start b + (i - b.readable) =
            grind (arith, place, first, new, lt, fits, hb, hr) in
          copy_at-inside b.a (start b) k p (pos 0) inside given _ (omega (arith, there))
            (omega (arith, there, new, lt))
          ∙ ap (λ j. get_or p j (pos 0)) (omega (arith, there))
          ∙ sym (get_or-take k p (i - b.readable) (pos 0) (omega (arith, new, lt)))
          ∙ ap (λ j. get_or (take k p) (i - j) (pos 0)) (sym size)
          ∙ sym (get_or-append_right (events b) (take k p) i (pos 0) (omega (arith, new, size)))
    ]

pub events-write_round :
    (p : List Time) (b : EventRingBuf)
    → IsRing b
    → events (write_round p b) ≡ events b ++ take (round_size p b) p
unfolding write_round
events-write_round p b ring =
    let k = round_size p b in
    let (lt, fits, room, given) = round_size-le p b ring in
    let grown : length (events b ++ take k p) ≡ b.readable + k =
      omega (
        arith,
        given,
        length-append (events b) (take k p),
        length-events b ring,
        length-take k p,
      ) in
    events-ext (write_round p b) (events b ++ take k p) (write_round-IsRing p b ring) grown
      (λ i h. event_at-write_round p b i ring h)

take-nil : {A : Type 0} (n : ℕ) → take {A = A} n [] ≡ []
take-nil zero = refl
take-nil (suc n) = refl

pub take-split :
    {A : Type 0} (m n : ℕ) (xs : List A) → take m xs ++ take n (drop m xs) ≡ take (m + n) xs
take-split zero n xs = ap (λ k. take k xs) (omega arith)
take-split (suc m) n [] = take-nil n ∙ sym (take-nil (suc m + n))
take-split (suc m) n (x ∷ xs) =
    let eq : suc m + n ≡ suc (m + n) = omega arith in
    ap (λ (l : List _). x ∷ l) (take-split m n xs) ∙ sym (ap (λ k. take k (x ∷ xs)) eq)

-- What the loop gives when it has written what there is room for, with its results so far.
abbrev pub Writes : ℕ → Bool → List Time → EventRingBuf → RingWrite → Type 0
Writes n err p b out =
    IsRing out.ring_after
    × (events out.ring_after ≡ events b ++ take (min (length p) (b.n - b.readable)) p)
    × (out.written ≡ n + min (length p) (b.n - b.readable))
    × (out.short ≡ (if ltb (b.n - b.readable) (length p) then true else err))

abbrev pub Settles : ℕ → List Time → EventRingBuf → Type 0
Settles fuel p b =
    (n : ℕ) (err : Bool)
    → (out : RingWrite) × (write_loop fuel n err p b ≡ some out) × Writes n err p b out

pub nothing_more :
    (p : List Time) (b : EventRingBuf)
    → min (length p) (b.n - b.readable) ≡ 0
    → events b ≡ events b ++ take (min (length p) (b.n - b.readable)) p
nothing_more p b e = sym (ap (λ k. events b ++ take k p) e ∙ append-nil (events b))
