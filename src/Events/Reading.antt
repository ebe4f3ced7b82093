-- ===== src/Events/Reading.antt =====
-- overing.go: `ReadPtrs` takes from the front of the queue, `ReadWithoutAdvance` only looks.

use go_sliding_window.Base.{
  ℕ, zero, suc, ◌+◌, ◌-◌, ◌%◌, ◌<◌, ◌≤◌, ◌≡◌, refl, sym, ◌∙◌, ap, subst, inl, inr, Bool, true,
  false, Bool-cases, List, [], ◌∷◌, ◌++◌, append-nil, min, length, length-append, length-take,
  length-drop, take, drop, get_or, ltb, leb, ◌==◌, ◌&&◌, if◌then◌else◌, arith,
}
use go_sliding_window.Base.Int.{pos}
use go_sliding_window.Packet.{Time}
use go_sliding_window.Events.{
  EventRingBuf, two_contig, copy_at, copy_events, after_copy, read_and_maybe_advance, RingRead,
}
use go_sliding_window.Events.Recent.{IsRing, wrap}
use go_sliding_window.Events.Queue.{events}
use go_sliding_window.Events.Slices.{
  get_or-append_left, get_or-append_right, get_or-ext, length-copy_at, copy_at-before,
  copy_at-inside, copy_at-after,
}
use go_sliding_window.Events.Advance.{advance_ring_lem}

-- Two copies one behind the other are a copy of both sources.
copy_at-copy_at :
    (p xs ys : List Time) (k : ℕ)
    → k ≤ length ys
    → length xs + k ≤ length p
    → copy_at (copy_at p 0 (length xs) xs) (length xs) k ys ≡ copy_at p 0 (length xs + k) (xs ++ ys)
copy_at-copy_at p xs ys k given fits =
    let m = length xs in
    let both = length-append xs ys in
    let p1 = copy_at p 0 m xs in
    let fits1 : 0 + m ≤ length p = omega (arith, fits) in
    let given1 : m ≤ length xs = omega arith in
    let same1 = length-copy_at p 0 m xs (pos 0) fits1 given1 in
    let fits2 : m + k ≤ length p1 = omega (arith, same1, fits) in
    let same2 = length-copy_at p1 m k ys (pos 0) fits2 given in
    let fits3 : 0 + (m + k) ≤ length p = omega (arith, fits) in
    let given3 : m + k ≤ length (xs ++ ys) = omega (arith, both, given) in
    let same3 = length-copy_at p 0 (m + k) (xs ++ ys) (pos 0) fits3 given3 in
    get_or-ext _ _ (pos 0) (same2 ∙ same1 ∙ sym same3) (λ i lt. elim (Bool-cases (ltb i m)) [
      | inl t ↦
          let low : i < m = ground (arith, t) in
          copy_at-before p1 m k ys (pos 0) fits2 given i low
          ∙ copy_at-inside p 0 m xs (pos 0) fits1 given1 i (omega arith) (omega (arith, low))
          ∙ sym (get_or-append_left xs ys (i - 0) (pos 0) (omega (arith, low)))
          ∙ sym (
              copy_at-inside p 0 (m + k) (xs ++ ys) (pos 0) fits3 given3 i (omega arith)
                (omega (arith, low)))
      | inr f ↦
          let high : m ≤ i = ground (arith, f) in
          elim (Bool-cases (ltb i (m + k))) [
            | inl t ↦
                let mid : i < m + k = ground (arith, t) in
                copy_at-inside p1 m k ys (pos 0) fits2 given i high mid
                ∙ ap (λ j. get_or ys j (pos 0)) (omega arith)
                ∙ sym (get_or-append_right xs ys (i - 0) (pos 0) (omega (arith, high)))
                ∙ sym (
                    copy_at-inside p 0 (m + k) (xs ++ ys) (pos 0) fits3 given3 i (omega arith)
                      (omega (arith, mid)))
            | inr g ↦
                let past : m + k ≤ i = ground (arith, g) in
                copy_at-after p1 m k ys (pos 0) fits2 given i past
                ∙ copy_at-after p 0 m xs (pos 0) fits1 given1 i (omega (arith, past))
                ∙ sym (
                    copy_at-after p 0 (m + k) (xs ++ ys) (pos 0) fits3 given3 i
                      (omega (arith, past)))
          ]
    ])

take-append : (k : ℕ) (xs ys : List Time) → k ≤ length xs → take k (xs ++ ys) ≡ take k xs
take-append zero xs ys h = refl
take-append (suc k) [] ys h = absurd (omega (arith, h))
take-append (suc k) (x ∷ xs) ys h =
    ap (λ (l : List Time). x ∷ l) (take-append k xs ys (omega (arith, h)))

copy_at-append :
    (p xs ys : List Time) (k : ℕ) → k ≤ length xs → copy_at p 0 k xs ≡ copy_at p 0 k (xs ++ ys)
unfolding copy_at
copy_at-append p xs ys k h =
    ap (λ (l : List Time). l ++ drop (0 + k) p) (sym (take-append k xs ys h))

-- The copies of a read are one copy of the queue's contents.
copy_events_lem :
    (p : List Time) (b : EventRingBuf)
    → IsRing b
    → copy_events p b
      ≡ (min (length p) b.readable, copy_at p 0 (min (length p) b.readable) (events b))
unfolding copy_events two_contig
copy_events_lem p b (hl, hb, hr) = elim (Bool-cases (leb (b.beg + b.readable) b.n)) [
  | inl t ↦
      let front = take b.readable (drop b.beg b.a) in
      rw t (
        ap
          (λ (l : List Time).
            (min (length p) b.readable, copy_at p 0 (min (length p) b.readable) l))
          (sym (append-nil front)))
  | inr f ↦
      let over : b.n < b.beg + b.readable = ground (arith, f) in
      let first = take (b.n - b.beg) (drop b.beg b.a) in
      let second = take ((b.beg + b.readable) % b.n) b.a in
      let wrapped = wrap (b.beg + b.readable) b.n (omega (arith, hb, hr)) in
      let rest : (b.beg + b.readable) % b.n ≡ b.beg + b.readable - b.n =
        grind (arith, wrapped, over) in
      let size1 : length first ≡ b.n - b.beg =
        omega (arith, hl, hb, length-take (b.n - b.beg) (drop b.beg b.a), length-drop b.beg b.a) in
      let size2 : length second ≡ (b.beg + b.readable) % b.n =
        omega (arith, hl, hb, hr, rest, length-take ((b.beg + b.readable) % b.n) b.a) in
      elim (Bool-cases (ltb (min (length p) (b.n - b.beg)) (length p))) [
        | inl u ↦
            let n1 : min (length p) (b.n - b.beg) ≡ length first = ground (arith, u, size1) in
            let n2 = min (length p - length first) ((b.beg + b.readable) % b.n) in
            let more : length first ≤ length p = ground (arith, u, size1) in
            let total : length first + n2 ≡ min (length p) b.readable =
              omega (arith, size1, rest, over, more, hb) in
            rw (f, u, n1)
              (ap (λ (l : List Time). (length first + n2, l))
                  (copy_at-copy_at p first second n2 (omega (arith, size2)) (omega (arith, more)))
                ∙ ap (λ k. (k, copy_at p 0 k (first ++ second))) total)
        | inr v ↦
            let all : min (length p) (b.n - b.beg) ≡ min (length p) b.readable =
              ground (arith, v, over) in
            let small : min (length p) b.readable ≤ length first = ground (arith, v, over, size1) in
            rw (f, v, all)
              (ap (λ (l : List Time). (min (length p) b.readable, l))
                (copy_at-append p first second (min (length p) b.readable) small))
      ]
]

-- What a read gives.
abbrev pub Reads : Bool → List Time → EventRingBuf → RingRead → Type 0
Reads do_advance p b out =
    (out.count ≡ min (length p) b.readable)
    × (out.filled ≡ take out.count (events b) ++ drop out.count p)
    × (out.eof ≡ (ltb 0 (length p) && b.readable == 0))
    × IsRing out.ring
    × (events out.ring ≡ (if do_advance then drop out.count (events b) else events b))

nothing_read :
    (do_advance eof : Bool) (p : List Time) (b : EventRingBuf)
    → IsRing b
    → min (length p) b.readable ≡ 0
    → eof ≡ (ltb 0 (length p) && b.readable == 0)
    → Reads do_advance p b (record { count = 0; eof = eof; filled = p; ring = b })
nothing_read true eof p b ring h e = (sym h, refl, e, ring, refl)
nothing_read false eof p b ring h e = (sym h, refl, e, ring, refl)

something_read :
    (do_advance : Bool) (p : List Time) (b : EventRingBuf)
    → IsRing b
    → 0 < length p
    → 0 < b.readable
    → Reads do_advance p b (
        after_copy do_advance b
          (min (length p) b.readable, copy_at p 0 (min (length p) b.readable) (events b)))
unfolding copy_at
something_read true p b ring left some_there =
    let m = min (length p) b.readable in
    let no_eof : (ltb 0 (length p) && b.readable == 0) ≡ false = ground (arith, some_there) in
    let start : 0 + m ≡ m = omega arith in
    let (ring', moved) = advance_ring_lem m b ring (omega arith) in
    (refl, ap (λ k. take m (events b) ++ drop k p) start, sym no_eof, ring', moved)
something_read false p b ring left some_there =
    let m = min (length p) b.readable in
    let no_eof : (ltb 0 (length p) && b.readable == 0) ≡ false = ground (arith, some_there) in
    let start : 0 + m ≡ m = omega arith in
    (refl, ap (λ k. take m (events b) ++ drop k p) start, sym no_eof, ring, refl)

-- A read fills its slice with the oldest events, as many as there are and as fit, and leaves the rest
-- of the slice; it reports the end exactly if it should read and nothing is there. The events read
-- leave the ring with `ReadPtrs`, and stay with `ReadWithoutAdvance`.
pub read_and_maybe_advance-Reads :
    (do_advance : Bool) (p : List Time) (b : EventRingBuf)
    → IsRing b
    → Reads do_advance p b (read_and_maybe_advance do_advance p b)
unfolding read_and_maybe_advance
read_and_maybe_advance-Reads do_advance p b ring = elim (Bool-cases (length p == 0)) [
  | inl t ↦
      let out : read_and_maybe_advance do_advance p b
          ≡ record { count = 0; eof = false; filled = p; ring = b } =
        rw t refl in
      subst (Reads do_advance p b) (sym out)
        (nothing_read do_advance false p b ring (ground (arith, t)) (ground (arith, t)))
  | inr f ↦ elim (Bool-cases (b.readable == 0)) [
    | inl t ↦
        let out : read_and_maybe_advance do_advance p b
            ≡ record { count = 0; eof = true; filled = p; ring = b } =
          rw (f, t) refl in
        subst (Reads do_advance p b) (sym out)
          (nothing_read do_advance true p b ring (ground (arith, t)) (ground (arith, f, t)))
    | inr g ↦
        let out : read_and_maybe_advance do_advance p b
            ≡ after_copy do_advance b
                (min (length p) b.readable, copy_at p 0 (min (length p) b.readable) (events b)) =
          rw (f, g, copy_events_lem p b ring) refl in
        subst (Reads do_advance p b) (sym out)
          (something_read do_advance p b ring (ground (arith, f)) (ground (arith, g)))
  ]
]
