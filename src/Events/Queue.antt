-- ===== src/Events/Queue.antt =====
-- overing.go: the ring as a queue, whose contents are the two slices of `TwoContig`.
use native.Mathlib.Nat.{mod-eq_of_lt}
use go_sliding_window.Base.{
  ℕ, ◌+◌, ◌-◌, ◌%◌, ◌<◌, ◌≤◌, ◌≡◌, refl, sym, ◌∙◌, ap, inl, inr, Bool-cases, List, [], ◌++◌,
  append-nil, length, length-append, length-take, length-drop, take, drop, get_or, ltb, leb, arith,
}
use go_sliding_window.Base.Int.{pos}
use go_sliding_window.Packet.{Time}
use go_sliding_window.Events.{EventRingBuf, two_contig, adopt, reset, copy_at}
use go_sliding_window.Events.Recent.{IsRing, event_at, wrap}
use go_sliding_window.Events.Slices.{
  get_or-append_left, get_or-append_right, get_or-take, get_or-drop, get_or-ext, length-copy_at,
  copy_at-inside,
}

-- The contents, oldest first.
abbrev pub events : EventRingBuf → List Time
events b = (two_contig b).0 ++ (two_contig b).1

pub length-events : (b : EventRingBuf) → IsRing b → length (events b) ≡ b.readable
unfolding two_contig
length-events b (hl, hb, hr) = elim (Bool-cases (leb (b.beg + b.readable) b.n)) [
  | inl t ↦
      let fits : b.beg + b.readable ≤ b.n = ground (arith, t) in
      rw t (
        omega (
          arith,
          fits,
          hl,
          length-append (take b.readable (drop b.beg b.a)) [],
          length-take b.readable (drop b.beg b.a),
          length-drop b.beg b.a,
        ))
  | inr f ↦
      let over : b.n < b.beg + b.readable = ground (arith, f) in
      let wrapped = wrap (b.beg + b.readable) b.n (omega (arith, hb, hr)) in
      let rest : (b.beg + b.readable) % b.n ≡ b.beg + b.readable - b.n =
        grind (arith, wrapped, over) in
      rw f (
        omega (
          arith,
          over,
          hl,
          hb,
          hr,
          rest,
          length-append (take (b.n - b.beg) (drop b.beg b.a))
              (take ((b.beg + b.readable) % b.n) b.a),
          length-take (b.n - b.beg) (drop b.beg b.a),
          length-drop b.beg b.a,
          length-take ((b.beg + b.readable) % b.n) b.a,
        ))
]

pub get_or-events :
    (b : EventRingBuf) (i : ℕ)
    → IsRing b
    → i < b.readable
    → get_or (events b) i (pos 0) ≡ event_at b i
unfolding two_contig
get_or-events b i (hl, hb, hr) lt =
    let old = b.beg in
    let place = wrap (old + i) b.n (omega (arith, hb, hr, lt)) in
    elim (Bool-cases (leb (old + b.readable) b.n)) [
      | inl t ↦
          let fits : old + b.readable ≤ b.n = ground (arith, t) in
          let here : (old + i) % b.n ≡ old + i = grind (arith, place, fits, lt) in
          rw (t, here)
            (ap (λ (l : List Time). get_or l i (pos 0))
                (append-nil (take b.readable (drop old b.a)))
              ∙ get_or-take b.readable (drop old b.a) i (pos 0) lt
              ∙ get_or-drop old b.a i (pos 0))
      | inr f ↦
          let over : b.n < old + b.readable = ground (arith, f) in
          let first = take (b.n - old) (drop old b.a) in
          let size : length first ≡ b.n - old =
            omega (arith, hl, hb, length-take (b.n - old) (drop old b.a), length-drop old b.a) in
          let wrapped = wrap (old + b.readable) b.n (omega (arith, hb, hr)) in
          let rest : (old + b.readable) % b.n ≡ old + b.readable - b.n =
            grind (arith, wrapped, over) in
          rw f (elim (Bool-cases (ltb i (b.n - old))) [
            | inl s ↦
                let near : i < b.n - old = ground (arith, s) in
                let here : (old + i) % b.n ≡ old + i = grind (arith, place, near) in
                get_or-append_left first _ i (pos 0) (omega (arith, near, size))
                ∙ get_or-take (b.n - old) (drop old b.a) i (pos 0) near
                ∙ get_or-drop old b.a i (pos 0)
                ∙ ap (λ j. get_or b.a j (pos 0)) (sym here)
            | inr s ↦
                let far : b.n - old ≤ i = ground (arith, s) in
                let here : (old + i) % b.n ≡ old + i - b.n = grind (arith, place, far, hb) in
                get_or-append_right first _ i (pos 0) (omega (arith, far, size))
                ∙ get_or-take ((old + b.readable) % b.n) b.a (i - length first) (pos 0)
                    (omega (arith, size, rest, far, lt, hb))
                ∙ ap (λ j. get_or b.a j (pos 0)) (omega (arith, size, here, far, hb))
          ])
    ]

-- Two rings of one size with the same events at the same positions hold the same.
pub events-ext :
    (b : EventRingBuf) (xs : List Time)
    → IsRing b
    → length xs ≡ b.readable
    → ((i : ℕ) → i < b.readable → event_at b i ≡ get_or xs i (pos 0))
    → events b ≡ xs
events-ext b xs ring same f =
    get_or-ext (events b) xs (pos 0) (length-events b ring ∙ sym same) (λ i lt.
      let below : i < b.readable = omega (arith, lt, length-events b ring) in
      get_or-events b i ring below ∙ f i below)

at_beginning : (n i : ℕ) → i < n → (0 + i) % n ≡ i
at_beginning n i lt = let same : 0 + i ≡ i = omega arith in ap (λ k. k % n) same ∙ mod-eq_of_lt lt

adopt_larger :
    (me : List Time) (b : EventRingBuf)
    → 0 < length me
    → events (record b { a = me; n = length me; beg = 0; readable = length me }) ≡ me
adopt_larger me b some_there =
    events-ext (record b { a = me; n = length me; beg = 0; readable = length me }) me
      (refl, some_there, omega arith) refl
      (λ i lt. ap (λ k. get_or me k (pos 0)) (at_beginning (length me) i lt))

adopt_smaller :
    (me : List Time) (b : EventRingBuf)
    → IsRing b
    → length me ≤ b.n
    → IsRing (record b { a = copy_at b.a 0 (length me) me; beg = 0; readable = length me })
      × (events (record b { a = copy_at b.a 0 (length me) me; beg = 0; readable = length me }) ≡ me)
adopt_smaller me b (hl, hb, hr) small =
    let fits : 0 + length me ≤ length b.a = omega (arith, hl, small) in
    let given : length me ≤ length me = omega arith in
    let same = length-copy_at b.a 0 (length me) me (pos 0) fits given in
    let ring' : IsRing
        (record b { a = copy_at b.a 0 (length me) me; beg = 0; readable = length me }) =
      (same ∙ hl, omega (arith, hb), small) in
    (
      ring',
      events-ext (record b { a = copy_at b.a 0 (length me) me; beg = 0; readable = length me }) me
          ring' refl
          (λ i lt.
            ap (λ k. get_or (copy_at b.a 0 (length me) me) k (pos 0))
              (at_beginning b.n i (omega (arith, lt, small)))
            ∙ copy_at-inside b.a 0 (length me) me (pos 0) fits given i (omega arith)
                (omega (arith, lt))
            ∙ ap (λ k. get_or me k (pos 0)) (omega arith)),
    )

-- `Adopt` makes a slice the contents of the queue, whether or not there was room for it, and `Reset`
-- empties the queue.
pub events-adopt :
    (me : List Time) (b : EventRingBuf)
    → IsRing b
    → IsRing (adopt me b) × (events (adopt me b) ≡ me) × IsRing (reset b) × (events (reset b) ≡ [])
unfolding adopt reset
events-adopt me b (hl, hb, hr) =
    let empty : IsRing (record b { beg = 0; readable = 0 }) =
      (hl, omega (arith, hb), omega arith) in
    let none_left =
      events-ext (record b { beg = 0; readable = 0 }) [] empty refl
        (λ i lt. absurd (omega (arith, lt))) in
    elim (Bool-cases (ltb b.n (length me))) [
      | inl t ↦
          let larger : b.n < length me = ground (arith, t) in
          let some_there : 0 < length me = omega (arith, larger) in
          rw t ((refl, some_there, omega arith), adopt_larger me b some_there, empty, none_left)
      | inr f ↦
          let (ring', same) = adopt_smaller me b (hl, hb, hr) (ground (arith, f)) in
          rw f (ring', same, empty, none_left)
    ]
