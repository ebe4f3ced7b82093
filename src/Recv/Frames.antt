-- ===== src/Recv/Frames.antt =====
-- recv.go: the frames that a receiver has: those below the window, and those in its slots.
use native.Mathlib.Nat.{mod-lt, mod-add-mod, mod-eq_of_lt, mod-eq-sub-mod, add-mod_right}
use go_sliding_window.Base.{
  ℕ, suc, ◌+◌, ◌-◌, ◌%◌, ◌≤◌, ◌<◌, ◌≡◌, ◌≢◌, sym, ◌∙◌, ap, ◌⊎◌, ◌↔◌, inl, inr, true, false, some,
  List, length, get_or, set, get_or-set_self, get_or-set_ne, arith, dec_lt, ℕ_discrete,
}
use go_sliding_window.Base.Int.{pos}
use go_sliding_window.Packet.{Packet, RxqSlot, empty_slot}

abbrev pub full_slot : Packet → RxqSlot
full_slot p = record { received = true; pack = some p }

-- Within one window the index determines the frame.
pub mod_unique : (n d w : ℕ) → d < w → (n + d) % w ≡ n % w → d ≡ 0
mod_unique n d w h e = elim (dec_lt (n % w + d) w) [
  | yes p ↦ omega (arith, mod-eq_of_lt p, mod-add-mod n w d)
  | no p ↦ omega (
    arith,
    mod-eq-sub-mod {n = n % w + d} {m = w} (omega arith),
    mod-eq_of_lt {n = n % w + d - w} {m = w} (omega arith),
    mod-add-mod n w d,
  )
]

-- Two frames of one window with the same index are one frame.
pub same_frame : (n j k w : ℕ) → n ≤ j → j < n + w → n ≤ k → k < n + w → j % w ≡ k % w → j ≡ k
same_frame n j k w lj hj lk hk e = elim (dec_lt j k) [
  | yes lt ↦
      let shift : j + (k - j) ≡ k = omega arith in
      omega (arith, mod_unique j (k - j) w (omega arith) (rw shift (sym e)))
  | no ge ↦
      let shift : k + (j - k) ≡ j = omega arith in
      omega (arith, mod_unique k (j - k) w (omega arith) (rw shift e))
]

module _ (w : ℕ) where
  -- The slot of frame `k` holds it.
  abbrev pub InSlot : List RxqSlot → ℕ → Type 0
  InSlot q k = (p : Packet) × (get_or q (k % w) empty_slot ≡ full_slot p) × (p.seq_num ≡ pos k)

  -- Frame `k` was received: it is below the window, or in it.
  abbrev pub Has : ℕ → List RxqSlot → ℕ → Type 0
  Has n q k = (k < n) ⊎ ((n ≤ k) × (k < n + w) × InSlot q k)

  pub Has-put :
      (n k j : ℕ) (q : List RxqSlot) (p : Packet)
      → p.seq_num ≡ pos k
      → length q ≡ w
      → 0 < w
      → n ≤ k
      → k < n + w
      → Has n (set q (k % w) (full_slot p)) j ↔ (Has n q j ⊎ ((j ≡ k) × (k < n + w)))
  Has-put n k j q p e l pw lo hi = (to, from)
    where
      at : get_or (set q (k % w) (full_slot p)) (k % w) empty_slot ≡ full_slot p
      at = get_or-set_self q (k % w) (full_slot p) empty_slot (rw l (mod-lt k pw))

      off :
          k % w ≢ j % w
          → get_or (set q (k % w) (full_slot p)) (j % w) empty_slot ≡ get_or q (j % w) empty_slot
      off ne = get_or-set_ne q (k % w) (j % w) (full_slot p) empty_slot ne

      to : Has n (set q (k % w) (full_slot p)) j → Has n q j ⊎ ((j ≡ k) × (k < n + w))
      to (inl b) = inl (inl b)
      to (inr (lj, hj, (o, eo, so))) = elim (ℕ_discrete (k % w) (j % w)) [
        | yes m ↦ inr (same_frame n j k w lj hj lo hi (sym m), hi)
        | no ne ↦ inl (inr (lj, hj, (o, sym (off ne) ∙ eo, so)))
      ]

      new : j ≡ k → Has n (set q (k % w) (full_slot p)) j
      new jk = inr (
        rw jk lo,
        rw jk hi,
        (
          p,
          ap (λ (x : ℕ). get_or (set q (k % w) (full_slot p)) (x % w) empty_slot) jk ∙ at,
          e ∙ ap pos (sym jk),
        ),
      )

      from : Has n q j ⊎ ((j ≡ k) × (k < n + w)) → Has n (set q (k % w) (full_slot p)) j
      from (inr (jk, _)) = new jk
      from (inl (inl b)) = inl b
      from (inl (inr (lj, hj, (o, eo, so)))) = elim (ℕ_discrete (k % w) (j % w)) [
        | yes m ↦ new (same_frame n j k w lj hj lo hi (sym m))
        | no ne ↦ inr (lj, hj, (o, off ne ∙ eo, so))
      ]

  -- Emptying the slot of frame `n` as the window moves past it changes nothing in the set.
  pub Has-advance :
      (n j : ℕ) (q : List RxqSlot) (p : Packet)
      → get_or q (n % w) empty_slot ≡ full_slot p
      → p.seq_num ≡ pos n
      → length q ≡ w
      → 0 < w
      → Has (suc n) (set q (n % w) empty_slot) j ↔ Has n q j
  Has-advance n j q p at e l pw = (to, from)
    where
      gone : get_or (set q (n % w) empty_slot) (n % w) empty_slot ≡ empty_slot
      gone = get_or-set_self q (n % w) empty_slot empty_slot (rw l (mod-lt n pw))

      off :
          n % w ≢ j % w
          → get_or (set q (n % w) empty_slot) (j % w) empty_slot ≡ get_or q (j % w) empty_slot
      off ne = get_or-set_ne q (n % w) (j % w) empty_slot empty_slot ne

      no_slot : n % w ≡ j % w → InSlot (set q (n % w) empty_slot) j → ⊥
      no_slot m (o, eo, so) =
          let empty : get_or (set q (n % w) empty_slot) (j % w) empty_slot ≡ empty_slot =
            ap (λ (x : ℕ). get_or (set q (n % w) empty_slot) x empty_slot) (sym m) ∙ gone in
          let clash : full_slot o ≡ empty_slot = sym eo ∙ empty in cc

      wraps : j ≡ n + w → n % w ≡ j % w
      wraps h = rw h (sym (add-mod_right n w))

      to : Has (suc n) (set q (n % w) empty_slot) j → Has n q j
      to (inl b) = elim (ℕ_discrete j n) [
        | yes jn ↦ inr (
          omega arith,
          omega arith,
          (p, ap (λ (x : ℕ). get_or q (x % w) empty_slot) jn ∙ at, e ∙ ap pos (sym jn)),
        )
        | no ne ↦ inl (omega arith)
      ]
      to (inr (lj, hj, s)) = elim (ℕ_discrete (n % w) (j % w)) [
        | yes m ↦ absurd (no_slot m s)
        | no ne ↦ inr (
          omega arith,
          omega (arith, λ (h : j ≡ n + w). ne (wraps h)),
          (s.0, sym (off ne) ∙ s.1, s.2),
        )
      ]

      from : Has n q j → Has (suc n) (set q (n % w) empty_slot) j
      from (inl b) = inl (omega arith)
      from (inr (lj, hj, s)) = elim (ℕ_discrete j n) [
        | yes jn ↦ inl (omega arith)
        | no ne ↦
            let apart : n % w ≢ j % w =
              λ m. ne (same_frame n j n w lj hj (omega arith) (omega arith) (sym m)) in
            inr (omega arith, omega arith, (s.0, off apart ∙ s.1, s.2))
      ]

  -- A window that starts at a missing frame: it is the least one not received.
  pub not-Has :
      (n : ℕ) (q : List RxqSlot) → (get_or q (n % w) empty_slot).received ≡ false → ¬ Has n q n
  not-Has n q h (inl b) = omega arith
  not-Has n q h (inr (lj, hj, (o, eo, so))) =
      let clash : true ≡ false = sym (ap (λ (s : RxqSlot). s.received) eo) ∙ h in cc
