-- ===== src/Recv/Order.antt =====
-- recv.go: the window invariant. The history holds the frames 0, 1, …, one each and in order, and a
-- slot holds at most one frame of the window, at its index.
use native.Mathlib.Nat.{mod-lt}
use go_sliding_window.Base.{
  ℕ, zero, suc, ◌+◌, ◌-◌, ◌%◌, ◌≤◌, ◌<◌, ◌≡◌, ◌≢◌, refl, sym, ◌∙◌, ap, subst, ◌⊎◌, ◌↔◌, inl, inr,
  true, false, Option, some, List, [], ◌∷◌, length, get_or, set, AllFrom, AllFrom-append,
  length-append, length-set, get_or-set_self, get_or-set_ne, arith, ℕ_discrete, Bool-cases,
  if◌then◌else◌, get_or-replicate, length-replicate,
}
use go_sliding_window.Base.Int.{pos, add_64_pos, two_63, rem_64}
use go_sliding_window.Packet.{Packet, RxqSlot, empty_slot}
use go_sliding_window.Recv.{Rx, new_rx}
use go_sliding_window.Recv.Frames.{full_slot, mod_unique, Has, Has-advance}
use go_sliding_window.Recv.Data.{slot_index, advance, deliver}

pub slot_index_pos :
    (r : Rx) (k w : ℕ)
    → r.recv_window_size ≡ pos w
    → length r.rxq ≡ w
    → 0 < w
    → slot_index r (pos k) ≡ some (k % w)
unfolding slot_index rem_64
slot_index_pos r k w e l h = rw e (ground arith)

abbrev pub count_received : List RxqSlot → ℕ
count_received [] = 0
count_received (s ∷ ss) = (if s.received then 1 else 0) + count_received ss

count_received-set :
    (xs : List RxqSlot) (i : ℕ)
    → (get_or xs i empty_slot).received ≡ true
    → suc (count_received (set xs i empty_slot)) ≡ count_received xs
count_received-set [] i h = absurd (cc)
count_received-set (x ∷ xs) zero h = ground arith
count_received-set (x ∷ xs) (suc i) h = omega (arith, count_received-set xs i h)

pub count_received-le : (xs : List RxqSlot) → count_received xs ≤ length xs
count_received-le [] = omega arith
count_received-le (x ∷ xs) = ground (arith, count_received-le xs)

deliver_more :
    (fuel i : ℕ) (r : Rx)
    → slot_index r r.next_frame_expected ≡ some i
    → (get_or r.rxq i empty_slot).received ≡ true
    → deliver (suc fuel) r ≡ deliver fuel (advance i r)
unfolding deliver
deliver_more fuel i r at h = ground arith

deliver_stop :
    (fuel i : ℕ) (r : Rx)
    → slot_index r r.next_frame_expected ≡ some i
    → (get_or r.rxq i empty_slot).received ≡ false
    → deliver (suc fuel) r ≡ some r
unfolding deliver
deliver_stop fuel i r at h = ground arith

rxq-advance : (i : ℕ) (r : Rx) → (advance i r).rxq ≡ set r.rxq i empty_slot
unfolding advance
rxq-advance i r = refl

-- `P k p` is what is known of a packet `p` with sequence number `k`.
module _ (P : ℕ → Packet → Type 0) (w : ℕ) where
  abbrev pub Frame : ℕ → Packet → Type 0
  Frame k p = (p.seq_num ≡ pos k) × P k p

  abbrev pub SlotOk : ℕ → ℕ → RxqSlot → Type 0
  SlotOk n i s =
      (s ≡ empty_slot)
      ⊎ ((k : ℕ) × (p : Packet) × (s ≡ full_slot p)
          × (n ≤ k)
          × (k < n + w)
          × (k % w ≡ i)
          × Frame k p)

  pub record IsOrdered (n : ℕ) (r : Rx) : Type 0 where
    pub nfe : r.next_frame_expected ≡ pos n
    pub size : r.recv_window_size ≡ pos w
    pub len : length r.rxq ≡ w
    pub nonempty : 0 < w
    pub history : AllFrom Frame 0 r.recv_history
    pub history_len : length r.recv_history ≡ n
    pub slots : (i : ℕ) → i < w → SlotOk n i (get_or r.rxq i empty_slot)

  pub new_rx-IsOrdered : 0 < w → IsOrdered 0 (new_rx w)
  unfolding new_rx
  new_rx-IsOrdered h = record {
    nfe = refl;
    size = refl;
    len = length-replicate w empty_slot;
    nonempty = h;
    history = tt;
    history_len = refl;
    slots = λ i l. inl (get_or-replicate w i empty_slot);
  }

  -- A slot with a frame of the window `[n, n + w)` keeps it when the window moves past another.
  SlotOk-suc : (n i : ℕ) (s : RxqSlot) → i ≢ n % w → SlotOk n i s → SlotOk (suc n) i s
  SlotOk-suc n i s ne (inl e) = inl e
  SlotOk-suc n i s ne (inr (k, p, e, lo, hi, m, h)) = inr (k, p, e, after, omega arith, m, h)
    where
      ne_n : n ≢ k
      ne_n q = ne (sym m ∙ ap (λ (x : ℕ). x % w) (sym q))

      after : suc n ≤ k
      after = omega (arith, ne_n)

  -- The frame in the slot of the next frame expected is that frame.
  SlotOk-head :
      (n : ℕ) (s : RxqSlot)
      → s.received ≡ true
      → SlotOk n (n % w) s
      → (p : Packet) × (s ≡ full_slot p) × Frame n p
  SlotOk-head n s h (inl e) = absurd (cc)
  SlotOk-head n s h (inr (k, p, e, lo, hi, m, q)) = (p, e, subst (λ j. Frame j p) same q)
    where
      shift : n + (k - n) ≡ k
      shift = omega arith

      same : k ≡ n
      same = omega (arith, mod_unique n (k - n) w (omega arith) (rw shift m))

  -- A round that moves the packet `p` on.
  advance_full :
      (n : ℕ) (r : Rx) (p : Packet)
      → suc n < two_63
      → n % w < w
      → get_or r.rxq (n % w) empty_slot ≡ full_slot p
      → Frame n p
      → IsOrdered n r
      → IsOrdered (suc n) (advance (n % w) r)
  unfolding advance
  advance_full n r p b il e q v = record {
    nfe = rw (v.nfe, add_64_pos n 1 (omega arith)) (ap pos (omega arith));
    size = v.size;
    len = length-set r.rxq (n % w) empty_slot ∙ v.len;
    nonempty = v.nonempty;
    history =
        rw e (AllFrom-append Frame 0 n r.recv_history p v.history (omega (arith, v.history_len)) q);
    history_len = rw e (omega (arith, length-append r.recv_history (p ∷ []), v.history_len));
    slots = λ i l. elim (ℕ_discrete i (n % w)) [
      | yes same ↦ inl (rw same (get_or-set_self r.rxq (n % w) empty_slot empty_slot (rw v.len il)))
      | no ne ↦
          subst (SlotOk (suc n) i)
            (sym (get_or-set_ne r.rxq (n % w) i empty_slot empty_slot (λ q. ne (sym q))))
            (SlotOk-suc n i _ ne (v.slots i l))
    ];
  }

  pub advance-IsOrdered :
      (n : ℕ) (r : Rx)
      → suc n < two_63
      → n % w < w
      → (get_or r.rxq (n % w) empty_slot).received ≡ true
      → IsOrdered n r
      → IsOrdered (suc n) (advance (n % w) r)
  advance-IsOrdered n r b il h v =
      let (p, e, q) = SlotOk-head n _ h (v.slots (n % w) il) in advance_full n r p b il e q v

  advance_same :
      (n : ℕ) (r : Rx)
      → n % w < w
      → (get_or r.rxq (n % w) empty_slot).received ≡ true
      → IsOrdered n r
      → (j : ℕ) → Has w (suc n) (advance (n % w) r).rxq j ↔ Has w n r.rxq j
  unfolding advance
  advance_same n r il h v j =
      let (p, e, q) = SlotOk-head n _ h (v.slots (n % w) il) in
      Has-advance w n j r.rxq p e q.0 v.len v.nonempty

  -- What the delivery loop ends with: the window moved on to `m`, and the frame `m` is missing.
  pub record Delivered (n : ℕ) (r : Rx) (out : Option Rx) : Type 0 where
    pub m : ℕ
    pub after : Rx
    pub returns : out ≡ some after
    pub forward : n ≤ m
    pub moved : (get_or r.rxq (n % w) empty_slot).received ≡ true → n < m
    pub ordered : IsOrdered m after
    pub same : (j : ℕ) → Has w m after.rxq j ↔ Has w n r.rxq j
    pub missing : (get_or after.rxq (m % w) empty_slot).received ≡ false

  pub deliver_lem :
      (fuel n : ℕ) (r : Rx)
      → count_received r.rxq < fuel
      → n + fuel < two_63
      → IsOrdered n r
      → Delivered n r (deliver fuel r)
  deliver_lem zero n r c b v = absurd (omega arith)
  deliver_lem (suc fuel) n r c b v =
      let il : n % w < w = mod-lt n v.nonempty in
      let at : slot_index r r.next_frame_expected ≡ some (n % w) =
        ap (slot_index r) v.nfe ∙ slot_index_pos r n w v.size v.len v.nonempty in
      elim (Bool-cases (get_or r.rxq (n % w) empty_slot).received) [
        | inl h ↦
            let d =
              deliver_lem fuel (suc n) (advance (n % w) r)
                (rw (rxq-advance (n % w) r) (omega (arith, count_received-set r.rxq (n % w) h)))
                (omega arith) (advance-IsOrdered n r (omega arith) il h v) in
            record {
              m = d.m;
              after = d.after;
              returns = deliver_more fuel (n % w) r at h ∙ d.returns;
              forward = omega arith;
              moved = λ _. d.forward;
              ordered = d.ordered;
              same = λ j.
                  let step = advance_same n r il h v j in
                  (λ x. step.0 ((d.same j).0 x), λ y. (d.same j).1 (step.1 y));
              missing = d.missing;
            }
        | inr h ↦ record {
          m = n;
          after = r;
          returns = deliver_stop fuel (n % w) r at h;
          forward = omega arith;
          moved = λ q. absurd (cc);
          ordered = v;
          same = λ j. (λ x. x, λ x. x);
          missing = h;
        }
      ]
