-- ===== src/Recv/Store.antt =====
-- recv.go: what becomes of one data packet, on every branch.
use native.Mathlib.Nat.{mod-lt}
use go_sliding_window.Base.{
  ℕ, ◌+◌, ◌%◌, ◌≤◌, ◌<◌, ◌≡◌, ◌≢◌, refl, sym, ◌∙◌, ap, subst, ◌⊎◌, ◌↔◌, inl, inr, Bool, true, false,
  some, List, length, get_or, set, length-set, get_or-set_self, get_or-set_ne, arith, dec_lt,
  ℕ_discrete,
}
use go_sliding_window.Base.Int.{ℤ, pos, two_63}
use go_sliding_window.Packet.{Packet, RxqSlot, empty_slot}
use go_sliding_window.Window.{in_window, window_end, in_window_pos}
use go_sliding_window.Recv.{Rx}
use go_sliding_window.Recv.Frames.{full_slot, Has}
use go_sliding_window.Recv.Data.{
  slot_index, deliver_fuel, hold, put_slot, Stored, discarded, stored, advanced, or_panicked,
  store_data,
}
use go_sliding_window.Recv.Order.{IsOrdered, SlotOk, deliver_lem, slot_index_pos, count_received-le}
use go_sliding_window.Recv.Slots.{store_out, store_later, store_next, fields-hold, rxq-put}

module _ (P : ℕ → Packet → Type 0) (w : ℕ) where
  pub hold-IsOrdered :
      (n : ℕ) (r : Rx) (p : Packet) → IsOrdered P w n r → IsOrdered P w n (hold r p)
  unfolding hold
  hold-IsOrdered n r p v = record {
    nfe = v.nfe;
    size = v.size;
    len = v.len;
    nonempty = v.nonempty;
    history = v.history;
    history_len = v.history_len;
    slots = v.slots;
  }

  pub discard-IsOrdered :
      (n : ℕ) (r : Rx) (c : ℤ)
      → IsOrdered P w n r
      → IsOrdered P w n (record r { discard_count = c })
  discard-IsOrdered n r c v = record {
    nfe = v.nfe;
    size = v.size;
    len = v.len;
    nonempty = v.nonempty;
    history = v.history;
    history_len = v.history_len;
    slots = v.slots;
  }

  pub put-IsOrdered :
      (n k : ℕ) (r : Rx) (p : Packet)
      → n ≤ k
      → k < n + w
      → (p.seq_num ≡ pos k) × P k p
      → IsOrdered P w n r
      → IsOrdered P w n (put_slot (k % w) p r)
  unfolding put_slot
  put-IsOrdered n k r p lo hi h v = record {
    nfe = v.nfe;
    size = v.size;
    len = length-set r.rxq (k % w) (full_slot p) ∙ v.len;
    nonempty = v.nonempty;
    history = v.history;
    history_len = v.history_len;
    slots = λ i l. elim (ℕ_discrete (k % w) i) [
      | yes e ↦
          subst (SlotOk P w n i)
            (sym (
              subst (λ j. get_or (set r.rxq (k % w) (full_slot p)) j empty_slot ≡ full_slot p) e
                (get_or-set_self r.rxq (k % w) (full_slot p) empty_slot
                  (rw v.len (mod-lt k v.nonempty)))))
            (inr (k, p, refl, lo, hi, e, h))
      | no ne ↦
          subst (SlotOk P w n i) (sym (get_or-set_ne r.rxq (k % w) i (full_slot p) empty_slot ne))
            (v.slots i l)
    ];
  }

  -- What one data packet with sequence number `k` does at `NextFrameExpected = n`.
  pub data StoreOutcome (n k : ℕ) (r : Rx) (p : Packet) (out : Stored) : Type 0 where
    dropped :
        (r' : Rx)
        → ((k < n) ⊎ (n + w ≤ k))
        → out ≡ discarded r'
        → IsOrdered P w n r'
        → r'.rxq ≡ r.rxq
        → StoreOutcome n k r p out
    kept :
        (r' : Rx)
        → n < k
        → k < n + w
        → out ≡ stored r'
        → IsOrdered P w n r'
        → r'.rxq ≡ set r.rxq (k % w) (full_slot p)
        → StoreOutcome n k r p out
    delivered :
        (m : ℕ) (r' : Rx)
        → n ≡ k
        → n < m
        → out ≡ advanced r'
        → IsOrdered P w m r'
        → ((j : ℕ) → Has w m r'.rxq j ↔ Has w n (set r.rxq (k % w) (full_slot p)) j)
        → (get_or r'.rxq (m % w) empty_slot).received ≡ false
        → StoreOutcome n k r p out

  -- The index and the window test of a non-negative sequence number.
  index_lem :
      (n k : ℕ) (r : Rx) (p : Packet)
      → p.seq_num ≡ pos k
      → IsOrdered P w n r
      → slot_index (hold r p) p.seq_num ≡ some (k % w)
  index_lem n k r p e v =
      let u = hold-IsOrdered n r p v in
      ap (slot_index (hold r p)) e ∙ slot_index_pos (hold r p) k w u.size u.len u.nonempty

  window_lem :
      (n k : ℕ) (r : Rx) (p : Packet)
      → p.seq_num ≡ pos k
      → IsOrdered P w n r
      → in_window p.seq_num r.next_frame_expected
          (window_end r.next_frame_expected r.recv_window_size)
        ≡ in_window (pos k) (pos n) (window_end (pos n) (pos w))
  window_lem n k r p e v = cc (v.nfe, v.size)

  drop_lem :
      (n k : ℕ) (r : Rx) (p : Packet)
      → p.seq_num ≡ pos k
      → ((k < n) ⊎ (n + w ≤ k))
      → n + w + 1 < two_63
      → IsOrdered P w n r
      → StoreOutcome n k r p (store_data r p)
  drop_lem n k r p e out b v =
      dropped _ out (store_out r p (k % w) (index_lem n k r p e v) outside)
        (discard-IsOrdered n (hold r p) _ (hold-IsOrdered n r p v)) (fields-hold r p).2
    where
      not_inside : in_window (pos k) (pos n) (window_end (pos n) (pos w)) ≢ true
      not_inside q =
          let both = (in_window_pos k n w v.nonempty (omega arith)).0 q in omega (arith, both)

      false_of_ne : (x : Bool) → x ≢ true → x ≡ false
      false_of_ne true h = absurd (h refl)
      false_of_ne false h = refl

      outside :
          in_window p.seq_num r.next_frame_expected
            (window_end r.next_frame_expected r.recv_window_size)
          ≡ false
      outside = window_lem n k r p e v ∙ false_of_ne _ not_inside

  inside_lem :
      (n k : ℕ) (r : Rx) (p : Packet)
      → p.seq_num ≡ pos k
      → n ≤ k
      → k < n + w
      → n + w + 1 < two_63
      → IsOrdered P w n r
      → in_window p.seq_num r.next_frame_expected
          (window_end r.next_frame_expected r.recv_window_size)
        ≡ true
  inside_lem n k r p e lo hi b v =
      window_lem n k r p e v ∙ (in_window_pos k n w v.nonempty (omega arith)).1 (lo, hi)

  keep_lem :
      (n k : ℕ) (r : Rx) (p : Packet)
      → p.seq_num ≡ pos k
      → P k p
      → n < k
      → k < n + w
      → n + w + 1 < two_63
      → IsOrdered P w n r
      → StoreOutcome n k r p (store_data r p)
  keep_lem n k r p e h lo hi b v =
      kept _ lo hi
        (store_later r p (k % w) (index_lem n k r p e v) (inside_lem n k r p e (omega arith) hi b v)
          (rw (e, v.nfe) (ground arith)))
        (put-IsOrdered n k (hold r p) p (omega arith) hi (e, h) (hold-IsOrdered n r p v))
        (rxq-put (k % w) p (hold r p) ∙ ap (λ q. set q (k % w) (full_slot p)) (fields-hold r p).2)

  next_lem :
      (n : ℕ) (r : Rx) (p : Packet)
      → p.seq_num ≡ pos n
      → P n p
      → n + w + 1 < two_63
      → IsOrdered P w n r
      → StoreOutcome n n r p (store_data r p)
  next_lem n r p e h b v =
      let u = hold-IsOrdered n r p v in
      let x = put-IsOrdered n n (hold r p) p (omega arith) (omega (arith, v.nonempty)) (e, h) u in
      let room : length (put_slot (n % w) p (hold r p)).rxq ≡ length (hold r p).rxq =
        x.len ∙ sym u.len in
      let d =
        deliver_lem P w (deliver_fuel (hold r p)) n (put_slot (n % w) p (hold r p))
          (omega (arith, count_received-le (put_slot (n % w) p (hold r p)).rxq))
          (omega (arith, u.len)) x in
      delivered d.m d.after refl (d.moved head)
        (store_next r p (n % w) (index_lem n n r p e v)
            (inside_lem n n r p e (omega arith) (omega (arith, v.nonempty)) b v)
            (rw (e, v.nfe) (ground arith))
          ∙ ap or_panicked d.returns)
        d.ordered
        (subst (λ (q : List RxqSlot). (j : ℕ) → Has w d.m d.after.rxq j ↔ Has w n q j) put d.same)
        d.missing
    where
      put : (put_slot (n % w) p (hold r p)).rxq ≡ set r.rxq (n % w) (full_slot p)
      put = rxq-put (n % w) p (hold r p) ∙ ap (λ q. set q (n % w) (full_slot p)) (fields-hold r p).2

      head : (get_or (put_slot (n % w) p (hold r p)).rxq (n % w) empty_slot).received ≡ true
      head =
          ap (λ (s : RxqSlot). s.received)
            (ap (λ (q : List RxqSlot). get_or q (n % w) empty_slot) (rxq-put (n % w) p (hold r p))
              ∙ get_or-set_self (hold r p).rxq (n % w) (full_slot p) empty_slot
                  (rw (hold-IsOrdered n r p v).len (mod-lt n v.nonempty)))

  -- A data packet is never a fault: it is discarded outside the window, kept inside it, and at the
  -- frame expected next the window moves past every frame that is now in order.
  pub store_data_lem :
      (n k : ℕ) (r : Rx) (p : Packet)
      → p.seq_num ≡ pos k
      → P k p
      → n + w + 1 < two_63
      → IsOrdered P w n r
      → StoreOutcome n k r p (store_data r p)
  store_data_lem n k r p e h b v = elim (ℕ_discrete n k) [
    | yes q ↦
        subst (λ j. StoreOutcome n j r p (store_data r p)) q
          (next_lem n r p (e ∙ ap pos (sym q)) (subst (λ j. P j p) (sym q) h) b v)
    | no q ↦ elim (dec_lt n k) [
      | yes lo ↦ elim (dec_lt k (n + w)) [
        | yes hi ↦ keep_lem n k r p e h lo hi b v
        | no hi ↦ drop_lem n k r p e (inr (omega arith)) b v
      ]
      | no lo ↦ drop_lem n k r p e (inl (omega arith)) b v
    ]
  ]
