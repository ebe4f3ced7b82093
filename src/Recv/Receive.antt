-- ===== src/Recv/Receive.antt =====
-- recv.go: the receiver against its specification, the set of the frames received.
use go_sliding_window.Base.{
  ℕ, ◌+◌, ◌%◌, ◌≤◌, ◌<◌, ◌≡◌, ◌≢◌, sym, ◌∙◌, ap, subst, ◌⊎◌, ◌↔◌, inl, inr, false, Option, none,
  some, List, [], ◌∷◌, get_or, get_or-set_ne, arith, get_or-replicate,
}
use go_sliding_window.Base.Int.{pos, two_63}
use go_sliding_window.Packet.{Packet, RxqSlot, empty_slot}
use go_sliding_window.Recv.{Rx, new_rx}
use go_sliding_window.Recv.Frames.{full_slot, Has, Has-put, same_frame}
use go_sliding_window.Recv.Data.{Stored, panicked, discarded, stored, advanced, store_data}
use go_sliding_window.Recv.Order.{IsOrdered, new_rx-IsOrdered}
use go_sliding_window.Recv.Store.{StoreOutcome, dropped, kept, delivered, store_data_lem}

-- The window after a data packet.
abbrev pub after_store : Stored → Option Rx
after_store panicked = none
after_store (discarded r) = some r
after_store (stored r) = some r
after_store (advanced r) = some r

-- A stream of data packets, one after the other.
unfoldable pub receive : Rx → List Packet → Option Rx
receive r [] = some r
receive r (p ∷ ps) = elim (after_store (store_data r p)) [ none ↦ none | some r' ↦ receive r' ps ]

module _ (P : ℕ → Packet → Type 0) (w : ℕ) where
  -- Between two events: the window is in order, and the frame that it starts at is missing.
  pub record Inv (n : ℕ) (r : Rx) : Type 0 where
    pub ordered : IsOrdered P w n r
    pub idle : (get_or r.rxq (n % w) empty_slot).received ≡ false

  pub new_rx-Inv : 0 < w → Inv 0 (new_rx w)
  unfolding new_rx
  new_rx-Inv h = record {
    ordered = new_rx-IsOrdered P w h;
    idle = ap (λ (s : RxqSlot). s.received) (get_or-replicate w (0 % w) empty_slot);
  }

  -- One data packet with frame `k`, received at `NextFrameExpected = n`.
  pub record Received (n k : ℕ) (r : Rx) (out : Option Rx) : Type 0 where
    pub m : ℕ
    pub after : Rx
    pub returns : out ≡ some after
    pub forward : n ≤ m
    pub inv : Inv m after
    pub set_grows : (j : ℕ) → Has w m after.rxq j ↔ (Has w n r.rxq j ⊎ ((j ≡ k) × (k < n + w)))

  -- Outside the window there is nothing to add: below it the frame is there, above it is refused.
  outside_set :
      (n k : ℕ) (q : List RxqSlot)
      → ((k < n) ⊎ (n + w ≤ k))
      → (j : ℕ) → Has w n q j ↔ (Has w n q j ⊎ ((j ≡ k) × (k < n + w)))
  outside_set n k q out j = (inl, from out)
    where
      from : (k < n) ⊎ (n + w ≤ k) → Has w n q j ⊎ ((j ≡ k) × (k < n + w)) → Has w n q j
      from o (inl h) = h
      from (inl lo) (inr (e, _)) = inl (rw e lo)
      from (inr hi) (inr (e, lt)) = absurd (omega arith)

  outcome-Received :
      (n k : ℕ) (r : Rx) (p : Packet) (out : Stored)
      → p.seq_num ≡ pos k
      → Inv n r
      → StoreOutcome P w n k r p out
      → Received n k r (after_store out)
  outcome-Received n k r p out e v (dropped r' o q u same) = record {
    m = n;
    after = r';
    returns = ap after_store q;
    forward = omega arith;
    inv = record { ordered = u; idle = rw same v.idle };
    set_grows =
        subst
          (λ (s : List RxqSlot).
            (j : ℕ) → Has w n s j ↔ (Has w n r.rxq j ⊎ ((j ≡ k) × (k < n + w))))
          (sym same) (outside_set n k r.rxq o);
  }
  outcome-Received n k r p out e v (kept r' lo hi q u same) = record {
    m = n;
    after = r';
    returns = ap after_store q;
    forward = omega arith;
    inv = record {
      ordered = u;
      idle =
          ap (λ (s : List RxqSlot). (get_or s (n % w) empty_slot).received) same
          ∙ ap (λ (s : RxqSlot). s.received)
              (get_or-set_ne r.rxq (k % w) (n % w) (full_slot p) empty_slot apart)
          ∙ v.idle;
    };
    set_grows =
        subst
          (λ (s : List RxqSlot).
            (j : ℕ) → Has w n s j ↔ (Has w n r.rxq j ⊎ ((j ≡ k) × (k < n + w))))
          (sym same)
          (λ j. Has-put w n k j r.rxq p e v.ordered.len v.ordered.nonempty (omega arith) hi);
  }
    where
      not_same : k ≡ n → ⊥
      not_same q = omega arith

      apart : k % w ≢ n % w
      apart q = not_same (same_frame n k n w (omega arith) hi (omega arith) (omega arith) q)
  outcome-Received n k r p out e v (delivered m r' nk lt q u same miss) = record {
    m = m;
    after = r';
    returns = ap after_store q;
    forward = omega arith;
    inv = record { ordered = u; idle = miss };
    set_grows = λ j.
        let put =
          Has-put w n k j r.rxq p e v.ordered.len v.ordered.nonempty (omega arith)
            (omega (arith, v.ordered.nonempty)) in
        (λ x. put.0 ((same j).0 x), λ y. (same j).1 (put.1 y));
  }

  -- A data packet of frame `k`, in a window that starts at `n` far enough from 2^63, is no fault; the
  -- window stays in order and moves forward only; and the set of the frames received grows by `k`, if
  -- that is below the end of the window, and by nothing else.
  pub store_data-Received :
      (n k : ℕ) (r : Rx) (p : Packet)
      → p.seq_num ≡ pos k
      → P k p
      → n + w + 1 < two_63
      → Inv n r
      → Received n k r (after_store (store_data r p))
  store_data-Received n k r p e h b v =
      outcome-Received n k r p (store_data r p) e v (store_data_lem P w n k r p e h b v.ordered)
