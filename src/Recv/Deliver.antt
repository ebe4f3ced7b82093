-- ===== src/Recv/Deliver.antt =====
-- recv.go: the whole receiver keeps the window invariant, whatever arrives and whatever is consumed.
use go_sliding_window.Base.{
  ℕ, ◌+◌, ◌≤◌, ◌<◌, ◌≡◌, refl, sym, ◌∙◌, subst, ◌⊎◌, inl, inr, Bool, false, Option, none, some,
  List, arith, if_elim, if◌then◌else◌, ◌||◌, some_eq,
}
use go_sliding_window.Base.Int.{pos, two_63}
use go_sliding_window.Tcp.{TcpEvent, is_data}
use go_sliding_window.Packet.{Packet, Time}
use go_sliding_window.Recv.{RecvState, Rx, RxFlow}
use go_sliding_window.Recv.Ack.{update_control}
use go_sliding_window.Recv.Data.{Stored, store_data}
use go_sliding_window.Recv.Data
use go_sliding_window.Recv.Receive.{Inv, after_store, Received, store_data-Received}
use go_sliding_window.Recv.Consume.{ReadRequest, deliver_to_consumer, fill_as_much_as_possible}
use go_sliding_window.Recv.Handle.{
  Handled, handle_data, handle_info, accept_pack, handle_pack, track, set_rx, to_asap, lock_remote,
  is_foreign, is_corrupt,
}
use go_sliding_window.Recv.Handle
use go_sliding_window.Recv.Untouched.{rx-ack, HandledKeeps, rx-handle_info}
use go_sliding_window.Recv.SameWindow.{SameWindow, delivery-SameWindow, fill-SameWindow}

module _ (P : ℕ → Packet → Type 0) (w : ℕ) where
  pub SameWindow-Inv : (n : ℕ) (r s : Rx) → SameWindow r s → Inv P w n r → Inv P w n s
  SameWindow-Inv n r s (a, b, c, d) v = record {
    ordered = record {
      nfe = a ∙ v.ordered.nfe;
      size = b ∙ v.ordered.size;
      len = rw c v.ordered.len;
      nonempty = v.ordered.nonempty;
      history = rw d v.ordered.history;
      history_len = rw d v.ordered.history_len;
      slots = rw c v.ordered.slots;
    };
    idle = rw c v.idle;
  }

  -- Delivering to the application, by packets or by bytes, keeps the window.
  pub consume-Inv :
      (n : ℕ) (r : RecvState) (rr : ReadRequest) (now : Time)
      → Inv P w n r.rx
      → Inv P w n (deliver_to_consumer r now).0.rx
        × Inv P w n (fill_as_much_as_possible r rr now).0.rx
  consume-Inv n r rr now v = (
    SameWindow-Inv n r.rx _ (delivery-SameWindow r now r.rx.ready_for_delivery refl) v,
    SameWindow-Inv n r.rx _ (fill-SameWindow r rr now) v,
  )

  -- Afterwards the window has moved to some `m`, forward.
  abbrev pub MovesTo : ℕ → Rx → Type 0
  MovesTo n rx = (m : ℕ) × (n ≤ m) × Inv P w m rx

  stored-MovesTo :
      (n k : ℕ) (r : RecvState) (p : Packet) (now : Time) (out : Stored)
      → store_data r.rx p ≡ out
      → Received P w n k r.rx (after_store out)
      → HandledKeeps (MovesTo n) (handle_data r p now)
  unfolding handle_data
  stored-MovesTo n k r p now Data.panicked e v = rw (e, handle_data) tt
  stored-MovesTo n k r p now (Data.discarded rx) e v =
      let same = some_eq v.returns in
      rw (e, handle_data, rx-ack) (v.m, v.forward, subst (Inv P w v.m) (sym same) v.inv)
  stored-MovesTo n k r p now (Data.stored rx) e v =
      let same = some_eq v.returns in
      rw (e, handle_data) (v.m, v.forward, subst (Inv P w v.m) (sym same) v.inv)
  stored-MovesTo n k r p now (Data.advanced rx) e v =
      let same = some_eq v.returns in
      rw (e, handle_data) (v.m, v.forward, subst (Inv P w v.m) (sym same) v.inv)

  -- A data packet of frame `k` in the loop.
  handle_data-MovesTo :
      (n k : ℕ) (r : RecvState) (p : Packet) (now : Time)
      → p.seq_num ≡ pos k
      → P k p
      → n + w + 1 < two_63
      → Inv P w n r.rx
      → HandledKeeps (MovesTo n) (handle_data r p now)
  handle_data-MovesTo n k r p now e h b v =
      stored-MovesTo n k r p now (store_data r.rx p) refl
        (store_data-Received P w n k r.rx p e h b v)

  info-MovesTo :
      (n fuel : ℕ) (r : RecvState) (e : TcpEvent) (p : Packet) (t wall : Time) (out : Handled)
      → handle_info fuel r e p t wall ≡ out
      → HandledKeeps (λ q. q ≡ r.rx) out
      → Inv P w n r.rx
      → HandledKeeps (MovesTo n) out
  info-MovesTo n fuel r e p t wall Handle.panicked h same v = tt
  info-MovesTo n fuel r e p t wall Handle.still_going h same v = tt
  info-MovesTo n fuel r e p t wall (Handle.running r') h same v =
      (n, omega arith, subst (Inv P w n) (sym same) v)
  info-MovesTo n fuel r e p t wall (Handle.ended r') h same v =
      (n, omega arith, subst (Inv P w n) (sym same) v)

  -- A packet is a frame of the window, or no data.
  abbrev pub Arrives : Packet → Type 0
  Arrives p = (is_data p.tcp_event ≡ false) ⊎ ((k : ℕ) × (p.seq_num ≡ pos k) × P k p)

  dispatch-MovesTo :
      (n : ℕ) (r : RecvState) (p : Packet) (now wall : Time)
      → Arrives p
      → n + w + 1 < two_63
      → Inv P w n r.rx
      → HandledKeeps (MovesTo n) (
          if is_data p.tcp_event
          then handle_data r p now
          else handle_info 2 r p.tcp_event p now wall)
  dispatch-MovesTo n r p now wall (inl e) b v = rw e (
      info-MovesTo n 2 r p.tcp_event p now wall (handle_info 2 r p.tcp_event p now wall) refl
        (rx-handle_info 2 r.rx r p.tcp_event p now wall refl) v)
  dispatch-MovesTo n r p now wall (inr (k, e, h)) b v =
      if_elim (HandledKeeps (MovesTo n)) (is_data p.tcp_event) (handle_data r p now)
        (handle_info 2 r p.tcp_event p now wall) (handle_data-MovesTo n k r p now e h b v)
        (info-MovesTo n 2 r p.tcp_event p now wall (handle_info 2 r p.tcp_event p now wall) refl
          (rx-handle_info 2 r.rx r p.tcp_event p now wall refl) v)

  accept-MovesTo :
      (n : ℕ) (r : RecvState) (p : Packet) (now wall : Time) (f : Option RxFlow)
      → track r.flow p ≡ f
      → Arrives p
      → n + w + 1 < two_63
      → Inv P w n r.rx
      → HandledKeeps (MovesTo n) (accept_pack r p now wall)
  unfolding accept_pack update_control
  accept-MovesTo n r p now wall none e a b v = rw (e, accept_pack) tt
  accept-MovesTo n r p now wall (some f) e a b v =
      rw (e, accept_pack) (dispatch-MovesTo n _ p now wall a b v)

  -- What is known of a frame does not depend on when it arrives.
  module _
      (stamped : (k : ℕ) (p : Packet) (t : Time)
        → P k p
        → P k (record p { arrived_at_dest_tm = t })) where
    -- A packet that is no data, or a data packet of a frame of which `P` is known, foreign or corrupt or
    -- not, keeps the window in order and moves it forward only, unless the code panics.
    pub handle_pack-MovesTo :
        (blake2b : List ℕ → List ℕ) (n : ℕ) (r : RecvState) (p : Packet) (now wall : Time)
        (taken : Bool)
        → Arrives p
        → n + w + 1 < two_63
        → Inv P w n r.rx
        → HandledKeeps (MovesTo n) (handle_pack blake2b r p now wall taken)
    unfolding handle_pack
    handle_pack-MovesTo blake2b n r p now wall taken a b v =
        if_elim (HandledKeeps (MovesTo n))
          (is_foreign (lock_remote r.conn p) p || is_corrupt blake2b p) (Handle.running _) _
          (n, omega arith, v)
          (accept-MovesTo n _ (record p { arrived_at_dest_tm = now }) now wall
            (track r.flow (record p { arrived_at_dest_tm = now })) refl (arrives a) b v)
      where
        arrives : Arrives p → Arrives (record p { arrived_at_dest_tm = now })
        arrives (inl e) = inl e
        arrives (inr (k, e, h)) = inr (k, e, stamped k p now h)
