-- ===== src/Link/Stream.antt =====
-- sender.go, recv.go: what the receiver delivers against what the sender sent.
use go_sliding_window.Base.{
  ℕ, suc, ◌+◌, ◌<◌, ◌≡◌, refl, subst, inl, inr, Bool, some, List, [], ◌∷◌, ◌++◌, AllFrom, length,
  get_elem?, take, arith,
}
use go_sliding_window.Base.Int.{two_63}
use go_sliding_window.Packet.{Packet, Time, RxqSlot}
use go_sliding_window.Externals.{Externals, TreeLaws}
use go_sliding_window.Sender.{SenderState}
use go_sliding_window.Sender.History.{
  IsSent, IsSent-append, NetOk, IsNumbered, SameSends-IsNumbered, do_orig-IsNumbered,
}
use go_sliding_window.Sender.Send.{do_orig_data_send}
use go_sliding_window.Sender.Kept.{regular_wakeup-IsNumbered, got_pack-IsNumbered}
use go_sliding_window.Sender.KeptControl.{
  do_keep_alive-IsNumbered, do_send_closing-IsNumbered, send_ack-IsNumbered, do_send_syn-IsNumbered,
  new_sender-IsNumbered,
}
use go_sliding_window.Recv.{Rx, RecvState}
use go_sliding_window.Recv.Order.{SlotOk, Frame}
use go_sliding_window.Recv.Receive.{Inv}
use go_sliding_window.Recv.Handle.{Handled, handle_pack}
use go_sliding_window.Recv.Handle
use go_sliding_window.Recv.Untouched.{HandledKeeps, rx-retry_check, rx-handle_connect}
use go_sliding_window.Recv.Consume.{ReadRequest}
use go_sliding_window.Recv.Deliver.{MovesTo, Arrives, handle_pack-MovesTo, consume-Inv}
use go_sliding_window.Link.{
  World, Run, start, push, wake, hear_pack, keep_alive, closing, share, acknowledge, connect_out,
  arrive, retry, connect_in, consume, read,
}
use go_sliding_window.Link.Sent.{payloads, sent-le, sent-take, get_elem?-All, new_recv-Inv}

AllFrom-map {κ ν} :
    {A : Type 0} (P : ℕ → A → Type κ) (Q : ℕ → A → Type ν) (i : ℕ) (xs : List A)
    → ((k : ℕ) (y : A) → P k y → Q k y)
    → AllFrom P i xs
    → AllFrom Q i xs
AllFrom-map P Q i [] f h = tt
AllFrom-map P Q i (y ∷ xs) f h = (f i y h.0, AllFrom-map P Q (suc i) xs f h.1)

-- The invariant with less known of each frame.
module _ (P Q : ℕ → Packet → Type 0) (w : ℕ) (f : (k : ℕ) (p : Packet) → P k p → Q k p) where
  SlotOk-map : (n i : ℕ) (s : RxqSlot) → SlotOk P w n i s → SlotOk Q w n i s
  SlotOk-map n i s (inl e) = inl e
  SlotOk-map n i s (inr (k, p, e, lo, hi, m, (q, h))) = inr (k, p, e, lo, hi, m, (q, f k p h))

  Inv-map : (n : ℕ) (r : Rx) → Inv P w n r → Inv Q w n r
  Inv-map n r v = record {
    ordered = record {
      nfe = v.ordered.nfe;
      size = v.ordered.size;
      len = v.ordered.len;
      nonempty = v.ordered.nonempty;
      history =
          AllFrom-map (Frame P w) (Frame Q w) 0 r.recv_history (λ k p h. (h.0, f k p h.1))
            v.ordered.history;
      history_len = v.ordered.history_len;
      slots = λ i l. SlotOk-map n i _ (v.ordered.slots i l);
    };
    idle = v.idle;
  }

module _ (x : Externals) (laws : TreeLaws x) (w : ℕ) where
  pub record Good (n : ℕ) (u : World x) : Type 0 where
    pub numbered : IsNumbered x laws n u.sender
    pub m : ℕ
    pub window : Inv (IsSent u.sender.send_history) w m u.receiver.rx

  sender_moves :
      (n : ℕ) (u : World x) (s : SenderState x)
      → Good n u
      → IsNumbered x laws n s × (s.send_history ≡ u.sender.send_history)
      → Good n (record u { sender = s })
  sender_moves n u s g (v, e) = record { numbered = v; m = g.m; window = rw e g.window }

  receiver_moves :
      (n : ℕ) (u : World x) (r : RecvState) (g : Good n u)
      → MovesTo (IsSent u.sender.send_history) w g.m r.rx
      → Good n (record u { receiver = r })
  receiver_moves n u r g (m, _, v) = record { numbered = g.numbered; m = m; window = v }

  stays :
      (n : ℕ) (u : World x) (r : RecvState)
      → Good n u
      → r.rx ≡ u.receiver.rx
      → Good n (record u { receiver = r })
  stays n u r g e = record { numbered = g.numbered; m = g.m; window = rw e g.window }

  push-Good :
      (n : ℕ) (u : World x) (p : Packet) (now : Time) (ok : Bool)
      → n < two_63
      → Good n u
      → Good (suc n) (record u { sender = (do_orig_data_send x u.sender p now ok).0 })
  unfolding do_orig_data_send
  push-Good n u p now ok b g = record {
    numbered = do_orig-IsNumbered x laws n u.sender p now ok b g.numbered;
    m = g.m;
    window =
        Inv-map (IsSent u.sender.send_history) (IsSent (u.sender.send_history ++ _ ∷ [])) w
          (λ k q. IsSent-append u.sender.send_history k q _) g.m u.receiver.rx g.window;
  }

  NetOk-Arrives : (h : List Packet) (p : Packet) → NetOk h p → Arrives (IsSent h) w p
  NetOk-Arrives h p (inl (j, e, idle)) = inl idle
  NetOk-Arrives h p (inr (k, s)) = inr (k, s.number, s)

  arrive-Good :
      (n i : ℕ) (u : World x) (p : Packet) (now wall : Time) (taken : Bool) (r : RecvState)
      → n + w + 1 < two_63
      → get_elem? u.sender.net i ≡ some p
      → handle_pack x.blake2b u.receiver p now wall taken ≡ Handle.running r
      → Good n u
      → Good n (record u { receiver = r })
  arrive-Good n i u p now wall taken r b at e g =
      let h = u.sender.send_history in
      let known = get_elem?-All (NetOk h) u.sender.net i p g.numbered.network at in
      let few = sent-le h w g.m u.receiver.rx g.window.ordered in
      receiver_moves n u r g (
        subst (HandledKeeps (MovesTo (IsSent h) w g.m)) e (
          handle_pack-MovesTo (IsSent h) w
            (λ k q t s. record {
              number = s.number;
              original = s.original;
              at = s.at;
              payload = s.payload;
              offset = s.offset;
            })
            x.blake2b g.m u.receiver p now wall taken (NetOk-Arrives h p known)
            (omega (arith, g.numbered.history_len)) g.window))

  pub Run-Good : (n : ℕ) (u : World x) → 0 < w → n + w + 1 < two_63 → Run x w n u → Good n u
  Run-Good n u h b
        (start window timeout inbox dest interval failed nonce now bytes inbox' dest' nonce' snd) =
      record {
        numbered = new_sender-IsNumbered x laws window timeout inbox dest interval failed nonce now;
        m = 0;
        window = new_recv-Inv _ w bytes inbox' dest' nonce' snd h;
      }
  Run-Good (suc n) v h b (push {u = u} p now ok run open_) =
      push-Good n u p now ok (omega arith) (Run-Good n u h (omega arith) run)
  Run-Good n v h b (wake {u = u} now clk ok s run e) =
      let g = Run-Good n u h b run in
      sender_moves n u s g (regular_wakeup-IsNumbered x laws n u.sender s now clk ok e g.numbered)
  Run-Good n v h b (hear_pack {u = u} a now s run e) =
      let g = Run-Good n u h b run in
      sender_moves n u s g (got_pack-IsNumbered x laws n u.sender s a now e g.numbered)
  Run-Good n v h b (keep_alive {u = u} state since now ok run) =
      let g = Run-Good n u h b run in
      sender_moves n u _ g
        (do_keep_alive-IsNumbered x laws n u.sender state since now ok g.numbered)
  Run-Good n v h b (closing {u = u} now ok run) =
      let g = Run-Good n u h b run in
      sender_moves n u _ g (do_send_closing-IsNumbered x laws n u.sender now ok g.numbered)
  Run-Good n v h b (share {u = u} flow consumed run) =
      let g = Run-Good n u h b run in
      sender_moves n u _ g
        (SameSends-IsNumbered x laws n u.sender _ (refl, refl, refl, refl, refl) g.numbered, refl)
  Run-Good n v h b (acknowledge {u = u} j ack ok run neg idle) =
      let g = Run-Good n u h b run in
      sender_moves n u _ g (send_ack-IsNumbered x laws n j u.sender ack ok neg idle g.numbered)
  Run-Good n v h b (connect_out {u = u} j cr syn ok run neg idle) =
      let g = Run-Good n u h b run in
      sender_moves n u _ g
        (do_send_syn-IsNumbered x laws n j u.sender cr syn ok neg idle g.numbered)
  Run-Good n v h b (arrive {u = u} i p now wall taken r run at e) =
      arrive-Good n i u p now wall taken r b at e (Run-Good n u h b run)
  Run-Good n v h b (retry {u = u} now clk r run e) =
      stays n u r (Run-Good n u h b run) (rx-retry_check u.receiver r now clk e)
  Run-Good n v h b (connect_in {u = u} cr run) =
      stays n u _ (Run-Good n u h b run) (rx-handle_connect u.receiver cr)
  Run-Good n v h b (consume {u = u} now run) =
      let g = Run-Good n u h b run in
      let none_read : ReadRequest = record { cap = 0; got = [] } in
      receiver_moves n u _ g
        (g.m, omega arith, (consume-Inv _ w g.m u.receiver none_read now g.window).0)
  Run-Good n v h b (read {u = u} size now run) =
      let g = Run-Good n u h b run in
      receiver_moves n u _ g (
        g.m,
        omega arith,
        (consume-Inv _ w g.m u.receiver (record { cap = size; got = [] }) now g.window).1,
      )

  -- In every run in which the sender makes fewer than 2^63 - w - 1 first sends, whatever the network
  -- loses, repeats, delays and reorders and whatever comes back to the sender, the payloads that the
  -- receiver has put in order are a prefix of those that the sender was given, none twice and none left
  -- out.
  pub stream-IsPrefix :
      (n : ℕ) (u : World x)
      → 0 < w
      → n + w + 1 < two_63
      → Run x w n u
      → payloads u.receiver.rx.recv_history
        ≡ payloads (take (length u.receiver.rx.recv_history) u.sender.send_history)
  stream-IsPrefix n u h b run =
      let g = Run-Good n u h b run in
      sent-take u.sender.send_history w 0 u.receiver.rx.recv_history g.window.ordered.history
