-- ===== src/Link/Bytes.antt =====
-- sender.go, recv.go: the bytes that the application gets against those that were sent.
use go_sliding_window.Base.{
  ℕ, suc, ◌+◌, ◌<◌, ◌≡◌, refl, sym, ◌∙◌, ap, subst, List, [], ◌∷◌, ◌++◌, All, All-append, length,
  take, arith,
}
use go_sliding_window.Base.Int.{two_63}
use go_sliding_window.Packet.{Packet}
use go_sliding_window.Externals.{Externals, TreeLaws}
use go_sliding_window.Sender.{new_sender_state}
use go_sliding_window.Sender.Send.{do_orig_data_send, fill_slot, stamp}
use go_sliding_window.Sender.Kept.{regular_wakeup-IsNumbered, got_pack-IsNumbered}
use go_sliding_window.Sender.KeptControl.{
  do_keep_alive-IsNumbered, do_send_closing-IsNumbered, send_ack-IsNumbered, do_send_syn-IsNumbered,
}
use go_sliding_window.Recv.{new_recv_state, new_rx}
use go_sliding_window.Recv.Consume.{deliver_to_consumer, ReadRequest, fill_as_much_as_possible}
use go_sliding_window.Recv.Ack.{ack}
use go_sliding_window.Recv.Untouched.{HandledKeeps, rx-retry_check, rx-handle_connect}
use go_sliding_window.Recv.SameWindow.{delivery-SameWindow, fill-SameWindow}
use go_sliding_window.Recv.Read.{unread_bytes, fill-conserves}
use go_sliding_window.Recv.Moves.{Moved, handle_pack-Moved}
use go_sliding_window.Session.Write.{bytes_of}
use go_sliding_window.Link.{
  World, Run, start, push, wake, hear_pack, keep_alive, closing, share, acknowledge, connect_out,
  arrive, retry, connect_in, consume, read,
}
use go_sliding_window.Link.Stream.{Run-Good, stream-IsPrefix}
use go_sliding_window.Link.Ledger.{
  Untouched, frames-Untouched, delivery_bytes, bytes_of-payloads, flat, FromStart, bytes_got,
  Ledger, Moved-Ledger, taken-Ledger,
}

module _ (x : Externals) (laws : TreeLaws x) (w : ℕ) where
  -- The sender's side of the ledger: nothing of what was sent had been read.
  kept-Untouched : (h t : List Packet) → t ≡ h → All Untouched h → All Untouched t
  kept-Untouched h t e a = subst (All Untouched) (sym e) a

  sent-Untouched :
      (n : ℕ) (u : World x) (run : Run x w n u)
      → 0 < w
      → n + w + 1 < two_63
      → FromStart x w run
      → All Untouched u.sender.send_history
  unfolding new_sender_state do_orig_data_send fill_slot stamp
  sent-Untouched n u
        (start window timeout inbox dest interval failed nonce now bytes inbox' dest' nonce' snd) h
        b f =
      tt
  sent-Untouched (suc n) v (push {u = u} p now ok run open_) h b f =
      All-append Untouched u.sender.send_history (stamp x u.sender p now ∷ [])
        (sent-Untouched n u run h (omega arith) f.1) (f.0, tt)
  sent-Untouched n v (wake {u = u} now clk ok s run e) h b f =
      let g = Run-Good x laws w n u h b run in
      kept-Untouched u.sender.send_history s.send_history
        (regular_wakeup-IsNumbered x laws n u.sender s now clk ok e g.numbered).1
        (sent-Untouched n u run h b f)
  sent-Untouched n v (hear_pack {u = u} a now s run e) h b f =
      let g = Run-Good x laws w n u h b run in
      kept-Untouched u.sender.send_history s.send_history
        (got_pack-IsNumbered x laws n u.sender s a now e g.numbered).1
        (sent-Untouched n u run h b f)
  sent-Untouched n v (keep_alive {u = u} state since now ok run) h b f =
      let g = Run-Good x laws w n u h b run in
      kept-Untouched u.sender.send_history _
        (do_keep_alive-IsNumbered x laws n u.sender state since now ok g.numbered).1
        (sent-Untouched n u run h b f)
  sent-Untouched n v (closing {u = u} now ok run) h b f =
      let g = Run-Good x laws w n u h b run in
      kept-Untouched u.sender.send_history _
        (do_send_closing-IsNumbered x laws n u.sender now ok g.numbered).1
        (sent-Untouched n u run h b f)
  sent-Untouched n v (share {u = u} flow consumed run) h b f = sent-Untouched n u run h b f
  sent-Untouched n v (acknowledge {u = u} j ack ok run neg idle) h b f =
      let g = Run-Good x laws w n u h b run in
      kept-Untouched u.sender.send_history _
        (send_ack-IsNumbered x laws n j u.sender ack ok neg idle g.numbered).1
        (sent-Untouched n u run h b f)
  sent-Untouched n v (connect_out {u = u} j cr syn ok run neg idle) h b f =
      let g = Run-Good x laws w n u h b run in
      kept-Untouched u.sender.send_history _
        (do_send_syn-IsNumbered x laws n j u.sender cr syn ok neg idle g.numbered).1
        (sent-Untouched n u run h b f)
  sent-Untouched n v (arrive {u = u} i p now wall taken r run at e) h b f =
      sent-Untouched n u run h b f
  sent-Untouched n v (retry {u = u} now clk r run e) h b f = sent-Untouched n u run h b f
  sent-Untouched n v (connect_in {u = u} cr run) h b f = sent-Untouched n u run h b f
  sent-Untouched n v (consume {u = u} now run) h b f = sent-Untouched n u run h b f
  sent-Untouched n v (read {u = u} room now run) h b f = sent-Untouched n u run h b f

  recv-Untouched :
      (n : ℕ) (u : World x) (run : Run x w n u)
      → 0 < w
      → n + w + 1 < two_63
      → FromStart x w run
      → All Untouched u.receiver.rx.recv_history
  recv-Untouched n u run h b f =
      let g = Run-Good x laws w n u h b run in
      frames-Untouched u.sender.send_history w 0 u.receiver.rx.recv_history
        (sent-Untouched n u run h b f) g.window.ordered.history

  Run-Ledger :
      (n : ℕ) (u : World x) (run : Run x w n u)
      → 0 < w
      → n + w + 1 < two_63
      → FromStart x w run
      → Ledger (bytes_got x w run) u.receiver.rx
  unfolding new_recv_state new_rx unread_bytes bytes_of
  Run-Ledger n u
        (start window timeout inbox dest interval failed nonce now bytes inbox' dest' nonce' snd) h
        b f =
      refl
  Run-Ledger (suc n) v (push {u = u} p now ok run open_) h b f =
      Run-Ledger n u run h (omega arith) f.1
  Run-Ledger n v (wake {u = u} now clk ok s run e) h b f = Run-Ledger n u run h b f
  Run-Ledger n v (hear_pack {u = u} a now s run e) h b f = Run-Ledger n u run h b f
  Run-Ledger n v (keep_alive {u = u} state since now ok run) h b f = Run-Ledger n u run h b f
  Run-Ledger n v (closing {u = u} now ok run) h b f = Run-Ledger n u run h b f
  Run-Ledger n v (share {u = u} flow consumed run) h b f = Run-Ledger n u run h b f
  Run-Ledger n v (acknowledge {u = u} j ack ok run neg idle) h b f = Run-Ledger n u run h b f
  Run-Ledger n v (connect_out {u = u} j cr syn ok run neg idle) h b f = Run-Ledger n u run h b f
  Run-Ledger n v (arrive {u = u} i p now wall taken r run at e) h b f =
      Moved-Ledger (bytes_got x w run) u.receiver.rx r.rx
        (subst (HandledKeeps (Moved u.receiver.rx)) e
          (handle_pack-Moved x.blake2b u.receiver p now wall taken))
        (recv-Untouched n v (arrive i p now wall taken r run at e) h b f) (Run-Ledger n u run h b f)
  Run-Ledger n v (retry {u = u} now clk r run e) h b f =
      rw (rx-retry_check u.receiver r now clk e) (Run-Ledger n u run h b f)
  Run-Ledger n v (connect_in {u = u} cr run) h b f =
      rw (rx-handle_connect u.receiver cr) (Run-Ledger n u run h b f)
  Run-Ledger n v (consume {u = u} now run) h b f =
      let same = delivery-SameWindow u.receiver now u.receiver.rx.ready_for_delivery refl in
      taken-Ledger (bytes_got x w run) _ u.receiver.rx (deliver_to_consumer u.receiver now).0.rx
        (delivery_bytes u.receiver now u.receiver.rx.ready_for_delivery refl) same.3
        (Run-Ledger n u run h b f)
  Run-Ledger n v (read {u = u} room now run) h b f =
      let rr : ReadRequest = record { cap = room; got = [] } in
      let same = fill-SameWindow u.receiver rr now in
      taken-Ledger (bytes_got x w run) _ u.receiver.rx
        (fill_as_much_as_possible u.receiver rr now).0.rx (fill-conserves u.receiver room now).0
        same.3 (Run-Ledger n u run h b f)

  -- In every run with fewer than 2^63 - w - 1 first sends, of packets of which nothing was read before,
  -- the bytes that the application at the other end has got, by packets and by reads of any size,
  -- followed by those that are ready for it, are the bytes of the first packets that were sent, as
  -- many packets as the receiver has put in order: the stream arrives as it was sent.
  pub bytes-IsPrefix :
      (n : ℕ) (u : World x) (run : Run x w n u)
      → 0 < w
      → n + w + 1 < two_63
      → FromStart x w run
      → bytes_got x w run ++ unread_bytes u.receiver.rx.ready_for_delivery
        ≡ bytes_of (take (length u.receiver.rx.recv_history) u.sender.send_history)
  bytes-IsPrefix n u run h b f =
      let sent = take (length u.receiver.rx.recv_history) u.sender.send_history in
      Run-Ledger n u run h b f
      ∙ bytes_of-payloads u.receiver.rx.recv_history
      ∙ ap flat (stream-IsPrefix x laws w n u h b run)
      ∙ sym (bytes_of-payloads sent)
