-- ===== src/Sender/KeptControl.antt =====
-- sender.go: control packets keep the numbering.
use go_sliding_window.Base.{ℕ, ◌≡◌, refl, ◌∙◌, inl, Bool, false, if_elim, String}
use go_sliding_window.Base.Int.{ℤ, negsuc}
use go_sliding_window.Packet.{Packet, Time}
use go_sliding_window.Externals.{Externals, TreeLaws}
use go_sliding_window.Tcp.{TcpState, is_data}
use go_sliding_window.Sender.{SenderState, new_sender_state}
use go_sliding_window.Sender.Send.{put_net}
use go_sliding_window.Sender.Control.{
  skips_keep_alive, send_keep_alive, do_keep_alive, do_send_closing, send_ack_pack,
}
use go_sliding_window.Recv.{ConnectReq}
use go_sliding_window.Sender.Control.{do_send_syn}
use go_sliding_window.Sender.History.{NetOk, put_net-All, IsNumbered, SameSends}

module _ (x : Externals) (laws : TreeLaws x) where
  open x use {Tree, items, insert, delete_with_key, delete_min}
  open laws use {all-insert, all-delete, items-new}

  -- A packet with a negative number goes out.
  control-IsNumbered :
      (n j : ℕ) (s t : SenderState x) (p : Packet) (ok : Bool)
      → SameSends x laws s (record t { net = s.net })
      → p.seq_num ≡ negsuc j
      → is_data p.tcp_event ≡ false
      → t.net ≡ put_net ok p s.net
      → IsNumbered x laws n s
      → IsNumbered x laws n t × (t.send_history ≡ s.send_history)
  control-IsNumbered n j s t p ok (l, h, q, d, _) neg idle net v = (
    record {
      last = l ∙ v.last;
      history = rw h v.history;
      history_len = rw h v.history_len;
      seq_slots = rw (h, q) v.seq_slots;
      deadline_slots = rw (h, d) v.deadline_slots;
      network =
          rw (h, net)
            (put_net-All (NetOk s.send_history) ok p s.net (inl (j, neg, idle)) v.network);
    },
    h,
  )

  -- Keep-alives, the closing message and acknowledgements carry negative numbers.
  pub do_keep_alive-IsNumbered :
      (n : ℕ) (s : SenderState x) (st : TcpState) (since now : Time) (ok : Bool)
      → IsNumbered x laws n s
      → IsNumbered x laws n (do_keep_alive x s st since now ok)
        × ((do_keep_alive x s st since now ok).send_history ≡ s.send_history)
  unfolding do_keep_alive
  do_keep_alive-IsNumbered n s st since now ok v =
      if_elim (λ (t : SenderState x). IsNumbered x laws n t × (t.send_history ≡ s.send_history))
        (skips_keep_alive x s since) s (send_keep_alive x s st now ok) (v, refl)
        (control-IsNumbered n 776 s _ _ ok (refl, refl, refl, refl, refl) refl refl refl v)

  pub do_send_closing-IsNumbered :
      (n : ℕ) (s : SenderState x) (now : Time) (ok : Bool)
      → IsNumbered x laws n s
      → IsNumbered x laws n (do_send_closing x s now ok)
        × ((do_send_closing x s now ok).send_history ≡ s.send_history)
  unfolding do_send_closing
  do_send_closing-IsNumbered n s now ok v =
      control-IsNumbered n 887 s _ _ ok (refl, refl, refl, refl, refl) refl refl refl v

  pub send_ack-IsNumbered :
      (n j : ℕ) (s : SenderState x) (ack : Packet) (ok : Bool)
      → ack.seq_num ≡ negsuc j
      → is_data ack.tcp_event ≡ false
      → IsNumbered x laws n s
      → IsNumbered x laws n (send_ack_pack x s ack ok).0
        × ((send_ack_pack x s ack ok).0.send_history ≡ s.send_history)
  unfolding send_ack_pack
  send_ack-IsNumbered n j s ack ok neg idle v =
      control-IsNumbered n j s _ _ ok (refl, refl, refl, refl, refl) neg idle refl v

  pub do_send_syn-IsNumbered :
      (n j : ℕ) (s : SenderState x) (cr : ConnectReq) (syn : Packet) (ok : Bool)
      → syn.seq_num ≡ negsuc j
      → is_data syn.tcp_event ≡ false
      → IsNumbered x laws n s
      → IsNumbered x laws n (do_send_syn x s cr syn ok).0
        × ((do_send_syn x s cr syn ok).0.send_history ≡ s.send_history)
  unfolding do_send_syn
  do_send_syn-IsNumbered n j s cr syn ok neg idle v =
      control-IsNumbered n j s _ syn ok (refl, refl, refl, refl, refl) neg idle refl v

  pub new_sender-IsNumbered :
      (size : ℕ) (timeout : Time) (inbox dest : String) (interval failed : ℤ) (nonce : String)
      (now : Time)
      → IsNumbered x laws 0 (new_sender_state x size timeout inbox dest interval failed nonce now)
  unfolding new_sender_state
  new_sender-IsNumbered size timeout inbox dest interval failed nonce now = record {
    last = refl;
    history = tt;
    history_len = refl;
    seq_slots = rw items-new tt;
    deadline_slots = rw items-new tt;
    network = tt;
  }
