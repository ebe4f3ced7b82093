-- ===== src/Sender/Loop.antt =====
-- sender.go: the loop of the sender's goroutine, one case of its `select` after the other, and what
-- every case does to the history and the numbering.
use go_sliding_window.Base.{
  ℕ, suc, ◌<◌, ◌≡◌, refl, Bool, true, false, if_elim, Option, none, some, [], ◌∷◌, ◌++◌,
  if◌then◌else◌,
}
use go_sliding_window.Base.Int.{negsuc, two_63}
use go_sliding_window.Tcp.{TcpState, is_data}
use go_sliding_window.Packet.{Packet, Time, Duration}
use go_sliding_window.Externals.{Externals, TreeLaws}
use go_sliding_window.Recv.{ConnectReq}
use go_sliding_window.Sender.{SenderState}
use go_sliding_window.Sender.Send.{
  stamp, fill_slot, accepts_send, do_orig_data_send, regular_wakeup,
}
use go_sliding_window.Sender.Control.{do_keep_alive, do_send_closing, send_ack_pack, do_send_syn}
use go_sliding_window.Sender.Receive.{got_pack}
use go_sliding_window.Sender.History.{IsNumbered, do_orig-IsNumbered}
use go_sliding_window.Sender.Kept.{regular_wakeup-IsNumbered, got_pack-IsNumbered}
use go_sliding_window.Sender.KeptControl.{
  do_keep_alive-IsNumbered, do_send_closing-IsNumbered, send_ack-IsNumbered, do_send_syn-IsNumbered,
}

-- The cases of the `select`, with the readings of the clock and whether `Net.Send` succeeds.
pub data SendEvent : Type 0 where
  close_request : Time → Bool → SendEvent
  keep_alive : TcpState → Duration → Time → Bool → SendEvent
  interval_wakeup : Time → (ℕ → Time) → (ℕ → Bool) → SendEvent
  stop_requested : SendEvent
  blocking_send : Packet → Time → Bool → SendEvent
  packet_arrived : Packet → Time → SendEvent
  syn_requested : ConnectReq → Bool → SendEvent
  ack_requested : Packet → Bool → SendEvent

module _ (x : Externals) where
  -- One turn of the loop. `blocked`: the case is not ready, since flow control holds the channel
  -- back. `syn_sent` is `live` with the request to connect, which a failed send has ended.
  pub data SendOutcome : Type 0 where
    blocked crashed : SendOutcome
    live over : SenderState x → SendOutcome
    syn_sent : SenderState x → ConnectReq → SendOutcome

  abbrev pub live_or_over : SenderState x → Option (SenderState x) → SendOutcome
  live_or_over s none = over s
  live_or_over s (some t) = live t

  abbrev pub live_or_crashed : Option (SenderState x) → SendOutcome
  live_or_crashed none = crashed
  live_or_crashed (some t) = live t

  -- A failed send of an acknowledgement ends the loop.
  abbrev pub after_ack : SenderState x × Bool → SendOutcome
  after_ack (s, true) = live s
  after_ack (s, false) = over s

  -- `Net.Send` reads the packet, which must not be nil.
  abbrev pub send_syn : SenderState x → ConnectReq → Option Packet → Bool → SendOutcome
  send_syn s cr none ok = crashed
  send_syn s cr (some syn) ok = syn_sent (do_send_syn x s cr syn ok).0 (do_send_syn x s cr syn ok).1

  unfoldable pub send_step : SenderState x → SendEvent → SendOutcome
  send_step s (close_request now ok) = live (do_send_closing x s now ok)
  send_step s (keep_alive st since now ok) = live (do_keep_alive x s st since now ok)
  send_step s (interval_wakeup now clk ok) = live_or_over s (regular_wakeup x s now clk ok)
  send_step s stop_requested = over s
  send_step s (blocking_send p now ok) =
      if accepts_send x s then live (do_orig_data_send x s p now ok).0 else blocked
  send_step s (packet_arrived a now) = live_or_crashed (got_pack x s a now)
  send_step s (syn_requested cr ok) = send_syn s cr cr.syn_pack ok
  send_step s (ack_requested ack ok) = after_ack (send_ack_pack x s ack ok)

  -- A packet without data, and its number is negative.
  abbrev pub IsControl : Packet → Type 0
  IsControl p = (j : ℕ) × (p.seq_num ≡ negsuc j) × (is_data p.tcp_event ≡ false)

  abbrev pub IsControlled : Option Packet → Type 0
  IsControlled none = Unit
  IsControlled (some p) = IsControl p

  -- What the receiver hands to the sender is a control packet.
  abbrev pub IsAsked : SendEvent → Type 0
  IsAsked (syn_requested cr ok) = IsControlled cr.syn_pack
  IsAsked (ack_requested ack ok) = IsControl ack
  IsAsked _ = Unit

  abbrev pub OutcomeIs : (SenderState x → Type 0) → SendOutcome → Type 0
  OutcomeIs P blocked = Unit
  OutcomeIs P crashed = Unit
  OutcomeIs P (live s) = P s
  OutcomeIs P (over s) = P s
  OutcomeIs P (syn_sent s cr) = P s

  module _ (laws : TreeLaws x) where
    abbrev pub Continues : ℕ → SenderState x → SendEvent → SenderState x → Type 0
    Continues n s (blocking_send p now ok) t =
        IsNumbered x laws (suc n) t × (t.send_history ≡ s.send_history ++ stamp x s p now ∷ [])
    Continues n s ev t = IsNumbered x laws n t × (t.send_history ≡ s.send_history)

    abbrev Same : ℕ → SenderState x → SenderState x → Type 0
    Same n s t = IsNumbered x laws n t × (t.send_history ≡ s.send_history)

    live_or_over-Same :
        (n : ℕ) (s : SenderState x) (now : Time) (clk : ℕ → Time) (ok : ℕ → Bool)
        (out : Option (SenderState x))
        → regular_wakeup x s now clk ok ≡ out
        → IsNumbered x laws n s
        → OutcomeIs (Same n s) (live_or_over s out)
    live_or_over-Same n s now clk ok none e v = (v, refl)
    live_or_over-Same n s now clk ok (some t) e v =
        regular_wakeup-IsNumbered x laws n s t now clk ok e v

    live_or_crashed-Same :
        (n : ℕ) (s : SenderState x) (a : Packet) (now : Time) (out : Option (SenderState x))
        → got_pack x s a now ≡ out
        → IsNumbered x laws n s
        → OutcomeIs (Same n s) (live_or_crashed out)
    live_or_crashed-Same n s a now none e v = tt
    live_or_crashed-Same n s a now (some t) e v = got_pack-IsNumbered x laws n s t a now e v

    after_ack-OutcomeIs :
        (P : SenderState x → Type 0) (s : SenderState x) (ok : Bool)
        → P s
        → OutcomeIs P (after_ack (s, ok))
    after_ack-OutcomeIs P s true h = h
    after_ack-OutcomeIs P s false h = h

    send_syn-Same :
        (n : ℕ) (s : SenderState x) (cr : ConnectReq) (syn : Option Packet) (ok : Bool)
        → IsControlled syn
        → IsNumbered x laws n s
        → OutcomeIs (Same n s) (send_syn s cr syn ok)
    send_syn-Same n s cr none ok c v = tt
    send_syn-Same n s cr (some syn) ok (j, neg, idle) v =
        do_send_syn-IsNumbered x laws n j s cr syn ok neg idle v

    history-do_orig :
        (s : SenderState x) (p : Packet) (now : Time) (ok : Bool)
        → (do_orig_data_send x s p now ok).0.send_history ≡ s.send_history ++ stamp x s p now ∷ []
    unfolding do_orig_data_send fill_slot
    history-do_orig s p now ok = refl

    -- If fewer than 2^63 packets were sent, numbered from 0, then in the sender's loop every case,
    -- whatever arrives or fails, leaves the history alone, except that a packet that is accepted for a
    -- first send is added to it with the next number; and afterwards too each slot of the two trees
    -- and each packet on the network is a packet of the history, or else a control packet with a
    -- negative number. What the receiver hands over to be sent has to be such a control packet.
    pub send_step-Continues :
        (n : ℕ) (s : SenderState x) (ev : SendEvent)
        → IsAsked ev
        → n < two_63
        → IsNumbered x laws n s
        → OutcomeIs (Continues n s ev) (send_step s ev)
    unfolding send_step send_ack_pack
    send_step-Continues n s (close_request now ok) c b v =
        do_send_closing-IsNumbered x laws n s now ok v
    send_step-Continues n s (keep_alive st since now ok) c b v =
        do_keep_alive-IsNumbered x laws n s st since now ok v
    send_step-Continues n s (interval_wakeup now clk ok) c b v =
        live_or_over-Same n s now clk ok (regular_wakeup x s now clk ok) refl v
    send_step-Continues n s stop_requested c b v = (v, refl)
    send_step-Continues n s (blocking_send p now ok) c b v =
        if_elim (OutcomeIs (Continues n s (blocking_send p now ok))) (accepts_send x s)
          (live (do_orig_data_send x s p now ok).0) blocked
          (do_orig-IsNumbered x laws n s p now ok b v, history-do_orig s p now ok) tt
    send_step-Continues n s (packet_arrived a now) c b v =
        live_or_crashed-Same n s a now (got_pack x s a now) refl v
    send_step-Continues n s (syn_requested cr ok) c b v = send_syn-Same n s cr cr.syn_pack ok c v
    send_step-Continues n s (ack_requested ack ok) (j, neg, idle) b v =
        after_ack-OutcomeIs (Same n s) (send_ack_pack x s ack ok).0 ok
          (send_ack-IsNumbered x laws n j s ack ok neg idle v)
