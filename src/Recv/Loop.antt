-- ===== src/Recv/Loop.antt =====
-- recv.go: the loop of the receiver's goroutine, one case of its `select` after the other, and that
-- every case keeps the window.
use go_sliding_window.Base.{
  ℕ, ◌+◌, ◌<◌, ◌≡◌, refl, sym, subst, Bool, true, false, Option, none, some, List, [], ◌∷◌, length,
  arith, if◌then◌else◌,
}
use go_sliding_window.Base.Int.{two_63}
use go_sliding_window.Tcp.{TcpState}
use go_sliding_window.Packet.{Packet, Time}
use go_sliding_window.Recv.{RecvState, Rx, ConnectReq}
use go_sliding_window.Recv.Consume.{ReadRequest, deliver_to_consumer, fill_as_much_as_possible}
use go_sliding_window.Recv.Handle.{Handled, running, ended, panicked, handle_pack, handle_connect}
use go_sliding_window.Recv.Retry.{retry_check}
use go_sliding_window.Recv.Receive.{Inv}
use go_sliding_window.Recv.Untouched.{HandledKeeps, rx-retry_check, rx-handle_connect}
use go_sliding_window.Recv.Deliver.{MovesTo, Arrives, handle_pack-MovesTo, consume-Inv}

-- The cases of the `select`. `sent` says that the sender takes what is sent to it before the halt is
-- requested; `fresh_helper` that the new ASAP helper is not nil.
pub data LoopEvent : Type 0 where
  state_query held_query halt_requested sender_shutdown : LoopEvent
  keep_alive_timer send_closing : Bool → LoopEvent
  retry_timer : Time → Time → LoopEvent
  set_asap_helper : Bool → LoopEvent
  connect_request : ConnectReq → LoopEvent
  read_request : ReadRequest → Time → LoopEvent
  delivered : Time → LoopEvent
  message : Packet → Time → Time → Bool → LoopEvent

-- What goes out over a channel.
pub data LoopOutput : Type 0 where
  nothing closing : LoopOutput
  state_is : TcpState → LoopOutput
  held_are : ℕ → LoopOutput
  keep_alive_with : TcpState → LoopOutput
  syn_request : ConnectReq → LoopOutput
  filled : ReadRequest → LoopOutput
  in_order : List Packet → LoopOutput

abbrev pub to_sender : Bool → RecvState → LoopOutput → Handled × LoopOutput
to_sender true r out = (running r, out)
to_sender false r out = (ended r, nothing)

abbrev pub after_retry : Option RecvState → Handled
after_retry none = panicked
after_retry (some r) = running r

abbrev pub syn_of : Option ConnectReq → LoopOutput
syn_of none = nothing
syn_of (some cr) = syn_request cr

-- A read with nothing to deliver is closed as it is.
abbrev pub answer_read : RecvState → ReadRequest → Time → List Packet → Handled × LoopOutput
answer_read r rr now [] = (running r, filled rr)
answer_read r rr now (p ∷ ps) =
    (running (fill_as_much_as_possible r rr now).0, filled (fill_as_much_as_possible r rr now).1)

unfoldable pub loop_step : (List ℕ → List ℕ) → RecvState → LoopEvent → Handled × LoopOutput
loop_step blake2b r state_query = (running r, state_is r.conn.tcp_state)
loop_step blake2b r held_query = (running r, held_are (length r.rx.rcvd_but_not_consumed))
loop_step blake2b r halt_requested = (ended r, nothing)
loop_step blake2b r sender_shutdown = (ended r, nothing)
loop_step blake2b r (keep_alive_timer sent) = to_sender sent r (keep_alive_with r.conn.tcp_state)
loop_step blake2b r (send_closing sent) = to_sender sent r closing
loop_step blake2b r (retry_timer now clk) = (after_retry (retry_check r now clk), nothing)
loop_step blake2b r (set_asap_helper fresh_helper) = (
  running (record r { conn = record (r.conn) { asap = if fresh_helper then some [] else none } }),
  nothing,
)
loop_step blake2b r (connect_request cr) =
    (running (handle_connect r cr).0, syn_of (handle_connect r cr).1)
loop_step blake2b r (read_request rr now) = answer_read r rr now r.rx.ready_for_delivery
loop_step blake2b r (delivered now) =
    (running (deliver_to_consumer r now).0, in_order (deliver_to_consumer r now).1)
loop_step blake2b r (message p now wall taken) = (handle_pack blake2b r p now wall taken, nothing)

module _ (P : ℕ → Packet → Type 0) (w : ℕ) where
  -- A message carries a frame of which `P` is known, or no data.
  abbrev pub Comes : LoopEvent → Type 0
  Comes (message p now wall taken) = Arrives P w p
  Comes _ = Unit

  stays : (n : ℕ) (rx rx' : Rx) → rx' ≡ rx → Inv P w n rx → MovesTo P w n rx'
  stays n rx rx' same v = (n, omega arith, subst (Inv P w n) (sym same) v)

  after_retry-MovesTo :
      (n : ℕ) (r : RecvState) (now clk : Time) (out : Option RecvState)
      → retry_check r now clk ≡ out
      → Inv P w n r.rx
      → HandledKeeps (MovesTo P w n) (after_retry out)
  after_retry-MovesTo n r now clk none e v = tt
  after_retry-MovesTo n r now clk (some r') e v =
      stays n r.rx r'.rx (rx-retry_check r r' now clk e) v

  to_sender-MovesTo :
      (n : ℕ) (sent : Bool) (r : RecvState) (out : LoopOutput)
      → Inv P w n r.rx
      → HandledKeeps (MovesTo P w n) (to_sender sent r out).0
  to_sender-MovesTo n true r out v = (n, omega arith, v)
  to_sender-MovesTo n false r out v = (n, omega arith, v)

  answer_read-MovesTo :
      (n : ℕ) (r : RecvState) (rr : ReadRequest) (now : Time) (ready : List Packet)
      → Inv P w n r.rx
      → HandledKeeps (MovesTo P w n) (answer_read r rr now ready).0
  answer_read-MovesTo n r rr now [] v = (n, omega arith, v)
  answer_read-MovesTo n r rr now (p ∷ ps) v = (n, omega arith, (consume-Inv P w n r rr now v).1)

  -- What is known of a frame does not depend on when it arrives.
  module _
      (stamped : (k : ℕ) (p : Packet) (t : Time)
        → P k p
        → P k (record p { arrived_at_dest_tm = t })) where
    -- If the window of the receiver is in order and begins at a frame `n` with n + w + 1 below 2^63, and
    -- a message carries no data or a frame of which `P` is known, then in the receiver's loop every case,
    -- whatever message, request or timer it is for, keeps the window in order and moves it forward only,
    -- unless the code panics.
    pub loop_step-MovesTo :
        (blake2b : List ℕ → List ℕ) (n : ℕ) (r : RecvState) (ev : LoopEvent)
        → Comes ev
        → n + w + 1 < two_63
        → Inv P w n r.rx
        → HandledKeeps (MovesTo P w n) (loop_step blake2b r ev).0
    unfolding loop_step
    loop_step-MovesTo blake2b n r state_query c b v = (n, omega arith, v)
    loop_step-MovesTo blake2b n r held_query c b v = (n, omega arith, v)
    loop_step-MovesTo blake2b n r halt_requested c b v = (n, omega arith, v)
    loop_step-MovesTo blake2b n r sender_shutdown c b v = (n, omega arith, v)
    loop_step-MovesTo blake2b n r (keep_alive_timer sent) c b v = to_sender-MovesTo n sent r _ v
    loop_step-MovesTo blake2b n r (send_closing sent) c b v = to_sender-MovesTo n sent r _ v
    loop_step-MovesTo blake2b n r (retry_timer now clk) c b v =
        after_retry-MovesTo n r now clk (retry_check r now clk) refl v
    loop_step-MovesTo blake2b n r (set_asap_helper fresh_helper) c b v = (n, omega arith, v)
    loop_step-MovesTo blake2b n r (connect_request cr) c b v =
        stays n r.rx _ (rx-handle_connect r cr) v
    loop_step-MovesTo blake2b n r (read_request rr now) c b v =
        answer_read-MovesTo n r rr now r.rx.ready_for_delivery v
    loop_step-MovesTo blake2b n r (delivered now) c b v =
        (n, omega arith, (consume-Inv P w n r (record { cap = 0; got = [] }) now v).0)
    loop_step-MovesTo blake2b n r (message p now wall taken) c b v =
        handle_pack-MovesTo P w stamped blake2b n r p now wall taken c b v
