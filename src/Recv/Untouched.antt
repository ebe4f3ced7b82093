-- ===== src/Recv/Untouched.antt =====
-- recv.go, retry.go: what the control plane leaves alone: the window, and what was consumed.
use go_sliding_window.Base.{ℕ, zero, suc, ◌≡◌, refl, ◌∙◌, Option, none, some, arith, if_elim}
use go_sliding_window.Base.Int.{ℤ}
use go_sliding_window.Tcp.{
  TcpEvent, TcpAction, no_action, send_syn_ack, send_estab_ack, TcpState, closed,
}
use go_sliding_window.Packet.{Packet, Time}
use go_sliding_window.Recv.{RecvState, Rx, ConnectReq}
use go_sliding_window.Recv.Ack.{update_control, ack}
use go_sliding_window.Recv.Action.{ActionResult, panicked, done, do_tcp_action}
use go_sliding_window.Recv.Retry.{state_eq, setup_retry, retry_check}
use go_sliding_window.Recv.Handle.{
  Handled, handle_info, next_round, after_events, is_nil, info_round, handle_connect,
}
use go_sliding_window.Recv.Handle

pub rx-update_control : (r : RecvState) (p : Packet) → (update_control r p).rx ≡ r.rx
unfolding update_control
rx-update_control r p = refl

pub rx-ack :
    (r : RecvState) (n : ℤ) (p : Option Packet) (e : TcpEvent) (t : Time)
    → (ack r n p e t).rx ≡ r.rx
unfolding ack update_control
rx-ack r n none e t = refl
rx-ack r n (some p) e t = refl

pub rx-setup_retry :
    (r : RecvState) (pre post : TcpState) (p : Packet) (a : TcpAction) (t : Time)
    → (setup_retry r pre post p a t).rx ≡ r.rx
unfolding setup_retry
rx-setup_retry r pre post p a t = ground arith

-- An action that does not panic leaves the window as it was.
pub rx-do_tcp_action :
    (act : TcpAction) (r r' : RecvState) (p : Option Packet) (t : Time) (e : TcpEvent)
    → do_tcp_action act r p t ≡ done r' e
    → r'.rx ≡ r.rx
unfolding do_tcp_action
rx-do_tcp_action no_action r r' p t e h = cc
rx-do_tcp_action send_syn_ack r r' none t e h = absurd (cc)
rx-do_tcp_action send_syn_ack r r' (some p) t e h = grind (arith, rx-ack)
rx-do_tcp_action send_estab_ack r r' none t e h = absurd (ground arith)
rx-do_tcp_action send_estab_ack r r' (some p) t e h = grind (arith, rx-ack)
rx-do_tcp_action _ r r' p t e h = grind (arith, rx-ack)

rx-info_round :
    (r r' : RecvState) (e next : TcpEvent) (p : Packet) (t wall : Time)
    → info_round r e p t wall ≡ done r' next
    → r'.rx ≡ r.rx
unfolding info_round
rx-info_round r r' e next p t wall h =
    rx-do_tcp_action _ _ r' (some p) t next h ∙ rx-setup_retry _ _ _ p _ wall

abbrev pub HandledKeeps : (Rx → Type 0) → Handled → Type 0
HandledKeeps P Handle.panicked = Unit
HandledKeeps P Handle.still_going = Unit
HandledKeeps P (Handle.running r) = P r.rx
HandledKeeps P (Handle.ended r) = P r.rx

after_events-Keeps :
    (rx : Rx) (r : RecvState) → r.rx ≡ rx → HandledKeeps (λ q. q ≡ rx) (after_events r)
after_events-Keeps rx r h =
    if_elim (HandledKeeps (λ q. q ≡ rx)) (state_eq r.conn.tcp_state closed) (Handle.ended r)
      (Handle.running r) h h

next_round-Keeps :
    (rx : Rx) (go : RecvState → TcpEvent → Handled) (a : ActionResult)
    → ((r : RecvState) (e : TcpEvent) → r.rx ≡ rx → HandledKeeps (λ q. q ≡ rx) (go r e))
    → ((r : RecvState) (e : TcpEvent) → a ≡ done r e → r.rx ≡ rx)
    → HandledKeeps (λ q. q ≡ rx) (next_round go a)
next_round-Keeps rx go panicked hg ha = tt
next_round-Keeps rx go (done r e) hg ha =
    let same = ha r e refl in
    if_elim (HandledKeeps (λ q. q ≡ rx)) (is_nil e) (after_events r) (go r e)
      (after_events-Keeps rx r same) (hg r e same)

pub rx-handle_info :
    (fuel : ℕ) (rx : Rx) (r : RecvState) (e : TcpEvent) (p : Packet) (t wall : Time)
    → r.rx ≡ rx
    → HandledKeeps (λ q. q ≡ rx) (handle_info fuel r e p t wall)
unfolding handle_info
rx-handle_info zero rx r e p t wall h = tt
rx-handle_info (suc fuel) rx r e p t wall h =
    next_round-Keeps rx _ (info_round r e p t wall)
      (λ r' next same. rx-handle_info fuel rx r' next p t wall same)
      (λ r' next q. rx-info_round r r' e next p t wall q ∙ h)

pub rx-retry_check :
    (r r' : RecvState) (now clk : Time) → retry_check r now clk ≡ some r' → r'.rx ≡ r.rx
unfolding retry_check
rx-retry_check r r' now clk h = grind (arith, rx-do_tcp_action)

pub rx-handle_connect : (r : RecvState) (cr : ConnectReq) → (handle_connect r cr).0.rx ≡ r.rx
unfolding handle_connect
rx-handle_connect r cr = ground arith
