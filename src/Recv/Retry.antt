-- ===== src/Recv/Retry.antt =====
-- retry.go: a handshake or closing message is repeated while its state lasts. `now` is the machine's
-- clock, `clk` the reading of `r.Clk` that an acknowledgement is stamped with.
use go_sliding_window.Base.{ℕ, suc, Bool, true, false, Option, none, some, ltb, if◌then◌else◌}
use go_sliding_window.Base.Int.{ℤ, pos, ltb_ℤ, eq_ℤ}
use go_sliding_window.Tcp.{
  TcpState, syn_sent, syn_received, close_initiator_has_sent_fin, state_int, TcpAction,
}
use go_sliding_window.Packet.{Packet, Time, time_sub}
use go_sliding_window.Recv.{RecvState}
use go_sliding_window.Recv.Action.{ActionResult, panicked, done, do_tcp_action}

unfoldable pub is_retry_state : TcpState → Bool
is_retry_state syn_sent = true
is_retry_state syn_received = true
is_retry_state close_initiator_has_sent_fin = true
is_retry_state _ = false

abbrev pub state_eq : TcpState → TcpState → Bool
state_eq s t = eq_ℤ (state_int s) (state_int t)

abbrev pub one_second : ℤ
one_second = pos 1_000_000_000

abbrev pub max_attempts : ℕ
max_attempts = 10

-- The timer is dropped and the retries end.
abbrev pub cancel_retry : RecvState → RecvState
cancel_retry r = record r {
  conn = record (r.conn) {
    retry_timer_ch = none;
    retry = record (r.conn.retry) { in_use = false; causal_packet = none };
  };
}

abbrev pub stop_timer : RecvState → RecvState
stop_timer r = record r { conn = record (r.conn) { retry_timer_ch = none } }

-- After ten attempts the receiver asks to stop.
abbrev pub give_up : RecvState → RecvState
give_up r = record r {
  conn = record (r.conn) {
    retry_timer_ch = none;
    retry = record (r.conn.retry) { in_use = false };
    req_stop = true;
  };
}

abbrev pub count_attempt : RecvState → RecvState
count_attempt r = record r {
  conn = record (r.conn) {
    retry = record (r.conn.retry) { attempt_count = suc r.conn.retry.attempt_count };
  };
}

-- After the action the timer is armed again.
abbrev pub rearm : Time → ActionResult → Option RecvState
rearm now panicked = none
rearm now (done r e) = some (record r {
  conn = record (r.conn) {
    retry = record (r.conn.retry) { last_attempt_at = now };
    retry_timer_ch = some r.conn.retry.timeout;
  };
})

unfoldable pub attempt : RecvState → Time → Time → Option RecvState
attempt r0 now clk =
    let r = count_attempt r0 in
    if ltb max_attempts r.conn.retry.attempt_count
    then some (give_up r)
    else rearm now (do_tcp_action r.conn.retry.first_state_action r r.conn.retry.causal_packet clk)

-- `retryCheck`, when the timer fires. `none` is a panic of the action.
unfoldable pub retry_check : RecvState → Time → Time → Option RecvState
unfolding attempt
retry_check r now clk =
    if r.conn.retry.in_use
    then (if state_eq r.conn.retry.cur_state r.conn.tcp_state
        then (if ltb_ℤ one_second (time_sub now r.conn.retry.last_attempt_at)
            then attempt r now clk
            else some r)
        else some (cancel_retry r))
    else some (stop_timer r)

-- `setupRetry`, after `UpdateTcp` set the state to `post`. The count of attempts is left as it was.
unfoldable pub setup_retry : RecvState → TcpState → TcpState → Packet → TcpAction → Time → RecvState
unfolding is_retry_state
setup_retry r pre post pack act now =
    if state_eq post pre
    then r
    else (if is_retry_state r.conn.tcp_state
        then record r {
          conn = record (r.conn) {
            retry = record (r.conn.retry) {
              in_use = true;
              cur_state = post;
              entered_cur_tcp_state_at = now;
              last_attempt_at = now;
              first_state_action = act;
              causal_packet = some pack;
              timeout = one_second;
            };
            retry_timer_ch = some one_second;
          };
        }
        else cancel_retry r)
