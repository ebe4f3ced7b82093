-- ===== src/Recv/Attempts.antt =====
-- retry.go: the retries end.
use go_sliding_window.Base.{
  suc, ◌≤◌, ◌≡◌, refl, sym, ◌∙◌, subst, ◌⊎◌, inl, inr, true, Option, none, some, arith, Bool-cases,
  ltb, some_eq,
}
use go_sliding_window.Tcp.{TcpEvent, TcpAction, no_action, send_syn_ack, send_estab_ack}
use go_sliding_window.Base.Int.{ltb_ℤ}
use go_sliding_window.Packet.{Packet, Time, time_sub}
use go_sliding_window.Recv.{RecvState}
use go_sliding_window.Recv.Ack.{ack, update_control}
use go_sliding_window.Recv.Action.{
  ActionResult, done, do_tcp_action, syn_ack_action, estab_ack_action,
}
use go_sliding_window.Recv.Action
use go_sliding_window.Recv.Retry.{
  retry_check, attempt, max_attempts, one_second, state_eq, rearm, count_attempt,
}

-- After more than ten attempts the receiver has asked to stop.
abbrev pub Limited : RecvState → Type 0
Limited r = (r.conn.retry.attempt_count ≤ max_attempts) ⊎ (r.conn.req_stop ≡ true)

conn-ack :
    (r : RecvState) (n : _) (p : Option Packet) (e : TcpEvent) (t : Time)
    → (ack r n p e t).conn ≡ r.conn
unfolding ack update_control
conn-ack r n none e t = refl
conn-ack r n (some p) e t = refl

-- Actions count no attempts.
action_count :
    (a : TcpAction) (r r' : RecvState) (p : Option Packet) (t : Time) (e : TcpEvent)
    → do_tcp_action a r p t ≡ done r' e
    → r'.conn.retry.attempt_count ≡ r.conn.retry.attempt_count
unfolding do_tcp_action
action_count no_action r r' p t e h = cc
action_count send_syn_ack r r' none t e h = absurd (cc)
action_count send_syn_ack r r' (some p) t e h = grind (arith, conn-ack)
action_count send_estab_ack r r' none t e h = absurd (ground arith)
action_count send_estab_ack r r' (some p) t e h = grind (arith, conn-ack)
action_count _ r r' p t e h = grind (arith, conn-ack)

-- The attempt that is made counts, and the eleventh asks to stop.
rearm-Limited :
    (now : Time) (o : ActionResult) (r' : RecvState)
    → ((r : RecvState) (e : TcpEvent) → o ≡ done r e → r.conn.retry.attempt_count ≤ max_attempts)
    → rearm now o ≡ some r'
    → Limited r'
rearm-Limited now Action.panicked r' h e = absurd (cc)
rearm-Limited now (done r e) r' h q = let few = h r e refl in ground (arith, q, few)

attempt-Limited : (r r' : RecvState) (now clk : Time) → attempt r now clk ≡ some r' → Limited r'
unfolding attempt
attempt-Limited r r' now clk h =
    elim (Bool-cases (ltb max_attempts (suc r.conn.retry.attempt_count))) [
      | inl many ↦ let stop = rw many at h in inr (ground (arith, stop))
      | inr few ↦
          let go = rw few at h in
          rearm-Limited now _ r'
            (λ q e eq.
              let same = action_count _ (count_attempt r) q _ clk e eq in ground (arith, same, few))
            go
    ]

check_due :
    (r : RecvState) (now clk : Time)
    → r.conn.retry.in_use ≡ true
    → state_eq r.conn.retry.cur_state r.conn.tcp_state ≡ true
    → ltb_ℤ one_second (time_sub now r.conn.retry.last_attempt_at) ≡ true
    → retry_check r now clk ≡ attempt r now clk
unfolding retry_check
check_due r now clk used same due = ground (arith, used, same, due)

-- However often the timer fires, and whatever the clocks say, a receiver that has made more than ten
-- attempts has asked to stop.
pub retry_check-Limited :
    (r r' : RecvState) (now clk : Time) → retry_check r now clk ≡ some r' → Limited r → Limited r'
unfolding retry_check
retry_check-Limited r r' now clk h b =
    let due = ltb_ℤ one_second (time_sub now r.conn.retry.last_attempt_at) in
    elim (Bool-cases r.conn.retry.in_use) [
      | inl used ↦ elim (Bool-cases (state_eq r.conn.retry.cur_state r.conn.tcp_state)) [
        | inl same ↦ elim (Bool-cases due) [
          | inl t ↦ attempt-Limited r r' now clk (sym (check_due r now clk used same t) ∙ h)
          | inr t ↦ subst Limited (some_eq (rw (used, same, t) at h)) b
        ]
        | inr other ↦ subst Limited (some_eq (rw (used, other) at h)) b
      ]
      | inr idle ↦ subst Limited (some_eq (rw idle at h)) b
    ]
