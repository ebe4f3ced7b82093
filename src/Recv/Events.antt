-- ===== src/Recv/Events.antt =====
-- recv.go: `doNextEvent`, and how long one packet keeps it going.
use go_sliding_window.Base.{
  ℕ, suc, ◌≡◌, refl, ◌∙◌, ap, subst, ◌⊎◌, inl, inr, Option, none, some, arith, if_elim, Bool, List,
}
use go_sliding_window.Tcp.{
  TcpState, closed, close_responder_got_fin, TcpEvent, event_nil, event_application_closed,
  event_fin_ack, TcpAction, send_syn_ack, send_estab_ack, do_app_close, update_tcp, is_data,
}
use go_sliding_window.Packet.{Packet, Time}
use go_sliding_window.Recv.{RecvState, RxConn, RxFlow}
use go_sliding_window.Recv.Ack.{ack, update_control}
use go_sliding_window.Recv.Action.{
  ActionResult, done, do_tcp_action, syn_ack_action, estab_ack_action, app_close, ack_with,
}
use go_sliding_window.Recv.Action
use go_sliding_window.Recv.Data.{Stored, discarded, stored, advanced, store_data}
use go_sliding_window.Recv.Data
use go_sliding_window.Recv.Retry.{setup_retry, state_eq}
use go_sliding_window.Recv.Handle.{
  Handled, still_going, running, ended, handle_info, info_round, next_round, after_events, is_nil,
  handle_data, accept_pack, handle_pack, track,
}

state-ack :
    (r : RecvState) (n : _) (p : Option Packet) (e : TcpEvent) (t : Time)
    → (ack r n p e t).conn ≡ r.conn
unfolding ack update_control
state-ack r n none e t = refl
state-ack r n (some p) e t = refl

state-setup_retry :
    (r : RecvState) (pre post : TcpState) (p : Packet) (a : TcpAction) (t : Time)
    → (setup_retry r pre post p a t).conn.tcp_state ≡ r.conn.tcp_state
unfolding setup_retry
state-setup_retry r pre post p a t = ground arith

state-app_close : (r : RecvState) → (app_close r).conn.tcp_state ≡ r.conn.tcp_state
state-app_close r = ground arith

-- Only the closing of the application asks for another round.
action_next :
    (a : TcpAction) (r r' : RecvState) (p : Packet) (t : Time) (next : TcpEvent)
    → do_tcp_action a r (some p) t ≡ done r' next
    → (next ≡ event_nil)
      ⊎ ((a ≡ do_app_close)
          × (next ≡ event_application_closed)
          × (r'.conn.tcp_state ≡ r.conn.tcp_state))
unfolding do_tcp_action syn_ack_action estab_ack_action
action_next do_app_close r r' p t next h =
    let same : ack_with (app_close r) (some p) event_fin_ack t ≡ r' = cc in
    inr (
      refl,
      cc,
      subst (λ (s : RecvState). s.conn.tcp_state ≡ r.conn.tcp_state) same
          (ap (λ (c : RxConn). c.tcp_state) (state-ack (app_close r) _ (some p) event_fin_ack t)
            ∙ state-app_close r),
    )
action_next send_syn_ack r r' p t next h = inl (ground arith)
action_next send_estab_ack r r' p t next h = inl (ground arith)
action_next _ r r' p t next h = inl (cc)

-- A state that is entered with the closing of the application is the responder's.
app_close_state :
    (s : TcpState) (e : TcpEvent) (from : TcpState)
    → (update_tcp s e from).1 ≡ do_app_close
    → (update_tcp s e from).0 ≡ close_responder_got_fin
unfolding update_tcp
app_close_state s e from h = ground arith

-- What a round asks for next.
round_next :
    (r r' : RecvState) (e next : TcpEvent) (p : Packet) (t wall : Time)
    → info_round r e p t wall ≡ done r' next
    → (next ≡ event_nil)
      ⊎ ((next ≡ event_application_closed) × (r'.conn.tcp_state ≡ close_responder_got_fin))
unfolding info_round
round_next r r' e next p t wall h =
    let q = update_tcp r.conn.tcp_state e p.from_tcp_state in
    let r1 = record r { conn = record (r.conn) { tcp_state = q.0 } } in
    elim (action_next q.1 _ r' p t next h) [
      | inl n ↦ inl n
      | inr (a, n, s) ↦ inr (
        n,
        s
            ∙ state-setup_retry r1 r.conn.tcp_state q.0 p q.1 wall
            ∙ app_close_state r.conn.tcp_state e p.from_tcp_state a,
      )
    ]

-- The round after it is the last.
last_round :
    (r r' : RecvState) (next : TcpEvent) (p : Packet) (t wall : Time)
    → r.conn.tcp_state ≡ close_responder_got_fin
    → info_round r event_application_closed p t wall ≡ done r' next
    → next ≡ event_nil
unfolding info_round do_tcp_action update_tcp
last_round r r' next p t wall s h = let same = rw s at h in cc

end_round :
    (go go' : RecvState → TcpEvent → Handled) (a : ActionResult)
    → ((r' : RecvState) (next : TcpEvent) → a ≡ done r' next → next ≡ event_nil)
    → next_round go a ≡ next_round go' a
end_round go go' Action.panicked h = refl
end_round go go' (Action.done r e) h = rw (h r e refl) refl

same_round :
    (go go' : RecvState → TcpEvent → Handled) (a : ActionResult)
    → ((r' : RecvState) (next : TcpEvent)
        → a ≡ done r' next
        → (next ≡ event_nil) ⊎ (go r' next ≡ go' r' next))
    → next_round go a ≡ next_round go' a
same_round go go' Action.panicked h = refl
same_round go go' (Action.done r e) h = elim (h r e refl) [ inl n ↦ rw n refl | inr q ↦ rw q refl ]

-- The rounds are over: the loop goes on to the next message, has ended, or has panicked.
abbrev pub IsSettled : Handled → Type 0
IsSettled still_going = ⊥
IsSettled _ = Unit

after_events-IsSettled : (r : RecvState) → IsSettled (after_events r)
after_events-IsSettled r =
    if_elim IsSettled (state_eq r.conn.tcp_state closed) (ended r) (running r) tt tt

next_round-IsSettled :
    (go : RecvState → TcpEvent → Handled) (a : ActionResult)
    → ((r' : RecvState) (next : TcpEvent)
        → a ≡ done r' next
        → (next ≡ event_nil) ⊎ IsSettled (go r' next))
    → IsSettled (next_round go a)
next_round-IsSettled go Action.panicked h = tt
next_round-IsSettled go (Action.done r e) h = elim (h r e refl) [
  | inl n ↦ rw n (after_events-IsSettled r)
  | inr q ↦ if_elim IsSettled (is_nil e) (after_events r) (go r e) (after_events-IsSettled r) q
]

two_rounds :
    (r : RecvState) (e : TcpEvent) (p : Packet) (t wall : Time)
    → IsSettled (handle_info 2 r e p t wall)
unfolding handle_info
two_rounds r e p t wall = next_round-IsSettled _ (info_round r e p t wall) (λ r' next h.
    elim (round_next r r' e next p t wall h) [
      | inl n ↦ inl n
      | inr (n, s) ↦ inr (
          rw n (
            next_round-IsSettled _ (info_round r' event_application_closed p t wall)
              (λ r2 next2 h2. inl (last_round r' r2 next2 p t wall s h2))))
    ])

more_rounds :
    (k : ℕ) (r : RecvState) (e : TcpEvent) (p : Packet) (t wall : Time)
    → handle_info (suc (suc k)) r e p t wall ≡ handle_info 2 r e p t wall
unfolding handle_info
more_rounds k r e p t wall = same_round _ _ (info_round r e p t wall) (λ r' next h.
    elim (round_next r r' e next p t wall h) [
      | inl n ↦ inl n
      | inr (n, s) ↦ inr (
          rw n (
            end_round _ _ (info_round r' event_application_closed p t wall)
              (λ r2 next2 h2. last_round r' r2 next2 p t wall s h2)))
    ])

stored-IsSettled :
    (r : RecvState) (p : Packet) (t : Time) (out : Stored)
    → store_data r.rx p ≡ out
    → IsSettled (handle_data r p t)
unfolding handle_data
stored-IsSettled r p t Data.panicked e = rw (e, handle_data) tt
stored-IsSettled r p t (Data.discarded rx) e = rw (e, handle_data) tt
stored-IsSettled r p t (Data.stored rx) e = rw (e, handle_data) tt
stored-IsSettled r p t (Data.advanced rx) e = rw (e, handle_data) tt

tracked-IsSettled :
    (r : RecvState) (p : Packet) (t wall : Time) (out : Option RxFlow)
    → track r.flow p ≡ out
    → IsSettled (accept_pack r p t wall)
unfolding accept_pack
tracked-IsSettled r p t wall none e = rw (e, accept_pack) tt
tracked-IsSettled r p t wall (some f) e =
    rw (e, accept_pack)
      (if_elim IsSettled (is_data p.tcp_event) _ _ (stored-IsSettled _ p t _ refl)
        (two_rounds _ p.tcp_event p t wall))

handle_pack-IsSettled :
    (blake2b : List ℕ → List ℕ) (r : RecvState) (p : Packet) (t wall : Time) (taken : Bool)
    → IsSettled (handle_pack blake2b r p t wall taken)
unfolding handle_pack
handle_pack-IsSettled blake2b r p t wall taken =
    if_elim IsSettled _ (running _) _ tt (tracked-IsSettled _ _ t wall _ refl)

-- For any packet in any state, the loop over the events that two rounds are allowed for does not run out
-- of rounds: there is no event left when it stops, so that it ends in a receiver that is running or has
-- ended, or in the panic of an action; with more rounds allowed the result is the same; and so the case
-- of the receive loop that handles a packet never stops for want of rounds.
pub handle_info-settles :
    (blake2b : List ℕ → List ℕ) (k : ℕ) (r : RecvState) (e : TcpEvent) (p : Packet) (t wall : Time)
    (taken : Bool)
    → IsSettled (handle_info 2 r e p t wall)
      × (handle_info (suc (suc k)) r e p t wall ≡ handle_info 2 r e p t wall)
      × IsSettled (handle_pack blake2b r p t wall taken)
handle_info-settles blake2b k r e p t wall taken = (
  two_rounds r e p t wall,
  more_rounds k r e p t wall,
  handle_pack-IsSettled blake2b r p t wall taken,
)
