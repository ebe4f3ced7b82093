-- ===== src/Recv/Room.antt =====
-- recv.go: the channel of acknowledgements (`SendAck`) never holds more than its capacity.
use go_sliding_window.Base.{
  ℕ, zero, suc, Bool, ◌≤◌, ◌≡◌, refl, inl, inr, ◌||◌, Option, none, some, List, [], ◌∷◌, length,
  drop, ◌==◌, ==_iff, false, Bool-cases, if_elim, subst, sym, length-append, arith,
}
use go_sliding_window.Base.Int.{ℤ}
use go_sliding_window.Tcp.{
  TcpEvent, TcpAction, no_action, send_syn_ack, send_estab_ack, TcpState, closed, is_data,
}
use go_sliding_window.Packet.{Packet, Time}
use go_sliding_window.Recv.{RecvState, RxFlow, send_ack_cap}
use go_sliding_window.Recv.Ack.{update_control, ack, enqueue_ack}
use go_sliding_window.Recv.Action.{ActionResult, panicked, done, do_tcp_action}
use go_sliding_window.Recv.Retry.{state_eq, setup_retry}
use go_sliding_window.Recv.Data.{Stored, store_data}
use go_sliding_window.Recv.Data
use go_sliding_window.Recv.Handle.{
  Handled, handle_data, handle_info, next_round, after_events, is_nil, info_round, accept_pack,
  handle_pack, track, lock_remote, is_foreign, is_corrupt,
}
use go_sliding_window.Recv.Handle

-- The queue is within the capacity of the channel.
abbrev pub HasRoom : RecvState → Type 0
HasRoom r = length r.snd.send_ack ≤ send_ack_cap

abbrev pub HandledHasRoom : Handled → Type 0
HandledHasRoom Handle.panicked = Unit
HandledHasRoom Handle.still_going = Unit
HandledHasRoom (Handle.running r) = HasRoom r
HandledHasRoom (Handle.ended r) = HasRoom r

length-drop_1 : (q : List Packet) → length q ≡ 5 → length (drop 1 q) ≡ 4
length-drop_1 [] h = absurd (omega (arith, h))
length-drop_1 (x ∷ q) h = omega (arith, h)

below_five : (n : ℕ) → n ≤ 5 → (n == 5) ≡ false → n ≤ 4
below_five n h e =
    let not_five : ¬ (n ≡ 5) = λ q. let t = (==_iff n 5).1 q in absurd (cc) in
    omega (arith, h, not_five)

length-enqueue_ack :
    (a : Packet) (q : List Packet)
    → length q ≤ send_ack_cap
    → length (enqueue_ack a q) ≤ send_ack_cap
unfolding enqueue_ack
length-enqueue_ack a q h = elim (Bool-cases (length q == 5)) [
  | inl full ↦
      let five = (==_iff (length q) 5).0 full in
      rw (full, length-append (drop 1 q) (a ∷ []), length-drop_1 q five) (omega arith)
  | inr free ↦
      let few = below_five (length q) h free in
      rw (free, length-append q (a ∷ [])) (omega (arith, few))
]

ack-HasRoom :
    (r : RecvState) (n : ℤ) (p : Option Packet) (e : TcpEvent) (t : Time)
    → HasRoom r
    → HasRoom (ack r n p e t)
unfolding ack update_control
ack-HasRoom r n none e t h = length-enqueue_ack _ r.snd.send_ack h
ack-HasRoom r n (some p) e t h = length-enqueue_ack _ r.snd.send_ack h

setup_retry-snd :
    (r : RecvState) (pre post : TcpState) (p : Packet) (a : TcpAction) (t : Time)
    → (setup_retry r pre post p a t).snd ≡ r.snd
unfolding setup_retry
setup_retry-snd r pre post p a t = ground arith

action-HasRoom :
    (act : TcpAction) (r r' : RecvState) (p : Option Packet) (t : Time) (e : TcpEvent)
    → HasRoom r
    → do_tcp_action act r p t ≡ done r' e
    → HasRoom r'
unfolding do_tcp_action
action-HasRoom no_action r r' p t e w h = grind arith
action-HasRoom send_syn_ack r r' none t e w h = absurd (cc)
action-HasRoom send_syn_ack r r' (some p) t e w h = grind (arith, ack-HasRoom)
action-HasRoom send_estab_ack r r' none t e w h = absurd (ground arith)
action-HasRoom send_estab_ack r r' (some p) t e w h = grind (arith, ack-HasRoom)
action-HasRoom _ r r' p t e w h = grind (arith, ack-HasRoom)

info_round-HasRoom :
    (r r' : RecvState) (e next : TcpEvent) (p : Packet) (t wall : Time)
    → HasRoom r
    → info_round r e p t wall ≡ done r' next
    → HasRoom r'
unfolding info_round
info_round-HasRoom r r' e next p t wall w h =
    action-HasRoom _ _ r' (some p) t next
      (subst (λ s. length s.send_ack ≤ send_ack_cap) (sym (setup_retry-snd _ _ _ p _ wall)) w) h

after_events-HasRoom : (r : RecvState) → HasRoom r → HandledHasRoom (after_events r)
after_events-HasRoom r w =
    if_elim HandledHasRoom (state_eq r.conn.tcp_state closed) (Handle.ended r) (Handle.running r) w
      w

next_round-HasRoom :
    (go : RecvState → TcpEvent → Handled) (a : ActionResult)
    → ((r : RecvState) (e : TcpEvent) → HasRoom r → HandledHasRoom (go r e))
    → ((r : RecvState) (e : TcpEvent) → a ≡ done r e → HasRoom r)
    → HandledHasRoom (next_round go a)
next_round-HasRoom go panicked hg ha = tt
next_round-HasRoom go (done r e) hg ha =
    let w = ha r e refl in
    if_elim HandledHasRoom (is_nil e) (after_events r) (go r e) (after_events-HasRoom r w)
      (hg r e w)

handle_info-HasRoom :
    (fuel : ℕ) (r : RecvState) (e : TcpEvent) (p : Packet) (t wall : Time)
    → HasRoom r
    → HandledHasRoom (handle_info fuel r e p t wall)
unfolding handle_info
handle_info-HasRoom zero r e p t wall w = tt
handle_info-HasRoom (suc fuel) r e p t wall w =
    next_round-HasRoom _ (info_round r e p t wall)
      (λ r' next w'. handle_info-HasRoom fuel r' next p t wall w')
      (λ r' next q. info_round-HasRoom r r' e next p t wall w q)

stored-HasRoom :
    (r : RecvState) (p : Packet) (now : Time) (out : Stored)
    → store_data r.rx p ≡ out
    → HasRoom r
    → HandledHasRoom (handle_data r p now)
unfolding handle_data
stored-HasRoom r p now Data.panicked e w = rw (e, handle_data) tt
stored-HasRoom r p now (Data.discarded rx) e w =
    rw (e, handle_data) (ack-HasRoom _ _ (some p) _ now w)
stored-HasRoom r p now (Data.stored rx) e w = rw (e, handle_data) w
stored-HasRoom r p now (Data.advanced rx) e w = rw (e, handle_data) w

accept_pack-HasRoom :
    (r : RecvState) (p : Packet) (now wall : Time) (f : Option RxFlow)
    → track r.flow p ≡ f
    → HasRoom r
    → HandledHasRoom (accept_pack r p now wall)
unfolding accept_pack update_control
accept_pack-HasRoom r p now wall none e w = rw (e, accept_pack) tt
accept_pack-HasRoom r p now wall (some f) e w =
    rw (e, accept_pack)
      (if_elim HandledHasRoom (is_data p.tcp_event) (handle_data _ p now)
        (handle_info 2 _ p.tcp_event p now wall) (stored-HasRoom _ p now _ refl w)
        (handle_info-HasRoom 2 _ p.tcp_event p now wall w))

-- Whatever packet the receiver gets, foreign, corrupt, control or data, in any state whose queue of
-- acknowledgements is within its capacity of five: unless the step panics, the queue is within its
-- capacity afterwards.
pub handle_pack-HasRoom :
    (blake2b : List ℕ → List ℕ) (r : RecvState) (p : Packet) (now wall : Time) (taken : Bool)
    → HasRoom r
    → HandledHasRoom (handle_pack blake2b r p now wall taken)
unfolding handle_pack
handle_pack-HasRoom blake2b r p now wall taken w =
    if_elim HandledHasRoom (is_foreign (lock_remote r.conn p) p || is_corrupt blake2b p)
      (Handle.running _) _ w
      (accept_pack-HasRoom _ (record p { arrived_at_dest_tm = now }) now wall
        (track r.flow (record p { arrived_at_dest_tm = now })) refl w)
