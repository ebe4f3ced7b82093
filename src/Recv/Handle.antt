-- ===== src/Recv/Handle.antt =====
-- recv.go: the cases of the receive loop that a packet, a connect request or the application's
-- closing starts. Channel operations succeed at once: a request to stop ends the loop between two
-- cases. The test instrumentation (`r.testing`) is off. The sends on `GotPack` are collected.
use go_sliding_window.Base.{
  ℕ, zero, suc, Bool, true, false, ◌&&◌, ◌||◌, not, Option, none, some, List, [], ◌∷◌, ◌++◌, length,
  String, str_eq, ltb, bytes_eq, if◌then◌else◌,
}
use go_sliding_window.Base.Int.{pos, negsuc, ltb_ℤ, leb_ℤ}
use go_sliding_window.Tcp.{
  fresh, closed, listen, syn_received, syn_sent, established, state_int, TcpEvent, event_nil,
  event_syn, event_data_ack, update_tcp, is_data,
}
use go_sliding_window.Packet.{Packet, Time, zero_packet, copy_packet_sans_data}
use go_sliding_window.Recv.{RecvState, Rx, RxFlow, RxConn, ConnectReq}
use go_sliding_window.Recv.Ack.{update_control, ack}
use go_sliding_window.Recv.Action.{ActionResult, do_tcp_action}
use go_sliding_window.Recv.Action
use go_sliding_window.Recv.Retry.{setup_retry, state_eq}
use go_sliding_window.Recv.Data.{Stored, discarded, stored, advanced, store_data}
use go_sliding_window.Recv.Data

-- What the loop does next. `still_going`: the rounds that are allowed are over and there is another
-- event (`Recv.Events` shows that this does not happen).
pub data Handled : Type 0 where
  panicked still_going : Handled
  running : RecvState → Handled
  ended : RecvState → Handled

abbrev pub is_syn : TcpEvent → Bool
is_syn event_syn = true
is_syn _ = false

abbrev pub is_nil : TcpEvent → Bool
is_nil event_nil = true
is_nil _ = false

-- The first remote whose SYN arrives is locked onto.
unfoldable pub lock_remote : RxConn → Packet → RxConn
lock_remote c pack =
    if is_syn pack.tcp_event
      && (state_eq c.tcp_state fresh || state_eq c.tcp_state listen)
      && (str_eq c.remote_inbox "" && not (str_eq pack.from ""))
    then record c { remote_inbox = pack.from; remote_sess_nonce = pack.from_sess_nonce }
    else c

-- The packet is from another remote, or of another session.
unfoldable pub is_foreign : RxConn → Packet → Bool
is_foreign c pack =
    (not (str_eq c.remote_inbox "") && not (str_eq pack.from c.remote_inbox))
    || ((not (str_eq pack.dest_sess_nonce "") || leb_ℤ (pos 5) (state_int c.tcp_state))
        && not (str_eq pack.dest_sess_nonce c.local_sess_nonce))
    || (not (str_eq c.remote_sess_nonce "")
        && not (str_eq pack.from_sess_nonce c.remote_sess_nonce))

-- Data with a wrong checksum.
unfoldable pub is_corrupt : (List ℕ → List ℕ) → Packet → Bool
is_corrupt blake2b pack =
    ltb 0 (length pack.payload) && not (bytes_eq pack.blake2b_checksum (blake2b pack.payload))

-- `none` is a panic: the byte counts do not grow with the sequence numbers.
unfoldable pub track : RxFlow → Packet → Option RxFlow
track f pack =
    let later = ltb_ℤ f.largest_seqno_rcvd pack.seq_num in
    if later && ltb_ℤ pack.cumul_bytes_transmitted f.max_cumul_bytes_trans
    then none
    else (let f' =
          if later
          then record f {
            largest_seqno_rcvd = pack.seq_num;
            max_cumul_bytes_trans = pack.cumul_bytes_transmitted;
          }
          else f in
        if ltb_ℤ f'.max_cumul_bytes_trans pack.cumul_bytes_transmitted then none else some f')

-- `now` is the reading of `r.Clk`, `wall` that of the machine's clock.
-- One round of `doNextEvent`: the state changes, a retry is set up, and the action is done.
unfoldable pub info_round : RecvState → TcpEvent → Packet → Time → Time → ActionResult
info_round r event pack now wall =
    let (post, act) = update_tcp r.conn.tcp_state event pack.from_tcp_state in
    let r1 = record r { conn = record (r.conn) { tcp_state = post } } in
    do_tcp_action act (setup_retry r1 r.conn.tcp_state post pack act wall) (some pack) now

abbrev pub after_events : RecvState → Handled
after_events r = if state_eq r.conn.tcp_state closed then ended r else running r

-- After the action: another round for the event that it returns, if it returns one.
abbrev pub next_round : (RecvState → TcpEvent → Handled) → ActionResult → Handled
next_round go Action.panicked = panicked
next_round go (Action.done r next) =
    let rest = go r next in if is_nil next then after_events r else rest

-- The rounds, on fuel; two are enough (`Recv.Events`).
unfoldable pub handle_info : ℕ → RecvState → TcpEvent → Packet → Time → Time → Handled
handle_info zero r event pack now wall = still_going
handle_info (suc fuel) r event pack now wall =
    next_round (λ r' next. handle_info fuel r' next pack now wall)
      (info_round r event pack now wall)

abbrev pub set_rx : RecvState → Rx → RecvState
set_rx r rx = record r { rx = rx }

-- A data packet; outside the window it is acknowledged all the same.
unfoldable pub handle_data : RecvState → Packet → Time → Handled
handle_data r pack now = elim (store_data r.rx pack) [
  | Data.panicked ↦ panicked
  | Data.discarded rx ↦
      running (ack (set_rx r rx) r.flow.last_frame_client_consumed (some pack) event_data_ack now)
  | Data.stored rx ↦ running (set_rx r rx)
  | Data.advanced rx ↦ running (record r {
    rx = rx;
    snd = record (r.snd) { recv_last_frame_client_consumed = r.flow.last_frame_client_consumed };
  })
]

abbrev pub to_asap : Bool → Packet → Option (List Packet) → Option (List Packet)
to_asap taken pack none = none
to_asap taken pack (some q) = some (if taken then q ++ pack ∷ [] else q)

-- What follows the guards: control information goes to the sender, then data or an event.
unfoldable pub accept_pack : RecvState → Packet → Time → Time → Handled
accept_pack r0 pack now wall = elim (track r0.flow pack) [
  | none ↦ panicked
  | some f ↦
      let r1 = update_control (record r0 { flow = f }) pack in
      let r = record r1 {
        snd = record (r1.snd) { got_pack = r1.snd.got_pack ++ copy_packet_sans_data pack ∷ [] };
      } in
      if is_data pack.tcp_event
      then handle_data r pack now
      else handle_info 2 r pack.tcp_event pack now wall
]

-- The case `MsgRecv`. `taken` says that the ASAP helper takes the packet within its 100 ms.
unfoldable pub handle_pack : (List ℕ → List ℕ) → RecvState → Packet → Time → Time → Bool → Handled
unfolding lock_remote is_foreign is_corrupt
handle_pack blake2b r0 pack0 now wall taken =
    let r = record r0 { conn = lock_remote r0.conn pack0 } in
    if is_foreign r.conn pack0 || is_corrupt blake2b pack0
    then running r
    else (let pack = record pack0 { arrived_at_dest_tm = now } in
        accept_pack (record r { conn = record (r.conn) { asap = to_asap taken pack r.conn.asap } })
          pack now wall)

-- The case `ConnectCh`. The second component is the request sent on over `sendSynCh`.
abbrev pub finish : RecvState → ConnectReq → Option String → RecvState
finish r cr err = record r {
  conn = record (r.conn) {
    finished = r.conn.finished ++ record cr { err = err; done = true } ∷ [];
  };
}

unfoldable pub syn_packet : RecvState → ConnectReq → Packet
syn_packet r cr = record zero_packet {
  from = r.conn.inbox;
  from_sess_nonce = r.conn.local_sess_nonce;
  dest = cr.dest_inbox;
  seq_num = negsuc 97;
  seq_retry = negsuc 97;
  tcp_event = event_syn;
}

unfoldable pub open_connection : RecvState → ConnectReq → RecvState × Option ConnectReq
unfolding syn_packet
open_connection r cr =
    if state_eq r.conn.tcp_state listen || state_eq r.conn.tcp_state syn_sent
    then (let cr' = record cr { syn_pack = some (syn_packet r cr) } in
        (
          record r { conn = record (r.conn) { conn_req_pending = some cr'; tcp_state = syn_sent } },
          some cr',
        ))
    else (if state_eq r.conn.tcp_state established || state_eq r.conn.tcp_state syn_received
        then (finish r cr cr.err, none)
        else (finish r cr (some "connect request when receiver was not in Listen state"), none))

unfoldable pub handle_connect : RecvState → ConnectReq → RecvState × Option ConnectReq
unfolding open_connection
handle_connect r cr =
    if str_eq r.conn.remote_inbox ""
    then open_connection (record r { conn = record (r.conn) { remote_inbox = cr.dest_inbox } }) cr
    else (if str_eq r.conn.remote_inbox cr.dest_inbox
        then open_connection r cr
        else (finish r cr (some "error: receiver already locked onto remote"), none))
