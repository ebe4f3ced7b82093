-- ===== src/Recv.antt =====
-- recv.go: the receiver's state, in parts. `RecvState` embeds them.
pub mod Order
pub mod Data
pub mod Store
pub mod Slots
pub mod Frames
pub mod Receive
pub mod Stream
pub mod Ack
pub mod Consume
pub mod Action
pub mod Retry
pub mod Handle
pub mod Untouched
pub mod Deliver
pub mod Loop
pub mod SameWindow
pub mod Events
pub mod Read
pub mod Moves
pub mod Attempts
pub mod Room
use go_sliding_window.Base.{
  ℕ, ◌+◌, Bool, false, true, Option, none, some, List, [], String, replicate,
}
use go_sliding_window.Base.Int.{ℤ, pos, negsuc, pos_part}
use go_sliding_window.Tcp.{TcpState, listen, fresh, TcpAction, no_action}
use go_sliding_window.Packet.{Packet, Time, Duration, RxqSlot, empty_slot}
use go_sliding_window.Flow.{Flow}

-- The sliding window proper.
pub record Rx : Type 0 where
  pub next_frame_expected : ℤ
  pub recv_window_size : ℤ
  pub rxq : List RxqSlot
  pub ready_for_delivery : List Packet
  pub recv_history : List Packet
  pub rcvd_but_not_consumed : List (ℤ × Packet)  -- a map: no key stands twice
  pub discard_count : ℤ

-- What flow control and acknowledgements are computed from.
pub record RxFlow : Type 0 where
  pub recv_window_size_bytes : ℤ
  pub last_frame_client_consumed : ℤ
  pub last_msg_consumed : ℤ
  pub largest_seqno_rcvd : ℤ
  pub max_cumul_bytes_trans : ℤ
  pub last_byte_consumed : ℤ
  pub last_avail_reader_bytes_cap : ℤ
  pub last_avail_reader_msg_cap : ℤ

-- `ConnectReq`: `done` says that the channel `Done` is closed.
pub record ConnectReq : Type 0 where
  pub dest_inbox : String
  pub err : Option String
  pub remote_nonce : String
  pub done : Bool
  pub syn_pack : Option Packet

-- retry.go: `tcpRetryLogic`.
pub record TcpRetryLogic : Type 0 where
  pub cur_state : TcpState
  pub in_use : Bool
  pub entered_cur_tcp_state_at : Time
  pub last_attempt_at : Time
  pub first_state_action : TcpAction
  pub attempt_count : ℕ
  pub causal_packet : Option Packet
  pub timeout : Duration

-- The connection. `retry_timer_ch` is the duration that a running timer was started with;
-- `app_close_callback` says that a callback is set, and `app_closes` counts its calls.
-- `finished` collects the connect requests whose `Done` the receiver has closed.
pub record RxConn : Type 0 where
  pub inbox : String
  pub remote_inbox : String
  pub local_sess_nonce : String
  pub remote_sess_nonce : String
  pub tcp_state : TcpState
  pub retry : TcpRetryLogic
  pub retry_timer_ch : Option Duration
  pub conn_req_pending : Option ConnectReq
  pub finished : List ConnectReq
  pub app_close_callback : Bool
  pub app_closes : ℕ
  pub req_stop : Bool
  pub asap : Option (List Packet)  -- the queue of the `AsapHelper`, if one is set

-- What the receiver shares with the sender `r.snd`, or sends it over a channel.
pub record SndLink : Type 0 where
  pub flow_ct : Flow
  pub send_ack : List Packet  -- the buffered channel `SendAck`, oldest first
  pub got_pack : List Packet  -- what was sent on `GotPack`, oldest first
  pub recv_last_frame_client_consumed : ℤ

pub record RecvState : Type 0 where
  pub rx : Rx
  pub flow : RxFlow
  pub conn : RxConn
  pub snd : SndLink

-- The capacity of the channel `SendAck`.
abbrev pub send_ack_cap : ℕ
send_ack_cap = 5

unfoldable pub new_rx : ℕ → Rx
new_rx size = record {
  next_frame_expected = pos 0;
  recv_window_size = pos size;
  rxq = replicate size empty_slot;
  ready_for_delivery = [];
  recv_history = [];
  rcvd_but_not_consumed = [];
  discard_count = pos 0;
}

unfoldable pub new_rx_flow : ℤ → RxFlow
new_rx_flow bytes = record {
  recv_window_size_bytes = bytes;
  last_frame_client_consumed = pos 0;
  last_msg_consumed = negsuc 0;
  largest_seqno_rcvd = negsuc 0;
  max_cumul_bytes_trans = pos 0;
  last_byte_consumed = negsuc 0;
  last_avail_reader_bytes_cap = pos 0;
  last_avail_reader_msg_cap = pos 0;
}

abbrev pub no_retry : TcpRetryLogic
no_retry = record {
  cur_state = fresh;
  in_use = false;
  entered_cur_tcp_state_at = pos 0;
  last_attempt_at = pos 0;
  first_state_action = no_action;
  attempt_count = 0;
  causal_packet = none;
  timeout = pos 0;
}

-- `NewRecvState`. A window of fewer than one message is refused by `NewSession`.
unfoldable pub new_recv_state : ℕ → ℤ → String → String → String → SndLink → RecvState
unfolding new_rx new_rx_flow
new_recv_state size bytes inbox dest nonce snd = record {
  rx = new_rx size;
  flow = new_rx_flow bytes;
  conn = record {
    inbox = inbox;
    remote_inbox = dest;
    local_sess_nonce = nonce;
    remote_sess_nonce = "";
    tcp_state = listen;
    retry = no_retry;
    retry_timer_ch = none;
    conn_req_pending = none;
    finished = [];
    app_close_callback = false;
    app_closes = 0;
    req_stop = false;
    asap = none;
  };
  snd = snd;
}
