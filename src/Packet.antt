-- ===== src/Packet.antt =====
-- swp.go, recv.go, sender.go: the packet and the slots of the two sliding windows.
-- A `time.Time` is the integer of its nanoseconds, a `time.Duration` an `int64` of them. A pointer
-- that is only compared with nil and handed on (`CliAcked`, `Accounting`) is an optional identity.
use go_sliding_window.Base.{
  ℕ, suc, ◌-◌, Bool, false, Option, none, List, [], String, ltb, if◌then◌else◌,
}
use go_sliding_window.Base.Int.{ℤ, pos, negsuc, pos_part, neg_part, two_63, ◌-ℤ◌}
use go_sliding_window.Tcp.{TcpEvent, event_nil, TcpState, fresh}

abbrev pub Time : Type 0
Time = ℤ

abbrev pub Duration : Type 0
Duration = ℤ

-- `t.Sub(u)` saturates at the ends of `int64`; `t.Add(d)` and `t.After(u)` are exact.
unfoldable pub time_sub : Time → Time → Duration
unfolding ◌-ℤ◌
time_sub t u =
    let d = t -ℤ u in
    if ltb two_63 (suc (pos_part d))
    then pos (two_63 - 1)
    else (if ltb two_63 (neg_part d) then negsuc (two_63 - 1) else d)

pub record Packet : Type 0 where
  pub from : String
  pub dest : String
  pub from_sess_nonce : String
  pub dest_sess_nonce : String
  pub arrived_at_dest_tm : Time
  pub data_send_tm : Time
  pub seq_num : ℤ
  pub seq_retry : ℤ
  pub ack_num : ℤ
  pub ack_retry : ℤ
  pub ack_reply_tm : Time
  pub tcp_event : TcpEvent
  pub from_tcp_state : TcpState
  pub avail_reader_bytes_cap : ℤ
  pub avail_reader_msg_cap : ℤ
  pub from_rtt_est_nsec : ℤ
  pub from_rtt_sd_nsec : ℤ
  pub from_rtt_n : ℤ
  pub cumul_bytes_transmitted : ℤ
  pub payload : List ℕ  -- `Data`
  pub data_offset : ℕ
  pub blake2b_checksum : List ℕ
  pub cli_acked : Option ℕ
  pub accounting : Option ℕ

-- The zero value, on which the composite literals of the source build. (The zero time stands for
-- the instant that no field has been given yet.)
abbrev pub zero_packet : Packet
zero_packet = record {
  from = "";
  dest = "";
  from_sess_nonce = "";
  dest_sess_nonce = "";
  arrived_at_dest_tm = pos 0;
  data_send_tm = pos 0;
  seq_num = pos 0;
  seq_retry = pos 0;
  ack_num = pos 0;
  ack_retry = pos 0;
  ack_reply_tm = pos 0;
  tcp_event = event_nil;
  from_tcp_state = fresh;
  avail_reader_bytes_cap = pos 0;
  avail_reader_msg_cap = pos 0;
  from_rtt_est_nsec = pos 0;
  from_rtt_sd_nsec = pos 0;
  from_rtt_n = pos 0;
  cumul_bytes_transmitted = pos 0;
  payload = [];
  data_offset = 0;
  blake2b_checksum = [];
  cli_acked = none;
  accounting = none;
}

unfoldable pub copy_packet_sans_data : Packet → Packet
copy_packet_sans_data p = record p { payload = [] }

-- The receiver's slot. `Pack` may be nil.
pub record RxqSlot : Type 0 where
  pub received : Bool
  pub pack : Option Packet

abbrev pub empty_slot : RxqSlot
empty_slot = record { received = false; pack = none }

-- The sender's slot, once a packet is in it.
pub record TxqSlot : Type 0 where
  pub orig_send_time : Time
  pub retry_deadline : Time
  pub retry_dur : Duration
  pub pack : Packet
