-- ===== src/Recv/Ack.antt =====
-- recv.go: `UpdateControl` and `ack`.
use go_sliding_window.Base.{
  Option, none, some, List, [], ◌∷◌, ◌++◌, length, drop, ◌==◌, if◌then◌else◌,
}
use go_sliding_window.Base.Int.{ℤ, pos, negsuc, add_64, sub_64}
use go_sliding_window.Tcp.{TcpEvent}
use go_sliding_window.Packet.{Packet, Time, zero_packet}
use go_sliding_window.Flow.{update_flow}
use go_sliding_window.Recv.{RecvState, RxFlow, send_ack_cap}

-- `r.RecvWindowSize - (r.LargestSeqnoRcvd - r.LastMsgConsumed)`, and the same for bytes.
unfoldable pub avail_msg_cap : ℤ → RxFlow → ℤ
avail_msg_cap size f = sub_64 size (sub_64 f.largest_seqno_rcvd f.last_msg_consumed)

unfoldable pub avail_bytes_cap : RxFlow → ℤ
avail_bytes_cap f =
    sub_64 f.recv_window_size_bytes
      (sub_64 f.max_cumul_bytes_trans (add_64 f.last_byte_consumed (pos 1)))

unfoldable pub update_control : RecvState → Packet → RecvState
unfolding avail_msg_cap avail_bytes_cap
update_control r pack =
    let m = avail_msg_cap r.rx.recv_window_size r.flow in
    let b = avail_bytes_cap r.flow in
    record r {
      flow = record (r.flow) { last_avail_reader_msg_cap = m; last_avail_reader_bytes_cap = b };
      snd = record (r.snd) { flow_ct = update_flow r.snd.flow_ct m b (some pack) };
    }

-- The packet that `ack` sends; without a packet to answer, `AckRetry` is -1.
unfoldable pub ack_packet : RecvState → ℤ → Option Packet → TcpEvent → Time → Packet
ack_packet r seqno pack event now = record zero_packet {
  from = r.conn.inbox;
  from_sess_nonce = r.conn.local_sess_nonce;
  dest = r.conn.remote_inbox;
  dest_sess_nonce = r.conn.remote_sess_nonce;
  seq_num = negsuc 98;
  seq_retry = negsuc 98;
  ack_num = seqno;
  tcp_event = event;
  avail_reader_bytes_cap = r.flow.last_avail_reader_bytes_cap;
  avail_reader_msg_cap = r.flow.last_avail_reader_msg_cap;
  ack_retry = elim pack [ none ↦ negsuc 0 | some p ↦ p.seq_retry ];
  ack_reply_tm = now;
  data_send_tm = elim pack [ none ↦ now | some p ↦ p.data_send_tm ];
}

-- Into a full channel goes the new acknowledgement, and the oldest one is dropped.
unfoldable pub enqueue_ack : Packet → List Packet → List Packet
enqueue_ack a q = (if length q == send_ack_cap then drop 1 q else q) ++ a ∷ []

abbrev pub control_if : RecvState → Option Packet → RecvState
control_if r none = r
control_if r (some p) = update_control r p

unfoldable pub ack : RecvState → ℤ → Option Packet → TcpEvent → Time → RecvState
unfolding ack_packet enqueue_ack
ack r0 seqno pack event now =
    let r = control_if r0 pack in
    record r {
      snd = record (r.snd) {
        send_ack = enqueue_ack (ack_packet r seqno pack event now) r.snd.send_ack;
      };
    }
