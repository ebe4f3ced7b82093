-- ===== src/Tests/Data.antt =====
-- Packets and states that the tests share.
use go_sliding_window.Base.{ℕ, List, [], ◌∷◌}
use go_sliding_window.Base.Int.{pos}
use go_sliding_window.Tcp.{event_data}
use go_sliding_window.Packet.{Packet, zero_packet}
use go_sliding_window.Recv.{SndLink, RecvState}
use go_sliding_window.Recv.Handle.{Handled, panicked, still_going, running, ended}
use go_sliding_window.Sender.{initial_flow}

abbrev pub hello : Packet
hello = record zero_packet {
  from = "A";
  dest = "B";
  tcp_event = event_data;
  payload = 104 ∷ 105 ∷ [];
}

-- A data packet with a number, and its bytes.
abbrev pub frame : ℕ → List ℕ → Packet
frame k bytes = record zero_packet {
  from = "A";
  dest = "B";
  seq_num = pos k;
  tcp_event = event_data;
  payload = bytes;
}

abbrev pub fresh_link : SndLink
fresh_link = record {
  flow_ct = initial_flow;
  send_ack = [];
  got_pack = [];
  recv_last_frame_client_consumed = pos 0;
}

-- The receiver after a case of its loop; a panic leaves the one before.
abbrev pub receiver_after : RecvState → Handled → RecvState
receiver_after r panicked = r
receiver_after r still_going = r
receiver_after r (running s) = s
receiver_after r (ended s) = s
