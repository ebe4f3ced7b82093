-- ===== src/Sender/Control.antt =====
-- sender.go: the packets without data: keep-alives, the end of the session, acknowledgements and SYN.
use go_sliding_window.Base.{Bool, true, ◌&&◌, ◌||◌, not, some, str_eq, if◌then◌else◌}
use go_sliding_window.Base.Int.{ℤ, negsuc, ltb_ℤ}
use go_sliding_window.Tcp.{TcpState, event_keep_alive, event_fin}
use go_sliding_window.Packet.{Packet, Time, Duration, zero_packet}
use go_sliding_window.Externals.{Externals}
use go_sliding_window.Rtt.{get_estimate, get_sd}
use go_sliding_window.Sender.{SenderState}
use go_sliding_window.Recv.{ConnectReq}
use go_sliding_window.Sender.Send.{query_flow, put_net}

module _ (x : Externals) where
  -- The fields that `doKeepAlive` and `doSendClosing` have in common.
  abbrev pub control : SenderState x → Time → ℤ → Packet
  control s now flag = record zero_packet {
    from = s.inbox;
    dest = s.dest;
    seq_num = flag;
    seq_retry = flag;
    data_send_tm = now;
    ack_retry = flag;
    avail_reader_bytes_cap = (query_flow s.flow_ct).avail_reader_bytes_cap;
    avail_reader_msg_cap = (query_flow s.flow_ct).avail_reader_msg_cap;
    from_rtt_est_nsec = get_estimate x s.rtt;
    from_rtt_sd_nsec = get_sd x s.rtt;
    from_rtt_n = s.rtt.n;
    from_sess_nonce = s.local_sess_nonce;
    dest_sess_nonce = s.remote_sess_nonce;
  }

  -- `doKeepAlive`; `since` is `time.Since(s.LastSendTime)`, which reads the machine's clock, not `s.Clk`.
  -- The two early returns: no destination yet, or a send not long ago.
  unfoldable pub skips_keep_alive : SenderState x → Duration → Bool
  skips_keep_alive s since =
      str_eq s.dest "" || str_eq s.remote_sess_nonce "" || ltb_ℤ since s.keep_alive_interval

  unfoldable pub send_keep_alive : SenderState x → TcpState → Time → Bool → SenderState x
  send_keep_alive s state now ok =
      let base = control s now (negsuc 776) in
      let kap = record base {
        ack_num = s.recv_last_frame_client_consumed;
        tcp_event = event_keep_alive;
        from_tcp_state = state;
      } in
      record s { flow_ct = query_flow s.flow_ct; last_send_time = now; net = put_net ok kap s.net }

  unfoldable pub do_keep_alive : SenderState x → TcpState → Duration → Time → Bool → SenderState x
  unfolding skips_keep_alive send_keep_alive
  do_keep_alive s state since now ok =
      if skips_keep_alive s since then s else send_keep_alive s state now ok

  unfoldable pub do_send_closing : SenderState x → Time → Bool → SenderState x
  do_send_closing s now ok =
      let base = control s now (negsuc 887) in
      let kap = record base { tcp_event = event_fin } in
      record s { flow_ct = query_flow s.flow_ct; last_send_time = now; net = put_net ok kap s.net }

  -- The case `SendAck`: the acknowledgement goes out past flow control. The flag says that the
  -- sender goes on: a failed send ends it.
  unfoldable pub send_ack_pack : SenderState x → Packet → Bool → SenderState x × Bool
  send_ack_pack s ack ok =
      let p = record ack {
        from_rtt_est_nsec = get_estimate x s.rtt;
        from_rtt_sd_nsec = get_sd x s.rtt;
        from_rtt_n = s.rtt.n;
      } in
      (
        record s {
          remote_sess_nonce =
              if str_eq s.remote_sess_nonce "" && not (str_eq ack.dest_sess_nonce "")
              then ack.dest_sess_nonce
              else s.remote_sess_nonce;
          net = put_net ok p s.net;
        },
        ok,
      )

  -- The case `sendSynCh`: the SYN goes out, and a failed send ends the request.
  unfoldable pub do_send_syn :
      SenderState x → ConnectReq → Packet → Bool → SenderState x × ConnectReq
  do_send_syn s cr syn ok = (
    record s { net = put_net ok syn s.net },
    if ok then cr else record cr { err = some "send failed"; done = true },
  )
