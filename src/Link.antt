-- ===== src/Link.antt =====
-- sender.go, recv.go, simnet.go: a sender and the receiver at the other end, with a network between
-- them that loses, repeats, delays and reorders what it carries: any packet that was ever handed to
-- `Net.Send` may arrive at any time, any number of times, or never. What comes back to the sender is
-- arbitrary.
pub mod Stream
pub mod Sent
pub mod Acked
pub mod Unacked
pub mod Ledger
pub mod Bytes
use go_sliding_window.Base.{ℕ, suc, ◌≡◌, Bool, true, false, Option, some, String, [], get_elem?}
use go_sliding_window.Base.Int.{ℤ, negsuc}
use go_sliding_window.Tcp.{TcpState, is_data}
use go_sliding_window.Packet.{Packet, Time, Duration}
use go_sliding_window.Flow.{Flow}
use go_sliding_window.Externals.{Externals}
use go_sliding_window.Sender.{SenderState, new_sender_state}
use go_sliding_window.Sender.Send.{accepts_send, do_orig_data_send, regular_wakeup}
use go_sliding_window.Sender.Control.{do_keep_alive, do_send_closing, send_ack_pack, do_send_syn}
use go_sliding_window.Sender.Receive.{got_pack}
use go_sliding_window.Recv.{RecvState, SndLink, ConnectReq, new_recv_state}
use go_sliding_window.Recv.Handle.{Handled, handle_pack, handle_connect}
use go_sliding_window.Recv.Handle
use go_sliding_window.Recv.Retry.{retry_check}
use go_sliding_window.Recv.Consume.{deliver_to_consumer, ReadRequest, fill_as_much_as_possible}

module _ (x : Externals) where
  open x use {blake2b}

  pub record World : Type 0 where
    pub sender : SenderState x
    pub receiver : RecvState

  -- What can happen, one case of one of the two loops after the other. The number counts the first
  -- sends. `size` is the receiver's window.
  pub data Run (size : ℕ) : ℕ → World → Type 0 where
    start :
        (window : ℕ) (timeout : Duration) (inbox dest : String) (interval : Duration) (failed : ℤ)
        (nonce : String) (now : Time) (bytes : ℤ) (inbox' dest' nonce' : String) (snd : SndLink)
        → Run size 0 (record {
          sender = new_sender_state x window timeout inbox dest interval failed nonce now;
          receiver = new_recv_state size bytes inbox' dest' nonce' snd;
        })
    push :
        {n : ℕ} {u : World} (p : Packet) (now : Time) (ok : Bool)
        → Run size n u
        → accepts_send x u.sender ≡ true
        → Run size (suc n) (record u { sender = (do_orig_data_send x u.sender p now ok).0 })
    wake :
        {n : ℕ} {u : World} (now : Time) (clk : ℕ → Time) (ok : ℕ → Bool) (s : SenderState x)
        → Run size n u
        → regular_wakeup x u.sender now clk ok ≡ some s
        → Run size n (record u { sender = s })
    hear_pack :
        {n : ℕ} {u : World} (a : Packet) (now : Time) (s : SenderState x)
        → Run size n u
        → got_pack x u.sender a now ≡ some s
        → Run size n (record u { sender = s })
    keep_alive :
        {n : ℕ} {u : World} (state : TcpState) (since : Duration) (now : Time) (ok : Bool)
        → Run size n u
        → Run size n (record u { sender = do_keep_alive x u.sender state since now ok })
    closing :
        {n : ℕ} {u : World} (now : Time) (ok : Bool)
        → Run size n u
        → Run size n (record u { sender = do_send_closing x u.sender now ok })
    -- The sender's own receiver writes to what the two share: the flow, and the last frame that its
    -- application has consumed.
    share :
        {n : ℕ} {u : World} (flow : Flow) (consumed : ℤ)
        → Run size n u
        → Run size n (record u {
          sender = record (u.sender) { flow_ct = flow; recv_last_frame_client_consumed = consumed };
        })
    -- The acknowledgements of the sender's own receiver have negative numbers and carry no data.
    acknowledge :
        {n : ℕ} {u : World} (j : ℕ) (ack : Packet) (ok : Bool)
        → Run size n u
        → ack.seq_num ≡ negsuc j
        → is_data ack.tcp_event ≡ false
        → Run size n (record u { sender = (send_ack_pack x u.sender ack ok).0 })
    connect_out :
        {n : ℕ} {u : World} (j : ℕ) (cr : ConnectReq) (syn : Packet) (ok : Bool)
        → Run size n u
        → syn.seq_num ≡ negsuc j
        → is_data syn.tcp_event ≡ false
        → Run size n (record u { sender = (do_send_syn x u.sender cr syn ok).0 })
    arrive :
        {n : ℕ} {u : World} (i : ℕ) (p : Packet) (now wall : Time) (taken : Bool) (r : RecvState)
        → Run size n u
        → get_elem? u.sender.net i ≡ some p
        → handle_pack blake2b u.receiver p now wall taken ≡ Handle.running r
        → Run size n (record u { receiver = r })
    retry :
        {n : ℕ} {u : World} (now clk : Time) (r : RecvState)
        → Run size n u
        → retry_check u.receiver now clk ≡ some r
        → Run size n (record u { receiver = r })
    connect_in :
        {n : ℕ} {u : World} (cr : ConnectReq)
        → Run size n u
        → Run size n (record u { receiver = (handle_connect u.receiver cr).0 })
    consume :
        {n : ℕ} {u : World} (now : Time)
        → Run size n u
        → Run size n (record u { receiver = (deliver_to_consumer u.receiver now).0 })
    read :
        {n : ℕ} {u : World} (room : ℕ) (now : Time)
        → Run size n u
        → Run size n (record u {
          receiver = (fill_as_much_as_possible u.receiver (record { cap = room; got = [] }) now).0;
        })
