-- ===== src/Sender.antt =====
-- sender.go: the sender's state and its constructor. What it hands to `Net.Send` is collected in
-- `net`; `acked` are the values that it broadcasts on `CliAcked`, and `accounts` the byte accounts
-- of the writers. The two trees point to the entries of `Txq`; a tree
-- gives the slots that are behind its pointers.
pub mod Estimate
pub mod Send
pub mod Control
pub mod Receive
pub mod Writes
pub mod History
pub mod Kept
pub mod KeptControl
pub mod Outstanding
pub mod SeqTree
pub mod Owned
pub mod Retried
pub mod Unacked
pub mod Deadline
pub mod Loop
use go_sliding_window.Base.{ℕ, Bool, false, Option, none, List, [], String, replicate}
use go_sliding_window.Base.Int.{ℤ, pos, negsuc}
use go_sliding_window.Packet.{Packet, Time, Duration, TxqSlot, zero_packet}
use go_sliding_window.Flow.{Flow}
use go_sliding_window.Externals.{Externals}
use go_sliding_window.Retree.{compare_seq_num, compare_retry_deadline}
use go_sliding_window.Rtt.{Rtt, new_rtt}

abbrev pub empty_txq_slot : TxqSlot
empty_txq_slot = record {
  orig_send_time = pos 0;
  retry_deadline = pos 0;
  retry_dur = pos 0;
  pack = zero_packet;
}

-- `FlowCtrl` as the constructor makes it.
abbrev pub initial_flow : Flow
initial_flow = record {
  reserved_byte_cap = pos 65536;
  reserved_msg_cap = pos 32;
  avail_reader_bytes_cap = pos 0;
  avail_reader_msg_cap = pos 0;
  remote_rtt_est_nsec = pos 0;
  remote_rtt_sd_nsec = pos 0;
  remote_rtt_n = pos 0;
  last_heard_from_downstream = pos 0;
}

module _ (x : Externals) where
  open x use {Tree, new_tree}

  pub record SenderState : Type 0 where
    pub inbox : String
    pub dest : String
    pub last_ack_rec : ℤ
    pub last_frame_sent : ℤ
    pub txq : List TxqSlot
    pub sender_window_size : ℤ
    pub timeout : Duration
    pub send_history : List Packet
    pub discard_count : ℤ
    pub last_send_time : Time
    pub last_heard_from_downstream : Time
    pub keep_alive_interval : Duration
    pub num_failed_keep_alives_before_closing : ℤ
    pub by_deadline : Tree  -- `SentButNotAckedByDeadline`
    pub by_seq_num : Tree  -- `SentButNotAckedBySeqNum`
    pub last_seen_avail_reader_bytes_cap : ℤ
    pub last_seen_avail_reader_msg_cap : ℤ
    pub flow_ct : Flow
    pub total_bytes_sent : ℤ
    pub rtt : Rtt x
    pub recv_last_frame_client_consumed : ℤ
    pub local_sess_nonce : String
    pub remote_sess_nonce : String
    pub net : List Packet
    pub acked : List ℤ
    pub accounts : List (ℕ × ℤ)

  unfoldable pub new_sender_state :
      ℕ → Duration → String → String → Duration → ℤ → String → Time → SenderState
  new_sender_state send_sz timeout inbox dest interval failed nonce now = record {
    inbox = inbox;
    dest = dest;
    last_ack_rec = negsuc 0;
    last_frame_sent = negsuc 0;
    txq = replicate send_sz empty_txq_slot;
    sender_window_size = pos send_sz;
    timeout = timeout;
    send_history = [];
    discard_count = pos 0;
    last_send_time = pos 0;
    last_heard_from_downstream = now;
    keep_alive_interval = interval;
    num_failed_keep_alives_before_closing = failed;
    by_deadline = new_tree compare_retry_deadline;
    by_seq_num = new_tree compare_seq_num;
    last_seen_avail_reader_bytes_cap = pos 1048576;
    last_seen_avail_reader_msg_cap = pos send_sz;
    flow_ct = initial_flow;
    total_bytes_sent = pos 0;
    rtt = new_rtt x;
    recv_last_frame_client_consumed = pos 0;
    local_sess_nonce = nonce;
    remote_sess_nonce = "";
    net = [];
    acked = [];
    accounts = [];
  }
