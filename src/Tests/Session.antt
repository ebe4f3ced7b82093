-- ===== src/Tests/Session.antt =====
-- Sessions, files, the tree of the sender and the connection's states on concrete inputs.
use go_sliding_window.Base.{
  ℕ, suc, ◌≤◌, ◌≡◌, ◌≢◌, ◌↔◌, ◌⊎◌, Bool, true, none, some, List, [], ◌∷◌, ◌++◌, length, All, arith,
}
use go_sliding_window.Base.Int.{ℤ, pos, ◌≤ℤ◌, negsuc, ltb_ℤ}
use go_sliding_window.Tcp.{
  TcpState, TcpEvent, listen, syn_sent, syn_received, established, event_syn, event_syn_ack,
  event_estab_ack, event_fin, event_start_close, event_keep_alive, update_tcp, fresh,
}
use go_sliding_window.Tcp.Order.{follow, follow-le, established_iff}
use go_sliding_window.Packet.{Packet, TxqSlot}
use go_sliding_window.Externals.Lists.{list_externals, list_laws, ListTree}
use go_sliding_window.Retree.{delete_through_seq_num, compare_seq_num}
use go_sliding_window.Retree.Prefix.{Through, Beyond, delete_seq_num_exact}
use go_sliding_window.Session.{SessionConfig, settle, write_packets, BigFile, recv_file}
use go_sliding_window.Session.Write.{bytes_of, write_packets-bytes, settle-Usable}
use go_sliding_window.Session.Files.{recv_file_iff}
use go_sliding_window.Tests.Data.{frame}

abbrev Cut : ℕ → List ℕ → Type 0
Cut w payload =
    (ps : List Packet) × (write_packets "A" "B" (pos (suc w)) payload 1 2 ≡ some ps)
    × (bytes_of ps ≡ payload)
    × All (λ (p : Packet). length p.payload ≤ suc w) ps
    × All (λ (p : Packet). length p.payload ≤ 524288) ps

-- Five bytes go out in three packets, with a window of two bytes.
write_packets-bytes_example : Cut 1 (1 ∷ 2 ∷ 3 ∷ 4 ∷ 5 ∷ [])
write_packets-bytes_example = write_packets-bytes "A" "B" 1 (1 ∷ 2 ∷ 3 ∷ 4 ∷ 5 ∷ []) 1 2

abbrev bare_config : SessionConfig
bare_config = record {
  local_inbox = "A";
  dest_inbox = "B";
  window_msg_count = pos 3;
  window_byte_sz = negsuc 0;
  timeout = pos 100;
  keep_alive_interval = pos 0;
  num_failed_keep_alives_before_closing = pos 0;
}

abbrev Usable : SessionConfig → Type 0
Usable cfg =
    ((cfg.window_msg_count ≤ℤ pos 0) × (settle cfg ≡ none))
    ⊎ ((pos 1 ≤ℤ cfg.window_msg_count)
        × ((out : SessionConfig) × (settle cfg ≡ some out)
            × (out.window_msg_count ≡ cfg.window_msg_count)
            × (ltb_ℤ (pos 0) out.window_byte_sz ≡ true)
            × (out.keep_alive_interval ≢ pos 0)
            × (out.num_failed_keep_alives_before_closing ≢ pos 0)))

settle-Usable_example : Usable bare_config
settle-Usable_example = settle-Usable bare_config (omega arith)

-- A hash, and an encoding that is enough for the files of one name and time.
abbrev sum_hash : List ℕ → List ℕ
sum_hash bytes = length bytes ∷ []

abbrev plain : BigFile → List ℕ
plain bf = bf.content

abbrev read_plain : List ℕ → BigFile × Bool
read_plain bytes = (
  (record {
    filepath = "f";
    size_in_bytes = pos (length bytes);
    blake2b_of = sum_hash bytes;
    send_time = pos 7;
    content = bytes;
  }),
  true,
)

recv_file_iff_example : ((recv_file sum_hash read_plain (5 ∷ [])).1 ≡ none) ↔ (
    ((read_plain (5 ∷ [])).1 ≡ true)
    × ((read_plain (5 ∷ [])).0.size_in_bytes ≡ pos (length (read_plain (5 ∷ [])).0.content))
    × ((read_plain (5 ∷ [])).0.blake2b_of ≢ [])
    × ((read_plain (5 ∷ [])).0.blake2b_of ≡ sum_hash (read_plain (5 ∷ [])).0.content))
recv_file_iff_example = recv_file_iff sum_hash plain read_plain (5 ∷ [])

abbrev handshake : List (TcpEvent × TcpState)
handshake = (event_syn, fresh) ∷ (event_estab_ack, syn_sent) ∷ (event_fin, established) ∷ []

follow-le_example : (follow listen handshake).1 ≤ 5
follow-le_example = follow-le handshake

abbrev Established : TcpState → TcpEvent → TcpState → Type 0
Established s e from = ((update_tcp s e from).0 ≡ established) ↔ (
    ((s ≡ established) × (e ≢ event_start_close) × (e ≢ event_fin))
    ⊎ ((s ≡ syn_sent) × (e ≡ event_syn_ack))
    ⊎ ((s ≡ syn_received) × (e ≡ event_estab_ack))
    ⊎ ((s ≡ syn_received) × (e ≡ event_keep_alive) × (from ≡ established)))

established_iff_example : Established syn_received event_keep_alive established
established_iff_example = established_iff syn_received event_keep_alive established

abbrev slot : ℕ → TxqSlot
slot k = record {
  orig_send_time = pos 0;
  retry_deadline = pos 9;
  retry_dur = pos 9;
  pack = frame k [];
}

abbrev two_slots : ListTree
two_slots = record { compare = compare_seq_num; content = slot 3 ∷ slot 4 ∷ [] }

abbrev Exact : ℤ → ListTree → Type 0
Exact n t =
    let (t', gone) = delete_through_seq_num list_externals n t in
    (t.content ≡ gone ++ t'.content) × All (Through n) gone × All (Beyond n) t'.content

delete_seq_num_exact_example : Exact (pos 3) two_slots
delete_seq_num_exact_example =
    delete_seq_num_exact list_externals list_laws (pos 3) (pos 2) two_slots
      (omega arith, (omega arith, tt))
