-- ===== src/Sender/Receive.antt =====
-- sender.go: what the sender makes of a packet from the other end (`GotPack`).
use go_sliding_window.Base.{
  ℕ, ◌>>=◌, Bool, true, false, Option, none, some, List, [], ◌∷◌, ◌++◌, length, ◌==◌, if◌then◌else◌,
}
use go_sliding_window.Base.Int.{ℤ, pos, ltb_ℤ, add_64}
use go_sliding_window.Tcp.{TcpEvent, event_data_ack}
use go_sliding_window.Packet.{Packet, Time, TxqSlot, time_sub}
use go_sliding_window.Window.{in_window}
use go_sliding_window.Externals.{Externals}
use go_sliding_window.Retree.{delete_through_seq_num}
use go_sliding_window.Rtt.{add_sample}
use go_sliding_window.Sender.{SenderState}
use go_sliding_window.Sender.Send.{delete_slots}

abbrev pub is_data_ack : TcpEvent → Bool
is_data_ack event_data_ack = true
is_data_ack _ = false

-- `Accounting.NumBytesAcked` of the account `k` grows by `n`.
unfoldable pub credit : ℕ → ℤ → List (ℕ × ℤ) → List (ℕ × ℤ)
credit k n [] = (k, n) ∷ []
credit k n ((j, m) ∷ as') = if j == k then (j, add_64 m n) ∷ as' else (j, m) ∷ credit k n as'

-- What the callback of `deleteThroughSeqNum` does for the slots that are deleted: the broadcast on
-- `CliAcked`, and the account.
abbrev pub broadcast : Packet → List ℤ → List ℤ
broadcast p out = elim p.cli_acked [ none ↦ out | some c ↦ out ++ p.seq_num ∷ [] ]

abbrev pub account : Packet → List (ℕ × ℤ) → List (ℕ × ℤ)
account p m = elim p.accounting [ none ↦ m | some k ↦ credit k (pos (length p.payload)) m ]

unfoldable pub broadcast_all : List TxqSlot → List ℤ → List ℤ
broadcast_all [] out = out
broadcast_all (s ∷ ss) out = broadcast_all ss (broadcast s.pack out)

unfoldable pub account_all : List TxqSlot → List (ℕ × ℤ) → List (ℕ × ℤ)
account_all [] m = m
account_all (s ∷ ss) m = account_all ss (account s.pack m)

module _ (x : Externals) where
  open x use {Tree, items, len}

  -- `UpdateRTT`: only a data ack is a sample, and one of more than a minute is an outlier.
  -- `none` is the panic of `addObs`.
  unfoldable pub update_rtt : SenderState x → Packet → Time → Option (SenderState x)
  update_rtt s pack now =
      if is_data_ack pack.tcp_event
      then (let obs = time_sub now pack.data_send_tm in
          if ltb_ℤ (pos 60_000_000_000) obs
          then some s
          else elim (add_sample x s.rtt obs) [ none ↦ none | some r ↦ some (record s { rtt = r }) ])
      else some s

  -- The cumulative acknowledgement: both trees lose the slots up to `AckNum`.
  unfoldable pub remove_acked : SenderState x → ℤ → SenderState x
  remove_acked s ack_num =
      let (t, gone) = delete_through_seq_num x ack_num s.by_seq_num in
      record s {
        by_seq_num = t;
        by_deadline = delete_slots x gone s.by_deadline;
        acked = broadcast_all gone s.acked;
        accounts = account_all gone s.accounts;
      }

  -- The window test at the end: an acknowledgement outside the window is only counted.
  unfoldable pub check_ack_window : SenderState x → Packet → SenderState x
  check_ack_window s a =
      if is_data_ack a.tcp_event
      then (if ltb_ℤ a.ack_num (pos 0)
          then s
          else (if in_window a.ack_num (add_64 s.last_ack_rec (pos 1)) s.last_frame_sent
              then s
              else record s { discard_count = add_64 s.discard_count (pos 1) }))
      else s

  abbrev pub same_len : SenderState x → Bool
  same_len s = len s.by_seq_num == len s.by_deadline

  -- What is taken over from every packet.
  unfoldable pub hear : SenderState x → Packet → SenderState x
  hear s a = record s {
    last_heard_from_downstream = a.arrived_at_dest_tm;
    last_seen_avail_reader_bytes_cap = a.avail_reader_bytes_cap;
    last_seen_avail_reader_msg_cap = a.avail_reader_msg_cap;
  }

  -- After the removal: the check that both trees have the same length, which may panic, and the
  -- window test.
  unfoldable pub finish_ack : SenderState x → Packet → Option (SenderState x)
  finish_ack s a = if same_len s then some (check_ack_window s a) else none

  -- The case `GotPack`. `none` is a panic: trees of different lengths, or that of `addObs`.
  unfoldable pub got_pack : SenderState x → Packet → Time → Option (SenderState x)
  unfolding hear finish_ack
  got_pack s a now = do s2 ← update_rtt (hear s a) a now; finish_ack (remove_acked s2 a.ack_num) a
