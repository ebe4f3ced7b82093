-- ===== src/Sender/Send.antt =====
-- sender.go: what the sender sends. Each function takes the readings of the clock that it makes,
-- and whether `Net.Send` succeeds; a failed send puts nothing on the network.
use go_sliding_window.Base.{
  ℕ, suc, Bool, ◌&&◌, Option, none, some, List, [], ◌∷◌, ◌++◌, length, set, ltb, if◌then◌else◌,
}
use go_sliding_window.Base.Int.{ℤ, pos, negsuc, ◌+ℤ◌, ltb_ℤ, eq_ℤ, add_64, sub_64, mul_64, rem_64}
use go_sliding_window.Packet.{Packet, Time, TxqSlot, time_sub}
use go_sliding_window.Flow.{Flow, update_flow}
use go_sliding_window.Externals.{Externals}
use go_sliding_window.Retree.{delete_through_deadline}
use go_sliding_window.Rtt.{get_estimate, get_sd}
use go_sliding_window.Sender.{SenderState}
use go_sliding_window.Sender.Estimate.{get_deadline_dur}

-- The query `UpdateFlow(…, -1, -1, nil)`.
abbrev pub query_flow : Flow → Flow
query_flow f = update_flow f (negsuc 0) (negsuc 0) none

-- The index into `Txq` of a non-negative remainder; a write elsewhere is a Go panic.
abbrev pub index_of : ℤ → Option ℕ
index_of (pos i) = some i
index_of (negsuc i) = none

abbrev pub put_net : Bool → Packet → List Packet → List Packet
put_net ok p net = if ok then net ++ p ∷ [] else net

abbrev pub set_txq : Option ℕ → TxqSlot → List TxqSlot → List TxqSlot
set_txq none slot q = q
set_txq (some i) slot q = set q i slot

-- The entry of `Txq` that a slot is. The trees hold pointers to these entries.
abbrev pub place : ℤ → TxqSlot → ℤ
place window slot = rem_64 slot.pack.seq_num window

-- What a pointer to `cur` points to once `slot` was written to its entry of `Txq`.
unfoldable pub write_through : ℤ → TxqSlot → TxqSlot → TxqSlot
write_through window slot cur = if eq_ℤ (place window slot) (place window cur) then slot else cur

module _ (x : Externals) where
  open x use {Tree, insert, delete_with_key, items, map_items, blake2b}

  -- The sum over the slots of the deadline tree: bytes, then messages.
  unfoldable pub inflight : List TxqSlot → ℤ × ℤ
  inflight [] = (pos 0, pos 0)
  inflight (s ∷ ss) =
      let (bytes, msgs) = inflight ss in
      (add_64 bytes (pos (length s.pack.payload)), add_64 msgs (pos 1))

  unfoldable pub compute_inflight : SenderState x → ℤ × ℤ
  unfolding inflight
  compute_inflight s = inflight (items s.by_deadline)

  -- Whether the loop accepts a packet from `BlockingSend`.
  unfoldable pub accepts_send : SenderState x → Bool
  unfolding compute_inflight
  accepts_send s =
      let (bytes, msgs) = compute_inflight s in
      ltb_ℤ (pos 0) (sub_64 s.last_seen_avail_reader_msg_cap msgs)
      && ltb_ℤ (pos 0) (sub_64 s.last_seen_avail_reader_bytes_cap bytes)

  -- The packet as `doOrigDataSend` completes it.
  unfoldable pub stamp : SenderState x → Packet → Time → Packet
  stamp s pack now =
      let flow = query_flow s.flow_ct in
      record pack {
        cumul_bytes_transmitted = add_64 s.total_bytes_sent (pos (length pack.payload));
        blake2b_checksum =
            if ltb 0 (length pack.payload) then blake2b pack.payload else pack.blake2b_checksum;
        seq_num = add_64 s.last_frame_sent (pos 1);
        from = s.inbox;
        avail_reader_bytes_cap = flow.avail_reader_bytes_cap;
        avail_reader_msg_cap = flow.avail_reader_msg_cap;
        data_send_tm = now;
        from_rtt_est_nsec = get_estimate x s.rtt;
        from_rtt_sd_nsec = get_sd x s.rtt;
        from_rtt_n = s.rtt.n;
        from_sess_nonce = s.local_sess_nonce;
        dest_sess_nonce = s.remote_sess_nonce;
      }

  -- The slot that the packet goes into.
  unfoldable pub fill_slot : SenderState x → Packet → Time → TxqSlot
  unfolding stamp
  fill_slot s pack now =
      let dur = get_deadline_dur x s.rtt (query_flow s.flow_ct) in
      record {
        orig_send_time = now;
        retry_dur = dur;
        retry_deadline = now +ℤ dur;
        pack = stamp s pack now;
      }

  -- A slot of `Txq` is written to, for all that point to it, and then inserted.
  abbrev pub insert_written : ℤ → TxqSlot → Tree → Tree
  insert_written window slot t = insert slot (map_items (write_through window slot) t)

  -- `doOrigDataSend`: the state, and the sequence number that is returned (-1 with an error).
  unfoldable pub do_orig_data_send : SenderState x → Packet → Time → Bool → SenderState x × ℤ
  do_orig_data_send s pack now ok =
      let slot = fill_slot s pack now in
      let lfs = add_64 s.last_frame_sent (pos 1) in
      (
        record s {
          last_frame_sent = lfs;
          total_bytes_sent = slot.pack.cumul_bytes_transmitted;
          txq = set_txq (index_of (rem_64 lfs s.sender_window_size)) slot s.txq;
          send_history = s.send_history ++ slot.pack ∷ [];
          flow_ct = query_flow s.flow_ct;
          last_send_time = now;
          by_deadline = insert_written s.sender_window_size slot s.by_deadline;
          by_seq_num = insert_written s.sender_window_size slot s.by_seq_num;
          net = put_net ok slot.pack s.net;
        },
        if ok then lfs else negsuc 0,
      )

  -- One round of the retry loop: the slot with its new deadline and packet.
  unfoldable pub refresh_slot : SenderState x → TxqSlot → Time → TxqSlot
  refresh_slot s slot now =
      let flow = query_flow s.flow_ct in
      let dur = get_deadline_dur x s.rtt flow in
      let p = slot.pack in
      record slot {
        retry_dur = dur;
        retry_deadline = now +ℤ dur;
        pack = record p {
          seq_retry = add_64 p.seq_retry (pos 1);
          data_send_tm = now;
          avail_reader_bytes_cap = flow.avail_reader_bytes_cap;
          avail_reader_msg_cap = flow.avail_reader_msg_cap;
          from_rtt_est_nsec = get_estimate x s.rtt;
          from_rtt_sd_nsec = get_sd x s.rtt;
          from_rtt_n = s.rtt.n;
          from_sess_nonce = s.local_sess_nonce;
          dest_sess_nonce = s.remote_sess_nonce;
        };
      }

  unfoldable pub resend : SenderState x → TxqSlot → Time → Bool → SenderState x
  resend s slot now ok =
      let fresh = refresh_slot s slot now in
      record s {
        flow_ct = query_flow s.flow_ct;
        txq = set_txq (index_of (rem_64 slot.pack.seq_num s.sender_window_size)) fresh s.txq;
        by_deadline = insert_written s.sender_window_size fresh s.by_deadline;
        by_seq_num = insert_written s.sender_window_size fresh s.by_seq_num;
        net = put_net ok fresh.pack s.net;
      }

  -- The retry loop; the readings of the clock and the results of the sends are numbered from `i`.
  -- `now_at` is what a pointer of the retry list points to after the writes of the rounds before.
  unfoldable pub resend_all :
      SenderState x
      → (TxqSlot → TxqSlot)
      → List TxqSlot
      → (ℕ → Time)
      → (ℕ → Bool)
      → ℕ
      → SenderState x
  resend_all s now_at [] clk ok i = s
  resend_all s now_at (slot ∷ slots) clk ok i =
      let fresh = refresh_slot s (now_at slot) (clk i) in
      resend_all (resend s (now_at slot) (clk i) (ok i))
        (λ cur. write_through s.sender_window_size fresh (now_at cur)) slots clk ok (suc i)

  abbrev pub delete_slots : List TxqSlot → Tree → Tree
  delete_slots [] t = t
  delete_slots (s ∷ ss) t = delete_slots ss (delete_with_key s t)

  -- Nobody was heard for too many keep-alive intervals.
  unfoldable pub is_dead : SenderState x → Time → Bool
  is_dead s now =
      ltb_ℤ (pos 0) s.num_failed_keep_alives_before_closing
      && ltb_ℤ (mul_64 s.keep_alive_interval s.num_failed_keep_alives_before_closing)
          (time_sub now s.last_heard_from_downstream)

  -- `regularIntervalWakeup`. `none`: the sender declares the session dead and ends.
  unfoldable pub regular_wakeup :
      SenderState x → Time → (ℕ → Time) → (ℕ → Bool) → Option (SenderState x)
  unfolding is_dead
  regular_wakeup s now clk ok =
      if is_dead s now
      then none
      else (let (t, retry) = delete_through_deadline x now s.by_deadline in
          let s1 = record s { by_deadline = t; by_seq_num = delete_slots retry s.by_seq_num } in
          some (resend_all s1 (λ cur. cur) retry clk ok 0))
