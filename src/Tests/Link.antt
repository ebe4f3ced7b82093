-- ===== src/Tests/Link.antt =====
-- A sender with a window of two packets sends one, and the network delivers it.
use go_sliding_window.Base.{List, [], ◌∷◌, ◌++◌, ◌⊎◌, ◌≡◌, refl, true, length, take, arith}
use go_sliding_window.Base.Int.{ℤ, pos, add_64, sub_64, wrap_64, rem_64, ◌+ℤ◌, ◌-ℤ◌}
use go_sliding_window.Externals.Lists.{list_externals, list_laws, insert_cmp}
use go_sliding_window.Retree.{compare_seq_num}
use go_sliding_window.Sender.{SenderState, new_sender_state}
use go_sliding_window.Sender.Send.{
  accepts_send, do_orig_data_send, compute_inflight, inflight, fill_slot, stamp, write_through,
}
use go_sliding_window.Recv.{new_recv_state, new_rx, new_rx_flow}
use go_sliding_window.Recv.Ack.{update_control, avail_msg_cap, avail_bytes_cap}
use go_sliding_window.Recv.Data.{store_data, hold, put_slot, slot_index, deliver, advance}
use go_sliding_window.Window.{in_window, window_end}
use go_sliding_window.Packet.{Packet, TxqSlot}
use go_sliding_window.Recv.Handle.{
  handle_pack, lock_remote, is_foreign, is_corrupt, accept_pack, track, handle_data,
}
use go_sliding_window.Link.{World, Run, start, push, arrive, read}
use go_sliding_window.Link.Ledger.{bytes_got}
use go_sliding_window.Link.Bytes.{bytes-IsPrefix}
use go_sliding_window.Session.Write.{bytes_of}
use go_sliding_window.Recv.Read.{unread_bytes}
use go_sliding_window.Recv.Consume.{fill_as_much_as_possible}
use go_sliding_window.Link.Acked.{Acked, FitsTxq}
use go_sliding_window.Link.Unacked.{unacked-Covers}
use go_sliding_window.Sender.Outstanding.{Covers}
use go_sliding_window.Link.Stream.{stream-IsPrefix}
use go_sliding_window.Link.Sent.{payloads}
use go_sliding_window.Tests.Data.{hello, fresh_link, receiver_after}

abbrev pub world_0 : World list_externals
world_0 = record {
  sender =
      new_sender_state list_externals 2 (pos 100) "A" "B" (pos 500_000_000) (pos 50) "na"
        (pos 1000);
  receiver = new_recv_state 2 (pos 4096) "B" "A" "nb" fresh_link;
}

abbrev pub world_1 : World list_externals
world_1 = record world_0 {
  sender = (do_orig_data_send list_externals world_0.sender hello (pos 2000) true).0;
}

abbrev pub sent : Packet
sent = stamp list_externals world_0.sender hello (pos 2000)

abbrev world_2 : World list_externals
world_2 = record world_1 {
  receiver =
      receiver_after world_1.receiver
        (handle_pack list_externals.blake2b world_1.receiver sent (pos 3000) (pos 3000) true);
}

one_sent : Run list_externals 2 1 world_1
unfolding accepts_send new_sender_state compute_inflight inflight sub_64 wrap_64 ◌-ℤ◌
one_sent =
    push hello (pos 2000) true
      (start 2 (pos 100) "A" "B" (pos 500_000_000) (pos 50) "na" (pos 1000) (pos 4096) "B" "A" "nb"
        fresh_link)
      refl

one_arrived : Run list_externals 2 1 world_2
unfolding do_orig_data_send fill_slot new_sender_state new_recv_state new_rx new_rx_flow handle_pack
    lock_remote is_foreign is_corrupt accept_pack track update_control avail_msg_cap avail_bytes_cap
    handle_data store_data hold put_slot slot_index rem_64 deliver advance in_window window_end
    stamp add_64 sub_64 wrap_64 ◌+ℤ◌ ◌-ℤ◌
one_arrived = arrive 0 sent (pos 3000) (pos 3000) true world_2.receiver one_sent refl refl

-- The receiver has put one packet in order, and it is the one that was sent.
stream-IsPrefix_example :
    payloads world_2.receiver.rx.recv_history
    ≡ payloads (take (length world_2.receiver.rx.recv_history) world_2.sender.send_history)
stream-IsPrefix_example =
    stream-IsPrefix list_externals list_laws 2 1 world_2 (omega arith) (omega arith) one_arrived

one_delivered : length world_2.receiver.rx.recv_history ≡ 1
unfolding do_orig_data_send fill_slot new_sender_state new_recv_state new_rx new_rx_flow handle_pack
    lock_remote is_foreign is_corrupt accept_pack track update_control avail_msg_cap avail_bytes_cap
    handle_data store_data hold put_slot slot_index rem_64 deliver advance in_window window_end
    stamp add_64 sub_64 wrap_64 ◌+ℤ◌ ◌-ℤ◌
one_delivered = refl

-- A second packet takes the other entry of `Txq`, and both are in the tree.
abbrev two_out : World list_externals
two_out = record world_1 {
  sender = (do_orig_data_send list_externals world_1.sender hello (pos 2100) true).0;
}

two_sent : Run list_externals 2 2 two_out
unfolding accepts_send new_sender_state compute_inflight inflight do_orig_data_send fill_slot stamp
    write_through rem_64 insert_cmp sub_64 add_64 wrap_64 ◌+ℤ◌ ◌-ℤ◌
two_sent = push hello (pos 2100) true one_sent refl

other_entry : FitsTxq list_externals 2 two_sent
unfolding two_sent one_sent accepts_send new_sender_state compute_inflight inflight
    do_orig_data_send fill_slot stamp write_through rem_64 insert_cmp sub_64 add_64 wrap_64 ◌+ℤ◌
    ◌-ℤ◌
other_entry = ((((λ e. cc), tt), ((λ e. cc), tt)), ((tt, tt), tt))

unacked-Covers_example :
    Acked list_externals 2 0 two_sent ⊎ Covers (list_externals.items two_out.sender.by_seq_num) 0
unacked-Covers_example =
    unacked-Covers list_externals list_laws 2 2 0 two_out two_sent (omega arith) (omega arith)
      other_entry (omega arith)

-- A sender with one entry is told that there is room for eight packets, and sends two: the second
-- overwrites the first in the tree.
abbrev one_entry : SenderState list_externals
one_entry =
    record (new_sender_state list_externals 1 (pos 100) "A" "B" (pos 500_000_000) (pos 50) "na"
      (pos 1000)) { last_seen_avail_reader_msg_cap = pos 8 }

abbrev overwritten : SenderState list_externals
overwritten =
    (do_orig_data_send list_externals
      (do_orig_data_send list_externals one_entry hello (pos 2000) true).0 hello (pos 2100) true).0

abbrev numbers_of : List TxqSlot → List ℤ
numbers_of [] = []
numbers_of (s ∷ ss) = s.pack.seq_num ∷ numbers_of ss

frame_lost : numbers_of (list_externals.items overwritten.by_seq_num) ≡ pos 1 ∷ []
unfolding new_sender_state do_orig_data_send fill_slot stamp write_through rem_64 insert_cmp
    compare_seq_num sub_64 add_64 wrap_64 ◌+ℤ◌ ◌-ℤ◌
frame_lost = refl

-- The application reads one of the two bytes.
abbrev world_3 : World list_externals
world_3 = record world_2 {
  receiver =
      (fill_as_much_as_possible world_2.receiver (record { cap = 1; got = [] }) (pos 4000)).0;
}

one_read : Run list_externals 2 1 world_3
one_read = read 1 (pos 4000) one_arrived

bytes-IsPrefix_example :
    bytes_got list_externals 2 one_read ++ unread_bytes world_3.receiver.rx.ready_for_delivery
    ≡ bytes_of (take (length world_3.receiver.rx.recv_history) world_3.sender.send_history)
unfolding one_read one_arrived one_sent
bytes-IsPrefix_example =
    bytes-IsPrefix list_externals list_laws 2 1 world_3 one_read (omega arith) (omega arith)
      (refl, tt)
