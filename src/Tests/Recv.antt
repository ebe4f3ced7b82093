-- ===== src/Tests/Recv.antt =====
-- The receiver on concrete packets.
use go_sliding_window.Base.{
  ℕ, zero, suc, ◌<◌, ◌≤◌, ◌≡◌, ◌⊎◌, inl, inr, refl, true, Option, none, some, List, [], ◌∷◌, ◌++◌,
  length, All, AllFrom, arith,
}
use go_sliding_window.Base.Int.{pos, add_64, sub_64, wrap_64, rem_64, ◌+ℤ◌, ◌-ℤ◌}
use go_sliding_window.Tcp.{established, event_fin}
use go_sliding_window.Window.{in_window, window_end}
use go_sliding_window.Packet.{Packet, zero_packet}
use go_sliding_window.Recv.{Rx, RecvState, new_rx, new_recv_state}
use go_sliding_window.Recv.Frames.{Has}
use go_sliding_window.Recv.Data.{
  store_data, hold, put_slot, slot_index, deliver, advance, insert_held,
}
use go_sliding_window.Recv.Receive.{
  receive, after_store, Inv, new_rx-Inv, Received, store_data-Received,
}
use go_sliding_window.Recv.Stream.{
  in_order_exactly_once, every_frame_delivered, IsFrame, Below, Occurs,
}
use go_sliding_window.Recv.Handle.{handle_pack, handle_info}
use go_sliding_window.Recv.Untouched.{HandledKeeps}
use go_sliding_window.Recv.Loop.{loop_step, message, loop_step-MovesTo}
use go_sliding_window.Recv.Deliver.{MovesTo}
use go_sliding_window.Recv.Events.{IsSettled, handle_info-settles}
use go_sliding_window.Recv.Consume.{ReadRequest, fill_as_much_as_possible}
use go_sliding_window.Recv.Read.{unread_bytes, fill-conserves}
use go_sliding_window.Recv.Moves.{store_data-moves}
use go_sliding_window.Recv.Room.{HandledHasRoom, handle_pack-HasRoom}
use go_sliding_window.Tests.Data.{frame, fresh_link}

-- Frame `k` carries the one byte `k`.
abbrev Tagged : ℕ → Packet → Type 0
Tagged k p = p.payload ≡ k ∷ []

-- Frame 1 comes first, then frame 0, then frame 1 once more.
abbrev shuffled : List Packet
shuffled = frame 1 (1 ∷ []) ∷ frame 0 (0 ∷ []) ∷ frame 1 (1 ∷ []) ∷ []

shuffled-IsFrame : All (IsFrame Tagged 2 2) shuffled
shuffled-IsFrame = (
  (1, refl, (omega arith, refl)),
  ((0, refl, (omega arith, refl)), ((1, refl, (omega arith, refl)), tt)),
)

abbrev InOrder : Type 0
InOrder =
    (m : ℕ) × (after : Rx) × (receive (new_rx 2) shuffled ≡ some after)
    × (length after.recv_history ≡ m)
    × AllFrom (λ k p. (p.seq_num ≡ pos k) × Below Tagged 2 2 k p) 0 after.recv_history
    × (¬ Has 2 m after.rxq m)

in_order_exactly_once_example : InOrder
in_order_exactly_once_example =
    in_order_exactly_once Tagged 2 2 shuffled (omega arith) (omega arith) shuffled-IsFrame

both_occur : (k : ℕ) → k < 2 → Occurs k shuffled
both_occur zero h = inr (inl refl)
both_occur (suc zero) h = inl refl
both_occur (suc (suc k)) h = absurd (omega arith)

every_frame_delivered_example :
    (after : Rx) × (receive (new_rx 2) shuffled ≡ some after) × (2 ≤ length after.recv_history)
every_frame_delivered_example =
    every_frame_delivered Tagged 2 2 2 shuffled (omega arith) (omega arith) (omega arith)
      shuffled-IsFrame both_occur

store_data-Received_example :
    Received Tagged 2 0 1 (new_rx 2) (after_store (store_data (new_rx 2) (frame 1 (1 ∷ []))))
store_data-Received_example =
    store_data-Received Tagged 2 0 1 (new_rx 2) (frame 1 (1 ∷ [])) refl refl (omega arith)
      (new_rx-Inv Tagged 2 (omega arith))

abbrev listening : RecvState
listening = new_recv_state 2 (pos 4096) "B" "A" "nb" fresh_link

abbrev sum_hash : List ℕ → List ℕ
sum_hash bytes = length bytes ∷ []

listening-Inv : Inv Tagged 2 0 listening.rx
unfolding new_recv_state
listening-Inv = new_rx-Inv Tagged 2 (omega arith)

loop_step-MovesTo_example :
    HandledKeeps
      (MovesTo Tagged 2 0)
      (loop_step sum_hash listening (message (frame 0 (0 ∷ [])) (pos 5) (pos 5) true)).0
loop_step-MovesTo_example =
    loop_step-MovesTo Tagged 2 (λ k p t h. h) sum_hash 0 listening
      (message (frame 0 (0 ∷ [])) (pos 5) (pos 5) true) (inr (0, refl, refl)) (omega arith)
      listening-Inv

-- The end of an established connection, which takes the second round.
abbrev connected : RecvState
connected = record listening { conn = record (listening.conn) { tcp_state = established } }

abbrev length_hash : List ℕ → List ℕ
length_hash bytes = length bytes ∷ []

handle_info-settles_example :
    IsSettled (handle_info 2 connected event_fin zero_packet (pos 5) (pos 5))
    × (handle_info 5 connected event_fin zero_packet (pos 5) (pos 5)
        ≡ handle_info 2 connected event_fin zero_packet (pos 5) (pos 5))
    × IsSettled (handle_pack length_hash connected zero_packet (pos 5) (pos 5) true)
handle_info-settles_example =
    handle_info-settles length_hash 3 connected event_fin zero_packet (pos 5) (pos 5) true

-- Two packets are ready, of five bytes together, and a read takes four.
abbrev full_reader : RecvState
full_reader = record listening {
  rx = record (listening.rx) {
    ready_for_delivery = frame 0 (1 ∷ 2 ∷ 3 ∷ []) ∷ frame 1 (4 ∷ 5 ∷ []) ∷ [];
  };
}

abbrev Conserved : ℕ → RecvState → RecvState × ReadRequest → Type 0
Conserved size r out =
    (out.1.got ++ unread_bytes out.0.rx.ready_for_delivery ≡ unread_bytes r.rx.ready_for_delivery)
    × ((length out.1.got ≡ size) ⊎ (out.0.rx.ready_for_delivery ≡ []))

fill-conserves_example :
    Conserved 4 full_reader
      (fill_as_much_as_possible full_reader (record { cap = 4; got = [] }) (pos 9))
fill-conserves_example = fill-conserves full_reader 4 (pos 9)

abbrev rx_after : Rx → Option Rx → Rx
rx_after r none = r
rx_after r (some s) = s

abbrev first_only : Rx
first_only = rx_after (new_rx 2) (after_store (store_data (new_rx 2) (frame 0 (7 ∷ []))))

first_arrives : after_store (store_data (new_rx 2) (frame 0 (7 ∷ []))) ≡ some first_only
unfolding new_rx store_data hold put_slot slot_index rem_64 deliver advance in_window window_end
    add_64 sub_64 wrap_64 ◌+ℤ◌ ◌-ℤ◌ insert_held
first_arrives = refl

store_data-moves_example :
    (new : List Packet) × (first_only.ready_for_delivery ≡ (new_rx 2).ready_for_delivery ++ new)
    × (first_only.recv_history ≡ (new_rx 2).recv_history ++ new)
store_data-moves_example = store_data-moves (new_rx 2) first_only (frame 0 (7 ∷ [])) first_arrives

-- Five acknowledgements wait, and a packet from beyond the window asks for one more.
abbrev backlogged : RecvState
backlogged = record listening {
  snd = record (listening.snd) {
    send_ack = zero_packet ∷ zero_packet ∷ zero_packet ∷ zero_packet ∷ zero_packet ∷ [];
  };
}

handle_pack-HasRoom_example :
    HandledHasRoom (handle_pack sum_hash backlogged (frame 9 []) (pos 5) (pos 5) true)
handle_pack-HasRoom_example =
    handle_pack-HasRoom sum_hash backlogged (frame 9 []) (pos 5) (pos 5) true (omega arith)
