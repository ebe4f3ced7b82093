-- ===== src/Recv/Data.antt =====
-- recv.go, the end of the `MsgRecv` case: a data packet enters the window, and the frames that are
-- next in order move to the ready list.
use go_sliding_window.Base.{
  ℕ, zero, suc, true, Option, none, some, List, [], ◌∷◌, ◌++◌, length, get_or, set, ltb,
  if◌then◌else◌,
}
use go_sliding_window.Base.Int.{ℤ, pos, negsuc, ltb_ℤ, eq_ℤ, add_64, rem_64}
use go_sliding_window.Packet.{Packet, empty_slot}
use go_sliding_window.Window.{in_window, window_end}
use go_sliding_window.Recv.{Rx}

-- `RcvdButNotConsumed[k] = p`, and `delete(RcvdButNotConsumed, k)`.
unfoldable pub insert_held : ℤ → Packet → List (ℤ × Packet) → List (ℤ × Packet)
insert_held k p [] = (k, p) ∷ []
insert_held k p ((j, q) ∷ m) = if eq_ℤ j k then (k, p) ∷ m else (j, q) ∷ insert_held k p m

unfoldable pub delete_held : ℤ → List (ℤ × Packet) → List (ℤ × Packet)
delete_held k [] = []
delete_held k ((j, q) ∷ m) = if eq_ℤ j k then m else (j, q) ∷ delete_held k m

-- A list with one more packet, if the pointer is not nil.
abbrev pub append_pack : List Packet → Option Packet → List Packet
append_pack ps none = ps
append_pack ps (some p) = ps ++ p ∷ []

-- The index `k%r.RecvWindowSize` into `Rxq`: none where Go panics, on a zero divisor or an index
-- out of range.
abbrev pub in_range : ℕ → ℤ → Option ℕ
in_range n (pos i) = if ltb i n then some i else none
in_range n (negsuc i) = none

unfoldable pub slot_index : Rx → ℤ → Option ℕ
slot_index r k =
    if eq_ℤ r.recv_window_size (pos 0)
    then none
    else in_range (length r.rxq) (rem_64 k r.recv_window_size)

-- One round of `for slot.Received`: the slot at index `i` is emptied and its packet is ready.
unfoldable pub advance : ℕ → Rx → Rx
advance i r = record r {
  ready_for_delivery = append_pack r.ready_for_delivery (get_or r.rxq i empty_slot).pack;
  recv_history = append_pack r.recv_history (get_or r.rxq i empty_slot).pack;
  rxq = set r.rxq i empty_slot;
  next_frame_expected = add_64 r.next_frame_expected (pos 1);
}

-- The loop, on fuel. `none` is a panic, or no fuel left.
unfoldable pub deliver : ℕ → Rx → Option Rx
deliver zero r = none
deliver (suc fuel) r = elim (slot_index r r.next_frame_expected) [
  | none ↦ none
  | some i ↦
      let rest = deliver fuel (advance i r) in
      if (get_or r.rxq i empty_slot).received then rest else some r
]

-- The window holds at most `length rxq` packets, so one round more ends the loop.
abbrev pub deliver_fuel : Rx → ℕ
deliver_fuel r = suc (length r.rxq)

pub data Stored : Type 0 where
  panicked : Stored
  discarded : Rx → Stored  -- outside the window: it is to be acked
  stored : Rx → Stored  -- in the window, perhaps out of order
  advanced : Rx → Stored  -- the next frame expected: one or more frames are ready

-- What is held until it is consumed: any packet that is no old duplicate.
unfoldable pub hold : Rx → Packet → Rx
hold r p = record r {
  rcvd_but_not_consumed =
      if ltb_ℤ p.seq_num r.next_frame_expected
      then r.rcvd_but_not_consumed
      else insert_held p.seq_num p r.rcvd_but_not_consumed;
}

-- The packet in its slot.
unfoldable pub put_slot : ℕ → Packet → Rx → Rx
put_slot i p r = record r { rxq = set r.rxq i (record { received = true; pack = some p }) }

abbrev pub or_panicked : Option Rx → Stored
or_panicked none = panicked
or_panicked (some r) = advanced r

-- From `if pack.SeqNum >= r.NextFrameExpected` to the end of the case.
unfoldable pub store_data : Rx → Packet → Stored
unfolding hold put_slot
store_data r0 p =
    let r = hold r0 p in
    elim (slot_index r p.seq_num) [
      | none ↦ panicked
      | some i ↦
          if in_window p.seq_num r.next_frame_expected
            (window_end r.next_frame_expected r.recv_window_size)
          then (if eq_ℤ p.seq_num r.next_frame_expected
              then or_panicked (deliver (deliver_fuel r) (put_slot i p r))
              else stored (put_slot i p r))
          else discarded (record r { discard_count = add_64 r.discard_count (pos 1) })
    ]
