-- ===== src/Recv/Slots.antt =====
-- recv.go: what storing a data packet does to the slots, branch by branch.

use go_sliding_window.Base.{ℕ, ◌≡◌, refl, true, false, some, set, arith}
use go_sliding_window.Base.Int.{pos, add_64, eq_ℤ}
use go_sliding_window.Packet.{Packet}
use go_sliding_window.Window.{in_window, window_end}
use go_sliding_window.Recv.{Rx}
use go_sliding_window.Recv.Frames.{full_slot}
use go_sliding_window.Recv.Data.{
  slot_index, deliver, deliver_fuel, hold, put_slot, discarded, stored, or_panicked, store_data,
}

-- The code of `store_data` once the index and the window test are known.
pub store_out :
    (r : Rx) (p : Packet) (i : ℕ)
    → slot_index (hold r p) p.seq_num ≡ some i
    → in_window p.seq_num r.next_frame_expected
        (window_end r.next_frame_expected r.recv_window_size)
      ≡ false
    → store_data r p
      ≡ discarded (record (hold r p) { discard_count = add_64 r.discard_count (pos 1) })
unfolding store_data
store_out r p i at out = ground arith

pub store_later :
    (r : Rx) (p : Packet) (i : ℕ)
    → slot_index (hold r p) p.seq_num ≡ some i
    → in_window p.seq_num r.next_frame_expected
        (window_end r.next_frame_expected r.recv_window_size)
      ≡ true
    → eq_ℤ p.seq_num r.next_frame_expected ≡ false
    → store_data r p ≡ stored (put_slot i p (hold r p))
unfolding store_data
store_later r p i at out e = ground arith

pub store_next :
    (r : Rx) (p : Packet) (i : ℕ)
    → slot_index (hold r p) p.seq_num ≡ some i
    → in_window p.seq_num r.next_frame_expected
        (window_end r.next_frame_expected r.recv_window_size)
      ≡ true
    → eq_ℤ p.seq_num r.next_frame_expected ≡ true
    → store_data r p ≡ or_panicked (deliver (deliver_fuel (hold r p)) (put_slot i p (hold r p)))
unfolding store_data
store_next r p i at out e = ground arith

pub fields-hold :
    (r : Rx) (p : Packet)
    → ((hold r p).next_frame_expected ≡ r.next_frame_expected)
      × ((hold r p).recv_window_size ≡ r.recv_window_size)
      × ((hold r p).rxq ≡ r.rxq)
      × ((hold r p).recv_history ≡ r.recv_history)
      × ((hold r p).ready_for_delivery ≡ r.ready_for_delivery)
unfolding hold
fields-hold r p = (refl, refl, refl, refl, refl)

pub rxq-put : (i : ℕ) (p : Packet) (r : Rx) → (put_slot i p r).rxq ≡ set r.rxq i (full_slot p)
unfolding put_slot
rxq-put i p r = refl
