-- ===== src/Recv/Consume.antt =====
-- recv.go: the application takes what is ready, as a list of packets over `ReadMessagesCh`, or as
-- bytes into the buffer of a `Read`.
use go_sliding_window.Base.{
  ℕ, ◌+◌, ◌-◌, min, Option, none, some, List, [], ◌∷◌, ◌++◌, length, take, drop, ◌==◌, leb,
  if◌then◌else◌,
}
use go_sliding_window.Base.Int.{pos, add_64, sub_64}
use go_sliding_window.Tcp.{event_data_ack}
use go_sliding_window.Packet.{Packet, Time}
use go_sliding_window.Recv.{RecvState}
use go_sliding_window.Recv.Data.{delete_held}
use go_sliding_window.Recv.Ack.{ack}

-- One round of the loop over `delivery.Seq`.
unfoldable pub consume_pack : RecvState → Packet → RecvState
consume_pack r pack = record r {
  rx = record (r.rx) {
    rcvd_but_not_consumed = delete_held pack.seq_num r.rx.rcvd_but_not_consumed;
  };
  flow = record (r.flow) { last_msg_consumed = pack.seq_num };
}

unfoldable pub consume_packs : RecvState → List Packet → RecvState
unfolding consume_pack
consume_packs r [] = r
consume_packs r (p ∷ ps) = consume_packs (consume_pack r p) ps

abbrev pub last_pack : Packet → List Packet → Packet
last_pack p [] = p
last_pack p (q ∷ qs) = last_pack q qs

-- What follows the loop, for a delivery that ends with `pack`.
unfoldable pub end_delivery : RecvState → Packet → Time → RecvState
end_delivery r pack now =
    ack
      (record r {
        rx = record (r.rx) { ready_for_delivery = [] };
        flow = record (r.flow) {
          last_byte_consumed = pack.cumul_bytes_transmitted;
          last_frame_client_consumed = pack.seq_num;
        };
      })
      pack.seq_num (some pack) event_data_ack now

-- The case `deliverToConsumer <- delivery`: the packets delivered, and the state. The case is
-- enabled only while something is ready.
unfoldable pub deliver_to_consumer : RecvState → Time → RecvState × List Packet
unfolding consume_packs end_delivery
deliver_to_consumer r now = elim r.rx.ready_for_delivery [
  | [] ↦ (r, [])
  | p ∷ ps ↦ (end_delivery (consume_packs r (p ∷ ps)) (last_pack p ps) now, p ∷ ps)
]

-- `ReadRequest`: `cap` is `len(rr.P)`, and `got` are the first `rr.N` bytes of `rr.P`.
pub record ReadRequest : Type 0 where
  pub cap : ℕ
  pub got : List ℕ

-- `Data[DataOffset:]`. Only this loop moves an offset, never past the end; for a packet that came with
-- a larger one Go would panic at the slice.
abbrev pub unread : Packet → List ℕ
unread p = drop p.data_offset p.payload

-- The number `m` of bytes that `copy` moves from a packet.
abbrev pub copied : ReadRequest → Packet → ℕ
copied rr p = min (rr.cap - length rr.got) (length (unread p))

unfoldable pub fill_request : ReadRequest → Packet → ReadRequest
fill_request rr p = record rr { got = rr.got ++ take (copied rr p) (unread p) }

-- The packet was read to its end: it leaves the ready list.
unfoldable pub consume_whole : RecvState → Packet → List Packet → RecvState
consume_whole r p rest = record r {
  rx = record (r.rx) {
    ready_for_delivery = rest;
    rcvd_but_not_consumed = delete_held p.seq_num r.rx.rcvd_but_not_consumed;
  };
  flow = record (r.flow) {
    last_msg_consumed = p.seq_num;
    last_frame_client_consumed = p.seq_num;
    last_byte_consumed = p.cumul_bytes_transmitted;
  };
}

-- `m` bytes of it were read: the offset moves, and the packet stays first.
unfoldable pub consume_part : RecvState → Packet → ℕ → List Packet → RecvState
consume_part r p m rest = record r {
  rx = record (r.rx) { ready_for_delivery = record p { data_offset = p.data_offset + m } ∷ rest };
  flow = record (r.flow) {
    last_byte_consumed =
        add_64 (sub_64 p.cumul_bytes_transmitted (pos (length (unread p)))) (pos m);
  };
}

-- The loop over the ready packets; the last component is `lastPack`.
unfoldable pub fill_loop :
    List Packet → RecvState → ReadRequest → Option Packet → RecvState × ReadRequest × Option Packet
unfolding fill_request consume_whole consume_part
fill_loop [] r rr last = (r, rr, last)
fill_loop (p ∷ rest) r rr last =
    let m = copied rr p in
    let rr' = fill_request rr p in
    let whole = consume_whole r p rest in
    let go_on = fill_loop rest whole rr' (some p) in
    if m == length (unread p)
    then (if leb rr'.cap (length rr'.got) then (whole, rr', some p) else go_on)
    else (consume_part r p m rest, rr', last)

abbrev pub ack_last : RecvState → Option Packet → Time → RecvState
ack_last r none now = r
ack_last r (some p) now = ack r r.flow.last_frame_client_consumed (some p) event_data_ack now

-- `fillAsMuchAsPossible`.
unfoldable pub fill_as_much_as_possible : RecvState → ReadRequest → Time → RecvState × ReadRequest
unfolding fill_loop
fill_as_much_as_possible r rr now =
    if rr.cap == 0
    then (r, rr)
    else (let (r', rr', last) = fill_loop r.rx.ready_for_delivery r rr none in
        (ack_last r' last now, rr'))
