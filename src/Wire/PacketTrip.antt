-- ===== src/Wire/PacketTrip.antt =====
-- swp_gen.go: what is written for a Packet is read back.
use go_sliding_window.Base.{ℕ, ◌≡◌, ◌∙◌, ap, List, [], ◌∷◌, ◌++◌, arith}
use go_sliding_window.Base.Int.{pos}
use go_sliding_window.Packet.{Packet}
use go_sliding_window.Wire.Enums.{event_int, IsNamed, event_of_int-event_int}
use go_sliding_window.Wire.{Reads, more, decode_map, with_header}
use go_sliding_window.Wire.Packets.{packet_field}
use go_sliding_window.Wire.Laws.{
  Encoding, IsReading, Fields, fields_bytes, Fills, filled, ◌▸◌, reads, IsText, IsInt64, IsTime,
  IsBytes, decode_fields-bytes,
}

-- The packet that is read into `z0` where `z` was written: the fields that are not on the wire stay as
-- they were in `z0`.
abbrev pub carried : Packet → Packet → Packet
carried z0 z = record z {
  from_tcp_state = z0.from_tcp_state;
  cli_acked = z0.cli_acked;
  accounting = z0.accounting;
}

-- The fields have room in their formats.
pub record PacketFits (z : Packet) : Type 0 where
  pub from_fits : IsText z.from
  pub dest_fits : IsText z.dest
  pub from_sess_nonce_fits : IsText z.from_sess_nonce
  pub dest_sess_nonce_fits : IsText z.dest_sess_nonce
  pub arrived_at_dest_tm_fits : IsTime z.arrived_at_dest_tm
  pub data_send_tm_fits : IsTime z.data_send_tm
  pub seq_num_fits : IsInt64 z.seq_num
  pub seq_retry_fits : IsInt64 z.seq_retry
  pub ack_num_fits : IsInt64 z.ack_num
  pub ack_retry_fits : IsInt64 z.ack_retry
  pub ack_reply_tm_fits : IsTime z.ack_reply_tm
  pub tcp_event_fits : IsInt64 (event_int z.tcp_event)
  pub tcp_event_named : IsNamed z.tcp_event
  pub avail_reader_bytes_cap_fits : IsInt64 z.avail_reader_bytes_cap
  pub avail_reader_msg_cap_fits : IsInt64 z.avail_reader_msg_cap
  pub from_rtt_est_nsec_fits : IsInt64 z.from_rtt_est_nsec
  pub from_rtt_sd_nsec_fits : IsInt64 z.from_rtt_sd_nsec
  pub from_rtt_n_fits : IsInt64 z.from_rtt_n
  pub cumul_bytes_transmitted_fits : IsInt64 z.cumul_bytes_transmitted
  pub payload_fits : IsBytes z.payload
  pub data_offset_fits : IsInt64 (pos z.data_offset)
  pub blake2b_checksum_fits : IsBytes z.blake2b_checksum

-- The fields on the wire, in their order.
abbrev pub packet_fields : Encoding → Packet → Fields
packet_fields e z =
    ("From", e.string_bytes z.from)
    ∷ ("Dest", e.string_bytes z.dest)
    ∷ ("FromSessNonce", e.string_bytes z.from_sess_nonce)
    ∷ ("DestSessNonce", e.string_bytes z.dest_sess_nonce)
    ∷ ("ArrivedAtDestTm", e.time_bytes z.arrived_at_dest_tm)
    ∷ ("DataSendTm", e.time_bytes z.data_send_tm)
    ∷ ("SeqNum", e.int64_bytes z.seq_num)
    ∷ ("SeqRetry", e.int64_bytes z.seq_retry)
    ∷ ("AckNum", e.int64_bytes z.ack_num)
    ∷ ("AckRetry", e.int64_bytes z.ack_retry)
    ∷ ("AckReplyTm", e.time_bytes z.ack_reply_tm)
    ∷ ("TcpEvent", e.int_bytes (event_int z.tcp_event))
    ∷ ("AvailReaderBytesCap", e.int64_bytes z.avail_reader_bytes_cap)
    ∷ ("AvailReaderMsgCap", e.int64_bytes z.avail_reader_msg_cap)
    ∷ ("FromRttEstNsec", e.int64_bytes z.from_rtt_est_nsec)
    ∷ ("FromRttSdNsec", e.int64_bytes z.from_rtt_sd_nsec)
    ∷ ("FromRttN", e.int64_bytes z.from_rtt_n)
    ∷ ("CumulBytesTransmitted", e.int64_bytes z.cumul_bytes_transmitted)
    ∷ ("Data", e.bytes_bytes z.payload)
    ∷ ("DataOffset", e.int_bytes (pos z.data_offset))
    ∷ ("Blake2bChecksum", e.bytes_bytes z.blake2b_checksum)
    ∷ []

abbrev pub packet_bytes : Encoding → Packet → List ℕ
packet_bytes e z = 0xde ∷ 0x0 ∷ 0x15 ∷ fields_bytes (packet_fields e z)

packet_field-Fills :
    (e : Encoding) (r : Reads) (ok : IsReading e r) (z0 z : Packet)
    → PacketFits z
    → Fills (packet_field r) z0 (packet_fields e z) (carried z0 z)
unfolding packet_field
packet_field-Fills e r ok z0 z f =
    (λ rest. reads _ (ok.read_string_lem z.from f.from_fits rest))
    ▸ (λ rest. reads _ (ok.read_string_lem z.dest f.dest_fits rest))
    ▸ (λ rest. reads _ (ok.read_string_lem z.from_sess_nonce f.from_sess_nonce_fits rest))
    ▸ (λ rest. reads _ (ok.read_string_lem z.dest_sess_nonce f.dest_sess_nonce_fits rest))
    ▸ (λ rest. reads _ (ok.read_time_lem z.arrived_at_dest_tm f.arrived_at_dest_tm_fits rest))
    ▸ (λ rest. reads _ (ok.read_time_lem z.data_send_tm f.data_send_tm_fits rest))
    ▸ (λ rest. reads _ (ok.read_int64_lem z.seq_num f.seq_num_fits rest))
    ▸ (λ rest. reads _ (ok.read_int64_lem z.seq_retry f.seq_retry_fits rest))
    ▸ (λ rest. reads _ (ok.read_int64_lem z.ack_num f.ack_num_fits rest))
    ▸ (λ rest. reads _ (ok.read_int64_lem z.ack_retry f.ack_retry_fits rest))
    ▸ (λ rest. reads _ (ok.read_time_lem z.ack_reply_tm f.ack_reply_tm_fits rest))
    ▸ (λ rest. reads _ (ok.read_int_lem (event_int z.tcp_event) f.tcp_event_fits rest))
    ▸ (λ rest.
        reads _ (ok.read_int64_lem z.avail_reader_bytes_cap f.avail_reader_bytes_cap_fits rest))
    ▸ (λ rest. reads _ (ok.read_int64_lem z.avail_reader_msg_cap f.avail_reader_msg_cap_fits rest))
    ▸ (λ rest. reads _ (ok.read_int64_lem z.from_rtt_est_nsec f.from_rtt_est_nsec_fits rest))
    ▸ (λ rest. reads _ (ok.read_int64_lem z.from_rtt_sd_nsec f.from_rtt_sd_nsec_fits rest))
    ▸ (λ rest. reads _ (ok.read_int64_lem z.from_rtt_n f.from_rtt_n_fits rest))
    ▸ (λ rest.
        reads _ (ok.read_int64_lem z.cumul_bytes_transmitted f.cumul_bytes_transmitted_fits rest))
    ▸ (λ rest. reads _ (ok.read_bytes_lem _ z.payload f.payload_fits rest))
    ▸ (λ rest. reads _ (ok.read_int_lem (pos z.data_offset) f.data_offset_fits rest))
    ▸ (λ rest. reads _ (ok.read_bytes_lem _ z.blake2b_checksum f.blake2b_checksum_fits rest))
    ▸ filled (
        ap (λ ev. record (carried z0 z) { tcp_event = ev })
          (event_of_int-event_int z.tcp_event f.tcp_event_named))

pub decode_map-packet :
    (e : Encoding) (r : Reads) (ok : IsReading e r) (z0 z : Packet) (rest : List ℕ)
    → PacketFits z
    → decode_map r (packet_field r) z0 (packet_bytes e z ++ rest) ≡ more (carried z0 z) rest
unfolding decode_map
decode_map-packet e r ok z0 z rest f =
    ap (with_header r (packet_field r) z0) (
      ok.map_header_16 0x0 0x15 (fields_bytes (packet_fields e z) ++ rest) (omega arith)
        (omega arith))
    ∙ decode_fields-bytes e r ok (packet_field r) (packet_fields e z) z0 (carried z0 z) rest
        (omega arith) (packet_field-Fills e r ok z0 z f)
