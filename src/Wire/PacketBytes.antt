-- ===== src/Wire/PacketBytes.antt =====
-- swp_gen.go: what is written for a Packet are its fields in their order.
use go_sliding_window.Base.{ℕ, ◌≡◌, refl, ◌∙◌, inr, some, List, ◌∷◌, ◌++◌, append_assoc, append-nil}
use go_sliding_window.Base.Int.{pos}
use go_sliding_window.Packet.{Packet}
use go_sliding_window.Wire.Enums.{event_int}
use go_sliding_window.Wire.{Msgp}
use go_sliding_window.Wire.Packets.{marshal_packet}
use go_sliding_window.Wire.PacketEncode.{encode_packet}
use go_sliding_window.Wire.Laws.{
  Encoding, IsAppending, IsWriting, Wrote, ◌▹◌, Wrote-as, ◌▹▹◌, raw_lem, key_bytes,
}
use go_sliding_window.Wire.PacketTrip.{packet_bytes}

pub marshal_packet_lem :
    (m : Msgp) (e : Encoding) (ok : IsAppending e m.appends) (z : Packet) (b : List ℕ)
    → marshal_packet m z b ≡ b ++ packet_bytes e z
unfolding marshal_packet
marshal_packet_lem m e ok z b =
    let start : b ≡ b = refl in
    (start
      ▹▹ raw_lem (0xde ∷ 0x0 ∷ 0x15 ∷ key_bytes "From")
      ▹▹ ok.append_string_lem z.from
      ▹▹ raw_lem (key_bytes "Dest")
      ▹▹ ok.append_string_lem z.dest
      ▹▹ raw_lem (key_bytes "FromSessNonce")
      ▹▹ ok.append_string_lem z.from_sess_nonce
      ▹▹ raw_lem (key_bytes "DestSessNonce")
      ▹▹ ok.append_string_lem z.dest_sess_nonce
      ▹▹ raw_lem (key_bytes "ArrivedAtDestTm")
      ▹▹ ok.append_time_lem z.arrived_at_dest_tm
      ▹▹ raw_lem (key_bytes "DataSendTm")
      ▹▹ ok.append_time_lem z.data_send_tm
      ▹▹ raw_lem (key_bytes "SeqNum")
      ▹▹ ok.append_int64_lem z.seq_num
      ▹▹ raw_lem (key_bytes "SeqRetry")
      ▹▹ ok.append_int64_lem z.seq_retry
      ▹▹ raw_lem (key_bytes "AckNum")
      ▹▹ ok.append_int64_lem z.ack_num
      ▹▹ raw_lem (key_bytes "AckRetry")
      ▹▹ ok.append_int64_lem z.ack_retry
      ▹▹ raw_lem (key_bytes "AckReplyTm")
      ▹▹ ok.append_time_lem z.ack_reply_tm
      ▹▹ raw_lem (key_bytes "TcpEvent")
      ▹▹ ok.append_int_lem (event_int z.tcp_event)
      ▹▹ raw_lem (key_bytes "AvailReaderBytesCap")
      ▹▹ ok.append_int64_lem z.avail_reader_bytes_cap
      ▹▹ raw_lem (key_bytes "AvailReaderMsgCap")
      ▹▹ ok.append_int64_lem z.avail_reader_msg_cap
      ▹▹ raw_lem (key_bytes "FromRttEstNsec")
      ▹▹ ok.append_int64_lem z.from_rtt_est_nsec
      ▹▹ raw_lem (key_bytes "FromRttSdNsec")
      ▹▹ ok.append_int64_lem z.from_rtt_sd_nsec
      ▹▹ raw_lem (key_bytes "FromRttN")
      ▹▹ ok.append_int64_lem z.from_rtt_n
      ▹▹ raw_lem (key_bytes "CumulBytesTransmitted")
      ▹▹ ok.append_int64_lem z.cumul_bytes_transmitted
      ▹▹ raw_lem (key_bytes "Data")
      ▹▹ ok.append_bytes_lem z.payload
      ▹▹ raw_lem (key_bytes "DataOffset")
      ▹▹ ok.append_int_lem (pos z.data_offset)
      ▹▹ raw_lem (key_bytes "Blake2bChecksum")
      ▹▹ ok.append_bytes_lem z.blake2b_checksum)
    ∙ simp (append_assoc, append-nil)

pub encode_packet-Wrote :
    (m : Msgp) (e : Encoding) (ok : IsWriting e m.writer) (z : Packet) (b : List ℕ)
    → Wrote (encode_packet m z b) (b ++ packet_bytes e z)
unfolding encode_packet
encode_packet-Wrote m e ok z b =
    let first : Wrote (some b) b = inr refl in
    Wrote-as
      (first
        ▹ ok.append_raw_lem _
        ▹ ok.write_string_lem z.from
        ▹ ok.append_raw_lem _
        ▹ ok.write_string_lem z.dest
        ▹ ok.append_raw_lem _
        ▹ ok.write_string_lem z.from_sess_nonce
        ▹ ok.append_raw_lem _
        ▹ ok.write_string_lem z.dest_sess_nonce
        ▹ ok.append_raw_lem _
        ▹ ok.write_time_lem z.arrived_at_dest_tm
        ▹ ok.append_raw_lem _
        ▹ ok.write_time_lem z.data_send_tm
        ▹ ok.append_raw_lem _
        ▹ ok.write_int64_lem z.seq_num
        ▹ ok.append_raw_lem _
        ▹ ok.write_int64_lem z.seq_retry
        ▹ ok.append_raw_lem _
        ▹ ok.write_int64_lem z.ack_num
        ▹ ok.append_raw_lem _
        ▹ ok.write_int64_lem z.ack_retry
        ▹ ok.append_raw_lem _
        ▹ ok.write_time_lem z.ack_reply_tm
        ▹ ok.append_raw_lem _
        ▹ ok.write_int_lem (event_int z.tcp_event)
        ▹ ok.append_raw_lem _
        ▹ ok.write_int64_lem z.avail_reader_bytes_cap
        ▹ ok.append_raw_lem _
        ▹ ok.write_int64_lem z.avail_reader_msg_cap
        ▹ ok.append_raw_lem _
        ▹ ok.write_int64_lem z.from_rtt_est_nsec
        ▹ ok.append_raw_lem _
        ▹ ok.write_int64_lem z.from_rtt_sd_nsec
        ▹ ok.append_raw_lem _
        ▹ ok.write_int64_lem z.from_rtt_n
        ▹ ok.append_raw_lem _
        ▹ ok.write_int64_lem z.cumul_bytes_transmitted
        ▹ ok.append_raw_lem _
        ▹ ok.write_bytes_lem z.payload
        ▹ ok.append_raw_lem _
        ▹ ok.write_int_lem (pos z.data_offset)
        ▹ ok.append_raw_lem _
        ▹ ok.write_bytes_lem z.blake2b_checksum)
      (simp (append_assoc, append-nil))
