-- ===== src/Wire/Packets.antt =====
-- swp_gen.go: the serialization of Packet. `CliAcked` and `Accounting` are left out by their tags, and
-- FromTcpState is not among the fields that the generated code knows. An offset is a natural number in
-- this model: a negative one, which no sender writes, would be read as 0.

use go_sliding_window.Base.{ℕ, List, [], ◌∷◌, String, str_eq, if◌then◌else◌}
use go_sliding_window.Base.Int.{pos, pos_part}
use go_sliding_window.Packet.{Packet}
use go_sliding_window.Wire.{
  Msgp, Reads, Decoded, assign, skipped, decode_map, ◌|>◌, raw, string, int64, int, time, bytes,
}
use go_sliding_window.Wire.Enums.{event_int, event_of_int}

module _ (r : Reads) where
  -- The switch over the keys.
  unfoldable pub packet_field : String → Packet → List ℕ → Decoded Packet
  packet_field key z bts =
      if str_eq key "From"
      then assign (r.read_string bts) (λ v. record z { from = v })
      else if str_eq key "Dest"
      then assign (r.read_string bts) (λ v. record z { dest = v })
      else if str_eq key "FromSessNonce"
      then assign (r.read_string bts) (λ v. record z { from_sess_nonce = v })
      else if str_eq key "DestSessNonce"
      then assign (r.read_string bts) (λ v. record z { dest_sess_nonce = v })
      else if str_eq key "ArrivedAtDestTm"
      then assign (r.read_time bts) (λ v. record z { arrived_at_dest_tm = v })
      else if str_eq key "DataSendTm"
      then assign (r.read_time bts) (λ v. record z { data_send_tm = v })
      else if str_eq key "SeqNum"
      then assign (r.read_int64 bts) (λ v. record z { seq_num = v })
      else if str_eq key "SeqRetry"
      then assign (r.read_int64 bts) (λ v. record z { seq_retry = v })
      else if str_eq key "AckNum"
      then assign (r.read_int64 bts) (λ v. record z { ack_num = v })
      else if str_eq key "AckRetry"
      then assign (r.read_int64 bts) (λ v. record z { ack_retry = v })
      else if str_eq key "AckReplyTm"
      then assign (r.read_time bts) (λ v. record z { ack_reply_tm = v })
      else if str_eq key "TcpEvent"
      then assign (r.read_int bts) (λ v. record z { tcp_event = event_of_int v })
      else if str_eq key "AvailReaderBytesCap"
      then assign (r.read_int64 bts) (λ v. record z { avail_reader_bytes_cap = v })
      else if str_eq key "AvailReaderMsgCap"
      then assign (r.read_int64 bts) (λ v. record z { avail_reader_msg_cap = v })
      else if str_eq key "FromRttEstNsec"
      then assign (r.read_int64 bts) (λ v. record z { from_rtt_est_nsec = v })
      else if str_eq key "FromRttSdNsec"
      then assign (r.read_int64 bts) (λ v. record z { from_rtt_sd_nsec = v })
      else if str_eq key "FromRttN"
      then assign (r.read_int64 bts) (λ v. record z { from_rtt_n = v })
      else if str_eq key "CumulBytesTransmitted"
      then assign (r.read_int64 bts) (λ v. record z { cumul_bytes_transmitted = v })
      else if str_eq key "Data"
      then assign (r.read_bytes z.payload bts) (λ v. record z { payload = v })
      else if str_eq key "DataOffset"
      then assign (r.read_int bts) (λ v. record z { data_offset = pos_part v })
      else if str_eq key "Blake2bChecksum"
      then assign (r.read_bytes z.blake2b_checksum bts) (λ v. record z { blake2b_checksum = v })
      else skipped (r.skip bts) z

-- `UnmarshalMsg` and `DecodeMsg`.
unfoldable pub unmarshal_packet : Msgp → Packet → List ℕ → Decoded Packet
unmarshal_packet m z bts = decode_map m.slices (packet_field m.slices) z bts

unfoldable pub decode_packet : Msgp → Packet → List ℕ → Decoded Packet
decode_packet m z dc = decode_map m.reader (packet_field m.reader) z dc

-- `MarshalMsg` and `EncodeMsg`. (`Require` makes room and changes no bytes.)
unfoldable pub marshal_packet : Msgp → Packet → List ℕ → List ℕ
marshal_packet m z b =
    let a = m.appends in
    b
    |> raw (0xde ∷ 0x0 ∷ 0x15 ∷ 0xa4 ∷ 0x46 ∷ 0x72 ∷ 0x6f ∷ 0x6d ∷ [])
    |> string a z.from
    |> raw (0xa4 ∷ 0x44 ∷ 0x65 ∷ 0x73 ∷ 0x74 ∷ [])
    |> string a z.dest
    |> raw (
        0xad ∷ 0x46 ∷ 0x72 ∷ 0x6f ∷ 0x6d ∷ 0x53 ∷ 0x65 ∷ 0x73 ∷ 0x73 ∷ 0x4e ∷ 0x6f ∷ 0x6e ∷ 0x63
        ∷ 0x65 ∷ [])
    |> string a z.from_sess_nonce
    |> raw (
        0xad ∷ 0x44 ∷ 0x65 ∷ 0x73 ∷ 0x74 ∷ 0x53 ∷ 0x65 ∷ 0x73 ∷ 0x73 ∷ 0x4e ∷ 0x6f ∷ 0x6e ∷ 0x63
        ∷ 0x65 ∷ [])
    |> string a z.dest_sess_nonce
    |> raw (
        0xaf ∷ 0x41 ∷ 0x72 ∷ 0x72 ∷ 0x69 ∷ 0x76 ∷ 0x65 ∷ 0x64 ∷ 0x41 ∷ 0x74 ∷ 0x44 ∷ 0x65 ∷ 0x73
        ∷ 0x74 ∷ 0x54 ∷ 0x6d ∷ [])
    |> time a z.arrived_at_dest_tm
    |> raw (0xaa ∷ 0x44 ∷ 0x61 ∷ 0x74 ∷ 0x61 ∷ 0x53 ∷ 0x65 ∷ 0x6e ∷ 0x64 ∷ 0x54 ∷ 0x6d ∷ [])
    |> time a z.data_send_tm
    |> raw (0xa6 ∷ 0x53 ∷ 0x65 ∷ 0x71 ∷ 0x4e ∷ 0x75 ∷ 0x6d ∷ [])
    |> int64 a z.seq_num
    |> raw (0xa8 ∷ 0x53 ∷ 0x65 ∷ 0x71 ∷ 0x52 ∷ 0x65 ∷ 0x74 ∷ 0x72 ∷ 0x79 ∷ [])
    |> int64 a z.seq_retry
    |> raw (0xa6 ∷ 0x41 ∷ 0x63 ∷ 0x6b ∷ 0x4e ∷ 0x75 ∷ 0x6d ∷ [])
    |> int64 a z.ack_num
    |> raw (0xa8 ∷ 0x41 ∷ 0x63 ∷ 0x6b ∷ 0x52 ∷ 0x65 ∷ 0x74 ∷ 0x72 ∷ 0x79 ∷ [])
    |> int64 a z.ack_retry
    |> raw (0xaa ∷ 0x41 ∷ 0x63 ∷ 0x6b ∷ 0x52 ∷ 0x65 ∷ 0x70 ∷ 0x6c ∷ 0x79 ∷ 0x54 ∷ 0x6d ∷ [])
    |> time a z.ack_reply_tm
    |> raw (0xa8 ∷ 0x54 ∷ 0x63 ∷ 0x70 ∷ 0x45 ∷ 0x76 ∷ 0x65 ∷ 0x6e ∷ 0x74 ∷ [])
    |> int a (event_int z.tcp_event)
    |> raw (
        0xb3 ∷ 0x41 ∷ 0x76 ∷ 0x61 ∷ 0x69 ∷ 0x6c ∷ 0x52 ∷ 0x65 ∷ 0x61 ∷ 0x64 ∷ 0x65 ∷ 0x72 ∷ 0x42
        ∷ 0x79 ∷ 0x74 ∷ 0x65 ∷ 0x73 ∷ 0x43 ∷ 0x61 ∷ 0x70 ∷ [])
    |> int64 a z.avail_reader_bytes_cap
    |> raw (
        0xb1 ∷ 0x41 ∷ 0x76 ∷ 0x61 ∷ 0x69 ∷ 0x6c ∷ 0x52 ∷ 0x65 ∷ 0x61 ∷ 0x64 ∷ 0x65 ∷ 0x72 ∷ 0x4d
        ∷ 0x73 ∷ 0x67 ∷ 0x43 ∷ 0x61 ∷ 0x70 ∷ [])
    |> int64 a z.avail_reader_msg_cap
    |> raw (
        0xae ∷ 0x46 ∷ 0x72 ∷ 0x6f ∷ 0x6d ∷ 0x52 ∷ 0x74 ∷ 0x74 ∷ 0x45 ∷ 0x73 ∷ 0x74 ∷ 0x4e ∷ 0x73
        ∷ 0x65 ∷ 0x63 ∷ [])
    |> int64 a z.from_rtt_est_nsec
    |> raw (
        0xad ∷ 0x46 ∷ 0x72 ∷ 0x6f ∷ 0x6d ∷ 0x52 ∷ 0x74 ∷ 0x74 ∷ 0x53 ∷ 0x64 ∷ 0x4e ∷ 0x73 ∷ 0x65
        ∷ 0x63 ∷ [])
    |> int64 a z.from_rtt_sd_nsec
    |> raw (0xa8 ∷ 0x46 ∷ 0x72 ∷ 0x6f ∷ 0x6d ∷ 0x52 ∷ 0x74 ∷ 0x74 ∷ 0x4e ∷ [])
    |> int64 a z.from_rtt_n
    |> raw (
        0xb5 ∷ 0x43 ∷ 0x75 ∷ 0x6d ∷ 0x75 ∷ 0x6c ∷ 0x42 ∷ 0x79 ∷ 0x74 ∷ 0x65 ∷ 0x73 ∷ 0x54 ∷ 0x72
        ∷ 0x61 ∷ 0x6e ∷ 0x73 ∷ 0x6d ∷ 0x69 ∷ 0x74 ∷ 0x74 ∷ 0x65 ∷ 0x64 ∷ [])
    |> int64 a z.cumul_bytes_transmitted
    |> raw (0xa4 ∷ 0x44 ∷ 0x61 ∷ 0x74 ∷ 0x61 ∷ [])
    |> bytes a z.payload
    |> raw (0xaa ∷ 0x44 ∷ 0x61 ∷ 0x74 ∷ 0x61 ∷ 0x4f ∷ 0x66 ∷ 0x66 ∷ 0x73 ∷ 0x65 ∷ 0x74 ∷ [])
    |> int a (pos z.data_offset)
    |> raw (
        0xaf ∷ 0x42 ∷ 0x6c ∷ 0x61 ∷ 0x6b ∷ 0x65 ∷ 0x32 ∷ 0x62 ∷ 0x43 ∷ 0x68 ∷ 0x65 ∷ 0x63 ∷ 0x6b
        ∷ 0x73 ∷ 0x75 ∷ 0x6d ∷ [])
    |> bytes a z.blake2b_checksum
