-- ===== src/Wire/PacketEncode.antt =====
-- swp_gen.go: a Packet written to a stream, and its size.
use Prim.Native.String.{len}
use go_sliding_window.Base.{ℕ, Option, some, List, [], ◌∷◌, ◌+◌, length, ◌>>=◌}
use go_sliding_window.Base.Int.{pos}
use go_sliding_window.Packet.{Packet}
use go_sliding_window.Wire.{Msgp, put_raw, put_string, put_int64, put_int, put_time, put_bytes}
use go_sliding_window.Wire.Enums.{event_int}

unfoldable pub encode_packet : Msgp → Packet → List ℕ → Option (List ℕ)
encode_packet m z en =
    let w = m.writer in
    some en
    >>= put_raw w (0xde ∷ 0x0 ∷ 0x15 ∷ 0xa4 ∷ 0x46 ∷ 0x72 ∷ 0x6f ∷ 0x6d ∷ [])
    >>= put_string w z.from
    >>= put_raw w (0xa4 ∷ 0x44 ∷ 0x65 ∷ 0x73 ∷ 0x74 ∷ [])
    >>= put_string w z.dest
    >>= put_raw w (
        0xad ∷ 0x46 ∷ 0x72 ∷ 0x6f ∷ 0x6d ∷ 0x53 ∷ 0x65 ∷ 0x73 ∷ 0x73 ∷ 0x4e ∷ 0x6f ∷ 0x6e ∷ 0x63
        ∷ 0x65 ∷ [])
    >>= put_string w z.from_sess_nonce
    >>= put_raw w (
        0xad ∷ 0x44 ∷ 0x65 ∷ 0x73 ∷ 0x74 ∷ 0x53 ∷ 0x65 ∷ 0x73 ∷ 0x73 ∷ 0x4e ∷ 0x6f ∷ 0x6e ∷ 0x63
        ∷ 0x65 ∷ [])
    >>= put_string w z.dest_sess_nonce
    >>= put_raw w (
        0xaf ∷ 0x41 ∷ 0x72 ∷ 0x72 ∷ 0x69 ∷ 0x76 ∷ 0x65 ∷ 0x64 ∷ 0x41 ∷ 0x74 ∷ 0x44 ∷ 0x65 ∷ 0x73
        ∷ 0x74 ∷ 0x54 ∷ 0x6d ∷ [])
    >>= put_time w z.arrived_at_dest_tm
    >>= put_raw w (0xaa ∷ 0x44 ∷ 0x61 ∷ 0x74 ∷ 0x61 ∷ 0x53 ∷ 0x65 ∷ 0x6e ∷ 0x64 ∷ 0x54 ∷ 0x6d ∷ [])
    >>= put_time w z.data_send_tm
    >>= put_raw w (0xa6 ∷ 0x53 ∷ 0x65 ∷ 0x71 ∷ 0x4e ∷ 0x75 ∷ 0x6d ∷ [])
    >>= put_int64 w z.seq_num
    >>= put_raw w (0xa8 ∷ 0x53 ∷ 0x65 ∷ 0x71 ∷ 0x52 ∷ 0x65 ∷ 0x74 ∷ 0x72 ∷ 0x79 ∷ [])
    >>= put_int64 w z.seq_retry
    >>= put_raw w (0xa6 ∷ 0x41 ∷ 0x63 ∷ 0x6b ∷ 0x4e ∷ 0x75 ∷ 0x6d ∷ [])
    >>= put_int64 w z.ack_num
    >>= put_raw w (0xa8 ∷ 0x41 ∷ 0x63 ∷ 0x6b ∷ 0x52 ∷ 0x65 ∷ 0x74 ∷ 0x72 ∷ 0x79 ∷ [])
    >>= put_int64 w z.ack_retry
    >>= put_raw w (0xaa ∷ 0x41 ∷ 0x63 ∷ 0x6b ∷ 0x52 ∷ 0x65 ∷ 0x70 ∷ 0x6c ∷ 0x79 ∷ 0x54 ∷ 0x6d ∷ [])
    >>= put_time w z.ack_reply_tm
    >>= put_raw w (0xa8 ∷ 0x54 ∷ 0x63 ∷ 0x70 ∷ 0x45 ∷ 0x76 ∷ 0x65 ∷ 0x6e ∷ 0x74 ∷ [])
    >>= put_int w (event_int z.tcp_event)
    >>= put_raw w (
        0xb3 ∷ 0x41 ∷ 0x76 ∷ 0x61 ∷ 0x69 ∷ 0x6c ∷ 0x52 ∷ 0x65 ∷ 0x61 ∷ 0x64 ∷ 0x65 ∷ 0x72 ∷ 0x42
        ∷ 0x79 ∷ 0x74 ∷ 0x65 ∷ 0x73 ∷ 0x43 ∷ 0x61 ∷ 0x70 ∷ [])
    >>= put_int64 w z.avail_reader_bytes_cap
    >>= put_raw w (
        0xb1 ∷ 0x41 ∷ 0x76 ∷ 0x61 ∷ 0x69 ∷ 0x6c ∷ 0x52 ∷ 0x65 ∷ 0x61 ∷ 0x64 ∷ 0x65 ∷ 0x72 ∷ 0x4d
        ∷ 0x73 ∷ 0x67 ∷ 0x43 ∷ 0x61 ∷ 0x70 ∷ [])
    >>= put_int64 w z.avail_reader_msg_cap
    >>= put_raw w (
        0xae ∷ 0x46 ∷ 0x72 ∷ 0x6f ∷ 0x6d ∷ 0x52 ∷ 0x74 ∷ 0x74 ∷ 0x45 ∷ 0x73 ∷ 0x74 ∷ 0x4e ∷ 0x73
        ∷ 0x65 ∷ 0x63 ∷ [])
    >>= put_int64 w z.from_rtt_est_nsec
    >>= put_raw w (
        0xad ∷ 0x46 ∷ 0x72 ∷ 0x6f ∷ 0x6d ∷ 0x52 ∷ 0x74 ∷ 0x74 ∷ 0x53 ∷ 0x64 ∷ 0x4e ∷ 0x73 ∷ 0x65
        ∷ 0x63 ∷ [])
    >>= put_int64 w z.from_rtt_sd_nsec
    >>= put_raw w (0xa8 ∷ 0x46 ∷ 0x72 ∷ 0x6f ∷ 0x6d ∷ 0x52 ∷ 0x74 ∷ 0x74 ∷ 0x4e ∷ [])
    >>= put_int64 w z.from_rtt_n
    >>= put_raw w (
        0xb5 ∷ 0x43 ∷ 0x75 ∷ 0x6d ∷ 0x75 ∷ 0x6c ∷ 0x42 ∷ 0x79 ∷ 0x74 ∷ 0x65 ∷ 0x73 ∷ 0x54 ∷ 0x72
        ∷ 0x61 ∷ 0x6e ∷ 0x73 ∷ 0x6d ∷ 0x69 ∷ 0x74 ∷ 0x74 ∷ 0x65 ∷ 0x64 ∷ [])
    >>= put_int64 w z.cumul_bytes_transmitted
    >>= put_raw w (0xa4 ∷ 0x44 ∷ 0x61 ∷ 0x74 ∷ 0x61 ∷ [])
    >>= put_bytes w z.payload
    >>= put_raw w (0xaa ∷ 0x44 ∷ 0x61 ∷ 0x74 ∷ 0x61 ∷ 0x4f ∷ 0x66 ∷ 0x66 ∷ 0x73 ∷ 0x65 ∷ 0x74 ∷ [])
    >>= put_int w (pos z.data_offset)
    >>= put_raw w (
        0xaf ∷ 0x42 ∷ 0x6c ∷ 0x61 ∷ 0x6b ∷ 0x65 ∷ 0x32 ∷ 0x62 ∷ 0x43 ∷ 0x68 ∷ 0x65 ∷ 0x63 ∷ 0x6b
        ∷ 0x73 ∷ 0x75 ∷ 0x6d ∷ [])
    >>= put_bytes w z.blake2b_checksum

-- `Msgsize`.
unfoldable pub msgsize_packet : Msgp → Packet → ℕ
msgsize_packet m z =
    let k = m.sizes in
    3
    + 5
    + k.string_prefix_size
    + len z.from
    + 5
    + k.string_prefix_size
    + len z.dest
    + 14
    + k.string_prefix_size
    + len z.from_sess_nonce
    + 14
    + k.string_prefix_size
    + len z.dest_sess_nonce
    + 16
    + k.time_size
    + 11
    + k.time_size
    + 7
    + k.int64_size
    + 9
    + k.int64_size
    + 7
    + k.int64_size
    + 9
    + k.int64_size
    + 11
    + k.time_size
    + 9
    + k.int_size
    + 20
    + k.int64_size
    + 18
    + k.int64_size
    + 15
    + k.int64_size
    + 14
    + k.int64_size
    + 9
    + k.int64_size
    + 22
    + k.int64_size
    + 5
    + k.bytes_prefix_size
    + length z.payload
    + 11
    + k.int_size
    + 16
    + k.bytes_prefix_size
    + length z.blake2b_checksum
