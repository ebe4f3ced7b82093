-- ===== src/Wire/Messages.antt =====
-- swp_gen.go: the serialization of SynAckAck, ByteAccount and TerminatedError.
use Prim.Native.String.{len}
use go_sliding_window.Base.{
  ℕ, Option, none, some, List, [], ◌∷◌, ◌++◌, ◌+◌, ◌*◌, ◌%◌, ◌^◌, length, take, drop, replicate,
  String, str_eq, if◌then◌else◌, ◌>>=◌, leb,
}
use go_sliding_window.Base.Int.{ℤ, pos}
use go_sliding_window.Tcp.{TcpEvent}
use go_sliding_window.Wire.{
  Msgp, Reads, Appends, Writes, Decoded, failed, assign, skipped, decode_map, ◌|>◌, raw, string,
  int64, int, array_header, put_raw, put_string, put_int64, put_int, put_array_header,
}
use go_sliding_window.Wire.Enums.{event_int, event_of_int}

-- `NackList` is a slice: `nack_spare` are the elements of its array beyond its length.
pub record SynAckAck : Type 0 where
  pub tcp_event : TcpEvent
  pub session_nonce : String
  pub next_expected : ℤ
  pub nack_list : List ℤ
  pub nack_spare : List ℤ

pub record ByteAccount : Type 0 where
  pub num_bytes_acked : ℤ

pub record TerminatedError : Type 0 where
  pub msg : String

-- The slice cut to `n` elements of its array if there is room, or made anew.
unfoldable pub resliced : List ℤ → List ℤ → ℕ → List ℤ × List ℤ
resliced xs spare n =
    if leb n (length (xs ++ spare))
    then (take n (xs ++ spare), drop n (xs ++ spare))
    else (replicate n (pos 0), [])

module _ (r : Reads) where
  abbrev pub with_element :
      List ℤ → (List ℕ → List ℤ × Option (List ℕ)) → ℤ × Option (List ℕ) → List ℤ × Option (List ℕ)
  with_element xs go (v, none) = (v ∷ xs, none)
  with_element xs go (v, some bts) = (v ∷ (go bts).0, (go bts).1)

  -- The loop that reads each element of the slice.
  unfoldable pub read_elements : List ℤ → List ℕ → List ℤ × Option (List ℕ)
  read_elements [] bts = ([], some bts)
  read_elements (x ∷ xs) bts = with_element xs (λ b. read_elements xs b) (r.read_int64 bts)

  abbrev pub with_elements : SynAckAck → List ℤ × List ℤ → List ℕ → Decoded SynAckAck
  with_elements z cut bts =
      assign (read_elements cut.0 bts) (λ v. record z { nack_list = v; nack_spare = cut.1 })

  abbrev pub with_count : SynAckAck → ℕ × Option (List ℕ) → Decoded SynAckAck
  with_count z (n, none) = failed z
  with_count z (n, some bts) = with_elements z (resliced z.nack_list z.nack_spare n) bts

  -- The switch over the keys.
  unfoldable pub syn_ack_ack_field : String → SynAckAck → List ℕ → Decoded SynAckAck
  unfolding read_elements resliced
  syn_ack_ack_field key z bts =
      if str_eq key "TcpEvent"
      then assign (r.read_int bts) (λ v. record z { tcp_event = event_of_int v })
      else if str_eq key "SessionNonce"
      then assign (r.read_string bts) (λ v. record z { session_nonce = v })
      else if str_eq key "NextExpected"
      then assign (r.read_int64 bts) (λ v. record z { next_expected = v })
      else if str_eq key "NackList"
      then with_count z (r.array_header bts)
      else skipped (r.skip bts) z

unfoldable pub unmarshal_syn_ack_ack : Msgp → SynAckAck → List ℕ → Decoded SynAckAck
unmarshal_syn_ack_ack m z bts = decode_map m.slices (syn_ack_ack_field m.slices) z bts

unfoldable pub decode_syn_ack_ack : Msgp → SynAckAck → List ℕ → Decoded SynAckAck
decode_syn_ack_ack m z dc = decode_map m.reader (syn_ack_ack_field m.reader) z dc

-- The loops over the elements when writing.
unfoldable pub append_elements : Appends → List ℤ → List ℕ → List ℕ
append_elements a [] o = o
append_elements a (x ∷ xs) o = append_elements a xs (a.append_int64 o x)

unfoldable pub write_elements : Writes → List ℤ → List ℕ → Option (List ℕ)
write_elements w [] o = some o
write_elements w (x ∷ xs) o = w.write_int64 o x >>= write_elements w xs

unfoldable pub marshal_syn_ack_ack : Msgp → SynAckAck → List ℕ → List ℕ
unfolding append_elements
marshal_syn_ack_ack m z b =
    let a = m.appends in
    b
    |> raw (0x84 ∷ 0xa8 ∷ 0x54 ∷ 0x63 ∷ 0x70 ∷ 0x45 ∷ 0x76 ∷ 0x65 ∷ 0x6e ∷ 0x74 ∷ [])
    |> int a (event_int z.tcp_event)
    |> raw (
        0xac ∷ 0x53 ∷ 0x65 ∷ 0x73 ∷ 0x73 ∷ 0x69 ∷ 0x6f ∷ 0x6e ∷ 0x4e ∷ 0x6f ∷ 0x6e ∷ 0x63 ∷ 0x65
        ∷ [])
    |> string a z.session_nonce
    |> raw (
        0xac ∷ 0x4e ∷ 0x65 ∷ 0x78 ∷ 0x74 ∷ 0x45 ∷ 0x78 ∷ 0x70 ∷ 0x65 ∷ 0x63 ∷ 0x74 ∷ 0x65 ∷ 0x64
        ∷ [])
    |> int64 a z.next_expected
    |> raw (0xa8 ∷ 0x4e ∷ 0x61 ∷ 0x63 ∷ 0x6b ∷ 0x4c ∷ 0x69 ∷ 0x73 ∷ 0x74 ∷ [])
    |> array_header a (length z.nack_list % 2 ^ 32)
    |> append_elements a z.nack_list

unfoldable pub encode_syn_ack_ack : Msgp → SynAckAck → List ℕ → Option (List ℕ)
unfolding write_elements
encode_syn_ack_ack m z en =
    let w = m.writer in
    some en
    >>= put_raw w (0x84 ∷ 0xa8 ∷ 0x54 ∷ 0x63 ∷ 0x70 ∷ 0x45 ∷ 0x76 ∷ 0x65 ∷ 0x6e ∷ 0x74 ∷ [])
    >>= put_int w (event_int z.tcp_event)
    >>= put_raw w (
        0xac ∷ 0x53 ∷ 0x65 ∷ 0x73 ∷ 0x73 ∷ 0x69 ∷ 0x6f ∷ 0x6e ∷ 0x4e ∷ 0x6f ∷ 0x6e ∷ 0x63 ∷ 0x65
        ∷ [])
    >>= put_string w z.session_nonce
    >>= put_raw w (
        0xac ∷ 0x4e ∷ 0x65 ∷ 0x78 ∷ 0x74 ∷ 0x45 ∷ 0x78 ∷ 0x70 ∷ 0x65 ∷ 0x63 ∷ 0x74 ∷ 0x65 ∷ 0x64
        ∷ [])
    >>= put_int64 w z.next_expected
    >>= put_raw w (0xa8 ∷ 0x4e ∷ 0x61 ∷ 0x63 ∷ 0x6b ∷ 0x4c ∷ 0x69 ∷ 0x73 ∷ 0x74 ∷ [])
    >>= put_array_header w (length z.nack_list % 2 ^ 32)
    >>= write_elements w z.nack_list

unfoldable pub msgsize_syn_ack_ack : Msgp → SynAckAck → ℕ
msgsize_syn_ack_ack m z =
    let k = m.sizes in
    1
    + 9
    + k.int_size
    + 13
    + k.string_prefix_size
    + len z.session_nonce
    + 13
    + k.int64_size
    + 9
    + k.array_header_size
    + length z.nack_list * k.int64_size

module _ (r : Reads) where
  -- The switch over the keys.
  unfoldable pub byte_account_field : String → ByteAccount → List ℕ → Decoded ByteAccount
  byte_account_field key z bts =
      if str_eq key "NumBytesAcked"
      then assign (r.read_int64 bts) (λ v. record z { num_bytes_acked = v })
      else skipped (r.skip bts) z

-- `UnmarshalMsg` and `DecodeMsg`.
unfoldable pub unmarshal_byte_account : Msgp → ByteAccount → List ℕ → Decoded ByteAccount
unmarshal_byte_account m z bts = decode_map m.slices (byte_account_field m.slices) z bts

unfoldable pub decode_byte_account : Msgp → ByteAccount → List ℕ → Decoded ByteAccount
decode_byte_account m z dc = decode_map m.reader (byte_account_field m.reader) z dc

-- `MarshalMsg` and `EncodeMsg`. (`Require` makes room and changes no bytes.)
unfoldable pub marshal_byte_account : Msgp → ByteAccount → List ℕ → List ℕ
marshal_byte_account m z b =
    let a = m.appends in
    b
    |> raw (
        0x81 ∷ 0xad ∷ 0x4e ∷ 0x75 ∷ 0x6d ∷ 0x42 ∷ 0x79 ∷ 0x74 ∷ 0x65 ∷ 0x73 ∷ 0x41 ∷ 0x63 ∷ 0x6b
        ∷ 0x65 ∷ 0x64 ∷ [])
    |> int64 a z.num_bytes_acked

unfoldable pub encode_byte_account : Msgp → ByteAccount → List ℕ → Option (List ℕ)
encode_byte_account m z en =
    let w = m.writer in
    some en
    >>= put_raw w (
        0x81 ∷ 0xad ∷ 0x4e ∷ 0x75 ∷ 0x6d ∷ 0x42 ∷ 0x79 ∷ 0x74 ∷ 0x65 ∷ 0x73 ∷ 0x41 ∷ 0x63 ∷ 0x6b
        ∷ 0x65 ∷ 0x64 ∷ [])
    >>= put_int64 w z.num_bytes_acked

-- `Msgsize`.
unfoldable pub msgsize_byte_account : Msgp → ByteAccount → ℕ
msgsize_byte_account m z = let k = m.sizes in 1 + 14 + k.int64_size

module _ (r : Reads) where
  -- The switch over the keys.
  unfoldable pub terminated_error_field :
      String → TerminatedError → List ℕ → Decoded TerminatedError
  terminated_error_field key z bts =
      if str_eq key "Msg"
      then assign (r.read_string bts) (λ v. record z { msg = v })
      else skipped (r.skip bts) z

-- `UnmarshalMsg` and `DecodeMsg`.
unfoldable pub unmarshal_terminated_error :
    Msgp → TerminatedError → List ℕ → Decoded TerminatedError
unmarshal_terminated_error m z bts = decode_map m.slices (terminated_error_field m.slices) z bts

unfoldable pub decode_terminated_error : Msgp → TerminatedError → List ℕ → Decoded TerminatedError
decode_terminated_error m z dc = decode_map m.reader (terminated_error_field m.reader) z dc

-- `MarshalMsg` and `EncodeMsg`. (`Require` makes room and changes no bytes.)
unfoldable pub marshal_terminated_error : Msgp → TerminatedError → List ℕ → List ℕ
marshal_terminated_error m z b =
    let a = m.appends in b |> raw (0x81 ∷ 0xa3 ∷ 0x4d ∷ 0x73 ∷ 0x67 ∷ []) |> string a z.msg

unfoldable pub encode_terminated_error : Msgp → TerminatedError → List ℕ → Option (List ℕ)
encode_terminated_error m z en =
    let w = m.writer in
    some en >>= put_raw w (0x81 ∷ 0xa3 ∷ 0x4d ∷ 0x73 ∷ 0x67 ∷ []) >>= put_string w z.msg

-- `Msgsize`.
unfoldable pub msgsize_terminated_error : Msgp → TerminatedError → ℕ
msgsize_terminated_error m z = let k = m.sizes in 1 + 4 + k.string_prefix_size + len z.msg
