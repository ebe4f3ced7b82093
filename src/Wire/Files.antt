-- ===== src/Wire/Files.antt =====
-- swp_gen.go: the serialization of BigFile.
use Prim.Native.String.{len}
use go_sliding_window.Base.Int.{pos}
use go_sliding_window.Base.{
  Bool, true, false, ℕ, Option, some, List, [], ◌∷◌, ◌+◌, length, String, str_eq, if◌then◌else◌,
  ◌>>=◌,
}
use go_sliding_window.Session.{BigFile}
use go_sliding_window.Wire.{
  Msgp, Reads, Decoded, failed, more, assign, skipped, decode_map, ◌|>◌, raw, string, int64, time,
  bytes, put_raw, put_string, put_int64, put_time, put_bytes,
}

module _ (r : Reads) where
  -- The switch over the keys.
  unfoldable pub big_file_field : String → BigFile → List ℕ → Decoded BigFile
  big_file_field key z bts =
      if str_eq key "Filepath"
      then assign (r.read_string bts) (λ v. record z { filepath = v })
      else if str_eq key "SizeInBytes"
      then assign (r.read_int64 bts) (λ v. record z { size_in_bytes = v })
      else if str_eq key "Blake2b"
      then assign (r.read_bytes z.blake2b_of bts) (λ v. record z { blake2b_of = v })
      else if str_eq key "SendTime"
      then assign (r.read_time bts) (λ v. record z { send_time = v })
      else if str_eq key "Data"
      then assign (r.read_bytes z.content bts) (λ v. record z { content = v })
      else skipped (r.skip bts) z

-- `UnmarshalMsg` and `DecodeMsg`.
unfoldable pub unmarshal_big_file : Msgp → BigFile → List ℕ → Decoded BigFile
unmarshal_big_file m z bts = decode_map m.slices (big_file_field m.slices) z bts

unfoldable pub decode_big_file : Msgp → BigFile → List ℕ → Decoded BigFile
decode_big_file m z dc = decode_map m.reader (big_file_field m.reader) z dc

-- `MarshalMsg` and `EncodeMsg`. (`Require` makes room and changes no bytes.)
unfoldable pub marshal_big_file : Msgp → BigFile → List ℕ → List ℕ
marshal_big_file m z b =
    let a = m.appends in
    b
    |> raw (0x85 ∷ 0xa8 ∷ 0x46 ∷ 0x69 ∷ 0x6c ∷ 0x65 ∷ 0x70 ∷ 0x61 ∷ 0x74 ∷ 0x68 ∷ [])
    |> string a z.filepath
    |> raw (0xab ∷ 0x53 ∷ 0x69 ∷ 0x7a ∷ 0x65 ∷ 0x49 ∷ 0x6e ∷ 0x42 ∷ 0x79 ∷ 0x74 ∷ 0x65 ∷ 0x73 ∷ [])
    |> int64 a z.size_in_bytes
    |> raw (0xa7 ∷ 0x42 ∷ 0x6c ∷ 0x61 ∷ 0x6b ∷ 0x65 ∷ 0x32 ∷ 0x62 ∷ [])
    |> bytes a z.blake2b_of
    |> raw (0xa8 ∷ 0x53 ∷ 0x65 ∷ 0x6e ∷ 0x64 ∷ 0x54 ∷ 0x69 ∷ 0x6d ∷ 0x65 ∷ [])
    |> time a z.send_time
    |> raw (0xa4 ∷ 0x44 ∷ 0x61 ∷ 0x74 ∷ 0x61 ∷ [])
    |> bytes a z.content

unfoldable pub encode_big_file : Msgp → BigFile → List ℕ → Option (List ℕ)
encode_big_file m z en =
    let w = m.writer in
    some en
    >>= put_raw w (0x85 ∷ 0xa8 ∷ 0x46 ∷ 0x69 ∷ 0x6c ∷ 0x65 ∷ 0x70 ∷ 0x61 ∷ 0x74 ∷ 0x68 ∷ [])
    >>= put_string w z.filepath
    >>= put_raw w
        (0xab ∷ 0x53 ∷ 0x69 ∷ 0x7a ∷ 0x65 ∷ 0x49 ∷ 0x6e ∷ 0x42 ∷ 0x79 ∷ 0x74 ∷ 0x65 ∷ 0x73 ∷ [])
    >>= put_int64 w z.size_in_bytes
    >>= put_raw w (0xa7 ∷ 0x42 ∷ 0x6c ∷ 0x61 ∷ 0x6b ∷ 0x65 ∷ 0x32 ∷ 0x62 ∷ [])
    >>= put_bytes w z.blake2b_of
    >>= put_raw w (0xa8 ∷ 0x53 ∷ 0x65 ∷ 0x6e ∷ 0x64 ∷ 0x54 ∷ 0x69 ∷ 0x6d ∷ 0x65 ∷ [])
    >>= put_time w z.send_time
    >>= put_raw w (0xa4 ∷ 0x44 ∷ 0x61 ∷ 0x74 ∷ 0x61 ∷ [])
    >>= put_bytes w z.content

-- `Msgsize`.
unfoldable pub msgsize_big_file : Msgp → BigFile → ℕ
msgsize_big_file m z =
    let k = m.sizes in
    1
    + 9
    + k.string_prefix_size
    + len z.filepath
    + 12
    + k.int64_size
    + 8
    + k.bytes_prefix_size
    + length z.blake2b_of
    + 9
    + k.time_size
    + 5
    + k.bytes_prefix_size
    + length z.content

-- What `RecvFile` decodes into a new file: the file as far as it was filled in, and whether there was
-- no error. (`msgp.Decode` makes a reader and calls `DecodeMsg`.)
abbrev pub new_big_file : BigFile
new_big_file = record {
  filepath = "";
  size_in_bytes = pos 0;
  blake2b_of = [];
  send_time = pos 0;
  content = [];
}

abbrev pub filled_in : Decoded BigFile → BigFile × Bool
filled_in (failed z) = (z, false)
filled_in (more z rest) = (z, true)

unfoldable pub decode_new_file : Msgp → List ℕ → BigFile × Bool
decode_new_file m bytes = filled_in (decode_big_file m new_big_file bytes)
