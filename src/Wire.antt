-- ===== src/Wire.antt =====
-- swp_gen.go, tcp_gen.go: what the generated serialization code has in common. The functions of
-- github.com/tinylib/msgp that it calls are a parameter: those on byte slices, and the methods of
-- `Reader` and `Writer`. A reader is the bytes that it still has to read, a writer those that it has
-- written.
pub mod Enums
pub mod Files
pub mod Packets
pub mod PacketEncode
pub mod Messages
pub mod Dispatch
pub mod Laws
pub mod FileTrip
pub mod PacketTrip
pub mod PacketBytes
pub mod MessageTrip
pub mod AckTrip
pub mod Encode
pub mod RoundTrip
pub mod Nats
pub mod Bounds
pub mod Plain
pub mod Chars
use go_sliding_window.Base.{ℕ, zero, suc, Option, none, some, List, ◌++◌, String}
use go_sliding_window.Base.Int.{ℤ}
use go_sliding_window.Packet.{Time}

-- A read gives a value, also with an error, and the bytes that are left; `none` is an error.
abbrev pub Read : Type 0 → Type 0
Read A = List ℕ → A × Option (List ℕ)

-- `ReadMapHeaderBytes(bts)` and its like, or `dc.ReadMapHeader()` and its like.
pub record Reads : Type 0 where
  pub map_header : Read ℕ
  pub map_key : Read String
  pub array_header : Read ℕ
  pub read_string : Read String
  pub read_int64 : Read ℤ
  pub read_int : Read ℤ
  pub read_time : Read Time
  pub read_bytes : List ℕ → Read (List ℕ)  -- the first argument is the slice to use again
  pub skip : List ℕ → Option (List ℕ)

-- `AppendString(o, s)` and its like.
pub record Appends : Type 0 where
  pub append_array_header : List ℕ → ℕ → List ℕ
  pub append_string : List ℕ → String → List ℕ
  pub append_int64 : List ℕ → ℤ → List ℕ
  pub append_int : List ℕ → ℤ → List ℕ
  pub append_time : List ℕ → Time → List ℕ
  pub append_bytes : List ℕ → List ℕ → List ℕ

-- `en.Append(…)`, `en.WriteString(s)` and its like. `none` is an error.
pub record Writes : Type 0 where
  pub append_raw : List ℕ → List ℕ → Option (List ℕ)
  pub write_array_header : List ℕ → ℕ → Option (List ℕ)
  pub write_string : List ℕ → String → Option (List ℕ)
  pub write_int64 : List ℕ → ℤ → Option (List ℕ)
  pub write_int : List ℕ → ℤ → Option (List ℕ)
  pub write_time : List ℕ → Time → Option (List ℕ)
  pub write_bytes : List ℕ → List ℕ → Option (List ℕ)

-- `msgp.StringPrefixSize` and its like.
pub record Sizes : Type 0 where
  pub array_header_size : ℕ
  pub string_prefix_size : ℕ
  pub int64_size : ℕ
  pub int_size : ℕ
  pub time_size : ℕ
  pub bytes_prefix_size : ℕ

-- The functions on byte slices, and the methods of readers and writers.
pub record Msgp : Type 0 where
  pub slices : Reads
  pub reader : Reads
  pub appends : Appends
  pub writer : Writes
  pub sizes : Sizes

-- What a decoder returns: the value as far as it was filled in, and with no error the bytes left.
pub data Decoded (Z : Type 0) : Type 0 where
  failed : Z → Decoded Z
  more : Z → List ℕ → Decoded Z

-- `z.F, bts, err = Read…(bts)`, and the return if there is an error.
abbrev pub assign : {A Z : Type 0} → A × Option (List ℕ) → (A → Z) → Decoded Z
assign (v, none) set = failed (set v)
assign (v, some bts) set = more (set v) bts

-- `bts, err = Skip(bts)`.
abbrev pub skipped : {Z : Type 0} → Option (List ℕ) → Z → Decoded Z
skipped none z = failed z
skipped (some bts) z = more z bts

module _ {Z : Type 0} (r : Reads) (field : String → Z → List ℕ → Decoded Z) where
  abbrev pub after_field : (Z → List ℕ → Decoded Z) → Decoded Z → Decoded Z
  after_field go (failed z) = failed z
  after_field go (more z bts) = go z bts

  abbrev pub with_key : (Z → List ℕ → Decoded Z) → Z → String × Option (List ℕ) → Decoded Z
  with_key go z (key, none) = failed z
  with_key go z (key, some bts) = after_field go (field key z bts)

  -- The loop over the keys that the header announced.
  unfoldable pub decode_fields : ℕ → Z → List ℕ → Decoded Z
  decode_fields zero z bts = more z bts
  decode_fields (suc n) z bts = with_key (λ z' bts'. decode_fields n z' bts') z (r.map_key bts)

  abbrev pub with_header : Z → ℕ × Option (List ℕ) → Decoded Z
  with_header z (n, none) = failed z
  with_header z (n, some bts) = decode_fields n z bts

  unfoldable pub decode_map : Z → List ℕ → Decoded Z
  unfolding decode_fields
  decode_map z bts = with_header z (r.map_header bts)

-- The bytes written so far go from one step to the next.
infixl 3 ◌|>◌
abbrev pub ◌|>◌ : {A B : Type 0} → A → (A → B) → B
o |> f = f o

-- `o = append(o, bytes…)`.
abbrev pub raw : List ℕ → List ℕ → List ℕ
raw bytes o = o ++ bytes

module _ (a : Appends) where
  abbrev pub array_header : ℕ → List ℕ → List ℕ
  array_header n o = a.append_array_header o n

  abbrev pub string : String → List ℕ → List ℕ
  string s o = a.append_string o s

  abbrev pub int64 : ℤ → List ℕ → List ℕ
  int64 n o = a.append_int64 o n

  abbrev pub int : ℤ → List ℕ → List ℕ
  int n o = a.append_int o n

  abbrev pub time : Time → List ℕ → List ℕ
  time t o = a.append_time o t

  abbrev pub bytes : List ℕ → List ℕ → List ℕ
  bytes bs o = a.append_bytes o bs

module _ (w : Writes) where
  abbrev pub put_raw : List ℕ → List ℕ → Option (List ℕ)
  put_raw bs o = w.append_raw o bs

  abbrev pub put_array_header : ℕ → List ℕ → Option (List ℕ)
  put_array_header n o = w.write_array_header o n

  abbrev pub put_string : String → List ℕ → Option (List ℕ)
  put_string s o = w.write_string o s

  abbrev pub put_int64 : ℤ → List ℕ → Option (List ℕ)
  put_int64 n o = w.write_int64 o n

  abbrev pub put_int : ℤ → List ℕ → Option (List ℕ)
  put_int n o = w.write_int o n

  abbrev pub put_time : Time → List ℕ → Option (List ℕ)
  put_time t o = w.write_time o t

  abbrev pub put_bytes : List ℕ → List ℕ → Option (List ℕ)
  put_bytes bs o = w.write_bytes o bs
