-- ===== src/Wire/FileTrip.antt =====
-- swp_gen.go: what is written for a BigFile is read back.
use go_sliding_window.Base.{
  ℕ, ◌≡◌, refl, ◌∙◌, ap, inr, some, List, [], ◌∷◌, ◌++◌, append_assoc, append-nil, arith,
}
use go_sliding_window.Session.{BigFile}
use go_sliding_window.Wire.{Msgp, Reads, more, decode_map, with_header}
use go_sliding_window.Wire.Files.{big_file_field, marshal_big_file, encode_big_file}
use go_sliding_window.Wire.Laws.{
  Encoding, IsReading, IsAppending, IsWriting, Fields, fields_bytes, Fills, filled, ◌▸◌, reads,
  IsText, IsInt64, IsTime, IsBytes, decode_fields-bytes, Wrote, ◌▹◌, Wrote-as, ◌▹▹◌, raw_lem,
  key_bytes,
}

-- The fields have room in their formats.
pub record BigFileFits (z : BigFile) : Type 0 where
  pub filepath_fits : IsText z.filepath
  pub size_in_bytes_fits : IsInt64 z.size_in_bytes
  pub blake2b_of_fits : IsBytes z.blake2b_of
  pub send_time_fits : IsTime z.send_time
  pub content_fits : IsBytes z.content

-- The fields on the wire, in their order.
abbrev pub big_file_fields : Encoding → BigFile → Fields
big_file_fields e z =
    ("Filepath", e.string_bytes z.filepath)
    ∷ ("SizeInBytes", e.int64_bytes z.size_in_bytes)
    ∷ ("Blake2b", e.bytes_bytes z.blake2b_of)
    ∷ ("SendTime", e.time_bytes z.send_time)
    ∷ ("Data", e.bytes_bytes z.content)
    ∷ []

abbrev pub big_file_bytes : Encoding → BigFile → List ℕ
big_file_bytes e z = 0x85 ∷ fields_bytes (big_file_fields e z)

big_file_field-Fills :
    (e : Encoding) (r : Reads) (ok : IsReading e r) (z0 z : BigFile)
    → BigFileFits z
    → Fills (big_file_field r) z0 (big_file_fields e z) (z)
unfolding big_file_field
big_file_field-Fills e r ok z0 z f =
    (λ rest. reads _ (ok.read_string_lem z.filepath f.filepath_fits rest))
    ▸ (λ rest. reads _ (ok.read_int64_lem z.size_in_bytes f.size_in_bytes_fits rest))
    ▸ (λ rest. reads _ (ok.read_bytes_lem _ z.blake2b_of f.blake2b_of_fits rest))
    ▸ (λ rest. reads _ (ok.read_time_lem z.send_time f.send_time_fits rest))
    ▸ (λ rest. reads _ (ok.read_bytes_lem _ z.content f.content_fits rest))
    ▸ filled (refl)

pub decode_map-big_file :
    (e : Encoding) (r : Reads) (ok : IsReading e r) (z0 z : BigFile) (rest : List ℕ)
    → BigFileFits z
    → decode_map r (big_file_field r) z0 (big_file_bytes e z ++ rest) ≡ more (z) rest
unfolding decode_map
decode_map-big_file e r ok z0 z rest f =
    ap (with_header r (big_file_field r) z0)
      (ok.map_header_fix 5 (fields_bytes (big_file_fields e z) ++ rest) (omega arith))
    ∙ decode_fields-bytes e r ok (big_file_field r) (big_file_fields e z) z0 (z) rest (omega arith)
        (big_file_field-Fills e r ok z0 z f)

pub marshal_big_file_lem :
    (m : Msgp) (e : Encoding) (ok : IsAppending e m.appends) (z : BigFile) (b : List ℕ)
    → marshal_big_file m z b ≡ b ++ big_file_bytes e z
unfolding marshal_big_file
marshal_big_file_lem m e ok z b =
    let start : b ≡ b = refl in
    (start
      ▹▹ raw_lem (0x85 ∷ key_bytes "Filepath")
      ▹▹ ok.append_string_lem z.filepath
      ▹▹ raw_lem (key_bytes "SizeInBytes")
      ▹▹ ok.append_int64_lem z.size_in_bytes
      ▹▹ raw_lem (key_bytes "Blake2b")
      ▹▹ ok.append_bytes_lem z.blake2b_of
      ▹▹ raw_lem (key_bytes "SendTime")
      ▹▹ ok.append_time_lem z.send_time
      ▹▹ raw_lem (key_bytes "Data")
      ▹▹ ok.append_bytes_lem z.content)
    ∙ simp (append_assoc, append-nil)

pub encode_big_file-Wrote :
    (m : Msgp) (e : Encoding) (ok : IsWriting e m.writer) (z : BigFile) (b : List ℕ)
    → Wrote (encode_big_file m z b) (b ++ big_file_bytes e z)
unfolding encode_big_file
encode_big_file-Wrote m e ok z b =
    let first : Wrote (some b) b = inr refl in
    Wrote-as
      (first
        ▹ ok.append_raw_lem _
        ▹ ok.write_string_lem z.filepath
        ▹ ok.append_raw_lem _
        ▹ ok.write_int64_lem z.size_in_bytes
        ▹ ok.append_raw_lem _
        ▹ ok.write_bytes_lem z.blake2b_of
        ▹ ok.append_raw_lem _
        ▹ ok.write_time_lem z.send_time
        ▹ ok.append_raw_lem _
        ▹ ok.write_bytes_lem z.content)
      (simp (append_assoc, append-nil))
