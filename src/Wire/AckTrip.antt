-- ===== src/Wire/AckTrip.antt =====
-- swp_gen.go: what is written for a SynAckAck is read back.
use go_sliding_window.Base.{
  ℕ, ◌%◌, ◌^◌, ◌<◌, ◌≡◌, refl, ◌∙◌, ap, inr, some, List, [], ◌∷◌, ◌++◌, append_assoc, append-nil,
  arith, length, All,
}
use go_sliding_window.Wire.Enums.{event_int, IsNamed, event_of_int-event_int}
use go_sliding_window.Wire.{Msgp, Reads, more, decode_map}
use go_sliding_window.Wire.Messages.{
  SynAckAck, resliced, with_count, syn_ack_ack_field, marshal_syn_ack_ack, encode_syn_ack_ack,
}
use go_sliding_window.Wire.Laws.{
  Encoding, IsReading, IsAppending, IsWriting, Fields, fields_bytes, filled, ◌▸◌, reads, IsText,
  IsInt64, Wrote, ◌▹◌, Wrote-as, ◌▹▹◌, raw_lem, key_bytes,
}
use go_sliding_window.Wire.MessageTrip.{
  decode_map-fields, elements_bytes, read_elements_lem, length-resliced, append_elements_lem,
  write_elements-Wrote,
}

pub record SynAckAckFits (z : SynAckAck) : Type 0 where
  pub tcp_event_fits : IsInt64 (event_int z.tcp_event)
  pub tcp_event_named : IsNamed z.tcp_event
  pub session_nonce_fits : IsText z.session_nonce
  pub next_expected_fits : IsInt64 z.next_expected
  pub nack_list_fits : All IsInt64 z.nack_list
  pub nack_list_short : length z.nack_list < 2 ^ 32

-- What is read into `z0` where `z` was written: the spare part of the array is that of `z0`.
abbrev pub spared : SynAckAck → SynAckAck → SynAckAck
spared z0 z = record z { nack_spare = (resliced z0.nack_list z0.nack_spare (length z.nack_list)).1 }

abbrev pub nack_list_bytes : Encoding → SynAckAck → List ℕ
nack_list_bytes e z =
    e.array_header_bytes (length z.nack_list % 2 ^ 32) ++ elements_bytes e z.nack_list

abbrev pub syn_ack_ack_fields : Encoding → SynAckAck → Fields
syn_ack_ack_fields e z =
    ("TcpEvent", e.int_bytes (event_int z.tcp_event))
    ∷ ("SessionNonce", e.string_bytes z.session_nonce)
    ∷ ("NextExpected", e.int64_bytes z.next_expected)
    ∷ ("NackList", nack_list_bytes e z)
    ∷ []

abbrev pub syn_ack_ack_bytes : Encoding → SynAckAck → List ℕ
syn_ack_ack_bytes e z = 0x84 ∷ fields_bytes (syn_ack_ack_fields e z)

with_count_lem :
    (e : Encoding) (r : Reads) (ok : IsReading e r) (z0 z : SynAckAck) (rest : List ℕ)
    → SynAckAckFits z
    → with_count r z0 (r.array_header (nack_list_bytes e z ++ rest))
      ≡ more
          (record z0 {
            nack_list = z.nack_list;
            nack_spare = (resliced z0.nack_list z0.nack_spare (length z.nack_list)).1;
          })
          rest
with_count_lem e r ok z0 z rest f =
    let n = length z.nack_list in
    let short : n % 2 ^ 32 ≡ n = omega (arith, f.nack_list_short) in
    let split =
      append_assoc (e.array_header_bytes (n % 2 ^ 32)) (elements_bytes e z.nack_list) rest in
    let header =
      ok.array_header_lem (n % 2 ^ 32) (omega (arith, short, f.nack_list_short))
        (elements_bytes e z.nack_list ++ rest) in
    let cut = resliced z0.nack_list z0.nack_spare n in
    ap (with_count r z0) (
      ap r.array_header split
      ∙ header
      ∙ ap (λ (k : ℕ). (k, some (elements_bytes e z.nack_list ++ rest))) short)
    ∙ reads _ (
        read_elements_lem e r ok cut.0 z.nack_list rest f.nack_list_fits
          (length-resliced z0.nack_list z0.nack_spare n))

pub decode_map-syn_ack_ack :
    (e : Encoding) (r : Reads) (ok : IsReading e r) (z0 z : SynAckAck) (rest : List ℕ)
    → SynAckAckFits z
    → decode_map r (syn_ack_ack_field r) z0 (syn_ack_ack_bytes e z ++ rest)
      ≡ more (spared z0 z) rest
unfolding syn_ack_ack_field
decode_map-syn_ack_ack e r ok z0 z rest f =
    decode_map-fields e r ok (syn_ack_ack_field r) (syn_ack_ack_fields e z) z0 (spared z0 z) rest
      (omega arith) (omega arith)
      ((λ rest'. reads _ (ok.read_int_lem (event_int z.tcp_event) f.tcp_event_fits rest'))
        ▸ (λ rest'. reads _ (ok.read_string_lem z.session_nonce f.session_nonce_fits rest'))
        ▸ (λ rest'. reads _ (ok.read_int64_lem z.next_expected f.next_expected_fits rest'))
        ▸ (λ rest'. with_count_lem e r ok _ z rest' f)
        ▸ filled (
            ap (λ ev. record (spared z0 z) { tcp_event = ev })
              (event_of_int-event_int z.tcp_event f.tcp_event_named)))

pub marshal_syn_ack_ack_lem :
    (m : Msgp) (e : Encoding) (ok : IsAppending e m.appends) (z : SynAckAck) (b : List ℕ)
    → marshal_syn_ack_ack m z b ≡ b ++ syn_ack_ack_bytes e z
unfolding marshal_syn_ack_ack
marshal_syn_ack_ack_lem m e ok z b =
    let start : b ≡ b = refl in
    (start
      ▹▹ raw_lem (0x84 ∷ key_bytes "TcpEvent")
      ▹▹ ok.append_int_lem (event_int z.tcp_event)
      ▹▹ raw_lem (key_bytes "SessionNonce")
      ▹▹ ok.append_string_lem z.session_nonce
      ▹▹ raw_lem (key_bytes "NextExpected")
      ▹▹ ok.append_int64_lem z.next_expected
      ▹▹ raw_lem (key_bytes "NackList")
      ▹▹ ok.append_array_header_lem (length z.nack_list % 2 ^ 32)
      ▹▹ append_elements_lem e m.appends ok z.nack_list)
    ∙ simp (append_assoc, append-nil)

pub encode_syn_ack_ack-Wrote :
    (m : Msgp) (e : Encoding) (ok : IsWriting e m.writer) (z : SynAckAck) (b : List ℕ)
    → Wrote (encode_syn_ack_ack m z b) (b ++ syn_ack_ack_bytes e z)
unfolding encode_syn_ack_ack
encode_syn_ack_ack-Wrote m e ok z b =
    let first : Wrote (some b) b = inr refl in
    Wrote-as
      (first
        ▹ ok.append_raw_lem _
        ▹ ok.write_int_lem (event_int z.tcp_event)
        ▹ ok.append_raw_lem _
        ▹ ok.write_string_lem z.session_nonce
        ▹ ok.append_raw_lem _
        ▹ ok.write_int64_lem z.next_expected
        ▹ ok.append_raw_lem _
        ▹ ok.write_array_header_lem (length z.nack_list % 2 ^ 32)
        ▹ write_elements-Wrote e m.writer ok z.nack_list)
      (simp (append_assoc, append-nil))
