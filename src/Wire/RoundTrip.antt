-- ===== src/Wire/RoundTrip.antt =====
-- swp_gen.go, filetransfer.go: packets and files on the wire.

use go_sliding_window.Base.{
  ℕ, ◌<◌, true, ◌≡◌, ◌∙◌, sym, ap, none, some, List, [], ◌++◌, append-nil, length, String,
}
use go_sliding_window.Packet.{Packet, Time}
use go_sliding_window.Session.{BigFile, recv_file, send_file}
use go_sliding_window.Session.Files.{recv_file-send_file}
use go_sliding_window.Wire.{Decoded, Msgp, more}
use go_sliding_window.Wire.Packets.{unmarshal_packet, marshal_packet}
use go_sliding_window.Wire.Files.{
  decode_big_file, encode_big_file, decode_new_file, filled_in, new_big_file,
}
use go_sliding_window.Tcp.{TcpEvent, TcpState, state_int}
use go_sliding_window.Wire.Encode.{Wrote-some}
use go_sliding_window.Wire.Enums.{
  event_int, event_of_int, IsNamed, event_of_int-event_int, state_of_int, IsNamedState,
  state_of_int-state_int, unmarshal_tcp_event, marshal_tcp_event, unmarshal_tcp_state,
  marshal_tcp_state,
}
use go_sliding_window.Wire.Messages.{
  SynAckAck, ByteAccount, TerminatedError, unmarshal_syn_ack_ack, marshal_syn_ack_ack,
  unmarshal_byte_account, marshal_byte_account, unmarshal_terminated_error,
  marshal_terminated_error,
}
use go_sliding_window.Wire.MessageTrip.{
  ByteAccountFits, byte_account_bytes, decode_map-byte_account, marshal_byte_account_lem,
  TerminatedErrorFits, terminated_error_bytes, decode_map-terminated_error,
  marshal_terminated_error_lem,
}
use go_sliding_window.Wire.AckTrip.{
  SynAckAckFits, spared, decode_map-syn_ack_ack, marshal_syn_ack_ack_lem,
}
use go_sliding_window.Wire.Laws.{reads, IsInt64, MsgpLaws}
use go_sliding_window.Wire.PacketTrip.{PacketFits, decode_map-packet}
use go_sliding_window.Wire.PacketBytes.{marshal_packet_lem}
use go_sliding_window.Wire.FileTrip.{
  BigFileFits, big_file_bytes, decode_map-big_file, encode_big_file-Wrote,
}

-- The file that `SendFile` makes and encodes.
abbrev pub sent_file : (List ℕ → List ℕ) → String → List ℕ → Time → BigFile
sent_file blake2b path writeme tm = (send_file blake2b (λ z. []) path writeme tm).0

module _ (m : Msgp) (laws : MsgpLaws m) where
  -- A packet that was marshalled, with whatever follows it, is read back and the rest is left: all of
  -- it but FromTcpState and the two fields that the tags leave out, which stay as they were in the
  -- packet that is read into.
  pub unmarshal_packet-marshal_packet :
      (z0 z : Packet) (rest : List ℕ)
      → PacketFits z
      → unmarshal_packet m z0 (marshal_packet m z [] ++ rest)
        ≡ more
            (record z {
              from_tcp_state = z0.from_tcp_state;
              cli_acked = z0.cli_acked;
              accounting = z0.accounting;
            })
            rest
  unfolding unmarshal_packet
  unmarshal_packet-marshal_packet z0 z rest f =
      ap (λ (l : List ℕ). unmarshal_packet m z0 (l ++ rest))
        (marshal_packet_lem m laws.encoding laws.of_appends z [])
      ∙ decode_map-packet laws.encoding m.slices laws.of_slices z0 z rest f

  -- A SynAckAck that was marshalled is read back, with the same list of missing numbers; only what is
  -- beyond that list in its array depends on the value that is read into.
  pub unmarshal_syn_ack_ack-marshal_syn_ack_ack :
      (z0 z : SynAckAck) (rest : List ℕ)
      → SynAckAckFits z
      → unmarshal_syn_ack_ack m z0 (marshal_syn_ack_ack m z [] ++ rest) ≡ more (spared z0 z) rest
  unfolding unmarshal_syn_ack_ack
  unmarshal_syn_ack_ack-marshal_syn_ack_ack z0 z rest f =
      ap (λ (l : List ℕ). unmarshal_syn_ack_ack m z0 (l ++ rest))
        (marshal_syn_ack_ack_lem m laws.encoding laws.of_appends z [])
      ∙ decode_map-syn_ack_ack laws.encoding m.slices laws.of_slices z0 z rest f

  -- What was read of a value's own bytes, with what follows.
  reread :
      {Z : Type 0} (unmarshal : List ℕ → Decoded Z) (z : Z) (written bytes rest : List ℕ)
      → written ≡ bytes
      → unmarshal (bytes ++ rest) ≡ more z rest
      → unmarshal (written ++ rest) ≡ more z rest
  reread unmarshal z written bytes rest same h = ap (λ (l : List ℕ). unmarshal (l ++ rest)) same ∙ h

  -- An event, a state, a byte account and an error that were marshalled are read back.
  pub unmarshal_msg-marshal_msg :
      (ev ev0 : TcpEvent) (st st0 : TcpState) (acct acct0 : ByteAccount)
      (err err0 : TerminatedError) (rest : List ℕ)
      → IsNamed ev × IsInt64 (event_int ev)
      → IsNamedState st × IsInt64 (state_int st)
      → ByteAccountFits acct
      → TerminatedErrorFits err
      → (unmarshal_tcp_event m ev0 (marshal_tcp_event m ev [] ++ rest) ≡ more ev rest)
        × (unmarshal_tcp_state m st0 (marshal_tcp_state m st [] ++ rest) ≡ more st rest)
        × (unmarshal_byte_account m acct0 (marshal_byte_account m acct [] ++ rest) ≡ more acct rest)
        × (unmarshal_terminated_error m err0 (marshal_terminated_error m err [] ++ rest)
            ≡ more err rest)
  unfolding unmarshal_tcp_event unmarshal_tcp_state unmarshal_byte_account
      unmarshal_terminated_error marshal_tcp_event marshal_tcp_state
  unmarshal_msg-marshal_msg ev ev0 st st0 acct acct0 err err0 rest h k f g =
      let e = laws.encoding in
      (
        reread (unmarshal_tcp_event m ev0) ev (marshal_tcp_event m ev [])
            (e.int_bytes (event_int ev)) rest (laws.of_appends.append_int_lem (event_int ev) [])
            (reads event_of_int (laws.of_slices.read_int_lem (event_int ev) h.1 rest)
              ∙ ap (λ (x : TcpEvent). more x rest) (event_of_int-event_int ev h.0)),
        reread (unmarshal_tcp_state m st0) st (marshal_tcp_state m st [])
            (e.int_bytes (state_int st)) rest (laws.of_appends.append_int_lem (state_int st) [])
            (reads state_of_int (laws.of_slices.read_int_lem (state_int st) k.1 rest)
              ∙ ap (λ (x : TcpState). more x rest) (state_of_int-state_int st k.0)),
        reread (unmarshal_byte_account m acct0) acct (marshal_byte_account m acct [])
            (byte_account_bytes e acct) rest (marshal_byte_account_lem m e laws.of_appends acct [])
            (decode_map-byte_account e m.slices laws.of_slices acct0 acct rest f),
        reread (unmarshal_terminated_error m err0) err (marshal_terminated_error m err [])
            (terminated_error_bytes e err) rest
            (marshal_terminated_error_lem m e laws.of_appends err [])
            (decode_map-terminated_error e m.slices laws.of_slices err0 err rest g),
      )

  -- A file that was sent, if its fields fit and no write failed, is received from what was written:
  -- the same file, without an error.
  pub recv_file-encode :
      (blake2b : List ℕ → List ℕ) (path : String) (writeme : List ℕ) (tm : Time) (written : List ℕ)
      → 0 < length (blake2b writeme)
      → BigFileFits (sent_file blake2b path writeme tm)
      → encode_big_file m (sent_file blake2b path writeme tm) [] ≡ some written
      → recv_file blake2b (decode_new_file m) written ≡ ((sent_file blake2b path writeme tm), none)
  unfolding send_file decode_new_file decode_big_file
  recv_file-encode blake2b path writeme tm written hash f sent =
      let bf = sent_file blake2b path writeme tm in
      let bytes =
        Wrote-some written (encode_big_file-Wrote m laws.encoding laws.of_writer bf []) sent in
      let whole = decode_map-big_file laws.encoding m.reader laws.of_reader new_big_file bf [] f in
      let back : decode_new_file m written ≡ (bf, true) = ap filled_in (
        ap (decode_big_file m new_big_file)
          (bytes ∙ sym (append-nil (big_file_bytes laws.encoding bf)))
        ∙ whole) in
      recv_file-send_file blake2b (λ z. written) (decode_new_file m) path writeme tm hash back
