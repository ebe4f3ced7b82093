-- ===== src/Wire/Encode.antt =====
-- swp_gen.go: `EncodeMsg` and `MarshalMsg` write the same bytes.
use go_sliding_window.Base.{ℕ, ◌≡◌, ◌∙◌, sym, inl, inr, Option, some, List, ◌++◌, some_eq}
use go_sliding_window.Tcp.{state_int}
use go_sliding_window.Wire.{Msgp}
use go_sliding_window.Wire.Enums.{event_int}
use go_sliding_window.Wire.Dispatch.{
  Message, marshal_msg, encode_msg, packet_message, big_file_message, syn_ack_ack_message,
  byte_account_message, terminated_error_message, tcp_event_message, tcp_state_message,
}
use go_sliding_window.Wire.Laws.{Encoding, MsgpLaws, IsAppending, IsWriting, Wrote}
use go_sliding_window.Wire.PacketTrip.{packet_bytes}
use go_sliding_window.Wire.PacketBytes.{marshal_packet_lem, encode_packet-Wrote}
use go_sliding_window.Wire.FileTrip.{big_file_bytes, marshal_big_file_lem, encode_big_file-Wrote}
use go_sliding_window.Wire.MessageTrip.{
  byte_account_bytes, marshal_byte_account_lem, encode_byte_account-Wrote, terminated_error_bytes,
  marshal_terminated_error_lem, encode_terminated_error-Wrote,
}
use go_sliding_window.Wire.AckTrip.{
  syn_ack_ack_bytes, marshal_syn_ack_ack_lem, encode_syn_ack_ack-Wrote,
}

-- The bytes of a value.
abbrev pub msg_bytes : Encoding → Message → List ℕ
msg_bytes e (packet_message z) = packet_bytes e z
msg_bytes e (big_file_message z) = big_file_bytes e z
msg_bytes e (syn_ack_ack_message z) = syn_ack_ack_bytes e z
msg_bytes e (byte_account_message z) = byte_account_bytes e z
msg_bytes e (terminated_error_message z) = terminated_error_bytes e z
msg_bytes e (tcp_event_message z) = e.int_bytes (event_int z)
msg_bytes e (tcp_state_message z) = e.int_bytes (state_int z)

pub marshal_msg_lem :
    (m : Msgp) (e : Encoding) (ok : IsAppending e m.appends) (msg : Message) (b : List ℕ)
    → marshal_msg m msg b ≡ b ++ msg_bytes e msg
unfolding marshal_msg
marshal_msg_lem m e ok (packet_message z) b = marshal_packet_lem m e ok z b
marshal_msg_lem m e ok (big_file_message z) b = marshal_big_file_lem m e ok z b
marshal_msg_lem m e ok (syn_ack_ack_message z) b = marshal_syn_ack_ack_lem m e ok z b
marshal_msg_lem m e ok (byte_account_message z) b = marshal_byte_account_lem m e ok z b
marshal_msg_lem m e ok (terminated_error_message z) b = marshal_terminated_error_lem m e ok z b
marshal_msg_lem m e ok (tcp_event_message z) b = ok.append_int_lem (event_int z) b
marshal_msg_lem m e ok (tcp_state_message z) b = ok.append_int_lem (state_int z) b

pub encode_msg-Wrote :
    (m : Msgp) (e : Encoding) (ok : IsWriting e m.writer) (msg : Message) (b : List ℕ)
    → Wrote (encode_msg m msg b) (b ++ msg_bytes e msg)
unfolding encode_msg
encode_msg-Wrote m e ok (packet_message z) b = encode_packet-Wrote m e ok z b
encode_msg-Wrote m e ok (big_file_message z) b = encode_big_file-Wrote m e ok z b
encode_msg-Wrote m e ok (syn_ack_ack_message z) b = encode_syn_ack_ack-Wrote m e ok z b
encode_msg-Wrote m e ok (byte_account_message z) b = encode_byte_account-Wrote m e ok z b
encode_msg-Wrote m e ok (terminated_error_message z) b = encode_terminated_error-Wrote m e ok z b
encode_msg-Wrote m e ok (tcp_event_message z) b = ok.write_int_lem (event_int z) b
encode_msg-Wrote m e ok (tcp_state_message z) b = ok.write_int_lem (state_int z) b

-- What a write that succeeded has written.
pub Wrote-some : {m : Option (List ℕ)} {o : List ℕ} (b : List ℕ) → Wrote m o → m ≡ some b → b ≡ o
Wrote-some b (inl bad) e = absurd (cc)
Wrote-some b (inr good) e = some_eq (sym e ∙ good)

-- A writer that does not fail holds after `EncodeMsg` exactly the bytes that `MarshalMsg` appends to
-- what was written before, whatever value is written.
pub encode_msg-marshal_msg :
    (m : Msgp) (laws : MsgpLaws m) (msg : Message) (before after : List ℕ)
    → encode_msg m msg before ≡ some after
    → marshal_msg m msg before ≡ after
encode_msg-marshal_msg m laws msg before after h =
    marshal_msg_lem m laws.encoding laws.of_appends msg before
    ∙ sym (Wrote-some after (encode_msg-Wrote m laws.encoding laws.of_writer msg before) h)
