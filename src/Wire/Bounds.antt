-- ===== src/Wire/Bounds.antt =====
-- swp_gen.go, tcp_gen.go: `Msgsize` is the upper bound that it says it is.

use go_sliding_window.Base.{ℕ, ◌+◌, ◌*◌, ◌≤◌, ap, List, [], ◌∷◌, arith, length, length-append}
use go_sliding_window.Base.Int.{ℤ}
use go_sliding_window.Packet.{Packet}
use go_sliding_window.Session.{BigFile}
use go_sliding_window.Tcp.{state_int}
use go_sliding_window.Wire.{Msgp}
use go_sliding_window.Wire.Enums.{event_int, msgsize_tcp_event, msgsize_tcp_state}
use go_sliding_window.Wire.PacketEncode.{msgsize_packet}
use go_sliding_window.Wire.Files.{msgsize_big_file}
use go_sliding_window.Wire.Messages.{
  SynAckAck, ByteAccount, TerminatedError, msgsize_syn_ack_ack, msgsize_byte_account,
  msgsize_terminated_error,
}
use go_sliding_window.Wire.Dispatch.{
  Message, marshal_msg, msgsize_msg, packet_message, big_file_message, syn_ack_ack_message,
  byte_account_message, terminated_error_message, tcp_event_message, tcp_state_message,
}
use go_sliding_window.Wire.Laws.{MsgpLaws}
use go_sliding_window.Wire.PacketTrip.{packet_bytes}
use go_sliding_window.Wire.FileTrip.{big_file_bytes}
use go_sliding_window.Wire.MessageTrip.{elements_bytes, byte_account_bytes, terminated_error_bytes}
use go_sliding_window.Wire.AckTrip.{syn_ack_ack_bytes}
use go_sliding_window.Wire.Encode.{msg_bytes, marshal_msg_lem}

module _ (m : Msgp) (laws : MsgpLaws m) where
  open laws use {encoding, of_sizes}

  big_file_size : (z : BigFile) → length (big_file_bytes encoding z) ≤ msgsize_big_file m z
  unfolding msgsize_big_file
  big_file_size z = omega (
    arith,
    length-append {0},
    of_sizes.string_size_lem z.filepath,
    of_sizes.int64_size_lem z.size_in_bytes,
    of_sizes.bytes_size_lem z.blake2b_of,
    of_sizes.time_size_lem z.send_time,
    of_sizes.bytes_size_lem z.content,
  )

  packet_size : (z : Packet) → length (packet_bytes encoding z) ≤ msgsize_packet m z
  unfolding msgsize_packet
  packet_size z = omega (
    arith,
    length-append {0},
    of_sizes.string_size_lem,
    of_sizes.int64_size_lem,
    of_sizes.int_size_lem,
    of_sizes.bytes_size_lem,
    of_sizes.time_size_lem,
  )

  elements_size :
      (xs : List ℤ) → length (elements_bytes encoding xs) ≤ length xs * m.sizes.int64_size
  elements_size [] = omega arith
  elements_size (x ∷ xs) = omega (
    arith,
    length-append (encoding.int64_bytes x) (elements_bytes encoding xs),
    of_sizes.int64_size_lem x,
    elements_size xs,
  )

  syn_ack_ack_size :
      (z : SynAckAck) → length (syn_ack_ack_bytes encoding z) ≤ msgsize_syn_ack_ack m z
  unfolding msgsize_syn_ack_ack
  syn_ack_ack_size z = omega (
    arith,
    length-append {0},
    of_sizes.string_size_lem z.session_nonce,
    of_sizes.int64_size_lem z.next_expected,
    of_sizes.int_size_lem (event_int z.tcp_event),
    of_sizes.array_header_size_lem,
    elements_size z.nack_list,
  )

  byte_account_size :
      (z : ByteAccount) → length (byte_account_bytes encoding z) ≤ msgsize_byte_account m z
  unfolding msgsize_byte_account
  byte_account_size z = omega (arith, length-append {0}, of_sizes.int64_size_lem z.num_bytes_acked)

  terminated_error_size :
      (z : TerminatedError)
      → length (terminated_error_bytes encoding z) ≤ msgsize_terminated_error m z
  unfolding msgsize_terminated_error
  terminated_error_size z = omega (arith, length-append {0}, of_sizes.string_size_lem z.msg)

  msg_size : (msg : Message) → length (msg_bytes encoding msg) ≤ msgsize_msg m msg
  unfolding msgsize_msg msgsize_tcp_event msgsize_tcp_state
  msg_size (packet_message z) = packet_size z
  msg_size (big_file_message z) = big_file_size z
  msg_size (syn_ack_ack_message z) = syn_ack_ack_size z
  msg_size (byte_account_message z) = byte_account_size z
  msg_size (terminated_error_message z) = terminated_error_size z
  msg_size (tcp_event_message z) = of_sizes.int_size_lem (event_int z)
  msg_size (tcp_state_message z) = of_sizes.int_size_lem (state_int z)

  -- `Msgsize` bounds the number of bytes that `MarshalMsg` appends, whatever value is written.
  pub length-marshal_msg :
      (msg : Message) (b : List ℕ) → length (marshal_msg m msg b) ≤ length b + msgsize_msg m msg
  length-marshal_msg msg b =
      let bytes = ap length (marshal_msg_lem m encoding laws.of_appends msg b) in
      omega (arith, bytes, length-append b (msg_bytes encoding msg), msg_size msg)
