-- ===== src/Wire/Dispatch.antt =====
-- swp_gen.go, tcp_gen.go: the values that can be written, and the methods that each of them has: what
-- an interface of msgp calls.
use go_sliding_window.Base.{ℕ, Option, List}
use go_sliding_window.Packet.{Packet}
use go_sliding_window.Session.{BigFile}
use go_sliding_window.Tcp.{TcpEvent, TcpState}
use go_sliding_window.Wire.{Msgp}
use go_sliding_window.Wire.Packets.{marshal_packet}
use go_sliding_window.Wire.PacketEncode.{encode_packet, msgsize_packet}
use go_sliding_window.Wire.Files.{marshal_big_file, encode_big_file, msgsize_big_file}
use go_sliding_window.Wire.Messages.{
  SynAckAck, ByteAccount, TerminatedError, marshal_syn_ack_ack, encode_syn_ack_ack,
  msgsize_syn_ack_ack, marshal_byte_account, encode_byte_account, msgsize_byte_account,
  marshal_terminated_error, encode_terminated_error, msgsize_terminated_error,
}
use go_sliding_window.Wire.Enums.{
  marshal_tcp_event, encode_tcp_event, msgsize_tcp_event, marshal_tcp_state, encode_tcp_state,
  msgsize_tcp_state,
}

pub data Message : Type 0 where
  packet_message : Packet → Message
  big_file_message : BigFile → Message
  syn_ack_ack_message : SynAckAck → Message
  byte_account_message : ByteAccount → Message
  terminated_error_message : TerminatedError → Message
  tcp_event_message : TcpEvent → Message
  tcp_state_message : TcpState → Message

unfoldable pub marshal_msg : Msgp → Message → List ℕ → List ℕ
unfolding marshal_packet marshal_big_file marshal_syn_ack_ack marshal_byte_account
    marshal_terminated_error marshal_tcp_event marshal_tcp_state
marshal_msg m (packet_message z) b = marshal_packet m z b
marshal_msg m (big_file_message z) b = marshal_big_file m z b
marshal_msg m (syn_ack_ack_message z) b = marshal_syn_ack_ack m z b
marshal_msg m (byte_account_message z) b = marshal_byte_account m z b
marshal_msg m (terminated_error_message z) b = marshal_terminated_error m z b
marshal_msg m (tcp_event_message z) b = marshal_tcp_event m z b
marshal_msg m (tcp_state_message z) b = marshal_tcp_state m z b

unfoldable pub encode_msg : Msgp → Message → List ℕ → Option (List ℕ)
unfolding encode_packet encode_big_file encode_syn_ack_ack encode_byte_account
    encode_terminated_error encode_tcp_event encode_tcp_state
encode_msg m (packet_message z) b = encode_packet m z b
encode_msg m (big_file_message z) b = encode_big_file m z b
encode_msg m (syn_ack_ack_message z) b = encode_syn_ack_ack m z b
encode_msg m (byte_account_message z) b = encode_byte_account m z b
encode_msg m (terminated_error_message z) b = encode_terminated_error m z b
encode_msg m (tcp_event_message z) b = encode_tcp_event m z b
encode_msg m (tcp_state_message z) b = encode_tcp_state m z b

unfoldable pub msgsize_msg : Msgp → Message → ℕ
unfolding msgsize_packet msgsize_big_file msgsize_syn_ack_ack msgsize_byte_account
    msgsize_terminated_error msgsize_tcp_event msgsize_tcp_state
msgsize_msg m (packet_message z) = msgsize_packet m z
msgsize_msg m (big_file_message z) = msgsize_big_file m z
msgsize_msg m (syn_ack_ack_message z) = msgsize_syn_ack_ack m z
msgsize_msg m (byte_account_message z) = msgsize_byte_account m z
msgsize_msg m (terminated_error_message z) = msgsize_terminated_error m z
msgsize_msg m (tcp_event_message z) = msgsize_tcp_event m z
msgsize_msg m (tcp_state_message z) = msgsize_tcp_state m z
