-- ===== src/Tests/Wire.antt =====
-- Packets, files and messages on the wire, on concrete inputs.

use go_sliding_window.Base.{
  ℕ, ◌+◌, ◌≤◌, ◌≡◌, refl, some, none, List, [], ◌∷◌, ◌++◌, arith, length, Option,
}
use go_sliding_window.Base.Int.{pos, negsuc}
use go_sliding_window.Tcp.{
  established, syn_received, event_keep_alive, event_data, event_syn_ack, update_tcp, no_action,
}
use go_sliding_window.Packet.{Packet, zero_packet}
use go_sliding_window.Session.{BigFile, send_file, recv_file}
use go_sliding_window.Wire.{more}
use go_sliding_window.Wire.Packets.{unmarshal_packet, marshal_packet}
use go_sliding_window.Wire.Files.{encode_big_file, decode_new_file}
use go_sliding_window.Wire.Messages.{
  SynAckAck, ByteAccount, TerminatedError, unmarshal_syn_ack_ack, marshal_syn_ack_ack,
  unmarshal_byte_account, marshal_byte_account, unmarshal_terminated_error,
  marshal_terminated_error, resliced,
}
use go_sliding_window.Wire.Enums.{
  event_int, unmarshal_tcp_event, marshal_tcp_event, unmarshal_tcp_state, marshal_tcp_state,
}
use go_sliding_window.Wire.Dispatch.{
  syn_ack_ack_message, packet_message, marshal_msg, encode_msg, msgsize_msg,
}
use go_sliding_window.Wire.PacketTrip.{PacketFits, carried}
use go_sliding_window.Wire.FileTrip.{BigFileFits}
use go_sliding_window.Wire.AckTrip.{SynAckAckFits}
use go_sliding_window.Wire.Encode.{encode_msg-marshal_msg}
use go_sliding_window.Wire.Bounds.{length-marshal_msg}
use go_sliding_window.Wire.RoundTrip.{
  unmarshal_packet-marshal_packet, unmarshal_syn_ack_ack-marshal_syn_ack_ack,
  unmarshal_msg-marshal_msg, recv_file-encode, sent_file,
}
use go_sliding_window.Wire.Nats.{
  nats_send, delivery, nats_receive-nats_send, update_tcp-nats_receive,
}
use go_sliding_window.Wire.Plain.{plain_msgp, plain_laws}
use go_sliding_window.Tests.Data.{frame}

-- A packet whose offset and numbers do not fit in a byte.
abbrev sent : Packet
sent = record (frame 7 (1 ∷ 255 ∷ [])) {
  from_tcp_state = established;
  seq_retry = negsuc 98;
  data_offset = 524288;
}

sent-PacketFits : PacketFits sent
unfolding event_int
sent-PacketFits = omega arith

unmarshal_packet-marshal_packet_example :
    unmarshal_packet plain_msgp zero_packet (marshal_packet plain_msgp sent [] ++ (9 ∷ []))
    ≡ more (carried zero_packet sent) (9 ∷ [])
unmarshal_packet-marshal_packet_example =
    unmarshal_packet-marshal_packet plain_msgp plain_laws zero_packet sent (9 ∷ []) sent-PacketFits

abbrev nacks : SynAckAck
nacks = record {
  tcp_event = event_syn_ack;
  session_nonce = "n";
  next_expected = pos 5;
  nack_list = pos 3 ∷ pos 4 ∷ [];
  nack_spare = [];
}

-- A value with room for three numbers is read into.
abbrev roomy : SynAckAck
roomy = record nacks { nack_list = pos 9 ∷ []; nack_spare = pos 8 ∷ pos 7 ∷ [] }

nacks-SynAckAckFits : SynAckAckFits nacks
unfolding event_int
nacks-SynAckAckFits = omega arith

unmarshal_syn_ack_ack-marshal_syn_ack_ack_example :
    unmarshal_syn_ack_ack plain_msgp roomy (marshal_syn_ack_ack plain_msgp nacks [] ++ [])
    ≡ more (record nacks { nack_spare = pos 7 ∷ [] }) []
unfolding resliced
unmarshal_syn_ack_ack-marshal_syn_ack_ack_example =
    unmarshal_syn_ack_ack-marshal_syn_ack_ack plain_msgp plain_laws roomy nacks []
      nacks-SynAckAckFits

abbrev acked : ByteAccount
acked = record { num_bytes_acked = pos 1000 }

abbrev closed_error : TerminatedError
closed_error = record { msg = "closed" }

unmarshal_msg-marshal_msg_example :
    (unmarshal_tcp_event plain_msgp event_data
        (marshal_tcp_event plain_msgp event_keep_alive [] ++ [])
      ≡ more event_keep_alive [])
    × (unmarshal_tcp_state plain_msgp established
          (marshal_tcp_state plain_msgp syn_received [] ++ [])
        ≡ more syn_received [])
    × (unmarshal_byte_account plain_msgp acked (marshal_byte_account plain_msgp acked [] ++ [])
        ≡ more acked [])
    × (unmarshal_terminated_error plain_msgp closed_error
          (marshal_terminated_error plain_msgp closed_error [] ++ [])
        ≡ more closed_error [])
unfolding event_int
unmarshal_msg-marshal_msg_example =
    unmarshal_msg-marshal_msg plain_msgp plain_laws event_keep_alive event_data syn_received
      established acked acked closed_error closed_error [] (omega arith) (omega arith) (omega arith)
      (omega arith)

abbrev written_nacks : List ℕ
unfolding marshal_msg
written_nacks = marshal_msg plain_msgp (syn_ack_ack_message nacks) (0 ∷ [])

encode_msg-marshal_msg_example :
    marshal_msg plain_msgp (syn_ack_ack_message nacks) (0 ∷ []) ≡ written_nacks
unfolding encode_msg written_nacks
encode_msg-marshal_msg_example =
    encode_msg-marshal_msg plain_msgp plain_laws (syn_ack_ack_message nacks) (0 ∷ []) written_nacks
      refl

length-marshal_msg_example :
    length (marshal_msg plain_msgp (packet_message sent) (0 ∷ []))
    ≤ 1 + msgsize_msg plain_msgp (packet_message sent)
length-marshal_msg_example = length-marshal_msg plain_msgp plain_laws (packet_message sent) (0 ∷ [])

nats_receive-nats_send_example :
    nats_send plain_msgp (delivery plain_msgp) sent ≡ ("B", some (carried zero_packet sent))
nats_receive-nats_send_example = nats_receive-nats_send plain_msgp plain_laws sent sent-PacketFits

abbrev alive : Packet
alive = record zero_packet {
  dest = "B";
  tcp_event = event_keep_alive;
  from_tcp_state = established;
}

alive-PacketFits : PacketFits alive
unfolding event_int
alive-PacketFits = omega arith

abbrev StillWaits : Packet → Type 0
StillWaits z =
    (update_tcp syn_received z.tcp_event z.from_tcp_state ≡ (established, no_action))
    × ((got : Packet) × (nats_send plain_msgp (delivery plain_msgp) z ≡ (z.dest, some got))
        × (update_tcp syn_received got.tcp_event got.from_tcp_state ≡ (syn_received, no_action)))

update_tcp-nats_receive_example : StillWaits alive
update_tcp-nats_receive_example =
    update_tcp-nats_receive plain_msgp plain_laws alive alive-PacketFits refl refl

abbrev short_hash : List ℕ → List ℕ
short_hash bs = length bs ∷ []

abbrev greeting : BigFile
greeting = sent_file short_hash "f" (104 ∷ 105 ∷ []) (pos 77)

greeting-BigFileFits : BigFileFits greeting
unfolding send_file
greeting-BigFileFits = omega arith

abbrev sent_bytes : Option (List ℕ) → List ℕ
sent_bytes none = []
sent_bytes (some bs) = bs

abbrev greeting_bytes : List ℕ
unfolding encode_big_file
greeting_bytes = sent_bytes (encode_big_file plain_msgp greeting [])

recv_file-encode_example :
    recv_file short_hash (decode_new_file plain_msgp) greeting_bytes ≡ (greeting, none)
unfolding encode_big_file send_file greeting_bytes
recv_file-encode_example =
    recv_file-encode plain_msgp plain_laws short_hash "f" (104 ∷ 105 ∷ []) (pos 77) greeting_bytes
      (omega arith) greeting-BigFileFits refl
