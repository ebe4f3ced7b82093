-- ===== src/Wire/Nats.antt =====
-- natsnet.go: packets over a NATS subscription. The client is a parameter.
use go_sliding_window.Base.{
  ℕ, Option, none, some, List, [], ◌≡◌, refl, ◌∙◌, sym, ap, append-nil, String,
}
use go_sliding_window.Tcp.{syn_received, established, event_keep_alive, update_tcp, no_action}
use go_sliding_window.Packet.{Packet, zero_packet}
use go_sliding_window.Wire.{Msgp, Decoded, failed, more}
use go_sliding_window.Wire.Packets.{marshal_packet, unmarshal_packet}
use go_sliding_window.Wire.Laws.{MsgpLaws}
use go_sliding_window.Wire.PacketTrip.{PacketFits, carried}
use go_sliding_window.Wire.RoundTrip.{unmarshal_packet-marshal_packet}

-- `Send`, given what `Publish` does with a subject and bytes: its result is what `Send` returns.
-- (`MarshalMsg` returns no error.)
unfoldable pub nats_send : {Err : Type 0} → Msgp → (String → List ℕ → Err) → Packet → Err
nats_send m publish pack = publish pack.dest (marshal_packet m pack [])

-- What the function that `Listen` subscribes hands to the channel for the bytes of a message, unless
-- the network stops first. `none` is a panic.
abbrev pub unpacked : Decoded Packet → Option Packet
unpacked (failed z) = none
unpacked (more z rest) = some z

unfoldable pub nats_receive : Msgp → List ℕ → Option Packet
nats_receive m msg = unpacked (unmarshal_packet m zero_packet msg)

-- A server that hands each message to the subscription of its subject.
abbrev pub delivery : Msgp → String → List ℕ → String × Option Packet
delivery m subject msg = (subject, nats_receive m msg)

module _ (m : Msgp) (laws : MsgpLaws m) where
  -- A packet that was sent arrives at its destination's subscription without a panic, but with
  -- FromTcpState as in a new packet, whatever it was.
  pub nats_receive-nats_send :
      (z : Packet)
      → PacketFits z
      → nats_send m (delivery m) z ≡ (z.dest, some (carried zero_packet z))
  unfolding nats_send nats_receive
  nats_receive-nats_send z f =
      ap (λ (d : Decoded Packet). (z.dest, unpacked d))
        (ap (unmarshal_packet m zero_packet) (sym (append-nil (marshal_packet m z [])))
          ∙ unmarshal_packet-marshal_packet m laws zero_packet z [] f)

  -- So a keep-alive of an established peer that is sent over NATS leaves its receiver in SynReceived,
  -- while the same packet, had it arrived as it was sent, would establish the connection.
  pub update_tcp-nats_receive :
      (z : Packet)
      → PacketFits z
      → z.tcp_event ≡ event_keep_alive
      → z.from_tcp_state ≡ established
      → (update_tcp syn_received z.tcp_event z.from_tcp_state ≡ (established, no_action))
        × ((got : Packet) × (nats_send m (delivery m) z ≡ (z.dest, some got))
            × (update_tcp syn_received got.tcp_event got.from_tcp_state
                ≡ (syn_received, no_action)))
  unfolding update_tcp nats_send
  update_tcp-nats_receive z f alive est =
      (rw (alive, est) refl, (carried zero_packet z, nats_receive-nats_send z f, rw alive refl))
