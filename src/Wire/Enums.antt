-- ===== src/Wire/Enums.antt =====
-- tcp.go, swp_gen.go, tcp_gen.go: the integers behind events, states and actions, and how they are
-- serialized.
use go_sliding_window.Base.{
  ℕ, Option, List, [], ◌∷◌, none, some, get_elem?, get_elem?-none, ◌<◌, ◌≡◌, refl, arith,
}
use go_sliding_window.Base.Int.{ℤ, pos, negsuc}
use go_sliding_window.Tcp.{
  TcpEvent, event_nil, event_start_listen, event_start_connect, event_syn, event_syn_ack,
  event_estab_ack, event_start_close, event_application_closed, event_fin, event_fin_ack,
  event_data_ack, event_data, event_keep_alive, unknown_event, TcpState, fresh, closed, listen,
  syn_received, syn_sent, established, close_initiator_has_sent_fin, close_responder_got_fin,
  unknown_state, state_int,
}
use go_sliding_window.Wire.{Msgp, Decoded, assign}

-- `int(e)`.
unfoldable pub event_int : TcpEvent → ℤ
event_int event_nil = pos 0
event_int event_start_listen = pos 1
event_int event_start_connect = pos 2
event_int event_syn = pos 3
event_int event_syn_ack = pos 4
event_int event_estab_ack = pos 5
event_int event_start_close = pos 6
event_int event_application_closed = pos 7
event_int event_fin = pos 8
event_int event_fin_ack = pos 9
event_int event_data_ack = pos 10
event_int event_data = pos 11
event_int event_keep_alive = pos 12
event_int (unknown_event n) = n

abbrev pub named_events : List TcpEvent
named_events =
    event_nil ∷ event_start_listen ∷ event_start_connect ∷ event_syn ∷ event_syn_ack
    ∷ event_estab_ack ∷ event_start_close ∷ event_application_closed ∷ event_fin ∷ event_fin_ack
    ∷ event_data_ack ∷ event_data ∷ event_keep_alive ∷ []

-- `TcpEvent(n)`.
unfoldable pub event_of_int : ℤ → TcpEvent
event_of_int (pos n) = elim (get_elem? named_events n) [ none ↦ unknown_event (pos n) | some e ↦ e ]
event_of_int (negsuc n) = unknown_event (negsuc n)

-- The event is one that no constant names only if its number is none of theirs.
abbrev pub IsNamed : TcpEvent → Type 0
IsNamed (unknown_event (pos n)) = 12 < n
IsNamed _ = Unit

pub event_of_int-event_int : (ev : TcpEvent) → IsNamed ev → event_of_int (event_int ev) ≡ ev
unfolding event_int event_of_int
event_of_int-event_int (unknown_event (pos n)) h =
    rw (get_elem?-none named_events n (omega arith), event_of_int) refl
event_of_int-event_int (unknown_event (negsuc n)) h = refl
event_of_int-event_int event_nil h = refl
event_of_int-event_int _ h = refl

abbrev pub named_states : List TcpState
named_states =
    fresh ∷ closed ∷ listen ∷ syn_received ∷ syn_sent ∷ established ∷ close_initiator_has_sent_fin
    ∷ close_responder_got_fin ∷ []

-- `TcpState(n)`.
unfoldable pub state_of_int : ℤ → TcpState
state_of_int (pos n) = elim (get_elem? named_states n) [ none ↦ unknown_state (pos n) | some s ↦ s ]
state_of_int (negsuc n) = unknown_state (negsuc n)

abbrev pub IsNamedState : TcpState → Type 0
IsNamedState (unknown_state (pos n)) = 7 < n
IsNamedState _ = Unit

pub state_of_int-state_int : (s : TcpState) → IsNamedState s → state_of_int (state_int s) ≡ s
unfolding state_of_int
state_of_int-state_int (unknown_state (pos n)) h =
    rw (get_elem?-none named_states n (omega arith), state_of_int) refl
state_of_int-state_int (unknown_state (negsuc n)) h = refl
state_of_int-state_int fresh h = refl
state_of_int-state_int _ h = refl

-- The methods of TcpEvent.
unfoldable pub unmarshal_tcp_event : Msgp → TcpEvent → List ℕ → Decoded TcpEvent
unmarshal_tcp_event m z bts = assign (m.slices.read_int bts) event_of_int

unfoldable pub decode_tcp_event : Msgp → TcpEvent → List ℕ → Decoded TcpEvent
decode_tcp_event m z dc = assign (m.reader.read_int dc) event_of_int

unfoldable pub marshal_tcp_event : Msgp → TcpEvent → List ℕ → List ℕ
marshal_tcp_event m z b = m.appends.append_int b (event_int z)

unfoldable pub encode_tcp_event : Msgp → TcpEvent → List ℕ → Option (List ℕ)
encode_tcp_event m z en = m.writer.write_int en (event_int z)

unfoldable pub msgsize_tcp_event : Msgp → TcpEvent → ℕ
msgsize_tcp_event m z = m.sizes.int_size

-- The methods of TcpState.
unfoldable pub unmarshal_tcp_state : Msgp → TcpState → List ℕ → Decoded TcpState
unmarshal_tcp_state m z bts = assign (m.slices.read_int bts) state_of_int

unfoldable pub decode_tcp_state : Msgp → TcpState → List ℕ → Decoded TcpState
decode_tcp_state m z dc = assign (m.reader.read_int dc) state_of_int

unfoldable pub marshal_tcp_state : Msgp → TcpState → List ℕ → List ℕ
marshal_tcp_state m z b = m.appends.append_int b (state_int z)

unfoldable pub encode_tcp_state : Msgp → TcpState → List ℕ → Option (List ℕ)
encode_tcp_state m z en = m.writer.write_int en (state_int z)

unfoldable pub msgsize_tcp_state : Msgp → TcpState → ℕ
msgsize_tcp_state m z = m.sizes.int_size
