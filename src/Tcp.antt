-- ===== src/Tcp.antt =====
-- tcp.go: the connection states, events and actions, and the transition function `UpdateTcp`.
-- An `int` from the wire that no constant names is `unknown`.
pub mod Order
use go_sliding_window.Base.{ℕ, Bool, true, false, if◌then◌else◌}
use go_sliding_window.Base.Int.{ℤ, pos, negsuc}

pub data TcpState : Type 0 where
  fresh closed listen syn_received syn_sent established : TcpState
  close_initiator_has_sent_fin close_responder_got_fin : TcpState
  unknown_state : ℤ → TcpState

pub data TcpEvent : Type 0 where
  event_nil event_start_listen event_start_connect event_syn event_syn_ack : TcpEvent
  event_estab_ack event_start_close event_application_closed event_fin : TcpEvent
  event_fin_ack event_data_ack event_data event_keep_alive : TcpEvent
  unknown_event : ℤ → TcpEvent

pub data TcpAction : Type 0 where
  no_action send_syn send_syn_ack send_estab_ack send_fin send_fin_ack : TcpAction
  do_app_close send_data_ack : TcpAction

-- The value of the `int` behind a state.
abbrev pub state_int : TcpState → ℤ
state_int fresh = pos 0
state_int closed = pos 1
state_int listen = pos 2
state_int syn_received = pos 3
state_int syn_sent = pos 4
state_int established = pos 5
state_int close_initiator_has_sent_fin = pos 6
state_int close_responder_got_fin = pos 7
state_int (unknown_state n) = n

abbrev pub is_established : TcpState → Bool
is_established established = true
is_established _ = false

-- The state `*s` afterwards, and the action to take.
unfoldable pub update_tcp : TcpState → TcpEvent → TcpState → TcpState × TcpAction
update_tcp closed e from = (closed, send_fin_ack)
update_tcp fresh event_start_listen from = (listen, no_action)
update_tcp fresh event_start_connect from = (syn_sent, send_syn)
update_tcp fresh _ from = (fresh, no_action)
update_tcp listen event_syn from = (syn_received, send_syn_ack)
update_tcp listen event_fin from = (close_responder_got_fin, do_app_close)
update_tcp listen _ from = (listen, no_action)
update_tcp syn_received event_estab_ack from = (established, no_action)
update_tcp syn_received event_keep_alive from =
    (if is_established from then established else syn_received, no_action)
update_tcp syn_received event_fin from = (close_responder_got_fin, do_app_close)
update_tcp syn_received _ from = (syn_received, no_action)
update_tcp syn_sent event_syn_ack from = (established, send_estab_ack)
update_tcp syn_sent event_syn from = (syn_received, send_estab_ack)
update_tcp syn_sent event_fin from = (close_responder_got_fin, do_app_close)
update_tcp syn_sent _ from = (syn_sent, no_action)
update_tcp established event_keep_alive from = (established, send_data_ack)
update_tcp established event_start_close from = (close_initiator_has_sent_fin, send_fin)
update_tcp established event_fin from = (close_responder_got_fin, do_app_close)
update_tcp established _ from = (established, no_action)
update_tcp close_initiator_has_sent_fin event_fin_ack from = (closed, no_action)
update_tcp close_initiator_has_sent_fin event_fin from = (closed, no_action)
update_tcp close_initiator_has_sent_fin _ from = (close_initiator_has_sent_fin, no_action)
update_tcp close_responder_got_fin event_application_closed from = (closed, no_action)
update_tcp close_responder_got_fin _ from = (close_responder_got_fin, no_action)
update_tcp (unknown_state n) e from = (unknown_state n, no_action)

abbrev pub is_data : TcpEvent → Bool
is_data event_data = true
is_data _ = false
