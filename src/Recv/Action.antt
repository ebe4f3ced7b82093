-- ===== src/Recv/Action.antt =====
-- recv.go: `doTcpAction`. A panic is a result of its own; the error that the source returns is
-- always nil, and is left out.
use go_sliding_window.Base.{
  suc, true, false, ◌&&◌, not, Option, none, some, [], ◌∷◌, ◌++◌, String, str_eq, if◌then◌else◌,
}
use go_sliding_window.Tcp.{
  TcpEvent, event_nil, event_syn, event_syn_ack, event_estab_ack, event_application_closed,
  event_fin, event_fin_ack, event_data_ack, TcpAction, no_action, send_syn, send_syn_ack,
  send_estab_ack, send_fin, send_fin_ack, do_app_close, send_data_ack,
}
use go_sliding_window.Packet.{Packet, Time}
use go_sliding_window.Recv.{RecvState, ConnectReq}
use go_sliding_window.Recv.Ack.{ack}

pub data ActionResult : Type 0 where
  panicked : ActionResult
  done : RecvState → TcpEvent → ActionResult

-- `r.ack(r.LastFrameClientConsumed, pack, event)`.
abbrev pub ack_with : RecvState → Option Packet → TcpEvent → Time → RecvState
ack_with r pack event now = ack r r.flow.last_frame_client_consumed pack event now

abbrev pub learn_nonce : RecvState → String → RecvState
learn_nonce r nonce = record r { conn = record (r.conn) { remote_sess_nonce = nonce } }

-- The server learns the remote nonce; a repeat must agree.
unfoldable pub syn_ack_action : RecvState → Option Packet → Time → ActionResult
syn_ack_action r none now = panicked
syn_ack_action r (some pack) now =
    if not (str_eq r.conn.remote_sess_nonce "")
      && not (str_eq r.conn.remote_sess_nonce pack.from_sess_nonce)
    then panicked
    else done (ack_with (learn_nonce r pack.from_sess_nonce) (some pack) event_syn_ack now)
        event_nil

-- The pending connect request is answered, and its `Done` closed.
abbrev pub answer : RecvState → ConnectReq → String → RecvState
answer r cr nonce = record r {
  conn = record (r.conn) {
    remote_sess_nonce = nonce;
    conn_req_pending = none;
    finished = r.conn.finished ++ record cr { remote_nonce = nonce; done = true } ∷ [];
  };
}

-- The client learns the remote nonce; there must have been none, and a request must be pending.
unfoldable pub estab_ack_action : RecvState → Option Packet → Time → ActionResult
estab_ack_action r pack now =
    if str_eq r.conn.remote_sess_nonce ""
    then elim pack [
      | none ↦ panicked
      | some p ↦ elim r.conn.conn_req_pending [
        | none ↦ panicked
        | some cr ↦
            done (ack_with (answer r cr p.from_sess_nonce) (some p) event_estab_ack now) event_nil
      ]
    ]
    else panicked

-- The application's callback runs at most once.
abbrev pub app_close : RecvState → RecvState
app_close r =
    if r.conn.app_close_callback
    then record r {
      conn = record (r.conn) { app_close_callback = false; app_closes = suc r.conn.app_closes };
    }
    else r

unfoldable pub do_tcp_action : TcpAction → RecvState → Option Packet → Time → ActionResult
unfolding syn_ack_action estab_ack_action
do_tcp_action no_action r pack now = done r event_nil
do_tcp_action send_data_ack r pack now = done (ack_with r pack event_data_ack now) event_nil
do_tcp_action send_syn r pack now = done (ack_with r pack event_syn now) event_nil
do_tcp_action send_syn_ack r pack now = syn_ack_action r pack now
do_tcp_action send_estab_ack r pack now = estab_ack_action r pack now
do_tcp_action send_fin r pack now = done (ack_with r pack event_fin now) event_nil
do_tcp_action send_fin_ack r pack now = done (ack_with r pack event_fin_ack now) event_nil
do_tcp_action do_app_close r pack now =
    done (ack_with (app_close r) pack event_fin_ack now) event_application_closed
