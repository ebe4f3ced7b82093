-- ===== src/Session/Connect.antt =====
-- swp.go, recv.go: how a session connects. What the channels and timers of an attempt do is given as a
-- list of attempts; a list that ends before a decision stands for a connect that still waits.
use go_sliding_window.Base.{
  ℕ, suc, Bool, Option, none, some, List, [], ◌∷◌, String, str_eq, if◌then◌else◌,
}
use go_sliding_window.Base.Int.{ℤ, pos, leb_ℤ}
use go_sliding_window.Packet.{Duration}
use go_sliding_window.Session.{or_default}

-- The first `select`: the receiver takes the request, or nothing does in time, or it is stopping.
pub data Offer : Type 0 where
  taken not_taken stopping : Offer

pub data ConnectError : Type 0 where
  waiting_for_syn waiting_for_syn_ack err_shutdown : ConnectError
  request_error : String → ConnectError

-- The second `select`: the request is answered with a nonce and an error, or not in time, or the time
-- for all attempts is over, or the receiver is stopping.
pub data Answer : Type 0 where
  answered : String → Option ConnectError → Answer
  no_answer too_long stopped : Answer

pub record Attempt : Type 0 where
  pub offer : Offer
  pub answer : Answer

abbrev pub Connected : Type 0
Connected = Option (String × Option ConnectError)

abbrev pub on_answer : Connected → Answer → Connected
on_answer again (answered nonce err) = some (nonce, err)
on_answer again no_answer = again
on_answer again too_long = some ("", some waiting_for_syn_ack)
on_answer again stopped = some ("", some err_shutdown)

abbrev pub on_offer : Bool → Connected → Answer → Offer → Connected
on_offer lost again reply taken = if lost then again else on_answer again reply
on_offer lost again reply not_taken = some ("", some waiting_for_syn)
on_offer lost again reply stopping = some ("", some err_shutdown)

-- The loop of `RecvState.Connect`, after a number of tries; the first `lost` answers are ignored.
unfoldable pub connect_loop : ℤ → ℕ → List Attempt → Connected
connect_loop lost tries [] = none
connect_loop lost tries (a ∷ attempts) =
    on_offer (leb_ℤ (pos (suc tries)) lost) (connect_loop lost (suc tries) attempts) a.answer
      a.offer

-- The fields of a Session that connecting uses.
pub record Connector : Type 0 where
  pub connect_timeout : Duration
  pub connect_attempts : ℤ
  pub remote_sess_nonce : String

unfoldable pub set_connect_defaults : Connector → Connector
set_connect_defaults s = record s {
  connect_timeout = or_default s.connect_timeout (pos 60_000_000_000);
  connect_attempts = or_default s.connect_attempts (pos 5);
}

abbrev pub keep_nonce : Connector → Connected → Option (Connector × Option ConnectError)
keep_nonce s none = none
keep_nonce s (some (nonce, some err)) = some (s, some err)
keep_nonce s (some (nonce, none)) = some (record s { remote_sess_nonce = nonce }, none)

-- `ConnectIfNeeded`. The attempts are those that happen with this timeout and this number of attempts.
unfoldable pub connect_if_needed :
    Connector → ℤ → (Duration → ℤ → List Attempt) → Option (Connector × Option ConnectError)
unfolding connect_loop set_connect_defaults
connect_if_needed s0 lost happens =
    let s = set_connect_defaults s0 in
    let timeout = or_default s.connect_timeout (pos 60_000_000_000) in
    let attempts = or_default s.connect_attempts (pos 5) in
    if str_eq s.remote_sess_nonce ""
    then keep_nonce s (connect_loop lost 0 (happens timeout attempts))
    else some (s, none)
