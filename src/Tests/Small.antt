-- ===== src/Tests/Small.antt =====
-- The queue, the deadline and the retries on concrete inputs.
use go_sliding_window.Base.{
  ◌&&◌, ◌==◌, ◌≤◌, ◌≡◌, refl, inl, true, some, List, [], ◌∷◌, ◌++◌, length, arith,
}
use go_sliding_window.Base.Int.{pos, ltb_ℤ, leb_ℤ, ◌≤ℤ◌, ◌-ℤ◌}
use go_sliding_window.Tcp.{syn_sent}
use go_sliding_window.Packet.{time_sub}
use go_sliding_window.Externals.Lists.{list_externals}
use go_sliding_window.Rtt.{new_rtt}
use go_sliding_window.Sender.{initial_flow}
use go_sliding_window.Sender.Estimate.{get_deadline_dur, ms}
use go_sliding_window.Sender.Deadline.{get_deadline_dur-le}
use go_sliding_window.Asap.{AsapEvent, client, packet, new_asap_helper, asap_loop}
use go_sliding_window.Asap.Sublist.{IsSublist, held, arrivals, asap_loop-IsSublist, q-asap_loop}
use go_sliding_window.Recv.{RecvState, new_recv_state}
use go_sliding_window.Recv.Retry.{retry_check, attempt, give_up, count_attempt}
use go_sliding_window.Recv.Attempts.{Limited, retry_check-Limited}
use go_sliding_window.Events.{
  EventRingBuf, new_event_ring_buf, add_event_check_overflow, put_event, within_window,
}
use go_sliding_window.Events.Recent.{IsRing, event_at, Added, add_event-Added}
use go_sliding_window.Tests.Data.{frame, fresh_link}

-- Three packets come before the client takes one, with room for one in the queue.
abbrev busy : List AsapEvent
busy =
    packet (frame 0 []) ∷ packet (frame 1 []) ∷ packet (frame 2 []) ∷ client ∷ client ∷ client ∷ []

asap_loop-IsSublist_example :
    IsSublist
      ((asap_loop (new_asap_helper (pos 1)) busy).1
        ++ held (asap_loop (new_asap_helper (pos 1)) busy).0)
      (held (new_asap_helper (pos 1)) ++ arrivals busy)
asap_loop-IsSublist_example = asap_loop-IsSublist (new_asap_helper (pos 1)) busy

q-asap_loop_example : length (asap_loop (new_asap_helper (pos 1)) busy).0.q ≤ 1
q-asap_loop_example = q-asap_loop 1 busy

no_samples : ltb_ℤ (new_rtt list_externals).n (pos 10) ≡ true
unfolding new_rtt
no_samples = refl

get_deadline_dur-le_example :
    ms 100 ≤ℤ get_deadline_dur list_externals (new_rtt list_externals) initial_flow
get_deadline_dur-le_example =
    get_deadline_dur-le list_externals (new_rtt list_externals) initial_flow no_samples

-- A client whose SYN was never answered, after ten attempts.
abbrev plain_state : RecvState
plain_state = new_recv_state 2 (pos 4096) "A" "B" "na" fresh_link

abbrev unanswered : RecvState
unanswered = record plain_state {
  conn = record (plain_state.conn) {
    tcp_state = syn_sent;
    retry = record (plain_state.conn.retry) {
      in_use = true;
      cur_state = syn_sent;
      attempt_count = 10;
      last_attempt_at = pos 0;
    };
  };
}

gives_up :
    retry_check unanswered (pos 2_000_000_000) (pos 2_000_000_000)
    ≡ some (give_up (count_attempt unanswered))
unfolding retry_check attempt time_sub ◌-ℤ◌ new_recv_state
gives_up = refl

retry_check-Limited_example : Limited (give_up (count_attempt unanswered))
unfolding new_recv_state
retry_check-Limited_example =
    retry_check-Limited unanswered (give_up (count_attempt unanswered)) (pos 2_000_000_000)
      (pos 2_000_000_000) gives_up (inl (omega arith))

-- A full ring of two events, whose oldest stands in the second place.
abbrev two_events : EventRingBuf
two_events = record (new_event_ring_buf 2 (pos 5)) {
  a = pos 12 ∷ pos 10 ∷ [];
  beg = 1;
  readable = 2;
}

two_events-IsRing : IsRing two_events
unfolding new_event_ring_buf
two_events-IsRing = (refl, omega arith, omega arith)

add_event-Added_example :
    (b' : EventRingBuf) × (b'.n ≡ two_events.n)
    × Added two_events (pos 14) b'
    × (add_event_check_overflow two_events (pos 14)
        ≡ some (b', (b'.readable == b'.n) && leb_ℤ (time_sub (pos 14) (event_at b' 0)) b'.window))
add_event-Added_example = add_event-Added two_events (pos 14) two_events-IsRing

-- The events at 12 and 14 lie within five of each other.
overflows :
    add_event_check_overflow two_events (pos 14)
    ≡ some (record two_events { a = pos 12 ∷ pos 14 ∷ []; beg = 0 }, true)
unfolding new_event_ring_buf add_event_check_overflow put_event within_window time_sub
overflows = refl
