-- ===== src/Flow/Laws.antt =====
-- flow.go: what an update keeps.
use go_sliding_window.Base.{ℕ, ◌≡◌, Option, none, some, arith}
use go_sliding_window.Base.Int.{ℤ, pos, negsuc, ◌≤ℤ◌}
use go_sliding_window.Packet.{Packet}
use go_sliding_window.Flow.{Flow, update_flow}

-- Negative capacities and no packet only query.
pub update_flow_query : (f : Flow) (m n : ℕ) → update_flow f (negsuc m) (negsuc n) none ≡ f
unfolding update_flow
update_flow_query f m n = ground arith

-- The number of observations behind the remote estimate never falls, and the estimate changes only
-- together with a larger number: a packet that arrives late or twice changes nothing.
pub update_flow_rtt :
    (f : Flow) (m b : ℤ) (p : Option Packet)
    → let g = update_flow f m b p in
      (f.remote_rtt_n ≤ℤ g.remote_rtt_n)
      × ((g.remote_rtt_n ≡ f.remote_rtt_n)
          → (g.remote_rtt_est_nsec ≡ f.remote_rtt_est_nsec)
            × (g.remote_rtt_sd_nsec ≡ f.remote_rtt_sd_nsec))
      × (g.reserved_msg_cap ≡ f.reserved_msg_cap)
      × (g.reserved_byte_cap ≡ f.reserved_byte_cap)
unfolding update_flow
update_flow_rtt f m b none = ground arith
update_flow_rtt f m b (some p) = ground arith

-- Applying the same update twice is applying it once.
pub update_flow_idem :
    (f : Flow) (m b : ℤ) (p : Option Packet)
    → update_flow (update_flow f m b p) m b p ≡ update_flow f m b p
unfolding update_flow
update_flow_idem f m b none = ground arith
update_flow_idem f m b (some p) = ground arith

-- Advertised capacities stay non-negative.
pub update_flow_caps :
    (f : Flow) (m b : ℤ) (p : Option Packet)
    → pos 0 ≤ℤ f.avail_reader_msg_cap
    → pos 0 ≤ℤ f.avail_reader_bytes_cap
    → (pos 0 ≤ℤ (update_flow f m b p).avail_reader_msg_cap)
      × (pos 0 ≤ℤ (update_flow f m b p).avail_reader_bytes_cap)
unfolding update_flow
update_flow_caps f m b none h k = ground arith
update_flow_caps f m b (some p) h k = ground arith
