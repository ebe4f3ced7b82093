-- ===== src/Flow.antt =====
-- flow.go: the flow-control record that sender and receiver share. Its mutex makes each call one
-- step; `who` and `net` are not used by the source and are left out.
pub mod Laws
use go_sliding_window.Base.{ℕ, Bool, ◌&&◌, not, Option, none, some, if◌then◌else◌}
use go_sliding_window.Base.Int.{ℤ, pos, ltb_ℤ}
use go_sliding_window.Packet.{Packet, Time}

pub record Flow : Type 0 where
  pub reserved_byte_cap : ℤ
  pub reserved_msg_cap : ℤ
  pub avail_reader_bytes_cap : ℤ
  pub avail_reader_msg_cap : ℤ
  pub remote_rtt_est_nsec : ℤ
  pub remote_rtt_sd_nsec : ℤ
  pub remote_rtt_n : ℤ
  pub last_heard_from_downstream : Time

unfoldable pub update_rtt_info : Flow → Option Packet → Flow
update_rtt_info f none = f
update_rtt_info f (some pack) =
    if ltb_ℤ f.remote_rtt_n pack.from_rtt_n
    then record f {
      remote_rtt_est_nsec = pack.from_rtt_est_nsec;
      remote_rtt_sd_nsec = pack.from_rtt_sd_nsec;
      remote_rtt_n = pack.from_rtt_n;
    }
    else f

-- The new `r.Flow`, of which the source returns a copy.
unfoldable pub update_flow : Flow → ℤ → ℤ → Option Packet → Flow
unfolding update_rtt_info
update_flow f avail_msg avail_bytes pack =
    let f1 = record f {
      avail_reader_msg_cap = if ltb_ℤ avail_msg (pos 0) then f.avail_reader_msg_cap else avail_msg;
    } in
    let f2 = record f1 {
      avail_reader_bytes_cap =
          if ltb_ℤ avail_bytes (pos 0) then f1.avail_reader_bytes_cap else avail_bytes;
    } in
    update_rtt_info f2 pack
