-- ===== src/Sender/Estimate.antt =====
-- sender.go: `GetDeadlineDur`.
use go_sliding_window.Base.{ℕ, ◌&&◌, Option, none, some, if◌then◌else◌}
use go_sliding_window.Base.Int.{pos, ltb_ℤ, add_64, mul_64}
use go_sliding_window.Packet.{Duration}
use go_sliding_window.Flow.{Flow}
use go_sliding_window.Externals.{Externals}
use go_sliding_window.Rtt.{Rtt, get_estimate, get_sd}

abbrev pub ms : ℕ → Duration
ms n = mul_64 (pos n) (pos 1_000_000)

module _ (x : Externals) where
  open x use {of_int, to_int, fadd, fmul, fdiv, sqrt}

  -- The local estimate and deviation, before blending; `none` where nobody has information.
  unfoldable pub base_estimate : Rtt x → Flow → Option (Duration × Duration)
  base_estimate r flow =
      if ltb_ℤ r.n (pos 1)
      then (if ltb_ℤ (pos 2) flow.remote_rtt_n
          then some (flow.remote_rtt_est_nsec, flow.remote_rtt_sd_nsec)
          else none)
      else (let ema = get_estimate x r in
          some (
            ema,
            if ltb_ℤ (pos 1) r.n
                then get_sd x r
                else (if ltb_ℤ (mul_64 (pos 2) ema) ema then mul_64 (pos 2) ema else ema),
          ))

  -- The variance-weighted average with the remote estimate.
  unfoldable pub blend : Rtt x → Flow → Duration × Duration → Duration × Duration
  blend r flow (ema, sd) =
      if ltb_ℤ (pos 2) flow.remote_rtt_n && ltb_ℤ (pos 2) r.n
      then (let var1 = fmul (of_int sd) (of_int sd) in
          let var2 = fmul (of_int flow.remote_rtt_sd_nsec) (of_int flow.remote_rtt_sd_nsec) in
          let sath_sd =
            sqrt (fadd (fdiv var1 (of_int r.n)) (fdiv var2 (of_int flow.remote_rtt_n))) in
          let inv1 = fdiv (of_int (pos 1)) var1 in
          let inv2 = fdiv (of_int (pos 1)) var2 in
          (
            to_int (
                fdiv (fadd (fmul (of_int ema) inv1) (fmul (of_int flow.remote_rtt_est_nsec) inv2))
                  (fadd inv1 inv2)),
            to_int sath_sd,
          ))
      else (ema, sd)

  unfoldable pub floor_deadline : Rtt x → Duration → Duration
  floor_deadline r fin = if ltb_ℤ r.n (pos 10) && ltb_ℤ fin (ms 100) then ms 100 else fin

  unfoldable pub get_deadline_dur : Rtt x → Flow → Duration
  unfolding base_estimate blend floor_deadline
  get_deadline_dur r flow = elim (base_estimate r flow) [
    | none ↦ ms 500
    | some base ↦
        let (ema, sd) = blend r flow base in floor_deadline r (add_64 ema (mul_64 (pos 4) sd))
  ]
