-- ===== src/Sender/Deadline.antt =====
-- sender.go: bounds on the retry deadline, and what flow control lets through.
use go_sliding_window.Base.{◌≡◌, refl, true, arith, Option-cases, inl, inr}
use go_sliding_window.Base.Int.{ℤ, pos, ◌≤ℤ◌, ltb_ℤ, add_64, mul_64, wrap_64}
use go_sliding_window.Flow.{Flow}
use go_sliding_window.Externals.{Externals}
use go_sliding_window.Rtt.{Rtt}
use go_sliding_window.Sender.Estimate.{base_estimate, blend, floor_deadline, get_deadline_dur, ms}

ms_values : (ms 100 ≡ pos 100_000_000) × (ms 500 ≡ pos 500_000_000)
unfolding mul_64 wrap_64
ms_values = (refl, refl)

module _ (x : Externals) where
  floor_le : (r : Rtt x) (fin : ℤ) → ltb_ℤ r.n (pos 10) ≡ true → ms 100 ≤ℤ floor_deadline x r fin
  unfolding floor_deadline
  floor_le r fin few = ground (arith, few)

  -- As long as there are fewer than ten samples of the round trip, no retry is due before 100 ms have
  -- passed, whatever the estimates are.
  pub get_deadline_dur-le :
      (r : Rtt x) (flow : Flow) → ltb_ℤ r.n (pos 10) ≡ true → ms 100 ≤ℤ get_deadline_dur x r flow
  unfolding get_deadline_dur
  get_deadline_dur-le r flow few = elim (Option-cases (base_estimate x r flow)) [
    | inl e ↦ rw (e, get_deadline_dur, ms_values.0, ms_values.1) (omega arith)
    | inr (base, e) ↦
        rw (e, get_deadline_dur)
          (floor_le r (add_64 (blend x r flow base).0 (mul_64 (pos 4) (blend x r flow base).1)) few)
  ]
