-- ===== src/Rtt.antt =====
-- rtt.go, stddev.go: the smoothed round-trip time and the running standard deviation, over the
-- float64 arithmetic of `Externals`.
use go_sliding_window.Base.{
  ℕ, Option, none, some, List, [], ◌∷◌, length, replicate, ◌==◌, if◌then◌else◌,
}
use go_sliding_window.Base.Int.{ℤ, pos, eq_ℤ, add_64}
use go_sliding_window.Packet.{Duration}
use go_sliding_window.Externals.{Externals}

module _ (x : Externals) where
  open x use {Float, of_int, to_int, tenth, fadd, fsub, fmul, fdiv, sqrt}

  pub record SdTracker : Type 0 where
    pub nc : ℕ
    pub w : List Float
    pub a : List Float
    pub q : List Float

  unfoldable pub zero_tracker : ℕ → SdTracker
  zero_tracker ncol =
      let zeros = replicate ncol (of_int (pos 0)) in
      record { nc = ncol; w = zeros; a = zeros; q = zeros }

  -- One column of `sd` (`math.Sqrt(wvar * W / (W - 1))` with `wvar = Q / W`), and all of them.
  unfoldable pub sd_column : Float → Float → Float
  sd_column w q = sqrt (fdiv (fmul (fdiv q w) w) (fsub w (of_int (pos 1))))

  unfoldable pub sd : List Float → List Float → List Float
  unfolding sd_column
  sd [] qs = []
  sd (w ∷ ws) [] = []
  sd (w ∷ ws) (q ∷ qs) = sd_column w q ∷ sd ws qs

  -- One round of the loop of `addObs`, on column `i`: the new `W`, `A` and `Q`.
  unfoldable pub add_column : Float → Float → Float → Float → Float → Float × Float × Float
  add_column weight xi w a q =
      let w' = fadd w weight in
      let a' = fadd a (fdiv (fmul weight (fsub xi a)) w') in
      (w', a', fadd q (fmul (fmul weight (fsub xi a)) (fsub xi a')))

  unfoldable pub add_columns :
      Float
      → List Float
      → List Float
      → List Float
      → List Float
      → List Float × List Float × List Float
  unfolding add_column
  add_columns weight (xi ∷ xs) (w ∷ ws) (a ∷ as') (q ∷ qs) =
      let (w', a', q') = add_column weight xi w a q in
      let (ws', as'', qs') = add_columns weight xs ws as' qs in (w' ∷ ws', a' ∷ as'', q' ∷ qs')
  add_columns weight xs ws as' qs = (ws, as', qs)

  -- `none` is the panic on an observation of another length.
  unfoldable pub add_obs : SdTracker → List Float → Float → Option SdTracker
  unfolding add_columns
  add_obs s xs weight =
      if length xs == s.nc
      then (let (w, a, q) = add_columns weight xs s.w s.a s.q in
          some (record s { w = w; a = a; q = q }))
      else none

  pub record Rtt : Type 0 where
    pub est : Float
    pub n : ℤ
    pub sd_tracker : SdTracker

  unfoldable pub new_rtt : Rtt
  unfolding zero_tracker
  new_rtt = record { est = of_int (pos 0); n = pos 0; sd_tracker = zero_tracker 1 }

  unfoldable pub get_estimate : Rtt → Duration
  get_estimate r = to_int r.est

  abbrev pub head_or : List Float → Float → Float
  head_or [] d = d
  head_or (y ∷ ys) d = y

  unfoldable pub get_sd : Rtt → Duration
  unfolding sd
  get_sd r =
      if eq_ℤ r.n (pos 0)
      then pos 10_000_000
      else (if eq_ℤ r.n (pos 1)
          then to_int (fdiv r.est (of_int (pos 2)))
          else to_int (head_or (sd r.sd_tracker.w r.sd_tracker.q) (of_int (pos 0))))

  -- `Alpha` is 0.1.
  unfoldable pub add_sample : Rtt → Duration → Option Rtt
  unfolding add_obs
  add_sample r sample = elim (add_obs r.sd_tracker (of_int sample ∷ []) (of_int (pos 1))) [
    | none ↦ none
    | some s ↦
        let n' = add_64 r.n (pos 1) in
        let cur = of_int sample in
        some (record {
          n = n';
          sd_tracker = s;
          est =
              if eq_ℤ n' (pos 1)
              then cur
              else fadd (fmul tenth cur) (fmul (fsub (of_int (pos 1)) tenth) r.est);
        })
  ]
