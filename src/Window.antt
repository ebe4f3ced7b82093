-- ===== src/Window.antt =====
-- swp.go: the window test `InWindow`, and what it means for the receiver's window.
use go_sliding_window.Base.{
  ℕ, ◌+◌, ◌-◌, ◌≤◌, ◌<◌, ◌≡◌, ◌↔◌, Bool, true, false, arith, if◌then◌else◌,
}
use go_sliding_window.Base.Int.{
  ℤ, pos, negsuc, ◌≤ℤ◌, ltb_ℤ, add_64, sub_64, add_64_pos, sub_64_pos, two_63,
}

unfoldable pub in_window : ℤ → ℤ → ℤ → Bool
in_window seqno min max = if ltb_ℤ seqno min then false else if ltb_ℤ max seqno then false else true

-- The test decides membership of the closed interval, whatever its ends.
pub in_window_iff :
    (seqno min max : ℤ) → (in_window seqno min max ≡ true) ↔ ((min ≤ℤ seqno) × (seqno ≤ℤ max))
unfolding in_window
in_window_iff s a b = ground arith

-- The last sequence number of the receiver's window, `NextFrameExpected+RecvWindowSize-1`.
unfoldable pub window_end : ℤ → ℤ → ℤ
window_end nfe size = sub_64 (add_64 nfe size) (pos 1)

pub window_end_pos :
    (n w : ℕ) → 0 < w → n + w < two_63 → window_end (pos n) (pos w) ≡ pos (n + w - 1)
unfolding window_end
window_end_pos n w h k = ground (arith, add_64_pos n w, sub_64_pos (n + w) 1)

-- In the window `[n, n + w)` stand the sequence numbers `n`, …, `n + w - 1` and no others.
pub in_window_pos :
    (k n w : ℕ)
    → 0 < w
    → n + w < two_63
    → (in_window (pos k) (pos n) (window_end (pos n) (pos w)) ≡ true) ↔ ((n ≤ k) × (k < n + w))
unfolding in_window
in_window_pos k n w h b = ground (arith, window_end_pos n w h b)

pub in_window_neg : (k n w : ℕ) → in_window (negsuc k) (pos n) (window_end (pos n) (pos w)) ≡ false
unfolding in_window
in_window_neg k n w = ground arith
