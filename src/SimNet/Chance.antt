-- ===== src/SimNet/Chance.antt =====
-- simnet.go: the random number that decides whether a packet is lost. clock.go: SimClock.
use go_sliding_window.Base.{
  ℕ, suc, ◌-◌, ltb, true, false, Bool-cases, subst, sym, ◌<◌, ◌≡◌, refl, ◌⊎◌, inl, inr, arith,
}
use go_sliding_window.Base.Int.{
  ℤ, pos, negsuc, ltb_ℤ, rem_64, sub_64, add_64, two_63, IsInt64, ◌≤ℤ◌, ◌-ℤ◌, wrap_64, add_64_pos,
}
use go_sliding_window.SimNet.{resolution, crypto_numerator}

-- The numerator is a remainder.
abbrev InRange : ℤ → Type 0
InRange k = (pos 0 ≤ℤ k) × (k ≤ℤ resolution)

negated : (n : ℕ) → suc n < two_63 → sub_64 (pos 0) (negsuc n) ≡ pos (suc n)
unfolding sub_64 wrap_64 ◌-ℤ◌
negated n h = ground arith

numerator_pos : (n : ℕ) → InRange (rem_64 (pos n) (add_64 resolution (pos 1)))
unfolding rem_64
numerator_pos n =
    let whole : add_64 resolution (pos 1) ≡ pos 1048577 = add_64_pos 1048576 1 (omega arith) in
    rw whole (omega arith)

numerator_of_pos : (n : ℕ) → crypto_numerator (pos n) ≡ rem_64 (pos n) (add_64 resolution (pos 1))
unfolding crypto_numerator
numerator_of_pos n = let no : ltb_ℤ (pos n) (pos 0) ≡ false = ground arith in rw no refl

numerator_of_negsuc :
    (n : ℕ)
    → suc n < two_63
    → crypto_numerator (negsuc n) ≡ rem_64 (pos (suc n)) (add_64 resolution (pos 1))
unfolding crypto_numerator
numerator_of_negsuc n less =
    let yes : ltb_ℤ (negsuc n) (pos 0) ≡ true = ground arith in rw (yes, negated n less) refl

numerator_last : crypto_numerator (negsuc (two_63 - 1)) ≡ negsuc 1048568
unfolding crypto_numerator add_64
numerator_last = refl

-- `cryptoProb` gives a number between 0 and 1, for every integer that is read but the smallest: for
-- that one, whose negation wraps, the number is negative.
pub crypto_numerator-cases :
    (r : ℤ)
    → IsInt64 r
    → ((pos 0 ≤ℤ crypto_numerator r) × (crypto_numerator r ≤ℤ resolution))
      ⊎ ((r ≡ negsuc (two_63 - 1)) × (crypto_numerator r ≡ negsuc 1048568))
crypto_numerator-cases (pos n) h = inl (subst InRange (sym (numerator_of_pos n)) (numerator_pos n))
crypto_numerator-cases (negsuc n) h = elim (Bool-cases (ltb n (two_63 - 1))) [
  | inl t ↦
      let less : suc n < two_63 = ground (arith, t) in
      inl (subst InRange (sym (numerator_of_negsuc n less)) (numerator_pos (suc n)))
  | inr f ↦ let last : n ≡ two_63 - 1 = ground (arith, f, h) in inr (rw last (refl, numerator_last))
]
