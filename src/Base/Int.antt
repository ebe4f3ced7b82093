-- ===== src/Base/Int.antt =====
-- Go's signed 64-bit integers: ℤ under the library's names, with the wrap-around of `int64` written
-- out. Sums and orders go through the two parts of an integer, which are numbers that `omega` reads.
use go_sliding_window.Base.{
  ℕ, suc, ◌+◌, ◌-◌, ◌*◌, ◌%◌, ◌/◌, ◌^◌, ◌≤◌, ◌<◌, ◌≡◌, refl, ap, ◌∙◌, sym, ◌⊎◌, Bool, true, false,
  arith, ltb, leb, ◌==◌, if◌then◌else◌, ◌&&◌,
}

-- `negsuc n` is -(n + 1).
pub data ℤ : Type 0 where
  pos : ℕ → ℤ
  negsuc : ℕ → ℤ

abbrev pub pos_part : ℤ → ℕ
pos_part (pos n) = n
pos_part (negsuc n) = 0

abbrev pub neg_part : ℤ → ℕ
neg_part (pos n) = 0
neg_part (negsuc n) = suc n

-- a - b, as an integer.
abbrev pub sub_ℕ : ℕ → ℕ → ℤ
sub_ℕ a b = if leb b a then pos (a - b) else negsuc (b - a - 1)

infixl 65 ◌+ℤ◌ ◌-ℤ◌
infix 50 ◌≤ℤ◌
unfoldable pub ◌+ℤ◌ : ℤ → ℤ → ℤ
a +ℤ b = sub_ℕ (pos_part a + pos_part b) (neg_part a + neg_part b)

unfoldable pub ◌-ℤ◌ : ℤ → ℤ → ℤ
a -ℤ b = sub_ℕ (pos_part a + neg_part b) (neg_part a + pos_part b)

abbrev pub ◌≤ℤ◌ : ℤ → ℤ → Type 0
a ≤ℤ b = pos_part a + neg_part b ≤ pos_part b + neg_part a

abbrev pub ltb_ℤ : ℤ → ℤ → Bool
ltb_ℤ a b = ltb (pos_part a + neg_part b) (pos_part b + neg_part a)

abbrev pub leb_ℤ : ℤ → ℤ → Bool
leb_ℤ a b = leb (pos_part a + neg_part b) (pos_part b + neg_part a)

abbrev pub eq_ℤ : ℤ → ℤ → Bool
eq_ℤ a b = pos_part a == pos_part b && neg_part a == neg_part b

abbrev pub two_63 : ℕ
two_63 = 2 ^ 63

abbrev pub two_64 : ℕ
two_64 = 2 ^ 64

-- The value of an `int64` that holds the low 64 bits of an integer.
unfoldable pub wrap_64 : ℤ → ℤ
wrap_64 (pos n) = sub_ℕ ((n + two_63) % two_64) two_63
wrap_64 (negsuc n) = sub_ℕ ((two_63 + two_64 - 1 - n % two_64) % two_64) two_63

-- `int64` addition, subtraction, multiplication.
unfoldable pub add_64 : ℤ → ℤ → ℤ
unfolding wrap_64 ◌+ℤ◌
add_64 a b = wrap_64 (a +ℤ b)

unfoldable pub sub_64 : ℤ → ℤ → ℤ
unfolding wrap_64 ◌-ℤ◌
sub_64 a b = wrap_64 (a -ℤ b)

unfoldable pub mul_64 : ℤ → ℤ → ℤ
unfolding wrap_64
mul_64 a b = wrap_64 (
    sub_ℕ (pos_part a * pos_part b + neg_part a * neg_part b)
      (pos_part a * neg_part b + neg_part a * pos_part b))

-- Go's `/` and `%` truncate towards zero; a zero divisor, which panics, is for the caller to test.
unfoldable pub quot_64 : ℤ → ℤ → ℤ
unfolding wrap_64
quot_64 (pos a) (pos b) = wrap_64 (pos (a / b))
quot_64 (pos a) (negsuc b) = wrap_64 (sub_ℕ 0 (a / suc b))
quot_64 (negsuc a) (pos b) = wrap_64 (sub_ℕ 0 (suc a / b))
quot_64 (negsuc a) (negsuc b) = wrap_64 (pos (suc a / suc b))

unfoldable pub rem_64 : ℤ → ℤ → ℤ
rem_64 (pos a) (pos b) = pos (a % b)
rem_64 (pos a) (negsuc b) = pos (a % suc b)
rem_64 (negsuc a) (pos b) = sub_ℕ 0 (suc a % b)
rem_64 (negsuc a) (negsuc b) = sub_ℕ 0 (suc a % suc b)

-- An integer that an `int64` holds.
abbrev pub IsInt64 : ℤ → Type 0
IsInt64 a = (pos_part a < two_63) × (neg_part a ≤ two_63)

pub wrap_64_exact : (a : ℤ) → IsInt64 a → wrap_64 a ≡ a
unfolding wrap_64
wrap_64_exact (pos n) h = ground arith
wrap_64_exact (negsuc n) h = ground arith

-- Every result is an `int64`.
pub wrap_64-IsInt64 : (a : ℤ) → IsInt64 (wrap_64 a)
unfolding wrap_64
wrap_64-IsInt64 (pos n) = ground arith
wrap_64-IsInt64 (negsuc n) = ground arith

pub eq_ℤ-true : (a b : ℤ) → eq_ℤ a b ≡ true → a ≡ b
eq_ℤ-true (pos a) (pos b) h = ap pos (ground (arith, h))
eq_ℤ-true (pos a) (negsuc b) h = absurd (ground (arith, h))
eq_ℤ-true (negsuc a) (pos b) h = absurd (ground (arith, h))
eq_ℤ-true (negsuc a) (negsuc b) h = ap negsuc (ground (arith, h))

pub eq_ℤ_self : (a : ℤ) → eq_ℤ a a ≡ true
eq_ℤ_self a = ground arith

-- On sums and differences of small non-negative numbers nothing wraps.
pub add_64_pos : (a b : ℕ) → a + b < two_63 → add_64 (pos a) (pos b) ≡ pos (a + b)
unfolding add_64
add_64_pos a b h = ground arith

pub sub_64_pos : (a b : ℕ) → b ≤ a → a < two_63 → sub_64 (pos a) (pos b) ≡ pos (a - b)
unfolding sub_64
sub_64_pos a b h k = ground arith

pub sub_64_neg : (a b : ℕ) → a < b → b < two_63 → sub_64 (pos a) (pos b) ≡ negsuc (b - a - 1)
unfolding sub_64
sub_64_neg a b h k = ground arith

pub mul_64_pos : (a b : ℕ) → a * b < two_63 → mul_64 (pos a) (pos b) ≡ pos (a * b)
unfolding mul_64
mul_64_pos a b h =
    let same : sub_ℕ (a * b + 0 * 0) (a * 0 + 0 * b) ≡ pos (a * b) = ground arith in
    ap wrap_64 same ∙ wrap_64_exact (pos (a * b)) (h, omega arith)

pub ruleset int_laws = (arith, add_64_pos, sub_64_pos, sub_64_neg)

-- The value wraps: the largest `int64` plus one is the smallest.
add_64_wraps : add_64 (pos (2 ^ 63 - 1)) (pos 1) ≡ negsuc (2 ^ 63 - 1)
unfolding add_64
add_64_wraps = refl

sub_64_wraps : sub_64 (negsuc (2 ^ 63 - 1)) (pos 1) ≡ pos (2 ^ 63 - 1)
unfolding sub_64
sub_64_wraps = refl

rem_64_negative : rem_64 (negsuc 98) (pos 10) ≡ negsuc 8
unfolding rem_64
rem_64_negative = refl
