-- ===== src/Common/Int.antt =====
-- Signed machine integers. An `int32` or `int64` is the integer that it stands for; arithmetic on
-- `int64` wraps in two's complement, as Go defines it.
use Prim.Native.Nat.{ℕ, suc, ◌+◌, ◌-◌, ◌*◌, ◌%◌, ◌≤◌, ◌<◌}
use mathlib.Core.Path.{◌≡◌}
use mathlib.Core.Bool.{Bool}
use native.Mathlib.Omega.{arith}
use event_driven_order_fulfi.Common.Tests.{ltb, leb, if◌then◌else◌}

-- `negsuc n` is -(n + 1).
pub data ℤ : Type 0 where
  pos : ℕ → ℤ
  negsuc : ℕ → ℤ

abbrev pub pos_part : ℤ → ℕ
pos_part (pos n) = n
pos_part (negsuc n) = 0

abbrev pub neg_part : ℤ → ℕ
neg_part (pos n) = 0
neg_part (negsuc n) = suc n

-- a - b, as an integer.
abbrev pub sub_ℕ : ℕ → ℕ → ℤ
sub_ℕ a b = if leb b a then pos (a - b) else negsuc (b - a - 1)

abbrev pub ltb_ℤ : ℤ → ℤ → Bool
ltb_ℤ a b = ltb (pos_part a + neg_part b) (pos_part b + neg_part a)

abbrev pub leb_ℤ : ℤ → ℤ → Bool
leb_ℤ a b = leb (pos_part a + neg_part b) (pos_part b + neg_part a)

-- 2 ^ 63, one more than the largest `int64`.
abbrev pub int64_bound : ℕ
int64_bound = 9223372036854775808

-- The bit pattern below 2 ^ 64, read as a signed number.
abbrev pub signed64 : ℕ → ℤ
signed64 r = if ltb r int64_bound then pos r else negsuc (18446744073709551615 - r)

-- Reduction of any integer to the `int64` with the same low 64 bits.
unfoldable pub wrap64 : ℤ → ℤ
wrap64 (pos n) = signed64 (n % 18446744073709551616)
wrap64 (negsuc n) = signed64 (18446744073709551615 - n % 18446744073709551616)

-- Go's `+`, `-` and `*` on `int64`.
unfoldable pub add64 : ℤ → ℤ → ℤ
add64 a b = wrap64 (sub_ℕ (pos_part a + pos_part b) (neg_part a + neg_part b))

unfoldable pub sub64 : ℤ → ℤ → ℤ
sub64 a b = wrap64 (sub_ℕ (pos_part a + neg_part b) (neg_part a + pos_part b))

unfoldable pub mul64 : ℤ → ℤ → ℤ
mul64 a b = wrap64 (
    sub_ℕ (pos_part a * pos_part b + neg_part a * neg_part b)
      (pos_part a * neg_part b + neg_part a * pos_part b))

-- A result in range is the exact one.
pub wrap64_small : (n : ℕ) → n < int64_bound → wrap64 (pos n) ≡ pos n
unfolding wrap64
wrap64_small n h = ground arith

pub add64_small : (a b : ℕ) → a + b < int64_bound → add64 (pos a) (pos b) ≡ pos (a + b)
unfolding add64
add64_small a b h = ground (arith, wrap64_small (a + b))

pub sub64_small : (a b : ℕ) → b ≤ a → a < int64_bound → sub64 (pos a) (pos b) ≡ pos (a - b)
unfolding sub64
sub64_small a b h k = ground (arith, wrap64_small (a - b))

pub mul64_small : (a b : ℕ) → a * b < int64_bound → mul64 (pos a) (pos b) ≡ pos (a * b)
unfolding mul64
mul64_small a b h = ground (arith, wrap64_small (a * b))

-- Between 2 ^ 63 and 2 ^ 64 a result comes out negative.
pub wrap64_overflow :
    (n : ℕ)
    → int64_bound ≤ n
    → n < 18446744073709551616
    → wrap64 (pos n) ≡ negsuc (18446744073709551615 - n)
unfolding wrap64
wrap64_overflow n h k = ground arith

pub mul64_overflow :
    (a b : ℕ)
    → int64_bound ≤ a * b
    → a * b < 18446744073709551616
    → mul64 (pos a) (pos b) ≡ negsuc (18446744073709551615 - a * b)
unfolding mul64
mul64_overflow a b h k = ground (arith, wrap64_overflow (a * b))

pub add64_zero_neg : (n : ℕ) → n < int64_bound → add64 (pos 0) (negsuc n) ≡ negsuc n
unfolding add64 wrap64
add64_zero_neg n h = ground arith
