-- ===== src/Common/Int.antt =====
-- Go's signed integers. A value is a mathematical integer; each operation of the source that can
-- leave the range of its type writes its wrap-around out.
use Prim.Native.Nat.{ℕ, zero, suc, ◌+◌, ◌-◌, ◌*◌, ◌%◌, ◌^◌, ◌≤◌, ◌<◌}
use mathlib.Core.Path.{◌≡◌}
use mathlib.Core.Bool.{Bool}
use native.Mathlib.Omega.{arith}
use swosh.Common.Tests.{ltb, if◌then◌else◌}

-- `negsuc n` is -(n + 1).
pub data ℤ : Type 0 where
  pos : ℕ → ℤ
  negsuc : ℕ → ℤ

abbrev pub pos_part : ℤ → ℕ
pos_part (pos n) = n
pos_part (negsuc n) = 0

abbrev pub neg_part : ℤ → ℕ
neg_part (pos n) = 0
neg_part (negsuc n) = suc n

infix 50 ◌≤ℤ◌ ◌<ℤ◌
abbrev pub ◌≤ℤ◌ : ℤ → ℤ → Type 0
a ≤ℤ b = pos_part a + neg_part b ≤ pos_part b + neg_part a

abbrev pub ◌<ℤ◌ : ℤ → ℤ → Type 0
a <ℤ b = pos_part a + neg_part b < pos_part b + neg_part a

abbrev pub ltb_ℤ : ℤ → ℤ → Bool
ltb_ℤ a b = ltb (pos_part a + neg_part b) (pos_part b + neg_part a)

-- The integer that a two's complement word of 32 bits stands for.
abbrev pub of_word32 : ℕ → ℤ
of_word32 n = if ltb n (2 ^ 31) then pos n else negsuc (2 ^ 32 - n - 1)

-- `int32(x)`: the low 32 bits.
unfoldable pub to_int32 : ℤ → ℤ
to_int32 (pos n) = of_word32 (n % 2 ^ 32)
to_int32 (negsuc n) = of_word32 (2 ^ 32 - 1 - n % 2 ^ 32)

-- An integer of the type's range is kept.
pub to_int32-pos : (n : ℕ) → n < 2 ^ 31 → to_int32 (pos n) ≡ pos n
unfolding to_int32
to_int32-pos n h = ground arith

pub to_int32-negsuc : (n : ℕ) → n < 2 ^ 31 → to_int32 (negsuc n) ≡ negsuc n
unfolding to_int32
to_int32-negsuc n h = ground arith

-- The integer that a two's complement word of 64 bits stands for, and the low 64 bits of one.
abbrev pub of_word64 : ℕ → ℤ
of_word64 n = if ltb n (2 ^ 63) then pos n else negsuc (2 ^ 64 - n - 1)

unfoldable pub to_int64 : ℤ → ℤ
to_int64 (pos n) = of_word64 (n % 2 ^ 64)
to_int64 (negsuc n) = of_word64 (2 ^ 64 - 1 - n % 2 ^ 64)

pub to_int64-pos : (n : ℕ) → n < 2 ^ 63 → to_int64 (pos n) ≡ pos n
unfolding to_int64
to_int64-pos n h = ground arith

abbrev pub neg : ℕ → ℤ
neg zero = pos 0
neg (suc n) = negsuc n

-- A product with a number that is not negative.
abbrev pub scale : ℤ → ℕ → ℤ
scale (pos n) k = pos (n * k)
scale (negsuc n) k = neg (suc n * k)
