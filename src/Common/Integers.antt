-- ===== src/Common/Integers.antt =====
-- Signed integers over the native numbers, and C's conversion to `int32_t`, which on two's
-- complement keeps the 32 bits.
use Prim.Native.Nat.{ℕ, ◌-◌, ◌^◌, ◌<◌}
use mathlib.Core.Path.{◌≡◌}
use mathlib.Core.Bool.{Bool, true, false}
use native.Mathlib.Omega.{arith}
use taste_samv71_rtems_runti.Common.Tests.{ltb, if◌then◌else◌}
use taste_samv71_rtems_runti.Common.Words.{u32}

pub data ℤ : Type 0 where
  pos : ℕ → ℤ
  negsuc : ℕ → ℤ

-- `-1`
abbrev pub minus_one : ℤ
minus_one = negsuc 0

unfoldable pub to_int32 : ℕ → ℤ
to_int32 n = if ltb (u32 n) (2 ^ 31) then pos (u32 n) else negsuc (2 ^ 32 - 1 - u32 n)

-- `n > -1`
abbrev pub is_natural : ℤ → Bool
is_natural (pos n) = true
is_natural (negsuc n) = false

-- The conversion to `uint32_t`
unfoldable pub to_uint32 : ℤ → ℕ
to_uint32 (pos n) = u32 n
to_uint32 (negsuc n) = 2 ^ 32 - 1 - u32 n

pub to_int32-small : (n : ℕ) → n < 2 ^ 31 → to_int32 n ≡ pos n
unfolding to_int32
to_int32-small n h = ground arith

pub to_uint32-to_int32 : (n : ℕ) → to_uint32 (to_int32 n) ≡ u32 n
unfolding to_int32 to_uint32
to_uint32-to_int32 n = ground arith
