-- ===== src/Base/Machine.antt =====
-- Machine integers: `unsigned` wraps at 2 ^ 32, and an int made from one keeps its bit pattern.
use Prim.Native.Nat.{ℕ, ◌-◌, ◌%◌, ◌^◌, ◌<◌}
use mathlib.Core.Bool.{Bool, true, false}
use native.Mathlib.Omega.{arith}
use qpidrecovery.Base.Tests.{ltb, if◌then◌else◌}

abbrev pub u32_mod : ℕ
u32_mod = 2 ^ 32

abbrev pub u32 : ℕ → ℕ
u32 n = n % u32_mod

-- `negsuc n` is -(n + 1).
pub data ℤ : Type 0 where
  pos : ℕ → ℤ
  negsuc : ℕ → ℤ

-- The conversion of an `unsigned` to an `int`.
abbrev pub int_of_unsigned : ℕ → ℤ
int_of_unsigned n = if ltb n (2 ^ 31) then pos n else negsuc (u32_mod - n - 1)

-- `a > b` on ints.
abbrev pub gt_int : ℤ → ℤ → Bool
gt_int (pos a) (pos b) = ltb b a
gt_int (pos a) (negsuc b) = true
gt_int (negsuc a) (pos b) = false
gt_int (negsuc a) (negsuc b) = ltb a b

pub u32-lt : (n : ℕ) → u32 n < u32_mod
u32-lt n = omega arith
