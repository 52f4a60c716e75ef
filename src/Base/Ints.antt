-- ===== src/Base/Ints.antt =====
-- Signed integers over the native numbers, and their conversions to unsigned machine integers.
use sibench.Base.Tests.{ltb}
use Prim.Native.Nat.{ℕ, suc, ◌-◌, ◌%◌, ◌^◌}
use mathlib.Core.Bool.{Bool, true}

-- `negsuc n` is -(n + 1).
pub data ℤ : Type 0 where
  pos : ℕ → ℤ
  negsuc : ℕ → ℤ

-- `uint64(a)` of an int.
unfoldable pub u64_of : ℤ → ℕ
u64_of (pos n) = n % 2 ^ 64
u64_of (negsuc n) = 2 ^ 64 - suc (n % 2 ^ 64)

-- `uint16(a)` of an int.
unfoldable pub u16_of : ℤ → ℕ
u16_of (pos n) = n % 2 ^ 16
u16_of (negsuc n) = 2 ^ 16 - suc (n % 2 ^ 16)

-- `a < 0 || a > bound`
unfoldable pub out_of_range : ℕ → ℤ → Bool
out_of_range bound (pos n) = ltb bound n
out_of_range bound (negsuc n) = true
