-- ===== src/Misc/PowerOfTwo.antt =====
-- `previousPowerOfTwo` (src/sibench/misc.go): the branchless rounding down to a power of two.
use sibench.Base.{ℕ, ◌-◌}
use sibench.Base.Bits.{shr}
use Prim.Native.Nat.{bit_or}

-- `x = x | (x >> k)`
unfoldable pub smear : ℕ → ℕ → ℕ
smear k x = bit_or x (shr x k)

-- The last `x - (x >> 1)` does not underflow, so the truncated `-` is exact.
unfoldable pub previous_power_of_two : ℕ → ℕ
unfolding smear
previous_power_of_two x =
    let y = smear 32 (smear 16 (smear 8 (smear 4 (smear 2 (smear 1 x))))) in y - shr y 1
