-- ===== src/Base/Floats.antt =====
-- The float32 operations of the Go language, as an interface: the language has no floats here.
use Prim.Native.Nat.{ℕ}

-- `of_u64` and `to_u64` are the conversions `float32(n)` and `uint64(x)`.
pub record Float32 : Type 1 where
  pub Carrier : Type 0
  pub of_u64 : ℕ → Carrier
  pub to_u64 : Carrier → ℕ
  pub add : Carrier → Carrier → Carrier
  pub mul : Carrier → Carrier → Carrier
  pub div : Carrier → Carrier → Carrier
