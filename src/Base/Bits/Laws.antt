-- ===== src/Base/Bits/Laws.antt =====
-- Laws of the bit operations: one binary digit at a time, then a low mask and disjoint fields.
use Prim.Native.Nat.{ℕ, zero, suc, ◌+◌, ◌*◌, ◌/◌, ◌%◌, ◌^◌, ◌≤◌, ◌<◌, min, max}
use Prim.Native.Nat.{bit_and, bit_or, digits, bitwise, bit_and-bitwise, bit_or-bitwise}
use mathlib.Core.Path.{◌≡◌, refl, sym, ◌∙◌, ap}
use native.Mathlib.Omega.{arith}
use native.Mathlib.Nat.{pow-suc, le_refl}

module _ (z : ℕ → ℕ) (f : ℕ → ℕ → ℕ) where
  digits-zero : (n b : ℕ) → digits z f n zero b ≡ z b
  digits-zero zero b = refl
  digits-zero (suc n) b = refl

  -- Fuel beyond the number itself changes nothing.
  enough : (n m a b : ℕ) → a ≤ n → a ≤ m → digits z f n a b ≡ digits z f m a b
  enough n m zero b p q = digits-zero n b ∙ sym (digits-zero m b)
  enough zero m (suc a) b p q = absurd (omega arith)
  enough (suc n) zero (suc a) b p q = absurd (omega arith)
  enough (suc n) (suc m) (suc a) b p q =
      let half = enough n m (suc a / 2) (b / 2) (omega arith) (omega arith) in
      ap (λ (k : ℕ). k * 2 + f (suc a % 2) (b % 2)) half

  halve :
      (a b : ℕ)
      → bitwise z f (suc a) b ≡ bitwise z f (suc a / 2) (b / 2) * 2 + f (suc a % 2) (b % 2)
  halve a b =
      let half = enough a (suc a / 2) (suc a / 2) (b / 2) (omega arith) (le_refl _) in
      ap (λ (k : ℕ). k * 2 + f (suc a % 2) (b % 2)) half

pub bit_or-halves : (a b : ℕ) → bit_or a b ≡ bit_or (a / 2) (b / 2) * 2 + max (a % 2) (b % 2)
bit_or-halves zero b = simp bit_or-bitwise (omega arith)
bit_or-halves (suc a) b = simp bit_or-bitwise (halve (λ y. y) max a b)

pub bit_and-halves : (a b : ℕ) → bit_and a b ≡ bit_and (a / 2) (b / 2) * 2 + min (a % 2) (b % 2)
bit_and-halves zero b = simp bit_and-bitwise (omega arith)
bit_and-halves (suc a) b = simp bit_and-bitwise (halve (λ y. 0) min a b)

zero-bit_or : (b : ℕ) → bit_or 0 b ≡ b
zero-bit_or b = simp bit_or-bitwise refl

-- A number below 2 ^ k and a multiple of 2 ^ k.
pub bit_or_disjoint : (k r q : ℕ) → r < 2 ^ k → bit_or r (q * 2 ^ k) ≡ r + q * 2 ^ k
bit_or_disjoint zero r q h =
    let e : r ≡ 0 = omega arith in rw e (ground (arith, zero-bit_or (q * 1)))
bit_or_disjoint (suc k) r q h =
    let twice : q * 2 ^ suc k ≡ 2 * (q * 2 ^ k) =
      omega (arith, ap (λ (t : ℕ). q * t) (pow-suc 2 k)) in
    ground (
      arith,
      bit_or-halves r (q * 2 ^ suc k),
      twice,
      pow-suc 2 k,
      bit_or_disjoint k (r / 2) q (omega (arith, pow-suc 2 k)),
    )

and_zero_below : (n a : ℕ) → a ≤ n → bit_and a 0 ≡ 0
and_zero_below n zero h = refl
and_zero_below zero (suc a) h = absurd (omega arith)
and_zero_below (suc n) (suc a) h =
    omega (arith, bit_and-halves (suc a) 0, and_zero_below n (suc a / 2) (omega arith))

-- One more digit of a low mask.
and_wider : (m a r : ℕ) → bit_and (a / 2) m ≡ r → bit_and a (m * 2 + 1) ≡ r * 2 + a % 2
and_wider m a r h =
    let e : (m * 2 + 1) / 2 ≡ m = omega arith in
    let l = bit_and-halves a (m * 2 + 1) in
    let l' = ap (λ (k : ℕ). bit_and (a / 2) k) e in omega (arith, l, l', h)

and_nibble_step : (a m : ℕ) → bit_and a (m * 4 + 3) ≡ bit_and (a / 4) m * 4 + a % 4
and_nibble_step a m =
    let e : a / 2 / 2 ≡ a / 4 = omega arith in
    let l = and_wider m (a / 2) (bit_and (a / 4) m) (ap (λ (k : ℕ). bit_and k m) e) in
    let l' = and_wider (m * 2 + 1) a _ l in
    let e' : (m * 2 + 1) * 2 + 1 ≡ m * 4 + 3 = omega arith in
    let l'' = ap (λ (k : ℕ). bit_and a k) e' in omega (arith, l', l'')

-- `uint8(n & 0xFF)`
pub bit_and_byte : (a : ℕ) → bit_and a 0xff ≡ a % 256
bit_and_byte a = omega (
  arith,
  and_nibble_step a 63,
  and_nibble_step (a / 4) 15,
  and_nibble_step (a / 4 / 4) 3,
  and_nibble_step (a / 4 / 4 / 4) 0,
  and_zero_below (a / 4 / 4 / 4 / 4) (a / 4 / 4 / 4 / 4) (le_refl _),
)
