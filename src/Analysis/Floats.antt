-- ===== src/Analysis/Floats.antt =====
-- `int(float64(n) * 0.95)` of src/sibench/stats.go, in the double precision of IEEE 754.
use sibench.Base.{
  ℕ, zero, suc, ◌+◌, ◌*◌, ◌/◌, ◌%◌, ◌^◌, ◌==◌, ltb, if◌then◌else◌, ◌≡◌, refl, sym, ◌<◌, ◌≤◌, arith,
  ◌⊎◌, inl, inr, Bool-cases,
}
use native.Mathlib.Nat.{pow-suc, div-add-mod', add-mul}

-- How many of its bits a number has beyond 53, found on fuel, one halving a time.
unfoldable pub excess : ℕ → ℕ → ℕ
excess zero p = 0
excess (suc fuel) p = let rest = excess fuel (p / 2) in if ltb p (2 ^ 53) then 0 else suc rest

-- The multiple of `d` that is nearest to `p`, the even one of two.
unfoldable pub nearest : ℕ → ℕ → ℕ
nearest p d =
    let q = p / d in
    let r = p % d in
    if ltb (2 * r) d
    then q * d
    else if 2 * r == d
    then (if q % 2 == 0 then q * d else (q + 1) * d)
    else (q + 1) * d

-- Rounding to 53 significant bits. A number below 2 ^ 128 has at most 75 bits more.
unfoldable pub round_53 : ℕ → ℕ
round_53 p = nearest p (2 ^ excess 75 p)

-- The double that the source's 0.95 stands for is 0.95 * 2 ^ 53, rounded, over 2 ^ 53.
abbrev pub mantissa_95 : ℕ
mantissa_95 = 8556839292003942

unfoldable pub index_95 : ℕ → ℕ
index_95 n = round_53 (round_53 n * mantissa_95) / 2 ^ 53

excess_cases : (fuel p : ℕ) → (excess fuel p ≡ 0) ⊎ (2 ^ 52 * 2 ^ excess fuel p ≤ p)
unfolding excess
excess_cases zero p = inl refl
excess_cases (suc fuel) p = elim (Bool-cases (ltb p (2 ^ 53))) [
  | inl small ↦ inl (rw (small, if◌then◌else◌))
  | inr large ↦ inr (
      rw (large, if◌then◌else◌)
        (elim (excess_cases fuel (p / 2)) [
          | inl e ↦ rw e (ground arith)
          | inr h ↦ ground (arith, pow-suc 2 (excess fuel (p / 2)))
        ]))
]

nearest-le : (p d : ℕ) → 0 < d → 2 * nearest p d ≤ 2 * p + d
unfolding nearest
nearest-le p d h =
    let whole : p ≡ p / d * d + p % d = sym (div-add-mod' p d) in
    let next : (p / d + 1) * d ≡ p / d * d + d = omega (arith, add-mul (p / d) 1 d) in
    ground (arith, whole, next)

nearest_one : (p : ℕ) → nearest p 1 ≡ p
unfolding nearest
nearest_one p = ground arith

pow_two-pos : (k : ℕ) → 0 < 2 ^ k
pow_two-pos zero = omega arith
pow_two-pos (suc k) = omega (arith, pow-suc 2 k, pow_two-pos k)

-- Rounding adds at most one part in 2 ^ 53.
round_53-le : (p : ℕ) → 2 ^ 53 * round_53 p ≤ (2 ^ 53 + 1) * p
unfolding round_53
round_53-le p =
    let e = excess 75 p in
    let near = nearest-le p (2 ^ e) (pow_two-pos e) in
    elim (excess_cases 75 p) [
      | inl exact ↦ rw exact (rw (nearest_one p) (omega arith))
      | inr large ↦ omega (arith, near, large)
    ]

-- The index is in the range of a list that is not empty.
pub index_95-lt : (n : ℕ) → 0 < n → index_95 n < n
unfolding index_95
index_95-lt n h = omega (arith, round_53-le n, round_53-le (round_53 n * mantissa_95))
