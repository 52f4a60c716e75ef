-- ===== src/Ranges.antt =====
-- Ranges of objects that follow one another, as the manager gives them to the servers and a foreman
-- to its workers.
use sibench.Base.{
  ℕ, ◌*◌, ◌/◌, ◌+◌, ◌<◌, ◌≤◌, ◌≡◌, refl, arith, ◌⊎◌, if◌then◌else◌, ltb, leb, ◌&&◌, List, [], ◌∷◌,
}

-- `first` is in the range of an `A`, and `last` behind it.
module _ {ℓ} {A : Type ℓ} (first last : A → ℕ) where
  -- The ranges follow one another from `a` to `b`.
  abbrev pub Chained : ℕ → List A → ℕ → Type 0
  Chained a [] b = a ≡ b
  Chained a (w ∷ ws) b = (first w ≡ a) × (a ≤ last w) × Chained (last w) ws b

  -- How many have the object `x` in their range.
  abbrev pub owners : ℕ → List A → ℕ
  owners x [] = 0
  owners x (w ∷ ws) =
      let rest = owners x ws in if leb (first w) x && ltb x (last w) then rest + 1 else rest

  Chained-le : (a b : ℕ) (ws : List A) → Chained a ws b → a ≤ b
  Chained-le a b [] c = omega arith
  Chained-le a b (w ∷ ws) (s, l, c) = omega (arith, Chained-le (last w) b ws c)

  owners_outside : (x a b : ℕ) (ws : List A) → Chained a ws b → (x < a) ⊎ (b ≤ x) → owners x ws ≡ 0
  owners_outside x a b [] c h = refl
  owners_outside x a b (w ∷ ws) (s, l, c) h =
      ground (arith, Chained-le (last w) b ws c, owners_outside x (last w) b ws c)

  owners_inside : (x a b : ℕ) (ws : List A) → Chained a ws b → a ≤ x → x < b → owners x ws ≡ 1
  owners_inside x a b [] c h k = absurd (omega arith)
  owners_inside x a b (w ∷ ws) (s, l, c) h k = ground (
    arith,
    Chained-le (last w) b ws c,
    owners_outside x (last w) b ws c,
    owners_inside x (last w) b ws c,
  )

  -- An object between the two ends has one owner, and any other object none.
  pub owners_lem :
      (x a b : ℕ) (ws : List A)
      → Chained a ws b
      → owners x ws ≡ (if leb a x && ltb x b then 1 else 0)
  owners_lem x a b ws chain =
      ground (arith, owners_inside x a b ws chain, owners_outside x a b ws chain)

pub share_le : (b n : ℕ) → n * (b / n) ≤ b
share_le b n = grind arith
