-- ===== src/Connections/Block/Parts.antt =====
-- Parts of a device, and overwriting one.
use sibench.Base.{
  ℕ, zero, suc, ◌+◌, ◌-◌, ◌*◌, ◌==◌, ◌<◌, ◌≤◌, ltb, if◌then◌else◌, Bool-cases, inl, inr, List, [],
  ◌∷◌, ◌++◌, length, take, drop, ◌≡◌, refl, sym, ap, ◌∙◌, arith, length-append, length-take,
  length-drop, take-append-drop, take-append_le, drop-append_le, drop-append_ge, drop-drop,
  drop-append, take-append,
}
use native.Mathlib.Nat.{mul-le-mul_right, add-mul}
use mathlib.Core.Path.{subst}

-- The bytes of a device from `p` on, as many as `n`.
abbrev pub part : ℕ → ℕ → List ℕ → List ℕ
part p n dev = take n (drop p dev)

-- The device with the bytes at `p` overwritten.
abbrev pub overwrite : ℕ → List ℕ → List ℕ → List ℕ
overwrite p bytes dev = take p dev ++ (bytes ++ drop (p + length bytes) dev)

take_split : (n m : ℕ) (xs : List ℕ) → n ≤ m → take n xs ++ take (m - n) (drop n xs) ≡ take m xs
take_split zero m xs h = ap (λ k. take k xs) (omega arith)
take_split (suc n) zero xs h = absurd (omega arith)
take_split (suc n) (suc m) [] h = none_left (suc m - suc n)
  where
    none_left : (k : ℕ) → take {A = ℕ} k [] ≡ []
    none_left zero = refl
    none_left (suc k) = refl
take_split (suc n) (suc m) (x ∷ xs) h =
    let less : suc m - suc n ≡ m - n = omega arith in
    rw less (ap (λ ys. x ∷ ys) (take_split n m xs (omega arith)))

pub part_split :
    (p n m : ℕ) (dev : List ℕ) → n ≤ m → part p n dev ++ part (p + n) (m - n) dev ≡ part p m dev
part_split p n m dev h = rw (sym (drop-drop n p dev)) (take_split n m (drop p dev) h)

-- An overwrite keeps the length, is read back, and leaves what is before and behind it.
module _ (p : ℕ) (bytes dev : List ℕ) (inside : p + length bytes ≤ length dev) where
  length-before : length (take p dev) ≡ p
  length-before = omega (arith, length-take p dev)

  pub length-overwrite : length (overwrite p bytes dev) ≡ length dev
  length-overwrite = omega (
    arith,
    length-append (take p dev) (bytes ++ drop (p + length bytes) dev),
    length-append bytes (drop (p + length bytes) dev),
    length-drop (p + length bytes) dev,
    length-before,
  )

  drop-before : (r : List ℕ) → drop p (take p dev ++ r) ≡ r
  drop-before r =
      subst (λ k. drop k (take p dev ++ r) ≡ r) length-before (drop-append (take p dev) r)

  part-before :
      (q n : ℕ) (r : List ℕ) → q + n ≤ p → part q n (take p dev ++ r) ≡ part q n (take p dev)
  part-before q n r h = rw (drop-append_le q (take p dev) r (omega (arith, length-before))) (
      take-append_le n (drop q (take p dev)) r
        (omega (arith, length-drop q (take p dev), length-before)))

  pub part-overwrite_same : part p (length bytes) (overwrite p bytes dev) ≡ bytes
  part-overwrite_same =
      rw (drop-before (bytes ++ drop (p + length bytes) dev))
        (take-append bytes (drop (p + length bytes) dev))

  pub part-overwrite_before :
      (q n : ℕ) → q + n ≤ p → part q n (overwrite p bytes dev) ≡ part q n dev
  part-overwrite_before q n h =
      part-before q n (bytes ++ drop (p + length bytes) dev) h
      ∙ sym (part-before q n (drop p dev) h)
      ∙ ap (part q n) (take-append-drop p dev)

  pub part-overwrite_behind :
      (q n : ℕ) → p + length bytes ≤ q → part q n (overwrite p bytes dev) ≡ part q n dev
  part-overwrite_behind q n h =
      let behind = drop (p + length bytes) dev in
      let reach : (p + length bytes) + (q - length (take p dev) - length bytes) ≡ q =
        omega (arith, length-before, h) in
      ap (take n) (
        drop-append_ge q (take p dev) (bytes ++ behind) (omega (arith, length-before, h))
        ∙ drop-append_ge (q - length (take p dev)) bytes behind (omega (arith, length-before, h))
        ∙ drop-drop (q - length (take p dev) - length bytes) (p + length bytes) dev
        ∙ ap (λ k. drop k dev) reach)

pub slot_le : (i j s : ℕ) → i < j → i * s + s ≤ j * s
slot_le i j s h =
    omega (arith, mul-le-mul_right {m = i + 1} {n = j} s (omega (arith, h)), add-mul i 1 s)

-- Of the slots of the same size that follow one another, an overwrite of one changes no other.
pub part-overwrite_slot :
    (i j size : ℕ) (bytes dev : List ℕ)
    → length bytes ≡ size
    → i * size + size ≤ length dev
    → part (j * size) size (overwrite (i * size) bytes dev)
      ≡ (if i == j then bytes else part (j * size) size dev)
part-overwrite_slot i j size bytes dev l room =
    let inside : i * size + length bytes ≤ length dev = omega (arith, l, room) in
    elim (Bool-cases (i == j)) [
      | inl same ↦
          (let e : i ≡ j = ground (arith, same) in
            let own =
              subst (λ n. part (i * size) n (overwrite (i * size) bytes dev) ≡ bytes) l
                (part-overwrite_same (i * size) bytes dev inside) in
            rw (same, if◌then◌else◌)
              (subst (λ k. part (k * size) size (overwrite (i * size) bytes dev) ≡ bytes) e own))
      | inr other ↦
          rw (other, if◌then◌else◌)
            (elim (Bool-cases (ltb i j)) [
              | inl less ↦
                  part-overwrite_behind (i * size) bytes dev inside (j * size) size
                    (omega (arith, l, slot_le i j size (ground (arith, less))))
              | inr more ↦
                  part-overwrite_before (i * size) bytes dev inside (j * size) size
                    (slot_le j i size (ground (arith, more, other)))
            ])
    ]
