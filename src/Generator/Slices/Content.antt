-- ===== src/Generator/Slices/Content.antt =====
-- What the slice generator writes into a buffer, and what it accepts.
use sibench.Base.{
  ℕ, zero, suc, ◌+◌, ◌-◌, ◌==◌, ◌<◌, ◌≤◌, ltb, leb, le→leb, if◌then◌else◌, true, false, some, List,
  [], ◌∷◌, ◌++◌, length, take, drop, get_or, All, ◌≡◌, arith, inl, inr, Bool-cases, append_assoc,
  append-nil, length-append, length-drop, take_all, take-append_ge, get_elem?-get_or, take-append,
  take-append_le, drop_all, All-get_elem?,
}
use sibench.Base.Bits.{u64, u64_mod}
use sibench.Generator.Bytes.{le_bytes, length-le_bytes, write_at, write_at-append, drop_past}
use sibench.Generator.Slices.{
  SliceGenerator, filled, copy_at, picked, copy_slices, generate_from_seed,
}

-- A generator as `CreateSliceGenerator` makes it, with slices that are not empty.
pub record IsSliced (sg : SliceGenerator) : Type 0 where
  pub size : 0 < sg.slice_size
  pub count : 0 < sg.slice_count
  pub full : length sg.slices ≡ sg.slice_count
  pub equal : All (λ s. length s ≡ sg.slice_size) sg.slices

copy_at-append :
    (done rest src : List ℕ)
    → copy_at (length done) src (done ++ rest)
      ≡ some (done ++ (take (length rest) src ++ drop (length src) rest))
unfolding copy_at
copy_at-append done rest src =
    rw (le→leb (length done) (length (done ++ rest)) (omega (arith, length-append done rest)))
      (rw (take-append done rest, drop_past done rest src, left))
  where
    left : length (done ++ rest) - length done ≡ length rest
    left = omega (arith, length-append done rest)

module _ (sg : SliceGenerator) (pick : ℕ → ℕ → ℕ → ℕ) where
  -- The slices that the draws for a seed name, from the draw `k` on.
  abbrev pub stream : ℕ → ℕ → ℕ → List ℕ
  stream seed k zero = []
  stream seed k (suc n) = get_or sg.slices (pick seed k sg.slice_count) [] ++ stream seed (k + 1) n

  -- An object: its seed, and as much of the slices as there is room for.
  abbrev pub content : ℕ → ℕ → List ℕ
  content size seed = le_bytes 4 seed ++ take (size - 4) (stream seed 0 size)

  module _ (well : IsSliced sg) (in_range : (seed k m : ℕ) → 0 < m → pick seed k m < m) where
    pub picked_lem :
        (seed k : ℕ)
        → let s = get_or sg.slices (pick seed k sg.slice_count) [] in
          (picked sg pick seed k ≡ some s) × (length s ≡ sg.slice_size)
    unfolding picked
    picked_lem seed k =
        let i = pick seed k sg.slice_count in
        let some_slices : (sg.slice_count == 0) ≡ false = ground (arith, well.count) in
        let inside : i < length sg.slices =
          omega (arith, in_range seed k sg.slice_count well.count, well.full) in
        let found = get_elem?-get_or sg.slices i [] inside in
        (
          rw (some_slices, if◌then◌else◌) found,
          All-get_elem? (λ s. length s ≡ sg.slice_size) sg.slices i _ well.equal found,
        )

    copy_slices_end :
        (n size seed k start : ℕ) (buf : List ℕ)
        → size ≤ start
        → copy_slices sg pick n size seed k start buf ≡ filled buf
    unfolding copy_slices
    copy_slices_end zero size seed k start buf h = ground arith
    copy_slices_end (suc n) size seed k start buf h =
        let over : ltb start size ≡ false = ground arith in rw (over, if◌then◌else◌)

    -- What follows the copy of one slice `s`, from what the next rounds make.
    next_round :
        (n size seed k : ℕ) (done rest s : List ℕ)
        → ((done' rest' : List ℕ)
            → length done' + length rest' ≡ size
            → length rest' ≤ n
            → copy_slices sg pick n size seed k (length done') (done' ++ rest')
              ≡ filled (done' ++ take (length rest') (stream seed k n)))
        → length s ≡ sg.slice_size
        → length done + length rest ≡ size
        → length rest ≤ suc n
        → size + sg.slice_size < u64_mod
        → copy_slices sg pick n size seed k
            (u64 (length done + sg.slice_size))
            (done ++ (take (length rest) s ++ drop (length s) rest))
          ≡ filled (done ++ take (length rest) (s ++ stream seed k n))
    next_round n size seed k done rest s next l e h b =
        let start : u64 (length done + sg.slice_size) ≡ length done + length s = omega (arith, l) in
        elim (Bool-cases (leb (length s) (length rest))) [
          | inl fits ↦
              (let le : length s ≤ length rest = ground (arith, fits) in
                let joined : length (done ++ s) ≡ length done + length s = length-append done s in
                let left : length (drop (length s) rest) ≡ length rest - length s =
                  length-drop (length s) rest in
                let positive = well.size in
                let go =
                  next (done ++ s) (drop (length s) rest) (omega (arith, joined, left, le))
                    (omega (arith, left, le, l, positive)) in
                rw
                  (
                    start,
                    take_all (length rest) s le,
                    take-append_ge (length rest) s (stream seed k n) le,
                  )
                  (rw
                    (
                      joined,
                      left,
                      append_assoc done s (drop (length s) rest),
                      append_assoc done s (take (length rest - length s) (stream seed k n)),
                    )
                    at go))
          | inr past ↦
              (let short : length rest ≤ length s = ground (arith, past) in
                let over : size ≤ length done + length s = omega (arith, short, e) in
                let none_left = drop_all (length s) rest short in
                rw
                  (
                    start,
                    none_left,
                    append-nil (take (length rest) s),
                    take-append_le (length rest) s (stream seed k n) short,
                  )
                  (copy_slices_end n size seed k (length done + length s) _ over))
        ]

    copy_slices_lem :
        (n size seed k : ℕ) (done rest : List ℕ)
        → length done + length rest ≡ size
        → length rest ≤ n
        → size + sg.slice_size < u64_mod
        → copy_slices sg pick n size seed k (length done) (done ++ rest)
          ≡ filled (done ++ take (length rest) (stream seed k n))
    unfolding copy_slices
    copy_slices_lem n size seed k done [] e h b =
        copy_slices_end n size seed k (length done) (done ++ []) (omega arith)
    copy_slices_lem zero size seed k done (x ∷ rest) e h b = absurd (omega arith)
    copy_slices_lem (suc n) size seed k done (x ∷ rest) e h b =
        let slice = picked_lem seed k in
        let on : ltb (length done) size ≡ true = ground arith in
        let s = get_or sg.slices (pick seed k sg.slice_count) [] in
        rw (on, if◌then◌else◌)
          (rw slice.0 (
            rw (copy_at-append done (x ∷ rest) s) (
              next_round n size seed (k + 1) done (x ∷ rest) s
                (λ done' rest' e' h'. copy_slices_lem n size seed (k + 1) done' rest' e' h' b)
                slice.1 e h b)))

    -- With slices that are not empty, and a size that with one slice more is below 2^64, any buffer
    -- of that size with room for the seed is filled with the object of the seed.
    pub generate_from_seed_lem :
        (size seed : ℕ) (buf : List ℕ)
        → 4 ≤ size
        → length buf ≡ size
        → size + sg.slice_size < u64_mod
        → generate_from_seed sg pick size seed buf ≡ filled (content size seed)
    unfolding generate_from_seed
    generate_from_seed_lem size seed buf h e b =
        let seed_bytes = le_bytes 4 seed in
        let four : length seed_bytes ≡ 4 = length-le_bytes 4 seed in
        let put = write_at-append [] seed_bytes buf (omega (arith, four, e, h)) in
        let left : length (drop 4 buf) ≡ size - 4 = omega (arith, length-drop 4 buf, e) in
        let go =
          copy_slices_lem size size seed 0 seed_bytes (drop 4 buf) (omega (arith, four, left, h))
            (omega (arith, left)) b in
        let put' : write_at 0 seed_bytes buf ≡ some (seed_bytes ++ drop 4 buf) = rw four at put in
        rw (put', generate_from_seed) (rw (four, left) at go)
