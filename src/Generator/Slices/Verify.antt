-- ===== src/Generator/Slices/Verify.antt =====
-- What the slice generator's `Verify` accepts.
use sibench.Base.{
  ℕ, zero, suc, ◌+◌, ◌-◌, ◌%◌, ◌^◌, ◌==◌, ◌<◌, ◌≤◌, if◌then◌else◌, true, some, List, [], ◌∷◌,
  length, take, get_or, All, ◌≡◌, refl, sym, ap, ◌∙◌, arith, inl, inr, ◌↔◌, Bool-cases, ==_self,
  length-append, length-take,
}
use sibench.Base.Bits.{u64_mod, IsByte}
use mathlib.Core.Path.{subst}
use sibench.Generator.Bytes.{
  le_bytes, from_le, length-le_bytes, from_le-le_bytes, read_at, read_at-append, read_at-some,
}
use sibench.Generator.Slices.{
  SliceGenerator, Filling, filled, generate_from_seed, generate_object, verify_object, passed,
  mismatched, same_bytes,
}
use sibench.Generator.Slices.Content.{IsSliced, stream, content, picked_lem, generate_from_seed_lem}

same_bytes_self : (xs : List ℕ) → same_bytes xs xs ≡ true
unfolding same_bytes
same_bytes_self [] = refl
same_bytes_self (x ∷ xs) = rw (==_self x) (same_bytes_self xs)

same_bytes_eq : (xs ys : List ℕ) → same_bytes xs ys ≡ true → xs ≡ ys
unfolding same_bytes
same_bytes_eq [] [] h = refl
same_bytes_eq [] (y ∷ ys) h = cc
same_bytes_eq (x ∷ xs) [] h = cc
same_bytes_eq (x ∷ xs) (y ∷ ys) h = ground (arith, same_bytes_eq xs ys)

passes_if : (xs ys : List ℕ) → (if same_bytes xs ys then passed else mismatched) ≡ passed → xs ≡ ys
passes_if xs ys h = elim (Bool-cases (same_bytes xs ys)) [
  | inl same ↦ same_bytes_eq xs ys same
  | inr other ↦ absurd (ground (arith, h, other))
]

abbrev bytes_of : Filling → List ℕ
bytes_of (filled bs) = bs
bytes_of _ = []

module _ (sg : SliceGenerator) (pick : ℕ → ℕ → ℕ → ℕ) where
  accepted_as :
      (size seed : ℕ) (buffer scratch : List ℕ)
      → length buffer ≡ size
      → read_at 0 4 buffer ≡ some seed
      → generate_from_seed sg pick size seed scratch ≡ filled (content sg pick size seed)
      → verify_object sg pick size buffer scratch
        ≡ (if same_bytes buffer (content sg pick size seed) then passed else mismatched)
  unfolding verify_object
  accepted_as size seed buffer scratch l r g =
      let right : (length buffer == size) ≡ true = ground (arith, l) in
      rw (right, if◌then◌else◌) (rw r (rw (g, verify_object)))

  right_size :
      (size : ℕ) (buffer scratch : List ℕ)
      → verify_object sg pick size buffer scratch ≡ passed
      → length buffer ≡ size
  unfolding verify_object
  right_size size buffer scratch v = ground arith

  module _ (well : IsSliced sg) (in_range : (seed k m : ℕ) → 0 < m → pick seed k m < m) where
    length-stream : (seed k n : ℕ) → n ≤ length (stream sg pick seed k n)
    length-stream seed k zero = omega arith
    length-stream seed k (suc n) =
        let s = get_or sg.slices (pick seed k sg.slice_count) [] in
        let positive = well.size in
        omega (
          arith,
          length-append s (stream sg pick seed (k + 1) n),
          length-stream seed (k + 1) n,
          (picked_lem sg pick well in_range seed k).1,
          positive,
        )

    length-content : (size seed : ℕ) → 4 ≤ size → length (content sg pick size seed) ≡ size
    length-content size seed h = omega (
      arith,
      length-append (le_bytes 4 seed) (take (size - 4) (stream sg pick seed 0 size)),
      length-le_bytes 4 seed,
      length-take (size - 4) (stream sg pick seed 0 size),
      length-stream seed 0 size,
    )

    read_seed :
        (size seed : ℕ) → seed < 2 ^ 32 → read_at 0 4 (content sg pick size seed) ≡ some seed
    read_seed size seed h =
        let four = length-le_bytes 4 seed in
        let read =
          read_at-append [] (le_bytes 4 seed) (take (size - 4) (stream sg pick seed 0 size)) in
        let read' : read_at 0 4 (content sg pick size seed) ≡ some (from_le (le_bytes 4 seed)) =
          rw four at read in
        read' ∙ rw (from_le-le_bytes 4 seed (omega arith))

    verify_content :
        (size seed : ℕ) (scratch : List ℕ)
        → 4 ≤ size
        → length scratch ≡ size
        → size + sg.slice_size < u64_mod
        → seed < 2 ^ 32
        → verify_object sg pick size (content sg pick size seed) scratch ≡ passed
    verify_content size seed scratch h l b s =
        accepted_as size seed (content sg pick size seed) scratch (length-content size seed h)
          (read_seed size seed s)
          (generate_from_seed_lem sg pick well in_range size seed scratch h l b)
        ∙ rw (same_bytes_self (content sg pick size seed), if◌then◌else◌)

    -- With slices that are not empty, draws in range, and a size of at least four that with one
    -- slice more is below 2^64: `Verify` accepts exactly the objects that `generateFromSeed` makes
    -- for some seed, whatever is in the scratch buffer of that size.
    pub verify_object_iff :
        (size : ℕ) (buffer scratch : List ℕ)
        → 4 ≤ size
        → length scratch ≡ size
        → size + sg.slice_size < u64_mod
        → All IsByte buffer
        → (verify_object sg pick size buffer scratch ≡ passed) ↔ (
            (seed : ℕ) × (seed < 2 ^ 32)
            × (generate_from_seed sg pick size seed scratch ≡ filled buffer))
    verify_object_iff size buffer scratch h l b bytes = (
      λ v.
          let e : length buffer ≡ size = right_size size buffer scratch v in
          let (seed, found, small) = read_at-some 0 4 buffer bytes (omega (arith, e, h)) in
          let made = generate_from_seed_lem sg pick well in_range size seed scratch h l b in
          let same =
            passes_if buffer (content sg pick size seed)
              (sym (accepted_as size seed buffer scratch e found made) ∙ v) in
          (seed, omega (arith, small), made ∙ ap filled (sym same)),
      λ v.
          let (seed, small, made) = v in
          let same =
            ap bytes_of
              (sym (generate_from_seed_lem sg pick well in_range size seed scratch h l b) ∙ made) in
          subst (λ bs. verify_object sg pick size bs scratch ≡ passed) same
            (verify_content size seed scratch h l b small),
    )

    -- In the same circumstances, `Verify` accepts what `Generate` has made, whatever was in the
    -- buffers.
    pub verify_object-generate_object :
        (size drawn : ℕ) (buffer scratch : List ℕ)
        → 4 ≤ size
        → length buffer ≡ size
        → length scratch ≡ size
        → size + sg.slice_size < u64_mod
        → (object : List ℕ) × (generate_object sg pick size drawn buffer ≡ filled object)
          × (verify_object sg pick size object scratch ≡ passed)
    unfolding generate_object
    verify_object-generate_object size drawn buffer scratch h l m b = (
      content sg pick size (drawn % 2 ^ 32),
      generate_from_seed_lem sg pick well in_range size (drawn % 2 ^ 32) buffer h l b,
      verify_content size (drawn % 2 ^ 32) scratch h m b (omega arith),
    )
