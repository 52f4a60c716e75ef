-- ===== src/Generator/Slices/Create.antt =====
-- What `CreateSliceGenerator` makes of the files of a directory.
use sibench.Base.{
  ℕ, zero, suc, ◌+◌, ◌-◌, ◌^◌, ◌==◌, ◌<◌, ltb, if◌then◌else◌, true, false, List, [], ◌∷◌, ◌++◌,
  length, take, drop, All, ◌≡◌, refl, ap, ◌∙◌, arith, append_assoc, append-nil, length-append,
  length-take, length-drop,
}
use sibench.Generator.Slices.{
  SliceGenerator, File, total_bytes, created, panicked, load_slices, create_slice_generator,
}
use sibench.Generator.Slices.Content.{IsSliced}
use sibench.Generator.Slices.Load.{IsReadable, all_bytes, load_from_start}

total_bytes_lem :
    (files : List File)
    → All IsReadable files
    → length (all_bytes files) < 2 ^ 63
    → total_bytes files ≡ length (all_bytes files)
unfolding total_bytes
total_bytes_lem [] r b = refl
total_bytes_lem (f ∷ files) (r, rs) b =
    let total = length-append f.bytes (all_bytes files) in
    omega (arith, total, r.2, total_bytes_lem files rs (omega (arith, total)))

module _ (draw : ℕ → ℕ → ℕ) (slice_size : ℕ) (files : List File) where
  -- The slices that the draws name, from the slice `i` on.
  abbrev pub drawn : ℕ → ℕ → List (List ℕ)
  drawn zero i = []
  drawn (suc n) i =
      take slice_size (drop (draw i (length (all_bytes files) - slice_size)) (all_bytes files))
      ∷ drawn n (i + 1)

  module _ (in_range : (i m : ℕ) → 0 < m → draw i m < m) (r : All IsReadable files)
      (p : 0 < slice_size) (e : slice_size < length (all_bytes files))
      (b : length (all_bytes files) < 2 ^ 63) where
    load_slices_lem :
        (count n i : ℕ) (done : List (List ℕ))
        → load_slices draw slice_size count (length (all_bytes files) - slice_size) files n i done
          ≡ created
              (record { slice_size = slice_size; slice_count = count; slices = done ++ drawn n i })
    unfolding load_slices
    load_slices_lem count zero i done = rw (append-nil done)
    load_slices_lem count (suc n) i done =
        let last_start = length (all_bytes files) - slice_size in
        let positive : (last_start == 0) ≡ false = ground (arith, e) in
        let inside = in_range i last_start (omega (arith, e)) in
        let slice =
          load_from_start slice_size (draw i last_start) files r p (omega (arith, inside, e)) b in
        let next =
          load_slices_lem count n (i + 1)
            (done ++ (take slice_size (drop (draw i last_start) (all_bytes files)) ∷ [])) in
        rw (positive, if◌then◌else◌)
          (rw slice (
            next
            ∙ rw (
                append_assoc done
                  (take slice_size (drop (draw i last_start) (all_bytes files)) ∷ [])
                  (drawn n (i + 1)))))

    IsSliced-drawn :
        (n i : ℕ) → (length (drawn n i) ≡ n) × All (λ s. length s ≡ slice_size) (drawn n i)
    IsSliced-drawn zero i = (refl, tt)
    IsSliced-drawn (suc n) i =
        let last_start = length (all_bytes files) - slice_size in
        let inside = in_range i last_start (omega (arith, e)) in
        let rest = IsSliced-drawn n (i + 1) in
        (
          ap suc rest.0,
          (
            omega (
              arith,
              length-take slice_size (drop (draw i last_start) (all_bytes files)),
              length-drop (draw i last_start) (all_bytes files),
              inside,
              e,
            ),
            rest.1,
          ),
        )

    -- With readable files that have more bytes than a slice, and a slice size and a count that are
    -- not zero, `CreateSliceGenerator` makes a generator with the slices that the draws name, as
    -- many and as long as it was asked for.
    pub create_slice_generator-IsSliced :
        (count : ℕ)
        → 0 < count
        → let sg : SliceGenerator = record {
          slice_size = slice_size;
          slice_count = count;
          slices = drawn count 0;
        } in
          (create_slice_generator draw slice_size count files ≡ created sg) × IsSliced sg
    unfolding create_slice_generator
    create_slice_generator-IsSliced count c =
        let total = total_bytes_lem files r b in
        let enough : ltb (length (all_bytes files)) slice_size ≡ false = ground (arith, e) in
        (
          rw total (rw (enough, if◌then◌else◌) (load_slices_lem count count 0 [])),
          record {
            size = p;
            count = c;
            full = (IsSliced-drawn count 0).0;
            equal = (IsSliced-drawn count 0).1;
          },
        )

  -- Where the files have exactly as many bytes as a slice, and a count that is not zero,
  -- `CreateSliceGenerator` panics.
  pub create_slice_generator_exact :
      (count : ℕ)
      → All IsReadable files
      → 0 < count
      → slice_size ≡ length (all_bytes files)
      → length (all_bytes files) < 2 ^ 63
      → create_slice_generator draw slice_size count files ≡ panicked
  unfolding create_slice_generator load_slices
  create_slice_generator_exact zero r c e b = absurd (omega arith)
  create_slice_generator_exact (suc count) r c e b =
      let total = total_bytes_lem files r b in
      let enough : ltb (length (all_bytes files)) slice_size ≡ false = ground (arith, e) in
      let none_over : (length (all_bytes files) - slice_size == 0) ≡ true = ground (arith, e) in
      rw total (rw (enough, if◌then◌else◌) (rw (none_over, if◌then◌else◌)))
