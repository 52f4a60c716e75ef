-- ===== src/Generator/Slices/Load.antt =====
-- What `loadSlice` makes of the files of a directory.
use sibench.Base.{
  min, ℕ, ◌+◌, ◌-◌, ◌^◌, ◌==◌, ◌<◌, ◌≤◌, leb, if◌then◌else◌, true, List, [], ◌∷◌, ◌++◌, length,
  take, drop, All, ◌≡◌, sym, ap, ◌∙◌, arith, inl, inr, Bool-cases, append_assoc, length-append,
  length-take, length-drop, take_all, take-append_ge, take-append_le, drop-append_le,
  drop-append_ge,
}
use sibench.Base.Bits.{u64, u64_mod}
use sibench.Generator.Slices.{File, loaded, load_from}

-- A file that can be opened and read to its end, and whose size its info tells.
abbrev pub IsReadable : File → Type 0
IsReadable f = (f.opens ≡ true) × (f.ends ≡ true) × (f.size ≡ length f.bytes)

-- The bytes of all the files, one after another.
abbrev pub all_bytes : List File → List ℕ
all_bytes [] = []
all_bytes (f ∷ files) = f.bytes ++ all_bytes files

module _ (slice_size start : ℕ) where
  load_from_lem :
      (pos : ℕ) (got : List ℕ) (files : List File)
      → All IsReadable files
      → length got ≡ pos - start
      → length got < slice_size
      → start + slice_size ≤ pos + length (all_bytes files)
      → pos + length (all_bytes files) < u64_mod
      → load_from slice_size start pos got files
        ≡ loaded (got ++ take (slice_size - length got) (drop (start - pos) (all_bytes files)))
  unfolding load_from
  load_from_lem pos got [] r g l e b = absurd (omega arith)
  load_from_lem pos got (f ∷ files) (r, rs) g l e b =
      let total = length-append f.bytes (all_bytes files) in
      let next : u64 (pos + f.size) ≡ pos + length f.bytes = omega (arith, r.2, total) in
      let room = slice_size - length got in
      let chunk = take room (drop (start - pos) f.bytes) in
      let chunk_length : length chunk ≡ min room (length f.bytes - (start - pos)) =
        omega (
          arith,
          length-take room (drop (start - pos) f.bytes),
          length-drop (start - pos) f.bytes,
        ) in
      let got_length = length-append got chunk in
      elim (Bool-cases (leb start (pos + length f.bytes))) [
        | inr behind ↦
            (let far : pos + length f.bytes < start = ground (arith, behind) in
              let ih =
                load_from_lem (pos + length f.bytes) got files rs (omega (arith, far, g)) l
                  (omega (arith, total)) (omega (arith, total)) in
              rw (next, behind, if◌then◌else◌)
                (let skip : drop (start - pos) (f.bytes ++ all_bytes files)
                      ≡ drop (start - (pos + length f.bytes)) (all_bytes files) =
                    drop-append_ge (start - pos) f.bytes (all_bytes files) (omega (arith, far))
                    ∙ ap (λ k. drop k (all_bytes files)) (omega arith) in
                  rw skip ih))
        | inl reached ↦
            (let near : start ≤ pos + length f.bytes = ground (arith, reached) in
              let split : drop (start - pos) (f.bytes ++ all_bytes files)
                  ≡ drop (start - pos) f.bytes ++ all_bytes files =
                drop-append_le (start - pos) f.bytes (all_bytes files) (omega (arith, near)) in
              rw (next, reached, if◌then◌else◌)
                (rw (r.0, if◌then◌else◌)
                  (elim (Bool-cases (length (got ++ chunk) == slice_size)) [
                    | inl done ↦
                        rw (done, if◌then◌else◌)
                          (let full : room ≤ length (drop (start - pos) f.bytes) = ground (
                            arith,
                            done,
                            got_length,
                            chunk_length,
                            length-drop (start - pos) f.bytes,
                          ) in
                            rw (
                              split,
                              take-append_le room (drop (start - pos) f.bytes) (all_bytes files)
                                  full,
                            ))
                    | inr more ↦
                        rw (more, if◌then◌else◌)
                          (rw (r.1, if◌then◌else◌)
                            (let short : length (drop (start - pos) f.bytes) < room = ground (
                              arith,
                              more,
                              got_length,
                              chunk_length,
                              length-drop (start - pos) f.bytes,
                            ) in
                              let whole : chunk ≡ drop (start - pos) f.bytes =
                                take_all room (drop (start - pos) f.bytes) (omega (arith, short)) in
                              let measured = length-drop (start - pos) f.bytes in
                              let ih =
                                load_from_lem (pos + length f.bytes) (got ++ chunk) files rs
                                  (omega
                                    (arith, got_length, chunk_length, measured, short, g, near))
                                  (omega (arith, got_length, chunk_length, measured, short))
                                  (omega (arith, total)) (omega (arith, total)) in
                              let here : start - (pos + length f.bytes) ≡ 0 = omega (arith, near) in
                              let left : slice_size - length (got ++ chunk)
                                  ≡ room - length (drop (start - pos) f.bytes) =
                                omega (arith, got_length, chunk_length, measured, short) in
                              let d = drop (start - pos) f.bytes in
                              let x = take (room - length d) (all_bytes files) in
                              let one_more : got ++ (chunk ++ x)
                                  ≡ got ++ take room (d ++ all_bytes files) =
                                ap (λ c. got ++ (c ++ x)) whole
                                ∙ ap (λ xs. got ++ xs)
                                    (sym (
                                      take-append_ge room d (all_bytes files)
                                        (omega (arith, short)))) in
                              ih
                              ∙ rw (here, left, split)
                                  (ap loaded (append_assoc got chunk x ∙ one_more))))
                  ])))
      ]

  -- With readable files, and a slice that is inside them all, `loadSlice` reads the slice from the
  -- place where it would stand if the files were one.
  pub load_from_start :
      (files : List File)
      → All IsReadable files
      → 0 < slice_size
      → start + slice_size ≤ length (all_bytes files)
      → length (all_bytes files) < 2 ^ 63
      → load_from slice_size start 0 [] files
        ≡ loaded (take slice_size (drop start (all_bytes files)))
  load_from_start files r p e b =
      let all_room : slice_size - 0 ≡ slice_size = omega arith in
      let from_start : start - 0 ≡ start = omega arith in
      load_from_lem 0 [] files r (omega arith) p (omega (arith, e)) (omega (arith, b))
      ∙ rw (all_room, from_start)
