-- ===== src/Connections/Files/Objects.antt =====
-- A file that is put is got back, in however many writes and reads.
use sibench.Base.{
  ℕ, zero, suc, ◌+◌, ◌-◌, ◌==◌, ◌<◌, ◌≤◌, leb, if◌then◌else◌, true, Option, some, List, [], ◌∷◌,
  ◌++◌, length, take, drop, ◌≡◌, refl, sym, ap, ◌∙◌, ◌⊎◌, inl, inr, arith, Bool-cases, append_assoc,
  append-nil, length-append, length-take, length-drop, take-append-drop, take_all,
}
use sibench.Connections.Block.Parts.{part, part_split}
use sibench.Connections.Files.{
  FileWrite, wrote_bytes, short_write, filed, put_file, read_all, wrong_size, read_loop, get_file,
}

append-empty : (xs ys : List ℕ) → length ys ≡ 0 → xs ++ ys ≡ xs
append-empty xs [] e = append-nil xs
append-empty xs (y ∷ ys) e = absurd (omega (arith, e))

module _ (write : List ℕ → List ℕ → FileWrite)
    (writes : (contents buffer : List ℕ)
      → 0 < length buffer
      → (k : ℕ) × (0 < k)
        × (k ≤ length buffer)
        × ((write contents buffer ≡ wrote_bytes k (contents ++ take k buffer))
            ⊎ (write contents buffer ≡ short_write k (contents ++ take k buffer)))) where
  put_file_lem :
      (n : ℕ) (contents buffer : List ℕ)
      → length buffer ≤ n
      → put_file write n contents buffer ≡ filed (contents ++ buffer)
  unfolding put_file
  put_file_lem zero contents [] h = rw (append-nil contents) refl
  put_file_lem zero contents (x ∷ buffer) h = absurd (omega arith)
  put_file_lem (suc n) contents buffer h = elim (Bool-cases (length buffer == 0)) [
    | inl done ↦
        rw (done, put_file, if◌then◌else◌)
          (ap filed (sym (append-empty contents buffer (ground (arith, done)))))
    | inr more ↦
        (let (k, some_byte, few, written) = writes contents buffer (ground (arith, more)) in
          let ih =
            put_file_lem n (contents ++ take k buffer) (drop k buffer)
              (omega (arith, length-drop k buffer, some_byte, h)) in
          let joined : (contents ++ take k buffer) ++ drop k buffer ≡ contents ++ buffer =
            append_assoc contents (take k buffer) (drop k buffer)
            ∙ ap (λ ys. contents ++ ys) (take-append-drop k buffer) in
          let inside : leb k (length buffer) ≡ true = ground (arith, few) in
          rw (more, put_file, if◌then◌else◌)
            (elim written [
              | inl whole ↦ rw (whole, inside, if◌then◌else◌) (ih ∙ ap filed joined)
              | inr short ↦ rw (short, inside, if◌then◌else◌) (ih ∙ ap filed joined)
            ]))
  ]

module _ (read : List ℕ → ℕ → ℕ → Option (List ℕ))
    (reads : (contents : List ℕ) (p n : ℕ)
      → 0 < n
      → p + n ≤ length contents
      → (k : ℕ) × (0 < k) × (k ≤ n) × (read contents p n ≡ some (part p k contents))) where
  read_loop_lem :
      (n : ℕ) (contents : List ℕ) (remaining : ℕ) (got : List ℕ)
      → remaining ≤ n
      → length got + remaining ≤ length contents
      → read_loop read n contents remaining got
        ≡ read_all (got ++ part (length got) remaining contents)
  unfolding read_loop
  read_loop_lem zero contents zero got h e = rw (append-nil got) refl
  read_loop_lem zero contents (suc remaining) got h e = absurd (omega arith)
  read_loop_lem (suc n) contents remaining got h e = elim (Bool-cases (remaining == 0)) [
    | inl done ↦
        rw (done, read_loop, if◌then◌else◌)
          (let z : remaining ≡ 0 = ground (arith, done) in
            sym (ap read_all (rw z (append-nil got))))
    | inr more ↦
        (let p = length got in
          let (k, some_byte, few, read_some) =
            reads contents p remaining (ground (arith, more)) e in
          let bytes = part p k contents in
          let count : length bytes ≡ k =
            omega (arith, length-take k (drop p contents), length-drop p contents, few, e) in
          let start : length (got ++ bytes) ≡ p + k =
            omega (arith, length-append got bytes, count) in
          let ih =
            read_loop_lem n contents (remaining - k) (got ++ bytes) (omega (arith, some_byte, h))
              (omega (arith, start, few, e)) in
          rw (more, read_loop, if◌then◌else◌)
            (rw read_some (
              rw count (
                ih
                ∙ rw start (
                    ap read_all (
                      append_assoc got bytes _
                      ∙ ap (λ ys. got ++ ys) (part_split p k remaining contents few)))))))
  ]

  -- Writes that write one byte or more, also short ones, and reads that read one byte or more: the
  -- put of an object into an empty file, in no more rounds than it has bytes, gives a file from
  -- which a get into a buffer of the same size reads the object, and a get into any other buffer
  -- is refused.
  pub get_file-put_file :
      (write : List ℕ → List ℕ → FileWrite)
      → ((contents buffer : List ℕ)
          → 0 < length buffer
          → (k : ℕ) × (0 < k)
            × (k ≤ length buffer)
            × ((write contents buffer ≡ wrote_bytes k (contents ++ take k buffer))
                ⊎ (write contents buffer ≡ short_write k (contents ++ take k buffer))))
      → (n : ℕ) (buffer : List ℕ) → length buffer ≤ n
      → (contents : List ℕ) × (put_file write n [] buffer ≡ filed contents)
        × ((capacity : ℕ)
            → get_file read capacity contents
              ≡ (if capacity == length buffer then read_all buffer else wrong_size))
  unfolding get_file
  get_file-put_file write writes n buffer h =
      (buffer, put_file_lem write writes n [] buffer h, sizes)
    where
      sizes :
          (capacity : ℕ)
          → get_file read capacity buffer
            ≡ (if capacity == length buffer then read_all buffer else wrong_size)
      sizes capacity = elim (Bool-cases (capacity == length buffer)) [
        | inl same ↦
            (let e : capacity ≡ length buffer = ground (arith, same) in
              rw (same, get_file)
                (read_loop_lem capacity buffer (length buffer) [] (omega (arith, e)) (omega arith)
                  ∙ ap read_all (take_all (length buffer) buffer (omega arith))))
        | inr other ↦ rw (other, get_file, if◌then◌else◌) refl
      ]
