-- ===== src/Connections/Block/Objects.antt =====
-- The objects on a block device are apart: what is put is what is got, and nothing else changes.
use sibench.Base.{
  Bool, refl, ℕ, zero, suc, ◌+◌, ◌-◌, ◌*◌, ◌^◌, ◌==◌, ◌<◌, ◌≤◌, ltb, if◌then◌else◌, true, false,
  Option, some, List, [], ◌++◌, length, drop, ◌≡◌, sym, ap, ◌∙◌, arith, inl, inr, Bool-cases,
  append_assoc, append-nil, length-take, length-drop, ==_self,
}
use sibench.Base.Bits.{u64, u64_mod}
use mathlib.Core.Path.{subst}
use sibench.Connections.Block.{
  BlockConnection, Written, wrote, stored, fetched, object_offset, fits_device, put_loop,
  put_object, get_loop, get_object_bytes,
}
use sibench.Connections.Block.Parts.{
  part, overwrite, part_split, length-overwrite, part-overwrite_slot, slot_le,
}

module _ (pread : List ℕ → ℕ → ℕ → Option (List ℕ))
    (reads : (dev : List ℕ) (p n : ℕ)
      → 0 < n
      → p + n ≤ length dev
      → (k : ℕ) × (0 < k) × (k ≤ n) × (pread dev p n ≡ some (part p k dev))) where
  get_loop_lem :
      (n : ℕ) (dev : List ℕ) (p remaining : ℕ) (got : List ℕ)
      → remaining ≤ n
      → p + remaining ≤ length dev
      → remaining < u64_mod
      → get_loop pread n dev p remaining got ≡ fetched (got ++ part p remaining dev)
  unfolding get_loop
  get_loop_lem zero dev p zero got h e b = rw (append-nil got)
  get_loop_lem zero dev p (suc remaining) got h e b = absurd (omega arith)
  get_loop_lem (suc n) dev p remaining got h e b = elim (Bool-cases (remaining == 0)) [
    | inl done ↦
        rw (done, if◌then◌else◌)
          (let z : remaining ≡ 0 = ground (arith, done) in sym (ap fetched (rw z (append-nil got))))
    | inr more ↦
        (let (k, some_byte, few, read) = reads dev p remaining (ground (arith, more)) e in
          let bytes = part p k dev in
          let count : length bytes ≡ k =
            omega (arith, length-take k (drop p dev), length-drop p dev, few, e) in
          let less : u64 (remaining + u64_mod - length bytes) ≡ remaining - k =
            omega (arith, count, few) in
          let ih =
            get_loop_lem n dev (p + k) (remaining - k) (got ++ bytes) (omega (arith, some_byte, h))
              (omega (arith, few, e)) (omega arith) in
          rw (more, if◌then◌else◌)
            (rw read (
              rw (less, count)
                (ih
                  ∙ ap fetched (
                      append_assoc got bytes _
                      ∙ ap (λ xs. got ++ xs) (part_split p k remaining dev few))))))
  ]

-- Where the object with the index `k` is.
module _ (c : BlockConnection) (count : ℕ)
    (range : c.foreman_range_end ≡ c.foreman_range_start + count)
    (b : count * c.object_size < 2 ^ 63) (low : c.foreman_range_end < u64_mod) where
  offset_lem : (k : ℕ) → k < count → object_offset c (c.foreman_range_start + k) ≡ k * c.object_size
  unfolding object_offset
  offset_lem k h =
      let index : u64 (c.foreman_range_start + k + u64_mod - c.foreman_range_start) ≡ k =
        omega arith in
      rw index (omega (arith, slot_le k count c.object_size h))

  inside_lem :
      (k size : ℕ)
      → k < count
      → fits_device c size ≡ true
      → k * c.object_size + c.object_size ≤ size
  unfolding fits_device
  inside_lem k size h f =
      let span : u64 (c.foreman_range_end + u64_mod - c.foreman_range_start) ≡ count =
        omega (arith, range) in
      let whole : u64 (count * c.object_size) ≡ count * c.object_size = omega arith in
      let enough : (if ltb size (count * c.object_size) then false else true) ≡ true =
        rw (span, whole) at f in
      ground (arith, enough, slot_le k count c.object_size h)

  module _ (pwrite : List ℕ → ℕ → List ℕ → Written)
      (writes : (dev : List ℕ) (p : ℕ) (bytes : List ℕ)
        → p + length bytes ≤ length dev
        → pwrite dev p bytes ≡ wrote (overwrite p bytes dev))
      (pread : List ℕ → ℕ → ℕ → Option (List ℕ))
      (reads : (dev : List ℕ) (p n : ℕ)
        → 0 < n
        → p + n ≤ length dev
        → (k : ℕ) × (0 < k) × (k ≤ n) × (pread dev p n ≡ some (part p k dev))) where
    put_lem :
        (k : ℕ) (buffer dev : List ℕ)
        → k < count
        → length buffer ≡ c.object_size
        → 0 < c.object_size
        → fits_device c (length dev) ≡ true
        → put_object pwrite 1 c (c.foreman_range_start + k) buffer dev
          ≡ stored (overwrite (k * c.object_size) buffer dev)
    unfolding put_object put_loop
    put_lem k buffer dev h l p f =
        let some_bytes : (length buffer == 0) ≡ false = ground (arith, l, p) in
        let written =
          writes dev (k * c.object_size) buffer (omega (arith, l, inside_lem k (length dev) h f)) in
        rw (offset_lem k h) (rw (some_bytes, if◌then◌else◌) (rw written))

    get_lem :
        (k : ℕ) (dev : List ℕ)
        → k < count
        → fits_device c (length dev) ≡ true
        → get_object_bytes pread c (c.foreman_range_start + k) c.object_size dev
          ≡ fetched (part (k * c.object_size) c.object_size dev)
    unfolding get_object_bytes
    get_lem k dev h f =
        rw (==_self c.object_size, offset_lem k h)
          (get_loop_lem pread reads c.object_size dev (k * c.object_size) c.object_size []
            (omega arith) (inside_lem k (length dev) h f)
            (omega (arith, slot_le k count c.object_size h)))

    -- On a device that is large enough, with a pwrite that writes all it is given and a pread that
    -- reads one byte or more: an object that is put is got back, and any other is got as before.
    pub get_object_bytes-put_object :
        (i j : ℕ) (buffer dev : List ℕ)
        → i < count
        → j < count
        → length buffer ≡ c.object_size
        → 0 < c.object_size
        → fits_device c (length dev) ≡ true
        → (dev' : List ℕ) × (put_object pwrite 1 c (c.foreman_range_start + i) buffer dev
            ≡ stored dev')
          × (get_object_bytes pread c (c.foreman_range_start + j) c.object_size dev' ≡ (
              if i == j
              then fetched buffer
              else get_object_bytes pread c (c.foreman_range_start + j) c.object_size dev))
    get_object_bytes-put_object i j buffer dev hi hj l p f =
        let size = c.object_size in
        let dev' = overwrite (i * size) buffer dev in
        let room : i * size + length buffer ≤ length dev =
          omega (arith, l, inside_lem i (length dev) hi f) in
        let f' : fits_device c (length dev') ≡ true =
          subst (λ n. fits_device c n ≡ true) (sym (length-overwrite (i * size) buffer dev room))
            f in
        (
          dev',
          put_lem i buffer dev hi l p f,
          get_lem j dev' hj f'
              ∙ ap fetched
                  (part-overwrite_slot i j size buffer dev l (inside_lem i (length dev) hi f))
              ∙ either (i == j),
        )
      where
        either :
            (b : Bool)
            → fetched (if b then buffer else part (j * c.object_size) c.object_size dev) ≡ (
                if b
                then fetched buffer
                else get_object_bytes pread c (c.foreman_range_start + j) c.object_size dev)
        either true = refl
        either false = sym (get_lem j dev hj f)
