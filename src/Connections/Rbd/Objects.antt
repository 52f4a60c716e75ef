-- ===== src/Connections/Rbd/Objects.antt =====
-- The image that a worker makes has a place for each object of its range, and keeps them apart.
use sibench.Base.{
  ℕ, ◌+◌, ◌-◌, ◌*◌, ◌^◌, ◌==◌, ◌<◌, ◌≤◌, if◌then◌else◌, Bool, true, false, Option, some, List,
  length, drop, ◌≡◌, refl, sym, ap, ◌∙◌, arith, length-take, length-drop, ==_self,
}
use sibench.Base.Bits.{u64, u64_mod}
use sibench.Connections.Block.Parts.{
  part, overwrite, length-overwrite, part-overwrite_slot, slot_le,
}
use sibench.Connections.Rbd.{
  RbdConnection, image_size, image_offset, put_done, got_object, after_write, put_image, get_image,
}

module _ (c : RbdConnection) (count : ℕ) (range : c.worker_range_end ≡ c.worker_range_start + count)
    (b : count * c.object_size < 2 ^ 63) (low : c.worker_range_end < u64_mod) where
  image_offset_lem :
      (k : ℕ) → k < count → image_offset c (c.worker_range_start + k) ≡ k * c.object_size
  unfolding image_offset
  image_offset_lem k h =
      let index : u64 (c.worker_range_start + k + u64_mod - c.worker_range_start) ≡ k =
        omega arith in
      rw index (omega (arith, slot_le k count c.object_size h))

  image_size_lem : image_size c ≡ count * c.object_size
  unfolding image_size
  image_size_lem =
      let span : u64 (c.worker_range_end + u64_mod - c.worker_range_start) ≡ count =
        omega (arith, range) in
      rw span (omega arith)

  room_lem :
      (k : ℕ) (image : List ℕ)
      → k < count
      → length image ≡ image_size c
      → k * c.object_size + c.object_size ≤ length image
  room_lem k image h l = omega (arith, l, image_size_lem, slot_le k count c.object_size h)

  module _ (seek : List ℕ → ℕ → Bool)
      (seeks : (image : List ℕ) (p : ℕ) → p ≤ length image → seek image p ≡ true)
      (write : List ℕ → ℕ → List ℕ → Option ℕ × List ℕ)
      (writes : (image : List ℕ) (p : ℕ) (bytes : List ℕ)
        → p + length bytes ≤ length image
        → write image p bytes ≡ (some (length bytes), overwrite p bytes image))
      (flush : List ℕ → Bool) (flushes : (image : List ℕ) → flush image ≡ true)
      (read : List ℕ → ℕ → ℕ → Option (List ℕ))
      (reads : (image : List ℕ) (p n : ℕ)
        → p + n ≤ length image
        → read image p n ≡ some (part p n image)) where
    put_lem :
        (k : ℕ) (buffer image : List ℕ)
        → k < count
        → length buffer ≡ c.object_size
        → length image ≡ image_size c
        → put_image seek write flush c (c.worker_range_start + k) buffer image
          ≡ put_done (overwrite (k * c.object_size) buffer image)
    unfolding put_image after_write
    put_lem k buffer image h l f =
        let p = k * c.object_size in
        let room = room_lem k image h f in
        let written = writes image p buffer (omega (arith, l, room)) in
        rw (image_offset_lem k h) (
          rw (seeks image p (omega (arith, room)), if◌then◌else◌)
            (rw written (
              rw (flushes (overwrite p buffer image), if◌then◌else◌)
                (rw (l, ==_self c.object_size, if◌then◌else◌) refl))))

    get_lem :
        (k : ℕ) (image : List ℕ)
        → k < count
        → length image ≡ image_size c
        → get_image seek read c (c.worker_range_start + k) c.object_size image
          ≡ got_object (part (k * c.object_size) c.object_size image)
    unfolding get_image
    get_lem k image h f =
        let p = k * c.object_size in
        let room = room_lem k image h f in
        let whole : length (part p c.object_size image) ≡ c.object_size =
          omega (arith, length-take c.object_size (drop p image), length-drop p image, room) in
        rw (image_offset_lem k h) (
          rw (seeks image p (omega (arith, room)), if◌then◌else◌)
            (rw (reads image p c.object_size room)
              (rw (whole, ==_self c.object_size, if◌then◌else◌) refl)))

    -- On the image that a worker makes, whose calls do all that they are asked to within it: any
    -- object of the worker's range is put without an error and got back, and any other object of
    -- the range is got as before. The image keeps its size.
    pub get_image-put_image :
        (i j : ℕ) (buffer image : List ℕ)
        → i < count
        → j < count
        → length buffer ≡ c.object_size
        → length image ≡ image_size c
        → (image' : List ℕ) × (put_image seek write flush c (c.worker_range_start + i) buffer image
            ≡ put_done image')
          × (length image' ≡ image_size c)
          × (get_image seek read c (c.worker_range_start + j) c.object_size image' ≡ (
              if i == j
              then got_object buffer
              else get_image seek read c (c.worker_range_start + j) c.object_size image))
    get_image-put_image i j buffer image hi hj l f =
        let size = c.object_size in
        let image' = overwrite (i * size) buffer image in
        let room = room_lem i image hi f in
        let f' = length-overwrite (i * size) buffer image (omega (arith, l, room)) ∙ f in
        (
          image',
          put_lem i buffer image hi l f,
          f',
          get_lem j image' hj f'
              ∙ ap got_object (part-overwrite_slot i j size buffer image l room)
              ∙ either (i == j),
        )
      where
        either :
            (b : Bool)
            → got_object (if b then buffer else part (j * c.object_size) c.object_size image) ≡ (
                if b
                then got_object buffer
                else get_image seek read c (c.worker_range_start + j) c.object_size image)
        either true = refl
        either false = sym (get_lem j image hj f)
