-- ===== src/Scenarios/Devices.antt =====
-- A block device of twelve bytes that is read one byte at a time.
use sibench.Base.{ℕ, ◌+◌, ◌<◌, ◌≤◌, Option, some, List, [], ◌∷◌, length, ◌≡◌, refl, arith}
use sibench.Base.{Bool, true, leb}
use sibench.Connections.Rbd.{RbdConnection, image_size, put_done, put_image, get_image}
use sibench.Connections.Rbd.Objects.{get_image-put_image}
use sibench.Connections.Block.{
  BlockConnection, Written, wrote, stored, fetched, fits_device, put_object, get_object_bytes,
}
use sibench.Connections.Block.Parts.{part, overwrite}
use sibench.Connections.Block.Objects.{get_object_bytes-put_object}

abbrev connection : BlockConnection
connection = record { foreman_range_start = 20; foreman_range_end = 24; object_size = 3 }

abbrev pwrite : List ℕ → ℕ → List ℕ → Written
pwrite dev p bytes = wrote (overwrite p bytes dev)

abbrev pread : List ℕ → ℕ → ℕ → Option (List ℕ)
pread dev p n = some (part p 1 dev)

reads_one :
    (dev : List ℕ) (p n : ℕ)
    → 0 < n
    → p + n ≤ length dev
    → (k : ℕ) × (0 < k) × (k ≤ n) × (pread dev p n ≡ some (part p k dev))
reads_one dev p n h e = (1, omega arith, h, refl)

abbrev a_device : List ℕ
a_device = 1 ∷ 2 ∷ 3 ∷ 4 ∷ 5 ∷ 6 ∷ 7 ∷ 8 ∷ 9 ∷ 10 ∷ 11 ∷ 12 ∷ []

abbrev a_buffer : List ℕ
a_buffer = 70 ∷ 71 ∷ 72 ∷ []

get_object_bytes-put_object_example :
    (dev' : List ℕ) × (put_object pwrite 1 connection 22 a_buffer a_device ≡ stored dev')
    × (get_object_bytes pread connection 22 3 dev' ≡ fetched a_buffer)
unfolding fits_device
get_object_bytes-put_object_example =
    get_object_bytes-put_object connection 4 refl (omega arith) (omega arith) pwrite
      (λ dev p bytes h. refl) pread reads_one 2 2 a_buffer a_device (omega arith) (omega arith) refl
      (omega arith) refl

-- A block image of the same size, made by a worker with the same range.
abbrev on_image : RbdConnection
on_image = record { worker_range_start = 20; worker_range_end = 24; object_size = 3 }

abbrev seek_in : List ℕ → ℕ → Bool
seek_in image p = leb p (length image)

seek_in_lem : (image : List ℕ) (p : ℕ) → p ≤ length image → seek_in image p ≡ true
seek_in_lem image p h = ground (arith, h)

abbrev write_in : List ℕ → ℕ → List ℕ → Option ℕ × List ℕ
write_in image p bytes = (some (length bytes), overwrite p bytes image)

abbrev read_in : List ℕ → ℕ → ℕ → Option (List ℕ)
read_in image p n = some (part p n image)

get_image-put_image_example :
    (image' : List ℕ) × (put_image seek_in write_in (λ _. true) on_image 22 a_buffer a_device
      ≡ put_done image')
    × (length image' ≡ image_size on_image)
    × (get_image seek_in read_in on_image 23 3 image'
        ≡ get_image seek_in read_in on_image 23 3 a_device)
unfolding image_size
get_image-put_image_example =
    get_image-put_image on_image 4 refl (omega arith) (omega arith) seek_in seek_in_lem write_in
      (λ image p bytes h. refl) (λ _. true) (λ _. refl) read_in (λ image p n h. refl) 2 3 a_buffer
      a_device (omega arith) (omega arith) refl refl
