-- ===== src/Connections/Rbd.antt =====
-- The connection to a Ceph block image (src/sibench/rbd_connecton.go), which each worker makes for
-- itself. The image is the list of its bytes; what librbd does with it is a parameter.
pub mod Objects
use sibench.Base.{
  ℕ, ◌+◌, ◌-◌, ◌*◌, ◌==◌, if◌then◌else◌, Bool, true, false, Option, none, some, List, length,
}
use sibench.Base.Bits.{u64, u64_mod}

-- The part of the worker's configuration that the connection uses.
pub record RbdConnection : Type 0 where
  pub worker_range_start : ℕ
  pub worker_range_end : ℕ
  pub object_size : ℕ

-- The size of the image that `WorkerConnect` makes.
unfoldable pub image_size : RbdConnection → ℕ
image_size c = u64 (u64 (c.worker_range_end + u64_mod - c.worker_range_start) * c.object_size)

-- `objectOffset`. As an int64 it is the same below 2^63.
unfoldable pub image_offset : RbdConnection → ℕ → ℕ
image_offset c id = u64 (u64 (id + u64_mod - c.worker_range_start) * c.object_size)

-- What came of a call: no error, or one of the errors that the connection tells apart. The image
-- is what it is afterwards.
pub data Put : Type 0 where
  put_done : List ℕ → Put
  put_failed put_short : List ℕ → Put

pub data Got : Type 0 where
  got_object : List ℕ → Got
  got_failed : Got
  got_short : List ℕ → Got

-- The image's Seek, which says whether it went to the offset, its Write there, which gives the
-- number of bytes written, if there is no error, and the image, and its Flush.
module _ (seek : List ℕ → ℕ → Bool) (write : List ℕ → ℕ → List ℕ → Option ℕ × List ℕ)
    (flush : List ℕ → Bool) where
  -- What `PutObject` does when Write has returned.
  unfoldable pub after_write : RbdConnection → Option ℕ → List ℕ → Put
  after_write c none image = put_failed image
  after_write c (some nwrite) image =
      if nwrite == c.object_size
      then (if flush image then put_done image else put_failed image)
      else put_short image

  -- `PutObject`
  unfoldable pub put_image : RbdConnection → ℕ → List ℕ → List ℕ → Put
  put_image c id buffer image =
      let offset = image_offset c id in
      if seek image offset
      then (let (nwrite, image') = write image offset buffer in after_write c nwrite image')
      else put_failed image

-- The image's Seek, and its Read2 there, which gives the bytes that it read, if there is no error.
module _ (seek : List ℕ → ℕ → Bool) (read : List ℕ → ℕ → ℕ → Option (List ℕ)) where
  -- `GetObject` into a buffer of the given length.
  unfoldable pub get_image : RbdConnection → ℕ → ℕ → List ℕ → Got
  get_image c id room image =
      let offset = image_offset c id in
      if seek image offset
      then elim (read image offset room) [
        | none ↦ got_failed
        | some bytes ↦ if length bytes == c.object_size then got_object bytes else got_short bytes
      ]
      else got_failed
