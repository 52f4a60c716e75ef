-- ===== src/Connections/Block.antt =====
-- The connection to a block device (src/sibench/block_connection.go). The device is the list of its
-- bytes; the system calls pread and pwrite are parameters.
pub mod Parts
pub mod Objects
use sibench.Base.{
  ℕ, zero, suc, ◌+◌, ◌-◌, ◌*◌, ◌==◌, ltb, leb, if◌then◌else◌, Bool, true, false, Option, none, some,
  List, [], ◌∷◌, ◌++◌, length, drop,
}
use sibench.Base.Bits.{u64, u64_mod}

-- The part of the worker's configuration that the connection uses.
pub record BlockConnection : Type 0 where
  pub foreman_range_start : ℕ
  pub foreman_range_end : ℕ
  pub object_size : ℕ

-- What pwrite does: it writes with no error, or returns an error with a number, where none stands
-- for one below zero. The device is what it is afterwards.
pub data Written : Type 0 where
  wrote : List ℕ → Written
  write_failed : Option ℕ → List ℕ → Written

pub data Stored : Type 0 where
  stored : List ℕ → Stored
  put_crashed put_endless : Stored

pub data Fetched : Type 0 where
  fetched : List ℕ → Fetched
  wrong_capacity get_failed get_endless : Fetched

-- `objectOffset`. As an int64 it is the same below 2^63.
unfoldable pub object_offset : BlockConnection → ℕ → ℕ
object_offset c id = u64 (u64 (id + u64_mod - c.foreman_range_start) * c.object_size)

-- The check of `WorkerConnect` on a device of the given size.
unfoldable pub fits_device : BlockConnection → ℕ → Bool
fits_device c size =
    let min_size =
      u64 (u64 (c.foreman_range_end + u64_mod - c.foreman_range_start) * c.object_size) in
    if ltb size min_size then false else true

module _ (pwrite : List ℕ → ℕ → List ℕ → Written) where
  -- The loop of `PutObject`, with at most `n` rounds left: it goes on after an error only.
  unfoldable pub put_loop : ℕ → List ℕ → ℕ → List ℕ → Stored
  put_loop zero dev offset buffer = if length buffer == 0 then stored dev else put_endless
  put_loop (suc n) dev offset buffer =
      if length buffer == 0 then stored dev else elim (pwrite dev offset buffer) [
        | wrote dev' ↦ stored dev'
        | write_failed k dev' ↦ elim k [
          | none ↦ put_crashed
          | some k ↦
              let rest = put_loop n dev' (offset + k) (drop k buffer) in
              if leb k (length buffer) then rest else put_crashed
        ]
      ]

  unfoldable pub put_object : ℕ → BlockConnection → ℕ → List ℕ → List ℕ → Stored
  put_object n c id buffer dev = put_loop n dev (object_offset c id) buffer

module _ (pread : List ℕ → ℕ → ℕ → Option (List ℕ)) where
  -- The loop of `GetObject`, with at most `n` rounds left; `got` is what has been read.
  unfoldable pub get_loop : ℕ → List ℕ → ℕ → ℕ → List ℕ → Fetched
  get_loop zero dev offset remaining got = if remaining == 0 then fetched got else get_endless
  get_loop (suc n) dev offset remaining got =
      if remaining == 0 then fetched got else elim (pread dev offset remaining) [
        | none ↦ get_failed
        | some bytes ↦
            get_loop n dev (offset + length bytes) (u64 (remaining + u64_mod - length bytes))
              (got ++ bytes)
      ]

  -- `GetObject` into a buffer of the given capacity. A round for each byte is enough, where each
  -- read gives one byte or more.
  unfoldable pub get_object_bytes : BlockConnection → ℕ → ℕ → List ℕ → Fetched
  get_object_bytes c id capacity dev =
      if c.object_size == capacity
      then get_loop capacity dev (object_offset c id) c.object_size []
      else wrong_capacity
