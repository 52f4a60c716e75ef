-- ===== src/Generator/Slices.antt =====
-- The slice generator (src/sibench/slice_generator.go). The numbers that math/rand draws are
-- parameters.
pub mod Content
pub mod Load
pub mod Create
pub mod Verify
use sibench.Base.{
  ℕ, zero, suc, ◌+◌, ◌-◌, ◌%◌, ◌^◌, ◌&&◌, ◌==◌, ltb, leb, if◌then◌else◌, Bool, true, false, Option,
  none, some, List, [], ◌∷◌, ◌++◌, length, take, drop, get_elem?,
}
use sibench.Base.Bits.{u64}
use sibench.Generator.Bytes.{le_bytes, from_le, write_at, read_at}

-- A regular file of the directory: the size that its info tells, whether it can be opened, what is
-- read from it, and whether a read that comes to its end says so with io.EOF.
pub record File : Type 0 where
  pub size : ℕ
  pub opens : Bool
  pub bytes : List ℕ
  pub ends : Bool

pub data Slice : Type 0 where
  loaded : List ℕ → Slice
  unopened unread never_happens : Slice

-- The loop of `loadSlice` over the files; `got` is what has been read. `start - pos` is not negative
-- here. The sizes are int64: comparisons are right where the files have less than 2^63 bytes.
unfoldable pub load_from : ℕ → ℕ → ℕ → List ℕ → List File → Slice
load_from slice_size start pos got [] = never_happens
load_from slice_size start pos got (f ∷ files) =
    let got' = got ++ take (slice_size - length got) (drop (start - pos) f.bytes) in
    let behind = load_from slice_size start (u64 (pos + f.size)) got files in
    let more = load_from slice_size start (u64 (pos + f.size)) got' files in
    if leb start (u64 (pos + f.size))
    then (if f.opens
        then (if length got' == slice_size then loaded got' else if f.ends then more else unread)
        else unopened)
    else behind

-- `SliceGenerator`, with its source of random numbers left out.
pub record SliceGenerator : Type 0 where
  pub slice_size : ℕ
  pub slice_count : ℕ
  pub slices : List (List ℕ)

unfoldable pub total_bytes : List File → ℕ
total_bytes [] = 0
total_bytes (f ∷ files) = u64 (f.size + total_bytes files)

pub data Creation : Type 0 where
  created : SliceGenerator → Creation
  too_short : Creation
  not_loaded : Slice → Creation
  panicked : Creation

-- The loop of `CreateSliceGenerator`, with `n` slices left of which the first is the slice `i`;
-- `draw i m` is what the source draws for the slice `i` in a call of Int63n(m), which panics for 0.
unfoldable pub load_slices : (ℕ → ℕ → ℕ) → ℕ → ℕ → ℕ → List File → ℕ → ℕ → List (List ℕ) → Creation
load_slices draw slice_size slice_count last_start files zero i done =
    created (record { slice_size = slice_size; slice_count = slice_count; slices = done })
load_slices draw slice_size slice_count last_start files (suc n) i done =
    if last_start == 0
    then panicked
    else elim (load_from slice_size (draw i last_start) 0 [] files) [
      | loaded slice ↦
          load_slices draw slice_size slice_count last_start files n (i + 1) (done ++ (slice ∷ []))
      | unopened ↦ not_loaded unopened
      | unread ↦ not_loaded unread
      | never_happens ↦ not_loaded never_happens
    ]

-- `CreateSliceGenerator` from the sum of the sizes on.
unfoldable pub create_slice_generator : (ℕ → ℕ → ℕ) → ℕ → ℕ → List File → Creation
create_slice_generator draw slice_size slice_count files =
    if ltb (total_bytes files) slice_size
    then too_short
    else load_slices draw slice_size slice_count (total_bytes files - slice_size) files slice_count
        0 []

-- What filling a buffer comes to; `endless` is that the rounds that are allowed are used up.
pub data Filling : Type 0 where
  filled : List ℕ → Filling
  crashed endless : Filling

-- `copy(buffer[pos:], src)`; `none` is a panic.
unfoldable pub copy_at : ℕ → List ℕ → List ℕ → Option (List ℕ)
copy_at pos src buf =
    if leb pos (length buf)
    then some (take pos buf ++ (take (length buf - pos) src ++ drop (pos + length src) buf))
    else none

-- What a check of an object comes to.
pub data Check : Type 0 where
  passed another_size mismatched fault loops : Check

-- `bytes.Compare(a, b) == 0`
unfoldable pub same_bytes : List ℕ → List ℕ → Bool
same_bytes [] [] = true
same_bytes [] (y ∷ ys) = false
same_bytes (x ∷ xs) [] = false
same_bytes (x ∷ xs) (y ∷ ys) = let rest = same_bytes xs ys in x == y && rest

module _ (sg : SliceGenerator) (pick : ℕ → ℕ → ℕ → ℕ) where
  -- The slice of the round `k` for a seed: `pick seed k m` is the draw `k` of Int63n(m) from a
  -- source with the seed. `none` is a panic.
  unfoldable pub picked : ℕ → ℕ → Option (List ℕ)
  picked seed k =
      if sg.slice_count == 0 then none else get_elem? sg.slices (pick seed k sg.slice_count)

  -- The loop of `generateFromSeed`, with at most `n` rounds left.
  unfoldable pub copy_slices : ℕ → ℕ → ℕ → ℕ → ℕ → List ℕ → Filling
  copy_slices zero size seed k start buf = if ltb start size then endless else filled buf
  copy_slices (suc n) size seed k start buf =
      if ltb start size
      then elim (picked seed k) [
        | none ↦ crashed
        | some slice ↦ elim (copy_at start slice buf) [
          | none ↦ crashed
          | some buf' ↦ copy_slices n size seed (k + 1) (u64 (start + sg.slice_size)) buf'
        ]
      ]
      else filled buf

  -- `generateFromSeed`. A round for each byte is enough, where slices are not empty.
  unfoldable pub generate_from_seed : ℕ → ℕ → List ℕ → Filling
  generate_from_seed size seed buf = elim (write_at 0 (le_bytes 4 seed) buf) [
    | none ↦ crashed
    | some buf' ↦ copy_slices size size seed 0 4 buf'
  ]

  -- `Generate`, with the number that the source draws for a seed, as a uint32.
  unfoldable pub generate_object : ℕ → ℕ → List ℕ → Filling
  generate_object size drawn buf = generate_from_seed size (drawn % 2 ^ 32) buf

  -- `Verify`
  unfoldable pub verify_object : ℕ → List ℕ → List ℕ → Check
  verify_object size buffer scratch =
      if length buffer == size
      then elim (read_at 0 4 buffer) [
        | none ↦ fault
        | some seed ↦ elim (generate_from_seed size seed scratch) [
          | crashed ↦ fault
          | endless ↦ loops
          | filled expected ↦ if same_bytes buffer expected then passed else mismatched
        ]
      ]
      else another_size
