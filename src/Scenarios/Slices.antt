-- ===== src/Scenarios/Slices.antt =====
-- The slice generator on two small files, with remainders in place of random numbers.
use sibench.Base.{ℕ, ◌+◌, ◌%◌, ◌<◌, ◌^◌, ◌↔◌, true, List, [], ◌∷◌, All, ◌≡◌, refl, arith}
use sibench.Base.Bits.{IsByte}
use native.Mathlib.Nat.{mod-lt}
use sibench.Generator.Slices.{
  SliceGenerator, File, loaded, created, load_from, create_slice_generator, filled,
  generate_from_seed, verify_object, passed,
}
use sibench.Generator.Slices.Content.{IsSliced}
use sibench.Generator.Slices.Load.{IsReadable, load_from_start}
use sibench.Generator.Slices.Create.{create_slice_generator-IsSliced, drawn}
use sibench.Generator.Slices.Verify.{verify_object_iff}

abbrev first_file : File
first_file = record { size = 3; opens = true; bytes = 10 ∷ 11 ∷ 12 ∷ []; ends = true }

abbrev second_file : File
second_file = record { size = 4; opens = true; bytes = 13 ∷ 14 ∷ 15 ∷ 16 ∷ []; ends = true }

abbrev two_files : List File
two_files = first_file ∷ second_file ∷ []

readable : All IsReadable two_files
readable = ((refl, refl, refl), ((refl, refl, refl), tt))

abbrev draw : ℕ → ℕ → ℕ
draw i m = i % m

abbrev pick : ℕ → ℕ → ℕ → ℕ
pick seed k m = (seed + k) % m

draw_lt : (i m : ℕ) → 0 < m → draw i m < m
draw_lt i m h = mod-lt i h

pick_lt : (seed k m : ℕ) → 0 < m → pick seed k m < m
pick_lt seed k m h = mod-lt (seed + k) h

abbrev three_slices : SliceGenerator
three_slices = record { slice_size = 3; slice_count = 3; slices = drawn draw 3 two_files 3 0 }

load_from_start_example : load_from 3 2 0 [] two_files ≡ loaded (12 ∷ 13 ∷ 14 ∷ [])
load_from_start_example =
    load_from_start 3 2 two_files readable (omega arith) (omega arith) (omega arith)

create_slice_generator-IsSliced_example :
    (create_slice_generator draw 3 3 two_files ≡ created three_slices) × IsSliced three_slices
create_slice_generator-IsSliced_example =
    create_slice_generator-IsSliced draw 3 two_files draw_lt readable (omega arith) (omega arith)
      (omega arith) 3 (omega arith)

three_slices-IsSliced : IsSliced three_slices
three_slices-IsSliced = record {
  size = omega arith;
  count = omega arith;
  full = refl;
  equal = (refl, (refl, (refl, tt)));
}

abbrev an_object : List ℕ
an_object = 5 ∷ 0 ∷ 0 ∷ 0 ∷ 12 ∷ 13 ∷ 14 ∷ 10 ∷ 11 ∷ []

small : All IsByte an_object
small = (
  omega arith,
  (
    omega arith,
    (
      omega arith,
      (omega arith, (omega arith, (omega arith, (omega arith, (omega arith, (omega arith, tt)))))),
    ),
  ),
)

abbrev a_buffer : List ℕ
a_buffer = 9 ∷ 9 ∷ 9 ∷ 9 ∷ 9 ∷ 9 ∷ 9 ∷ 9 ∷ 9 ∷ []

verify_object_iff_example : (verify_object three_slices pick 9 an_object a_buffer ≡ passed) ↔ (
    (seed : ℕ) × (seed < 2 ^ 32)
    × (generate_from_seed three_slices pick 9 seed a_buffer ≡ filled an_object))
verify_object_iff_example =
    verify_object_iff three_slices pick three_slices-IsSliced pick_lt 9 an_object a_buffer
      (omega arith) refl (omega arith) small
