-- ===== src/Generator/Prng/Verify.antt =====
-- What the PRNG generator's `Verify` accepts.
use sibench.Base.{
  ℕ, ◌+◌, ◌-◌, ◌/◌, ◌%◌, ◌<◌, ◌≤◌, ◌≡◌, ◌≢◌, ◌↔◌, refl, ap, sym, ◌∙◌, arith, if◌then◌else◌,
}
use sibench.Base.{some, List, [], ◌∷◌, ◌++◌, length, append_assoc, replicate, All}
use sibench.Base.{length-append, ==_self, ==_iff}
use sibench.Base.Bits.{u64_mod, IsByte}
use sibench.Generator.Bytes.{
  le_bytes, from_le, length-le_bytes, from_le-le_bytes, read_at, read_at-append, read_at-some,
}
use sibench.Generator.Prng.{first_word, generate, verify, compare_from, accepted, ◌>>=◌}
use sibench.Generator.Prng.Content.{words, content, length-content, generate_lem}

-- The loop over the bytes accepts equal objects and no others of the same length.
compare_from-accepted :
    (i : ℕ) (xs ys : List ℕ) → length xs ≡ length ys → compare_from i xs ys ≡ accepted → xs ≡ ys
unfolding compare_from
compare_from-accepted i [] [] l e = refl
compare_from-accepted i [] (y ∷ ys) l e = absurd (omega arith)
compare_from-accepted i (x ∷ xs) [] l e = absurd (omega arith)
compare_from-accepted i (x ∷ xs) (y ∷ ys) l e = ground (arith, compare_from-accepted (i + 1) xs ys)

compare_from_self : (i : ℕ) (xs : List ℕ) → compare_from i xs xs ≡ accepted
unfolding compare_from
compare_from_self i [] = refl
compare_from_self i (x ∷ xs) = rw (==_self x) (compare_from_self (i + 1) xs)

abbrev after_cycle : ℕ → ℕ → ℕ → ℕ → List ℕ
after_cycle seed size id cycle =
    le_bytes 8 seed
    ++ (le_bytes 8 id
        ++ (words ((size - 32) / 8) (first_word seed size id cycle)
            ++ replicate ((size - 32) % 8) 0))

content_split :
    (seed size id cycle : ℕ)
    → content seed size id cycle
      ≡ le_bytes 8 size ++ (le_bytes 8 cycle ++ after_cycle seed size id cycle)
content_split seed size id cycle = simp append_assoc

-- The cycle is read back from the object.
read_cycle :
    (seed size id cycle : ℕ)
    → cycle < u64_mod
    → read_at 8 8 (content seed size id cycle) ≡ some cycle
read_cycle seed size id cycle h =
    let p = le_bytes 8 size in
    let c = le_bytes 8 cycle in
    let read : read_at (length p) (length c) (p ++ (c ++ after_cycle seed size id cycle))
        ≡ some (from_le c) =
      read_at-append p c (after_cycle seed size id cycle) in
    let short : read_at 8 8 (p ++ (c ++ after_cycle seed size id cycle)) ≡ some (from_le c) =
      rw (length-le_bytes 8 size, length-le_bytes 8 cycle) at read in
    rw (content_split seed size id cycle) (short ∙ rw (from_le-le_bytes 8 cycle (omega arith)))

accepted_size :
    (seed size id : ℕ) (buffer scratch : List ℕ)
    → verify seed size id buffer scratch ≡ accepted
    → length buffer ≡ size
unfolding verify
accepted_size seed size id buffer scratch v = ground arith

length-prefix :
    (seed size cycle : ℕ) → length ((le_bytes 8 size ++ le_bytes 8 cycle) ++ le_bytes 8 seed) ≡ 24
length-prefix seed size cycle = omega (
  arith,
  length-append (le_bytes 8 size ++ le_bytes 8 cycle) (le_bytes 8 seed),
  length-append (le_bytes 8 size) (le_bytes 8 cycle),
  length-le_bytes 8 size,
  length-le_bytes 8 cycle,
  length-le_bytes 8 seed,
)

-- The ID stands in the header.
read_id :
    (seed size id cycle : ℕ) → id < u64_mod → read_at 24 8 (content seed size id cycle) ≡ some id
read_id seed size id cycle h =
    let p = (le_bytes 8 size ++ le_bytes 8 cycle) ++ le_bytes 8 seed in
    let b = le_bytes 8 id in
    let r =
      words ((size - 32) / 8) (first_word seed size id cycle) ++ replicate ((size - 32) % 8) 0 in
    let len : length p ≡ 24 = length-prefix seed size cycle in
    let read : read_at (length p) (length b) (p ++ (b ++ r)) ≡ some (from_le b) =
      read_at-append p b r in
    let short : read_at 24 8 (p ++ (b ++ r)) ≡ some (from_le b) =
      rw (len, length-le_bytes 8 id) at read in
    let split : content seed size id cycle ≡ p ++ (b ++ r) = simp append_assoc in
    rw split (short ∙ rw (from_le-le_bytes 8 id (omega arith)))

id_injective :
    (seed size id other cycle : ℕ)
    → id < u64_mod
    → other < u64_mod
    → content seed size id cycle ≡ content seed size other cycle
    → id ≡ other
id_injective seed size id other cycle i o e =
    cc (read_id seed size id cycle i, read_id seed size other cycle o, ap (read_at 24 8) e)

verify_compares :
    (seed size id cycle : ℕ) (buffer scratch : List ℕ)
    → 32 ≤ size
    → size < u64_mod
    → length scratch ≡ size
    → length buffer ≡ size
    → read_at 8 8 buffer ≡ some cycle
    → verify seed size id buffer scratch ≡ compare_from 0 buffer (content seed size id cycle)
unfolding verify
verify_compares seed size id cycle buffer scratch h k e l found =
    rw ((==_iff (length buffer) size).1 l, if◌then◌else◌)
      (rw (found, ◌>>=◌) (rw (generate_lem seed size id cycle scratch e h k)))

-- `Verify` accepts an object of the right size exactly if `Generate` makes it, for the same seed,
-- size and ID and some cycle, whatever was in the scratch buffer.
pub verify_iff :
    (seed size id : ℕ) (buffer scratch : List ℕ)
    → 32 ≤ size
    → size < u64_mod
    → length scratch ≡ size
    → All IsByte buffer
    → (verify seed size id buffer scratch ≡ accepted)
      ↔ ((cycle : ℕ) × (cycle < u64_mod) × (buffer ≡ content seed size id cycle))
verify_iff seed size id buffer scratch h k e b = (
  λ v.
      let l : length buffer ≡ size = accepted_size seed size id buffer scratch v in
      let (cycle, found, small) = read_at-some 8 8 buffer b (omega arith) in
      (
        cycle,
        omega arith,
        compare_from-accepted 0 buffer (content seed size id cycle)
            (l ∙ sym (length-content seed size id cycle h))
            (sym (verify_compares seed size id cycle buffer scratch h k e l found) ∙ v),
      ),
  λ v.
      let (cycle, small, same) = v in
      verify_compares seed size id cycle buffer scratch h k e
        (ap length same ∙ length-content seed size id cycle h)
        (rw same (read_cycle seed size id cycle small))
      ∙ rw same (compare_from_self 0 (content seed size id cycle)),
)

-- What `Generate` writes, `Verify` accepts: whatever the cycle, and whatever was in the two
-- buffers before.
pub verify-generate :
    (seed size id cycle : ℕ) (buf scratch : List ℕ)
    → 32 ≤ size
    → size < u64_mod
    → cycle < u64_mod
    → length buf ≡ size
    → length scratch ≡ size
    → (obj : List ℕ) × (generate seed size id cycle buf ≡ some obj)
      × (verify seed size id obj scratch ≡ accepted)
verify-generate seed size id cycle buf scratch h k c l e = (
  content seed size id cycle,
  generate_lem seed size id cycle buf l h k,
  verify_compares seed size id cycle (content seed size id cycle) scratch h k e
        (length-content seed size id cycle h) (read_cycle seed size id cycle c)
      ∙ compare_from_self 0 (content seed size id cycle),
)

-- The object of one ID is not accepted as that of another.
pub verify_other_id :
    (seed size id other cycle : ℕ) (scratch : List ℕ)
    → 32 ≤ size
    → size < u64_mod
    → cycle < u64_mod
    → id < u64_mod
    → other < u64_mod
    → id ≢ other
    → length scratch ≡ size
    → verify seed size other (content seed size id cycle) scratch ≢ accepted
verify_other_id seed size id other cycle scratch h k c i o n e v = n (
    id_injective seed size id other cycle i o (
      compare_from-accepted 0 (content seed size id cycle) (content seed size other cycle)
        (length-content seed size id cycle h ∙ sym (length-content seed size other cycle h))
        (sym (
            verify_compares seed size other cycle (content seed size id cycle) scratch h k e
              (length-content seed size id cycle h) (read_cycle seed size id cycle c))
          ∙ v)))
