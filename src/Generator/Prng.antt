-- ===== src/Generator/Prng.antt =====
-- The PRNG generator (src/sibench/prng_generator.go).
pub mod Content
pub mod Verify
use sibench.Base.{ℕ, zero, suc, ◌+◌, ◌-◌, ◌*◌, ◌/◌, ◌%◌, ◌^◌, ◌==◌, ltb, if◌then◌else◌, not}
use sibench.Base.{Bool, true, false, ◌&&◌, Option, none, some, List, [], ◌∷◌, length}
use sibench.Base.Bits.{u64, u64_mod, shr}
use sibench.Generator.Bytes.{le_bytes, write_at, read_at}
use Prim.Native.Nat.{bit_xor}

-- The cheap hash function: three shifts and exclusive ors on a uint64.
unfoldable pub prng : ℕ → ℕ
prng x =
    let a = bit_xor x (u64 (x * 2 ^ 13)) in
    let b = bit_xor a (shr a 7) in bit_xor b (u64 (b * 2 ^ 17))

-- The state from which the words of an object are made.
unfoldable pub first_word : ℕ → ℕ → ℕ → ℕ → ℕ
first_word seed size id cycle = prng (bit_xor (prng (bit_xor (prng (bit_xor seed size)) cycle)) id)

infixl 5 ◌>>=◌
abbrev pub ◌>>=◌ {ℓ κ} : {A : Type ℓ} {B : Type κ} → Option A → (A → Option B) → Option B
none >>= f = none
some a >>= f = f a

-- `binary.LittleEndian.PutUint64((*buf)[pos:], v)`
unfoldable pub put_uint64 : ℕ → ℕ → List ℕ → Option (List ℕ)
put_uint64 pos v buf = write_at pos (le_bytes 8 v) buf

-- The loop over the words, with `n` rounds left.
unfoldable pub put_words : ℕ → ℕ → ℕ → List ℕ → Option (List ℕ)
put_words zero pos next buf = some buf
put_words (suc n) pos next buf =
    put_uint64 pos next buf >>= λ buf. put_words n (pos + 8) (prng next) buf

-- The loop over the padding.
unfoldable pub put_zeroes : ℕ → ℕ → List ℕ → Option (List ℕ)
put_zeroes zero pos buf = some buf
put_zeroes (suc n) pos buf = write_at pos (0 ∷ []) buf >>= λ buf. put_zeroes n (pos + 1) buf

-- `size - 32` wraps. `none` is a panic.
unfoldable pub generate : ℕ → ℕ → ℕ → ℕ → List ℕ → Option (List ℕ)
generate seed size id cycle buf =
    let remaining = u64 (size + u64_mod - 32) in
    put_uint64 0 size buf
    >>= (λ buf. put_uint64 8 cycle buf)
    >>= (λ buf. put_uint64 16 seed buf)
    >>= (λ buf. put_uint64 24 id buf)
    >>= (λ buf. put_words (remaining / 8) 32 (first_word seed size id cycle) buf)
    >>= (λ buf. put_zeroes (remaining % 8) (32 + 8 * (remaining / 8)) buf)

pub data Verdict : Type 0 where
  accepted wrong_size panicked : Verdict
  mismatch : ℕ → Verdict

-- The loop that looks for the first byte that differs, from the position `i` on.
unfoldable pub compare_from : ℕ → List ℕ → List ℕ → Verdict
compare_from i [] ys = accepted
compare_from i (x ∷ xs) [] = panicked
compare_from i (x ∷ xs) (y ∷ ys) =
    let rest = compare_from (i + 1) xs ys in if x == y then rest else mismatch i

-- `Verify` reads the cycle from the object, and makes the object anew in `scratch`.
unfoldable pub verify : ℕ → ℕ → ℕ → List ℕ → List ℕ → Verdict
verify seed size id buffer scratch =
    if length buffer == size
    then elim (read_at 8 8 buffer >>= λ cycle. generate seed size id cycle scratch) [
      | none ↦ panicked
      | some expected ↦ compare_from 0 buffer expected
    ]
    else wrong_size
