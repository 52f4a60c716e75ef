-- ===== src/Generator/Bytes.antt =====
-- Byte buffers as lists of numbers below 256, and the little-endian functions of Go's
-- encoding/binary that the generators call: PutUint32, PutUint64, Uint32 and Uint64.
use sibench.Base.{
  ℕ, zero, suc, ◌+◌, ◌*◌, ◌/◌, ◌%◌, ◌^◌, ◌<◌, ◌≤◌, ◌≡◌, refl, ap, arith, leb, le→leb, if◌then◌else◌,
}
use sibench.Base.{Option, none, some, List, [], ◌∷◌, ◌++◌, length, take, drop, append_assoc, All}
use sibench.Base.{length-append, length-take, length-drop, take-append, drop-append}
use sibench.Base.Bits.{IsByte}
use mathlib.Core.Path.{subst}
use native.Mathlib.Nat.{pow-suc, zero-add, suc-add}

unfoldable pub le_bytes : ℕ → ℕ → List ℕ
le_bytes zero v = []
le_bytes (suc n) v = v % 256 ∷ le_bytes n (v / 256)

unfoldable pub from_le : List ℕ → ℕ
from_le [] = 0
from_le (b ∷ bs) = b + 256 * from_le bs

-- A write of `bs` at `pos`; `none` is the panic of a slice that is too short.
unfoldable pub write_at : ℕ → List ℕ → List ℕ → Option (List ℕ)
write_at pos bs buf =
    if leb (pos + length bs) (length buf)
    then some (take pos buf ++ (bs ++ drop (pos + length bs) buf))
    else none

-- A read of `n` bytes at `pos`.
unfoldable pub read_at : ℕ → ℕ → List ℕ → Option ℕ
read_at pos n buf =
    if leb (pos + n) (length buf) then some (from_le (take n (drop pos buf))) else none

pub length-le_bytes : (n v : ℕ) → length (le_bytes n v) ≡ n
unfolding le_bytes
length-le_bytes zero v = refl
length-le_bytes (suc n) v = ap suc (length-le_bytes n (v / 256))

pub from_le-le_bytes : (n v : ℕ) → v < 256 ^ n → from_le (le_bytes n v) ≡ v
unfolding le_bytes from_le
from_le-le_bytes zero v h = omega arith
from_le-le_bytes (suc n) v h =
    omega (arith, from_le-le_bytes n (v / 256) (omega (arith, pow-suc 256 n)))

pub drop_past : (p r bs : List ℕ) → drop (length p + length bs) (p ++ r) ≡ drop (length bs) r
drop_past [] r bs = rw zero-add
drop_past (x ∷ p) r bs = rw suc-add (drop_past p r bs)

-- A write just behind a prefix.
pub write_at-append :
    (p bs r : List ℕ)
    → length bs ≤ length r
    → write_at (length p) bs (p ++ r) ≡ some ((p ++ bs) ++ drop (length bs) r)
unfolding write_at
write_at-append p bs r h =
    rw (le→leb (length p + length bs) (length (p ++ r)) (omega (arith, length-append p r)))
      (rw (take-append p r, drop_past p r bs, append_assoc p bs (drop (length bs) r)))

pub read_at-append :
    (p bs r : List ℕ) → read_at (length p) (length bs) (p ++ (bs ++ r)) ≡ some (from_le bs)
unfolding read_at
read_at-append p bs r =
    rw
      (le→leb (length p + length bs) (length (p ++ (bs ++ r)))
        (omega (arith, length-append p (bs ++ r), length-append bs r)))
      (rw (drop-append p (bs ++ r), take-append bs r))

from_le-lt : (bs : List ℕ) → All IsByte bs → from_le bs < 256 ^ length bs
unfolding from_le
from_le-lt [] h = omega arith
from_le-lt (b ∷ bs) (hb, hbs) = omega (arith, from_le-lt bs hbs, pow-suc 256 (length bs))

All-take : (n : ℕ) (xs : List ℕ) → All IsByte xs → All IsByte (take n xs)
All-take zero xs h = tt
All-take (suc n) [] h = tt
All-take (suc n) (x ∷ xs) (hx, h) = (hx, All-take n xs h)

All-drop : (n : ℕ) (xs : List ℕ) → All IsByte xs → All IsByte (drop n xs)
All-drop zero xs h = h
All-drop (suc n) [] h = tt
All-drop (suc n) (x ∷ xs) (hx, h) = All-drop n xs h

-- A read in range gives a number of as many bytes.
pub read_at-some :
    (pos n : ℕ) (buf : List ℕ)
    → All IsByte buf
    → pos + n ≤ length buf
    → (v : ℕ) × (read_at pos n buf ≡ some v) × (v < 256 ^ n)
unfolding read_at
read_at-some pos n buf b h =
    let bytes = take n (drop pos buf) in
    let len : length bytes ≡ n = omega (arith, length-take n (drop pos buf), length-drop pos buf) in
    (
      from_le bytes,
      rw (le→leb (pos + n) (length buf) h),
      subst (λ k. from_le bytes < 256 ^ k) len
          (from_le-lt bytes (All-take n (drop pos buf) (All-drop pos buf b))),
    )
