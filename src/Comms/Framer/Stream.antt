-- ===== src/Comms/Framer/Stream.antt =====
-- The four bytes of a frame's header give the length back (src/comms/prelen_framer.go).
use sibench.Base.{ℕ, ◌+◌, ◌*◌, ◌/◌, ◌%◌, ◌^◌, ◌<◌, ◌≡◌, arith}
use sibench.Base.Bits.Laws.{bit_or_disjoint, bit_and_byte}
use sibench.Comms.Framer.{length_of}
use Prim.Native.Nat.{bit_and}

-- The four bytes of a length are read back as that length.
pub length_of-header :
    (n : ℕ)
    → n < 2 ^ 32
    → length_of
        (bit_and n 0xff)
        (bit_and (n / 2 ^ 8) 0xff)
        (bit_and (n / 2 ^ 16) 0xff)
        (bit_and (n / 2 ^ 24) 0xff)
      ≡ n
unfolding length_of
length_of-header n h =
    let b0 = n % 256 in
    let b1 = n / 2 ^ 8 % 256 in
    let b2 = n / 2 ^ 16 % 256 in
    let b3 = n / 2 ^ 24 % 256 in
    rw
      (
        bit_and_byte n,
        bit_and_byte (n / 2 ^ 8),
        bit_and_byte (n / 2 ^ 16),
        bit_and_byte (n / 2 ^ 24),
      )
      (rw (bit_or_disjoint 8 b0 b1 (omega arith)) (
        rw (bit_or_disjoint 16 (b0 + b1 * 2 ^ 8) b2 (omega arith))
          (rw (bit_or_disjoint 24 (b0 + b1 * 2 ^ 8 + b2 * 2 ^ 16) b3 (omega arith)) (omega arith))))
