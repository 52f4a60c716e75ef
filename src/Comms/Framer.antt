-- ===== src/Comms/Framer.antt =====
-- The pre-length framer (src/comms/prelen_framer.go): a header of four bytes with the length of
-- the message, least byte first, and then the message.
pub mod Stream
pub mod Queue
use sibench.Base.{ℕ, zero, suc, ◌+◌, ◌-◌, ◌*◌, ◌/◌, ◌%◌, ◌^◌, ◌==◌, leb, ltb, if◌then◌else◌}
use sibench.Base.{Bool, true, false, Option, none, some, List, [], ◌∷◌, ◌++◌, length, take, drop}
use Prim.Native.Nat.{bit_and, bit_or}

-- `uint8((messageLen >> k) & 0xFF)` for the four bytes.
unfoldable pub header_of : ℕ → List ℕ
header_of n =
    bit_and n 0xff
    ∷ bit_and (n / 2 ^ 8) 0xff
    ∷ bit_and (n / 2 ^ 16) 0xff
    ∷ bit_and (n / 2 ^ 24) 0xff
    ∷ []

-- `uint(h0) | (uint(h1) << 8) | (uint(h2) << 16) | (uint(h3) << 24)`
unfoldable pub length_of : ℕ → ℕ → ℕ → ℕ → ℕ
length_of h0 h1 h2 h3 = bit_or (bit_or (bit_or h0 (h1 * 2 ^ 8)) (h2 * 2 ^ 16)) (h3 * 2 ^ 24)

-- What `Read` into a buffer gives: bytes, which are put at the front of it, and the connection
-- after it; or an error.
pub data Reading {ℓ} (C : Type ℓ) : Type ℓ where
  bytes : List ℕ → C → Reading C
  failed : Reading C

pub data Received {ℓ} (C : Type ℓ) : Type ℓ where
  received : List ℕ → C → Received C
  broken : Received C
  out_of_fuel : Received C

-- `ByteConnection`, as far as the framer uses it: `read c n` is a call of `Read` with a buffer of
-- `n` bytes, and `write c bs` a call of `Write` that says whether it succeeded.
module _ {ℓ} {C : Type ℓ} (read : C → ℕ → Reading C) (write : C → List ℕ → Bool × C) where
  -- `Send`
  unfoldable pub send : C → List ℕ → Bool × C
  send c message =
      let (sent, c') = write c (header_of (length message)) in
      if sent then write c' message else (false, c')

  -- The loop of `receiveBytes`: `got` is the part of the buffer before `index`. A `Read` that
  -- gives no byte is tried again.
  unfoldable pub receive_loop : ℕ → ℕ → List ℕ → C → Received C
  receive_loop fuel zero got c = received got c
  receive_loop zero (suc remaining) got c = out_of_fuel
  receive_loop (suc fuel) (suc remaining) got c = elim (read c (suc remaining)) [
    | failed ↦ broken
    | bytes bs c' ↦ receive_loop fuel (suc remaining - length bs) (got ++ bs) c'
  ]

  -- A round reads a byte at least where the connection delivers one, so as many rounds as bytes
  -- are enough.
  unfoldable pub receive_bytes : ℕ → C → Received C
  receive_bytes count c = receive_loop count count [] c

  unfoldable pub receive_body : Received C → Received C
  receive_body (received (h0 ∷ h1 ∷ h2 ∷ h3 ∷ []) c) = receive_bytes (length_of h0 h1 h2 h3) c
  receive_body (received _ c) = broken
  receive_body broken = broken
  receive_body out_of_fuel = out_of_fuel

  -- `Receive`
  unfoldable pub receive : C → Received C
  receive c = receive_body (receive_bytes 4 c)
