-- ===== src/Scenarios/Objects.antt =====
-- Objects of 32 bytes, and a connection that delivers one byte at a time.
use sibench.Base.{
  ℕ, ◌<◌, ◌≡◌, ◌↔◌, refl, sym, ap, arith, Bool, true, List, [], ◌∷◌, ◌++◌, length, replicate, All,
}
use sibench.Base.Bits.{IsByte, u64_mod}
use sibench.Generator.Prng.{verify, accepted}
use sibench.Generator.Prng.Content.{content}
use sibench.Generator.Prng.Verify.{verify_iff}
use sibench.Comms.Framer.{Reading, bytes, failed, received, header_of, send, receive}
use sibench.Comms.Framer.Queue.{framed, Delivery, receive-send}

abbrev blank_object : List ℕ
blank_object = replicate 32 0

-- A connection is what is pending on it.
abbrev pub read_byte : List ℕ → ℕ → Reading (List ℕ)
read_byte [] n = failed
read_byte (b ∷ bs) n = bytes (b ∷ []) bs

abbrev pub write_all : List ℕ → List ℕ → Bool × List ℕ
write_all c bs = (true, c ++ bs)

pub read_byte_lem : (c : List ℕ) (n : ℕ) → 0 < n → 0 < length c → Delivery read_byte (λ c. c) c n
read_byte_lem [] n h k = absurd (omega arith)
read_byte_lem (b ∷ bs) n h k = record {
  some_bytes = b ∷ [];
  after = bs;
  reads = refl;
  progress = omega arith;
  fits = h;
  in_order = refl;
}

pub write_all_lem : (c c' : List ℕ) (bs : List ℕ) → write_all c bs ≡ (true, c') → c' ≡ c ++ bs
write_all_lem c c' bs e = sym (ap (λ r. r.1) e)

abbrev hello : List ℕ
hello = 104 ∷ 105 ∷ []

receive-send_example :
    (c'' : List ℕ) × (receive read_byte write_all
        (2 ∷ 0 ∷ 0 ∷ 0 ∷ 104 ∷ 105 ∷ 3 ∷ 0 ∷ 0 ∷ 0 ∷ 1 ∷ 2 ∷ 3 ∷ [])
      ≡ received hello c'')
    × (c'' ≡ framed ([] ++ (1 ∷ 2 ∷ 3 ∷ []) ∷ []))
unfolding framed send header_of
receive-send_example =
    receive-send read_byte write_all (λ c. c) read_byte_lem write_all_lem
      (2 ∷ 0 ∷ 0 ∷ 0 ∷ 104 ∷ 105 ∷ []) (2 ∷ 0 ∷ 0 ∷ 0 ∷ 104 ∷ 105 ∷ 3 ∷ 0 ∷ 0 ∷ 0 ∷ 1 ∷ 2 ∷ 3 ∷ [])
      hello [] (1 ∷ 2 ∷ 3 ∷ []) (omega arith) refl refl

abbrev an_object : List ℕ
an_object =
    32 ∷ 0 ∷ 0 ∷ 0 ∷ 0 ∷ 0 ∷ 0 ∷ 0 ∷ 2 ∷ 0 ∷ 0 ∷ 0 ∷ 0 ∷ 0 ∷ 0 ∷ 0 ∷ 7 ∷ 0 ∷ 0 ∷ 0 ∷ 0 ∷ 0 ∷ 0 ∷ 0
    ∷ 5 ∷ 0 ∷ 0 ∷ 0 ∷ 0 ∷ 0 ∷ 0 ∷ 0 ∷ []

an_object_bytes : All IsByte an_object
an_object_bytes = ground arith

verify_iff_example :
    (verify 7 32 5 an_object blank_object ≡ accepted)
    ↔ ((cycle : ℕ) × (cycle < u64_mod) × (an_object ≡ content 7 32 5 cycle))
verify_iff_example =
    verify_iff 7 32 5 an_object blank_object (omega arith) (omega arith) refl an_object_bytes
