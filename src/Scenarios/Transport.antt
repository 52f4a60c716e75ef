-- ===== src/Scenarios/Transport.antt =====
-- Messages over a connection that delivers one byte at a time, and a work order after another one.
use sibench.Base.{
  ℕ, ◌*◌, ◌/◌, ◌<◌, ◌^◌, ◌≡◌, refl, sym, ap, arith, true, Option, none, some, List, [], ◌∷◌, ◌++◌,
  length, map,
}
use sibench.Messages.{WorkOrder}
use sibench.Comms.Framer.{failed, send, header_of}
use sibench.Comms.Encoder.{Codec, Message, send_message, packet}
use sibench.Comms.Connection.{info, error_info, returned, process_receives}
use sibench.Comms.Connection.Delivered.{process_receives-transmit, Opens}
use sibench.Comms.Orders.{decode_order}
use sibench.Comms.Orders.Decoded.{make_workers-decode_order}
use sibench.Foreman.Connect.{make_workers}
use sibench.Foreman.Ranges.{total_bandwidth}
use sibench.Scenarios.Objects.{read_byte, write_all, read_byte_lem, write_all_lem}
use sibench.Scenarios.Orders.{order_of, whole_numbers, two_cpus}

-- Numbers as one byte.
abbrev bytes_of_number : Codec ℕ
bytes_of_number = record { encode = λ n. some (n ∷ []); decode = number_in }
  where
    number_in : List ℕ → ℕ → ℕ
    number_in [] old = old
    number_in (n ∷ bs) old = n

number_decodes :
    (d : ℕ) (bs : List ℕ) → bytes_of_number.encode d ≡ some bs → bytes_of_number.decode bs 0 ≡ d
number_decodes d bs e = ap first_of (sym e)
  where
    first_of : Option (List ℕ) → ℕ
    first_of none = 0
    first_of (some bs) = bytes_of_number.decode bs 0

number_small : (d : ℕ) (bs : List ℕ) → bytes_of_number.encode d ≡ some bs → length bs < 2 ^ 31
number_small d bs e = omega (arith, ap length_in e)
  where
    length_in : Option (List ℕ) → ℕ
    length_in none = 0
    length_in (some bs) = length bs

ends_empty : (c : List ℕ) (n : ℕ) → c ≡ [] → read_byte c n ≡ failed
ends_empty c n e = rw e refl

abbrev letters : List (ℕ × Option ℕ)
letters = (3, some 77) ∷ (4, none) ∷ []

process_receives-transmit_example :
    (ms : List Message) × (process_receives read_byte write_all 3
        (2 ∷ 0 ∷ 0 ∷ 0 ∷ 3 ∷ 77 ∷ 1 ∷ 0 ∷ 0 ∷ 0 ∷ 4 ∷ [])
      ≡ (map info ms ++ error_info ∷ [], returned))
    × Opens bytes_of_number 0 letters ms
unfolding send_message packet send header_of
process_receives-transmit_example =
    process_receives-transmit read_byte write_all (λ c. c) read_byte_lem write_all_lem ends_empty
      bytes_of_number 0 number_decodes number_small letters []
      (2 ∷ 0 ∷ 0 ∷ 0 ∷ 3 ∷ 77 ∷ 1 ∷ 0 ∷ 0 ∷ 0 ∷ 4 ∷ []) refl refl

abbrev unlimited : WorkOrder
unlimited = record (order_of 10 20) { bandwidth = 0 }

make_workers-decode_order_example :
    total_bandwidth
      (make_workers whole_numbers (two_cpus (λ j. true)) (decode_order unlimited (order_of 0 10)) 2)
    ≡ 2 * (1000 / 2)
make_workers-decode_order_example =
    make_workers-decode_order whole_numbers (two_cpus (λ j. true)) unlimited (order_of 0 10) 2
      (λ j. refl) refl
