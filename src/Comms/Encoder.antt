-- ===== src/Comms/Encoder.antt =====
-- The gob encoder (src/comms/gob_encoder.go): a message is a byte for its ID and then the data as
-- encoding/gob writes them. How gob writes and reads data is a parameter.
use sibench.Base.{ℕ, ◌%◌, Bool, false, Option, none, some, List, [], ◌∷◌}
use sibench.Comms.Framer.{Reading, Received, received, broken, out_of_fuel, send, receive}

-- `gob`: what `Encode` writes, with none for an error; and what `Decode` leaves in a variable.
pub record Codec {ℓ} (D : Type ℓ) : Type ℓ where
  pub encode : D → Option (List ℕ)
  pub decode : List ℕ → D → D

-- `gobReceivedMessage`
pub record Message : Type 0 where
  pub id : ℕ
  pub message_bytes : List ℕ

-- What `Receive` comes to; `crashed` is the panic of an index that is out of range.
pub data Incoming {ℓ} (C : Type ℓ) : Type ℓ where
  incoming : Message → C → Incoming C
  receive_failed crashed receive_endless : Incoming C

module _ {ℓ} {D : Type ℓ} (gob : Codec D) where
  open gob use {encode, decode}

  -- The packet of `Send`; data may be left out.
  unfoldable pub packet : ℕ → Option D → Option (List ℕ)
  packet message_id none = some (message_id % 256 ∷ [])
  packet message_id (some data_) = elim (encode data_) [
    | none ↦ none
    | some bs ↦ some (message_id % 256 ∷ bs)
  ]

  -- `Data`, into a variable that holds `old`.
  unfoldable pub data_of : Message → D → D
  data_of m old = decode m.message_bytes old

  module _ {κ} {C : Type κ} (read : C → ℕ → Reading C) (write : C → List ℕ → Bool × C) where
    -- `Send`, which says whether it succeeded.
    unfoldable pub send_message : ℕ → Option D → C → Bool × C
    send_message message_id content c = elim (packet message_id content) [
      | none ↦ (false, c)
      | some bs ↦ send read write c bs
    ]

module _ {κ} {C : Type κ} (read : C → ℕ → Reading C) (write : C → List ℕ → Bool × C) where
  unfoldable pub unpack : Received C → Incoming C
  unpack (received [] c) = crashed
  unpack (received (id ∷ bs) c) = incoming (record { id = id; message_bytes = bs }) c
  unpack broken = receive_failed
  unpack out_of_fuel = receive_endless

  -- `Receive`
  unfoldable pub receive_message : C → Incoming C
  receive_message c = unpack (receive read write c)
