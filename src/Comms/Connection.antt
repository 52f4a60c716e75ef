-- ===== src/Comms/Connection.antt =====
-- A message connection over TCP (src/comms/tcp_connection.go): its go-routine that receives
-- messages and passes them on over a channel.
pub mod Delivered
use sibench.Base.{ℕ, zero, suc, Bool, true, false, List, [], ◌∷◌}
use sibench.Comms.Framer.{Reading}
use sibench.Comms.Encoder.{
  Message, Incoming, incoming, receive_failed, crashed, receive_endless, receive_message,
}

-- `ReceivedMessageInfo`: a message, or an error. Which error it is decides only if the go-routine
-- closes the connection that has failed.
pub data Info : Type 0 where
  info : Message → Info
  error_info : Info

-- What some rounds of `processReceives` put on the channel, oldest first, and where they end: in
-- the next round, with a return, with a panic, or in a `Read` that never gives a byte.
pub data Ending : Type 0 where
  running returned panicked starved : Ending

module _ {ℓ} {C : Type ℓ} (read : C → ℕ → Reading C) (write : C → List ℕ → Bool × C) where
  unfoldable pub process_receives : ℕ → C → List Info × Ending
  process_receives zero c = ([], running)
  process_receives (suc n) c = elim (receive_message read write c) [
    | incoming m c' ↦ let rest = process_receives n c' in (info m ∷ rest.0, rest.1)
    | receive_failed ↦ (error_info ∷ [], returned)
    | crashed ↦ ([], panicked)
    | receive_endless ↦ ([], starved)
  ]
