-- ===== src/Foreman/Rendezvous/Returns.antt =====
-- How the foreman gets back to its event loop (src/sibench/foreman.go).
use sibench.Base.{◌≡◌, Option, none, some, List, [], ◌∷◌}
use sibench.Base.{◌≢◌}
use sibench.Messages.{Opcode}
use sibench.Foreman.Rendezvous.{
  Chore, exchange, collect, Rendezvous, Move, respond, exit_process, give, confirm, collected,
  tick_at, late_now, make_move,
}

-- The move is not a tick that finds a late worker, nor the response OP_Hung.
abbrev pub Calm : Move → Rendezvous → Type 0
Calm (respond op state last) r = op ≢ Opcode.hung
Calm (tick_at now) r = late_now now r.loop ≡ []
Calm _ r = Unit

-- The moves are made one after another, and none of them is a tick that finds a late worker or the
-- response OP_Hung.
abbrev pub IsCalm : List Move → Rendezvous → Type 0
IsCalm [] r = Unit
IsCalm (m ∷ ms) r = Calm m r × ((r' : Rendezvous) → make_move m r ≡ some r' → IsCalm ms r')

-- The moves with which the foreman gets back.
abbrev returning : List Chore → List Move
returning [] = []
returning (exchange c ∷ cs) = give 0 ∷ confirm ∷ returning cs
returning (collect ∷ cs) = collected ∷ returning cs
returning (exit_process ∷ cs) = []

-- The foreman is in its event loop.
abbrev pub IsBack : Option Rendezvous → Type 0
IsBack none = ⊥
IsBack (some r) = (r.chores ≡ []) × (r.awaited ≡ none)
