-- ===== src/Worker/Prepares.antt =====
-- The end of a worker's prepare phase (src/sibench/worker.go).
use sibench.Base.{suc, ◌<◌, ◌≡◌, refl, ◌⊎◌, some, List, [], ◌∷◌}
use sibench.Worker.Machine.{Worker, World}
use sibench.Worker.Events.{Trial, Round, idle, round, event_loop}

-- Rounds in which no opcode is at hand.
abbrev pub undisturbed : List (World × Trial) → List Round
undisturbed [] = []
undisturbed ((world, t) ∷ ts) = idle world t ∷ undisturbed ts

pub event_loop-round :
    (r : Round) (rs : List Round) (w w' : Worker)
    → round r w ≡ some w'
    → event_loop (r ∷ rs) w ≡ event_loop rs w'
unfolding event_loop
event_loop-round r rs w w' e = rw (e, event_loop) refl

-- What a round in the prepare phase does to the indices.
record Advanced (w w' : Worker) : Type 0 where
  state : w'.state ≡ w.state
  order : w'.order ≡ w.order
  on : (0 < w'.cycle) ⊎ ((w'.cycle ≡ w.cycle) × (w'.object_index ≡ suc w.object_index))
