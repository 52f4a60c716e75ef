-- ===== src/Foreman/Rendezvous/Orderly.antt =====
-- What the foreman has to wait for is in an order in which the go-routine is ended last.
use sibench.Base.{◌≡◌, refl, if◌then◌else◌, Option, none, some, List, [], ◌∷◌, Bool-cases, inl, inr}
use sibench.Base.{Bool, ◌≢◌, ◌++◌}
use sibench.Messages.{Opcode}
use sibench.Foreman.Handlers.{is_bad}
use sibench.Foreman.States.{
  ForemanState, valid_tcp_transition, valid_worker_transition, clear_timeouts as clears_timeouts,
}
use sibench.Foreman.Rendezvous.{
  Control, ask, end_stats, Chore, exchange, collect, exit_process, Place, selecting, finished,
  reporting, replying, Rendezvous, state_chores, chores_of, valid_chores, acknowledged,
  response_chores, close_chores, terminate_chores,
}

-- The go-routine is ended last.
abbrev pub IsOrderly : List Chore → Type 0
IsOrderly [] = Unit
IsOrderly (collect ∷ cs) = IsOrderly cs
IsOrderly (exit_process ∷ cs) = ⊥
IsOrderly (exchange (ask c) ∷ cs) = IsOrderly cs
IsOrderly (exchange end_stats ∷ cs) = cs ≡ []

abbrev Follows : Control → List Chore → Type 0
Follows (ask c) cs = IsOrderly cs
Follows end_stats cs = cs ≡ []

abbrev pub IsSafe : List Chore → Option Control → Place → Type 0
IsSafe cs none selecting = IsOrderly cs
IsSafe cs none (reporting []) = IsOrderly cs
IsSafe cs none (reporting (h ∷ hs)) = ⊥
IsSafe cs none finished = cs ≡ []
IsSafe cs none (replying d) = ⊥
IsSafe cs (some c) (replying d) = (d ≡ c) × Follows c cs
IsSafe cs (some c) selecting = ⊥
IsSafe cs (some c) finished = ⊥
IsSafe cs (some c) (reporting rs) = ⊥

abbrev pub Keeps : Option Rendezvous → Type 0
Keeps none = Unit
Keeps (some r) = IsSafe r.chores r.awaited r.place

state_chores-IsOrderly : (state : ForemanState) → IsOrderly (state_chores state)
state_chores-IsOrderly state = elim (Bool-cases (clears_timeouts state)) [
  | inl clears ↦ rw (clears, if◌then◌else◌) tt
  | inr keeps ↦ rw (keeps, if◌then◌else◌) tt
]

terminate_chores-IsOrderly : IsOrderly terminate_chores
unfolding clears_timeouts
terminate_chores-IsOrderly = refl

valid_chores-IsOrderly : (op : Opcode) (state : ForemanState) → IsOrderly (valid_chores op state)
unfolding valid_chores
valid_chores-IsOrderly Opcode.discovery state = tt
valid_chores-IsOrderly Opcode.connect state = tt
valid_chores-IsOrderly Opcode.stat_details state = tt
valid_chores-IsOrderly Opcode.stat_summary_start state = tt
valid_chores-IsOrderly Opcode.stat_summary_stop state = tt
valid_chores-IsOrderly Opcode.terminate state = terminate_chores-IsOrderly
valid_chores-IsOrderly Opcode.no_op state =
    state_chores-IsOrderly (valid_tcp_transition Opcode.no_op state)
valid_chores-IsOrderly Opcode.fail state =
    state_chores-IsOrderly (valid_tcp_transition Opcode.fail state)
valid_chores-IsOrderly Opcode.hung state =
    state_chores-IsOrderly (valid_tcp_transition Opcode.hung state)
valid_chores-IsOrderly Opcode.stat_summary state =
    state_chores-IsOrderly (valid_tcp_transition Opcode.stat_summary state)
valid_chores-IsOrderly Opcode.busy state =
    state_chores-IsOrderly (valid_tcp_transition Opcode.busy state)
valid_chores-IsOrderly Opcode.stat_details_done state =
    state_chores-IsOrderly (valid_tcp_transition Opcode.stat_details_done state)
valid_chores-IsOrderly Opcode.write_start state =
    state_chores-IsOrderly (valid_tcp_transition Opcode.write_start state)
valid_chores-IsOrderly Opcode.write_stop state =
    state_chores-IsOrderly (valid_tcp_transition Opcode.write_stop state)
valid_chores-IsOrderly Opcode.prepare state =
    state_chores-IsOrderly (valid_tcp_transition Opcode.prepare state)
valid_chores-IsOrderly Opcode.read_start state =
    state_chores-IsOrderly (valid_tcp_transition Opcode.read_start state)
valid_chores-IsOrderly Opcode.read_stop state =
    state_chores-IsOrderly (valid_tcp_transition Opcode.read_stop state)
valid_chores-IsOrderly Opcode.read_write_start state =
    state_chores-IsOrderly (valid_tcp_transition Opcode.read_write_start state)
valid_chores-IsOrderly Opcode.read_write_stop state =
    state_chores-IsOrderly (valid_tcp_transition Opcode.read_write_stop state)
valid_chores-IsOrderly Opcode.delete state =
    state_chores-IsOrderly (valid_tcp_transition Opcode.delete state)

pub chores_of-IsOrderly : (op : Opcode) (state : ForemanState) → IsOrderly (chores_of op state)
unfolding chores_of
chores_of-IsOrderly op state = elim (Bool-cases (is_bad (valid_tcp_transition op state))) [
  | inl bad ↦ rw (bad, if◌then◌else◌) terminate_chores-IsOrderly
  | inr valid ↦ rw (valid, if◌then◌else◌) (valid_chores-IsOrderly op state)
]

acknowledged-IsOrderly :
    (op : Opcode) (state : ForemanState) (last : Bool) → IsOrderly (acknowledged op state last)
unfolding acknowledged
acknowledged-IsOrderly op state last =
    elim (Bool-cases (is_bad (valid_worker_transition op state))) [
      | inl bad ↦ rw (bad, if◌then◌else◌) terminate_chores-IsOrderly
      | inr valid ↦
          rw (valid, if◌then◌else◌)
            (elim (Bool-cases last) [
              | inl all ↦
                  rw (all, if◌then◌else◌)
                    (state_chores-IsOrderly (valid_worker_transition op state))
              | inr fewer ↦ rw (fewer, if◌then◌else◌) tt
            ])
    ]

pub response_chores-IsOrderly :
    (op : Opcode) (state : ForemanState) (last : Bool)
    → op ≢ Opcode.hung
    → IsOrderly (response_chores op state last)
unfolding response_chores
response_chores-IsOrderly Opcode.fail state last h = terminate_chores-IsOrderly
response_chores-IsOrderly Opcode.hung state last h = absurd (h refl)
response_chores-IsOrderly op state last h = acknowledged-IsOrderly _ state last

pub close_chores-IsOrderly : (state : ForemanState) → IsOrderly (close_chores state)
unfolding close_chores
close_chores-IsOrderly ForemanState.idle = tt
close_chores-IsOrderly _ = terminate_chores-IsOrderly

pub profile_fails-IsOrderly :
    (state : ForemanState) → IsOrderly (state_chores state ++ terminate_chores)
profile_fails-IsOrderly state = elim (Bool-cases (clears_timeouts state)) [
  | inl clears ↦ rw (clears, if◌then◌else◌) terminate_chores-IsOrderly
  | inr keeps ↦ rw (keeps, if◌then◌else◌) terminate_chores-IsOrderly
]
