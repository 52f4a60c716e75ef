-- ===== src/Foreman/Rendezvous.antt =====
-- The foreman and its statistics go-routine, which meet on channels without a buffer
-- (src/sibench/foreman.go): `statControlChannel`, `statResponseChannel` and, for hung workers,
-- `workerResponseChannel`. A send waits for its receiver. What the foreman sends to the workers, over
-- channels with room for ten opcodes each, is left out.
pub mod Deadlock
pub mod Orderly
pub mod Returns
use sibench.Base.{ℕ, if◌then◌else◌, Bool, true, false, Option, none, some, List, [], ◌∷◌, ◌++◌}
use sibench.Messages.{Opcode}
use sibench.Foreman.Handlers.{is_bad}
use sibench.Foreman.States.{
  ForemanState, valid_tcp_transition, valid_worker_transition, clear_timeouts as clears_timeouts,
}
use sibench.Foreman.Stats.{
  StatsLoop, WorkerSummary, Report, StatControl, send_details, start_summaries, stop_summaries,
  clear_timeouts, control, receive_summary, late, tick,
}

-- What goes over `statControlChannel`.
pub data Control : Type 0 where
  ask : StatControl → Control
  end_stats : Control

-- What the foreman's handlers wait for: `setStatControl`, or the exchange with SC_Terminate; and
-- the loop of `terminate`, which reads the responses of the workers; or the end of the process, after
-- which nothing moves.
pub data Chore : Type 0 where
  exchange : Control → Chore
  collect exit_process : Chore

-- Where `processStats` is: in its `select`; sending its reports of hung workers; before it confirms
-- a control; or ended.
pub data Place : Type 0 where
  selecting finished : Place
  reporting : List Report → Place
  replying : Control → Place

-- `chores` is what the foreman has still to wait for before it is back in its event loop;
-- `awaited` is the control whose confirmation it waits for now.
pub record Rendezvous : Type 0 where
  pub chores : List Chore
  pub awaited : Option Control
  pub place : Place
  pub loop : StatsLoop

-- `setState`
abbrev pub state_chores : ForemanState → List Chore
state_chores state = if clears_timeouts state then exchange (ask clear_timeouts) ∷ [] else []

-- `terminate`
abbrev pub terminate_chores : List Chore
terminate_chores =
    state_chores ForemanState.terminate
    ++ (collect ∷ exchange end_stats ∷ state_chores ForemanState.idle)

-- `hung`, after which the process exits.
abbrev pub hung_chores : List Chore
hung_chores = terminate_chores ++ (exit_process ∷ [])

-- The `switch` of `handleTcpMsg`. OP_Connect is valid only while the foreman is idle, when there is
-- no go-routine to meet.
unfoldable pub valid_chores : Opcode → ForemanState → List Chore
valid_chores Opcode.discovery state = []
valid_chores Opcode.connect state = []
valid_chores Opcode.stat_details state = exchange (ask send_details) ∷ []
valid_chores Opcode.stat_summary_start state = exchange (ask start_summaries) ∷ []
valid_chores Opcode.stat_summary_stop state = exchange (ask stop_summaries) ∷ []
valid_chores Opcode.terminate state = terminate_chores
valid_chores op state = state_chores (valid_tcp_transition op state)

-- `handleTcpMsg`, for a message without an error: an opcode that is not valid in the state fails,
-- and the work order is terminated.
unfoldable pub chores_of : Opcode → ForemanState → List Chore
chores_of op state =
    if is_bad (valid_tcp_transition op state) then terminate_chores else valid_chores op state

-- The default of the `switch` of `handleWorkerResponse`; `last` is for the last response awaited.
unfoldable pub acknowledged : Opcode → ForemanState → Bool → List Chore
acknowledged op state last =
    if is_bad (valid_worker_transition op state)
    then terminate_chores
    else if last
    then state_chores (valid_worker_transition op state)
    else []

-- `handleWorkerResponse`
unfoldable pub response_chores : Opcode → ForemanState → Bool → List Chore
response_chores Opcode.fail state last = terminate_chores
response_chores Opcode.hung state last = hung_chores
response_chores op state last = acknowledged op state last

-- `handleTcpConnectionClose`, for the foreman's own connection.
unfoldable pub close_chores : ForemanState → List Chore
close_chores ForemanState.idle = []
close_chores state = terminate_chores

-- A message of the manager comes in while the go-routine is alive; a response of a worker does; the
-- connection of the manager is closed; `setState` cannot create a profile's file and fails; the two
-- meet on a channel; a summary comes in; the ticker ticks; the loop of `terminate` ends, with the last
-- worker or with its timer.
pub data Move : Type 0 where
  message : Opcode → ForemanState → Move
  respond : Opcode → ForemanState → Bool → Move
  disconnect profile_fails : ForemanState → Move
  give : ℕ → Move
  confirm report report_end collected : Move
  summary_in : ℕ → WorkerSummary → Move
  tick_at : ℕ → Move

-- The reports of hung workers that a tick makes.
abbrev pub late_now : ℕ → StatsLoop → List Report
late_now now s = if s.send_summaries then late now s.hang_timeout 0 s.heartbeats else []

abbrev pub after_control : ℕ → Control → StatsLoop → StatsLoop
after_control now (ask c) s = control now c s
after_control now end_stats s = s

abbrev pub after_confirm : Control → Place
after_confirm (ask c) = selecting
after_confirm end_stats = finished

-- The foreman takes something up in its event loop, while the go-routine is alive.
abbrev pub take_up : List Chore → Rendezvous → Option Rendezvous
take_up todo r = elim r.chores [
  | c ∷ cs ↦ none
  | [] ↦ elim r.awaited [
    | some c ↦ none
    | none ↦ elim r.place [
      | finished ↦ none
      | selecting ↦ some (record r { chores = todo })
      | reporting rs ↦ some (record r { chores = todo })
      | replying d ↦ some (record r { chores = todo })
    ]
  ]
]

-- A move, or none where it cannot be made now.
unfoldable pub make_move : Move → Rendezvous → Option Rendezvous
make_move (message op state) r = take_up (chores_of op state) r
make_move (respond op state last) r = take_up (response_chores op state last) r
make_move (disconnect state) r = take_up (close_chores state) r
make_move (profile_fails state) r = take_up (state_chores state ++ terminate_chores) r
make_move (give now) r = elim r.awaited [
  | some c ↦ none
  | none ↦ elim r.chores [
    | [] ↦ none
    | chore ∷ cs ↦ elim chore [
      | collect ↦ none
      | exit_process ↦ none
      | exchange c ↦ elim r.place [
        | selecting ↦ some (record {
          chores = cs;
          awaited = some c;
          place = replying c;
          loop = after_control now c r.loop;
        })
        | finished ↦ none
        | reporting rs ↦ none
        | replying d ↦ none
      ]
    ]
  ]
]
make_move confirm r = elim r.awaited [
  | none ↦ none
  | some c ↦ elim r.place [
    | replying d ↦ some (record r { awaited = none; place = after_confirm d })
    | selecting ↦ none
    | finished ↦ none
    | reporting rs ↦ none
  ]
]
make_move report r = elim r.place [
  | reporting rs ↦ elim rs [
    | [] ↦ none
    | h ∷ hs ↦ elim r.awaited [
      | some c ↦ none
      | none ↦ elim r.chores [
        | [] ↦ some (record r { chores = hung_chores; place = reporting hs })
        | chore ∷ cs ↦ elim chore [
          | collect ↦ some (record r { place = reporting hs })
          | exchange c ↦ none
          | exit_process ↦ none
        ]
      ]
    ]
  ]
  | selecting ↦ none
  | finished ↦ none
  | replying d ↦ none
]
make_move report_end r = elim r.place [
  | reporting rs ↦ elim rs [ [] ↦ some (record r { place = selecting }) | h ∷ hs ↦ none ]
  | selecting ↦ none
  | finished ↦ none
  | replying d ↦ none
]
make_move collected r = elim r.chores [
  | [] ↦ none
  | chore ∷ cs ↦ elim chore [
    | collect ↦ elim r.awaited [ none ↦ some (record r { chores = cs }) | some c ↦ none ]
    | exchange c ↦ none
    | exit_process ↦ none
  ]
]
make_move (summary_in now m) r = elim r.place [
  | selecting ↦ elim (receive_summary now m r.loop) [
    | none ↦ none
    | some s ↦ some (record r { loop = s })
  ]
  | finished ↦ none
  | reporting rs ↦ none
  | replying d ↦ none
]
make_move (tick_at now) r = elim r.place [
  | selecting ↦ some (record r { place = reporting (late_now now r.loop); loop = tick now r.loop })
  | finished ↦ none
  | reporting rs ↦ none
  | replying d ↦ none
]

unfoldable pub moves : List Move → Rendezvous → Option Rendezvous
moves [] r = some r
moves (m ∷ ms) r = elim (make_move m r) [ none ↦ none | some r' ↦ moves ms r' ]
