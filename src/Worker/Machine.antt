-- ===== src/Worker/Machine.antt =====
-- The record of a worker and its state changes (src/sibench/worker.go): `NewWorker`, `setState`,
-- `fail`, `onConnect`, `onDelete`, `handleOpcode`, `sendResponse` and `sendSummary`.
use sibench.Base.{ℕ, ◌+◌, ◌-◌, ltb, if◌then◌else◌}
use sibench.Base.{Bool, true, false, ◌||◌, none, some, List, [], ◌∷◌, ◌++◌}
use sibench.Messages.{Opcode, WorkOrder}
use sibench.Messages.Summary.{StatSummary, zeroed}
use sibench.Worker.States.{
  WorkerState, is_start_of_phase, can_timeout_in, opcode_on_entry, valid_transition,
}
use sibench.Worker.Store.{Store, new_store}
use sibench.Worker.Bandwidth.{Pace}

-- What a worker sends to its foreman. A response carries the error, if there is one.
pub data WorkerSent : Type 0 where
  response : Opcode → Bool → WorkerSent
  summary : StatSummary → Bool → WorkerSent

-- The calls of the methods of its connections: PutObject with the object's ID and the cycle that
-- its content is made from, GetObject, DeleteObject, InvalidateCache, and the connection's index.
pub data Action : Type 0 where
  put : ℕ → ℕ → ℕ → Action
  get : ℕ → ℕ → Action
  remove : ℕ → ℕ → Action
  invalidate_caches : Action

-- `connections` is the length of the field of that name; a connection is named by its index.
-- `counts` and `can_timeout` are those of the field `summary`.
pub record Worker : Type 0 where
  pub order : WorkOrder
  pub state : WorkerState
  pub cycle : ℕ
  pub object_index : ℕ
  pub connections : ℕ
  pub conn_index : ℕ
  pub phase_start : ℕ
  pub last_summary : ℕ
  pub counts : StatSummary
  pub can_timeout : Bool
  pub store : Store
  pub pace : Pace
  pub sent : List WorkerSent
  pub actions : List Action

-- `now` is what `time.Now` gives while a handler changes the state; `connects` says of each target
-- whether the connection to it is made.
pub record World : Type 0 where
  pub now : ℕ
  pub connects : List Bool

unfoldable pub send_response : Opcode → Bool → Worker → Worker
send_response op failed w = record w { sent = w.sent ++ (response op failed ∷ []) }

-- The summary goes out if it is forced or 250 ms have passed.
unfoldable pub send_summary : ℕ → Bool → Worker → Worker
send_summary t force w =
    if force || ltb 250_000_000 (t - w.last_summary)
    then record w {
      last_summary = t;
      sent = w.sent ++ (summary w.counts w.can_timeout ∷ []);
      counts = zeroed;
    }
    else w

unfoldable pub fail : Worker → Worker
fail w = send_response Opcode.fail true (record w { state = WorkerState.terminated })

unfoldable pub respond_on_entry : WorkerState → Worker → Worker
respond_on_entry s w = elim (opcode_on_entry s) [ none ↦ w | some op ↦ send_response op false w ]

unfoldable pub start_phase : ℕ → WorkerState → Worker → Worker
start_phase now s w =
    if is_start_of_phase s
    then record w {
      pace = record {
        phase_first_op = true;
        last_op_start = w.pace.last_op_start;
        avg_elapsed = w.pace.avg_elapsed;
        post_delay = w.pace.post_delay;
      };
      phase_start = now;
      last_summary = now;
      counts = zeroed;
    }
    else w

abbrev same : Bool → Bool → Bool
same true true = true
same false false = true
same _ _ = false

unfoldable pub watch : ℕ → WorkerState → Worker → Worker
watch now s w =
    if same w.can_timeout (can_timeout_in s)
    then w
    else send_summary now true (record w { can_timeout = can_timeout_in s })

-- `setState`, with the function that is called on entry.
unfoldable pub set_state_with : (Worker → Worker) → ℕ → WorkerState → Worker → Worker
set_state_with on_entry now s w =
    watch now s (start_phase now s (on_entry (respond_on_entry s (record w { state = s }))))

-- The loop of `onConnect`. WS_ConnectDone has no function to call on entry.
unfoldable pub connect_targets : ℕ → List Bool → Worker → Worker
connect_targets now [] w = set_state_with (λ w. w) now WorkerState.connect_done w
connect_targets now (connected ∷ rest) w =
    let others = connect_targets now rest (record w { connections = w.connections + 1 }) in
    if connected then others else fail w

-- The column `onEntry` of `wsDetails`.
unfoldable pub on_entry : World → WorkerState → Worker → Worker
on_entry world WorkerState.connect w = connect_targets world.now world.connects w
on_entry world WorkerState.delete w = record w { object_index = w.order.range_start }
on_entry world _ w = w

unfoldable pub set_state : World → WorkerState → Worker → Worker
set_state world s = set_state_with (on_entry world s) world.now s

abbrev pub is_bad : WorkerState → Bool
is_bad WorkerState.bad_transition = true
is_bad _ = false

unfoldable pub handle_opcode : World → Opcode → Worker → Worker
handle_opcode world op w =
    let target = valid_transition op w.state in
    if is_bad target then fail w else set_state world target w

-- `NewWorker`, of which `setState(WS_Init)` does nothing but set the state.
unfoldable pub new_worker : WorkOrder → ℕ → Worker
new_worker order preallocation = record {
  order = order;
  state = WorkerState.init;
  cycle = 0;
  object_index = order.range_start;
  connections = 0;
  conn_index = 0;
  phase_start = 0;
  last_summary = 0;
  counts = zeroed;
  can_timeout = false;
  store = new_store preallocation;
  pace = record { phase_first_op = false; last_op_start = 0; avg_elapsed = 0; post_delay = 0 };
  sent = [];
  actions = [];
}
