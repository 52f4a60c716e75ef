-- ===== src/Foreman/Handlers.antt =====
-- The event handlers of a foreman (src/sibench/foreman.go): `handleNewTcpConnection`,
-- `handleTcpConnectionClose`, `handleTcpMsg` and `handleWorkerResponse`, and the event loop over a
-- list of events.
use sibench.Base.{ℕ, ◌+◌, ◌-◌, ◌==◌, if◌then◌else◌}
use sibench.Base.{Bool, true, false, Option, none, some, List, [], ◌∷◌}
use sibench.Base.Bits.{u64_mod, u64}
use sibench.Base.Floats.{Float32}
use sibench.Messages.{Opcode, WorkOrder}
use sibench.Foreman.States.{ForemanState, valid_tcp_transition, valid_worker_transition}
use sibench.Foreman.Machine.{
  Foreman, Outcome, ◌>>=◌, next, Failure, bad_tcp, bad_worker, busy_reply, closed, discovery_reply,
  to_stats, send, is_some, fail, hung, set_state, set_stat_control, terminate,
  send_opcode_to_workers, send_opcode_to_manager,
}
use sibench.Foreman.Connect.{Site, connect}

-- A connection that arrives while another is served is told so and closed.
unfoldable pub handle_new_tcp_connection : ℕ → Foreman → Foreman
handle_new_tcp_connection c f =
    if is_some f.tcp_connection
    then send (closed c) (send (busy_reply c) f)
    else record f { tcp_connection = some c }

abbrev pub is_idle : ForemanState → Bool
is_idle ForemanState.idle = true
is_idle _ = false

abbrev pub is_active : ℕ → Option ℕ → Bool
is_active c none = false
is_active c (some d) = c == d

unfoldable pub handle_tcp_connection_close : Bool → ℕ → Foreman → Outcome
handle_tcp_connection_close creates c f =
    if is_active c f.tcp_connection
    then (let f' = record f { tcp_connection = none } in
        if is_idle f.state then next f' else terminate creates f')
    else next f

abbrev pub is_bad : ForemanState → Bool
is_bad ForemanState.bad_transition = true
is_bad _ = false

-- The `switch` of `handleTcpMsg`, for an opcode that is valid in the state; `o` is what the foreman's
-- variable for its work order holds once `msg.Data` has read the message of OP_Connect into it
-- (Comms/Orders.antt).
module _ (fl : Float32) (site : Site) where
  unfoldable pub dispatch_tcp : Opcode → WorkOrder → ForemanState → Foreman → Outcome
  dispatch_tcp Opcode.discovery o target f = next (send discovery_reply f)
  dispatch_tcp Opcode.connect o target f = connect fl site o f
  dispatch_tcp Opcode.stat_details o target f = set_stat_control (to_stats Opcode.stat_details) f
  dispatch_tcp Opcode.stat_summary_start o target f =
      set_stat_control (to_stats Opcode.stat_summary_start) f
  dispatch_tcp Opcode.stat_summary_stop o target f =
      set_stat_control (to_stats Opcode.stat_summary_stop) f
  dispatch_tcp Opcode.terminate o target f = terminate site.creates_files f
  dispatch_tcp op o target f =
      set_state site.creates_files target f >>= λ f. next (send_opcode_to_workers op f)

  unfoldable pub handle_tcp_msg : Opcode → WorkOrder → Foreman → Outcome
  handle_tcp_msg op o f =
      let target = valid_tcp_transition op f.state in
      if is_bad target
      then fail site.creates_files (bad_tcp f.state op) f
      else dispatch_tcp op o target f

-- The last response that is awaited moves the foreman on. `responsePending--` wraps.
unfoldable pub acknowledge : Bool → Opcode → Foreman → Outcome
acknowledge creates op f =
    let target = valid_worker_transition op f.state in
    let pending = u64 (f.response_pending + u64_mod - 1) in
    if is_bad target
    then fail creates (bad_worker f.state op) f
    else if pending == 0
    then (set_state creates target (record f { response_pending = pending }) >>= λ f.
        next (send_opcode_to_manager op none f))
    else next (record f { response_pending = pending })

unfoldable pub handle_worker_response : Bool → Opcode → Failure → Foreman → Outcome
handle_worker_response creates Opcode.fail err f = fail creates err f
handle_worker_response creates Opcode.hung err f = hung creates err f
handle_worker_response creates op err f = acknowledge creates op f

-- One round of `eventLoop`.
pub data Event : Type 0 where
  connection : ℕ → Event
  message : Opcode → WorkOrder → Event
  connection_close : ℕ → Event
  worker_response : Opcode → Failure → Event

unfoldable pub step : Float32 → Site → Event → Foreman → Outcome
step fl site (connection c) f = next (handle_new_tcp_connection c f)
step fl site (message op o) f = handle_tcp_msg fl site op o f
step fl site (connection_close c) f = handle_tcp_connection_close site.creates_files c f
step fl site (worker_response op err) f = handle_worker_response site.creates_files op err f

unfoldable pub event_loop : Float32 → Site → List Event → Foreman → Outcome
event_loop fl site [] f = next f
event_loop fl site (e ∷ es) f = step fl site e f >>= event_loop fl site es

-- `StartForeman`, up to its event loop.
unfoldable pub start_foreman : Bool → Foreman
start_foreman profiling = record {
  order = none;
  workers = [];
  stats_running = false;
  tcp_connection = none;
  response_pending = 0;
  state = ForemanState.idle;
  profiling = profiling;
  profile_index = 0;
  sent = [];
}
