-- ===== src/Foreman/Steps.antt =====
-- Every event keeps a foreman sound.
use sibench.Base.{◌≡◌, refl, arith, ◌≢◌, if◌then◌else◌}
use sibench.Base.{Bool, true, false, none, some, List, [], ◌∷◌}
use sibench.Base.Floats.{Float32}
use sibench.Messages.{Opcode, WorkOrder}
use sibench.Foreman.States.{ForemanState, valid_tcp_transition, valid_worker_transition}
use sibench.Foreman.Machine.{
  Foreman, ◌>>=◌, next, exited, panicked, Failure, bad_worker, hostname, Sent, fail, hung,
  set_state, set_stat_control, send_opcode_to_workers, send_opcode_to_manager,
}
use sibench.Foreman.Connect.{Site, connect, start_workers, make_workers, worker_count, renewed}
use sibench.Base.{◌*◌, ◌==◌, ◌+◌, ◌-◌}
use sibench.Base.Bits.{u64, u64_mod}
use sibench.Foreman.Handlers.{
  is_idle, is_bad, is_active, Event, message, connection, connection_close, worker_response, step,
  event_loop, start_foreman, handle_tcp_msg, handle_worker_response, handle_new_tcp_connection,
  handle_tcp_connection_close, acknowledge, dispatch_tcp,
}
use sibench.Foreman.Invariant.{
  IsSound, Returns, Returns->>=, Returns-if, is_busy, is_phase_op, terminate-IsSound, fail-IsSound,
  set_state-IsSound, tcp_target, worker_target,
}

set_stat_control-IsSound :
    (m : Sent) (f : Foreman) → IsSound f → Returns IsSound (set_stat_control m f)
unfolding set_stat_control
set_stat_control-IsSound m f h =
    Returns-if IsSound f.stats_running _ _ (λ _. ground arith) (λ _. tt)

start_workers-IsSound :
    (fl : Float32) (site : Site) (o : WorkOrder) (f : Foreman)
    → Returns IsSound (start_workers fl site o f)
unfolding start_workers send_opcode_to_workers
start_workers-IsSound fl site o f =
    let made = record f {
      workers = make_workers fl site o (worker_count site o);
      stats_running = true;
    } in
    Returns->>= IsSound IsSound (set_state site.creates_files ForemanState.connect made)
      (λ g. next (send_opcode_to_workers Opcode.connect g))
      (set_state-IsSound site.creates_files ForemanState.connect made refl refl)
      (λ g h. ground arith)

connect-IsSound :
    (fl : Float32) (site : Site) (o : WorkOrder) (f : Foreman)
    → Returns IsSound (connect fl site o f)
unfolding connect
connect-IsSound fl site o f =
    let fine = start_workers-IsSound fl site o (renewed o f) in
    let failed = fail-IsSound site.creates_files hostname (renewed o f) in
    let named : Returns IsSound (
        if site.has_hostname
        then start_workers fl site o (renewed o f)
        else fail site.creates_files hostname (renewed o f)) =
      Returns-if IsSound site.has_hostname _ _ (λ _. fine) (λ _. failed) in
    Returns-if IsSound (u64 (4 * site.stat_bytes * worker_count site o) == 0) panicked _ (λ _. tt)
      (λ _. named)

phase-IsSound :
    (fl : Float32) (site : Site) (op : Opcode) (o : WorkOrder) (s : ForemanState) (f : Foreman)
    → is_phase_op op ≡ true
    → is_busy s ≡ true
    → IsSound f
    → is_busy f.state ≡ true
    → Returns IsSound (dispatch_tcp fl site op o s f)
unfolding dispatch_tcp send_opcode_to_workers
phase-IsSound fl site Opcode.discovery o s f p b h c = cc
phase-IsSound fl site Opcode.connect o s f p b h c = cc
phase-IsSound fl site Opcode.stat_details o s f p b h c = cc
phase-IsSound fl site Opcode.stat_summary_start o s f p b h c = cc
phase-IsSound fl site Opcode.stat_summary_stop o s f p b h c = cc
phase-IsSound fl site Opcode.terminate o s f p b h c = cc
phase-IsSound fl site op o s f p b h c =
    Returns->>= IsSound IsSound _ (λ g. next (send_opcode_to_workers op g))
      (set_state-IsSound site.creates_files s f (ground arith) (ground arith)) (λ g h. ground arith)

dispatch-IsSound :
    (fl : Float32) (site : Site) (op : Opcode) (o : WorkOrder) (f : Foreman)
    → IsSound f
    → is_bad (valid_tcp_transition op f.state) ≡ false
    → Returns IsSound (dispatch_tcp fl site op o (valid_tcp_transition op f.state) f)
unfolding dispatch_tcp
dispatch-IsSound fl site Opcode.discovery o f h v = ground arith
dispatch-IsSound fl site Opcode.connect o f h v = connect-IsSound fl site o f
dispatch-IsSound fl site Opcode.stat_details o f h v = set_stat_control-IsSound _ f h
dispatch-IsSound fl site Opcode.stat_summary_start o f h v = set_stat_control-IsSound _ f h
dispatch-IsSound fl site Opcode.stat_summary_stop o f h v = set_stat_control-IsSound _ f h
dispatch-IsSound fl site Opcode.terminate o f h v = terminate-IsSound site.creates_files f
dispatch-IsSound fl site op o f h v =
    let (b, c) = tcp_target op f.state h.resting refl v in
    phase-IsSound fl site op o (valid_tcp_transition op f.state) f refl b h c

handle_tcp_msg-IsSound :
    (fl : Float32) (site : Site) (op : Opcode) (o : WorkOrder) (f : Foreman)
    → IsSound f
    → Returns IsSound (handle_tcp_msg fl site op o f)
unfolding handle_tcp_msg
handle_tcp_msg-IsSound fl site op o f h =
    Returns-if IsSound (is_bad (valid_tcp_transition op f.state)) _ _
      (λ _. fail-IsSound site.creates_files _ f) (λ v. dispatch-IsSound fl site op o f h v)

acknowledge-IsSound :
    (creates : Bool) (op : Opcode) (f : Foreman)
    → op ≢ Opcode.fail
    → IsSound f
    → Returns IsSound (acknowledge creates op f)
unfolding acknowledge send_opcode_to_manager
acknowledge-IsSound creates op f n h =
    let target = valid_worker_transition op f.state in
    let pending = u64 (f.response_pending + u64_mod - 1) in
    let f' = record f { response_pending = pending } in
    let done : is_bad target ≡ false
        → Returns IsSound
            (set_state creates target f' >>= λ g. next (send_opcode_to_manager op none g)) =
      λ v.
        let (b, c) = worker_target op f.state h.resting n v in
        Returns->>= IsSound IsSound (set_state creates target f')
          (λ g. next (send_opcode_to_manager op none g))
          (set_state-IsSound creates target f' (ground arith) (ground arith))
          (λ g k. ground arith) in
    Returns-if IsSound (is_bad target) (fail creates (bad_worker f.state op) f) _
      (λ _. fail-IsSound creates (bad_worker f.state op) f)
      (λ v.
        Returns-if IsSound (pending == 0)
          (set_state creates target f' >>= λ g. next (send_opcode_to_manager op none g)) (next f')
          (λ _. done v) (λ _. ground arith))

handle_worker_response-IsSound :
    (creates : Bool) (op : Opcode) (err : Failure) (f : Foreman)
    → IsSound f
    → Returns IsSound (handle_worker_response creates op err f)
unfolding handle_worker_response hung
handle_worker_response-IsSound creates Opcode.fail err f h = fail-IsSound creates err f
handle_worker_response-IsSound creates Opcode.hung err f h =
    Returns->>= IsSound IsSound _ (λ g. exited g)
      (terminate-IsSound creates (send_opcode_to_manager Opcode.hung (some err) f)) (λ g k. tt)
handle_worker_response-IsSound creates op err f h = acknowledge-IsSound creates op f (λ e. cc) h

-- Every event, in every sound state, whatever the machine does, leaves a foreman that is sound
-- again if the handler returns.
pub step-IsSound :
    (fl : Float32) (site : Site) (e : Event) (f : Foreman)
    → IsSound f
    → Returns IsSound (step fl site e f)
unfolding step handle_new_tcp_connection handle_tcp_connection_close
step-IsSound fl site (connection c) f h = ground arith
step-IsSound fl site (message op o) f h = handle_tcp_msg-IsSound fl site op o f h
step-IsSound fl site (connection_close c) f h =
    let f' = record f { tcp_connection = none } in
    Returns-if IsSound (is_active c f.tcp_connection) _ _
      (λ _.
        Returns-if IsSound (is_idle f.state) (next f') _ (λ _. ground arith)
          (λ _. terminate-IsSound site.creates_files f'))
      (λ _. h)
step-IsSound fl site (worker_response op err) f h =
    handle_worker_response-IsSound site.creates_files op err f h

event_loop-IsSound :
    (fl : Float32) (site : Site) (es : List Event) (f : Foreman)
    → IsSound f
    → Returns IsSound (event_loop fl site es f)
unfolding event_loop
event_loop-IsSound fl site [] f h = h
event_loop-IsSound fl site (e ∷ es) f h =
    Returns->>= IsSound IsSound (step fl site e f) (event_loop fl site es)
      (step-IsSound fl site e f h) (event_loop-IsSound fl site es)

-- After any sequence of events since its start, a foreman in its event loop is in none of the
-- states FS_BadTransition, FS_Terminate and FS_Hung, and its statistics go-routine is alive
-- exactly if it is not idle.
pub run-IsSound :
    (fl : Float32) (site : Site) (profiling : Bool) (es : List Event)
    → Returns IsSound (event_loop fl site es (start_foreman profiling))
unfolding start_foreman
run-IsSound fl site profiling es =
    event_loop-IsSound fl site es (start_foreman profiling)
      (record { resting = refl; stats = refl })
