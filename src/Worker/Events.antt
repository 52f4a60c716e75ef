-- ===== src/Worker/Events.antt =====
-- The event functions of a worker (src/sibench/worker.go): `onWriteEvent`, `onPrepareEvent`,
-- `onReadEvent`, `onReadWriteEvent`, `onDeleteEvent`, `writeOrPrepare`,
-- `invalidateConnectionCaches`, and one round of `eventLoop`.
use sibench.Base.{ℕ, ◌+◌, ◌-◌, ◌/◌, ◌%◌, ltb, leb, if◌then◌else◌}
use sibench.Base.{not, ◌&&◌}
use sibench.Base.{Bool, true, false, Option, none, some, List, [], ◌∷◌, ◌++◌}
use sibench.Base.Bits.{u64, u32, u16}
use sibench.Messages.{Opcode, StatPhase, StatError, Stat}
use sibench.Messages.Summary.{bump}
use sibench.Worker.States.{WorkerState}
use sibench.Worker.Store.{Store, next_stat}
use sibench.Worker.Bandwidth.{Tempo, limit_bandwidth}
use sibench.Worker.Machine.{
  Worker, World, Action, put, get, remove, invalidate_caches, send_summary, set_state,
  handle_opcode,
}

-- How an operation went: whether the connection's method failed, whether the generator's Generate
-- and Verify return for objects of a size or panic, whether Verify found the content wrong, the
-- times before and after, what `limitBandwidth` finds, and the random number below 100 that chooses
-- between a write and a read.
pub record Trial : Type 0 where
  pub failed : Bool
  pub generates : ℕ → Bool
  pub verifies : ℕ → Bool
  pub corrupt : Bool
  pub start : ℕ
  pub end : ℕ
  pub tempo : Tempo
  pub coin : ℕ

abbrev pub stat_of : StatPhase → StatError → Trial → Worker → Stat
stat_of phase error t w = record {
  phase = phase;
  error = error;
  target_index = u16 w.conn_index;
  time_since_phase_start_millis = u32 ((t.start - w.phase_start) / 1_000_000);
  duration_micros = u32 ((t.end - t.start) / 1000);
}

unfoldable pub put_error : Trial → StatError
put_error t = if t.failed then StatError.operation_failure else StatError.ok

unfoldable pub get_error : Trial → Worker → StatError
get_error t w =
    if t.failed
    then StatError.operation_failure
    else if w.order.skip_read_validation
    then StatError.ok
    else if t.corrupt
    then StatError.verify_failure
    else StatError.ok

-- The operation is stored in `st`, counted and reported.
unfoldable pub answered : Action → StatPhase → StatError → Trial → Store → Worker → Worker
answered action phase error t st w = send_summary t.end true (record w {
  actions = w.actions ++ (action ∷ []);
  store = st;
  counts = bump phase error w.counts;
})

-- What each operation does once the connection has answered. `none` is a panic: there is no such
-- connection, or no room for the stat.
unfoldable pub record_stat : Action → StatPhase → StatError → Trial → Worker → Option Worker
record_stat action phase error t w =
    if ltb w.conn_index w.connections
    then elim (next_stat (stat_of phase error t w) w.store) [
      | none ↦ none
      | some st ↦ some (answered action phase error t st w)
    ]
    else none

unfoldable pub invalidate_connection_caches : Worker → Worker
invalidate_connection_caches w = record w { actions = w.actions ++ (invalidate_caches ∷ []) }

unfoldable pub next_connection : Worker → Worker
next_connection w = record w { conn_index = u64 (w.conn_index + 1) % w.connections }

unfoldable pub next_put_object : Worker → Worker
next_put_object w =
    let i = u64 (w.object_index + 1) in
    if leb w.order.range_end i
    then record w { object_index = w.order.range_start; cycle = u64 (w.cycle + 1) }
    else record w { object_index = i }

unfoldable pub next_get_object : Worker → Worker
next_get_object w =
    let i = u64 (w.object_index + 1) in
    if leb w.order.range_end i
    then invalidate_connection_caches (record w { object_index = w.order.range_start })
    else record w { object_index = i }

abbrev pub and_then : Option Worker → (Worker → Worker) → Option Worker
and_then none k = none
and_then (some w) k = some (k w)

unfoldable pub write_or_prepare : StatPhase → Trial → Worker → Option Worker
write_or_prepare phase t w =
    if t.generates w.order.object_size
    then and_then (record_stat (put w.object_index w.cycle w.conn_index) phase (put_error t) t w)
        (λ w. next_connection (next_put_object w))
    else none

unfoldable pub paced : Trial → Worker → Worker
paced t w = record w {
  pace = (limit_bandwidth w.order.object_size w.order.bandwidth t.tempo w.pace).0;
}

unfoldable pub on_write_event : Trial → Worker → Option Worker
on_write_event t w = write_or_prepare StatPhase.write t (paced t w)

unfoldable pub on_prepare_event : World → Trial → Worker → Option Worker
on_prepare_event world t w =
    if ltb 0 w.cycle
    then some (set_state world WorkerState.prepare_done (invalidate_connection_caches w))
    else write_or_prepare StatPhase.prepare t w

-- Whether Verify is called, and panics.
abbrev pub verify_panics : Trial → Worker → Bool
verify_panics t w =
    (not t.failed && not w.order.skip_read_validation) && not (t.verifies w.order.object_size)

unfoldable pub get_object : Trial → Worker → Option Worker
get_object t w =
    if verify_panics t w
    then none
    else and_then (record_stat (get w.object_index w.conn_index) StatPhase.read (get_error t w) t w)
        (λ w. next_connection (next_get_object w))

unfoldable pub on_read_event : Trial → Worker → Option Worker
on_read_event t w = get_object t (paced t w)

unfoldable pub on_read_write_event : Trial → Worker → Option Worker
on_read_write_event t w =
    if ltb w.order.read_write_mix t.coin then on_write_event t w else on_read_event t w

-- The last object ends the phase, with the connection left as it is.
unfoldable pub next_delete_object : World → Worker → Worker
next_delete_object world w =
    let w' = record w { object_index = u64 (w.object_index + 1) } in
    if leb w.order.range_end w'.object_index
    then set_state world WorkerState.delete_done w'
    else next_connection w'

unfoldable pub on_delete_event : World → Trial → Worker → Option Worker
on_delete_event world t w =
    and_then (record_stat (remove w.object_index w.conn_index) StatPhase.delete (put_error t) t w)
      (next_delete_object world)

-- The column `onEventLoop` of `wsDetails`; a state with no function leaves the worker waiting.
unfoldable pub on_event_loop : World → Trial → WorkerState → Worker → Option Worker
on_event_loop world t WorkerState.write w = on_write_event t w
on_event_loop world t WorkerState.prepare w = on_prepare_event world t w
on_event_loop world t WorkerState.read w = on_read_event t w
on_event_loop world t WorkerState.read_write w = on_read_write_event t w
on_event_loop world t WorkerState.delete w = on_delete_event world t w
on_event_loop world t _ w = some w

-- A round of `eventLoop`: an opcode, or no opcode at hand.
pub data Round : Type 0 where
  opcode : World → Opcode → Round
  idle : World → Trial → Round

abbrev pub is_terminated : WorkerState → Bool
is_terminated WorkerState.terminated = true
is_terminated _ = false

unfoldable pub round : Round → Worker → Option Worker
round (opcode world op) w =
    if is_terminated w.state then some w else some (handle_opcode world op w)
round (idle world t) w = if is_terminated w.state then some w else on_event_loop world t w.state w

unfoldable pub event_loop : List Round → Worker → Option Worker
event_loop [] w = some w
event_loop (r ∷ rs) w = elim (round r w) [ none ↦ none | some w' ↦ event_loop rs w' ]
