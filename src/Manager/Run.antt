-- ===== src/Manager/Run.antt =====
-- `RunBenchmark`: the connections, the discovery, the work orders, the phases and the end of a run.
use sibench.Base.{
  ℕ, ◌+◌, ◌-◌, ◌*◌, ◌/◌, ◌==◌, if◌then◌else◌, Bool, false, ◌&&◌, Option, none, some, List, [], ◌∷◌,
  ◌++◌, map,
}
use sibench.Base.Bits.{u64, u16, u64_mod}
use sibench.Base.Floats.{Float32}
use Prim.Native.String.{String}
use sibench.Messages.{Opcode, WorkOrder, Discovery}
use sibench.Report.{not_connected, report_file, make_report, add_error, close}
use sibench.Job.{Job}
use sibench.Manager.{
  Manager, ServerDetails, Event, Result, returned, panicked, ◌>>=◌, stopped, lookup, Sent,
  to_connect, closed,
}
use sibench.Manager.Loops.{wait_for_responses, discover, terminate}
use sibench.Manager.Phases.{run_phase_for_time, run_phase_to_completion}

-- What a run asks of its surroundings: whether the storage answers the manager and can delete,
-- whether the report's file can be made and takes a write, and the servers that can be connected to.
pub record Surroundings : Type 0 where
  pub storage_connects : Bool
  pub can_delete : Bool
  pub creates_report : Bool
  pub accepts_write : ℕ → Bool
  pub connects : String → Bool

abbrev nothing_known : Discovery
nothing_known = record { cores = 0; ram = 0; version = "" }

-- `connectToServers`, from the server `i` on, whose connection gets the number `i`.
unfoldable pub connect_servers : (String → Bool) → ℕ → List String → Manager → Manager
connect_servers connects i [] m = m
connect_servers connects i (s ∷ servers) m =
    let details : ServerDetails = record { discovery = nothing_known; name = s; index = u16 i } in
    let connected =
      connect_servers connects (i + 1) servers
        (record m { conns = m.conns ++ (i ∷ []); details = m.details ++ ((i, details) ∷ []) }) in
    if connects s then connected else record m { err = some (not_connected s) }

unfoldable pub connect_to_servers : (String → Bool) → Manager → Manager
connect_to_servers connects m = if stopped m then m else connect_servers connects 0 m.job.servers m

module _ (fl : Float32) where
  open fl use {Carrier, of_u64, to_u64, add, mul, div}

  -- The loop of `sendJobToServers` over the connections; `start` is the variable `rangeStart`. The
  -- names of the servers that are short of memory are collected and not used.
  unfoldable pub order_shares :
      WorkOrder → ℕ → Carrier → List (ℕ × ServerDetails) → Carrier → List ℕ → Option (List Sent)
  order_shares order core_count stride details start [] = some []
  order_shares order core_count stride details start (c ∷ conns) = elim (lookup c details) [
    | none ↦ none
    | some d ↦
        let end = add start (mul stride (of_u64 d.discovery.cores)) in
        if core_count == 0
        then none
        else elim (order_shares order core_count stride details end conns) [
          | none ↦ none
          | some rest ↦ some (
              to_connect c (record order {
                bandwidth = u64 (order.bandwidth * d.discovery.cores) / core_count;
                range_start = to_u64 start;
                range_end = to_u64 end;
              })
              ∷ rest)
        ]
  ]

  -- `sendJobToServers`; a connection without details, and no cores at all, panic.
  -- The manager asks for signals only afterwards, so that no `signal` comes before it has ended.
  unfoldable pub send_job : Manager → List Event → Result
  send_job m es =
      if stopped m
      then returned m es
      else (let order = m.job.order in
          let range_len = u64 (order.range_end + u64_mod - order.range_start) in
          let stride = div (of_u64 range_len) (of_u64 m.core_count) in
          elim (order_shares order m.core_count stride m.details (of_u64 order.range_start)
            m.conns) [
              | none ↦ panicked
              | some orders ↦
                  wait_for_responses Opcode.connect (record m { sent = m.sent ++ orders }) es
            ])

-- The phases that the order asks for.
unfoldable pub run_phases : WorkOrder → Bool → Manager → List Event → Result
run_phases order deletes m es =
    (if order.read_write_mix == 0
      then (run_phase_for_time Opcode.write_start Opcode.write_stop m es
          >>= run_phase_to_completion Opcode.prepare
          >>= run_phase_for_time Opcode.read_start Opcode.read_stop)
      else (run_phase_to_completion Opcode.prepare m es
          >>= run_phase_for_time Opcode.read_write_start Opcode.read_write_stop))
    >>= λ m es. if deletes then run_phase_to_completion Opcode.delete m es else returned m es

-- The end of a run: the report is closed, and then the connections.
unfoldable pub end_run : Manager → List Event → Result
end_run m es = elim m.err [
  | none ↦ returned (disconnected (record m { report = close m.report })) es
  | some e ↦ returned (disconnected (record m { report = close (add_error e m.report) })) es
]
  where
    disconnected : Manager → Manager
    disconnected m = record m { sent = m.sent ++ map closed m.conns }

unfoldable pub new_manager : Surroundings → Job → Manager
new_manager at job =
    let report = make_report at.creates_report at.accepts_write job in
    record {
      job = job;
      report = report;
      conns = [];
      details = [];
      core_count = 0;
      interrupted = false;
      err = if report.json_err then some report_file else none;
      sent = [];
    }

-- `RunBenchmark` from the connections to the servers on.
unfoldable pub run_job : Float32 → Surroundings → Job → Manager → List Event → Result
run_job fl at job m es =
    discover (connect_to_servers at.connects m) es
    >>= send_job fl
    >>= run_phases job.order (at.can_delete && job.order.clean_up_on_close)
    >>= terminate
    >>= end_run

-- The first target's storage must answer, or the run ends early.
abbrev pub start_run : List String → Bool → Result → Result → Result
start_run [] answers run early = panicked
start_run (target ∷ targets) answers run early = if answers then run else early

-- `RunBenchmark`. The connection to the storage is closed at the end.
unfoldable pub run_benchmark : Float32 → Surroundings → Job → List Event → Result
run_benchmark fl at job es =
    start_run job.order.targets at.storage_connects (run_job fl at job (new_manager at job) es)
      (returned (new_manager at job) es)
