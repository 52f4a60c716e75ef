-- ===== src/Foreman/Stats.antt =====
-- The go-routine `processStats` and `clearHangTimeouts` (src/sibench/foreman.go). Times are
-- nanoseconds; `now` is what the clock says when the event is handled, and does not go back.
pub mod Timeouts
use sibench.Base.{ℕ, zero, suc, ◌+◌, ◌-◌, ◌*◌, ◌/◌, ◌<◌, ltb, if◌then◌else◌, get_elem?, set, length}
use sibench.Base.{Bool, true, false, ◌&&◌, Option, none, some, List, [], ◌∷◌, ◌++◌}
use sibench.Messages.{Opcode}
use sibench.Messages.Summary.{StatSummary, zeroed, add, total}

abbrev pub second : ℕ
second = 1_000_000_000

-- InitialHangTimeoutSecs and MinHangTimeoutSecs.
abbrev pub initial_hang_timeout : ℕ
initial_hang_timeout = 90 * second

abbrev pub min_hang_timeout : ℕ
min_hang_timeout = 60 * second

-- The two fields of `WorkerInfo` that this go-routine keeps.
pub record Heartbeat : Type 0 where
  pub last_summary : ℕ
  pub can_timeout : Bool

-- What a worker sends over `summaryChannel`.
pub record WorkerSummary : Type 0 where
  pub counts : StatSummary
  pub worker_id : ℕ
  pub can_timeout : Bool

-- What the go-routine sends to the manager, and to the foreman about a hung worker.
pub data Report : Type 0 where
  summary_report : StatSummary → Report
  control_report : Opcode → Report
  uploads : ℕ → Report
  hung_worker : ℕ → Report

pub record StatsLoop : Type 0 where
  pub heartbeats : List Heartbeat
  pub hang_timeout : ℕ
  pub summary : StatSummary
  pub send_summaries : Bool
  pub reports : List Report

-- `clearHangTimeouts`
pub reset_all : ℕ → List Heartbeat → List Heartbeat
reset_all now [] = []
reset_all now (w ∷ ws) = record w { last_summary = now } ∷ reset_all now ws

unfoldable pub clear_hang_timeouts : ℕ → StatsLoop → StatsLoop
clear_hang_timeouts now s = record s {
  heartbeats = reset_all now s.heartbeats;
  hang_timeout = initial_hang_timeout;
}

-- The adjusted timeout for `ops` operations in the time `elapsed`.
unfoldable pub adjusted : ℕ → ℕ → ℕ → ℕ
adjusted elapsed ops timeout =
    let timeout' = (7 * timeout + 8 * (elapsed / ops)) / 8 in
    if ltb timeout' min_hang_timeout then min_hang_timeout else timeout'

-- A summary arrives. The worker's time is set before the elapsed time is taken from it. `none` is
-- the panic of an index that is out of range.
unfoldable pub receive_summary : ℕ → WorkerSummary → StatsLoop → Option StatsLoop
receive_summary now m s = elim (get_elem? s.heartbeats m.worker_id) [
  | none ↦ none
  | some w ↦
      let w' = record w { last_summary = now } in
      let ops = total m.counts in
      some (record s {
        heartbeats =
            set s.heartbeats m.worker_id
              (record { last_summary = now; can_timeout = m.can_timeout });
        hang_timeout =
            (if ltb 0 ops
              then adjusted (now - w'.last_summary) ops s.hang_timeout
              else s.hang_timeout);
        summary = add s.summary m.counts;
      })
]

-- The workers that are late, from the index `i` on.
unfoldable pub late : ℕ → ℕ → ℕ → List Heartbeat → List Report
late now timeout i [] = []
late now timeout i (w ∷ ws) =
    let rest = late now timeout (i + 1) ws in
    if w.can_timeout && ltb timeout (now - w.last_summary) then hung_worker i ∷ rest else rest

-- Once a second.
unfoldable pub tick : ℕ → StatsLoop → StatsLoop
tick now s =
    if s.send_summaries
    then record s {
      summary = zeroed;
      reports =
          (s.reports ++ (summary_report s.summary ∷ [])) ++ late now s.hang_timeout 0 s.heartbeats;
    }
    else s

-- `statControl`, without SC_Terminate, which ends the go-routine.
pub data StatControl : Type 0 where
  send_details start_summaries stop_summaries clear_timeouts : StatControl

unfoldable pub control : ℕ → StatControl → StatsLoop → StatsLoop
control now clear_timeouts s = clear_hang_timeouts now s
control now send_details s = record s {
  reports =
      s.reports ++ (uploads (length s.heartbeats) ∷ control_report Opcode.stat_details_done ∷ []);
}
control now start_summaries s = record s {
  summary = zeroed;
  send_summaries = true;
  reports = s.reports ++ (control_report Opcode.stat_summary_start ∷ []);
}
control now stop_summaries s = record s {
  send_summaries = false;
  reports = s.reports ++ (control_report Opcode.stat_summary_stop ∷ []);
}
