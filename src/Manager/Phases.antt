-- ===== src/Manager/Phases.antt =====
-- The phases of a run: `runPhaseToCompletion` and `runPhaseForTime`. The summaries that they add up
-- are only logged.
use sibench.Base.{ℕ, ◌+◌, ◌==◌, if◌then◌else◌, Bool, true, false, some, List, [], ◌∷◌, ◌++◌, length}
use sibench.Base.Bits.{u64}
use Prim.Native.String.{len}
use sibench.Messages.{Opcode, same_opcode}
use sibench.Messages.Summary.{StatSummary, zeroed, add}
use sibench.Report.{RunError, transport_failure, remote_close}
use sibench.Manager.{
  Manager, summary_of, Event, received, transport, signal, tick, timer, Result, returned, ◌>>=◌,
  stopped, down, ran_script,
}
use sibench.Manager.Loops.{
  Turn, again, leave, finish, select_loop, unless_failed, unexpected, interrupt, send_op,
  drain_stats,
}

-- What the loop of a phase keeps: the servers that are not done, the seconds and the summary.
pub record Progress : Type 0 where
  pub pending : ℕ
  pub seconds : ℕ
  pub counts : StatSummary

abbrev start : ℕ → Progress
start pending = record { pending = pending; seconds = 0; counts = zeroed }

abbrev next_second : Progress → Progress
next_second s = record s { seconds = s.seconds + 1; counts = zeroed }

abbrev lost_server : ℕ → Bool → RunError
lost_server c true = remote_close c
lost_server c false = transport_failure c

unfoldable pub completion_turn : Opcode → Event → Progress → Manager → Turn Progress
completion_turn phase_op (received c op body) s m = unless_failed c op body m λ m'.
    if same_opcode op phase_op
    then (if down s.pending == 0
        then finish m'
        else again (record s { pending = down s.pending }) m')
    else if same_opcode op Opcode.stat_summary
    then again (record s { counts = add s.counts (summary_of body) }) m'
    else unexpected op m'
completion_turn phase_op (transport c eof) s m = leave (record m { err = some (lost_server c eof) })
completion_turn phase_op signal s m = interrupt m
completion_turn phase_op tick s m = again (next_second s) m
completion_turn phase_op timer s m = again s m

unfoldable pub complete_phase : Manager → List Event → Result
complete_phase m es = send_op Opcode.stat_summary_stop true m es >>= drain_stats

unfoldable pub run_phase_to_completion : Opcode → Manager → List Event → Result
run_phase_to_completion phase_op m es =
    if stopped m
    then returned m es
    else send_op Opcode.stat_summary_start true m es >>= send_op phase_op false >>= λ m es.
        select_loop (completion_turn phase_op) complete_phase es (start (length m.conns)) m

-- `runScript`, which starts the script if there is one.
unfoldable pub run_script : Bool → Manager → Manager
run_script ramp_up m =
    if len m.job.script == 0 then m else record m { sent = m.sent ++ (ran_script ramp_up ∷ []) }

-- A second of a phase, which runs the script at the end of the ramp-up and at the start of the
-- ramp-down.
unfoldable pub ramp : ℕ → Manager → Manager
ramp seconds m =
    if seconds == m.job.ramp_up
    then run_script true m
    else if seconds == u64 (m.job.ramp_up + m.job.run_time)
    then run_script false m
    else m

unfoldable pub time_turn : Event → Progress → Manager → Turn Progress
time_turn (received c op body) s m = unless_failed c op body m λ m'.
    if same_opcode op Opcode.stat_summary
    then again (record s { counts = add s.counts (summary_of body) }) m'
    else unexpected op m'
time_turn (transport c eof) s m = leave (record m { err = some (lost_server c eof) })
time_turn signal s m = interrupt m
time_turn tick s m = again (next_second s) (ramp (s.seconds + 1) m)
time_turn timer s m = finish m

unfoldable pub stop_phase : Opcode → Manager → List Event → Result
stop_phase stop_op m es =
    send_op Opcode.stat_summary_stop true m es >>= send_op stop_op true >>= drain_stats

unfoldable pub run_phase_for_time : Opcode → Opcode → Manager → List Event → Result
run_phase_for_time start_op stop_op m es =
    if stopped m
    then returned m es
    else send_op start_op true m es >>= send_op Opcode.stat_summary_start true >>= λ m es.
        select_loop time_turn (stop_phase stop_op) es (start 0) m
