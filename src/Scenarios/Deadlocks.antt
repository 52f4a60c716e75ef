-- ===== src/Scenarios/Deadlocks.antt =====
-- A tick at 100 seconds that finds the first worker late, and one at 50 seconds that finds none.
use sibench.Base.{◌≡◌, refl, some, List, [], ◌∷◌}
use sibench.Messages.{Opcode}
use sibench.Foreman.States.{ForemanState, valid_tcp_transition}
use sibench.Foreman.Stats.{tick, late, control, send_details}
use sibench.Foreman.Rendezvous.{
  Rendezvous, Move, ask, message, give, report_end, tick_at, moves, chores_of, valid_chores,
  replying,
}
use sibench.Foreman.Rendezvous.Deadlock.{waiting_for_messages, IsStuck, late_worker_deadlock}
use sibench.Scenarios.Statistics.{heard}

late_worker_deadlock_example :
    (r : Rendezvous) × (moves
        (tick_at 100_000_000_000 ∷ message Opcode.stat_details ForemanState.write_stop_done ∷ [])
        (waiting_for_messages heard)
      ≡ some r)
    × IsStuck r
unfolding late chores_of valid_chores valid_tcp_transition
late_worker_deadlock_example =
    late_worker_deadlock Opcode.stat_details ForemanState.write_stop_done 100_000_000_000 heard
      (ask send_details) [] _ [] refl refl

abbrev asking : List Move
asking =
    tick_at 50_000_000_000
    ∷ report_end
    ∷ message Opcode.stat_details ForemanState.write_stop_done
    ∷ give 60_000_000_000
    ∷ []

abbrev answered : Rendezvous
answered = record {
  chores = [];
  awaited = some (ask send_details);
  place = replying (ask send_details);
  loop = control 60_000_000_000 send_details (tick 50_000_000_000 heard);
}
