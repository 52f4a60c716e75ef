-- ===== src/Scenarios/Workers.antt =====
-- A worker with two objects, and its store and its delays.
use sibench.Base.{leb, ◌≡◌, refl, arith, true, false, some, List, [], ◌∷◌, ◌++◌, concat}
use sibench.Messages.{Opcode, Stat}
use sibench.Worker.Machine.{Worker, World, new_worker}
use sibench.Worker.Events.{Round, opcode, idle, Trial, event_loop}
use sibench.Worker.Store.{Store, new_store, next_stat, upload_stats, blank}
use sibench.Worker.Store.Log.{next_stat_lem, upload_stats_lem}
use sibench.Worker.Store.Appends.{IsStore, recorded, new_store-IsStore}
use sibench.Worker.Bandwidth.{Tempo}
use sibench.Scenarios.Orders.{order_of}
use sibench.Foreman.States.{ForemanState, valid_tcp_transition, valid_worker_transition}
use sibench.Foreman.Handlers.{is_bad}
use sibench.Worker.States.{WorkerState, opcode_on_entry}
use sibench.Worker.Machine.{
  handle_opcode, set_state, set_state_with, on_entry, connect_targets, respond_on_entry,
  start_phase, watch, send_response, send_summary,
}
use sibench.Worker.Prepares.{undisturbed}
use sibench.Worker.Deletes.{was_removed, deletes_range}
use sibench.Base.{Option, none, ◌≤◌}
use sibench.Worker.Events.{
  on_event_loop, on_prepare_event, write_or_prepare, record_stat, next_connection, next_put_object,
  invalidate_connection_caches, answered,
}
use sibench.Worker.Store.{advance, clear_stats}
use sibench.Base.{◌-◌}
use sibench.Worker.Events.{round}
use sibench.Worker.States.{valid_transition, is_start_of_phase, can_timeout_in}
use sibench.Protocol.{worker_of, answering, phases_agree}

abbrev world : World
world = record { now = 1000; connects = true ∷ [] }

abbrev tempo : Tempo
tempo = record { entered = 600; left = 700; intn = λ n. 0 }

abbrev trial : Trial
trial = record {
  failed = false;
  generates = λ size. leb 32 size;
  verifies = λ size. leb 32 size;
  corrupt = false;
  start = 2000;
  end = 3000;
  tempo = tempo;
  coin = 10;
}

abbrev rounds : List Round
rounds =
    opcode world Opcode.connect
    ∷ idle world trial
    ∷ opcode world Opcode.prepare
    ∷ idle world trial
    ∷ idle world trial
    ∷ idle world trial
    ∷ []

abbrev a_stat : Stat
a_stat = record blank { duration_micros = 12 }

next_stat_lem_example :
    (st' : Store) × (next_stat a_stat (new_store 2) ≡ some st')
    × IsStore st'
    × (recorded st' ≡ recorded (new_store 2) ++ (a_stat ∷ []))
next_stat_lem_example = next_stat_lem a_stat (new_store 2) (new_store-IsStore 2 (omega arith))

upload_stats_lem_example :
    (concat (upload_stats (new_store 2)).0 ≡ recorded (new_store 2))
    × (recorded (upload_stats (new_store 2)).1 ≡ [])
    × IsStore (upload_stats (new_store 2)).1
upload_stats_lem_example = upload_stats_lem (new_store 2) (new_store-IsStore 2 (omega arith))

abbrev ready : Worker
ready = record (new_worker (order_of 5 7) 2) { state = WorkerState.connect_done; connections = 1 }

phases_agree_example :
    let d =
      valid_worker_transition Opcode.write_start
        (valid_tcp_transition Opcode.write_start ForemanState.connect_done) in
    (is_bad d ≡ false)
    × (answering (handle_opcode world Opcode.write_start ready).state ≡ worker_of d)
    × (opcode_on_entry (worker_of d) ≡ some Opcode.write_start)
unfolding valid_tcp_transition new_worker
phases_agree_example =
    phases_agree world Opcode.write_start ForemanState.connect_done ready refl refl refl

abbrev started_rounds : List Round
started_rounds = opcode world Opcode.connect ∷ opcode world Opcode.prepare ∷ []

abbrev preparing : Worker
preparing =
    handle_opcode world Opcode.prepare
      (handle_opcode world Opcode.connect (new_worker (order_of 5 7) 2))

-- A worker with one object, after its read phase.
abbrev reading_rounds : List Round
reading_rounds =
    opcode world Opcode.connect
    ∷ opcode world Opcode.prepare
    ∷ idle world trial
    ∷ idle world trial
    ∷ opcode world Opcode.read_start
    ∷ opcode world Opcode.read_stop
    ∷ []

abbrev worker_in : Option Worker → Worker
worker_in none = new_worker (order_of 5 6) 2
worker_in (some w) = w

abbrev done_reading : Worker
done_reading = worker_in (event_loop reading_rounds (new_worker (order_of 5 6) 2))

done_reading_lem :
    (event_loop reading_rounds (new_worker (order_of 5 6) 2) ≡ some done_reading)
    × (valid_transition Opcode.delete done_reading.state ≡ WorkerState.delete)
    × (done_reading.order.range_end - done_reading.order.range_start ≤ 1)
unfolding event_loop round handle_opcode valid_transition set_state set_state_with on_entry
    connect_targets respond_on_entry opcode_on_entry start_phase watch new_worker is_start_of_phase
    can_timeout_in send_response send_summary on_event_loop on_prepare_event write_or_prepare
    record_stat next_connection next_put_object invalidate_connection_caches next_stat advance
    new_store answered clear_stats
done_reading_lem = (refl, refl, omega arith)

deletes_range_example :
    (w' : Worker) × (event_loop
        (opcode world Opcode.delete ∷ undisturbed ((world, trial) ∷ []))
        done_reading
      ≡ some w')
    × (w'.state ≡ WorkerState.delete_done)
    × (was_removed 5 w'.actions ≡ true)
deletes_range_example =
    deletes_range (order_of 5 6) 2 5 reading_rounds done_reading world ((world, trial) ∷ [])
      (omega arith) (omega arith) (omega arith) (omega arith) (omega arith)
      (omega arith, (omega arith, (omega arith, (omega arith, (omega arith, (omega arith, tt))))))
      (omega arith) done_reading_lem.0 done_reading_lem.1 done_reading_lem.2
