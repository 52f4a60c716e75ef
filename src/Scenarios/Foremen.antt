-- ===== src/Scenarios/Foremen.antt =====
-- A foreman with two workers.
use sibench.Base.{ℕ, ◌≡◌, refl, arith, true, false, none, some, [], ◌∷◌, ◌++◌, replicate}
use sibench.Messages.{Opcode}
use sibench.Foreman.States.{ForemanState, valid_tcp_transition}
use sibench.Foreman.Machine.{
  Foreman, WorkerShare, reported, next, to_manager, bad_tcp, to_workers, terminate_stats, closed,
}
use sibench.Foreman.Connect.{Site}
use sibench.Foreman.Handlers.{
  connection, message, worker_response, connection_close, event_loop, start_foreman, handle_tcp_msg,
}
use sibench.Foreman.Invariant.{IsSound, Returns}
use sibench.Foreman.Steps.{run-IsSound}
use sibench.Foreman.Orders.{phase_completes, invalid_message_terminates, completed, started}
use sibench.Foreman.Idle.{idle_message_waits, WaitsForever}
use sibench.Scenarios.Orders.{order_of, whole_numbers, two_cpus}

abbrev site : Site
site = two_cpus (λ j. true)

abbrev share_of : ℕ → ℕ → ℕ → WorkerShare
share_of i start end = record {
  id = i;
  range_start = start;
  range_end = end;
  bandwidth = 500;
  stat_preallocation_count = 8;
}

abbrev connected : Foreman
connected = record {
  order = some (order_of 10 20);
  workers = share_of 0 10 15 ∷ share_of 1 15 20 ∷ [];
  stats_running = true;
  tcp_connection = some 3;
  response_pending = 0;
  state = ForemanState.connect_done;
  profiling = false;
  profile_index = 0;
  sent = [];
}

abbrev pub idle_foreman : Foreman
idle_foreman = record connected { stats_running = false; state = ForemanState.idle }

idle_foreman-IsSound : IsSound idle_foreman
idle_foreman-IsSound = record { resting = refl; stats = refl }

run-IsSound_example : Returns IsSound (
    event_loop whole_numbers site
      (connection 3
        ∷ message Opcode.connect (order_of 10 20)
        ∷ worker_response Opcode.connect (reported 9)
        ∷ worker_response Opcode.connect (reported 9)
        ∷ message Opcode.write_start (order_of 10 20)
        ∷ connection_close 3
        ∷ [])
      (start_foreman false))
run-IsSound_example = run-IsSound whole_numbers site false (
    connection 3
    ∷ message Opcode.connect (order_of 10 20)
    ∷ worker_response Opcode.connect (reported 9)
    ∷ worker_response Opcode.connect (reported 9)
    ∷ message Opcode.write_start (order_of 10 20)
    ∷ connection_close 3
    ∷ [])

phase_completes_example :
    (event_loop whole_numbers site
        (message Opcode.write_start (order_of 10 20)
          ∷ replicate 2 (worker_response Opcode.write_start (reported 9)))
        connected
      ≡ next (completed Opcode.write_start (started Opcode.write_start connected)))
    × (event_loop whole_numbers site
          (message Opcode.write_start (order_of 10 20)
            ∷ replicate 1 (worker_response Opcode.write_start (reported 9)))
          connected
        ≡ next (record (started Opcode.write_start connected) { response_pending = 1 }))
unfolding valid_tcp_transition
phase_completes_example =
    phase_completes whole_numbers site Opcode.write_start (order_of 10 20) (reported 9) 1 1
      connected refl refl refl refl refl (omega arith) (omega arith)

invalid_message_terminates_example :
    handle_tcp_msg whole_numbers site Opcode.read_stop (order_of 10 20) connected
    ≡ next (record connected {
      stats_running = false;
      tcp_connection = none;
      response_pending = 2;
      state = ForemanState.idle;
      sent =
          (([]
              ++ (to_manager Opcode.fail (some (bad_tcp ForemanState.connect_done Opcode.read_stop))
                  ∷ []))
            ++ to_workers Opcode.terminate connected.workers)
          ++ (terminate_stats ∷ to_manager Opcode.terminate none ∷ closed 3 ∷ []);
    })
unfolding valid_tcp_transition
invalid_message_terminates_example =
    invalid_message_terminates whole_numbers site Opcode.read_stop (order_of 10 20) connected 3 refl
      refl refl

idle_message_waits_example :
    WaitsForever (handle_tcp_msg whole_numbers site Opcode.terminate (order_of 10 20) idle_foreman)
idle_message_waits_example =
    idle_message_waits whole_numbers site Opcode.terminate (order_of 10 20) idle_foreman
      idle_foreman-IsSound refl (λ e. cc) (λ e. cc)
