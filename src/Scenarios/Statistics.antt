-- ===== src/Scenarios/Statistics.antt =====
-- Summaries and ticks of two workers, and a mount with a few users.
use sibench.Base.{ℕ, length, ◌+◌, ◌<◌, ◌≤◌, ◌≡◌, refl, arith, true, false, some, List, [], ◌∷◌}
use sibench.Messages.{StatPhase, StatError}
use sibench.Messages.Summary.{zeroed, bump, add, total, StatSummary}
use sibench.Base.{◌*◌}
use sibench.Foreman.Stats.{adjusted, StatsLoop, WorkerSummary, receive_summary, tick, second}
use sibench.Foreman.Stats.Timeouts.{tick-reported, reported, silent}
use sibench.Mounts.Clients.{
  Call, arrive, mount_done, leave, unmount_done, run, nobody, run-exclusive, Clients,
}
use sibench.Job.{Job}
use sibench.Scenarios.Orders.{order_of, job_of}
use sibench.Analysis.{ServerStat, Analysis, new_analysis}
use sibench.Analysis.Figures.{Bounds, successful, new_analysis-Bounds}

abbrev one_write : StatSummary
one_write = bump StatPhase.write StatError.ok zeroed

abbrev from_second : WorkerSummary
from_second = record { counts = one_write; worker_id = 1; can_timeout = true }

abbrev pub watching : StatsLoop
watching = record {
  heartbeats =
      record { last_summary = 5 * second; can_timeout = true }
      ∷ record { last_summary = 5 * second; can_timeout = true }
      ∷ [];
  hang_timeout = 90 * second;
  summary = zeroed;
  send_summaries = true;
  reports = [];
}

abbrev pub heard : StatsLoop
heard = record watching {
  heartbeats =
      record { last_summary = 5 * second; can_timeout = true }
      ∷ record { last_summary = 100 * second; can_timeout = true }
      ∷ [];
  hang_timeout = 78_750_000_000;
  summary = add zeroed one_write;
}

heard_lem : receive_summary (100 * second) from_second watching ≡ some heard
unfolding receive_summary total bump zeroed adjusted
heard_lem = refl

-- At 110 seconds, after a summary of the second worker, the first has been silent for 105 seconds.
tick-reported_example :
    reported 0 (tick (110 * second) heard).reports
    ≡ silent
        (110 * second)
        78_750_000_000
        (some (record { last_summary = 5 * second; can_timeout = true }))
unfolding receive_summary total bump zeroed adjusted
tick-reported_example =
    tick-reported ((100 * second, from_second) ∷ []) (110 * second) 0 watching {s' = heard} refl

-- Two connections share a mount, a third one comes while it is being unmounted.
abbrev sharing : List Call
sharing =
    arrive
    ∷ arrive
    ∷ mount_done false
    ∷ arrive
    ∷ mount_done true
    ∷ arrive
    ∷ leave
    ∷ leave
    ∷ arrive
    ∷ unmount_done
    ∷ arrive
    ∷ []

run-exclusive_example :
    (c : Clients) × (run sharing nobody ≡ some c)
    × (c.mounters + c.unmounters ≤ 1)
    × (0 < c.mounters + c.unmounters → c.users ≡ 0)
run-exclusive_example = run-exclusive sharing (omega arith)

abbrev served : StatError → ℕ → ServerStat
served error micros = record {
  stat = record {
    phase = StatPhase.read;
    error = error;
    target_index = 0;
    time_since_phase_start_millis = 6000;
    duration_micros = micros;
  };
  server_index = 1;
}

abbrev a_run : List ServerStat
a_run =
    served StatError.ok 900 ∷ served StatError.operation_failure 20 ∷ served StatError.ok 300 ∷ []

abbrev a_job : Job
a_job = job_of (order_of 0 10)

new_analysis-Bounds_example :
    (a : Analysis) × (new_analysis a_run "reads" StatPhase.read true a_job ≡ some a)
    × (a.successes + a.failures ≡ 3)
    × (a.successes ≡ length (successful a_run))
    × Bounds a (successful a_run)
new_analysis-Bounds_example =
    new_analysis-Bounds a_run "reads" StatPhase.read true a_job (omega arith)
