-- ===== src/Scenarios/Managers.antt =====
-- Runs of the manager on a job with two servers.
use sibench.Base.{◌≤◌, ℕ, leb, true, false, none, List, [], ◌∷◌, ◌≡◌, refl, arith}
use Prim.Native.String.{len}
use sibench.Messages.{Opcode, code}
use sibench.Messages.Summary.{zeroed}
use sibench.Job.{Job}
use sibench.Manager.{
  Manager, Body, no_body, discovered, summary, Event, received, transport, signal, tick, returned,
  is_failure,
}
use sibench.Manager.Loops.{wait_for_responses, terminate}
use sibench.Manager.Run.{Surroundings, new_manager, run_job, run_benchmark}
use sibench.Manager.Sends.{Ends}
use sibench.Manager.Plans.{script_of}
use sibench.Manager.Follows.{HasFollowed, run_benchmark-HasFollowed}
use sibench.Manager.Understood.{IsUnderstood, run_benchmark-IsUnderstood}
use sibench.Manager.Waits.{returns, terminate-returns, wait_for_responses-calm}
use sibench.Manager.Stopped.{run_job_unreachable}
use sibench.Messages.{WorkOrder}
use Prim.Native.String.{String}
use sibench.Ranges.{owners}
use sibench.Manager.{ServerDetails, Sent, to_connect}
use sibench.Manager.Run.{order_shares, send_job}
use sibench.Base.{◌++◌, ◌&&◌, if◌then◌else◌, ltb}
use sibench.Manager.Shares.{order_shares_bandwidth, orders_in, first, last, total_bandwidth}
use sibench.Manager.Partition.{send_job_partition}
use sibench.Scenarios.Orders.{order_of, job_of, whole_numbers}

abbrev two_servers : Job
two_servers = job_of (order_of 0 10)

-- The surroundings of a run in which the servers with names of a length up to `n` can be reached.
abbrev reaching : ℕ → Surroundings
reaching n = record {
  storage_connects = true;
  can_delete = true;
  creates_report = true;
  accepts_write = λ k. true;
  connects = λ s. leb (len s) n;
}

abbrev cores : ℕ → Body
cores n = discovered (record { cores = n; ram = 4096; version = "1" })

-- Both servers answer, the first phase begins, and a connection fails.
abbrev a_run : List Event
a_run =
    received 0 Opcode.discovery (cores 4)
    ∷ received 1 Opcode.discovery (cores 2)
    ∷ received 1 Opcode.connect no_body
    ∷ received 0 Opcode.connect no_body
    ∷ received 0 Opcode.stat_summary_start no_body
    ∷ received 1 Opcode.stat_summary_start no_body
    ∷ received 0 Opcode.prepare no_body
    ∷ tick
    ∷ transport 1 true
    ∷ received 0 Opcode.terminate no_body
    ∷ received 1 Opcode.terminate no_body
    ∷ []

run_benchmark-HasFollowed_example :
    Ends
      (HasFollowed (script_of false false))
      (HasFollowed (script_of false false))
      (run_benchmark whole_numbers (reaching 5) two_servers a_run)
run_benchmark-HasFollowed_example =
    run_benchmark-HasFollowed whole_numbers (reaching 5) two_servers a_run

run_benchmark-IsUnderstood_example :
    Ends IsUnderstood IsUnderstood (run_benchmark whole_numbers (reaching 5) two_servers a_run)
run_benchmark-IsUnderstood_example =
    run_benchmark-IsUnderstood whole_numbers (reaching 5) two_servers a_run

abbrev connected : Manager
connected = record (new_manager (reaching 5) two_servers) {
  conns = 0 ∷ 1 ∷ [];
  err = none;
  interrupted = false;
}

terminate-returns_example :
    returns
      (terminate connected (received 0 Opcode.terminate no_body ∷ transport 1 true ∷ signal ∷ []))
    ≡ false
unfolding code
terminate-returns_example =
    terminate-returns connected
      (received 0 Opcode.terminate no_body ∷ transport 1 true ∷ signal ∷ []) (omega arith)

abbrev answers_and_more : List Event
answers_and_more =
    received 1 Opcode.prepare no_body
    ∷ received 0 Opcode.stat_summary (summary zeroed)
    ∷ received 0 Opcode.prepare no_body
    ∷ received 0 Opcode.stat_summary (summary zeroed)
    ∷ []

wait_for_responses-calm_example :
    wait_for_responses Opcode.prepare connected answers_and_more
    ≡ returned connected (received 0 Opcode.stat_summary (summary zeroed) ∷ [])
unfolding is_failure code
wait_for_responses-calm_example =
    wait_for_responses-calm Opcode.prepare connected answers_and_more 1 refl refl refl refl
      (omega arith)

run_job_unreachable_example :
    returns (
      run_job whole_numbers
        (reaching 4)
        two_servers
        (record connected {
          conns = [];
          job = record two_servers { servers = "west" ∷ "south" ∷ [] };
        })
        (received 0 Opcode.terminate no_body ∷ []))
    ≡ true
unfolding code
run_job_unreachable_example =
    run_job_unreachable whole_numbers (reaching 4) two_servers
      (record connected {
        conns = [];
        job = record two_servers { servers = "west" ∷ "south" ∷ [] };
      })
      (received 0 Opcode.terminate no_body ∷ []) ("west" ∷ []) [] "south" refl refl refl (refl, tt)
      refl (omega arith)

abbrev details_of : String → ℕ → ℕ → ServerDetails
details_of name index n = record {
  discovery = record { cores = n; ram = 4096; version = "1" };
  name = name;
  index = index;
}

abbrev two_details : List (ℕ × ServerDetails)
two_details = (0, details_of "north" 0 4) ∷ (1, details_of "south" 1 2) ∷ []

abbrev shared_order : WorkOrder
shared_order = order_of 0 12

abbrev two_orders : List Sent
two_orders =
    to_connect 0 (record shared_order { bandwidth = 666; range_start = 0; range_end = 8 })
    ∷ to_connect 1 (record shared_order { bandwidth = 333; range_start = 8; range_end = 12 })
    ∷ []

-- The manager of two servers with four and two cores.
abbrev dividing : Manager
dividing = record connected {
  details = two_details;
  core_count = 6;
  job = record two_servers { order = shared_order };
}

send_job_partition_example :
    (sent : List Sent) × (send_job whole_numbers dividing answers_and_more
      ≡ wait_for_responses Opcode.connect
          (record dividing { sent = dividing.sent ++ sent })
          answers_and_more)
    × ((x : ℕ) → owners first last x (orders_in sent) ≡ (if leb 0 x && ltb x 12 then 1 else 0))
send_job_partition_example =
    send_job_partition whole_numbers dividing answers_and_more refl (omega arith)
      ((details_of "north" 0 4, refl), ((details_of "south" 1 2, refl), tt)) refl
      (omega arith, (omega arith, tt)) refl

order_shares_bandwidth_example : total_bandwidth (orders_in two_orders) ≤ 1000
unfolding order_shares
order_shares_bandwidth_example =
    order_shares_bandwidth whole_numbers shared_order 6 two_details 2 0 (0 ∷ 1 ∷ []) two_orders
      (omega arith) (omega arith) (omega arith) refl
