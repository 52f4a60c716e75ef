-- ===== src/Foreman/Connect.antt =====
-- `connect` of a foreman (src/sibench/foreman.go): it makes the workers and divides the range of
-- objects between them.
use sibench.Base.{ℕ, zero, suc, ◌+◌, ◌-◌, ◌*◌, ◌/◌, ◌==◌, ltb, if◌then◌else◌}
use sibench.Base.{Bool, true, false, some, List, [], ◌∷◌}
use sibench.Base.Bits.{u64_mod, u64}
use sibench.Base.Floats.{Float32}
use sibench.Misc.PowerOfTwo.{previous_power_of_two}
use sibench.Messages.{Opcode, WorkOrder}
use sibench.Foreman.States.{ForemanState}
use sibench.Foreman.Machine.{
  Foreman, WorkerShare, Outcome, panicked, ◌>>=◌, next, hostname, fail, set_state,
  send_opcode_to_workers,
}

-- What `connect` asks of the machine: `uint64(float64(NumCPU()) * WorkerFactor)`, the physical
-- memory, the size of a `Stat`, whether there is a host name, whether `NewWorker` succeeds for a
-- worker, and whether `os.Create` does.
pub record Site : Type 0 where
  pub cpu_workers : ℕ
  pub physical_memory : ℕ
  pub stat_bytes : ℕ
  pub has_hostname : Bool
  pub makes_worker : ℕ → Bool
  pub creates_files : Bool

-- `RangeEnd - RangeStart` wraps.
unfoldable pub range_len : WorkOrder → ℕ
range_len o = u64 (o.range_end + u64_mod - o.range_start)

unfoldable pub worker_count : Site → WorkOrder → ℕ
worker_count site o = if ltb (range_len o) site.cpu_workers then range_len o else site.cpu_workers

unfoldable pub preallocation : Site → ℕ → ℕ
preallocation site n =
    let count = previous_power_of_two (site.physical_memory / u64 (4 * site.stat_bytes * n)) in
    if ltb (1024 * 1024) count then 1024 * 1024 else count

unfoldable pub renewed : WorkOrder → Foreman → Foreman
renewed o f = record f { order = some o; workers = []; stats_running = false }

-- `WorkerSpec` and the worker's copy of the order, from the ends of its range.
abbrev share : ℕ → ℕ → ℕ → ℕ → ℕ → WorkerShare
share bandwidth count i start end = record {
  id = i;
  range_start = start;
  range_end = end;
  bandwidth = bandwidth;
  stat_preallocation_count = count;
}

module _ (fl : Float32) where
  open fl use {Carrier, of_u64, to_u64, add, div}

  -- The loop, with `k` rounds left; `start` is the variable `rangeStart`. The `err` that the body
  -- assigns is a new variable, so a failure of `NewWorker` only leaves the worker out.
  unfoldable pub shares : (ℕ → Bool) → ℕ → ℕ → Carrier → Carrier → ℕ → ℕ → List WorkerShare
  shares makes bandwidth count stride start i zero = []
  shares makes bandwidth count stride start i (suc k) =
      let rest = shares makes bandwidth count stride (add start stride) (i + 1) k in
      if makes i
      then share bandwidth count i (to_u64 start) (to_u64 (add start stride)) ∷ rest
      else rest

  unfoldable pub make_workers : Site → WorkOrder → ℕ → List WorkerShare
  make_workers site o n =
      shares site.makes_worker (o.bandwidth / n) (preallocation site n)
        (div (of_u64 (range_len o)) (of_u64 n)) (of_u64 o.range_start) 0 n

  -- The end of `connect`, with the go-routine `processStats` started.
  unfoldable pub start_workers : Site → WorkOrder → Foreman → Outcome
  start_workers site o f =
      set_state site.creates_files ForemanState.connect
        (record f { workers = make_workers site o (worker_count site o); stats_running = true })
      >>= λ f. next (send_opcode_to_workers Opcode.connect f)

  -- A division by zero panics. The channels of the statistics are made anew before anything can
  -- fail, and `processStats` is started after the workers are made.
  unfoldable pub connect : Site → WorkOrder → Foreman → Outcome
  connect site o f =
      if u64 (4 * site.stat_bytes * worker_count site o) == 0
      then panicked
      else if site.has_hostname
      then start_workers site o (renewed o f)
      else fail site.creates_files hostname (renewed o f)
