-- ===== src/Job.antt =====
-- A job (src/sibench/job.go): what the manager is asked to run.
use sibench.Base.{ℕ, Bool, List}
use Prim.Native.String.{String}
use sibench.Messages.{WorkOrder}

-- The durations are in seconds. `individual_stats` is the argument of that name; the other
-- arguments are only written into the report, as one value.
pub record Job : Type 0 where
  pub individual_stats : Bool
  pub order : WorkOrder
  pub servers : List String
  pub server_port : ℕ
  pub ramp_up : ℕ
  pub run_time : ℕ
  pub ramp_down : ℕ
  pub use_bytes : Bool
  pub script : String
