-- ===== src/Messages.antt =====
-- The messages that the manager, the foremen and their workers exchange
-- (src/sibench/messages.go). The summary counters and their loops are in Messages/Summary.antt.
pub mod Summary
use sibench.Base.{ℕ, Bool, List, ◌==◌}
use Prim.Native.String.{String}

-- `Opcode`, with OP_None as `no_op`.
pub data Opcode : Type 0 where
  no_op fail hung stat_summary busy discovery stat_details stat_details_done : Opcode
  stat_summary_start stat_summary_stop connect write_start write_stop prepare : Opcode
  read_start read_stop read_write_start read_write_stop delete terminate : Opcode

pub Opcode-discrete : Discrete Opcode
Opcode-discrete = hlevel

-- The numbers of the opcodes: they are uint8 constants, counted from OP_None.
unfoldable pub code : Opcode → ℕ
code Opcode.no_op = 0
code Opcode.fail = 1
code Opcode.hung = 2
code Opcode.stat_summary = 3
code Opcode.busy = 4
code Opcode.discovery = 5
code Opcode.stat_details = 6
code Opcode.stat_details_done = 7
code Opcode.stat_summary_start = 8
code Opcode.stat_summary_stop = 9
code Opcode.connect = 10
code Opcode.write_start = 11
code Opcode.write_stop = 12
code Opcode.prepare = 13
code Opcode.read_start = 14
code Opcode.read_stop = 15
code Opcode.read_write_start = 16
code Opcode.read_write_stop = 17
code Opcode.delete = 18
code Opcode.terminate = 19

-- `==` on opcodes.
abbrev pub same_opcode : Opcode → Opcode → Bool
same_opcode a b = code a == code b

-- `SP_Len` is no phase: it counts them.
pub data StatPhase : Type 0 where
  write prepare read delete : StatPhase

pub StatPhase-discrete : Discrete StatPhase
StatPhase-discrete = hlevel

-- `SE_None` is `ok`; `SE_Len` counts the codes.
pub data StatError : Type 0 where
  ok verify_failure operation_failure : StatError

pub StatError-discrete : Discrete StatError
StatError-discrete = hlevel

-- `TargetIndex` is a uint16, the two times are uint32.
pub record Stat : Type 0 where
  pub phase : StatPhase
  pub error : StatError
  pub target_index : ℕ
  pub time_since_phase_start_millis : ℕ
  pub duration_micros : ℕ

-- What a foreman says of its server.
pub record Discovery : Type 0 where
  pub cores : ℕ
  pub ram : ℕ
  pub version : String

-- The string-to-string maps are association lists. `WorkerFactor`, a float64, is used in one
-- product only, which is a parameter of the foreman's `connect`.
pub record WorkOrder : Type 0 where
  pub job_id : ℕ
  pub bandwidth : ℕ
  pub skip_read_validation : Bool
  pub read_write_mix : ℕ
  pub object_key_prefix : String
  pub object_size : ℕ
  pub seed : ℕ
  pub generator_type : String
  pub range_start : ℕ
  pub range_end : ℕ
  pub connection_type : String
  pub targets : List String
  pub protocol_config : List (String × String)
  pub generator_config : List (String × String)
  pub clean_up_on_close : Bool
