-- ===== src/Foreman/States.antt =====
-- The states of a foreman and its tables (src/sibench/foreman.go). A row that a Go map lacks is
-- the zero value, `bad_transition`.
use sibench.Base.{Bool, true, false}
use sibench.Messages.{Opcode}

pub data ForemanState : Type 0 where
  bad_transition idle connect connect_done : ForemanState
  write_start write_start_done write_stop write_stop_done prepare prepare_done : ForemanState
  read_start read_start_done read_stop read_stop_done : ForemanState
  read_write_start read_write_start_done read_write_stop read_write_stop_done : ForemanState
  delete delete_done terminate hung : ForemanState

pub ForemanState-discrete : Discrete ForemanState
ForemanState-discrete = hlevel

-- The column `clearTimeouts` of `stateDetails`.
unfoldable pub clear_timeouts : ForemanState → Bool
clear_timeouts ForemanState.write_start = true
clear_timeouts ForemanState.prepare = true
clear_timeouts ForemanState.read_start = true
clear_timeouts ForemanState.read_write_start = true
clear_timeouts ForemanState.delete = true
clear_timeouts _ = false

-- Whether `profileStartSuffix` is not empty.
unfoldable pub starts_profile : ForemanState → Bool
starts_profile ForemanState.write_start = true
starts_profile ForemanState.read_start = true
starts_profile ForemanState.read_write_start = true
starts_profile _ = false

-- Whether `profileStopSuffix` is not empty.
unfoldable pub stops_profile : ForemanState → Bool
stops_profile ForemanState.write_stop = true
stops_profile ForemanState.read_stop = true
stops_profile ForemanState.read_write_stop = true
stops_profile _ = false

-- `validTcpTransitions[op][state]`.
unfoldable pub valid_tcp_transition : Opcode → ForemanState → ForemanState
valid_tcp_transition Opcode.discovery ForemanState.idle = ForemanState.idle
valid_tcp_transition Opcode.connect ForemanState.idle = ForemanState.connect
valid_tcp_transition Opcode.write_start ForemanState.connect_done = ForemanState.write_start
valid_tcp_transition Opcode.write_stop ForemanState.write_start_done = ForemanState.write_stop
valid_tcp_transition Opcode.prepare ForemanState.connect_done = ForemanState.prepare
valid_tcp_transition Opcode.prepare ForemanState.write_stop_done = ForemanState.prepare
valid_tcp_transition Opcode.read_start ForemanState.prepare_done = ForemanState.read_start
valid_tcp_transition Opcode.read_stop ForemanState.read_start_done = ForemanState.read_stop
valid_tcp_transition Opcode.read_write_start ForemanState.prepare_done =
    ForemanState.read_write_start
valid_tcp_transition Opcode.read_write_stop ForemanState.read_write_start_done =
    ForemanState.read_write_stop
valid_tcp_transition Opcode.delete ForemanState.read_stop_done = ForemanState.delete
valid_tcp_transition Opcode.delete ForemanState.read_write_stop_done = ForemanState.delete
valid_tcp_transition Opcode.stat_details ForemanState.write_stop_done = ForemanState.write_stop_done
valid_tcp_transition Opcode.stat_details ForemanState.prepare_done = ForemanState.prepare_done
valid_tcp_transition Opcode.stat_details ForemanState.read_stop_done = ForemanState.read_stop_done
valid_tcp_transition Opcode.stat_details ForemanState.read_write_stop_done =
    ForemanState.read_write_stop_done
valid_tcp_transition Opcode.stat_details ForemanState.delete_done = ForemanState.delete_done
valid_tcp_transition Opcode.stat_summary_start ForemanState.connect_done = ForemanState.connect_done
valid_tcp_transition Opcode.stat_summary_start ForemanState.write_start = ForemanState.write_start
valid_tcp_transition Opcode.stat_summary_start ForemanState.write_start_done =
    ForemanState.write_start_done
valid_tcp_transition Opcode.stat_summary_start ForemanState.write_stop = ForemanState.write_stop
valid_tcp_transition Opcode.stat_summary_start ForemanState.write_stop_done =
    ForemanState.write_stop_done
valid_tcp_transition Opcode.stat_summary_start ForemanState.prepare = ForemanState.prepare
valid_tcp_transition Opcode.stat_summary_start ForemanState.prepare_done = ForemanState.prepare_done
valid_tcp_transition Opcode.stat_summary_start ForemanState.read_start = ForemanState.read_start
valid_tcp_transition Opcode.stat_summary_start ForemanState.read_start_done =
    ForemanState.read_start_done
valid_tcp_transition Opcode.stat_summary_start ForemanState.read_stop = ForemanState.read_stop
valid_tcp_transition Opcode.stat_summary_start ForemanState.read_stop_done =
    ForemanState.read_stop_done
valid_tcp_transition Opcode.stat_summary_start ForemanState.read_write_start =
    ForemanState.read_write_start
valid_tcp_transition Opcode.stat_summary_start ForemanState.read_write_start_done =
    ForemanState.read_write_start_done
valid_tcp_transition Opcode.stat_summary_start ForemanState.read_write_stop =
    ForemanState.read_write_stop
valid_tcp_transition Opcode.stat_summary_start ForemanState.read_write_stop_done =
    ForemanState.read_write_stop_done
valid_tcp_transition Opcode.stat_summary_start ForemanState.delete = ForemanState.delete
valid_tcp_transition Opcode.stat_summary_start ForemanState.delete_done = ForemanState.delete_done
valid_tcp_transition Opcode.stat_summary_stop ForemanState.write_start = ForemanState.write_start
valid_tcp_transition Opcode.stat_summary_stop ForemanState.write_start_done =
    ForemanState.write_start_done
valid_tcp_transition Opcode.stat_summary_stop ForemanState.write_stop = ForemanState.write_stop
valid_tcp_transition Opcode.stat_summary_stop ForemanState.write_stop_done =
    ForemanState.write_stop_done
valid_tcp_transition Opcode.stat_summary_stop ForemanState.prepare = ForemanState.prepare
valid_tcp_transition Opcode.stat_summary_stop ForemanState.prepare_done = ForemanState.prepare_done
valid_tcp_transition Opcode.stat_summary_stop ForemanState.read_start = ForemanState.read_start
valid_tcp_transition Opcode.stat_summary_stop ForemanState.read_start_done =
    ForemanState.read_start_done
valid_tcp_transition Opcode.stat_summary_stop ForemanState.read_stop = ForemanState.read_stop
valid_tcp_transition Opcode.stat_summary_stop ForemanState.read_stop_done =
    ForemanState.read_stop_done
valid_tcp_transition Opcode.stat_summary_stop ForemanState.read_write_start =
    ForemanState.read_write_start
valid_tcp_transition Opcode.stat_summary_stop ForemanState.read_write_start_done =
    ForemanState.read_write_start_done
valid_tcp_transition Opcode.stat_summary_stop ForemanState.read_write_stop =
    ForemanState.read_write_stop
valid_tcp_transition Opcode.stat_summary_stop ForemanState.read_write_stop_done =
    ForemanState.read_write_stop_done
valid_tcp_transition Opcode.stat_summary_stop ForemanState.delete = ForemanState.delete
valid_tcp_transition Opcode.stat_summary_stop ForemanState.delete_done = ForemanState.delete_done
valid_tcp_transition Opcode.terminate ForemanState.idle = ForemanState.terminate
valid_tcp_transition Opcode.terminate ForemanState.connect = ForemanState.terminate
valid_tcp_transition Opcode.terminate ForemanState.connect_done = ForemanState.terminate
valid_tcp_transition Opcode.terminate ForemanState.write_start = ForemanState.terminate
valid_tcp_transition Opcode.terminate ForemanState.write_start_done = ForemanState.terminate
valid_tcp_transition Opcode.terminate ForemanState.write_stop = ForemanState.terminate
valid_tcp_transition Opcode.terminate ForemanState.write_stop_done = ForemanState.terminate
valid_tcp_transition Opcode.terminate ForemanState.prepare = ForemanState.terminate
valid_tcp_transition Opcode.terminate ForemanState.prepare_done = ForemanState.terminate
valid_tcp_transition Opcode.terminate ForemanState.read_start = ForemanState.terminate
valid_tcp_transition Opcode.terminate ForemanState.read_start_done = ForemanState.terminate
valid_tcp_transition Opcode.terminate ForemanState.read_stop = ForemanState.terminate
valid_tcp_transition Opcode.terminate ForemanState.read_stop_done = ForemanState.terminate
valid_tcp_transition Opcode.terminate ForemanState.read_write_start = ForemanState.terminate
valid_tcp_transition Opcode.terminate ForemanState.read_write_start_done = ForemanState.terminate
valid_tcp_transition Opcode.terminate ForemanState.read_write_stop = ForemanState.terminate
valid_tcp_transition Opcode.terminate ForemanState.read_write_stop_done = ForemanState.terminate
valid_tcp_transition Opcode.terminate ForemanState.delete = ForemanState.terminate
valid_tcp_transition Opcode.terminate ForemanState.delete_done = ForemanState.terminate
valid_tcp_transition Opcode.terminate ForemanState.terminate = ForemanState.terminate
valid_tcp_transition Opcode.terminate ForemanState.hung = ForemanState.hung
valid_tcp_transition _ _ = ForemanState.bad_transition

-- `validWorkerTransitions[op][state]`.
unfoldable pub valid_worker_transition : Opcode → ForemanState → ForemanState
valid_worker_transition Opcode.connect ForemanState.connect = ForemanState.connect_done
valid_worker_transition Opcode.write_start ForemanState.write_start = ForemanState.write_start_done
valid_worker_transition Opcode.write_stop ForemanState.write_stop = ForemanState.write_stop_done
valid_worker_transition Opcode.prepare ForemanState.prepare = ForemanState.prepare_done
valid_worker_transition Opcode.read_start ForemanState.read_start = ForemanState.read_start_done
valid_worker_transition Opcode.read_stop ForemanState.read_stop = ForemanState.read_stop_done
valid_worker_transition Opcode.read_write_start ForemanState.read_write_start =
    ForemanState.read_write_start_done
valid_worker_transition Opcode.read_write_stop ForemanState.read_write_stop =
    ForemanState.read_write_stop_done
valid_worker_transition Opcode.delete ForemanState.delete = ForemanState.delete_done
valid_worker_transition Opcode.terminate ForemanState.terminate = ForemanState.idle
valid_worker_transition Opcode.fail ForemanState.connect = ForemanState.terminate
valid_worker_transition Opcode.fail ForemanState.write_start = ForemanState.terminate
valid_worker_transition Opcode.fail ForemanState.write_stop = ForemanState.terminate
valid_worker_transition Opcode.fail ForemanState.prepare = ForemanState.terminate
valid_worker_transition Opcode.fail ForemanState.read_start = ForemanState.terminate
valid_worker_transition Opcode.fail ForemanState.read_stop = ForemanState.terminate
valid_worker_transition Opcode.fail ForemanState.read_write_start = ForemanState.terminate
valid_worker_transition Opcode.fail ForemanState.read_write_stop = ForemanState.terminate
valid_worker_transition Opcode.fail ForemanState.terminate = ForemanState.terminate
valid_worker_transition _ _ = ForemanState.bad_transition
