-- ===== src/Worker/States.antt =====
-- The states of a worker and its tables (src/sibench/worker.go). A row that a Go map lacks is the
-- zero value, `bad_transition`.
use sibench.Base.{Bool, true, false, Option, none, some}
use sibench.Messages.{Opcode}

pub data WorkerState : Type 0 where
  bad_transition init connect connect_done write write_done prepare prepare_done : WorkerState
  read read_done read_write read_write_done delete delete_done terminated : WorkerState

-- The columns of `wsDetails`: `isStartOfPhase`, `canTimeout` and `opcodeOnEntry`. OP_None is
-- `none`. The columns of functions are `on_entry` and `on_event_loop` in Worker/Machine.antt and
-- Worker/Events.antt.
unfoldable pub is_start_of_phase : WorkerState → Bool
is_start_of_phase WorkerState.write = true
is_start_of_phase WorkerState.prepare = true
is_start_of_phase WorkerState.read = true
is_start_of_phase WorkerState.read_write = true
is_start_of_phase WorkerState.delete = true
is_start_of_phase _ = false

unfoldable pub can_timeout_in : WorkerState → Bool
can_timeout_in WorkerState.connect = true
can_timeout_in WorkerState.write = true
can_timeout_in WorkerState.prepare = true
can_timeout_in WorkerState.read = true
can_timeout_in WorkerState.read_write = true
can_timeout_in WorkerState.delete = true
can_timeout_in _ = false

unfoldable pub opcode_on_entry : WorkerState → Option Opcode
opcode_on_entry WorkerState.connect_done = some Opcode.connect
opcode_on_entry WorkerState.write = some Opcode.write_start
opcode_on_entry WorkerState.write_done = some Opcode.write_stop
opcode_on_entry WorkerState.prepare_done = some Opcode.prepare
opcode_on_entry WorkerState.read = some Opcode.read_start
opcode_on_entry WorkerState.read_done = some Opcode.read_stop
opcode_on_entry WorkerState.read_write = some Opcode.read_write_start
opcode_on_entry WorkerState.read_write_done = some Opcode.read_write_stop
opcode_on_entry WorkerState.delete_done = some Opcode.delete
opcode_on_entry WorkerState.terminated = some Opcode.terminate
opcode_on_entry _ = none

-- `validWSTransitions[op][state]`.
unfoldable pub valid_transition : Opcode → WorkerState → WorkerState
valid_transition Opcode.connect WorkerState.init = WorkerState.connect
valid_transition Opcode.write_start WorkerState.connect_done = WorkerState.write
valid_transition Opcode.write_stop WorkerState.write = WorkerState.write_done
valid_transition Opcode.prepare WorkerState.connect_done = WorkerState.prepare
valid_transition Opcode.prepare WorkerState.write_done = WorkerState.prepare
valid_transition Opcode.read_start WorkerState.prepare_done = WorkerState.read
valid_transition Opcode.read_stop WorkerState.read = WorkerState.read_done
valid_transition Opcode.read_write_start WorkerState.prepare_done = WorkerState.read_write
valid_transition Opcode.read_write_stop WorkerState.read_write = WorkerState.read_write_done
valid_transition Opcode.delete WorkerState.read_done = WorkerState.delete
valid_transition Opcode.delete WorkerState.read_write_done = WorkerState.delete
valid_transition Opcode.terminate WorkerState.init = WorkerState.terminated
valid_transition Opcode.terminate WorkerState.connect = WorkerState.terminated
valid_transition Opcode.terminate WorkerState.connect_done = WorkerState.terminated
valid_transition Opcode.terminate WorkerState.write = WorkerState.terminated
valid_transition Opcode.terminate WorkerState.write_done = WorkerState.terminated
valid_transition Opcode.terminate WorkerState.prepare = WorkerState.terminated
valid_transition Opcode.terminate WorkerState.prepare_done = WorkerState.terminated
valid_transition Opcode.terminate WorkerState.read = WorkerState.terminated
valid_transition Opcode.terminate WorkerState.read_done = WorkerState.terminated
valid_transition Opcode.terminate WorkerState.read_write = WorkerState.terminated
valid_transition Opcode.terminate WorkerState.read_write_done = WorkerState.terminated
valid_transition Opcode.terminate WorkerState.delete = WorkerState.terminated
valid_transition Opcode.terminate WorkerState.delete_done = WorkerState.terminated
valid_transition Opcode.terminate WorkerState.terminated = WorkerState.terminated
valid_transition _ _ = WorkerState.bad_transition
