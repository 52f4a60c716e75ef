-- ===== src/Protocol.antt =====
-- The foreman (src/sibench/foreman.go) and its workers (src/sibench/worker.go) follow the same
-- phases: their three transition tables agree.
use sibench.Base.{Bool, true, false, some, ◌≡◌, refl, ◌∙◌, ap, arith}
use sibench.Messages.{Opcode}
use sibench.Foreman.States.{ForemanState, valid_tcp_transition, valid_worker_transition}
use sibench.Foreman.Handlers.{is_bad}
use sibench.Foreman.Invariant.{is_phase_op}
use sibench.Worker.States.{WorkerState, valid_transition, opcode_on_entry}
use sibench.Worker.Machine.{Worker, World, handle_opcode, set_state}
use sibench.Worker.Frame.{set_state_simple, set_state_delete}

-- The state of the workers when each has acknowledged the foreman's last phase opcode.
abbrev pub worker_of : ForemanState → WorkerState
worker_of ForemanState.connect_done = WorkerState.connect_done
worker_of ForemanState.write_start_done = WorkerState.write
worker_of ForemanState.write_stop_done = WorkerState.write_done
worker_of ForemanState.prepare_done = WorkerState.prepare_done
worker_of ForemanState.read_start_done = WorkerState.read
worker_of ForemanState.read_stop_done = WorkerState.read_done
worker_of ForemanState.read_write_start_done = WorkerState.read_write
worker_of ForemanState.read_write_stop_done = WorkerState.read_write_done
worker_of ForemanState.delete_done = WorkerState.delete_done
worker_of _ = WorkerState.bad_transition

-- The state in which a worker answers: the two phases that end by themselves answer at their end.
abbrev pub answering : WorkerState → WorkerState
answering WorkerState.prepare = WorkerState.prepare_done
answering WorkerState.delete = WorkerState.delete_done
answering s = s

abbrev is_entered : WorkerState → Bool
is_entered WorkerState.bad_transition = false
is_entered WorkerState.connect = false
is_entered _ = true

tables_agree :
    (op : Opcode) (s : ForemanState)
    → is_phase_op op ≡ true
    → is_bad (valid_tcp_transition op s) ≡ false
    → let d = valid_worker_transition op (valid_tcp_transition op s) in
      (is_bad d ≡ false)
      × (is_entered (valid_transition op (worker_of s)) ≡ true)
      × (answering (valid_transition op (worker_of s)) ≡ worker_of d)
      × (opcode_on_entry (worker_of d) ≡ some op)
unfolding valid_tcp_transition valid_worker_transition valid_transition opcode_on_entry
tables_agree op s p h = ground arith

set_state-state :
    (world : World) (s : WorkerState) (w : Worker)
    → is_entered s ≡ true
    → (set_state world s w).state ≡ s
set_state-state world WorkerState.bad_transition w h = cc
set_state-state world WorkerState.connect w h = cc
set_state-state world WorkerState.delete w h = (set_state_delete world w).state
set_state-state world s w h = (set_state_simple world _ w refl).state

handle_opcode-entered :
    (world : World) (op : Opcode) (w : Worker) (s : WorkerState)
    → valid_transition op w.state ≡ s
    → is_entered s ≡ true
    → handle_opcode world op w ≡ set_state world s w
unfolding handle_opcode
handle_opcode-entered world op w WorkerState.bad_transition e h = cc
handle_opcode-entered world op w s e h = rw e refl

-- A phase opcode that is valid for the foreman is valid for its workers, where they are in the
-- state that they acknowledged last; the state in which a worker acknowledges the opcode is the one
-- that the foreman's last acknowledgment stands for, and its acknowledgment is valid for the
-- foreman.
pub phases_agree :
    (world : World) (op : Opcode) (s : ForemanState) (w : Worker)
    → is_phase_op op ≡ true
    → is_bad (valid_tcp_transition op s) ≡ false
    → w.state ≡ worker_of s
    → let d = valid_worker_transition op (valid_tcp_transition op s) in
      (is_bad d ≡ false)
      × (answering (handle_opcode world op w).state ≡ worker_of d)
      × (opcode_on_entry (worker_of d) ≡ some op)
phases_agree world op s w p h e =
    let t = tables_agree op s p h in
    let target = valid_transition op (worker_of s) in
    let entered = handle_opcode-entered world op w target (ap (valid_transition op) e) t.1 in
    let there = ap (λ (v : Worker). v.state) entered ∙ set_state-state world target w t.1 in
    (t.0, ap answering there ∙ t.2, t.3)
