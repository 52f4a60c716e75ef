-- ===== src/Worker/Frame.antt =====
-- What the state changes of a worker leave alone.
use sibench.Base.{ℕ, ◌+◌, ◌≡◌, refl, arith, length, ◌⊎◌, ◌∙◌}
use sibench.Base.{Bool, true, false, List, [], ◌∷◌}
use sibench.Worker.States.{WorkerState}
use sibench.Worker.Machine.{
  Worker, World, send_response, send_summary, fail, respond_on_entry, start_phase, watch,
  set_state_with, connect_targets, on_entry, set_state,
}

-- `w'` is `w` moved to the state `s`, in all that the phases of a benchmark count with.
pub record Frame (s : WorkerState) (w w' : Worker) : Type 0 where
  pub state : w'.state ≡ s
  pub order : w'.order ≡ w.order
  pub object_index : w'.object_index ≡ w.object_index
  pub cycle : w'.cycle ≡ w.cycle
  pub connections : w'.connections ≡ w.connections
  pub conn_index : w'.conn_index ≡ w.conn_index
  pub store : w'.store ≡ w.store
  pub actions : w'.actions ≡ w.actions

pub Frame-trans : (s t : WorkerState) (u v w : Worker) → Frame s u v → Frame t v w → Frame t u w
Frame-trans s t u v w f g = record {
  state = g.state;
  order = g.order ∙ f.order;
  object_index = g.object_index ∙ f.object_index;
  cycle = g.cycle ∙ f.cycle;
  connections = g.connections ∙ f.connections;
  conn_index = g.conn_index ∙ f.conn_index;
  store = g.store ∙ f.store;
  actions = g.actions ∙ f.actions;
}

pub send_summary-Frame : (t : ℕ) (w : Worker) → Frame w.state w (send_summary t true w)
unfolding send_summary
send_summary-Frame t w = ground arith

respond_on_entry-Frame : (s : WorkerState) (w : Worker) → Frame w.state w (respond_on_entry s w)
unfolding respond_on_entry send_response
respond_on_entry-Frame s w = ground arith

start_phase-Frame : (now : ℕ) (s : WorkerState) (w : Worker) → Frame w.state w (start_phase now s w)
unfolding start_phase
start_phase-Frame now s w = ground arith

watch-Frame : (now : ℕ) (s : WorkerState) (w : Worker) → Frame w.state w (watch now s w)
unfolding watch send_summary
watch-Frame now s w = ground arith

-- The end of `setState`, after the function that is called on entry.
entered-Frame :
    (now : ℕ) (s t : WorkerState) (w : Worker)
    → w.state ≡ t
    → Frame t w (watch now s (start_phase now s w))
entered-Frame now s t w e =
    ground (arith, start_phase-Frame now s w, watch-Frame now s (start_phase now s w))

pub set_state_with-Frame :
    (now : ℕ) (s : WorkerState) (w : Worker) → Frame s w (set_state_with (λ w. w) now s w)
unfolding set_state_with
set_state_with-Frame now s w =
    let f = respond_on_entry-Frame s (record w { state = s }) in
    let g = entered-Frame now s s (respond_on_entry s (record w { state = s })) f.state in
    ground arith

-- A worker that has tried its targets: it is connected to all of them, or terminated.
pub record Tried (n : ℕ) (w w' : Worker) : Type 0 where
  pub order : w'.order ≡ w.order
  pub object_index : w'.object_index ≡ w.object_index
  pub cycle : w'.cycle ≡ w.cycle
  pub conn_index : w'.conn_index ≡ w.conn_index
  pub store : w'.store ≡ w.store
  pub actions : w'.actions ≡ w.actions
  pub outcome :
      (w'.state ≡ WorkerState.terminated)
      ⊎ ((w'.state ≡ WorkerState.connect_done) × (w'.connections ≡ w.connections + n))

connect_targets-Tried :
    (now : ℕ) (targets : List Bool) (w : Worker)
    → Tried (length targets) w (connect_targets now targets w)
unfolding connect_targets fail send_response
connect_targets-Tried now [] w =
    let f = set_state_with-Frame now WorkerState.connect_done w in ground arith
connect_targets-Tried now (true ∷ rest) w =
    let ih = connect_targets-Tried now rest (record w { connections = w.connections + 1 }) in
    ground arith
connect_targets-Tried now (false ∷ rest) w = ground arith

-- `setState(WS_Connect)` ends in another state than WS_Connect: `onConnect` has moved on.
pub set_state-connect :
    (world : World) (w : Worker)
    → Tried (length world.connects) w (set_state world WorkerState.connect w)
unfolding set_state set_state_with on_entry
set_state-connect world w =
    let v = record w { state = WorkerState.connect } in
    let v' = respond_on_entry WorkerState.connect v in
    let f = respond_on_entry-Frame WorkerState.connect v in
    let tried = connect_targets-Tried world.now world.connects v' in
    let u = connect_targets world.now world.connects v' in
    let g = entered-Frame world.now WorkerState.connect u.state u refl in ground arith

pub set_state_delete :
    (world : World) (w : Worker)
    → Frame WorkerState.delete
        (record w { object_index = w.order.range_start })
        (set_state world WorkerState.delete w)
unfolding set_state set_state_with on_entry
set_state_delete world w =
    let v = record w { state = WorkerState.delete } in
    let v' = respond_on_entry WorkerState.delete v in
    let f = respond_on_entry-Frame WorkerState.delete v in
    let u = record v' { object_index = v'.order.range_start } in
    let g = entered-Frame world.now WorkerState.delete u.state u refl in ground arith

abbrev pub is_simple : WorkerState → Bool
is_simple WorkerState.connect = false
is_simple WorkerState.delete = false
is_simple _ = true

-- Every other state is entered with nothing but the reports to the foreman.
pub set_state_simple :
    (world : World) (s : WorkerState) (w : Worker)
    → is_simple s ≡ true
    → Frame s w (set_state world s w)
unfolding set_state on_entry
set_state_simple world WorkerState.connect w h = cc
set_state_simple world WorkerState.delete w h = cc
set_state_simple world s w h = set_state_with-Frame world.now _ w
