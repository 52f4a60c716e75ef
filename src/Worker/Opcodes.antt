-- ===== src/Worker/Opcodes.antt =====
-- Every opcode that a worker handles keeps the invariant.
use sibench.Base.{ℕ, ◌<◌, ◌≡◌, refl, arith, length, if◌then◌else◌, Bool-cases, inl, inr, sym}
use sibench.Base.{true}
use mathlib.Core.Path.{subst}
use sibench.Messages.{Opcode}
use sibench.Worker.States.{WorkerState, valid_transition}
use sibench.Worker.Store.Appends.{IsStore}
use sibench.Worker.Machine.{Worker, World, fail, handle_opcode, send_response, is_bad}
use sibench.Worker.Frame.{Frame, Tried, set_state-connect, set_state_delete, set_state_simple}
use sibench.Worker.Sound.{IsSound, is_prepared, is_connected, transition_cases, moved-IsSound}

-- The connected worker has at least one target.
abbrev pub HasTarget : World → Type 0
HasTarget world = 0 < length world.connects

terminated-IsSound :
    (size id : ℕ) (w w' : Worker)
    → IsSound size id w
    → Frame WorkerState.terminated w w'
    → IsSound size id w'
terminated-IsSound size id w w' h f = record {
  nonempty = ground arith;
  fits = ground arith;
  sized = ground arith;
  inside = ground arith;
  low = ground arith;
  high = λ a. ground arith;
  fresh = λ e. ground arith;
  connected = λ a. ground arith;
  stored = subst IsStore (sym f.store) h.stored;
  filling = λ a b c d. ground arith;
  prepared = λ a b c. ground arith;
}

fail-Frame : (w : Worker) → Frame WorkerState.terminated w (fail w)
unfolding fail send_response
fail-Frame w = ground arith

connected-IsSound :
    (size id n : ℕ) (w w' : Worker)
    → 0 < n
    → IsSound size id w
    → w.state ≡ WorkerState.init
    → Tried n w w'
    → IsSound size id w'
connected-IsSound size id n w w' t h e f = record {
  nonempty = ground arith;
  fits = ground arith;
  sized = ground arith;
  inside = ground arith;
  low = ground arith;
  high = λ a. ground arith;
  fresh = λ a. ground arith;
  connected = λ a. ground arith;
  stored = subst IsStore (sym f.store) h.stored;
  filling = λ a b c d. ground arith;
  prepared = λ a b c. ground arith;
}

delete-IsSound :
    (size id : ℕ) (w w' : Worker)
    → IsSound size id w
    → is_prepared w.state ≡ true
    → is_connected w.state ≡ true
    → Frame WorkerState.delete (record w { object_index = w.order.range_start }) w'
    → IsSound size id w'
delete-IsSound size id w w' h p c f = record {
  nonempty = ground arith;
  fits = ground arith;
  sized = ground arith;
  inside = ground arith;
  low = ground arith;
  high = λ a. ground arith;
  fresh = λ a. ground arith;
  connected = λ a. ground arith;
  stored = subst IsStore (sym f.store) h.stored;
  filling = λ a b c d. ground arith;
  prepared = λ a b c. ground arith;
}

pub handle_opcode-IsSound :
    (size id : ℕ) (world : World) (op : Opcode) (w : Worker)
    → HasTarget world
    → IsSound size id w
    → IsSound size id (handle_opcode world op w)
unfolding handle_opcode
handle_opcode-IsSound size id world op w t h =
    elim (Bool-cases (is_bad (valid_transition op w.state))) [
      | inl bad ↦ rw (bad, if◌then◌else◌) (terminated-IsSound size id w (fail w) h (fail-Frame w))
      | inr fine ↦
          rw (fine, if◌then◌else◌)
            (elim (transition_cases op w.state fine) [
              | inl (c, i) ↦ rw c (
                  connected-IsSound size id (length world.connects) w _ t h i
                    (set_state-connect world w))
              | inr (inl (d, p, k)) ↦
                  rw d (delete-IsSound size id w _ h p k (set_state_delete world w))
              | inr (inr (inl e)) ↦ rw e (
                  terminated-IsSound size id w _ h
                    (set_state_simple world WorkerState.terminated w refl))
              | inr (inr (inr (s, n, o, k, p, q))) ↦
                  moved-IsSound size id (valid_transition op w.state) w _ h
                    (set_state_simple world (valid_transition op w.state) w s) n o k p q
            ])
    ]
