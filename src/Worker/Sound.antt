-- ===== src/Worker/Sound.antt =====
-- The invariant of a worker: its indices stay in range, its store is well formed, and until the
-- prepare phase is over it has written every object below its index, or all of them once its cycle
-- is not 0.
use sibench.Base.{ℕ, ◌<◌, ◌≤◌, ◌≡◌, refl, arith, ◌⊎◌, ◌≢◌, ◌∙◌, sym, ◌==◌, ◌||◌, ◌++◌}
use sibench.Base.{Bool, true, false, List, [], ◌∷◌}
use sibench.Base.Bits.{u64_mod}
use mathlib.Core.Path.{subst}
use sibench.Messages.{Opcode}
use sibench.Worker.States.{WorkerState, valid_transition}
use sibench.Worker.Store.Appends.{IsStore}
use sibench.Worker.Machine.{Worker, Action, put, get, remove, invalidate_caches, is_bad}
use sibench.Worker.Frame.{Frame, is_simple}

-- Before the prepare phase is over, and after.
abbrev pub is_filling : WorkerState → Bool
is_filling WorkerState.init = true
is_filling WorkerState.connect = true
is_filling WorkerState.connect_done = true
is_filling WorkerState.write = true
is_filling WorkerState.write_done = true
is_filling WorkerState.prepare = true
is_filling _ = false

abbrev pub is_prepared : WorkerState → Bool
is_prepared WorkerState.prepare_done = true
is_prepared WorkerState.read = true
is_prepared WorkerState.read_done = true
is_prepared WorkerState.read_write = true
is_prepared WorkerState.read_write_done = true
is_prepared WorkerState.delete = true
is_prepared WorkerState.delete_done = true
is_prepared _ = false

-- The states in which no object is left to work on.
abbrev pub is_over : WorkerState → Bool
is_over WorkerState.delete_done = true
is_over WorkerState.terminated = true
is_over _ = false

abbrev pub is_connected : WorkerState → Bool
is_connected WorkerState.bad_transition = false
is_connected WorkerState.init = false
is_connected WorkerState.connect = false
is_connected WorkerState.terminated = false
is_connected _ = true

abbrev pub was_put : ℕ → List Action → Bool
was_put id [] = false
was_put id (put j cycle conn ∷ rest) = (id == j) || was_put id rest
was_put id (_ ∷ rest) = was_put id rest

-- `id` is an object of the range, which the last two fields speak of.
pub record IsSound (size id : ℕ) (w : Worker) : Type 0 where
  pub nonempty : w.order.range_start < w.order.range_end
  pub fits : w.order.range_end < u64_mod
  pub sized : w.order.object_size ≡ size
  pub inside : (w.order.range_start ≤ id) × (id < w.order.range_end)
  pub low : w.order.range_start ≤ w.object_index
  pub high : is_over w.state ≡ false → w.object_index < w.order.range_end
  pub fresh : w.state ≡ WorkerState.init → w.conn_index ≡ 0
  pub connected : is_connected w.state ≡ true → w.conn_index < w.connections
  pub stored : IsStore w.store
  pub filling :
      is_filling w.state ≡ true
      → (0 < w.cycle) ⊎ (id < w.object_index)
      → w.order.range_start ≤ id
      → id < w.order.range_end
      → was_put id w.actions ≡ true
  pub prepared :
      is_prepared w.state ≡ true
      → w.order.range_start ≤ id
      → id < w.order.range_end
      → was_put id w.actions ≡ true

pub was_put-append :
    (id : ℕ) (xs ys : List Action) → was_put id (xs ++ ys) ≡ (was_put id xs || was_put id ys)
was_put-append id [] ys = refl
was_put-append id (put j c k ∷ xs) ys = ground (arith, was_put-append id xs ys)
was_put-append id (get j k ∷ xs) ys = was_put-append id xs ys
was_put-append id (remove j k ∷ xs) ys = was_put-append id xs ys
was_put-append id (invalidate_caches ∷ xs) ys = was_put-append id xs ys

-- What the tables allow, as far as the invariant goes.
pub transition_cases :
    (op : Opcode) (s : WorkerState)
    → is_bad (valid_transition op s) ≡ false
    → ((valid_transition op s ≡ WorkerState.connect) × (s ≡ WorkerState.init))
      ⊎ ((valid_transition op s ≡ WorkerState.delete)
          × (is_prepared s ≡ true)
          × (is_connected s ≡ true))
      ⊎ (valid_transition op s ≡ WorkerState.terminated)
      ⊎ ((is_simple (valid_transition op s) ≡ true)
          × (valid_transition op s ≢ WorkerState.init)
          × (is_over s ≡ false)
          × (is_connected s ≡ true)
          × (is_prepared (valid_transition op s) ≡ is_prepared s)
          × (is_filling (valid_transition op s) ≡ is_filling s))
unfolding valid_transition
transition_cases op s h = ground arith

-- Entering a state by an assignment.
pub moved-IsSound :
    (size id : ℕ) (s : WorkerState) (w w' : Worker)
    → IsSound size id w
    → Frame s w w'
    → s ≢ WorkerState.init
    → is_over w.state ≡ false
    → is_connected w.state ≡ true
    → is_prepared s ≡ is_prepared w.state
    → is_filling s ≡ is_filling w.state
    → IsSound size id w'
moved-IsSound size id s w w' h f n o c p q = record {
  nonempty = ground arith;
  fits = ground arith;
  sized = ground arith;
  inside = ground arith;
  low = ground arith;
  high = λ _. ground arith;
  fresh = λ e. absurd (n (sym f.state ∙ e));
  connected = λ _. ground arith;
  stored = subst IsStore (sym f.store) h.stored;
  filling = λ a b c d. ground arith;
  prepared = λ a b c. ground arith;
}
