-- ===== src/Worker/Ends.antt =====
-- Every delete of a worker, and the end of its prepare phase, keep the invariant.
use sibench.Base.{ℕ, ◌+◌, ◌<◌, ◌≡◌, refl, arith, if◌then◌else◌, Bool-cases, inl, inr, sym, leb}
use sibench.Base.{[], ◌∷◌}
use sibench.Base.Bits.{u64}
use mathlib.Core.Path.{subst}
use sibench.Worker.States.{WorkerState}
use sibench.Worker.Store.Appends.{IsStore}
use sibench.Worker.Machine.{Worker, World, remove, invalidate_caches}
use sibench.Worker.Events.{Trial, next_connection, invalidate_connection_caches}
use sibench.Worker.Frame.{Frame, set_state_simple}
use sibench.Worker.Events.{next_delete_object, paced}
use sibench.Worker.Sound.{IsSound, was_put, was_put-append}
use sibench.Worker.Operations.{Did, next_in_range}

removed-was_put :
    (id : ℕ) (w w' : Worker)
    → Did (remove w.object_index w.conn_index) w w'
    → was_put id w'.actions ≡ was_put id w.actions
removed-was_put id w w' d =
    ground (arith, was_put-append id w.actions (remove w.object_index w.conn_index ∷ []))

-- An object is deleted that is not the last one.
delete_more-IsSound :
    (size id : ℕ) (w w' : Worker)
    → IsSound size id w
    → w.state ≡ WorkerState.delete
    → Did (remove w.object_index w.conn_index) w w'
    → w.object_index + 1 < w.order.range_end
    → IsSound size id (next_connection (record w' { object_index = u64 (w'.object_index + 1) }))
unfolding next_connection
delete_more-IsSound size id w w' h e d l = record {
  nonempty = ground arith;
  fits = ground arith;
  sized = ground arith;
  inside = ground arith;
  low = ground arith;
  high = λ a. ground arith;
  fresh = λ a. ground arith;
  connected = λ a. ground (arith, next_in_range w'.conn_index w'.connections);
  stored = d.stored;
  filling = λ a b l u. ground arith;
  prepared = λ a l u. ground (arith, removed-was_put id w w' d);
}

-- The last object is deleted.
delete_last-IsSound :
    (size id : ℕ) (w w' w'' : Worker)
    → IsSound size id w
    → w.state ≡ WorkerState.delete
    → Did (remove w.object_index w.conn_index) w w'
    → Frame WorkerState.delete_done (record w' { object_index = u64 (w'.object_index + 1) }) w''
    → IsSound size id w''
delete_last-IsSound size id w w' w'' h e d f = record {
  nonempty = ground arith;
  fits = ground arith;
  sized = ground arith;
  inside = ground arith;
  low = ground arith;
  high = λ a. ground arith;
  fresh = λ a. ground arith;
  connected = λ a. ground arith;
  stored = subst IsStore (sym f.store) d.stored;
  filling = λ a b l u. ground arith;
  prepared = λ a l u. ground (arith, removed-was_put id w w' d);
}

pub next_delete-IsSound :
    (size id : ℕ) (world : World) (w w' : Worker)
    → IsSound size id w
    → w.state ≡ WorkerState.delete
    → Did (remove w.object_index w.conn_index) w w'
    → IsSound size id (next_delete_object world w')
unfolding next_delete_object
next_delete-IsSound size id world w w' h e d =
    let moved = record w' { object_index = u64 (w'.object_index + 1) } in
    elim (Bool-cases (leb w'.order.range_end (u64 (w'.object_index + 1)))) [
      | inl last ↦
          rw (last, if◌then◌else◌)
            (delete_last-IsSound size id w w' _ h e d
              (set_state_simple world WorkerState.delete_done moved refl))
      | inr more ↦ rw (more, if◌then◌else◌) (delete_more-IsSound size id w w' h e d (ground arith))
    ]

pub prepare_done-IsSound :
    (size id : ℕ) (w w' : Worker)
    → IsSound size id w
    → w.state ≡ WorkerState.prepare
    → 0 < w.cycle
    → Frame WorkerState.prepare_done (invalidate_connection_caches w) w'
    → IsSound size id w'
unfolding invalidate_connection_caches
prepare_done-IsSound size id w w' h e c f = record {
  nonempty = ground arith;
  fits = ground arith;
  sized = ground arith;
  inside = ground arith;
  low = ground arith;
  high = λ a. ground arith;
  fresh = λ a. ground arith;
  connected = λ a. ground arith;
  stored = subst IsStore (sym f.store) h.stored;
  filling = λ a b l u. ground arith;
  prepared = λ a l u. ground (arith, was_put-append id w.actions (invalidate_caches ∷ []));
}

pub paced-IsSound :
    (size id : ℕ) (t : Trial) (w : Worker) → IsSound size id w → IsSound size id (paced t w)
unfolding paced
paced-IsSound size id t w h = record {
  nonempty = h.nonempty;
  fits = h.fits;
  sized = h.sized;
  inside = h.inside;
  low = h.low;
  high = h.high;
  fresh = h.fresh;
  connected = h.connected;
  stored = h.stored;
  filling = h.filling;
  prepared = h.prepared;
}
