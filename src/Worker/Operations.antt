-- ===== src/Worker/Operations.antt =====
-- Every write and every read of a worker keeps the invariant.
use sibench.Base.{ℕ, ◌+◌, ◌<◌, ◌≡◌, refl, arith, if◌then◌else◌, ◌∙◌, sym, ◌++◌, ◌%◌}
use sibench.Base.{true, false, some, [], ◌∷◌, lt→ltb}
use sibench.Base.Bits.{u64}
use mathlib.Core.Path.{subst}
use sibench.Messages.{StatPhase, StatError}
use sibench.Worker.Store.Log.{next_stat_lem}
use sibench.Worker.Store.Appends.{IsStore}
use sibench.Worker.Machine.{Worker, Action, put, get, invalidate_caches, send_summary}
use sibench.Worker.Events.{
  Trial, record_stat, stat_of, next_connection, next_put_object, next_get_object,
  invalidate_connection_caches,
}
use sibench.Worker.Events.{answered}
use sibench.Worker.Sound.{
  IsSound, is_filling, is_prepared, is_over, is_connected, was_put, was_put-append,
}

-- `w'` is `w` after one operation on a connection, the indices not yet advanced.
pub record Did (action : Action) (w w' : Worker) : Type 0 where
  pub state : w'.state ≡ w.state
  pub order : w'.order ≡ w.order
  pub object_index : w'.object_index ≡ w.object_index
  pub cycle : w'.cycle ≡ w.cycle
  pub connections : w'.connections ≡ w.connections
  pub conn_index : w'.conn_index ≡ w.conn_index
  pub stored : IsStore w'.store
  pub actions : w'.actions ≡ w.actions ++ (action ∷ [])

pub record_stat_lem :
    (a : Action) (p : StatPhase) (e : StatError) (t : Trial) (w : Worker)
    → w.conn_index < w.connections
    → IsStore w.store
    → (w' : Worker) × (record_stat a p e t w ≡ some w') × Did a w w'
unfolding record_stat answered send_summary
record_stat_lem a p e t w c h =
    let (st, q, k, r) = next_stat_lem (stat_of p e t w) w.store h in
    (
      answered a p e t st w,
      rw (lt→ltb _ _ c, if◌then◌else◌) (rw q),
      record {
        state = refl;
        order = refl;
        object_index = refl;
        cycle = refl;
        connections = refl;
        conn_index = refl;
        stored = k;
        actions = refl;
      },
    )

pub next_in_range : (i n : ℕ) → i < n → u64 (i + 1) % n < n
next_in_range i n h = grind arith

put-store : (w : Worker) → (next_connection (next_put_object w)).store ≡ w.store
unfolding next_connection next_put_object
put-store w = ground arith

get-store : (w : Worker) → (next_connection (next_get_object w)).store ≡ w.store
unfolding next_connection next_get_object invalidate_connection_caches
get-store w = ground arith

get-was_put :
    (id : ℕ) (w : Worker)
    → was_put id (next_connection (next_get_object w)).actions ≡ was_put id w.actions
unfolding next_connection next_get_object invalidate_connection_caches
get-was_put id w = ground (arith, was_put-append id w.actions (invalidate_caches ∷ []))

-- An object is written, and the indices go on.
pub put-IsSound :
    (size id : ℕ) (w w' : Worker)
    → IsSound size id w
    → is_filling w.state ≡ true
    → is_connected w.state ≡ true
    → Did (put w.object_index w.cycle w.conn_index) w w'
    → IsSound size id (next_connection (next_put_object w'))
unfolding next_connection next_put_object
put-IsSound size id w w' h f c d = record {
  nonempty = ground arith;
  fits = ground arith;
  sized = ground arith;
  inside = ground arith;
  low = ground arith;
  high = λ a. ground arith;
  fresh = λ a. ground arith;
  connected = λ a. ground (arith, next_in_range w'.conn_index w'.connections);
  stored = subst IsStore (sym (put-store w')) d.stored;
  filling = λ a b l u.
      ground (arith, was_put-append id w.actions (put w.object_index w.cycle w.conn_index ∷ []));
  prepared = λ a l u. ground arith;
}

pub get-IsSound :
    (size id : ℕ) (w w' : Worker)
    → IsSound size id w
    → is_prepared w.state ≡ true
    → is_over w.state ≡ false
    → Did (get w.object_index w.conn_index) w w'
    → IsSound size id (next_connection (next_get_object w'))
unfolding next_connection next_get_object invalidate_connection_caches
get-IsSound size id w w' h p c d = record {
  nonempty = ground arith;
  fits = ground arith;
  sized = ground arith;
  inside = ground arith;
  low = ground arith;
  high = λ a. ground arith;
  fresh = λ a. ground arith;
  connected = λ a. ground (arith, next_in_range w'.conn_index w'.connections);
  stored = subst IsStore (sym (get-store w')) d.stored;
  filling = λ a b l u. ground arith;
  prepared = λ a l u.
      get-was_put id w'
      ∙ ground
          (arith, was_put-append id w.actions (get w.object_index w.conn_index ∷ []), h.prepared p);
}

-- The same in the read and write phase, whose objects are all written already.
pub put_prepared-IsSound :
    (size id : ℕ) (w w' : Worker)
    → IsSound size id w
    → is_prepared w.state ≡ true
    → is_over w.state ≡ false
    → Did (put w.object_index w.cycle w.conn_index) w w'
    → IsSound size id (next_connection (next_put_object w'))
unfolding next_connection next_put_object
put_prepared-IsSound size id w w' h p c d = record {
  nonempty = ground arith;
  fits = ground arith;
  sized = ground arith;
  inside = ground arith;
  low = ground arith;
  high = λ a. ground arith;
  fresh = λ a. ground arith;
  connected = λ a. ground (arith, next_in_range w'.conn_index w'.connections);
  stored = subst IsStore (sym (put-store w')) d.stored;
  filling = λ a b l u. ground arith;
  prepared = λ a l u.
      ground (arith, was_put-append id w.actions (put w.object_index w.cycle w.conn_index ∷ []));
}
