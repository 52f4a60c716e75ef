-- ===== src/Worker/Deletes.antt =====
-- A worker's delete phase (src/sibench/worker.go), its end and the objects that it deletes.
use sibench.Base.{
  ℕ, suc, ◌+◌, ◌-◌, ◌<◌, ◌≤◌, ◌==◌, ◌||◌, ◌≡◌, refl, ap, ◌∙◌, arith, if◌then◌else◌, Bool, true,
  false, Bool-cases, All, inl, inr, ◌⊎◌, leb, some, List, [], ◌∷◌, ◌++◌, length,
}
use mathlib.Core.Path.{subst}
use sibench.Base.Bits.{u64_mod, u64}
use sibench.Messages.{WorkOrder, Opcode, StatPhase}
use sibench.Worker.States.{WorkerState, valid_transition}
use sibench.Worker.Machine.{
  Worker, World, Action, put, get, remove, invalidate_caches, new_worker, set_state, handle_opcode,
}
use sibench.Worker.Events.{
  Trial, put_error, next_connection, next_delete_object, Round, opcode, idle, round, event_loop,
  on_event_loop, on_delete_event, is_terminated,
}
use sibench.Base.{map}
use sibench.Worker.Able.{well, event_loop-well, well-HasTargets, well-Generates}
use sibench.Worker.Rounds.{HasTargets, event_loop-Keeps, new_worker-IsSound}
use sibench.Worker.Frame.{set_state_simple, set_state_delete}
use sibench.Worker.Sound.{IsSound}
use sibench.Worker.Opcodes.{HasTarget, handle_opcode-IsSound}
use sibench.Worker.Operations.{Did, record_stat_lem}
use sibench.Worker.Ends.{next_delete-IsSound}
use sibench.Worker.Prepares.{undisturbed, event_loop-round}

abbrev pub was_removed : ℕ → List Action → Bool
was_removed id [] = false
was_removed id (remove j conn ∷ rest) = (id == j) || was_removed id rest
was_removed id (_ ∷ rest) = was_removed id rest

was_removed-append :
    (id : ℕ) (xs ys : List Action)
    → was_removed id (xs ++ ys) ≡ (was_removed id xs || was_removed id ys)
was_removed-append id [] ys = refl
was_removed-append id (remove j k ∷ xs) ys = ground (arith, was_removed-append id xs ys)
was_removed-append id (get j k ∷ xs) ys = was_removed-append id xs ys
was_removed-append id (put j c k ∷ xs) ys = was_removed-append id xs ys
was_removed-append id (invalidate_caches ∷ xs) ys = was_removed-append id xs ys

-- Where the object `id` is deleted once the index has passed it.
abbrev Sweeps : ℕ → Worker → Type 0
Sweeps id w = w.order.range_start ≤ id → id < w.object_index → was_removed id w.actions ≡ true

done_stays :
    (ts : List (World × Trial)) (w : Worker)
    → w.state ≡ WorkerState.delete_done
    → event_loop (undisturbed ts) w ≡ some w
unfolding event_loop round on_event_loop
done_stays [] w e = refl
done_stays ((world, t) ∷ ts) w e =
    event_loop-round (idle world t) (undisturbed ts) w w (simp e refl) ∙ done_stays ts w e

round_delete :
    (world : World) (t : Trial) (w : Worker)
    → w.state ≡ WorkerState.delete
    → round (idle world t) w ≡ on_delete_event world t w
unfolding round on_event_loop
round_delete world t w e = simp e refl

-- What a round in the delete phase comes to.
record Went (id : ℕ) (w w' : Worker) : Type 0 where
  order : w'.order ≡ w.order
  sweeps : Sweeps id w'
  on :
      ((w'.state ≡ WorkerState.delete_done) × (id < w'.object_index))
      ⊎ ((w'.state ≡ WorkerState.delete) × (w'.object_index ≡ suc w.object_index))

-- The object at the index is deleted.
swept_lem :
    (id : ℕ) (w v : Worker)
    → Sweeps id w
    → Did (remove w.object_index w.conn_index) w v
    → w.order.range_start ≤ id
    → id < suc w.object_index
    → was_removed id v.actions ≡ true
swept_lem id w v s d l u =
    let app = was_removed-append id w.actions (remove w.object_index w.conn_index ∷ []) in
    ap (was_removed id) d.actions ∙ app ∙ elim (Bool-cases (id == w.object_index)) [
      | inl own ↦ ground (arith, own)
      | inr earlier ↦ ground (arith, s l (ground (arith, earlier, u)))
    ]

next_delete-Went :
    (size id : ℕ) (world : World) (w v : Worker)
    → IsSound size id w
    → w.state ≡ WorkerState.delete
    → Sweeps id w
    → Did (remove w.object_index w.conn_index) w v
    → Went id w (next_delete_object world v)
unfolding next_delete_object next_connection
next_delete-Went size id world w v h e s d =
    let i = d.object_index in
    let inside = h.high (ground arith) in
    let next : u64 (v.object_index + 1) ≡ suc w.object_index = omega (arith, i, inside, h.fits) in
    let moved = record v { object_index = u64 (v.object_index + 1) } in
    let swept = swept_lem id w v s d in
    let end = ap (λ (o : WorkOrder). o.range_end) d.order in
    elim (Bool-cases (leb v.order.range_end (u64 (v.object_index + 1)))) [
      | inl last ↦
          (let reached : v.order.range_end ≤ u64 (v.object_index + 1) = ground (arith, last) in
            let f = set_state_simple world WorkerState.delete_done moved refl in
            rw (last, if◌then◌else◌)
              (record {
                order = f.order ∙ d.order;
                sweeps = λ l u.
                    ap (was_removed id) f.actions
                    ∙ swept h.inside.0 (omega (arith, u, f.object_index, next));
                on = inl (f.state, omega (arith, f.object_index, reached, end, h.inside.1));
              }))
      | inr more ↦
          rw (more, if◌then◌else◌)
            (record {
              order = d.order;
              sweeps = λ l u. swept h.inside.0 (omega (arith, u, next));
              on = inr (d.state ∙ e, next);
            })
    ]

-- A round in the delete phase.
round_deletes :
    (size id : ℕ) (world : World) (t : Trial) (w : Worker)
    → IsSound size id w
    → w.state ≡ WorkerState.delete
    → Sweeps id w
    → (w' : Worker) × (round (idle world t) w ≡ some w') × IsSound size id w' × Went id w w'
unfolding on_delete_event
round_deletes size id world t w h e s =
    let r =
      record_stat_lem (remove w.object_index w.conn_index) StatPhase.delete (put_error t) t w
        (h.connected (ground arith)) h.stored in
    (
      next_delete_object world r.0,
      round_delete world t w e ∙ rw (r.1) refl,
      next_delete-IsSound size id world w r.0 h e r.2,
      next_delete-Went size id world w r.0 h e s r.2,
    )

delete_rounds :
    (size id : ℕ) (ts : List (World × Trial)) (w : Worker)
    → IsSound size id w
    → w.state ≡ WorkerState.delete
    → Sweeps id w
    → w.order.range_end - w.object_index ≤ length ts
    → (w' : Worker) × (event_loop (undisturbed ts) w ≡ some w')
      × (w'.state ≡ WorkerState.delete_done)
      × (was_removed id w'.actions ≡ true)
delete_rounds size id [] w h e s m = absurd (omega (arith, m, h.high (ground arith)))
delete_rounds size id ((world, t) ∷ ts) w h e s m =
    let (w', went, sound, r) = round_deletes size id world t w h e s in
    let step = event_loop-round (idle world t) (undisturbed ts) w w' went in
    let end = ap (λ (o : WorkOrder). o.range_end) r.order in
    elim r.on [
      | inl (over, passed) ↦
          (w', step ∙ done_stays ts w' over, over, r.sweeps sound.inside.0 passed)
      | inr (on, next) ↦
          (let (w'', ran, over, removed) =
              delete_rounds size id ts w' sound on r.sweeps
                (omega (arith, m, next, end, h.high (ground arith))) in
            (w'', step ∙ ran, over, removed))
    ]

allowed_state :
    (s : WorkerState)
    → valid_transition Opcode.delete s ≡ WorkerState.delete
    → is_terminated s ≡ false
unfolding valid_transition
allowed_state s e = ground arith

entered :
    (world : World) (w : Worker)
    → valid_transition Opcode.delete w.state ≡ WorkerState.delete
    → handle_opcode world Opcode.delete w ≡ set_state world WorkerState.delete w
unfolding handle_opcode
entered world w e = rw (e, handle_opcode, if◌then◌else◌) refl

round_opcode :
    (world : World) (w : Worker)
    → valid_transition Opcode.delete w.state ≡ WorkerState.delete
    → round (opcode world Opcode.delete) w ≡ some (set_state world WorkerState.delete w)
unfolding round
round_opcode world w e =
    rw (allowed_state w.state e, round, if◌then◌else◌) (ap some (entered world w e))

-- A worker that may start its delete phase, after whatever it went through since it was made, ends
-- the phase when it is left to itself for as many rounds as it has objects, and has then called
-- DeleteObject for every object of its range, however the calls went.
pub deletes_range :
    (order : WorkOrder) (n id : ℕ) (rs : List Round) (w : Worker) (world : World)
    (ts : List (World × Trial))
    → order.range_start < order.range_end
    → order.range_end < u64_mod
    → 0 < n
    → order.range_start ≤ id
    → id < order.range_end
    → All HasTargets rs
    → HasTarget world
    → event_loop rs (new_worker order n) ≡ some w
    → valid_transition Opcode.delete w.state ≡ WorkerState.delete
    → w.order.range_end - w.order.range_start ≤ length ts
    → (w' : Worker) × (event_loop (opcode world Opcode.delete ∷ undisturbed ts) w ≡ some w')
      × (w'.state ≡ WorkerState.delete_done)
      × (was_removed id w'.actions ≡ true)
deletes_range order n id rs w world ts h k p l u targets target e allowed enough =
    let kept =
      event_loop-Keeps order.object_size id (map well rs) (new_worker order n)
        (well-HasTargets rs targets) (well-Generates order.object_size rs)
        (new_worker-IsSound id order n h k p l u) in
    let sound : IsSound order.object_size id w =
      rw (event_loop-well rs (new_worker order n) w e) at kept in
    let v = set_state world WorkerState.delete w in
    let f = set_state_delete world w in
    let sound' : IsSound order.object_size id v =
      subst (IsSound order.object_size id) (entered world w allowed)
        (handle_opcode-IsSound order.object_size id world Opcode.delete w target sound) in
    let start = ap (λ (o : WorkOrder). o.range_start) f.order in
    let end = ap (λ (o : WorkOrder). o.range_end) f.order in
    let sweeps : Sweeps id v = λ l' u'. absurd (omega (arith, l', u', f.object_index, start)) in
    let (w', ran, over, removed) =
      delete_rounds order.object_size id ts v sound' f.state sweeps
        (omega (arith, enough, f.object_index, start, end)) in
    (
      w',
      event_loop-round (opcode world Opcode.delete) (undisturbed ts) w v
            (round_opcode world w allowed)
          ∙ ran,
      over,
      removed,
    )
