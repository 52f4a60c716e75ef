-- ===== src/Worker/Rounds.antt =====
-- The rounds of a worker's event loop (src/sibench/worker.go), the invariant and the panics.
use sibench.Base.{
  ℕ, ◌<◌, ◌≤◌, ◌≡◌, refl, ap, ◌∙◌, arith, if◌then◌else◌, Bool-cases, ltb→lt, All, inl, inr, ltb,
}
use sibench.Base.{true, false, Option, none, some, List, [], ◌∷◌, Option-cases}
use sibench.Base.Bits.{u64_mod}
use sibench.Messages.{WorkOrder, StatPhase, StatError}
use sibench.Worker.States.{WorkerState}
use sibench.Worker.Store.Appends.{new_store-IsStore}
use sibench.Worker.Machine.{Worker, World, Action, new_worker}
use sibench.Worker.Events.{
  Trial, record_stat, next_connection, next_put_object, next_get_object,
  invalidate_connection_caches,
}
use sibench.Worker.Frame.{set_state_simple}
use sibench.Worker.Events.{
  Round, opcode, idle, round, event_loop, on_event_loop, write_or_prepare, on_write_event,
  on_prepare_event, on_read_event, on_read_write_event, on_delete_event, get_object,
  next_delete_object, and_then, paced, verify_panics, is_terminated,
}
use sibench.Worker.Sound.{IsSound, is_filling, is_prepared, is_over, is_connected}
use sibench.Worker.Opcodes.{HasTarget, handle_opcode-IsSound}
use sibench.Worker.Operations.{Did, record_stat_lem, put-IsSound, put_prepared-IsSound, get-IsSound}
use sibench.Worker.Ends.{next_delete-IsSound, prepare_done-IsSound, paced-IsSound}

-- The generator does not panic on objects of the given size.
abbrev pub IsAble : ℕ → Trial → Type 0
IsAble size t = (t.generates size ≡ true) × (t.verifies size ≡ true)

-- A round that does not panic.
abbrev pub Keeps : ℕ → ℕ → Option Worker → Type 0
Keeps size id none = ⊥
Keeps size id (some w) = IsSound size id w

operation-Keeps :
    (size id : ℕ) (a : Action) (p : StatPhase) (e : StatError) (t : Trial) (w : Worker)
    (k : Worker → Worker)
    → IsSound size id w
    → is_connected w.state ≡ true
    → ((w' : Worker) → Did a w w' → IsSound size id (k w'))
    → Keeps size id (and_then (record_stat a p e t w) k)
operation-Keeps size id a p e t w k h c next =
    let (w', q, d) = record_stat_lem a p e t w (h.connected c) h.stored in rw q (next w' d)

pub generated :
    (t : Trial) (w : Worker) (size : ℕ)
    → IsAble size t
    → w.order.object_size ≡ size
    → t.generates w.order.object_size ≡ true
generated t w size g e = ap t.generates e ∙ g.0

put-Keeps :
    (size id : ℕ) (p : StatPhase) (t : Trial) (w : Worker)
    → IsAble size t
    → IsSound size id w
    → is_filling w.state ≡ true
    → is_connected w.state ≡ true
    → Keeps size id (write_or_prepare p t w)
unfolding write_or_prepare
put-Keeps size id p t w g h f c =
    rw (generated t w size g h.sized, if◌then◌else◌)
      (operation-Keeps size id _ p _ t w (λ v. next_connection (next_put_object v)) h c
        (λ v d. put-IsSound size id w v h f c d))

verified :
    (t : Trial) (w : Worker) (size : ℕ)
    → IsAble size t
    → w.order.object_size ≡ size
    → verify_panics t w ≡ false
verified t w size g e = let v = ap t.verifies e ∙ g.1 in ground (arith, v)

get-Keeps :
    (size id : ℕ) (t : Trial) (w : Worker)
    → IsAble size t
    → IsSound size id w
    → is_prepared w.state ≡ true
    → is_over w.state ≡ false
    → is_connected w.state ≡ true
    → Keeps size id (get_object t w)
unfolding get_object
get-Keeps size id t w g h p o c =
    rw (verified t w size g h.sized, if◌then◌else◌)
      (operation-Keeps size id _ StatPhase.read _ t w (λ v. next_connection (next_get_object v)) h c
        (λ v d. get-IsSound size id w v h p o d))

put_prepared-Keeps :
    (size id : ℕ) (p : StatPhase) (t : Trial) (w : Worker)
    → IsAble size t
    → IsSound size id w
    → is_prepared w.state ≡ true
    → is_over w.state ≡ false
    → is_connected w.state ≡ true
    → Keeps size id (write_or_prepare p t w)
unfolding write_or_prepare
put_prepared-Keeps size id p t w g h f o c =
    rw (generated t w size g h.sized, if◌then◌else◌)
      (operation-Keeps size id _ p _ t w (λ v. next_connection (next_put_object v)) h c
        (λ v d. put_prepared-IsSound size id w v h f o d))

prepare-Keeps :
    (size id : ℕ) (world : World) (t : Trial) (w : Worker)
    → IsAble size t
    → IsSound size id w
    → w.state ≡ WorkerState.prepare
    → Keeps size id (on_prepare_event world t w)
unfolding on_prepare_event
prepare-Keeps size id world t w g h e = elim (Bool-cases (ltb 0 w.cycle)) [
  | inl wrapped ↦
      rw (wrapped, if◌then◌else◌)
        (prepare_done-IsSound size id w _ h e (ltb→lt 0 w.cycle wrapped)
          (set_state_simple world WorkerState.prepare_done (invalidate_connection_caches w) refl))
  | inr early ↦
      rw (early, if◌then◌else◌)
        (put-Keeps size id StatPhase.prepare t w g h (ground arith) (ground arith))
]

mixed-Keeps :
    (size id : ℕ) (t : Trial) (w : Worker)
    → IsAble size t
    → IsSound size id w
    → w.state ≡ WorkerState.read_write
    → Keeps size id (on_read_write_event t w)
unfolding on_read_write_event on_write_event on_read_event paced
mixed-Keeps size id t w g h e =
    let v = paced t w in
    let k = paced-IsSound size id t w h in
    elim (Bool-cases (ltb w.order.read_write_mix t.coin)) [
      | inl writes ↦
          rw (writes, if◌then◌else◌)
            (put_prepared-Keeps size id StatPhase.write t v g k (ground arith) (ground arith)
              (ground arith))
      | inr reads ↦
          rw (reads, if◌then◌else◌)
            (get-Keeps size id t v g k (ground arith) (ground arith) (ground arith))
    ]

event-Keeps :
    (size id : ℕ) (world : World) (t : Trial) (s : WorkerState) (w : Worker)
    → IsAble size t
    → IsSound size id w
    → w.state ≡ s
    → Keeps size id (on_event_loop world t s w)
unfolding on_event_loop on_write_event on_read_event on_delete_event paced
event-Keeps size id world t WorkerState.write w g h e =
    put-Keeps size id StatPhase.write t (paced t w) g (paced-IsSound size id t w h) (ground arith)
      (ground arith)
event-Keeps size id world t WorkerState.prepare w g h e = prepare-Keeps size id world t w g h e
event-Keeps size id world t WorkerState.read w g h e =
    get-Keeps size id t (paced t w) g (paced-IsSound size id t w h) (ground arith) (ground arith)
      (ground arith)
event-Keeps size id world t WorkerState.read_write w g h e = mixed-Keeps size id t w g h e
event-Keeps size id world t WorkerState.delete w g h e =
    operation-Keeps size id _ StatPhase.delete _ t w (next_delete_object world) h (ground arith)
      (λ v d. next_delete-IsSound size id world w v h e d)
event-Keeps size id world t _ w g h e = h

abbrev pub HasTargets : Round → Type 0
HasTargets (opcode world op) = HasTarget world
HasTargets (idle world t) = HasTarget world

abbrev pub Generates : ℕ → Round → Type 0
Generates size (opcode world op) = Unit
Generates size (idle world t) = IsAble size t

round-Keeps :
    (size id : ℕ) (r : Round) (w : Worker)
    → HasTargets r
    → Generates size r
    → IsSound size id w
    → Keeps size id (round r w)
unfolding round
round-Keeps size id (opcode world op) w t g h = elim (Bool-cases (is_terminated w.state)) [
  | inl over ↦ rw (over, if◌then◌else◌) h
  | inr on ↦ rw (on, if◌then◌else◌) (handle_opcode-IsSound size id world op w t h)
]
round-Keeps size id (idle world t) w target g h = elim (Bool-cases (is_terminated w.state)) [
  | inl over ↦ rw (over, if◌then◌else◌) h
  | inr on ↦ rw (on, if◌then◌else◌) (event-Keeps size id world t w.state w g h refl)
]

pub event_loop-Keeps :
    (size id : ℕ) (rs : List Round) (w : Worker)
    → All HasTargets rs
    → All (Generates size) rs
    → IsSound size id w
    → Keeps size id (event_loop rs w)
unfolding event_loop
event_loop-Keeps size id [] w t g h = h
event_loop-Keeps size id (r ∷ rs) w t g h = elim (Option-cases (round r w)) [
  | inl n ↦ absurd (rw n at (round-Keeps size id r w t.0 g.0 h))
  | inr (w', e) ↦
      rw (e, event_loop)
        (event_loop-Keeps size id rs w' t.1 g.1 (rw e at (round-Keeps size id r w t.0 g.0 h)))
]

pub new_worker-IsSound :
    (id : ℕ) (order : WorkOrder) (n : ℕ)
    → order.range_start < order.range_end
    → order.range_end < u64_mod
    → 0 < n
    → order.range_start ≤ id
    → id < order.range_end
    → IsSound order.object_size id (new_worker order n)
unfolding new_worker
new_worker-IsSound id order n h k p l u = record {
  nonempty = h;
  fits = k;
  sized = refl;
  inside = (l, u);
  low = omega arith;
  high = λ a. h;
  fresh = λ a. refl;
  connected = λ a. cc;
  stored = new_store-IsStore n p;
  filling = λ a b c d. ground arith;
  prepared = λ a c d. cc;
}
