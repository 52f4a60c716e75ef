-- ===== src/Worker/Able.antt =====
-- A run of a worker's event loop (src/sibench/worker.go) that did not panic goes the same way with a
-- generator that never panics.
use sibench.Base.{
  ℕ, ltb, ◌≡◌, refl, arith, if◌then◌else◌, Bool, true, false, Bool-cases, All, inl, inr, Option,
  none, some, Option-cases, List, [], ◌∷◌, map,
}
use sibench.Messages.{StatPhase}
use sibench.Worker.States.{WorkerState}
use sibench.Worker.Machine.{Worker, World}
use sibench.Worker.Events.{
  Trial, answered, put_error, get_error, record_stat, Round, opcode, idle, round, event_loop,
  on_event_loop, is_terminated, write_or_prepare, get_object, verify_panics, paced, on_write_event,
  on_prepare_event, on_read_event, on_read_write_event, on_delete_event,
}
use sibench.Worker.Rounds.{HasTargets, Generates}

-- The same round with a generator that never panics.
abbrev able : Trial → Trial
able t = record t { generates = λ size. true; verifies = λ size. true }

abbrev pub well : Round → Round
well (opcode world op) = opcode world op
well (idle world t) = idle world (able t)

unguarded :
    (b : Bool) (o : Option Worker) {w : Worker} → (if b then o else none) ≡ some w → o ≡ some w
unguarded true o e = e
unguarded false o e = absurd (cc e)

unpanicked :
    (b : Bool) (o : Option Worker) {w : Worker} → (if b then none else o) ≡ some w → o ≡ some w
unpanicked true o e = absurd (cc e)
unpanicked false o e = e

write_or_prepare-able :
    (p : StatPhase) (t : Trial) (w w' : Worker)
    → write_or_prepare p t w ≡ some w'
    → write_or_prepare p (able t) w ≡ some w'
unfolding write_or_prepare record_stat put_error answered
write_or_prepare-able p t w w' e = unguarded (t.generates w.order.object_size) _ e

get_object-able :
    (t : Trial) (w w' : Worker) → get_object t w ≡ some w' → get_object (able t) w ≡ some w'
unfolding get_object record_stat get_error answered
get_object-able t w w' e =
    let calm : verify_panics (able t) w ≡ false = ground arith in
    rw (calm, if◌then◌else◌) (unpanicked (verify_panics t w) _ e)

round-able :
    (world : World) (t : Trial) (s : WorkerState) (w w' : Worker)
    → on_event_loop world t s w ≡ some w'
    → on_event_loop world (able t) s w ≡ some w'
unfolding on_event_loop on_write_event on_prepare_event on_read_event on_read_write_event
    on_delete_event record_stat put_error answered paced
round-able world t WorkerState.write w w' e =
    write_or_prepare-able StatPhase.write t (paced t w) w' e
round-able world t WorkerState.prepare w w' e = elim (Bool-cases (ltb 0 w.cycle)) [
  | inl over ↦ rw (over, if◌then◌else◌) (rw (over, if◌then◌else◌) at e)
  | inr early ↦
      rw (early, if◌then◌else◌)
        (write_or_prepare-able StatPhase.prepare t w w' (rw (early, if◌then◌else◌) at e))
]
round-able world t WorkerState.read w w' e = get_object-able t (paced t w) w' e
round-able world t WorkerState.read_write w w' e =
    elim (Bool-cases (ltb w.order.read_write_mix t.coin)) [
      | inl write ↦
          rw (write, if◌then◌else◌)
            (write_or_prepare-able StatPhase.write t (paced t w) w'
              (rw (write, if◌then◌else◌) at e))
      | inr read ↦
          rw (read, if◌then◌else◌)
            (get_object-able t (paced t w) w' (rw (read, if◌then◌else◌) at e))
    ]
round-able world t WorkerState.delete w w' e = e
round-able world t _ w w' e = e

round-well : (r : Round) (w w' : Worker) → round r w ≡ some w' → round (well r) w ≡ some w'
unfolding round
round-well (opcode world op) w w' e = e
round-well (idle world t) w w' e = elim (Bool-cases (is_terminated w.state)) [
  | inl over ↦ rw (over, round, if◌then◌else◌) (rw (over, if◌then◌else◌) at e)
  | inr on ↦
      rw (on, round, if◌then◌else◌) (round-able world t w.state w w' (rw (on, if◌then◌else◌) at e))
]

pub event_loop-well :
    (rs : List Round) (w w' : Worker)
    → event_loop rs w ≡ some w'
    → event_loop (map well rs) w ≡ some w'
unfolding event_loop
event_loop-well [] w w' e = e
event_loop-well (r ∷ rs) w w' e = elim (Option-cases (round r w)) [
  | inl failed ↦ absurd (none_some (rw (failed, event_loop) at e))
  | inr (v, went) ↦
      rw (round-well r w v went, event_loop) (event_loop-well rs v w' (rw (went, event_loop) at e))
]
  where
    none_some : none ≡ some w' → ⊥
    none_some wrong = cc

pub well-HasTargets : (rs : List Round) → All HasTargets rs → All HasTargets (map well rs)
well-HasTargets [] h = tt
well-HasTargets (opcode world op ∷ rs) h = (h.0, well-HasTargets rs h.1)
well-HasTargets (idle world t ∷ rs) h = (h.0, well-HasTargets rs h.1)

pub well-Generates : (size : ℕ) (rs : List Round) → All (Generates size) (map well rs)
well-Generates size [] = tt
well-Generates size (opcode world op ∷ rs) = (tt, well-Generates size rs)
well-Generates size (idle world t ∷ rs) = ((refl, refl), well-Generates size rs)
