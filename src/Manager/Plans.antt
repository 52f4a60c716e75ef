-- ===== src/Manager/Plans.antt =====
-- The script of opcodes of a run, and what the phases of a run send of it.
use sibench.Base.{
  ℕ, ◌==◌, if◌then◌else◌, Bool, true, false, List, [], ◌∷◌, ◌++◌, ◌≡◌, refl, inl, inr, Bool-cases,
}
use sibench.Messages.{Opcode, code, WorkOrder}
use sibench.Manager.{Manager, Event, Result, returned, waiting, exited, panicked, ◌>>=◌}
use sibench.Manager.Phases.{run_phase_to_completion, run_phase_for_time}
use sibench.Manager.Run.{run_phases}
use sibench.Manager.Sends.{Ends, Ends->>=}
use sibench.Manager.Received.{IsDistinct}
use sibench.Manager.Script.{IsAt, Behind, Takes}
use sibench.Manager.Steps.{
  completion_ops, timed_ops, Holds, run_phase_to_completion-Takes, run_phase_for_time-Takes,
}

-- The script of a run, which starts with a write phase or not, and deletes the objects or not.
abbrev pub script_of : Bool → Bool → List Opcode
script_of writes deletes =
    Opcode.discovery
      ∷ Opcode.connect
      ∷ (if writes
          then timed_ops Opcode.write_start Opcode.write_stop
            ++ (completion_ops Opcode.prepare ++ timed_ops Opcode.read_start Opcode.read_stop)
          else completion_ops Opcode.prepare
            ++ timed_ops Opcode.read_write_start Opcode.read_write_stop)
    ++ (if deletes then completion_ops Opcode.delete else [])

pub record IsEnding (script : List Opcode) (m : Manager) : Type 0 where
  pub distinct : IsDistinct m.conns
  pub behind : Behind script m

Ends-phases :
    (script : List Opcode) (k : ℕ) (r : Result)
    → Takes script k r
    → Ends (IsEnding script) (Behind script) r
Ends-phases script k (returned m es) h = record { distinct = h.distinct; behind = h.behind }
Ends-phases script k (waiting m) h = h
Ends-phases script k (exited m) h = h
Ends-phases script k panicked h = tt

-- The last phase, which a run has or not.
delete_phase :
    (script : List Opcode) (k : ℕ) (m : Manager) (es : List Event)
    → Holds script k (completion_ops Opcode.delete)
    → IsAt script k m
    → Ends (IsEnding script) (Behind script) (run_phase_to_completion Opcode.delete m es)
delete_phase script k m es g h =
    Ends-phases script _ _ (run_phase_to_completion-Takes script k Opcode.delete m es g h)

writing_run :
    (deletes : Bool) (m : Manager) (es : List Event)
    → let script = script_of true deletes in
      IsAt script 2 m
      → Takes script 16 (
          run_phase_for_time Opcode.write_start Opcode.write_stop m es
          >>= run_phase_to_completion Opcode.prepare
          >>= run_phase_for_time Opcode.read_start Opcode.read_stop)
unfolding code
writing_run deletes m es h =
    let script = script_of true deletes in
    Ends->>= (IsAt script 11) (IsAt script 16) (Behind script) _ _
      (Ends->>= (IsAt script 7) (IsAt script 11) (Behind script) _ _
        (run_phase_for_time-Takes script 2 Opcode.write_start Opcode.write_stop m es
          (refl, refl, (refl, refl, (refl, refl, (refl, refl, (refl, refl, tt))))) h)
        (λ m es h'.
          run_phase_to_completion-Takes script 7 Opcode.prepare m es
            (refl, refl, (refl, refl, (refl, refl, (refl, refl, tt)))) h'))
      (λ m es h'.
        run_phase_for_time-Takes script 11 Opcode.read_start Opcode.read_stop m es
          (refl, refl, (refl, refl, (refl, refl, (refl, refl, (refl, refl, tt))))) h')

mixed_run :
    (deletes : Bool) (m : Manager) (es : List Event)
    → let script = script_of false deletes in
      IsAt script 2 m
      → Takes script 11 (
          run_phase_to_completion Opcode.prepare m es
          >>= run_phase_for_time Opcode.read_write_start Opcode.read_write_stop)
unfolding code
mixed_run deletes m es h =
    let script = script_of false deletes in
    Ends->>= (IsAt script 6) (IsAt script 11) (Behind script) _ _
      (run_phase_to_completion-Takes script 2 Opcode.prepare m es
        (refl, refl, (refl, refl, (refl, refl, (refl, refl, tt)))) h)
      (λ m es h'.
        run_phase_for_time-Takes script 6 Opcode.read_write_start Opcode.read_write_stop m es
          (refl, refl, (refl, refl, (refl, refl, (refl, refl, (refl, refl, tt))))) h')

last_phase :
    (writes deletes : Bool) (k : ℕ) (r : Result)
    → let script = script_of writes deletes in
      (deletes ≡ true → Holds script k (completion_ops Opcode.delete))
      → Takes script k r
      → Ends (IsEnding script) (Behind script) (
          r >>= λ m es.
          if deletes then run_phase_to_completion Opcode.delete m es else returned m es)
last_phase writes true k r g h =
    let script = script_of writes true in
    Ends->>= (IsAt script k) (IsEnding script) (Behind script) r _ h
      (λ m es h'. delete_phase script k m es (g refl) h')
last_phase writes false k r g h =
    let script = script_of writes false in
    Ends->>= (IsAt script k) (IsEnding script) (Behind script) r _ h
      (λ m es h'. record { distinct = h'.distinct; behind = h'.behind })

pub run_phases-Ends :
    (order : WorkOrder) (deletes : Bool) (m : Manager) (es : List Event)
    → let script = script_of (order.read_write_mix == 0) deletes in
      IsAt script 2 m → Ends (IsEnding script) (Behind script) (run_phases order deletes m es)
unfolding run_phases code
run_phases-Ends order deletes m es h = elim (Bool-cases (order.read_write_mix == 0)) [
  | inl writes ↦
      rw (writes, if◌then◌else◌)
        (last_phase true deletes 16 _
          (λ d. rw d (refl, refl, (refl, refl, (refl, refl, (refl, refl, tt)))))
          (writing_run deletes m es (rw (writes, if◌then◌else◌) at h)))
  | inr mixed ↦
      rw (mixed, if◌then◌else◌)
        (last_phase false deletes 11 _
          (λ d. rw d (refl, refl, (refl, refl, (refl, refl, (refl, refl, tt)))))
          (mixed_run deletes m es (rw (mixed, if◌then◌else◌) at h)))
]
