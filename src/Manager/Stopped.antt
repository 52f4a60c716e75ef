-- ===== src/Manager/Stopped.antt =====
-- What is left of a run in which a server cannot be connected to.
use sibench.Base.{
  ℕ, ◌==◌, ◌<◌, leb, if◌then◌else◌, Bool, true, false, ◌&&◌, List, [], ◌∷◌, ◌++◌, ◌+◌, All,
  length-append, ap, length, ◌≡◌, refl, sym, ◌∙◌, arith, inl, inr, Bool-cases, Option-cases,
}
use mathlib.Core.Path.{subst}
use sibench.Base.Bits.{u64_mod}
use sibench.Base.Floats.{Float32}
use sibench.Messages.{WorkOrder, Opcode}
use Prim.Native.String.{String}
use sibench.Job.{Job}
use sibench.Manager.{Manager, Event, Result, returned, waiting, exited, panicked, stopped, ◌>>=◌}
use sibench.Manager.Loops.{discover, terminate}
use sibench.Manager.Phases.{run_phase_for_time, run_phase_to_completion}
use sibench.Manager.Run.{
  Surroundings, connect_servers, connect_to_servers, send_job, run_phases, end_run, run_job,
}
use sibench.Manager.Waits.{returns, terminations, terminate-returns}

module _ (m : Manager) (es : List Event) (over : stopped m ≡ true) where
  discover-stopped : discover m es ≡ returned m es
  unfolding discover
  discover-stopped = rw (over, if◌then◌else◌)

  send_job-stopped : (fl : Float32) → send_job fl m es ≡ returned m es
  unfolding send_job
  send_job-stopped fl = rw (over, if◌then◌else◌)

  completion-stopped : (op : Opcode) → run_phase_to_completion op m es ≡ returned m es
  unfolding run_phase_to_completion
  completion-stopped op = rw (over, if◌then◌else◌)

  time-stopped : (start stop : Opcode) → run_phase_for_time start stop m es ≡ returned m es
  unfolding run_phase_for_time
  time-stopped start stop = rw (over, if◌then◌else◌)

  deletion-stopped :
      (deletes : Bool)
      → (if deletes then run_phase_to_completion Opcode.delete m es else returned m es)
        ≡ returned m es
  deletion-stopped true = completion-stopped Opcode.delete
  deletion-stopped false = refl

  run_phases-stopped :
      (order : WorkOrder) (deletes : Bool) → run_phases order deletes m es ≡ returned m es
  unfolding run_phases
  run_phases-stopped order deletes =
      rw
        (
          time-stopped Opcode.write_start Opcode.write_stop,
          completion-stopped Opcode.prepare,
          time-stopped Opcode.read_start Opcode.read_stop,
          time-stopped Opcode.read_write_start Opcode.read_write_stop,
        )
        (elim (Bool-cases (order.read_write_mix == 0)) [
          | inl writes ↦ rw (writes, if◌then◌else◌) (deletion-stopped deletes)
          | inr mixed ↦ rw (mixed, if◌then◌else◌) (deletion-stopped deletes)
        ])

end_run-returned : (r : Result) → returns (r >>= end_run) ≡ returns r
unfolding end_run
end_run-returned (returned m es) = elim (Option-cases m.err) [
  | inl fine ↦ rw fine
  | inr (e, failed) ↦ rw failed
]
end_run-returned (waiting m) = refl
end_run-returned (exited m) = refl
end_run-returned panicked = refl

-- The servers up to the first one that cannot be connected to.
connect_servers_fail :
    (connects : String → Bool) (i : ℕ) (before after : List String) (s : String) (m : Manager)
    → All (λ t. connects t ≡ true) before
    → connects s ≡ false
    → let m' = connect_servers connects i (before ++ (s ∷ after)) m in
      (stopped m' ≡ true) × (length m'.conns ≡ length m.conns + length before)
unfolding connect_servers
connect_servers_fail connects i [] after s m h n = rw (n, if◌then◌else◌) (refl, omega arith)
connect_servers_fail connects i (t ∷ before) after s m (h, hs) n =
    rw (h, if◌then◌else◌)
      (let rest = connect_servers_fail connects (i + 1) before after s _ hs n in
        (rest.0, rest.1 ∙ omega (arith, length-append m.conns (i ∷ []))))

run_job-stopped :
    (fl : Float32) (at : Surroundings) (job : Job) (m : Manager) (es : List Event)
    → stopped (connect_to_servers at.connects m) ≡ true
    → run_job fl at job m es ≡ (terminate (connect_to_servers at.connects m) es >>= end_run)
unfolding run_job
run_job-stopped fl at job m es over =
    let m' = connect_to_servers at.connects m in
    rw (
      discover-stopped m' es over,
      send_job-stopped m' es over fl,
      run_phases-stopped m' es over job.order (at.can_delete && job.order.clean_up_on_close),
    )

-- If a server cannot be connected to, a run that starts without connections returns exactly if as
-- many OP_Terminate come in as there are servers before it in the job.
pub run_job_unreachable :
    (fl : Float32) (at : Surroundings) (job : Job) (m : Manager) (es : List Event)
    (before after : List String) (s : String)
    → stopped m ≡ false
    → m.conns ≡ []
    → m.job.servers ≡ before ++ (s ∷ after)
    → All (λ t. at.connects t ≡ true) before
    → at.connects s ≡ false
    → length before < u64_mod
    → returns (run_job fl at job m es) ≡ leb (length before) (terminations es)
unfolding connect_to_servers
run_job_unreachable fl at job m es before after s on new servers up gone b =
    let m' = connect_to_servers at.connects m in
    let failed =
      subst
        (λ ss.
          let n = connect_servers at.connects 0 ss m in
          (stopped n ≡ true) × (length n.conns ≡ length m.conns + length before))
        (sym servers) (connect_servers_fail at.connects 0 before after s m up gone) in
    let made : connect_servers at.connects 0 m.job.servers m ≡ m' = rw (on, if◌then◌else◌) in
    let failed' =
      subst (λ n. (stopped n ≡ true) × (length n.conns ≡ length m.conns + length before)) made
        failed in
    let none_yet : length m.conns ≡ 0 = rw new in
    let count : length m'.conns ≡ length before = omega (arith, failed'.1, none_yet) in
    ap returns (run_job-stopped fl at job m es failed'.0)
    ∙ end_run-returned (terminate m' es)
    ∙ terminate-returns m' es (omega (arith, count))
    ∙ ap (λ n. leb n (terminations es)) count
