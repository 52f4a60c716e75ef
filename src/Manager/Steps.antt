-- ===== src/Manager/Steps.antt =====
-- Where the phases of a run take a script.
use sibench.Base.{
  ℕ, suc, ◌+◌, ◌==◌, if◌then◌else◌, Bool, true, false, Option, none, some, List, [], ◌∷◌, ◌≡◌, refl,
  ◌∙◌, inl, inr, Bool-cases, Option-cases, length, get_elem?, append-nil,
}
use Prim.Native.String.{len}
use sibench.Base.Bits.{u64}
use sibench.Messages.{Opcode, same_opcode, code}
use sibench.Report.{Report, analyse_stats}
use sibench.Manager.{
  Manager, stats_of, Event, received, transport, signal, tick, timer, Result, stopped, lookup, down,
}
use sibench.Manager.Loops.{again, fault, drain_turn, drain_stats, analyse, add_stats}
use sibench.Manager.Phases.{
  Progress, completion_turn, complete_phase, run_phase_to_completion, time_turn, ramp, run_script,
  stop_phase, run_phase_for_time,
}
use sibench.Manager.Sends.{
  IsQuiet, IsQuiet-refl, TurnIsQuiet, fails_quietly, turn_if, unless_failed-IsQuiet, Ends->>=,
}
use sibench.Manager.Received.{ops_to, ops_to-append}
use sibench.Manager.Script.{
  IsAt, Behind, Takes, quiet-IsAt, stopped-IsAt, loop-Takes, send_op-Takes, count_down-IsQuiet,
  later_fails, interrupted-IsQuiet,
}

-- The script from the position `k` on starts with `ops`, none of which ends the run.
abbrev pub Holds : List Opcode → ℕ → List Opcode → Type 0
Holds script k [] = Unit
Holds script k (op ∷ ops) =
    (get_elem? script k ≡ some op)
    × (same_opcode op Opcode.terminate ≡ false)
    × Holds script (suc k) ops

reported-IsQuiet : (l m : Manager) (r : Report) → IsQuiet l m → IsQuiet l (record m { report = r })
reported-IsQuiet l m r q = record {
  sends = q.sends;
  fewer = q.fewer;
  distinct = q.distinct;
  stops = q.stops;
}

added-IsQuiet :
    (l m : Manager) (pending : ℕ) (o : Option Report)
    → IsQuiet l m
    → TurnIsQuiet l (elim o [ none ↦ fault | some r ↦ again pending (record m { report = r }) ])
added-IsQuiet l m pending none q = tt
added-IsQuiet l m pending (some r) q = reported-IsQuiet l m r q

drain_turn-IsQuiet :
    (e : Event) (pending : ℕ) (m : Manager) → TurnIsQuiet m (drain_turn e pending m)
unfolding drain_turn
drain_turn-IsQuiet (received c op body) pending m = unless_failed-IsQuiet c op body m _ (λ m' q.
    turn_if m (same_opcode op Opcode.stat_details) _ _
      (added-IsQuiet m m' pending (add_stats (lookup c m'.details) (stats_of body) m'.report) q)
      (turn_if m (same_opcode op Opcode.stat_details_done) _ _ (count_down-IsQuiet pending m m' q)
        (turn_if m (same_opcode op Opcode.stat_summary) _ _ q (later_fails m m' _ q, refl))))
drain_turn-IsQuiet (transport c eof) pending m = (fails_quietly m _, refl)
drain_turn-IsQuiet signal pending m = interrupted-IsQuiet m
drain_turn-IsQuiet tick pending m = IsQuiet-refl m
drain_turn-IsQuiet timer pending m = IsQuiet-refl m

analyse-Takes :
    (script : List Opcode) (k : ℕ) (m : Manager) (es : List Event)
    → IsAt script k m
    → Takes script k (analyse m es)
unfolding analyse
analyse-Takes script k m es h = elim (Option-cases (analyse_stats m.report)) [
  | inl n ↦ rw (n, analyse) tt
  | inr (r, e) ↦
      rw (e, analyse) (quiet-IsAt script k m _ h (reported-IsQuiet m m r (IsQuiet-refl m)))
]

drain_stats-Takes :
    (script : List Opcode) (k : ℕ) (m : Manager) (es : List Event)
    → Holds script k (Opcode.stat_details ∷ [])
    → IsAt script k m
    → Takes script (suc k) (drain_stats m es)
unfolding drain_stats code
drain_stats-Takes script k m es g h = elim (Bool-cases (stopped m)) [
  | inl over ↦ rw (over, if◌then◌else◌) (stopped-IsAt script k (suc k) m h over)
  | inr on ↦
      rw (on, if◌then◌else◌)
        (Ends->>= (IsAt script (suc k)) (IsAt script (suc k)) (Behind script) _ _
          (send_op-Takes script k Opcode.stat_details false m es g.0 refl h)
          (λ m es h'.
            Takes-if (length m.conns == 0) (suc k) _ _ (analyse-Takes script (suc k) m es h') (
              loop-Takes script (suc k) (suc k) drain_turn analyse drain_turn-IsQuiet
                (analyse-Takes script (suc k)) es _ m h')))
]
  where
    Takes-if :
        (b : Bool) (k : ℕ) (r s : Result)
        → Takes script k r
        → Takes script k s
        → Takes script k (if b then r else s)
    Takes-if true k r s p q = p
    Takes-if false k r s p q = q

completion_turn-IsQuiet :
    (phase_op : Opcode) (e : Event) (s : Progress) (m : Manager)
    → TurnIsQuiet m (completion_turn phase_op e s m)
unfolding completion_turn
completion_turn-IsQuiet phase_op (received c op body) s m =
    unless_failed-IsQuiet c op body m _ (λ m' q.
      turn_if m (same_opcode op phase_op) _ _ (turn_if m (down s.pending == 0) _ _ q q)
        (turn_if m (same_opcode op Opcode.stat_summary) _ _ q (later_fails m m' _ q, refl)))
completion_turn-IsQuiet phase_op (transport c eof) s m = (fails_quietly m _, refl)
completion_turn-IsQuiet phase_op signal s m = interrupted-IsQuiet m
completion_turn-IsQuiet phase_op tick s m = IsQuiet-refl m
completion_turn-IsQuiet phase_op timer s m = IsQuiet-refl m

run_script-IsQuiet : (ramp_up : Bool) (m : Manager) → IsQuiet m (run_script ramp_up m)
unfolding run_script ops_to
run_script-IsQuiet ramp_up m = elim (Bool-cases (len m.job.script == 0)) [
  | inl none_given ↦ rw (none_given, if◌then◌else◌) (IsQuiet-refl m)
  | inr given ↦
      rw (given, if◌then◌else◌)
        (record {
          sends = λ c. ops_to-append c m.sent _ ∙ append-nil (ops_to c m.sent);
          fewer = λ c h. h;
          distinct = λ h. h;
          stops = λ h. h;
        })
]

ramp-IsQuiet : (seconds : ℕ) (m : Manager) → IsQuiet m (ramp seconds m)
unfolding ramp
ramp-IsQuiet seconds m = elim (Bool-cases (seconds == m.job.ramp_up)) [
  | inl up ↦ rw (up, if◌then◌else◌) (run_script-IsQuiet true m)
  | inr n ↦ elim (Bool-cases (seconds == u64 (m.job.ramp_up + m.job.run_time))) [
    | inl last ↦ rw (n, last, if◌then◌else◌) (run_script-IsQuiet false m)
    | inr else_ ↦ rw (n, else_, if◌then◌else◌) (IsQuiet-refl m)
  ]
]

time_turn-IsQuiet : (e : Event) (s : Progress) (m : Manager) → TurnIsQuiet m (time_turn e s m)
unfolding time_turn
time_turn-IsQuiet (received c op body) s m =
    unless_failed-IsQuiet c op body m _
      (λ m' q. turn_if m (same_opcode op Opcode.stat_summary) _ _ q (later_fails m m' _ q, refl))
time_turn-IsQuiet (transport c eof) s m = (fails_quietly m _, refl)
time_turn-IsQuiet signal s m = interrupted-IsQuiet m
time_turn-IsQuiet tick s m = ramp-IsQuiet (s.seconds + 1) m
time_turn-IsQuiet timer s m = IsQuiet-refl m

abbrev pub completion_ops : Opcode → List Opcode
completion_ops op =
    Opcode.stat_summary_start ∷ op ∷ Opcode.stat_summary_stop ∷ Opcode.stat_details ∷ []

abbrev pub timed_ops : Opcode → Opcode → List Opcode
timed_ops start stop =
    start ∷ Opcode.stat_summary_start ∷ Opcode.stat_summary_stop ∷ stop ∷ Opcode.stat_details ∷ []

complete_phase-Takes :
    (script : List Opcode) (k : ℕ) (m : Manager) (es : List Event)
    → Holds script k (Opcode.stat_summary_stop ∷ Opcode.stat_details ∷ [])
    → IsAt script k m
    → Takes script (suc (suc k)) (complete_phase m es)
unfolding complete_phase code
complete_phase-Takes script k m es g h =
    Ends->>= (IsAt script (suc k)) (IsAt script (suc (suc k))) (Behind script) _ _
      (send_op-Takes script k Opcode.stat_summary_stop true m es g.0 refl h)
      (λ m es h'. drain_stats-Takes script (suc k) m es g.2 h')

pub run_phase_to_completion-Takes :
    (script : List Opcode) (k : ℕ) (op : Opcode) (m : Manager) (es : List Event)
    → Holds script k (completion_ops op)
    → IsAt script k m
    → Takes script (suc (suc (suc (suc k)))) (run_phase_to_completion op m es)
unfolding run_phase_to_completion code
run_phase_to_completion-Takes script k op m es g h = elim (Bool-cases (stopped m)) [
  | inl over ↦ rw (over, if◌then◌else◌) (stopped-IsAt script k _ m h over)
  | inr on ↦
      rw (on, if◌then◌else◌)
        (Ends->>= (IsAt script (suc (suc k))) (IsAt script (suc (suc (suc (suc k)))))
          (Behind script) _ _
          (Ends->>= (IsAt script (suc k)) (IsAt script (suc (suc k))) (Behind script) _ _
            (send_op-Takes script k Opcode.stat_summary_start true m es g.0 refl h)
            (λ m es h'. send_op-Takes script (suc k) op false m es g.2.0 g.2.1 h'))
          (λ m es h'.
            loop-Takes script (suc (suc k)) (suc (suc (suc (suc k)))) (completion_turn op)
              complete_phase (completion_turn-IsQuiet op)
              (λ m es h''. complete_phase-Takes script (suc (suc k)) m es g.2.2 h'') es _ m h'))
]

stop_phase-Takes :
    (script : List Opcode) (k : ℕ) (stop : Opcode) (m : Manager) (es : List Event)
    → Holds script k (Opcode.stat_summary_stop ∷ stop ∷ Opcode.stat_details ∷ [])
    → IsAt script k m
    → Takes script (suc (suc (suc k))) (stop_phase stop m es)
unfolding stop_phase code
stop_phase-Takes script k stop m es g h =
    Ends->>= (IsAt script (suc (suc k))) (IsAt script (suc (suc (suc k)))) (Behind script) _ _
      (Ends->>= (IsAt script (suc k)) (IsAt script (suc (suc k))) (Behind script) _ _
        (send_op-Takes script k Opcode.stat_summary_stop true m es g.0 refl h)
        (λ m es h'. send_op-Takes script (suc k) stop true m es g.2.0 g.2.1 h'))
      (λ m es h'. drain_stats-Takes script (suc (suc k)) m es g.2.2 h')

pub run_phase_for_time-Takes :
    (script : List Opcode) (k : ℕ) (start stop : Opcode) (m : Manager) (es : List Event)
    → Holds script k (timed_ops start stop)
    → IsAt script k m
    → Takes script (suc (suc (suc (suc (suc k))))) (run_phase_for_time start stop m es)
unfolding run_phase_for_time code
run_phase_for_time-Takes script k start stop m es g h = elim (Bool-cases (stopped m)) [
  | inl over ↦ rw (over, if◌then◌else◌) (stopped-IsAt script k _ m h over)
  | inr on ↦
      rw (on, if◌then◌else◌)
        (Ends->>= (IsAt script (suc (suc k))) (IsAt script (suc (suc (suc (suc (suc k))))))
          (Behind script) _ _
          (Ends->>= (IsAt script (suc k)) (IsAt script (suc (suc k))) (Behind script) _ _
            (send_op-Takes script k start true m es g.0 g.1 h)
            (λ m es h'.
              send_op-Takes script (suc k) Opcode.stat_summary_start true m es g.2.0 refl h'))
          (λ m es h'.
            loop-Takes script (suc (suc k)) (suc (suc (suc (suc (suc k))))) time_turn
              (stop_phase stop) time_turn-IsQuiet
              (λ m es h''. stop_phase-Takes script (suc (suc k)) stop m es g.2.2 h'') es _ m h'))
]
