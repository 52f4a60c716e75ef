-- ===== src/Manager/Follows.antt =====
-- Whatever the servers answer, and whenever a run is interrupted, each server gets a part of one
-- script of opcodes, from its start on, and then OP_Terminate.
use sibench.Base.{
  ℕ, ◌==◌, if◌then◌else◌, Bool, true, false, ◌&&◌, List, [], ◌∷◌, ◌++◌, map, ◌≡◌, refl, ◌∙◌, inl,
  inr, ◌⊎◌, Bool-cases, Option-cases, length, append-nil,
}
use sibench.Base.Floats.{Float32}
use Prim.Native.String.{String}
use sibench.Messages.{Opcode, same_opcode, code}
use sibench.Job.{Job}
use sibench.Manager.{
  Manager, Event, received, transport, signal, tick, timer, Result, returned, known, send_all,
  to_server, closed,
}
use sibench.Manager.Loops.{send_op, terminate_turn, terminate}
use sibench.Manager.Run.{
  Surroundings, connect_to_servers, end_run, new_manager, run_job, start_run, run_benchmark,
}
use sibench.Manager.Sends.{
  IsQuiet, IsQuiet-refl, TurnIsQuiet, fails_quietly, turn_if, Ends, Ends->>=, weaken,
  select_loop-Ends,
}
use sibench.Manager.Received.{ops_to, ops_to-append, ops_to-known, ops_to-unknown}
use sibench.Manager.Script.{IsPrefix, IsAt, Behind, count_down-IsQuiet}
use sibench.Manager.Starts.{discover-Takes, send_job-Takes, connect_to_servers-IsAt}
use sibench.Manager.Plans.{script_of, IsEnding, run_phases-Ends}

-- What the server of each connection has got, in the end or when the manager waits or exits.
abbrev pub HasFollowed : List Opcode → Manager → Type 0
HasFollowed script m =
    (c : ℕ)
    → (ops : List Opcode) × IsPrefix ops script
      × ((ops_to c m.sent ≡ ops) ⊎ (ops_to c m.sent ≡ ops ++ (Opcode.terminate ∷ [])))

Behind-HasFollowed : (script : List Opcode) (m : Manager) → Behind script m → HasFollowed script m
Behind-HasFollowed script m h c = (ops_to c m.sent, h c, inl refl)

IsQuiet-HasFollowed :
    (script : List Opcode) (m m' : Manager)
    → HasFollowed script m
    → IsQuiet m m'
    → HasFollowed script m'
IsQuiet-HasFollowed script m m' h q c = rw (q.sends c) (h c)

terminate_turn-IsQuiet :
    (e : Event) (pending : ℕ) (m : Manager) → TurnIsQuiet m (terminate_turn e pending m)
unfolding terminate_turn
terminate_turn-IsQuiet (received c op body) pending m =
    turn_if m (same_opcode op Opcode.terminate) _ _
      (count_down-IsQuiet pending m m (IsQuiet-refl m)) (IsQuiet-refl m)
terminate_turn-IsQuiet (transport c true) pending m = IsQuiet-refl m
terminate_turn-IsQuiet (transport c false) pending m = fails_quietly m _
terminate_turn-IsQuiet signal pending m = IsQuiet-refl m
terminate_turn-IsQuiet tick pending m = IsQuiet-refl m
terminate_turn-IsQuiet timer pending m = IsQuiet-refl m

told_to_terminate :
    (script : List Opcode) (m : Manager)
    → IsEnding script m
    → HasFollowed script (send_all Opcode.terminate m)
unfolding send_all
told_to_terminate script m h c =
    let grows = ops_to-append c m.sent (map (λ d. to_server d Opcode.terminate) m.conns) in
    elim (Bool-cases (known c m.conns)) [
      | inl here ↦ (
        ops_to c m.sent,
        h.behind c,
        inr (grows ∙ rw (ops_to-known c Opcode.terminate m.conns h.distinct here)),
      )
      | inr gone ↦ (
        ops_to c m.sent,
        h.behind c,
        inl (
            grows
            ∙ rw (ops_to-unknown c Opcode.terminate m.conns gone) (append-nil (ops_to c m.sent))),
      )
    ]

terminate-Ends :
    (script : List Opcode) (m : Manager) (es : List Event)
    → IsEnding script m
    → Ends (HasFollowed script) (HasFollowed script) (terminate m es)
unfolding terminate send_op code
terminate-Ends script m es h =
    let Q = HasFollowed script in
    let m' = send_all Opcode.terminate m in
    let told = told_to_terminate script m h in
    elim (Bool-cases (length m'.conns == 0)) [
      | inl none_left ↦ rw (none_left, if◌then◌else◌) told
      | inr some_left ↦
          rw (some_left, if◌then◌else◌)
            (select_loop-Ends terminate_turn returned Q Q m' terminate_turn-IsQuiet
              (λ n q over. IsQuiet-HasFollowed script m' n told q)
              (λ n q. IsQuiet-HasFollowed script m' n told q)
              (λ n es q. IsQuiet-HasFollowed script m' n told q) es _ m' (IsQuiet-refl m'))
    ]

ops_to-closed : (c : ℕ) (cs : List ℕ) → ops_to c (map closed cs) ≡ []
unfolding ops_to
ops_to-closed c [] = refl
ops_to-closed c (d ∷ cs) = ops_to-closed c cs

end_run-Ends :
    (script : List Opcode) (m : Manager) (es : List Event)
    → HasFollowed script m
    → Ends (HasFollowed script) (HasFollowed script) (end_run m es)
unfolding end_run
end_run-Ends script m es h = elim (Option-cases m.err) [
  | inl fine ↦ rw fine (λ c. rw (disconnected c) (h c))
  | inr (e, failed) ↦ rw failed (λ c. rw (disconnected c) (h c))
]
  where
    disconnected : (c : ℕ) → ops_to c (m.sent ++ map closed m.conns) ≡ ops_to c m.sent
    disconnected c =
        ops_to-append c m.sent (map closed m.conns)
        ∙ rw (ops_to-closed c m.conns) (append-nil (ops_to c m.sent))

run_job-HasFollowed :
    (fl : Float32) (at : Surroundings) (job : Job) (m : Manager) (es : List Event)
    → m.conns ≡ []
    → m.sent ≡ []
    → let script =
        script_of (job.order.read_write_mix == 0) (at.can_delete && job.order.clean_up_on_close) in
      Ends (HasFollowed script) (HasFollowed script) (run_job fl at job m es)
unfolding run_job code
run_job-HasFollowed fl at job m es e f =
    let deletes = at.can_delete && job.order.clean_up_on_close in
    let script = script_of (job.order.read_write_mix == 0) deletes in
    let Q = HasFollowed script in
    let found =
      discover-Takes script 0 (connect_to_servers at.connects m) es refl
        (connect_to_servers-IsAt script at.connects m e f) in
    let ordered =
      Ends->>= (IsAt script 1) (IsAt script 2) (Behind script) _ _ found
        (λ m es h. send_job-Takes fl script 1 m es refl h) in
    let ran =
      Ends->>= (IsAt script 2) (IsEnding script) (Behind script) _ _ ordered
        (λ m es h. run_phases-Ends job.order deletes m es h) in
    let ran' =
      weaken (IsEnding script) (IsEnding script) (Behind script) Q _ (λ m h. h)
        (Behind-HasFollowed script) ran in
    let over = Ends->>= (IsEnding script) Q Q _ _ ran' (λ m es h. terminate-Ends script m es h) in
    Ends->>= Q Q Q _ _ over (λ m es h. end_run-Ends script m es h)

new_manager-HasFollowed :
    (script : List Opcode) (at : Surroundings) (job : Job) → HasFollowed script (new_manager at job)
unfolding new_manager ops_to
new_manager-HasFollowed script at job c = ([], (script, refl), inl refl)

fresh :
    (at : Surroundings) (job : Job)
    → ((new_manager at job).conns ≡ []) × ((new_manager at job).sent ≡ [])
unfolding new_manager
fresh at job = (refl, refl)

start_run-Ends :
    (Q R : Manager → Type 0) (targets : List String) (answers : Bool) (run early : Result)
    → Ends Q R run
    → Ends Q R early
    → Ends Q R (start_run targets answers run early)
start_run-Ends Q R [] answers run early p q = tt
start_run-Ends Q R (target ∷ targets) true run early p q = p
start_run-Ends Q R (target ∷ targets) false run early p q = q

-- Whatever the servers answer, in whatever order, and whenever the run is interrupted: when it has
-- ended, and when it waits or its process exits, each server has got a part of the script of the
-- job, from its start on, and then OP_Terminate or nothing more.
pub run_benchmark-HasFollowed :
    (fl : Float32) (at : Surroundings) (job : Job) (es : List Event)
    → let script =
        script_of (job.order.read_write_mix == 0) (at.can_delete && job.order.clean_up_on_close) in
      Ends (HasFollowed script) (HasFollowed script) (run_benchmark fl at job es)
unfolding run_benchmark
run_benchmark-HasFollowed fl at job es =
    let script =
      script_of (job.order.read_write_mix == 0) (at.can_delete && job.order.clean_up_on_close) in
    let m = new_manager at job in
    start_run-Ends (HasFollowed script) (HasFollowed script) job.order.targets at.storage_connects _
      _ (run_job-HasFollowed fl at job m es (fresh at job).0 (fresh at job).1)
      (new_manager-HasFollowed script at job)
