-- ===== src/Manager/Understood.antt =====
-- What the manager (src/sibench/manager.go) sends is valid for the foremen
-- (src/sibench/foreman.go): the script of a run follows their transition tables.
use sibench.Base.{
  &&_both, ℕ, ◌==◌, if◌then◌else◌, Bool, true, false, not, ◌&&◌, List, [], ◌∷◌, ◌++◌, ◌≡◌, refl,
  sym, ap, ◌∙◌, arith, inl, inr,
}
use sibench.Base.Floats.{Float32}
use sibench.Messages.{Opcode}
use sibench.Job.{Job}
use sibench.Foreman.States.{ForemanState, valid_tcp_transition, valid_worker_transition}
use sibench.Foreman.Handlers.{is_bad}
use sibench.Foreman.Invariant.{is_phase_op}
use sibench.Manager.{Manager, Event}
use sibench.Manager.Run.{Surroundings, run_benchmark}
use sibench.Manager.Sends.{Ends}
use sibench.Manager.Received.{ops_to}
use sibench.Manager.Sends.{weaken}
use sibench.Manager.Plans.{script_of}
use sibench.Manager.Follows.{HasFollowed, run_benchmark-HasFollowed}

abbrev is_acknowledged : Opcode → Bool
is_acknowledged Opcode.connect = true
is_acknowledged op = is_phase_op op

-- The foreman's state after an opcode, where its workers acknowledge the opcode before the next one
-- comes.
abbrev pub state_after : Opcode → ForemanState → ForemanState
state_after op s =
    let target = valid_tcp_transition op s in
    if is_acknowledged op then valid_worker_transition op target else target

-- A foreman takes the opcodes one after another, each valid in its state.
abbrev pub takes : ForemanState → List Opcode → Bool
takes s [] = true
takes s (op ∷ ops) =
    let rest = takes (state_after op s) ops in not (is_bad (valid_tcp_transition op s)) && rest

not_bad : (s : ForemanState) → not (is_bad s) ≡ true → is_bad s ≡ false
not_bad s h = ground arith

takes-prefix :
    (xs ys : List Opcode) (s : ForemanState) → takes s (xs ++ ys) ≡ true → takes s xs ≡ true
takes-prefix [] ys s h = refl
takes-prefix (op ∷ xs) ys s h =
    let h' =
      &&_both (not (is_bad (valid_tcp_transition op s))) (takes (state_after op s) (xs ++ ys)) h in
    rw (h'.0, takes-prefix xs ys (state_after op s) h'.1)

terminates_after :
    (op : Opcode) (s : ForemanState)
    → is_bad (valid_tcp_transition op s) ≡ false
    → is_bad (valid_tcp_transition Opcode.terminate (state_after op s)) ≡ false
unfolding valid_tcp_transition valid_worker_transition
terminates_after op s h = ground arith

takes-terminate :
    (xs ys : List Opcode) (s : ForemanState)
    → is_bad (valid_tcp_transition Opcode.terminate s) ≡ false
    → takes s (xs ++ ys) ≡ true
    → takes s (xs ++ (Opcode.terminate ∷ [])) ≡ true
takes-terminate [] ys s e h = rw e
takes-terminate (op ∷ xs) ys s e h =
    let h' =
      &&_both (not (is_bad (valid_tcp_transition op s))) (takes (state_after op s) (xs ++ ys)) h in
    let ends = terminates_after op s (not_bad _ h'.0) in
    rw (h'.0, takes-terminate xs ys (state_after op s) ends h'.1)

script_taken : (writes deletes : Bool) → takes ForemanState.idle (script_of writes deletes) ≡ true
unfolding valid_tcp_transition valid_worker_transition
script_taken true true = refl
script_taken true false = refl
script_taken false true = refl
script_taken false false = refl

abbrev pub IsUnderstood : Manager → Type 0
IsUnderstood m = (c : ℕ) → takes ForemanState.idle (ops_to c m.sent) ≡ true

followed-IsUnderstood :
    (writes deletes : Bool) (m : Manager)
    → HasFollowed (script_of writes deletes) m
    → IsUnderstood m
unfolding valid_tcp_transition
followed-IsUnderstood writes deletes m h c =
    let (ops, (rest, whole), which) = h c in
    let taken = sym (ap (takes ForemanState.idle) whole) ∙ script_taken writes deletes in
    elim which [
      | inl e ↦ rw e (takes-prefix ops rest ForemanState.idle taken)
      | inr e ↦ rw e (takes-terminate ops rest ForemanState.idle refl taken)
    ]

-- Whatever happens in a run, when it has ended, and when it waits or its process exits, what each
-- server has got is a sequence of opcodes that a foreman takes from its idle state on, each one
-- valid in the foreman's state, where the workers acknowledge each phase before the next opcode.
pub run_benchmark-IsUnderstood :
    (fl : Float32) (at : Surroundings) (job : Job) (es : List Event)
    → Ends IsUnderstood IsUnderstood (run_benchmark fl at job es)
run_benchmark-IsUnderstood fl at job es =
    let writes = job.order.read_write_mix == 0 in
    let deletes = at.can_delete && job.order.clean_up_on_close in
    let script = script_of writes deletes in
    weaken (HasFollowed script) IsUnderstood (HasFollowed script) IsUnderstood _
      (followed-IsUnderstood writes deletes) (followed-IsUnderstood writes deletes)
      (run_benchmark-HasFollowed fl at job es)
