-- ===== src/Command/Empty.antt =====
-- A run that is asked for no objects.
use sibench.Base.{
  ◌≤◌, if◌then◌else◌, Bool, true, false, none, List, [], ◌∷◌, length, ◌≡◌, refl, sym, ap, ◌∙◌,
  arith,
}
use sibench.Base.Floats.{Float32}
use sibench.Base.Ints.{pos, u64_of}
use Prim.Native.String.{String}
use mathlib.Core.Path.{subst}
use sibench.Job.{Job}
use sibench.Report.{Report, make_report}
use sibench.Messages.{Opcode}
use sibench.Base.{All}
use sibench.Manager.{
  send_all, Manager, Result, returned, waiting, Event, received, transport, signal, tick, timer,
}
use sibench.Manager.Loops.{wait_turn, wait_for_responses, discover, select_loop}
use sibench.Manager.Run.{
  Surroundings, connect_servers, connect_to_servers, order_shares, send_job, new_manager, run_job,
  run_benchmark, start_run,
}
use sibench.Command.{Arguments, Process, runs, start_command}
use sibench.Command.Jobs.{start_command-job, passed_check, job_for-Takes}

no_servers : (servers : List String) → length servers ≤ 0 → servers ≡ []
no_servers [] h = refl
no_servers (s ∷ servers) h = absurd (omega (arith, h))

-- The manager of a job without servers.
abbrev alone : Job → Report → Manager
alone job report = record {
  job = record job { servers = [] };
  report = report;
  conns = [];
  details = [];
  core_count = 0;
  interrupted = false;
  err = none;
  sent = [];
}

-- An event that can come while a manager without servers waits for the answers to OP_Connect: there
-- is nobody to send a message, and signals are asked for only afterwards.
abbrev pub CanCome : Event → Type 0
CanCome tick = Unit
CanCome timer = Unit
CanCome signal = ⊥
CanCome (received c op body) = ⊥
CanCome (transport c eof) = ⊥

select_loop-quiet :
    (es : List Event) (m : Manager)
    → All CanCome es
    → select_loop (wait_turn Opcode.connect) returned es 0 m ≡ waiting m
unfolding select_loop wait_turn
select_loop-quiet [] m h = refl
select_loop-quiet (tick ∷ es) m h = select_loop-quiet es m h.1
select_loop-quiet (timer ∷ es) m h = select_loop-quiet es m h.1
select_loop-quiet (signal ∷ es) m h = absurd h.0
select_loop-quiet (received c op body ∷ es) m h = absurd h.0
select_loop-quiet (transport c eof ∷ es) m h = absurd h.0

run_job-alone :
    (fl : Float32) (at : Surroundings) (job : Job) (report : Report) (es : List Event)
    → All CanCome es
    → run_job fl at (record job { servers = [] }) (alone job report) es ≡ waiting (alone job report)
unfolding run_job connect_to_servers connect_servers discover send_all send_job order_shares
    wait_for_responses
run_job-alone fl at job report es h = rw (select_loop-quiet es (alone job report) h) refl

new_manager_lem :
    (at : Surroundings) (job : Job)
    → (make_report at.creates_report at.accepts_write (record job { servers = [] })).json_err
      ≡ false
    → (report : Report) × (new_manager at (record job { servers = [] }) ≡ alone job report)
unfolding new_manager
new_manager_lem at job file = (
  make_report at.creates_report at.accepts_write (record job { servers = [] }),
  rw (file, new_manager, if◌then◌else◌) refl,
)

start_run_lem :
    {targets ts : List String} {t : String} {answers : Bool} (run early : Result)
    → targets ≡ t ∷ ts
    → answers ≡ true
    → start_run targets answers run early ≡ run
start_run_lem run early e a = rw (e, a, if◌then◌else◌) refl

abbrev Waits : Surroundings → Job → Float32 → List Event → Type 0
Waits at job fl es = (m : Manager) × (run_benchmark fl at job es ≡ waiting m) × (m.sent ≡ [])

Waits-without_servers :
    (fl : Float32) (at : Surroundings) (job : Job) (target : String) (targets : List String)
    (es : List Event)
    → All CanCome es
    → job.order.targets ≡ target ∷ targets
    → at.storage_connects ≡ true
    → (make_report at.creates_report at.accepts_write (record job { servers = [] })).json_err
      ≡ false
    → Waits at (record job { servers = [] }) fl es
unfolding run_benchmark
Waits-without_servers fl at job target targets es quiet t answers file =
    let (report, same) = new_manager_lem at job file in
    (
      alone job report,
      start_run_lem _ _ t answers
          ∙ ap (λ m. run_job fl at (record job { servers = [] }) m es) same
          ∙ run_job-alone fl at job report es quiet,
      refl,
    )

-- A run that is asked for no objects, where the storage answers and the report can be written: the
-- manager has nobody to talk to and sends nothing, and after every sequence of the events that can
-- still come it waits for an answer.
pub zero_objects_wait :
    (fl : Float32) (at : Surroundings) (p : Process) (args : Arguments) (job : Job)
    (target : String) (targets : List String) (es : List Event)
    → All CanCome es
    → start_command p args ≡ runs job
    → args.object_count ≡ pos 0
    → job.order.targets ≡ target ∷ targets
    → at.storage_connects ≡ true
    → (make_report at.creates_report at.accepts_write job).json_err ≡ false
    → (m : Manager) × (run_benchmark fl at job es ≡ waiting m) × (m.sent ≡ [])
unfolding u64_of
zero_objects_wait fl at p args job target targets es quiet e none_wanted t answers file =
    let (sizes, checked, made) = passed_check p args job e in
    let takes = job_for-Takes p sizes args job made in
    let (port, size, bandwidth, is_first, short, full) = start_command-job p args job e in
    let none_left : job.order.range_end ≡ 0 = takes.3 ∙ ap u64_of none_wanted in
    let no_one = no_servers job.servers (omega (arith, short, none_left)) in
    let same : record job { servers = [] } ≡ job =
      ap (λ s. record job { servers = s }) (sym no_one) in
    subst (λ j. Waits at j fl es) same
      (Waits-without_servers fl at job target targets es quiet t answers (
        subst (λ j. (make_report at.creates_report at.accepts_write j).json_err ≡ false) (sym same)
          file))
