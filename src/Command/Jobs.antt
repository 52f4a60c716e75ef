-- ===== src/Command/Jobs.antt =====
-- What the jobs of the command line are like, and what becomes of a job without objects.
use sibench.Base.{
  ℕ, ◌/◌, ◌<◌, ◌≤◌, ltb, if◌then◌else◌, Bool, true, false, Option, none, some, List, length, take,
  ◌≡◌, refl, sym, ap, ◌∙◌, arith, inl, inr, Bool-cases, Option-cases, length-take, take_all,
}
use sibench.Base.Ints.{ℤ, pos, negsuc, u64_of, u16_of, out_of_range}
use Prim.Native.String.{String}
use sibench.Job.{Job}
use sibench.Units.{expand_units}
use sibench.Command.{
  Command, Arguments, Sizes, validate_arguments, Process, generator_config, protocol_config,
  used_servers, job_for, Start, dies, runs, dispatch, start_command, version, server, run,
  other_command,
}
use mathlib.Core.Path.{subst}

-- The servers are the first of those that are given.
used_servers_lem :
    (n : ℕ) (servers : List String)
    → (length (used_servers n servers) ≤ n) × (used_servers n servers ≡ take n servers)
unfolding used_servers
used_servers_lem n servers = elim (Bool-cases (ltb n (length servers))) [
  | inl more ↦ rw (more, if◌then◌else◌) (omega (arith, length-take n servers), refl)
  | inr enough ↦
      rw (enough, if◌then◌else◌)
        (ground (arith, enough), sym (take_all n servers (ground (arith, enough))))
]

in_range : (bound : ℕ) (a : ℤ) → out_of_range bound a ≡ false → (n : ℕ) × (a ≡ pos n) × (n ≤ bound)
unfolding out_of_range
in_range bound (pos n) e = (n, refl, ground (arith, e))
in_range bound (negsuc n) e = absurd (cc e)

refused {ℓ} : {A B : Type ℓ} {a : A} → none ≡ some a → B
refused e = absurd (cc e)

-- A test that ends with an error was passed.
passed {ℓ} :
    {A : Type ℓ} (b : Bool) (o : Option A) {a : A}
    → (if b then none else o) ≡ some a
    → (b ≡ false) × (o ≡ some a)
passed true o e = refused e
passed false o e = (refl, e)

-- A test that had to be passed was.
allowed {ℓ} : {A : Type ℓ} (b : Bool) {a a' : A} → (if b then some a else none) ≡ some a' → a ≡ a'
allowed true {a} e = ap (λ o. elim o [ none ↦ a | some x ↦ x ]) e
allowed false e = refused e

abbrev Sized : Arguments → Sizes → Type 0
Sized args sizes =
    (n : ℕ) × (args.port ≡ pos n)
    × (n ≤ 65535)
    × (expand_units args.object_size ≡ some sizes.object_size_in_bits)
    × (b : ℕ) × (expand_units args.bandwidth ≡ some b)
    × (sizes.bandwidth_in_bits ≡ b / 8)

validate_arguments-Sized :
    (args : Arguments) (sizes : Sizes) → validate_arguments args ≡ some sizes → Sized args sizes
unfolding validate_arguments
validate_arguments-Sized args sizes e =
    let (port_ok, e1) = passed (out_of_range 65535 args.port) _ e in
    let (s3_port_ok, e2) = passed (out_of_range 65535 args.s3_port) _ e1 in
    let (n, is_port, few) = in_range 65535 args.port port_ok in
    elim (Option-cases (expand_units args.object_size)) [
      | inl bad ↦ refused (rw bad at e2)
      | inr (size, sized) ↦ elim (Option-cases (expand_units args.bandwidth)) [
        | inl bad ↦ refused (rw (sized, bad) at e2)
        | inr (b, expanded) ↦
            (let same = allowed _ (rw (sized, expanded) at e2) in
              (
                n,
                is_port,
                few,
                sized ∙ ap (λ x. some x.object_size_in_bits) same,
                b,
                expanded,
                sym (ap (λ x. x.bandwidth_in_bits) same),
              ))
      ]
    ]

dispatch_lem : (c : Command) (o : Option Job) {job : Job} → dispatch c o ≡ runs job → o ≡ some job
unfolding dispatch
dispatch_lem version o e = absurd (cc e)
dispatch_lem server o e = absurd (cc e)
dispatch_lem other_command o e = absurd (cc e)
dispatch_lem run none e = absurd (cc e)
dispatch_lem run (some made) {job} e = ap job_in e
  where
    job_in : Start → Option Job
    job_in (runs j) = some j
    job_in _ = none

-- A command that runs a job has passed the check.
pub passed_check :
    (p : Process) (args : Arguments) (job : Job)
    → start_command p args ≡ runs job
    → (sizes : Sizes) × (validate_arguments args ≡ some sizes) × (job_for p sizes args ≡ some job)
unfolding start_command
passed_check p args job e = elim (Option-cases (validate_arguments args)) [
  | inl bad ↦ absurd (no_run (rw (bad, start_command) at e))
  | inr (sizes, checked) ↦
      (sizes, checked, dispatch_lem args.command _ (rw (checked, start_command) at e))
]
  where
    no_run : dies ≡ runs job → ⊥
    no_run wrong = cc

-- Where the fields of a job come from.
abbrev pub Takes : Sizes → Arguments → Job → Type 0
Takes sizes args job =
    (job.servers ≡ used_servers (u64_of args.object_count) args.servers)
    × (job.server_port ≡ u16_of args.port)
    × (job.order.range_start ≡ 0)
    × (job.order.range_end ≡ u64_of args.object_count)
    × (job.order.object_size ≡ sizes.object_size_in_bits)
    × (job.order.bandwidth ≡ sizes.bandwidth_in_bits)

pub job_for-Takes :
    (p : Process) (sizes : Sizes) (args : Arguments) (job : Job)
    → job_for p sizes args ≡ some job
    → Takes sizes args job
unfolding job_for
job_for-Takes p sizes args job e = elim (Option-cases (generator_config p args)) [
  | inl bad ↦ refused (rw (bad, job_for) at e)
  | inr (generates, g) ↦ elim (Option-cases (protocol_config p args)) [
    | inl bad ↦ refused (rw (g, bad, job_for) at e)
    | inr ((kind, connects, more), c) ↦
        subst (Taken) (rw (g, c, job_for) at e) (refl, refl, refl, refl, refl, refl)
  ]
]
  where
    Taken : Option Job → Type 0
    Taken none = Unit
    Taken (some j) = Takes sizes args j

-- A job that the command line runs has the port of the arguments, their object size and an eighth
-- of their bandwidth, in bytes; its servers are the first of those of the arguments, no more than
-- there are objects, and there is one if there are objects and servers at all.
pub start_command-job :
    (p : Process) (args : Arguments) (job : Job)
    → start_command p args ≡ runs job
    → (args.port ≡ pos job.server_port)
      × (expand_units args.object_size ≡ some job.order.object_size)
      × ((b : ℕ) × (expand_units args.bandwidth ≡ some b) × (job.order.bandwidth ≡ b / 8))
      × (job.servers ≡ take job.order.range_end args.servers)
      × (length job.servers ≤ job.order.range_end)
      × (0 < job.order.range_end → 0 < length args.servers → 0 < length job.servers)
unfolding u16_of
start_command-job p args job e =
    let (sizes, checked, made) = passed_check p args job e in
    let (n, is_port, few, sized, b, expanded, eighth) =
      validate_arguments-Sized args sizes checked in
    let (servers, port, start, end, size, bandwidth) = job_for-Takes p sizes args job made in
    let (short, first) = used_servers_lem (u64_of args.object_count) args.servers in
    let is_first : job.servers ≡ take job.order.range_end args.servers =
      servers ∙ first ∙ ap (λ k. take k args.servers) (sym end) in
    let same_port : job.server_port ≡ n = port ∙ ap u16_of is_port ∙ omega (arith, few) in
    (
      is_port ∙ ap pos (sym same_port),
      sized ∙ ap some (sym size),
      (b, expanded, bandwidth ∙ eighth),
      is_first,
      omega (arith, ap length servers, short, end),
      λ some_objects some_servers. omega (
        arith,
        ap length is_first,
        length-take job.order.range_end args.servers,
        some_objects,
        some_servers,
      ),
    )
