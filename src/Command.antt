-- ===== src/Command.antt =====
-- The command line of sibench (src/sibench/main.go): the check of the arguments and the job that
-- `startRun` makes of them. The arguments are as docopt has parsed them; `--workers`, which only goes
-- into the work order's factor, is left out.
pub mod Jobs
pub mod Empty
use sibench.Base.{
  ℕ, ◌/◌, ltb, if◌then◌else◌, Bool, true, false, Option, none, some, List, [], ◌∷◌, ◌++◌, length,
  take,
}
use sibench.Base.Ints.{ℤ, u64_of, u16_of, out_of_range}
use Prim.Native.String.{String}
use text.Mathlib.Text.{◌==◌ as str_eq}
use sibench.Messages.{WorkOrder}
use sibench.Job.{Job}
use sibench.Units.{expand_units}

-- What the command line names: a command, and for a run what is benchmarked.
pub data Command : Type 0 where
  version server run other_command : Command

pub data Protocol : Type 0 where
  s3 rados cephfs rbd block file no_protocol : Protocol

-- `Arguments`. Sizes are given as bytes of text, and the servers as they stand between the commas.
pub record Arguments : Type 0 where
  pub command : Command
  pub protocol : Protocol
  pub verbosity : String
  pub port : ℤ
  pub object_size : List ℕ
  pub object_count : ℤ
  pub servers : List String
  pub run_time : ℤ
  pub ramp_up : ℤ
  pub ramp_down : ℤ
  pub bandwidth : List ℕ
  pub read_write_mix : ℤ
  pub individual_stats : Bool
  pub clean_up : Bool
  pub targets : List String
  pub skip_read_verification : Bool
  pub use_bytes : Bool
  pub s3_access_key : String
  pub s3_secret_key : String
  pub s3_bucket : String
  pub s3_port : ℤ
  pub ceph_pool : String
  pub ceph_datapool : String
  pub ceph_user : String
  pub ceph_key : String
  pub ceph_dir : String
  pub block_device : String
  pub file_dir : String
  pub generator : String
  pub slice_dir : String
  pub slice_size : ℤ
  pub slice_count : ℤ
  pub script : String

-- `ObjectSizeInBits` and `BandwidthInBits`
pub record Sizes : Type 0 where
  pub object_size_in_bits : ℕ
  pub bandwidth_in_bits : ℕ

abbrev is_verbosity : String → Bool
is_verbosity v =
    if str_eq v "off" then true else if str_eq v "debug" then true else str_eq v "trace"

-- `validateArguments`, with none for an error.
unfoldable pub validate_arguments : Arguments → Option Sizes
validate_arguments args =
    if out_of_range 65535 args.port
    then none
    else if out_of_range 65535 args.s3_port
    then none
    else elim (expand_units args.object_size) [
      | none ↦ none
      | some size ↦ elim (expand_units args.bandwidth) [
        | none ↦ none
        | some bandwidth ↦
            if is_verbosity args.verbosity
            then some (record { object_size_in_bits = size; bandwidth_in_bits = bandwidth / 8 })
            else none
      ]
    ]

-- What the process takes from its surroundings: `strconv.Itoa`, the prefixes that
-- `createUniquePrefix` makes, and the time.
pub record Process : Type 0 where
  pub itoa : ℤ → String
  pub object_prefix : String
  pub image_prefix : String
  pub unix_time : ℕ

-- The configuration of the generator, with none where there is no such generator.
unfoldable pub generator_config : Process → Arguments → Option (List (String × String))
generator_config p args =
    if str_eq args.generator "prng"
    then some []
    else if str_eq args.generator "slice"
    then some (
        ("dir", args.slice_dir)
        ∷ ("size", p.itoa args.slice_size)
        ∷ ("count", p.itoa args.slice_count)
        ∷ [])
    else none

-- The connection's type and configuration, and the target that is added, with none where no
-- protocol is named.
unfoldable pub protocol_config :
    Process → Arguments → Option (String × List (String × String) × List String)
protocol_config p args = elim args.protocol [
  | s3 ↦ some (
    "s3",
    ("access_key", args.s3_access_key)
        ∷ ("secret_key", args.s3_secret_key)
        ∷ ("port", p.itoa args.s3_port)
        ∷ ("bucket", args.s3_bucket)
        ∷ [],
    [],
  )
  | rados ↦ some (
    "rados",
    ("username", args.ceph_user) ∷ ("key", args.ceph_key) ∷ ("pool", args.ceph_pool) ∷ [],
    [],
  )
  | cephfs ↦ some (
    "cephfs",
    ("username", args.ceph_user) ∷ ("key", args.ceph_key) ∷ ("dir", args.ceph_dir) ∷ [],
    [],
  )
  | rbd ↦ some (
    "rbd",
    ("username", args.ceph_user)
        ∷ ("key", args.ceph_key)
        ∷ ("pool", args.ceph_pool)
        ∷ ("datapool", args.ceph_datapool)
        ∷ ("image_prefix", p.image_prefix)
        ∷ [],
    [],
  )
  | block ↦ some ("block", [], args.block_device ∷ [])
  | file ↦ some ("file", [], args.file_dir ∷ [])
  | no_protocol ↦ none
]

-- The servers of a run: no more than there are objects.
unfoldable pub used_servers : ℕ → List String → List String
used_servers range_end servers =
    if ltb range_end (length servers) then take range_end servers else servers

-- The job of `startRun`, with none where it dies.
unfoldable pub job_for : Process → Sizes → Arguments → Option Job
job_for p sizes args = elim (generator_config p args) [
  | none ↦ none
  | some generates ↦ elim (protocol_config p args) [
    | none ↦ none
    | some (kind, connects, more) ↦ some (record {
      individual_stats = args.individual_stats;
      order = record {
        job_id = 1;
        bandwidth = sizes.bandwidth_in_bits;
        skip_read_validation = args.skip_read_verification;
        read_write_mix = u64_of args.read_write_mix;
        object_key_prefix = p.object_prefix;
        object_size = sizes.object_size_in_bits;
        seed = p.unix_time;
        generator_type = args.generator;
        range_start = 0;
        range_end = u64_of args.object_count;
        connection_type = kind;
        targets = args.targets ++ more;
        protocol_config = connects;
        generator_config = generates;
        clean_up_on_close = args.clean_up;
      };
      servers = used_servers (u64_of args.object_count) args.servers;
      server_port = u16_of args.port;
      ramp_up = u64_of args.ramp_up;
      run_time = u64_of args.run_time;
      ramp_down = u64_of args.ramp_down;
      use_bytes = args.use_bytes;
      script = args.script;
    })
  ]
]

-- What `main` comes to: it dies, prints the version, starts a foreman, runs a job, or does nothing.
pub data Start : Type 0 where
  dies prints_version serves does_nothing : Start
  runs : Job → Start

-- The `switch` of `main`, with the job that `startRun` would make.
unfoldable pub dispatch : Command → Option Job → Start
dispatch version job = prints_version
dispatch server job = serves
dispatch run none = dies
dispatch run (some job) = runs job
dispatch other_command job = does_nothing

-- `main`
unfoldable pub start_command : Process → Arguments → Start
start_command p args = elim (validate_arguments args) [
  | none ↦ dies
  | some sizes ↦ dispatch args.command (job_for p sizes args)
]
