-- ===== src/Scenarios/Commands.antt =====
-- Runs from the command line, with one object for two servers and with none; and a server with one
-- core beside one with 99.
use sibench.Base.{ℕ, ◌+◌, ◌*◌, ◌/◌, true, false, some, List, [], ◌∷◌, ◌≡◌, refl, arith}
use Prim.Native.String.{String}
use sibench.Scenarios.Foremen.{idle_foreman}
use sibench.Base.Floats.{Float32}
use sibench.Base.Ints.{ℤ, pos, out_of_range, u64_of, u16_of}
use sibench.Messages.{WorkOrder}
use sibench.Job.{Job}
use sibench.Units.{expand_units, find_match, match_here, factor, atoi}
use sibench.Report.{make_report, write}
use sibench.Command.{
  run, rados, Arguments, Process, start_command, validate_arguments, generator_config,
  protocol_config, used_servers, job_for, dispatch,
}
use sibench.Command.Jobs.{start_command-job}
use sibench.Command.Empty.{zero_objects_wait}
use sibench.Foreman.Machine.{panicked}
use sibench.Foreman.Connect.{connect}
use sibench.Manager.{Manager, ServerDetails, Sent, to_connect, waiting, tick}
use sibench.Manager.Run.{Surroundings, order_shares, run_benchmark}
use sibench.Manager.Shares.{orders_in}
use sibench.Comms.Orders.{decode_order, zero_order}
use sibench.Manager.Starved.{starved_server_panics}
use sibench.Scenarios.Orders.{order_of, two_cpus, whole_numbers}

abbrev typed : ℤ → Arguments
typed count = record {
  command = run;
  protocol = rados;
  verbosity = "off";
  port = pos 5150;
  object_size = 49 ∷ 107 ∷ [];
  object_count = count;
  servers = "north" ∷ "south" ∷ [];
  run_time = pos 30;
  ramp_up = pos 5;
  ramp_down = pos 2;
  bandwidth = 56 ∷ 77 ∷ [];
  read_write_mix = pos 0;
  individual_stats = false;
  clean_up = false;
  targets = "node" ∷ [];
  skip_read_verification = false;
  use_bytes = false;
  s3_access_key = "";
  s3_secret_key = "";
  s3_bucket = "sibench";
  s3_port = pos 7480;
  ceph_pool = "sibench";
  ceph_datapool = "";
  ceph_user = "admin";
  ceph_key = "key";
  ceph_dir = "sibench";
  block_device = "/tmp/sibench_block";
  file_dir = "";
  generator = "prng";
  slice_dir = "";
  slice_size = pos 4097;
  slice_count = pos 10000;
  script = "";
}

abbrev process : Process
process = record {
  itoa = λ n. "number";
  object_prefix = "sibench-1";
  image_prefix = "sibench-2";
  unix_time = 1700000000;
}

abbrev job_with : ℕ → List String → Job
job_with count servers = record {
  individual_stats = false;
  order = record {
    job_id = 1;
    bandwidth = 1048576;
    skip_read_validation = false;
    read_write_mix = 0;
    object_key_prefix = "sibench-1";
    object_size = 1024;
    seed = 1700000000;
    generator_type = "prng";
    range_start = 0;
    range_end = count;
    connection_type = "rados";
    targets = "node" ∷ [];
    protocol_config = ("username", "admin") ∷ ("key", "key") ∷ ("pool", "sibench") ∷ [];
    generator_config = [];
    clean_up_on_close = false;
  };
  servers = servers;
  server_port = 5150;
  ramp_up = 5;
  run_time = 30;
  ramp_down = 2;
  use_bytes = false;
  script = "";
}

start_command-job_example : (b : ℕ) × (expand_units (56 ∷ 77 ∷ []) ≡ some b) × (1048576 ≡ b / 8)
unfolding start_command validate_arguments out_of_range expand_units find_match match_here factor
    atoi generator_config protocol_config used_servers job_for dispatch u64_of u16_of
start_command-job_example =
    (start_command-job process (typed (pos 1)) (job_with 1 ("north" ∷ [])) refl).2

abbrev quiet : Surroundings
quiet = record {
  storage_connects = true;
  can_delete = true;
  creates_report = true;
  accepts_write = λ n. true;
  connects = λ s. true;
}

zero_objects_wait_example :
    (m : Manager) × (run_benchmark whole_numbers quiet (job_with 0 []) (tick ∷ []) ≡ waiting m)
    × (m.sent ≡ [])
unfolding start_command validate_arguments out_of_range expand_units find_match match_here factor
    atoi generator_config protocol_config used_servers job_for dispatch u64_of u16_of make_report
    write
zero_objects_wait_example =
    zero_objects_wait whole_numbers quiet process (typed (pos 0)) (job_with 0 []) "node" []
      (tick ∷ []) (tt, tt) refl refl refl refl refl

-- Numbers with three decimals.
abbrev thousandths : Float32
thousandths = record {
  Carrier = ℕ;
  of_u64 = λ n. n * 1000;
  to_u64 = λ n. n / 1000;
  add = λ m n. m + n;
  mul = λ m n. m * n / 1000;
  div = λ m n. m * 1000 / n;
}

abbrev server_with : ℕ → ServerDetails
server_with cores = record {
  discovery = record { cores = cores; ram = 0; version = "" };
  name = "server";
  index = 0;
}

abbrev two_orders : List Sent
two_orders =
    to_connect 0 (record (order_of 0 10) { bandwidth = 10; range_end = 0 })
    ∷ to_connect 1 (record (order_of 0 10) { bandwidth = 990 })
    ∷ []

starved_server_panics_example :
    (o : WorkOrder) × (os : List WorkOrder) × (orders_in two_orders ≡ o ∷ os)
    × (connect thousandths (two_cpus (λ j. true)) (decode_order o zero_order) idle_foreman
        ≡ panicked)
unfolding order_shares
starved_server_panics_example =
    starved_server_panics thousandths (order_of 0 10) 100
      ((0, server_with 1) ∷ (1, server_with 99) ∷ []) 100 0 0 (1 ∷ []) two_orders refl refl
      (omega arith) (two_cpus (λ j. true)) idle_foreman zero_order (omega arith) (λ _. refl)
