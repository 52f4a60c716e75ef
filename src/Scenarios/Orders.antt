-- ===== src/Scenarios/Orders.antt =====
-- A small work order and the machine that runs it, with natural numbers in place of floats.
use sibench.Base.{ℕ, ◌+◌, ◌*◌, ◌/◌, Bool, true, false, [], ◌∷◌}
use sibench.Base.Floats.{Float32}
use sibench.Messages.{WorkOrder}
use sibench.Job.{Job}
use sibench.Foreman.Connect.{Site}

abbrev pub order_of : ℕ → ℕ → WorkOrder
order_of start end = record {
  job_id = 1;
  bandwidth = 1000;
  skip_read_validation = false;
  read_write_mix = 50;
  object_key_prefix = "obj";
  object_size = 32;
  seed = 7;
  generator_type = "prng";
  range_start = start;
  range_end = end;
  connection_type = "rados";
  targets = "node" ∷ [];
  protocol_config = [];
  generator_config = [];
  clean_up_on_close = false;
}

abbrev pub whole_numbers : Float32
whole_numbers = record {
  Carrier = ℕ;
  of_u64 = λ n. n;
  to_u64 = λ n. n;
  add = λ m n. m + n;
  mul = λ m n. m * n;
  div = λ m n. m / n;
}

abbrev pub two_cpus : (ℕ → Bool) → Site
two_cpus makes = record {
  cpu_workers = 2;
  physical_memory = 65536;
  stat_bytes = 16;
  has_hostname = true;
  makes_worker = makes;
  creates_files = true;
}

abbrev pub job_of : WorkOrder → Job
job_of order = record {
  individual_stats = false;
  order = order;
  servers = "north" ∷ "south" ∷ [];
  server_port = 5150;
  ramp_up = 5;
  run_time = 30;
  ramp_down = 2;
  use_bytes = false;
  script = "";
}
