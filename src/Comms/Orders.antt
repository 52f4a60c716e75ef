-- ===== src/Comms/Orders.antt =====
-- The work order of OP_Connect as gob puts it into the foreman's variable (`Data` of
-- src/comms/gob_encoder.go, called with `&f.order` in src/sibench/foreman.go). Gob does not send
-- fields that are zero, and leaves the fields that are not sent as they were; it adds the entries
-- of a map to those that are there. The foreman never clears its variable.
pub mod Decoded
use sibench.Base.{ℕ, ◌==◌, if◌then◌else◌, Bool, true, false, ◌||◌, List, [], ◌∷◌}
use Prim.Native.String.{String}
use text.Mathlib.Text.{◌==◌ as str_eq}
use sibench.Messages.{WorkOrder}

abbrev number_of : ℕ → ℕ → ℕ
number_of sent old = if sent == 0 then old else sent

abbrev string_of : String → String → String
string_of sent old = if str_eq sent "" then old else sent

abbrev pub list_of : List String → List String → List String
list_of [] old = old
list_of (s ∷ sent) old = s ∷ sent

abbrev pub set_entry : String → String → List (String × String) → List (String × String)
set_entry k v [] = (k, v) ∷ []
set_entry k v ((k', v') ∷ entries) =
    let rest = set_entry k v entries in if str_eq k k' then (k, v) ∷ entries else (k', v') ∷ rest

abbrev pub map_of : List (String × String) → List (String × String) → List (String × String)
map_of [] old = old
map_of ((k, v) ∷ sent) old = map_of sent (set_entry k v old)

unfoldable pub decode_order : WorkOrder → WorkOrder → WorkOrder
decode_order sent old = record {
  job_id = number_of sent.job_id old.job_id;
  bandwidth = number_of sent.bandwidth old.bandwidth;
  skip_read_validation = sent.skip_read_validation || old.skip_read_validation;
  read_write_mix = number_of sent.read_write_mix old.read_write_mix;
  object_key_prefix = string_of sent.object_key_prefix old.object_key_prefix;
  object_size = number_of sent.object_size old.object_size;
  seed = number_of sent.seed old.seed;
  generator_type = string_of sent.generator_type old.generator_type;
  range_start = number_of sent.range_start old.range_start;
  range_end = number_of sent.range_end old.range_end;
  connection_type = string_of sent.connection_type old.connection_type;
  targets = list_of sent.targets old.targets;
  protocol_config = map_of sent.protocol_config old.protocol_config;
  generator_config = map_of sent.generator_config old.generator_config;
  clean_up_on_close = sent.clean_up_on_close || old.clean_up_on_close;
}

-- The variable before the first order.
abbrev pub zero_order : WorkOrder
zero_order = record {
  job_id = 0;
  bandwidth = 0;
  skip_read_validation = false;
  read_write_mix = 0;
  object_key_prefix = "";
  object_size = 0;
  seed = 0;
  generator_type = "";
  range_start = 0;
  range_end = 0;
  connection_type = "";
  targets = [];
  protocol_config = [];
  generator_config = [];
  clean_up_on_close = false;
}
