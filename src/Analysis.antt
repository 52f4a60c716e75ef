-- ===== src/Analysis.antt =====
-- The analysis of the stats of a run (src/sibench/stats.go): filters, the sort by duration, and
-- the figures of an `Analysis`.
pub mod Floats
pub mod Sorted
pub mod Figures
use sibench.Base.{
  ℕ, suc, ◌+◌, ◌-◌, ◌*◌, ◌/◌, ◌%◌, ◌^◌, ◌==◌, ltb, leb, if◌then◌else◌, not, Bool, true, false, ◌&&◌,
  Option, none, some, List, [], ◌∷◌, length, get_elem?,
}
use sibench.Base.Bits.{u64, u32}
use Prim.Native.String.{String}
use sibench.Messages.{Stat, StatPhase, StatError}
use sibench.Messages.Summary.{same_phase, same_error}
use sibench.Job.{Job}
use sibench.Analysis.Floats.{index_95}

pub record ServerStat : Type 0 where
  pub stat : Stat
  pub server_index : ℕ

unfoldable pub phase_filter : StatPhase → ServerStat → Bool
phase_filter phase s = same_phase s.stat.phase phase

unfoldable pub error_filter : StatError → ServerStat → Bool
error_filter err s = same_error s.stat.error err

-- Seconds to milliseconds, as uint32.
unfoldable pub ramp_filter : Job → ServerStat → Bool
ramp_filter job s =
    let up = u32 (u64 (job.ramp_up * 1000)) in
    let time = u32 (u64 (job.run_time * 1000)) in
    let start = s.stat.time_since_phase_start_millis in ltb up start && leb start (u32 (up + time))

unfoldable pub target_filter : ℕ → ServerStat → Bool
target_filter index s = s.stat.target_index == index

unfoldable pub server_filter : ℕ → ServerStat → Bool
server_filter index s = s.server_index == index

unfoldable pub invert_filter : (ServerStat → Bool) → ServerStat → Bool
invert_filter fn s = not (fn s)

-- The inner loop of `filter`, which stops at the first function that leaves the stat out.
unfoldable pub included : ServerStat → List (ServerStat → Bool) → Bool
included s [] = true
included s (fn ∷ fns) = let rest = included s fns in if fn s then rest else false

unfoldable pub filter : List ServerStat → List (ServerStat → Bool) → List ServerStat
filter [] fns = []
filter (s ∷ stats) fns = let rest = filter stats fns in if included s fns then s ∷ rest else rest

-- `sortByDuration`. Stats of the same duration may come in any order; here they keep theirs.
unfoldable pub insert : ServerStat → List ServerStat → List ServerStat
insert s [] = s ∷ []
insert s (t ∷ stats) =
    let rest = insert s stats in
    if leb s.stat.duration_micros t.stat.duration_micros then s ∷ t ∷ stats else t ∷ rest

unfoldable pub sort_by_duration : List ServerStat → List ServerStat
sort_by_duration [] = []
sort_by_duration (s ∷ stats) = insert s (sort_by_duration stats)

unfoldable pub phase_name : StatPhase → String
phase_name StatPhase.write = "Write"
phase_name StatPhase.prepare = "Prepare"
phase_name StatPhase.read = "Read"
phase_name StatPhase.delete = "Delete"

pub record Analysis : Type 0 where
  pub name : String
  pub phase : String
  pub is_total : Bool
  pub res_time_min : ℕ
  pub res_time_max : ℕ
  pub res_time_95 : ℕ
  pub res_time_avg : ℕ
  pub bandwidth : ℕ
  pub bandwidth_bytes : ℕ
  pub successes : ℕ
  pub failures : ℕ

-- The loop that adds up the durations.
unfoldable pub total_duration : ℕ → List ServerStat → ℕ
total_duration total [] = total
total_duration total (s ∷ stats) = total_duration (u64 (total + s.stat.duration_micros)) stats

-- The figures of the sorted stats `good`, from the first, the last and the one at 95 percent.
unfoldable pub figures :
    Job → List ServerStat → ServerStat → ServerStat → ServerStat → Analysis → Analysis
figures job good fastest slowest late base = record base {
  res_time_min = fastest.stat.duration_micros;
  res_time_max = slowest.stat.duration_micros;
  res_time_95 = late.stat.duration_micros;
  bandwidth = u64 (u64 (8 * length good) * job.order.object_size) / job.run_time;
  bandwidth_bytes = u64 (length good * job.order.object_size) / job.run_time;
  res_time_avg = total_duration 0 good / length good;
}

-- An index that is out of range panics, and so does a run time of 0, by a division.
unfoldable pub measured : Job → List ServerStat → Analysis → Option Analysis
measured job good base = elim (get_elem? good 0) [
  | none ↦ none
  | some fastest ↦ elim (get_elem? good (length good - 1)) [
    | none ↦ none
    | some slowest ↦ elim (get_elem? good (index_95 (length good))) [
      | none ↦ none
      | some late ↦
          if job.run_time == 0 then none else some (figures job good fastest slowest late base)
    ]
  ]
]

-- The analysis before there are response times.
unfoldable pub unmeasured : List ServerStat → List ServerStat → String → StatPhase → Bool → Analysis
unmeasured stats good name phase is_total = record {
  name = name;
  phase = phase_name phase;
  is_total = is_total;
  res_time_min = 0;
  res_time_max = 0;
  res_time_95 = 0;
  res_time_avg = 0;
  bandwidth = 0;
  bandwidth_bytes = 0;
  successes = length good;
  failures = length stats - length good;
}

-- `NewAnalysis`; `none` is a panic.
unfoldable pub new_analysis : List ServerStat → String → StatPhase → Bool → Job → Option Analysis
new_analysis stats name phase is_total job =
    let good = filter stats (error_filter StatError.ok ∷ []) in
    let base = unmeasured stats good name phase is_total in
    if ltb 0 (length good) then measured job (sort_by_duration good) base else some base
