-- ===== src/Report.antt =====
-- The report of a run (src/sibench/report.go): the stats that wait for their analysis, the
-- analyses, and what is written to the JSON file.
use sibench.Base.{
  ℕ, ◌+◌, ◌-◌, ltb, leb, if◌then◌else◌, not, Bool, true, false, ◌||◌, Option, none, some, List, [],
  ◌∷◌, ◌++◌, length, get_elem?,
}
use sibench.Base.Bits.{u16}
use Prim.Native.String.{String, slice, len}
use Prim.Native.String
use sibench.Messages.{Opcode, StatPhase, StatError}
use sibench.Job.{Job}
use sibench.Analysis.{
  ServerStat, Analysis, filter, ramp_filter, phase_filter, target_filter, server_filter,
  new_analysis, phase_name,
}

-- The errors of a run. A server is named by its connection.
pub data RunError : Type 0 where
  report_file : RunError
  not_connected : String → RunError
  transport_failure : ℕ → RunError
  remote_close : ℕ → RunError
  discovery_failure : ℕ → RunError
  unexpected_opcode : Opcode → RunError
  server_failure : String → ℕ → RunError

unfoldable pub error_name : StatError → String
error_name StatError.ok = "None"
error_name StatError.verify_failure = "Verify"
error_name StatError.operation_failure = "Operation"

-- What is written to the file: a string of the source, one of the three values that are marshalled,
-- or the entry of a stat, after a comma or not, with its target and its server.
pub data Piece : Type 0 where
  text : String → Piece
  arguments : Piece
  errors : List RunError → Piece
  analyses : List Analysis → Piece
  entry : Bool → ServerStat → String → String → Piece

-- `json_err` says that `jsonErr` is not nil; `accepts n` whether the write after `n` writes
-- succeeds; `separator` that `jsonStatSeparator` is a comma.
pub record Report : Type 0 where
  pub job : Job
  pub analyses : List Analysis
  pub errors : List RunError
  pub stats : List ServerStat
  pub written : List Piece
  pub accepts : ℕ → Bool
  pub json_err : Bool
  pub separator : Bool

-- `writeString` and `writeJson`. A failure closes the file.
unfoldable pub write : Piece → Report → Report
write piece r =
    if r.json_err
    then r
    else if r.accepts (length r.written)
    then record r { written = r.written ++ (piece ∷ []) }
    else record r { json_err = true }

-- `MakeReport`; `creates` says whether the file can be made.
unfoldable pub make_report : Bool → (ℕ → Bool) → Job → Report
make_report creates accepts job =
    let r : Report = record {
      job = job;
      analyses = [];
      errors = [];
      stats = [];
      written = [];
      accepts = accepts;
      json_err = not creates;
      separator = false;
    } in
    write (text ",\n  \"Stats\": [\n") (write arguments (write (text "{\n  \"Arguments\": ") r))

-- `Close`
unfoldable pub close : Report → Report
close r =
    if r.json_err
    then r
    else write (text "\n}") (
        write (analyses r.analyses) (
          write (text ",\n  \"Analyses\": ")
            (write (errors r.errors) (write (text "\n  ],\n  \"Errors\": ") r))))

-- `AddStat`; `none` is the panic of an index that is out of range.
unfoldable pub add_stat : ServerStat → Report → Option Report
add_stat s r =
    let kept = record r { stats = r.stats ++ (s ∷ []) } in
    if not r.job.individual_stats || r.json_err
    then some kept
    else elim (get_elem? r.job.order.targets s.stat.target_index) [
      | none ↦ none
      | some target ↦ elim (get_elem? r.job.servers s.server_index) [
        | none ↦ none
        | some server ↦
            some (record (write (entry r.separator s target server) kept) { separator = true })
      ]
    ]

unfoldable pub add_error : RunError → Report → Report
add_error e r = record r { errors = r.errors ++ (e ∷ []) }

-- `limit`, on the bytes of a string.
unfoldable pub limit : String → ℕ → String
limit s n = if leb (len s) n then s else String.◌++◌ (slice s 0 (n - 1)) "..."

abbrev label : String → String → StatPhase → String
label kind name phase =
    String.◌++◌ kind (String.◌++◌ (limit name 12) (String.◌++◌ "] " (phase_name phase)))

-- The loops over the targets and over the servers, from the index `i` on: an analysis for each.
unfoldable pub analyse_targets :
    Job → StatPhase → List ServerStat → ℕ → List String → Option (List Analysis)
analyse_targets job phase stats i [] = some []
analyse_targets job phase stats i (t ∷ targets) =
    let rest = analyse_targets job phase stats (i + 1) targets in
    elim (new_analysis (filter stats (target_filter (u16 i) ∷ [])) (label "Target[" t phase) phase
      false job) [ none ↦ none | some a ↦ elim rest [ none ↦ none | some more ↦ some (a ∷ more) ] ]

unfoldable pub analyse_servers :
    Job → StatPhase → List ServerStat → ℕ → List String → Option (List Analysis)
analyse_servers job phase stats i [] = some []
analyse_servers job phase stats i (s ∷ servers) =
    let rest = analyse_servers job phase stats (i + 1) servers in
    elim (new_analysis (filter stats (server_filter (u16 i) ∷ [])) (label "Server[" s phase) phase
      false job) [ none ↦ none | some a ↦ elim rest [ none ↦ none | some more ↦ some (a ∷ more) ] ]

abbrev join : Option (List Analysis) → Option (List Analysis) → Option (List Analysis)
join none ys = none
join (some xs) none = none
join (some xs) (some ys) = some (xs ++ ys)

-- The analyses of a phase, of which there are none where it has no stats.
unfoldable pub analyse_phase : Job → List ServerStat → StatPhase → Option (List Analysis)
analyse_phase job stats phase =
    let own = filter stats (phase_filter phase ∷ []) in
    if ltb 0 (length own)
    then join (analyse_targets job phase own 0 job.order.targets)
        (analyse_servers job phase own 0 job.servers)
    else some []

unfoldable pub analyse_total : Job → List ServerStat → StatPhase → Option (List Analysis)
analyse_total job stats phase =
    let own = filter stats (phase_filter phase ∷ []) in
    if ltb 0 (length own)
    then elim (new_analysis own (String.◌++◌ "Total " (phase_name phase)) phase true job) [
      | none ↦ none
      | some a ↦ some (a ∷ [])
    ]
    else some []

-- `AnalyseStats`; `none` is a panic.
unfoldable pub analyse_stats : Report → Option Report
analyse_stats r =
    let stats = filter r.stats (ramp_filter r.job ∷ []) in
    let found =
      join
        (join (analyse_phase r.job stats StatPhase.write)
          (analyse_phase r.job stats StatPhase.read))
        (join (analyse_total r.job stats StatPhase.write)
          (analyse_total r.job stats StatPhase.read)) in
    elim found [
      | none ↦ none
      | some more ↦ some (record r { analyses = r.analyses ++ more; stats = [] })
    ]
