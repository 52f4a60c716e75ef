-- ===== src/Manager.antt =====
-- The manager (src/sibench/manager.go): its state, what it sends, and the events that its loops
-- select from.
pub mod Loops
pub mod Phases
pub mod Run
pub mod Received
pub mod Sends
pub mod Script
pub mod Steps
pub mod Starts
pub mod Plans
pub mod Follows
pub mod Understood
pub mod Waits
pub mod Stopped
pub mod Starved
pub mod Partition
pub mod Shares
use sibench.Base.{
  ℕ, suc, ◌+◌, ◌-◌, ◌==◌, if◌then◌else◌, Bool, true, false, not, ◌&&◌, ◌||◌, Option, none, some,
  List, [], ◌∷◌, ◌++◌, map,
}
use sibench.Base.Bits.{u64, u64_mod}
use Prim.Native.String.{String}
use sibench.Messages.{Opcode, same_opcode, Stat, WorkOrder, Discovery}
use sibench.Messages.Summary.{StatSummary, zeroed}
use sibench.Job.{Job}
use sibench.Report.{Report, RunError, server_failure}

-- `ServerDetails`
pub record ServerDetails : Type 0 where
  pub discovery : Discovery
  pub name : String
  pub index : ℕ

-- The opcodes that go to a server, and its work order with OP_Connect; a connection that is closed;
-- a run of the script, at the ramp-up or not. A connection is named by a number.
pub data Sent : Type 0 where
  to_server : ℕ → Opcode → Sent
  to_connect : ℕ → WorkOrder → Sent
  closed : ℕ → Sent
  ran_script : Bool → Sent

-- `details` is the map `connToServerDetails`.
pub record Manager : Type 0 where
  pub job : Job
  pub report : Report
  pub conns : List ℕ
  pub details : List (ℕ × ServerDetails)
  pub core_count : ℕ
  pub interrupted : Bool
  pub err : Option RunError
  pub sent : List Sent

-- The data of a message. `msg.Data` into a variable of another type leaves it as it was.
pub data Body : Type 0 where
  no_body : Body
  failure : ℕ → Body
  stat_list : List Stat → Body
  summary : StatSummary → Body
  discovered : Discovery → Body

abbrev pub failure_of : Body → ℕ
failure_of (failure n) = n
failure_of _ = 0

abbrev pub stats_of : Body → List Stat
stats_of (stat_list stats) = stats
stats_of _ = []

abbrev pub summary_of : Body → StatSummary
summary_of (summary s) = s
summary_of _ = zeroed

abbrev pub discovery_of : Body → Discovery → Discovery
discovery_of (discovered d) old = d
discovery_of _ old = old

-- What a `select` waits for: a message of a server, an error of a connection, which may be io.EOF,
-- a signal of the operating system, the ticker, and the timer of a phase.
pub data Event : Type 0 where
  received : ℕ → Opcode → Body → Event
  transport : ℕ → Bool → Event
  signal tick timer : Event

-- A function returns, with the events that it has not read; or it has read all there are and waits
-- for more; or the process exits; or it panics.
pub data Result : Type 0 where
  returned : Manager → List Event → Result
  waiting : Manager → Result
  exited : Manager → Result
  panicked : Result

infixl 5 ◌>>=◌
abbrev pub ◌>>=◌ : Result → (Manager → List Event → Result) → Result
returned m es >>= k = k m es
waiting m >>= k = waiting m
exited m >>= k = exited m
panicked >>= k = panicked

abbrev pub has_error : Option RunError → Bool
has_error none = false
has_error (some e) = true

-- `(m.err != nil) || m.isInterrupted`
abbrev pub stopped : Manager → Bool
stopped m = has_error m.err || m.interrupted

abbrev pub lookup : ℕ → List (ℕ × ServerDetails) → Option ServerDetails
lookup c [] = none
lookup c ((d, x) ∷ ds) = let rest = lookup c ds in if c == d then some x else rest

abbrev pub forget : ℕ → List (ℕ × ServerDetails) → List (ℕ × ServerDetails)
forget c [] = []
forget c ((d, x) ∷ ds) = let rest = forget c ds in if c == d then rest else (d, x) ∷ rest

abbrev pub known : ℕ → List ℕ → Bool
known c [] = false
known c (d ∷ ds) = c == d || known c ds

-- `slices.Delete` at the index that `slices.Index` finds.
abbrev pub without : ℕ → List ℕ → List ℕ
without c [] = []
without c (d ∷ ds) = let rest = without c ds in if c == d then ds else d ∷ rest

-- The loop of `sendOpToServers`.
unfoldable pub send_all : Opcode → Manager → Manager
send_all op m = record m { sent = m.sent ++ map (λ c. to_server c op) m.conns }

-- A server that has hung is dropped.
unfoldable pub drop_server : ℕ → Manager → Manager
drop_server c m =
    if known c m.conns
    then record m { conns = without c m.conns; details = forget c m.details }
    else m

unfoldable pub is_failure : Opcode → Bool
is_failure op = same_opcode op Opcode.fail || same_opcode op Opcode.hung

-- `checkError`; `none` is the panic of a connection without details. The first error is kept.
unfoldable pub check_error : ℕ → Opcode → Body → Manager → Option Manager
check_error c op body m =
    if is_failure op
    then elim (lookup c m.details) [
      | none ↦ none
      | some d ↦
          let m' = if same_opcode op Opcode.hung then drop_server c m else m in
          some (
            if stopped m'
            then m'
            else record m' { err = some (server_failure d.name (failure_of body)) })
    ]
    else some m

-- `pending--`, on a machine word.
abbrev pub down : ℕ → ℕ
down n = u64 (n + u64_mod - 1)
