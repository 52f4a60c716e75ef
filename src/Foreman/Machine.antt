-- ===== src/Foreman/Machine.antt =====
-- The record of a foreman and the methods that its event handlers share
-- (src/sibench/foreman.go): `setState`, `setStatControl`, the two `sendOpcodeTo…`, `terminateTCP`,
-- `terminate`, `fail` and `hung`.
use sibench.Base.{ℕ, ◌+◌, if◌then◌else◌, length}
use sibench.Base.{Bool, true, false, Option, none, some, List, [], ◌∷◌, ◌++◌}
use sibench.Base.Bits.{u64}
use sibench.Messages.{Opcode, WorkOrder}
use sibench.Foreman.States.{ForemanState, clear_timeouts, starts_profile, stops_profile}

-- The errors that a foreman makes, and one that a worker reports.
pub data Failure : Type 0 where
  bad_tcp : ForemanState → Opcode → Failure
  bad_worker : ForemanState → Opcode → Failure
  profile_file : ForemanState → Failure
  hostname : Failure
  reported : ℕ → Failure

-- What is sent over a channel or a connection, oldest first. A connection is named by a number.
pub data Sent : Type 0 where
  to_manager : Opcode → Option Failure → Sent
  discovery_reply : Sent
  to_worker : ℕ → Opcode → Sent
  to_stats : Opcode → Sent
  clear_stats_timeouts : Sent
  terminate_stats : Sent
  busy_reply : ℕ → Sent
  closed : ℕ → Sent

-- A worker's part of the work order, and its `WorkerSpec`.
pub record WorkerShare : Type 0 where
  pub id : ℕ
  pub range_start : ℕ
  pub range_end : ℕ
  pub bandwidth : ℕ
  pub stat_preallocation_count : ℕ

-- `stats_running` says that the go-routine `processStats` is alive, and so receives what is sent
-- over `statControlChannel`. `workers` is `workerInfos`, each with what `connect` gave it.
-- `response_pending` is a Go int: its bits, below 2 ^ 64.
pub record Foreman : Type 0 where
  pub order : Option WorkOrder
  pub workers : List WorkerShare
  pub stats_running : Bool
  pub tcp_connection : Option ℕ
  pub response_pending : ℕ
  pub state : ForemanState
  pub profiling : Bool
  pub profile_index : ℕ
  pub sent : List Sent

-- A handler returns; or it waits forever on a channel that nothing reads; or the process exits;
-- or it panics.
pub data Outcome : Type 0 where
  next : Foreman → Outcome
  blocked : Foreman → Outcome
  exited : Foreman → Outcome
  panicked : Outcome

infixl 5 ◌>>=◌
abbrev pub ◌>>=◌ : Outcome → (Foreman → Outcome) → Outcome
next f >>= k = k f
blocked f >>= k = blocked f
exited f >>= k = exited f
panicked >>= k = panicked

abbrev pub send : Sent → Foreman → Foreman
send m f = record f { sent = f.sent ++ (m ∷ []) }

abbrev pub is_some {ℓ} : {A : Type ℓ} → Option A → Bool
is_some none = false
is_some (some _) = true

unfoldable pub send_opcode_to_manager : Opcode → Option Failure → Foreman → Foreman
send_opcode_to_manager op err f = if is_some f.tcp_connection then send (to_manager op err) f else f

abbrev pub to_workers : Opcode → List WorkerShare → List Sent
to_workers op [] = []
to_workers op (w ∷ ws) = to_worker w.id op ∷ to_workers op ws

unfoldable pub send_opcode_to_workers : Opcode → Foreman → Foreman
send_opcode_to_workers op f = record f {
  response_pending = length f.workers;
  sent = f.sent ++ to_workers op f.workers;
}

-- `statControlChannel <- sc`, then the wait for the confirmation.
unfoldable pub set_stat_control : Sent → Foreman → Outcome
set_stat_control m f = if f.stats_running then next (send m f) else blocked f

-- The part of `setState` on profiling, entered with the new state set. `creates` says whether
-- `os.Create` succeeds. `fail` stands for the
-- method `fail`, after which `setState` returns.
unfoldable pub stop_profile :
    Bool → (Failure → Foreman → Outcome) → ForemanState → Foreman → Outcome
stop_profile creates fail state f =
    if stops_profile state
    then (if creates then next f else fail (profile_file state) f)
    else next f

unfoldable pub set_profile : Bool → (Failure → Foreman → Outcome) → ForemanState → Foreman → Outcome
set_profile creates fail state f =
    if starts_profile state
    then (let f' = record f { profile_index = u64 (f.profile_index + 1) } in
        if creates then stop_profile creates fail state f' else fail (profile_file state) f')
    else stop_profile creates fail state f

unfoldable pub set_state_with :
    Bool → (Failure → Foreman → Outcome) → ForemanState → Foreman → Outcome
set_state_with creates fail state f =
    (if clear_timeouts state
      then set_stat_control clear_stats_timeouts (record f { state = state })
      else next (record f { state = state }))
    >>= λ f'. if f'.profiling then set_profile creates fail state f' else next f'

unfoldable pub terminate_tcp : Foreman → Foreman
terminate_tcp f = elim f.tcp_connection [
  | none ↦ f
  | some c ↦ record (send (closed c) (send_opcode_to_manager Opcode.terminate none f)) {
    tcp_connection = none;
  }
]

-- The wait for the acknowledgments ends with the last of them or with the timer, and changes no
-- field. The states that `terminate` enters have no profile, so `fail` is not called from there.
unfoldable pub terminate : Bool → Foreman → Outcome
terminate creates f = set_state_with creates (λ err f. panicked) ForemanState.terminate f >>= λ f.
    let f = send_opcode_to_workers Opcode.terminate f in
    if f.stats_running
    then set_state_with creates (λ err f. panicked) ForemanState.idle
        (terminate_tcp (record (send terminate_stats f) { stats_running = false }))
    else blocked f

unfoldable pub fail : Bool → Failure → Foreman → Outcome
fail creates err f = terminate creates (send_opcode_to_manager Opcode.fail (some err) f)

unfoldable pub hung : Bool → Failure → Foreman → Outcome
hung creates err f =
    terminate creates (send_opcode_to_manager Opcode.hung (some err) f) >>= λ f. exited f

unfoldable pub set_state : Bool → ForemanState → Foreman → Outcome
set_state creates = set_state_with creates (fail creates)
