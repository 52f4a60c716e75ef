-- ===== src/Foreman/Invariant.antt =====
-- What holds of a foreman between two events: the states that `eventLoop` can be in, and the
-- go-routine `processStats`, which is alive exactly while a work order is.
use sibench.Base.{◌≡◌, refl, arith, Bool-cases, inl, inr, ◌≢◌, if◌then◌else◌}
use sibench.Base.{Bool, true, false, not, ◌&&◌, none, some}
use sibench.Messages.{Opcode}
use sibench.Foreman.States.{
  ForemanState, valid_tcp_transition, valid_worker_transition, clear_timeouts, starts_profile,
  stops_profile,
}
use sibench.Foreman.Machine.{
  Foreman, Outcome, ◌>>=◌, next, blocked, exited, panicked, Failure, send, terminate_stats, fail,
  set_state, set_state_with, set_stat_control, set_profile, stop_profile, terminate, terminate_tcp,
  send_opcode_to_workers, send_opcode_to_manager,
}
use sibench.Foreman.Handlers.{is_idle, is_bad}

-- FS_Terminate and FS_Hung are left again before a handler returns.
abbrev pub is_resting : ForemanState → Bool
is_resting ForemanState.bad_transition = false
is_resting ForemanState.terminate = false
is_resting ForemanState.hung = false
is_resting _ = true

pub record IsSound (f : Foreman) : Type 0 where
  pub resting : is_resting f.state ≡ true
  pub stats : f.stats_running ≡ not (is_idle f.state)

-- What holds of the foreman when a handler returns to the event loop.
abbrev pub Returns : (Foreman → Type 0) → Outcome → Type 0
Returns P (next f) = P f
Returns P (blocked f) = Unit
Returns P (exited f) = Unit
Returns P panicked = Unit

-- The rules for a sequence and for a test.
pub Returns->>= :
    (Q P : Foreman → Type 0) (m : Outcome) (k : Foreman → Outcome)
    → Returns Q m
    → ((f : Foreman) → Q f → Returns P (k f))
    → Returns P (m >>= k)
Returns->>= Q P (next f) k q h = h f q
Returns->>= Q P (blocked f) k q h = tt
Returns->>= Q P (exited f) k q h = tt
Returns->>= Q P panicked k q h = tt

pub Returns-if :
    (P : Foreman → Type 0) (b : Bool) (m n : Outcome)
    → (b ≡ true → Returns P m)
    → (b ≡ false → Returns P n)
    → Returns P (if b then m else n)
Returns-if P true m n h k = h refl
Returns-if P false m n h k = k refl

-- Entering a state with no profile and no timeouts to clear is an assignment.
pub set_state_with_plain :
    (creates : Bool) (failing : Failure → Foreman → Outcome) (s : ForemanState) (f : Foreman)
    → clear_timeouts s ≡ false
    → starts_profile s ≡ false
    → stops_profile s ≡ false
    → set_state_with creates failing s f ≡ next (record f { state = s })
unfolding set_state_with set_profile stop_profile
set_state_with_plain creates failing s f c p q = elim (Bool-cases f.profiling) [
  | inl e ↦
      rw (c, if◌then◌else◌) (rw (e, if◌then◌else◌) (rw (p, if◌then◌else◌) (rw (q, if◌then◌else◌))))
  | inr e ↦ rw (c, if◌then◌else◌) (rw (e, if◌then◌else◌))
]

-- The foreman that `terminate` leaves behind.
unfoldable pub terminated : Foreman → Foreman
terminated f =
    let g = send_opcode_to_workers Opcode.terminate (record f { state = ForemanState.terminate }) in
    record (terminate_tcp (record (send terminate_stats g) { stats_running = false })) {
      state = ForemanState.idle;
    }

-- The foreman that `terminate` leaves waiting where the go-routine is not there.
unfoldable pub waiting : Foreman → Foreman
waiting f = send_opcode_to_workers Opcode.terminate (record f { state = ForemanState.terminate })

-- `terminate` returns exactly if the go-routine is there to be told.
pub terminate_lem :
    (creates : Bool) (f : Foreman)
    → terminate creates f ≡ (if f.stats_running then next (terminated f) else blocked (waiting f))
unfolding terminate terminated waiting clear_timeouts starts_profile stops_profile
    send_opcode_to_workers terminate_tcp
terminate_lem creates f = simp (set_state_with_plain creates)

pub terminated_facts :
    (f : Foreman)
    → ((terminated f).state ≡ ForemanState.idle)
      × ((terminated f).stats_running ≡ false)
      × ((terminated f).tcp_connection ≡ none)
unfolding terminated terminate_tcp send_opcode_to_workers send_opcode_to_manager
terminated_facts f = ground arith

pub terminated-IsSound : (f : Foreman) → IsSound (terminated f)
terminated-IsSound f = ground (arith, terminated_facts f)

pub terminate-IsSound : (creates : Bool) (f : Foreman) → Returns IsSound (terminate creates f)
terminate-IsSound creates f =
    rw (terminate_lem creates f)
      (Returns-if IsSound f.stats_running _ _ (λ _. terminated-IsSound f) (λ _. tt))

pub fail-IsSound :
    (creates : Bool) (err : Failure) (f : Foreman) → Returns IsSound (fail creates err f)
unfolding fail
fail-IsSound creates err f =
    terminate-IsSound creates (send_opcode_to_manager Opcode.fail (some err) f)

set_profile-IsSound :
    (creates : Bool) (s : ForemanState) (f : Foreman)
    → IsSound f
    → Returns IsSound (set_profile creates (fail creates) s f)
unfolding set_profile stop_profile
set_profile-IsSound creates s f h =
    Returns-if IsSound (starts_profile s) _ _
      (λ _.
        Returns-if IsSound creates _ _
          (λ _.
            Returns-if IsSound (stops_profile s) _ _
              (λ _.
                Returns-if IsSound creates _ _ (λ _. ground arith) (λ _. fail-IsSound creates _ _))
              (λ _. ground arith))
          (λ _. fail-IsSound creates _ _))
      (λ _.
        Returns-if IsSound (stops_profile s) _ _
          (λ _. Returns-if IsSound creates _ _ (λ _. h) (λ _. fail-IsSound creates _ _)) (λ _. h))

-- Entering a resting state with the go-routine as that state wants it.
pub set_state-IsSound :
    (creates : Bool) (s : ForemanState) (f : Foreman)
    → is_resting s ≡ true
    → f.stats_running ≡ not (is_idle s)
    → Returns IsSound (set_state creates s f)
unfolding set_state set_state_with set_stat_control
set_state-IsSound creates s f r e =
    Returns->>= IsSound IsSound _ _
      (Returns-if IsSound (clear_timeouts s) _ _
        (λ _. Returns-if IsSound f.stats_running _ _ (λ _. ground arith) (λ _. tt))
        (λ _. ground arith))
      (λ g h. Returns-if IsSound g.profiling _ _ (λ _. set_profile-IsSound creates s g h) (λ _. h))

-- The target of a phase opcode is a state in which a work order is running.
abbrev pub is_busy : ForemanState → Bool
is_busy s = is_resting s && not (is_idle s)

-- The opcodes that the `default` case of `handleTcpMsg` takes.
abbrev pub is_phase_op : Opcode → Bool
is_phase_op Opcode.discovery = false
is_phase_op Opcode.connect = false
is_phase_op Opcode.stat_details = false
is_phase_op Opcode.stat_summary_start = false
is_phase_op Opcode.stat_summary_stop = false
is_phase_op Opcode.terminate = false
is_phase_op _ = true

pub tcp_target :
    (op : Opcode) (s : ForemanState)
    → is_resting s ≡ true
    → is_phase_op op ≡ true
    → is_bad (valid_tcp_transition op s) ≡ false
    → (is_busy (valid_tcp_transition op s) ≡ true) × (is_busy s ≡ true)
unfolding valid_tcp_transition
tcp_target op s r p h = ground arith

pub worker_target :
    (op : Opcode) (s : ForemanState)
    → is_resting s ≡ true
    → op ≢ Opcode.fail
    → is_bad (valid_worker_transition op s) ≡ false
    → (is_busy (valid_worker_transition op s) ≡ true) × (is_busy s ≡ true)
unfolding valid_worker_transition
worker_target op s r n h = ground arith
