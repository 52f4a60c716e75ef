-- ===== src/Foreman/Orders.antt =====
-- What a foreman does with the manager's commands: a phase is started, every worker acknowledges
-- it, and the manager is told once; what is not valid ends the work order.
use sibench.Base.{
  ap, ◌-◌, ◌≤◌, ℕ, zero, suc, ◌≡◌, refl, arith, Bool-cases, inl, inr, ◌≢◌, if◌then◌else◌,
}
use sibench.Base.{Bool, true, false, none, some, [], ◌∷◌}
use sibench.Base.Floats.{Float32}
use sibench.Messages.{Opcode, WorkOrder}
use sibench.Foreman.States.{
  ForemanState, valid_tcp_transition, valid_worker_transition, clear_timeouts, starts_profile,
  stops_profile,
}
use sibench.Foreman.Machine.{
  Foreman, ◌>>=◌, next, Failure, terminate_stats, fail, set_state, set_state_with, set_stat_control,
  terminate_tcp, send_opcode_to_workers, send_opcode_to_manager,
}
use sibench.Foreman.Connect.{Site}
use sibench.Foreman.Handlers.{
  is_bad, message, worker_response, step, event_loop, handle_tcp_msg, handle_worker_response,
  acknowledge, dispatch_tcp,
}
use sibench.Base.{◌<◌, ◌++◌, length, replicate, append_assoc}
use sibench.Base.Bits.{u64_mod}
use sibench.Foreman.Machine.{to_manager, clear_stats_timeouts, closed, to_workers, bad_tcp}
use sibench.Foreman.Invariant.{is_phase_op, terminated, terminate_lem, set_state_with_plain}

-- The states that the workers' answers lead to have no profile and no timeouts to clear.
done_plain :
    (op : Opcode) (s : ForemanState)
    → (clear_timeouts (valid_worker_transition op s) ≡ false)
      × (starts_profile (valid_worker_transition op s) ≡ false)
      × (stops_profile (valid_worker_transition op s) ≡ false)
unfolding valid_worker_transition clear_timeouts starts_profile stops_profile
done_plain op s = ground arith

-- The foreman after the last acknowledgment of `op`.
abbrev pub completed : Opcode → Foreman → Foreman
completed op f =
    send_opcode_to_manager op none
      (record f { response_pending = 0; state = valid_worker_transition op f.state })

last_acknowledgment :
    (creates : Bool) (op : Opcode) (f : Foreman)
    → is_bad (valid_worker_transition op f.state) ≡ false
    → f.response_pending ≡ 1
    → acknowledge creates op f ≡ next (completed op f)
unfolding acknowledge set_state
last_acknowledgment creates op f v p =
    let (c, s, t) = done_plain op f.state in
    simp (v, p, if◌then◌else◌) (simp (set_state_with_plain creates (fail creates) _ _ c s t))

inner_acknowledgment :
    (creates : Bool) (op : Opcode) (n : ℕ) (f : Foreman)
    → is_bad (valid_worker_transition op f.state) ≡ false
    → f.response_pending ≡ suc (suc n)
    → suc (suc n) < u64_mod
    → acknowledge creates op f ≡ next (record f { response_pending = suc n })
unfolding acknowledge
inner_acknowledgment creates op n f v p b = ground arith

response_is_acknowledge :
    (creates : Bool) (op : Opcode) (err : Failure) (f : Foreman)
    → op ≢ Opcode.fail
    → op ≢ Opcode.hung
    → handle_worker_response creates op err f ≡ acknowledge creates op f
unfolding handle_worker_response
response_is_acknowledge creates Opcode.fail err f nf nh = absurd (nf refl)
response_is_acknowledge creates Opcode.hung err f nf nh = absurd (nh refl)
response_is_acknowledge creates _ err f nf nh = refl

-- `n + 1` workers are awaited: after as many acknowledgments of `op`, and no sooner, the foreman
-- enters the next state and tells the manager, once.
acknowledge_all :
    (fl : Float32) (site : Site) (op : Opcode) (err : Failure) (n : ℕ) (f : Foreman)
    → op ≢ Opcode.fail
    → op ≢ Opcode.hung
    → is_bad (valid_worker_transition op f.state) ≡ false
    → f.response_pending ≡ suc n
    → suc n < u64_mod
    → event_loop fl site (replicate (suc n) (worker_response op err)) f ≡ next (completed op f)
unfolding event_loop step
acknowledge_all fl site op err zero f nf nh v p b =
    rw (response_is_acknowledge site.creates_files op err f nf nh)
      (rw (last_acknowledgment site.creates_files op f v p))
acknowledge_all fl site op err (suc n) f nf nh v p b =
    rw (response_is_acknowledge site.creates_files op err f nf nh) (
      rw (inner_acknowledgment site.creates_files op n f v p b) (
        acknowledge_all fl site op err n (record f { response_pending = suc n }) nf nh v refl
          (omega arith)))

-- Before the last of them, only the count of the workers that are awaited has changed.
acknowledge_some :
    (fl : Float32) (site : Site) (op : Opcode) (err : Failure) (n k : ℕ) (f : Foreman)
    → op ≢ Opcode.fail
    → op ≢ Opcode.hung
    → is_bad (valid_worker_transition op f.state) ≡ false
    → f.response_pending ≡ suc n
    → suc n < u64_mod
    → k ≤ n
    → event_loop fl site (replicate k (worker_response op err)) f
      ≡ next (record f { response_pending = suc n - k })
unfolding event_loop step
acknowledge_some fl site op err n zero f nf nh v p b l =
    let whole : f.response_pending ≡ suc n - 0 = omega (arith, p) in
    ap (λ r. next (record f { response_pending = r })) whole
acknowledge_some fl site op err zero (suc k) f nf nh v p b l = absurd (omega (arith, l))
acknowledge_some fl site op err (suc n) (suc k) f nf nh v p b l =
    let fewer : suc (suc n) - suc k ≡ suc n - k = omega arith in
    rw (response_is_acknowledge site.creates_files op err f nf nh) (
      rw (inner_acknowledgment site.creates_files op n f v p b, fewer)
        (acknowledge_some fl site op err n k (record f { response_pending = suc n }) nf nh v refl
          (omega arith) (omega (arith, l))))

-- The tables agree: what the manager starts, the workers' answers can end.
phase_answered :
    (op : Opcode) (s : ForemanState)
    → is_phase_op op ≡ true
    → is_bad (valid_tcp_transition op s) ≡ false
    → (is_bad (valid_worker_transition op (valid_tcp_transition op s)) ≡ false)
      × (op ≢ Opcode.fail)
      × (op ≢ Opcode.hung)
unfolding valid_tcp_transition valid_worker_transition
phase_answered op s p v = ground arith

-- The foreman after a valid phase opcode: timeouts cleared where the state asks for it, and the
-- opcode sent to every worker.
abbrev pub started : Opcode → Foreman → Foreman
started op f =
    let target = valid_tcp_transition op f.state in
    let told = if clear_timeouts target then f.sent ++ (clear_stats_timeouts ∷ []) else f.sent in
    record f {
      response_pending = length f.workers;
      state = target;
      sent = told ++ to_workers op f.workers;
    }

dispatch_phase :
    (fl : Float32) (site : Site) (op : Opcode) (o : WorkOrder) (s : ForemanState) (f : Foreman)
    → is_phase_op op ≡ true
    → dispatch_tcp fl site op o s f
      ≡ (set_state site.creates_files s f >>= λ g. next (send_opcode_to_workers op g))
unfolding dispatch_tcp
dispatch_phase fl site Opcode.discovery o s f p = cc
dispatch_phase fl site Opcode.connect o s f p = cc
dispatch_phase fl site Opcode.stat_details o s f p = cc
dispatch_phase fl site Opcode.stat_summary_start o s f p = cc
dispatch_phase fl site Opcode.stat_summary_stop o s f p = cc
dispatch_phase fl site Opcode.terminate o s f p = cc
dispatch_phase fl site _ o s f p = refl

start_phase :
    (fl : Float32) (site : Site) (op : Opcode) (o : WorkOrder) (f : Foreman)
    → f.profiling ≡ false
    → f.stats_running ≡ true
    → is_phase_op op ≡ true
    → is_bad (valid_tcp_transition op f.state) ≡ false
    → handle_tcp_msg fl site op o f ≡ next (started op f)
unfolding handle_tcp_msg set_state set_state_with set_stat_control send_opcode_to_workers
start_phase fl site op o f q r p v =
    elim (Bool-cases (clear_timeouts (valid_tcp_transition op f.state))) [
      | inl e ↦ simp (v, if◌then◌else◌, dispatch_phase fl site op o _ f p, e, q, r)
      | inr e ↦ simp (v, if◌then◌else◌, dispatch_phase fl site op o _ f p, e, q, r)
    ]

-- A phase opcode that is valid in the state of a foreman that has workers, whose statistics run and
-- that makes no profile goes to all of its workers. When each has acknowledged it, the foreman is in
-- the state that the two tables lead to and has told its manager once; as long as fewer have, it has
-- told its manager nothing and stays in the state that the opcode led to.
pub phase_completes :
    (fl : Float32) (site : Site) (op : Opcode) (o : WorkOrder) (err : Failure) (n k : ℕ)
    (f : Foreman)
    → f.profiling ≡ false
    → f.stats_running ≡ true
    → is_phase_op op ≡ true
    → is_bad (valid_tcp_transition op f.state) ≡ false
    → length f.workers ≡ suc n
    → suc n < u64_mod
    → k ≤ n
    → (event_loop fl site (message op o ∷ replicate (suc n) (worker_response op err)) f
        ≡ next (completed op (started op f)))
      × (event_loop fl site (message op o ∷ replicate k (worker_response op err)) f
          ≡ next (record (started op f) { response_pending = suc n - k }))
unfolding event_loop step
phase_completes fl site op o err n k f q r p v l b early =
    let (w, nf, nh) = phase_answered op f.state p v in
    (
      rw (start_phase fl site op o f q r p v)
          (acknowledge_all fl site op err n (started op f) nf nh w l b),
      rw (start_phase fl site op o f q r p v)
          (acknowledge_some fl site op err n k (started op f) nf nh w l b early),
    )

-- A command that is not valid in the state of a foreman at work is answered by OP_Fail with the
-- reason; the work order is terminated: every worker is told, the statistics end, the manager gets
-- OP_Terminate and its connection is closed, and the foreman is idle.
pub invalid_message_terminates :
    (fl : Float32) (site : Site) (op : Opcode) (o : WorkOrder) (f : Foreman) (c : ℕ)
    → f.stats_running ≡ true
    → f.tcp_connection ≡ some c
    → is_bad (valid_tcp_transition op f.state) ≡ true
    → handle_tcp_msg fl site op o f
      ≡ next (record f {
        stats_running = false;
        tcp_connection = none;
        response_pending = length f.workers;
        state = ForemanState.idle;
        sent =
            ((f.sent ++ (to_manager Opcode.fail (some (bad_tcp f.state op)) ∷ []))
              ++ to_workers Opcode.terminate f.workers)
            ++ (terminate_stats ∷ to_manager Opcode.terminate none ∷ closed c ∷ []);
      })
unfolding handle_tcp_msg fail terminated terminate_tcp send_opcode_to_manager send_opcode_to_workers
invalid_message_terminates fl site op o f c r e v =
    simp (v, terminate_lem, if◌then◌else◌, e, r, append_assoc)
