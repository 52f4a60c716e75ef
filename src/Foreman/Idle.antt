-- ===== src/Foreman/Idle.antt =====
-- Where a foreman stops answering: an idle one has no statistics go-routine, and `terminate` waits
-- for it; a connect that makes no worker waits for the answers of none.
use sibench.Base.{ℕ, zero, suc, ◌≡◌, refl, arith, inl, inr, ◌⊎◌, ◌≢◌, if◌then◌else◌}
use sibench.Base.{Bool, true, false, some, []}
use sibench.Base.Floats.{Float32}
use sibench.Messages.{Opcode, WorkOrder}
use sibench.Foreman.States.{
  ForemanState, valid_tcp_transition, valid_worker_transition, clear_timeouts,
}
use sibench.Foreman.Machine.{
  Foreman, Outcome, ◌>>=◌, next, blocked, exited, panicked, Failure, fail, hung, set_state,
  set_state_with, terminate, send_opcode_to_workers, send_opcode_to_manager,
}
use sibench.Foreman.Connect.{
  Site, connect, worker_count, range_len, renewed, shares, make_workers, start_workers,
}
use sibench.Foreman.Handlers.{
  is_bad, handle_tcp_msg, handle_worker_response, acknowledge, dispatch_tcp,
}
use sibench.Base.{◌+◌, ◌<◌, ◌++◌, ◌==◌}
use sibench.Base.Bits.{u64, u64_mod}
use sibench.Foreman.Machine.{bad_tcp, bad_worker}
use sibench.Foreman.Invariant.{IsSound, terminate_lem}
use sibench.Base.{◌*◌}

abbrev pub WaitsForever : Outcome → Type 0
WaitsForever (blocked f) = Unit
WaitsForever _ = ⊥

idle_facts : (f : Foreman) → IsSound f → f.state ≡ ForemanState.idle → f.stats_running ≡ false
idle_facts f h e = ground arith

terminate_waits :
    (creates : Bool) (f : Foreman) → f.stats_running ≡ false → WaitsForever (terminate creates f)
terminate_waits creates f e = simp (terminate_lem, e, if◌then◌else◌) tt

fail_waits :
    (creates : Bool) (err : Failure) (f : Foreman)
    → f.stats_running ≡ false
    → WaitsForever (fail creates err f)
unfolding fail send_opcode_to_manager
fail_waits creates err f e = terminate_waits creates _ (ground arith)

idle_table :
    (op : Opcode)
    → op ≢ Opcode.discovery
    → op ≢ Opcode.connect
    → (op ≡ Opcode.terminate) ⊎ (is_bad (valid_tcp_transition op ForemanState.idle) ≡ true)
unfolding valid_tcp_transition
idle_table op d c = ground arith

idle_terminate_waits :
    (fl : Float32) (site : Site) (o : WorkOrder) (f : Foreman)
    → IsSound f
    → f.state ≡ ForemanState.idle
    → WaitsForever (handle_tcp_msg fl site Opcode.terminate o f)
unfolding handle_tcp_msg valid_tcp_transition dispatch_tcp
idle_terminate_waits fl site o f h e =
    simp (e, if◌then◌else◌) (terminate_waits site.creates_files f (idle_facts f h e))

idle_worker_table : (op : Opcode) → is_bad (valid_worker_transition op ForemanState.idle) ≡ true
unfolding valid_worker_transition
idle_worker_table op = ground arith

>>=-WaitsForever : (m : Outcome) (k : Foreman → Outcome) → WaitsForever m → WaitsForever (m >>= k)
>>=-WaitsForever (next f) k h = absurd h
>>=-WaitsForever (blocked f) k h = tt
>>=-WaitsForever (exited f) k h = absurd h
>>=-WaitsForever panicked k h = absurd h

-- An idle foreman that gets any command but OP_Discovery and OP_Connect, OP_Terminate included,
-- which its table allows, waits forever for the statistics go-routine that is not there.
pub idle_message_waits :
    (fl : Float32) (site : Site) (op : Opcode) (o : WorkOrder) (f : Foreman)
    → IsSound f
    → f.state ≡ ForemanState.idle
    → op ≢ Opcode.discovery
    → op ≢ Opcode.connect
    → WaitsForever (handle_tcp_msg fl site op o f)
unfolding handle_tcp_msg
idle_message_waits fl site op o f h e d c = elim (idle_table op d c) [
  | inl t ↦ rw t (idle_terminate_waits fl site o f h e)
  | inr bad ↦
      simp (e, bad, if◌then◌else◌)
        (fail_waits site.creates_files (bad_tcp ForemanState.idle op) f (idle_facts f h e))
]

-- An idle foreman that gets a response of a worker, whatever its opcode, waits forever.
pub idle_response_waits :
    (creates : Bool) (op : Opcode) (err : Failure) (f : Foreman)
    → IsSound f
    → f.state ≡ ForemanState.idle
    → WaitsForever (handle_worker_response creates op err f)
unfolding handle_worker_response acknowledge hung send_opcode_to_manager
idle_response_waits creates Opcode.fail err f h e = fail_waits creates err f (idle_facts f h e)
idle_response_waits creates Opcode.hung err f h e = >>=-WaitsForever _ exited (
    terminate_waits creates (send_opcode_to_manager Opcode.hung (some err) f)
      (let i = idle_facts f h e in ground arith))
idle_response_waits creates op err f h e =
    simp (e, idle_worker_table, if◌then◌else◌)
      (fail_waits creates (bad_worker ForemanState.idle op) f (idle_facts f h e))

connect_without_hostname_waits :
    (fl : Float32) (site : Site) (o : WorkOrder) (f : Foreman)
    → (u64 (4 * site.stat_bytes * worker_count site o) == 0) ≡ false
    → site.has_hostname ≡ false
    → WaitsForever (connect fl site o f)
unfolding connect renewed
connect_without_hostname_waits fl site o f n e =
    simp (n, e, if◌then◌else◌) (fail_waits site.creates_files _ (renewed o f) refl)

empty_worker_count :
    (site : Site) (o : WorkOrder)
    → o.range_start ≡ o.range_end
    → o.range_end < u64_mod
    → worker_count site o ≡ 0
unfolding worker_count range_len
empty_worker_count site o e b = ground arith

zero_product : (b : ℕ) → u64 (4 * b * 0) ≡ 0
zero_product b = omega arith

-- `connect` panics, by a division by zero, on a work order with an empty range.
pub connect_empty_panics :
    (fl : Float32) (site : Site) (o : WorkOrder) (f : Foreman)
    → o.range_start ≡ o.range_end
    → o.range_end < u64_mod
    → connect fl site o f ≡ panicked
unfolding connect
connect_empty_panics fl site o f e b =
    rw (empty_worker_count site o e b) (rw (zero_product site.stat_bytes))

no_shares :
    (fl : Float32) (makes : ℕ → Bool) (bandwidth count : ℕ) (stride start : fl.Carrier) (i k : ℕ)
    → ((j : ℕ) → makes j ≡ false)
    → shares fl makes bandwidth count stride start i k ≡ []
unfolding shares
no_shares fl makes bandwidth count stride start i zero h = refl
no_shares fl makes bandwidth count stride start i (suc k) h =
    rw (h i) (no_shares fl makes bandwidth count stride (fl.add start stride) (i + 1) k h)

-- Where `NewWorker` fails for every worker, the error is lost: the foreman is in FS_Connect, waits
-- for no response, and has sent nothing to anybody.
pub connect_unmade :
    (fl : Float32) (site : Site) (o : WorkOrder) (f : Foreman)
    → ((j : ℕ) → site.makes_worker j ≡ false)
    → site.has_hostname ≡ true
    → f.profiling ≡ false
    → (u64 (4 * site.stat_bytes * worker_count site o) == 0) ≡ false
    → connect fl site o f
      ≡ next (record f {
        order = some o;
        workers = [];
        stats_running = true;
        response_pending = 0;
        state = ForemanState.connect;
        sent = f.sent ++ [];
      })
unfolding connect start_workers renewed set_state set_state_with make_workers send_opcode_to_workers
    clear_timeouts
connect_unmade fl site o f m h q n =
    simp (n, h, q, if◌then◌else◌, no_shares fl site.makes_worker _ _ _ _ _ _ m)
