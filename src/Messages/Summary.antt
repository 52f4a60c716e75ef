-- ===== src/Messages/Summary.antt =====
-- `StatSummary` and its methods `Zero`, `Add` and `Total` (src/sibench/stats.go), and the `++` on
-- one counter that a worker does after each operation (src/sibench/worker.go).
use sibench.Base.{ℕ, ◌+◌, ◌≡◌, arith}
use sibench.Base.{Bool, true, false, if◌then◌else◌, ◌&&◌}
use sibench.Base.Bits.{u64}
use sibench.Messages.{StatPhase, StatError}

-- An array indexed by phase and error.
abbrev pub StatSummary : Type 0
StatSummary = StatPhase → StatError → ℕ

unfoldable pub zeroed : StatSummary
zeroed p e = 0

unfoldable pub add : StatSummary → StatSummary → StatSummary
add s other p e = u64 (s p e + other p e)

-- The loops of `Total` go over the errors of each phase, with a wrapping sum.
total_errors : StatSummary → StatPhase → ℕ → ℕ
total_errors s p total = u64 (
    u64 (u64 (total + s p StatError.ok) + s p StatError.verify_failure)
    + s p StatError.operation_failure)

unfoldable pub total : StatSummary → ℕ
unfolding total_errors
total s = total_errors s StatPhase.delete (
    total_errors s StatPhase.read
      (total_errors s StatPhase.prepare (total_errors s StatPhase.write 0)))

abbrev pub same_phase : StatPhase → StatPhase → Bool
same_phase StatPhase.write StatPhase.write = true
same_phase StatPhase.prepare StatPhase.prepare = true
same_phase StatPhase.read StatPhase.read = true
same_phase StatPhase.delete StatPhase.delete = true
same_phase _ _ = false

abbrev pub same_error : StatError → StatError → Bool
same_error StatError.ok StatError.ok = true
same_error StatError.verify_failure StatError.verify_failure = true
same_error StatError.operation_failure StatError.operation_failure = true
same_error _ _ = false

-- `summary.data[phase][err]++`
unfoldable pub bump : StatPhase → StatError → StatSummary → StatSummary
bump phase err s p e = if same_phase phase p && same_error err e then u64 (s p e + 1) else s p e

-- The totals of two summaries add up when the summaries are added, as uint64.
pub total-add : (s other : StatSummary) → total (add s other) ≡ u64 (total s + total other)
unfolding total add
total-add s other = omega arith

-- Counting one operation raises the total by one, as uint64, whatever the phase and the error.
pub total-bump :
    (p : StatPhase) (e : StatError) (s : StatSummary) → total (bump p e s) ≡ u64 (total s + 1)
unfolding total bump
total-bump StatPhase.write StatError.ok s = omega arith
total-bump StatPhase.write StatError.verify_failure s = omega arith
total-bump StatPhase.write StatError.operation_failure s = omega arith
total-bump StatPhase.prepare StatError.ok s = omega arith
total-bump StatPhase.prepare StatError.verify_failure s = omega arith
total-bump StatPhase.prepare StatError.operation_failure s = omega arith
total-bump StatPhase.read StatError.ok s = omega arith
total-bump StatPhase.read StatError.verify_failure s = omega arith
total-bump StatPhase.read StatError.operation_failure s = omega arith
total-bump StatPhase.delete StatError.ok s = omega arith
total-bump StatPhase.delete StatError.verify_failure s = omega arith
total-bump StatPhase.delete StatError.operation_failure s = omega arith
