-- ===== src/Worker/Bandwidth.antt =====
-- `limitBandwidth` of a worker (src/sibench/worker.go). Durations are nanoseconds.
pub mod Delays
use sibench.Base.{ℕ, ◌+◌, ◌-◌, ◌*◌, ◌/◌, ◌^◌, ◌==◌, ltb, if◌then◌else◌}
use sibench.Base.{Bool, true, false, List, [], ◌∷◌, ◌++◌}
use sibench.Base.Bits.{u64}

-- The fields for the bandwidth-limiting delays.
pub record Pace : Type 0 where
  pub phase_first_op : Bool
  pub last_op_start : ℕ
  pub avg_elapsed : ℕ
  pub post_delay : ℕ

-- What the call finds: the time at its start and at its end, and the random numbers, as a function
-- for `rand.Intn`.
pub record Tempo : Type 0 where
  pub entered : ℕ
  pub left : ℕ
  pub intn : ℕ → ℕ

-- A uint64 as a `time.Duration`. Past 2 ^ 63 it is negative, and no delay is longer than that.
abbrev to_duration : ℕ → ℕ
to_duration n = if ltb n (2 ^ 63) then n else 0

unfoldable pub desired : ℕ → ℕ → ℕ
desired size bandwidth = to_duration (u64 (1_000_000_000 * size) / bandwidth)

unfoldable pub rolling : ℕ → ℕ → ℕ
rolling avg elapsed = if avg == 0 then elapsed else (avg * 7 + elapsed) / 8

-- The new fields, and the calls of `time.Sleep` in order.
unfoldable pub limit_bandwidth : ℕ → ℕ → Tempo → Pace → Pace × List ℕ
limit_bandwidth size bandwidth t p =
    if bandwidth == 0
    then (p, [])
    else if p.phase_first_op
    then (
      record { phase_first_op = false; last_op_start = t.left; avg_elapsed = 0; post_delay = 0 },
      t.intn 10_000_000 ∷ [],
    )
    else (let avg = rolling p.avg_elapsed (t.entered - p.last_op_start) in
        let goal = desired size bandwidth in
        if ltb avg goal
        then (let pre = t.intn (goal - avg) in
            (
              record p { last_op_start = t.left; avg_elapsed = avg; post_delay = goal - avg - pre },
              p.post_delay ∷ pre ∷ [],
            ))
        else (record p { last_op_start = t.left; avg_elapsed = avg }, p.post_delay ∷ []))
