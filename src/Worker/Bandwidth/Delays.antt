-- ===== src/Worker/Bandwidth/Delays.antt =====
-- The delays that limit the bandwidth.
use sibench.Base.{ℕ, ◌-◌, ◌≡◌, ◌<◌, ◌≤◌, arith, false, [], ◌∷◌}
use sibench.Worker.Bandwidth.{Pace, Tempo, limit_bandwidth, desired, rolling}

-- If the operations take as long as the limit asks for, or longer, the delay after an operation
-- that an earlier call computed is slept once more, and is kept for the next call.
pub limit_bandwidth_keeps_delay :
    (size bandwidth : ℕ) (t : Tempo) (p : Pace)
    → 0 < bandwidth
    → p.phase_first_op ≡ false
    → desired size bandwidth ≤ rolling p.avg_elapsed (t.entered - p.last_op_start)
    → ((limit_bandwidth size bandwidth t p).1 ≡ p.post_delay ∷ [])
      × ((limit_bandwidth size bandwidth t p).0.post_delay ≡ p.post_delay)
unfolding limit_bandwidth
limit_bandwidth_keeps_delay size bandwidth t p b f h = ground arith
