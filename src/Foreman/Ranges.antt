-- ===== src/Foreman/Ranges.antt =====
-- How a foreman divides its range of objects and its bandwidth between the workers.
use sibench.Base.{ℕ, zero, suc, ◌≡◌, arith}
use sibench.Base.{Bool, true, ◌&&◌, List, [], ◌∷◌}
use sibench.Base.Floats.{Float32}
use sibench.Messages.{WorkOrder}
use sibench.Foreman.Connect.{Site, shares, make_workers, range_len, preallocation}
use sibench.Base.{◌+◌}
use sibench.Base.{◌*◌, ◌/◌, ◌≤◌, ◌&&◌}
use sibench.Ranges.{share_le}
use sibench.Foreman.Machine.{WorkerShare}

abbrev pub total_bandwidth : List WorkerShare → ℕ
total_bandwidth [] = 0
total_bandwidth (w ∷ ws) = w.bandwidth + total_bandwidth ws

abbrev pub first : WorkerShare → ℕ
first w = w.range_start

abbrev pub last : WorkerShare → ℕ
last w = w.range_end

module _ (fl : Float32) where
  open fl use {Carrier, of_u64, to_u64, add, div}

  -- The variable `rangeStart` after `k` rounds.
  abbrev pub walk : Carrier → Carrier → ℕ → Carrier
  walk stride start zero = start
  walk stride start (suc k) = walk stride (add start stride) k

  module _ (makes : ℕ → Bool) (made : (j : ℕ) → makes j ≡ true) (bandwidth count : ℕ) where
    bandwidth-shares :
        (stride start : Carrier) (i k : ℕ)
        → total_bandwidth (shares fl makes bandwidth count stride start i k) ≡ k * bandwidth
    unfolding shares
    bandwidth-shares stride start i zero = omega arith
    bandwidth-shares stride start i (suc k) =
        rw (made i) (omega (arith, bandwidth-shares stride (add start stride) (i + 1) k))

  pub make_workers_total :
      (site : Site) (o : WorkOrder) (n : ℕ)
      → ((j : ℕ) → site.makes_worker j ≡ true)
      → total_bandwidth (make_workers fl site o n) ≡ n * (o.bandwidth / n)
  unfolding make_workers
  make_workers_total site o n made =
      bandwidth-shares site.makes_worker made (o.bandwidth / n) (preallocation site n)
        (div (of_u64 (range_len o)) (of_u64 n)) (of_u64 o.range_start) 0 n

  -- Together the workers get no more bandwidth than the order allows.
  pub make_workers_bandwidth :
      (site : Site) (o : WorkOrder) (n : ℕ)
      → ((j : ℕ) → site.makes_worker j ≡ true)
      → total_bandwidth (make_workers fl site o n) ≤ o.bandwidth
  make_workers_bandwidth site o n made =
      rw (make_workers_total site o n made) (share_le o.bandwidth n)
