-- ===== src/Manager/Partition.antt =====
-- How `sendJobToServers` divides the range of a job (src/sibench/manager.go).
use sibench.Base.{
  ℕ, ◌+◌, ◌-◌, ◌==◌, ◌<◌, ◌≤◌, ◌≡◌, refl, arith, ltb, leb, if◌then◌else◌, ◌&&◌, false, some, List,
  [], ◌∷◌, ◌++◌, All,
}
use mathlib.Core.Path.{subst}
use sibench.Base.Bits.{u64, u64_mod}
use sibench.Base.Floats.{Float32}
use sibench.Messages.{Opcode, WorkOrder}
use sibench.Ranges.{Chained, owners, owners_lem}
use sibench.Manager.{Manager, ServerDetails, lookup, Sent, to_connect, stopped, Event}
use sibench.Manager.Loops.{wait_for_responses}
use sibench.Manager.Run.{order_shares, send_job}
use sibench.Manager.Shares.{orders_in, first, last, cores_of, walk, given, order_shares-If, If}

-- The connection has details.
abbrev pub IsKnown : List (ℕ × ServerDetails) → ℕ → Type 0
IsKnown details c = (d : ServerDetails) × (lookup c details ≡ some d)

module _ (fl : Float32) where
  open fl use {Carrier, of_u64, to_u64, add, mul, div}

  -- No step of the walk over the servers lowers the bound, as uint64.
  abbrev pub Rises : List (ℕ × ServerDetails) → Carrier → Carrier → List ℕ → Type 0
  Rises details stride start [] = Unit
  Rises details stride start (c ∷ conns) =
      let end = add start (mul stride (of_u64 (cores_of details c))) in
      (to_u64 start ≤ to_u64 end) × Rises details stride end conns

  order_shares-some :
      (order : WorkOrder) (n : ℕ) (details : List (ℕ × ServerDetails)) (stride start : Carrier)
      (conns : List ℕ)
      → 0 < n
      → All (IsKnown details) conns
      → (sent : List Sent) × (order_shares fl order n stride details start conns ≡ some sent)
  unfolding order_shares
  order_shares-some order n details stride start [] p k = ([], refl)
  order_shares-some order n details stride start (c ∷ conns) p ((d, found), ks) =
      let end = add start (mul stride (of_u64 d.discovery.cores)) in
      let positive : (n == 0) ≡ false = ground (arith, p) in
      let (rest, done) = order_shares-some order n details stride end conns p ks in
      (
        to_connect c (given fl order n details stride start d.discovery.cores) ∷ rest,
        rw (found, positive, done, order_shares, if◌then◌else◌) refl,
      )

  order_shares-Chained :
      (order : WorkOrder) (n : ℕ) (details : List (ℕ × ServerDetails)) (stride start : Carrier)
      (conns : List ℕ) (sent : List Sent)
      → order_shares fl order n stride details start conns ≡ some sent
      → Rises details stride start conns
      → Chained first last
          (to_u64 start)
          (orders_in sent)
          (to_u64 (walk fl order n details stride start conns))
  order_shares-Chained order n details stride start conns sent e rises =
      let P : Carrier → List ℕ → List Sent → Type 0 = λ start conns sent.
        Rises details stride start conns
        → Chained first last (to_u64 start) (orders_in sent)
            (to_u64 (walk fl order n details stride start conns)) in
      let chain =
        order_shares-If fl order n details stride P (λ start r. refl)
          (λ start c conns sent h r. (refl, r.0, h r.1)) start conns in
      subst (If fl order n details stride P start conns) e chain rises

  -- The stride that `sendJobToServers` is to take: the length of the range over the cores.
  abbrev pub per_core : WorkOrder → ℕ → Carrier
  per_core order cores =
      div (of_u64 (u64 (order.range_end + u64_mod - order.range_start))) (of_u64 cores)

  -- A manager that has not stopped, knows every server it is connected to and counts some cores
  -- sends each server one part of the job's range: where the float32 of RangeStart is exact, no
  -- step of the walk from it, by the length of the range over the cores for each core, lowers the
  -- bound, and the walk ends at RangeEnd, each object of the job belongs to exactly one server, and
  -- no other object to any. It then waits for the answers to OP_Connect.
  pub send_job_partition :
      (m : Manager) (es : List Event)
      → stopped m ≡ false
      → 0 < m.core_count
      → All (IsKnown m.details) m.conns
      → to_u64 (of_u64 m.job.order.range_start) ≡ m.job.order.range_start
      → Rises m.details (per_core m.job.order m.core_count) (of_u64 m.job.order.range_start) m.conns
      → to_u64 (
          walk fl m.job.order m.core_count m.details
            (per_core m.job.order m.core_count)
            (of_u64 m.job.order.range_start)
            m.conns)
        ≡ m.job.order.range_end
      → (sent : List Sent) × (send_job fl m es
          ≡ wait_for_responses Opcode.connect (record m { sent = m.sent ++ sent }) es)
        × ((x : ℕ)
            → owners first last x (orders_in sent)
              ≡ (if leb m.job.order.range_start x && ltb x m.job.order.range_end then 1 else 0))
  unfolding send_job
  send_job_partition m es go p known exact rises reached =
      let order = m.job.order in
      let stride = per_core order m.core_count in
      let (sent, made) =
        order_shares-some order m.core_count m.details stride (of_u64 order.range_start) m.conns p
          known in
      let chain =
        order_shares-Chained order m.core_count m.details stride (of_u64 order.range_start) m.conns
          sent made rises in
      (
        sent,
        rw (go, if◌then◌else◌) (rw made refl),
        λ x.
            owners_lem first last x order.range_start order.range_end (orders_in sent)
              (rw (exact, reached) at chain),
      )
