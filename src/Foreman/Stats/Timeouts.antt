-- ===== src/Foreman/Stats/Timeouts.antt =====
-- The summaries and the timeout of `processStats`.
use sibench.Base.{
  ℕ, zero, suc, ◌+◌, ◌-◌, ◌/◌, ◌%◌, ◌^◌, ◌<◌, ◌≤◌, ltb, sym, ◌∙◌, get_elem?, set, if◌then◌else◌, ap,
  ◌++◌, ==_ne, ◌==◌, ◌||◌,
}
use sibench.Base.{
  Bool, false, ◌&&◌, Option, none, some, List, [], ◌∷◌, ◌≡◌, refl, arith, Bool-cases, Option-cases,
  inl, inr,
}
use sibench.Base.Bits.{u64}
use sibench.Messages.Summary.{total, total-add}
use sibench.Foreman.Stats.{
  StatsLoop, WorkerSummary, Heartbeat, Report, hung_worker, summary_report, control_report, uploads,
  receive_summary, adjusted, late, tick, min_hang_timeout,
}

no_time : (now ops : ℕ) → (now - now) / ops ≡ 0
no_time now ops = grind arith

-- However long the operations took, a summary never lengthens a timeout that is not below the
-- minimum, and never takes it below the minimum.
pub receive_summary-hang_timeout :
    (now : ℕ) (m : WorkerSummary) (s : StatsLoop) {s' : StatsLoop}
    → min_hang_timeout ≤ s.hang_timeout
    → receive_summary now m s ≡ some s'
    → (s'.hang_timeout ≤ s.hang_timeout) × (min_hang_timeout ≤ s'.hang_timeout)
unfolding receive_summary adjusted
receive_summary-hang_timeout now m s h e = ground (arith, no_time now (total m.counts))

-- A sequence of summaries between two ticks.
abbrev pub receive_all : List (ℕ × WorkerSummary) → StatsLoop → Option StatsLoop
receive_all [] s = some s
receive_all ((now, m) ∷ ms) s = elim (receive_summary now m s) [
  | none ↦ none
  | some s' ↦ receive_all ms s'
]

abbrev pub counted : List (ℕ × WorkerSummary) → ℕ
counted [] = 0
counted ((now, m) ∷ ms) = total m.counts + counted ms

receive_summary-total :
    (now : ℕ) (m : WorkerSummary) (s : StatsLoop) {s' : StatsLoop}
    → receive_summary now m s ≡ some s'
    → total s'.summary ≡ u64 (total s.summary + total m.counts)
unfolding receive_summary
receive_summary-total now m s e = ground (arith, total-add s.summary m.counts)

receive_all_step :
    (now : ℕ) (m : WorkerSummary) (ms : List (ℕ × WorkerSummary)) (s : StatsLoop) {s' : StatsLoop}
    → receive_summary now m s ≡ some s'
    → receive_all ((now, m) ∷ ms) s ≡ receive_all ms s'
receive_all_step now m ms s k = rw (k, receive_all)

-- Every operation that the workers report between two ticks is in the summary that the next tick
-- sends, as uint64.
pub receive_all-total :
    (ms : List (ℕ × WorkerSummary)) (s : StatsLoop) {s' : StatsLoop}
    → receive_all ms s ≡ some s'
    → total s'.summary % 2 ^ 64 ≡ (total s.summary + counted ms) % 2 ^ 64
unfolding receive_summary
receive_all-total [] s e = ground arith
receive_all-total ((now, m) ∷ ms) s e = elim (Option-cases (receive_summary now m s)) [
  | inl n ↦ cc
  | inr (s', k) ↦ omega (
    arith,
    receive_summary-total now m s k,
    receive_all-total ms s' (sym (receive_all_step now m ms s k) ∙ e),
  )
]

abbrev pub reported : ℕ → List Report → Bool
reported i [] = false
reported i (hung_worker j ∷ rs) = (i == j) || reported i rs
reported i (_ ∷ rs) = reported i rs

abbrev pub silent : ℕ → ℕ → Option Heartbeat → Bool
silent now timeout none = false
silent now timeout (some w) = w.can_timeout && ltb timeout (now - w.last_summary)

late_below :
    (now timeout i j : ℕ) (ws : List Heartbeat) → j < i → reported j (late now timeout i ws) ≡ false
unfolding late
late_below now timeout i j [] h = refl
late_below now timeout i j (w ∷ ws) h =
    elim (Bool-cases (w.can_timeout && ltb timeout (now - w.last_summary))) [
      | inl t ↦
          rw t (rw (==_ne j i (omega arith)) (late_below now timeout (i + 1) j ws (omega arith)))
      | inr f ↦ rw f (late_below now timeout (i + 1) j ws (omega arith))
    ]

late_at :
    (now timeout i k : ℕ) (ws : List Heartbeat)
    → reported (i + k) (late now timeout i ws) ≡ silent now timeout (get_elem? ws k)
unfolding late
late_at now timeout i k [] = refl
late_at now timeout i zero (w ∷ ws) = ground (arith, late_below now timeout (i + 1) i ws)
late_at now timeout i (suc k) (w ∷ ws) = ground (arith, late_at now timeout (i + 1) k ws)

reported-append :
    (i : ℕ) (xs ys : List Report) → reported i (xs ++ ys) ≡ (reported i xs || reported i ys)
reported-append i [] ys = refl
reported-append i (hung_worker j ∷ xs) ys = ground (arith, reported-append i xs ys)
reported-append i (summary_report c ∷ xs) ys = reported-append i xs ys
reported-append i (control_report op ∷ xs) ys = reported-append i xs ys
reported-append i (uploads n ∷ xs) ys = reported-append i xs ys

get_elem?-set :
    (ws : List Heartbeat) (i j : ℕ) (v : Heartbeat) {w : Heartbeat}
    → get_elem? ws i ≡ some w
    → get_elem? (set ws i v) j ≡ (if i == j then some v else get_elem? ws j)
get_elem?-set [] i j v e = cc
get_elem?-set (x ∷ ws) zero zero v e = refl
get_elem?-set (x ∷ ws) zero (suc j) v e = ground arith
get_elem?-set (x ∷ ws) (suc i) zero v e = ground arith
get_elem?-set (x ∷ ws) (suc i) (suc j) v e = ground (arith, get_elem?-set ws i j v e)

-- The last summary of the worker `i`, where it sent one, and what was known of it before else.
abbrev pub last_heard : ℕ → List (ℕ × WorkerSummary) → Option Heartbeat → Option Heartbeat
last_heard i [] h = h
last_heard i ((now, m) ∷ ms) h = last_heard i ms (
    if m.worker_id == i
    then some (record { last_summary = now; can_timeout = m.can_timeout })
    else h)

-- What a summary changes for the worker `i`, and what it leaves.
receive_summary-heard :
    (now i : ℕ) (m : WorkerSummary) (s : StatsLoop) {s' : StatsLoop}
    → receive_summary now m s ≡ some s'
    → (get_elem? s'.heartbeats i ≡ last_heard i ((now, m) ∷ []) (get_elem? s.heartbeats i))
      × (s'.send_summaries ≡ s.send_summaries)
      × (s'.reports ≡ s.reports)
unfolding receive_summary
receive_summary-heard now i m s e = elim (Option-cases (get_elem? s.heartbeats m.worker_id)) [
  | inl none_there ↦ cc
  | inr (w, there) ↦ grind (
    arith,
    get_elem?-set s.heartbeats m.worker_id i
        (record { last_summary = now; can_timeout = m.can_timeout }) there,
    there,
    e,
  )
]

receive_all-heard :
    (i : ℕ) (ms : List (ℕ × WorkerSummary)) (s : StatsLoop) {s' : StatsLoop}
    → receive_all ms s ≡ some s'
    → (get_elem? s'.heartbeats i ≡ last_heard i ms (get_elem? s.heartbeats i))
      × (s'.send_summaries ≡ s.send_summaries)
      × (s'.reports ≡ s.reports)
receive_all-heard i [] s {s' = s'} e =
    let same : s' ≡ s = cc in
    (
      ap (λ (x : StatsLoop). get_elem? x.heartbeats i) same,
      ap (λ (x : StatsLoop). x.send_summaries) same,
      ap (λ (x : StatsLoop). x.reports) same,
    )
receive_all-heard i ((now, m) ∷ ms) s e = elim (Option-cases (receive_summary now m s)) [
  | inl n ↦ cc
  | inr (s1, k) ↦
      let (h, on, r) = receive_summary-heard now i m s k in
      let (h', on', r') = receive_all-heard i ms s1 (sym (receive_all_step now m ms s k) ∙ e) in
      (h' ∙ ap (last_heard i ms) h, on' ∙ on, r' ∙ r)
]

-- After any summaries of the workers, a tick leaves a worker reported as hung exactly if it was
-- reported before, or the summaries are switched on and the worker is silent: what it said last,
-- which is its last summary if it sent one, allows a timeout and is older than the timeout that the
-- summaries have led to.
pub tick-reported :
    (ms : List (ℕ × WorkerSummary)) (now i : ℕ) (s : StatsLoop) {s' : StatsLoop}
    → receive_all ms s ≡ some s'
    → reported i (tick now s').reports ≡ (
        reported i s.reports
        || (s.send_summaries
            && silent now s'.hang_timeout (last_heard i ms (get_elem? s.heartbeats i))))
unfolding tick
tick-reported ms now i s {s' = s'} e =
    let (h, on, r) = receive_all-heard i ms s e in
    let found = late_at now s'.hang_timeout 0 i s'.heartbeats in
    let told =
      reported-append i (s'.reports ++ (summary_report s'.summary ∷ []))
        (late now s'.hang_timeout 0 s'.heartbeats) in
    let before = reported-append i s'.reports (summary_report s'.summary ∷ []) in
    elim (Bool-cases s'.send_summaries) [
      | inl wanted ↦
          rw (wanted, if◌then◌else◌) (grind (arith, told, before, found, h, on, r, wanted))
      | inr unwanted ↦ rw (unwanted, if◌then◌else◌) (grind (arith, h, on, r, unwanted))
    ]
