-- ===== src/Analysis/Figures.antt =====
-- The figures of an `Analysis`.
use sibench.Base.{
  ℕ, zero, suc, ◌+◌, ◌-◌, ◌≡◌, refl, ◌<◌, ◌≤◌, arith, ltb, if◌then◌else◌, Bool, some, List, [], ◌∷◌,
  length, get_elem?, get_elem?-some, All, inl, inr, Bool-cases, ltb→lt, ==_ne,
}
use Prim.Native.String.{String}
use sibench.Messages.{StatPhase, StatError}
use sibench.Job.{Job}
use sibench.Analysis.{
  ServerStat, Analysis, error_filter, filter, sort_by_duration, figures, unmeasured, measured,
  new_analysis,
}
use sibench.Analysis.Floats.{index_95, index_95-lt}
use sibench.Analysis.Sorted.{
  duration, IsSorted, sort_by_duration-IsSorted, length-sort_by_duration, sort_by_duration-All,
  IsSorted-get_elem?, get_elem?-All,
}

abbrev pub successful : List ServerStat → List ServerStat
successful stats = filter stats (error_filter StatError.ok ∷ [])

-- The bounds that the response times of an analysis are.
abbrev pub Bounds : Analysis → List ServerStat → Type 0
Bounds a stats =
    All (λ s. (a.res_time_min ≤ duration s) × (duration s ≤ a.res_time_max)) stats
    × (a.res_time_min ≤ a.res_time_95)
    × (a.res_time_95 ≤ a.res_time_max)

length-filter :
    (stats : List ServerStat) (fns : List (ServerStat → Bool))
    → length (filter stats fns) ≤ length stats
unfolding filter
length-filter [] fns = omega arith
length-filter (s ∷ stats) fns = ground (arith, length-filter stats fns)

get_elem?-lt :
    (stats : List ServerStat) (i : ℕ) (s : ServerStat)
    → get_elem? stats i ≡ some s
    → i < length stats
get_elem?-lt [] i s e = cc
get_elem?-lt (t ∷ stats) zero s e = omega arith
get_elem?-lt (t ∷ stats) (suc i) s e = omega (arith, get_elem?-lt stats i s e)

measured_found :
    (job : Job) (good : List ServerStat) (base : Analysis) (fastest slowest late : ServerStat)
    → 0 < job.run_time
    → get_elem? good 0 ≡ some fastest
    → get_elem? good (length good - 1) ≡ some slowest
    → get_elem? good (index_95 (length good)) ≡ some late
    → measured job good base ≡ some (figures job good fastest slowest late base)
unfolding measured
measured_found job good base fastest slowest late r e f g =
    let running = ==_ne job.run_time 0 (λ z. absurd (omega arith)) in
    simp (e, f, g, running, measured, if◌then◌else◌) refl

measured_lem :
    (job : Job) (good : List ServerStat) (base : Analysis)
    → IsSorted good
    → 0 < length good
    → 0 < job.run_time
    → (a : Analysis) × (measured job good base ≡ some a)
      × (a.successes ≡ base.successes)
      × (a.failures ≡ base.failures)
      × Bounds a good
unfolding figures
measured_lem job good base h l r =
    let n = length good in
    let (fastest, e) = get_elem?-some good 0 l in
    let (slowest, f) = get_elem?-some good (n - 1) (omega arith) in
    let inside = index_95-lt n l in
    let (late, g) = get_elem?-some good (index_95 n) inside in
    let between : (i : ℕ) (s : ServerStat)
        → get_elem? good i ≡ some s
        → (duration fastest ≤ duration s) × (duration s ≤ duration slowest) =
      λ i s k. (
        IsSorted-get_elem? good 0 i fastest s h (omega arith) e k,
        IsSorted-get_elem? good i (n - 1) s slowest h (omega (arith, get_elem?-lt good i s k)) k f,
      ) in
    (
      figures job good fastest slowest late base,
      measured_found job good base fastest slowest late r e f g,
      refl,
      refl,
      (
        get_elem?-All _ good between,
        (between (index_95 n) late g).0,
        (between (index_95 n) late g).1,
      ),
    )

-- An analysis counts every stat once, as a success or a failure, and never panics where the run
-- took some time. No successful stat was faster than the minimum or slower than the maximum that it
-- gives, and the time at 95 percent is between them.
pub new_analysis-Bounds :
    (stats : List ServerStat) (name : String) (phase : StatPhase) (is_total : Bool) (job : Job)
    → 0 < job.run_time
    → (a : Analysis) × (new_analysis stats name phase is_total job ≡ some a)
      × (a.successes + a.failures ≡ length stats)
      × (a.successes ≡ length (successful stats))
      × Bounds a (successful stats)
unfolding new_analysis unmeasured
new_analysis-Bounds stats name phase is_total job r =
    let good = successful stats in
    let sorted = sort_by_duration good in
    let fewer = length-filter stats (error_filter StatError.ok ∷ []) in
    let base = unmeasured stats good name phase is_total in
    elim (Bool-cases (ltb 0 (length good))) [
      | inl some_good ↦
          (let same = length-sort_by_duration good in
            let positive = ltb→lt 0 (length good) some_good in
            let m =
              measured_lem job sorted base (sort_by_duration-IsSorted good)
                (omega (arith, same, positive)) r in
            let bounds = m.4 in
            (
              m.0,
              rw (some_good, if◌then◌else◌) (m.1),
              omega (arith, m.2, m.3, fewer),
              m.2,
              (sort_by_duration-All _ good bounds.0, bounds.1, bounds.2),
            ))
      | inr none_good ↦
          (let empty : length good ≡ 0 = ground (arith, none_good) in
            (
              base,
              rw (none_good, if◌then◌else◌) refl,
              omega (arith, fewer),
              refl,
              (
                get_elem?-All _ good
                    (λ i s e. absurd (omega (arith, get_elem?-lt good i s e, empty))),
                omega arith,
                omega arith,
              ),
            ))
    ]
