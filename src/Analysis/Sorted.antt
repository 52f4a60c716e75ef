-- ===== src/Analysis/Sorted.antt =====
-- `sortByDuration` sorts: it keeps the stats, and puts them in the order of their durations.
use sibench.Base.{
  ℕ, zero, suc, ◌≡◌, refl, ap, ◌∙◌, ◌≤◌, arith, leb, if◌then◌else◌, some, List, [], ◌∷◌, length,
  get_elem?, All, inl, inr, Bool-cases, All-get_elem?,
}
use sibench.Base.{leb→le}
use sibench.Analysis.{ServerStat, insert, sort_by_duration}

abbrev pub duration : ServerStat → ℕ
duration s = s.stat.duration_micros

abbrev pub IsSorted : List ServerStat → Type 0
IsSorted [] = Unit
IsSorted (s ∷ stats) = All (λ t. duration s ≤ duration t) stats × IsSorted stats

length-insert :
    (s : ServerStat) (stats : List ServerStat) → length (insert s stats) ≡ suc (length stats)
unfolding insert
length-insert s [] = refl
length-insert s (t ∷ stats) = ground (arith, length-insert s stats)

pub length-sort_by_duration :
    (stats : List ServerStat) → length (sort_by_duration stats) ≡ length stats
unfolding sort_by_duration
length-sort_by_duration [] = refl
length-sort_by_duration (s ∷ stats) =
    length-insert s (sort_by_duration stats) ∙ ap suc (length-sort_by_duration stats)

All-map :
    {P Q : ServerStat → Type 0} (f : (s : ServerStat) → P s → Q s) (stats : List ServerStat)
    → All P stats
    → All Q stats
All-map f [] a = tt
All-map f (s ∷ stats) (p, a) = (f s p, All-map f stats a)

All-insert :
    (P : ServerStat → Type 0) (s : ServerStat) (stats : List ServerStat)
    → P s
    → All P stats
    → All P (insert s stats)
unfolding insert
All-insert P s [] p a = (p, tt)
All-insert P s (t ∷ stats) p (q, a) = elim (Bool-cases (leb (duration s) (duration t))) [
  | inl e ↦ rw (e, if◌then◌else◌) (p, (q, a))
  | inr e ↦ rw (e, if◌then◌else◌) (q, All-insert P s stats p a)
]

insert-All :
    (P : ServerStat → Type 0) (s : ServerStat) (stats : List ServerStat)
    → All P (insert s stats)
    → P s × All P stats
unfolding insert
insert-All P s [] a = a
insert-All P s (t ∷ stats) a = elim (Bool-cases (leb (duration s) (duration t))) [
  | inl e ↦ (rw (e, if◌then◌else◌) at a)
  | inr e ↦
      (let b : P t × All P (insert s stats) = rw (e, if◌then◌else◌) at a in
        let c = insert-All P s stats b.1 in (c.0, (b.0, c.1)))
]

-- What holds of every sorted stat holds of every stat.
pub sort_by_duration-All :
    (P : ServerStat → Type 0) (stats : List ServerStat)
    → All P (sort_by_duration stats)
    → All P stats
unfolding sort_by_duration
sort_by_duration-All P [] a = tt
sort_by_duration-All P (s ∷ stats) a =
    let b = insert-All P s (sort_by_duration stats) a in (b.0, sort_by_duration-All P stats b.1)

insert-IsSorted :
    (s : ServerStat) (stats : List ServerStat) → IsSorted stats → IsSorted (insert s stats)
unfolding insert
insert-IsSorted s [] h = (tt, tt)
insert-IsSorted s (t ∷ stats) (a, h) = elim (Bool-cases (leb (duration s) (duration t))) [
  | inl e ↦
      (let first = leb→le (duration s) (duration t) e in
        let rest = All-map (λ u l. omega (arith, first, l)) stats a in
        rw (e, if◌then◌else◌) ((first, rest), (a, h)))
  | inr e ↦
      rw (e, if◌then◌else◌)
        (
          All-insert (λ u. duration t ≤ duration u) s stats (ground arith) a,
          insert-IsSorted s stats h,
        )
]

pub sort_by_duration-IsSorted : (stats : List ServerStat) → IsSorted (sort_by_duration stats)
unfolding sort_by_duration
sort_by_duration-IsSorted [] = tt
sort_by_duration-IsSorted (s ∷ stats) =
    insert-IsSorted s (sort_by_duration stats) (sort_by_duration-IsSorted stats)

-- Of two positions the first has the shorter duration.
pub IsSorted-get_elem? :
    (stats : List ServerStat) (i j : ℕ) (s t : ServerStat)
    → IsSorted stats
    → i ≤ j
    → get_elem? stats i ≡ some s
    → get_elem? stats j ≡ some t
    → duration s ≤ duration t
IsSorted-get_elem? [] i j s t h l e f = cc
IsSorted-get_elem? (u ∷ stats) zero zero s t h l e f = ground (arith, e, f)
IsSorted-get_elem? (u ∷ stats) zero (suc j) s t (a, h) l e f =
    let b = All-get_elem? (λ v. duration u ≤ duration v) stats j t a f in ground (arith, e, b)
IsSorted-get_elem? (u ∷ stats) (suc i) zero s t h l e f = absurd (omega arith)
IsSorted-get_elem? (u ∷ stats) (suc i) (suc j) s t (a, h) l e f =
    IsSorted-get_elem? stats i j s t h (omega arith) e f

-- What holds at every position holds of every stat.
pub get_elem?-All :
    (P : ServerStat → Type 0) (stats : List ServerStat)
    → ((i : ℕ) (s : ServerStat) → get_elem? stats i ≡ some s → P s)
    → All P stats
get_elem?-All P [] h = tt
get_elem?-All P (s ∷ stats) h = (h 0 s refl, get_elem?-All P stats (λ i t e. h (suc i) t e))
