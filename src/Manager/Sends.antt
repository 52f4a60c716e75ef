-- ===== src/Manager/Sends.antt =====
-- The opcodes that each server gets, and what the loops of the manager leave of them as it was.
use sibench.Base.{
  ℕ, if◌then◌else◌, Bool, true, false, Option, none, some, List, [], ◌∷◌, ◌≡◌, refl, ◌∙◌, inl, inr,
  Bool-cases, Option-cases,
}
use sibench.Messages.{Opcode, same_opcode}
use sibench.Report.{RunError}
use sibench.Manager.{
  Manager, Body, Event, Result, returned, waiting, exited, panicked, has_error, stopped, lookup,
  known, drop_server, is_failure, check_error, ◌>>=◌,
}
use sibench.Manager.Loops.{
  Turn, again, leave, finish, quit, fault, follow, select_loop, unless_failed,
}
use sibench.Manager.Received.{ops_to, IsDistinct, without-known, without-IsDistinct}

-- `m'` is `m` after messages: nothing more is sent to a server, no connection is new, and who had
-- stopped has stopped.
pub record IsQuiet (m m' : Manager) : Type 0 where
  pub sends : (c : ℕ) → ops_to c m'.sent ≡ ops_to c m.sent
  pub fewer : (c : ℕ) → known c m'.conns ≡ true → known c m.conns ≡ true
  pub distinct : IsDistinct m.conns → IsDistinct m'.conns
  pub stops : stopped m ≡ true → stopped m' ≡ true

pub IsQuiet-refl : (m : Manager) → IsQuiet m m
IsQuiet-refl m = record { sends = λ c. refl; fewer = λ c h. h; distinct = λ h. h; stops = λ h. h }

pub IsQuiet-trans : (l m n : Manager) → IsQuiet l m → IsQuiet m n → IsQuiet l n
IsQuiet-trans l m n p q = record {
  sends = λ c. q.sends c ∙ p.sends c;
  fewer = λ c h. p.fewer c (q.fewer c h);
  distinct = λ h. q.distinct (p.distinct h);
  stops = λ h. q.stops (p.stops h);
}

drop_server-IsQuiet : (c : ℕ) (m : Manager) → IsQuiet m (drop_server c m)
unfolding drop_server
drop_server-IsQuiet c m = elim (Bool-cases (known c m.conns)) [
  | inl here ↦
      rw (here, if◌then◌else◌)
        (record {
          sends = λ e. refl;
          fewer = λ e. without-known c e m.conns;
          distinct = without-IsDistinct c m.conns;
          stops = λ h. h;
        })
  | inr gone ↦ rw (gone, if◌then◌else◌) (IsQuiet-refl m)
]

-- What a turn comes to is quiet, and a return has stopped.
abbrev pub TurnIsQuiet {ℓ} : {S : Type ℓ} → Manager → Turn S → Type 0
TurnIsQuiet m (again s m') = IsQuiet m m'
TurnIsQuiet m (leave m') = IsQuiet m m' × (stopped m' ≡ true)
TurnIsQuiet m (finish m') = IsQuiet m m'
TurnIsQuiet m (quit m') = IsQuiet m m'
TurnIsQuiet m fault = Unit

pub fails_quietly : (m : Manager) (e : RunError) → IsQuiet m (record m { err = some e })
fails_quietly m e = record {
  sends = λ c. refl;
  fewer = λ c h. h;
  distinct = λ h. h;
  stops = λ h. refl;
}

abbrev OptionIsQuiet : Manager → Option Manager → Type 0
OptionIsQuiet m none = Unit
OptionIsQuiet m (some m') = IsQuiet m m'

kept_or_failed :
    (l m : Manager) (e : RunError)
    → IsQuiet l m
    → IsQuiet l (if stopped m then m else record m { err = some e })
kept_or_failed l m e q = elim (Bool-cases (stopped m)) [
  | inl over ↦ rw (over, if◌then◌else◌) q
  | inr on ↦ rw (on, if◌then◌else◌) (IsQuiet-trans l m _ q (fails_quietly m e))
]

dropped_if : (hung : Bool) (c : ℕ) (m : Manager) → IsQuiet m (if hung then drop_server c m else m)
dropped_if true c m = drop_server-IsQuiet c m
dropped_if false c m = IsQuiet-refl m

check_error-IsQuiet :
    (c : ℕ) (op : Opcode) (body : Body) (m : Manager) → OptionIsQuiet m (check_error c op body m)
unfolding check_error
check_error-IsQuiet c op body m = elim (Bool-cases (is_failure op)) [
  | inr fine ↦ rw (fine, if◌then◌else◌) (IsQuiet-refl m)
  | inl failed ↦ elim (Option-cases (lookup c m.details)) [
    | inl n ↦ rw (failed, if◌then◌else◌) (rw n tt)
    | inr (d, e) ↦
        rw (failed, if◌then◌else◌)
          (rw e (kept_or_failed m _ _ (dropped_if (same_opcode op Opcode.hung) c m)))
  ]
]

pub turn_if {ℓ} :
    {S : Type ℓ} (m : Manager) (b : Bool) (t u : Turn S)
    → TurnIsQuiet m t
    → TurnIsQuiet m u
    → TurnIsQuiet m (if b then t else u)
turn_if m true t u p q = p
turn_if m false t u p q = q

pub unless_failed-IsQuiet {ℓ} :
    {S : Type ℓ} (c : ℕ) (op : Opcode) (body : Body) (m : Manager) (proceed : Manager → Turn S)
    → ((m' : Manager) → IsQuiet m m' → TurnIsQuiet m (proceed m'))
    → TurnIsQuiet m (unless_failed c op body m proceed)
unless_failed-IsQuiet c op body m proceed k = elim (Option-cases (check_error c op body m)) [
  | inl n ↦ rw (n, unless_failed) tt
  | inr (m', e) ↦
      (let q : IsQuiet m m' = rw e at (check_error-IsQuiet c op body m) in
        rw (e, unless_failed)
          (elim (Bool-cases (has_error m'.err)) [
            | inl over ↦ rw (over, if◌then◌else◌) (q, rw over)
            | inr on ↦ rw (on, if◌then◌else◌) (k m' q)
          ]))
]

-- What holds of the manager of a result: `Q` where it returns, `R` where it waits or exits.
abbrev pub Ends : (Manager → Type 0) → (Manager → Type 0) → Result → Type 0
Ends Q R (returned m es) = Q m
Ends Q R (waiting m) = R m
Ends Q R (exited m) = R m
Ends Q R panicked = Unit

pub Ends->>= :
    (P Q R : Manager → Type 0) (r : Result) (k : Manager → List Event → Result)
    → Ends P R r
    → ((m : Manager) (es : List Event) → P m → Ends Q R (k m es))
    → Ends Q R (r >>= k)
Ends->>= P Q R (returned m es) k p h = h m es p
Ends->>= P Q R (waiting m) k p h = p
Ends->>= P Q R (exited m) k p h = p
Ends->>= P Q R panicked k p h = tt

follow-Ends {ℓ} :
    {S : Type ℓ} (loop : S → Manager → Result) (after : Manager → List Event → Result)
    (Q R : Manager → Type 0) (start m : Manager) (es : List Event) (t : Turn S)
    → IsQuiet start m
    → TurnIsQuiet m t
    → ((m : Manager) → IsQuiet start m → stopped m ≡ true → Q m)
    → ((m : Manager) → IsQuiet start m → R m)
    → ((m : Manager) (es : List Event) → IsQuiet start m → Ends Q R (after m es))
    → ((s : S) (m : Manager) → IsQuiet start m → Ends Q R (loop s m))
    → Ends Q R (follow loop after es t)
follow-Ends loop after Q R start m es (again s m') q p left rest go more =
    more s m' (IsQuiet-trans start m m' q p)
follow-Ends loop after Q R start m es (leave m') q p left rest go more =
    left m' (IsQuiet-trans start m m' q p.0) p.1
follow-Ends loop after Q R start m es (finish m') q p left rest go more =
    go m' es (IsQuiet-trans start m m' q p)
follow-Ends loop after Q R start m es (quit m') q p left rest go more =
    rest m' (IsQuiet-trans start m m' q p)
follow-Ends loop after Q R start m es fault q p left rest go more = tt

-- A loop whose turns are quiet: a return has stopped, and what follows goes on from a quiet end.
pub select_loop-Ends {ℓ} :
    {S : Type ℓ} (turn : Event → S → Manager → Turn S) (after : Manager → List Event → Result)
    (Q R : Manager → Type 0) (start : Manager)
    → ((e : Event) (s : S) (m : Manager) → TurnIsQuiet m (turn e s m))
    → ((m : Manager) → IsQuiet start m → stopped m ≡ true → Q m)
    → ((m : Manager) → IsQuiet start m → R m)
    → ((m : Manager) (es : List Event) → IsQuiet start m → Ends Q R (after m es))
    → (es : List Event) (s : S) (m : Manager) → IsQuiet start m
    → Ends Q R (select_loop turn after es s m)
unfolding select_loop
select_loop-Ends turn after Q R start quiet left rest go [] s m q = rest m q
select_loop-Ends turn after Q R start quiet left rest go (e ∷ es) s m q =
    follow-Ends (select_loop turn after es) after Q R start m es (turn e s m) q (quiet e s m) left
      rest go (select_loop-Ends turn after Q R start quiet left rest go es)

pub weaken :
    (P Q R S : Manager → Type 0) (r : Result)
    → ((m : Manager) → P m → Q m)
    → ((m : Manager) → R m → S m)
    → Ends P R r
    → Ends Q S r
weaken P Q R S (returned m es) f g h = f m h
weaken P Q R S (waiting m) f g h = g m h
weaken P Q R S (exited m) f g h = g m h
weaken P Q R S panicked f g h = tt
