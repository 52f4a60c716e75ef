-- ===== src/Foreman/Rendezvous/Deadlock.antt =====
-- Where the foreman and its statistics go-routine wait for each other forever.
use sibench.Base.{ℕ, ◌≡◌, refl, none, some, List, [], ◌∷◌}
use sibench.Messages.{Opcode}
use sibench.Foreman.States.{ForemanState}
use sibench.Foreman.Stats.{tick, StatsLoop, Report}
use sibench.Foreman.Rendezvous.{
  Control, Chore, exchange, selecting, reporting, Rendezvous, chores_of, Move, message, respond,
  disconnect, profile_fails, give, confirm, report, report_end, collected, summary_in, tick_at,
  late_now, make_move, moves,
}

abbrev pub waiting_for_messages : StatsLoop → Rendezvous
waiting_for_messages s = record { chores = []; awaited = none; place = selecting; loop = s }

-- No move can be made any more.
abbrev pub IsStuck : Rendezvous → Type 0
IsStuck r = (m : Move) → make_move m r ≡ none

IsStuck-place :
    (c : Control) (cs : List Chore) (h : Report) (hs : List Report) (s : StatsLoop)
    → IsStuck
        (record { chores = exchange c ∷ cs; awaited = none; place = reporting (h ∷ hs); loop = s })
unfolding make_move
IsStuck-place c cs h hs s (message op state) = refl
IsStuck-place c cs h hs s (respond op state last) = refl
IsStuck-place c cs h hs s (disconnect state) = refl
IsStuck-place c cs h hs s (profile_fails state) = refl
IsStuck-place c cs h hs s (give now) = refl
IsStuck-place c cs h hs s confirm = refl
IsStuck-place c cs h hs s report = refl
IsStuck-place c cs h hs s report_end = refl
IsStuck-place c cs h hs s collected = refl
IsStuck-place c cs h hs s (summary_in now m) = refl
IsStuck-place c cs h hs s (tick_at now) = refl

-- If a worker is late when the ticker ticks, and before the foreman reads the report there comes a
-- message for which it must first meet the go-routine, neither can ever move again.
pub late_worker_deadlock :
    (op : Opcode) (state : ForemanState) (now : ℕ) (s : StatsLoop) (c : Control) (cs : List Chore)
    (h : Report) (hs : List Report)
    → late_now now s ≡ h ∷ hs
    → chores_of op state ≡ exchange c ∷ cs
    → (r : Rendezvous) × (moves (tick_at now ∷ message op state ∷ []) (waiting_for_messages s)
        ≡ some r)
      × IsStuck r
unfolding moves make_move
late_worker_deadlock op state now s c cs h hs l e = (
  record {
    chores = exchange c ∷ cs;
    awaited = none;
    place = reporting (h ∷ hs);
    loop = tick now s;
  },
  rw (l, e),
  IsStuck-place c cs h hs (tick now s),
)
