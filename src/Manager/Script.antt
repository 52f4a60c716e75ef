-- ===== src/Manager/Script.antt =====
-- The manager sends its servers the opcodes of a script, one by one: where each function of a run
-- takes them.
use sibench.Base.{
  ℕ, suc, ◌==◌, if◌then◌else◌, Bool, true, false, some, List, ◌++◌, map, ◌≡◌, refl, sym, ap, ◌∙◌,
  arith, inl, inr, Bool-cases, append-nil, take, drop, get_elem?, take-suc, take-append-drop,
}
use mathlib.Core.Path.{subst}
use sibench.Messages.{Opcode, same_opcode}
use sibench.Report.{RunError}
use sibench.Manager.{
  Manager, Event, received, transport, signal, tick, timer, Result, returned, stopped, known,
  send_all, to_server, down,
}
use sibench.Manager.Loops.{
  Turn, again, finish, select_loop, wait_turn, wait_for_responses, send_op, count_down,
}
use sibench.Manager.Sends.{
  IsQuiet, IsQuiet-refl, IsQuiet-trans, TurnIsQuiet, fails_quietly, turn_if, unless_failed-IsQuiet,
  Ends, select_loop-Ends,
}
use sibench.Manager.Received.{ops_to, ops_to-append, ops_to-known, ops_to-unknown, IsDistinct}

abbrev pub IsPrefix : List Opcode → List Opcode → Type 0
IsPrefix xs ys = (zs : List Opcode) × (ys ≡ xs ++ zs)

abbrev pub Behind : List Opcode → Manager → Type 0
Behind script m = (c : ℕ) → IsPrefix (ops_to c m.sent) script

-- The manager is at the position `k` of the script: every server that it still has got the opcodes
-- up to there, unless the run has stopped, and every other one got fewer.
pub record IsAt (script : List Opcode) (k : ℕ) (m : Manager) : Type 0 where
  pub distinct : IsDistinct m.conns
  pub prompt :
      stopped m ≡ false → (c : ℕ) → known c m.conns ≡ true → ops_to c m.sent ≡ take k script
  pub behind : Behind script m

pub quiet-IsAt :
    (script : List Opcode) (k : ℕ) (m m' : Manager)
    → IsAt script k m
    → IsQuiet m m'
    → IsAt script k m'
quiet-IsAt script k m m' h q = record {
  distinct = q.distinct h.distinct;
  prompt = λ on c here. q.sends c ∙ h.prompt (ground arith) c (q.fewer c here);
  behind = λ c. rw (q.sends c) (h.behind c);
}

pub stopped-IsAt :
    (script : List Opcode) (j k : ℕ) (m : Manager)
    → IsAt script j m
    → stopped m ≡ true
    → IsAt script k m
stopped-IsAt script j k m h over = record {
  distinct = h.distinct;
  prompt = λ on. absurd (cc);
  behind = h.behind;
}

take-IsPrefix : (k : ℕ) (xs : List Opcode) → IsPrefix (take k xs) xs
take-IsPrefix k xs = (drop k xs, sym (take-append-drop k xs))

-- The manager sends `op` to each of its servers.
module _ (script : List Opcode) (k : ℕ) (op : Opcode) (m m' : Manager)
    (e : get_elem? script k ≡ some op) (h : IsAt script k m) (on : stopped m ≡ false)
    (same : m'.conns ≡ m.conns)
    (grows : (c : ℕ)
      → ops_to c m'.sent ≡ ops_to c m.sent ++ ops_to c (map (λ d. to_server d op) m.conns)) where
  told : (c : ℕ) → known c m.conns ≡ true → ops_to c m'.sent ≡ take (suc k) script
  told c here =
      grows c
      ∙ rw (h.prompt on c here, ops_to-known c op m.conns h.distinct here)
          (sym (take-suc script k op e))

  untold : (c : ℕ) → known c m.conns ≡ false → ops_to c m'.sent ≡ ops_to c m.sent
  untold c gone = grows c ∙ rw (ops_to-unknown c op m.conns gone) (append-nil (ops_to c m.sent))

  pub sent-IsAt : IsAt script (suc k) m'
  sent-IsAt = record {
    distinct = subst IsDistinct (sym same) h.distinct;
    prompt = λ _ c here. told c (ap (known c) (sym same) ∙ here);
    behind = λ c. elim (Bool-cases (known c m.conns)) [
      | inl here ↦ rw (told c here) (take-IsPrefix (suc k) script)
      | inr gone ↦ rw (untold c gone) (h.behind c)
    ];
  }

pub send_all-IsAt :
    (script : List Opcode) (k : ℕ) (op : Opcode) (m : Manager)
    → get_elem? script k ≡ some op
    → IsAt script k m
    → stopped m ≡ false
    → IsAt script (suc k) (send_all op m)
unfolding send_all
send_all-IsAt script k op m e h on =
    sent-IsAt script k op m _ e h on refl
      (λ c. ops_to-append c m.sent (map (λ d. to_server d op) m.conns))

abbrev pub Takes : List Opcode → ℕ → Result → Type 0
Takes script k = Ends (IsAt script k) (Behind script)

-- A loop with quiet turns, from the position `j` on, and what follows it.
pub loop-Takes {ℓ} :
    {S : Type ℓ} (script : List Opcode) (j k : ℕ) (turn : Event → S → Manager → Turn S)
    (after : Manager → List Event → Result)
    → ((e : Event) (s : S) (m : Manager) → TurnIsQuiet m (turn e s m))
    → ((m : Manager) (es : List Event) → IsAt script j m → Takes script k (after m es))
    → (es : List Event) (s : S) (m : Manager) → IsAt script j m
    → Takes script k (select_loop turn after es s m)
loop-Takes script j k turn after quiet go es s m h =
    select_loop-Ends turn after (IsAt script k) (Behind script) m quiet
      (λ m' q over. stopped-IsAt script j k m' (quiet-IsAt script j m m' h q) over)
      (λ m' q. (quiet-IsAt script j m m' h q).behind)
      (λ m' es q. go m' es (quiet-IsAt script j m m' h q)) es s m (IsQuiet-refl m)

pub count_down-IsQuiet :
    (pending : ℕ) (l m : Manager) → IsQuiet l m → TurnIsQuiet l (count_down pending m)
count_down-IsQuiet pending l m q =
    turn_if l (down pending == 0) (finish m) (again (down pending) m) q q

pub later_fails :
    (l m : Manager) (e : RunError) → IsQuiet l m → IsQuiet l (record m { err = some e })
later_fails l m e q = IsQuiet-trans l m _ q (fails_quietly m e)

pub interrupted-IsQuiet :
    (m : Manager)
    → IsQuiet m (record m { interrupted = true })
      × (stopped (record m { interrupted = true }) ≡ true)
interrupted-IsQuiet m = (
  record { sends = λ c. refl; fewer = λ c h. h; distinct = λ h. h; stops = λ h. ground arith },
  ground arith,
)

pub wait_turn-IsQuiet :
    (expected : Opcode) (e : Event) (pending : ℕ) (m : Manager)
    → TurnIsQuiet m (wait_turn expected e pending m)
unfolding wait_turn
wait_turn-IsQuiet expected (received c op body) pending m =
    unless_failed-IsQuiet c op body m _ (λ m' q.
      turn_if m (same_opcode op expected) _ _ (count_down-IsQuiet pending m m' q)
        (turn_if m (same_opcode op Opcode.stat_summary) _ _ q (later_fails m m' _ q, refl)))
wait_turn-IsQuiet expected (transport c eof) pending m = IsQuiet-refl m
wait_turn-IsQuiet expected signal pending m = interrupted-IsQuiet m
wait_turn-IsQuiet expected tick pending m = IsQuiet-refl m
wait_turn-IsQuiet expected timer pending m = IsQuiet-refl m

pub wait_for_responses-Takes :
    (script : List Opcode) (k : ℕ) (expected : Opcode) (m : Manager) (es : List Event)
    → IsAt script k m
    → Takes script k (wait_for_responses expected m es)
unfolding wait_for_responses
wait_for_responses-Takes script k expected m es h = elim (Bool-cases (stopped m)) [
  | inl over ↦ rw (over, if◌then◌else◌) h
  | inr on ↦
      rw (on, if◌then◌else◌)
        (loop-Takes script k k (wait_turn expected) returned (wait_turn-IsQuiet expected)
          (λ m es h. h) es _ m h)
]

pub send_op-Takes :
    (script : List Opcode) (k : ℕ) (op : Opcode) (wait : Bool) (m : Manager) (es : List Event)
    → get_elem? script k ≡ some op
    → same_opcode op Opcode.terminate ≡ false
    → IsAt script k m
    → Takes script (suc k) (send_op op wait m es)
unfolding send_op
send_op-Takes script k op wait m es e t h = elim (Bool-cases (stopped m)) [
  | inl over ↦ rw (t, over, if◌then◌else◌) (stopped-IsAt script k (suc k) m h over)
  | inr on ↦
      (let sent = send_all-IsAt script k op m e h on in
        rw (t, on, if◌then◌else◌)
          (elim wait
            as (λ b. Takes script (suc k) (
              if b
              then wait_for_responses op (send_all op m) es
              else returned (send_all op m) es)) [
                | true ↦ wait_for_responses-Takes script (suc k) op (send_all op m) es sent
                | false ↦ sent
              ]))
]
