-- ===== src/Manager/Waits.antt =====
-- When the manager stops waiting: for the responses to an opcode, and for the end of its servers.
use sibench.Base.{
  &&_both, ℕ, zero, suc, ◌+◌, ◌-◌, ◌==◌, ◌<◌, leb, if◌then◌else◌, Bool, true, false, ◌&&◌, ◌||◌,
  Option, none, some, List, [], ◌∷◌, ◌≡◌, refl, sym, ◌∙◌, arith, inl, inr, Bool-cases, length,
  ==_ne,
}
use mathlib.Core.Path.{subst}
use sibench.Base.Bits.{u64_mod}
use sibench.Messages.{Opcode, same_opcode, code}
use sibench.Report.{RunError}
use sibench.Manager.{
  Manager, Body, Event, received, transport, signal, tick, timer, Result, returned, waiting,
  stopped, has_error, send_all, down, is_failure, check_error,
}
use sibench.Manager.Loops.{
  Turn, again, leave, finish, fault, follow, select_loop, wait_turn, wait_for_responses,
  terminate_turn, terminate, send_op, count_down, unless_failed,
}

-- How many of the events are an OP_Terminate of a server.
abbrev pub terminations : List Event → ℕ
terminations [] = 0
terminations (received c op body ∷ es) =
    let rest = terminations es in if same_opcode op Opcode.terminate then rest + 1 else rest
terminations (_ ∷ es) = terminations es

abbrev pub returns : Result → Bool
returns (returned m es) = true
returns _ = false

terminate_loop :
    (es : List Event) (pending : ℕ) (m : Manager)
    → 0 < pending
    → pending < u64_mod
    → returns (select_loop terminate_turn returned es pending m) ≡ leb pending (terminations es)
unfolding select_loop terminate_turn
terminate_loop [] pending m h b = ground arith
terminate_loop (received c op body ∷ es) pending m h b =
    elim (Bool-cases (same_opcode op Opcode.terminate)) [
      | inr other ↦ rw (other, if◌then◌else◌) (terminate_loop es pending m h b)
      | inl ended ↦
          rw (ended, if◌then◌else◌)
            (elim (Bool-cases (down pending == 0)) [
              | inl last ↦ rw (last, if◌then◌else◌) (ground arith)
              | inr more ↦
                  rw (more, if◌then◌else◌)
                    (let less : down pending ≡ pending - 1 = omega arith in
                      let rest =
                        terminate_loop es (down pending) m (ground (arith, more))
                          (omega (arith, less)) in
                      rest ∙ ground (arith, less))
            ])
    ]
terminate_loop (transport c true ∷ es) pending m h b = terminate_loop es pending m h b
terminate_loop (transport c false ∷ es) pending m h b = terminate_loop es pending _ h b
terminate_loop (signal ∷ es) pending m h b = terminate_loop es pending m h b
terminate_loop (tick ∷ es) pending m h b = terminate_loop es pending m h b
terminate_loop (timer ∷ es) pending m h b = terminate_loop es pending m h b

-- `terminate` returns exactly if each of the servers that are left has sent OP_Terminate: it goes on
-- waiting for a server that has closed its connection, or has failed.
pub terminate-returns :
    (m : Manager) (es : List Event)
    → length m.conns < u64_mod
    → returns (terminate m es) ≡ leb (length m.conns) (terminations es)
unfolding terminate send_op send_all code
terminate-returns m es b = elim (Bool-cases (length m.conns == 0)) [
  | inl none_left ↦ rw (none_left, if◌then◌else◌) (ground (arith, none_left))
  | inr some_left ↦
      rw (some_left, if◌then◌else◌)
        (terminate_loop es (length m.conns) _ (ground (arith, some_left)) b)
]

-- A message that `waitForResponses` takes without a word: a summary, or the opcode that it expects.
abbrev pub is_calm : Opcode → Event → Bool
is_calm expected (received c op body) =
    same_opcode op expected || same_opcode op Opcode.stat_summary
is_calm expected _ = false

abbrev pub all_calm : Opcode → List Event → Bool
all_calm expected [] = true
all_calm expected (e ∷ es) = let rest = all_calm expected es in is_calm expected e && rest

abbrev pub answers : Opcode → List Event → ℕ
answers expected [] = 0
answers expected (received c op body ∷ es) =
    let rest = answers expected es in if same_opcode op expected then rest + 1 else rest
answers expected (_ ∷ es) = answers expected es

-- The events after the answer with the number `n`, or all of them gone.
abbrev pub after_answers : Opcode → ℕ → List Event → List Event
after_answers expected zero es = es
after_answers expected (suc n) [] = []
after_answers expected (suc n) (received c op body ∷ es) =
    let answered = after_answers expected n es in
    let other = after_answers expected (suc n) es in
    if same_opcode op expected then answered else other
after_answers expected (suc n) (_ ∷ es) = after_answers expected (suc n) es

calm_message :
    (expected : Opcode) (c : ℕ) (op : Opcode) (body : Body) (m : Manager)
    → is_failure expected ≡ false
    → is_calm expected (received c op body) ≡ true
    → check_error c op body m ≡ some m
unfolding check_error is_failure code
calm_message expected c op body m f h = ground arith

-- The rest of the loop after an answer, from the loop with one server less.
answered :
    (expected : Opcode) (es : List Event) (pending : ℕ) (m : Manager)
    → ((p : ℕ)
        → suc p < u64_mod
        → select_loop (wait_turn expected) returned es (suc p) m ≡ (
            if leb (suc p) (answers expected es)
            then returned m (after_answers expected (suc p) es)
            else waiting m))
    → suc pending < u64_mod
    → follow
        (select_loop (wait_turn expected) returned es)
        returned
        es
        (if pending == 0 then finish m else again pending m)
      ≡ (if leb (suc pending) (answers expected es + 1)
          then returned m (after_answers expected pending es)
          else waiting m)
answered expected es zero m rest b = ground arith
answered expected es (suc pending) m rest b =
    rw (==_ne (suc pending) 0 (omega arith), if◌then◌else◌)
      (rest pending (omega arith) ∙ ground arith)

no_error : (m : Manager) → stopped m ≡ false → m.err ≡ none
no_error m on = none_lem m.err m.interrupted on
  where
    none_lem : (e : Option RunError) (b : Bool) → (has_error e || b) ≡ false → e ≡ none
    none_lem none b h = refl
    none_lem (some e) b h = cc

fine_turn {ℓ} :
    {S : Type ℓ} (c : ℕ) (op : Opcode) (body : Body) (m : Manager) (proceed : Manager → Turn S)
    → check_error c op body m ≡ some m
    → m.err ≡ none
    → unless_failed c op body m proceed ≡ proceed m
fine_turn c op body m proceed checked fine =
    let no_err : has_error m.err ≡ false = rw fine in
    subst
      (λ o.
        elim o [ none ↦ fault | some m' ↦ if has_error m'.err then leave m' else proceed m' ]
        ≡ proceed m)
      (sym checked) (rw (no_err, if◌then◌else◌))

-- A calm message is an answer that is counted, or nothing.
calm_turn :
    (expected : Opcode) (c : ℕ) (op : Opcode) (body : Body) (pending : ℕ) (m : Manager)
    → is_failure expected ≡ false
    → m.err ≡ none
    → is_calm expected (received c op body) ≡ true
    → wait_turn expected (received c op body) pending m
      ≡ (if same_opcode op expected then count_down pending m else again pending m)
unfolding wait_turn
calm_turn expected c op body pending m f o h =
    fine_turn c op body m _ (calm_message expected c op body m f h) o
    ∙ elim (Bool-cases (same_opcode op expected)) [
      | inl answer ↦ rw (answer, if◌then◌else◌)
      | inr other ↦
          (let summary_ : same_opcode op Opcode.stat_summary ≡ true = ground (arith, h, other) in
            rw (other, summary_, if◌then◌else◌))
    ]

wait_loop :
    (expected : Opcode) (es : List Event) (pending : ℕ) (m : Manager)
    → is_failure expected ≡ false
    → m.err ≡ none
    → all_calm expected es ≡ true
    → suc pending < u64_mod
    → select_loop (wait_turn expected) returned es (suc pending) m ≡ (
        if leb (suc pending) (answers expected es)
        then returned m (after_answers expected (suc pending) es)
        else waiting m)
unfolding select_loop
wait_loop expected [] pending m f o h b = ground arith
wait_loop expected (received c op body ∷ es) pending m f o h b =
    let calm = &&_both (is_calm expected (received c op body)) (all_calm expected es) h in
    let less : down (suc pending) ≡ pending = omega arith in
    rw (calm_turn expected c op body (suc pending) m f o calm.0)
      (elim (Bool-cases (same_opcode op expected)) [
        | inl answer ↦
            rw (answer, less, if◌then◌else◌)
              (answered expected es pending m (λ p. wait_loop expected es p m f o calm.1) b)
        | inr other ↦ rw (other, if◌then◌else◌) (wait_loop expected es pending m f o calm.1 b)
      ])
wait_loop expected (transport c eof ∷ es) pending m f o h b = cc
wait_loop expected (signal ∷ es) pending m f o h b = cc
wait_loop expected (tick ∷ es) pending m f o h b = cc
wait_loop expected (timer ∷ es) pending m f o h b = cc

-- Where a manager that has not stopped is connected to at least one server, and to fewer than 2^64,
-- and the servers send only the expected opcode, which is no failure, and summaries,
-- `waitForResponses` returns exactly when as many answers have come as there are servers, has not
-- read what comes after them, and changes nothing.
pub wait_for_responses-calm :
    (expected : Opcode) (m : Manager) (es : List Event) (n : ℕ)
    → is_failure expected ≡ false
    → stopped m ≡ false
    → all_calm expected es ≡ true
    → length m.conns ≡ suc n
    → suc n < u64_mod
    → wait_for_responses expected m es ≡ (
        if leb (suc n) (answers expected es)
        then returned m (after_answers expected (suc n) es)
        else waiting m)
unfolding wait_for_responses
wait_for_responses-calm expected m es n f on calm e b =
    rw (on, if◌then◌else◌) (rw e (wait_loop expected es n m f (no_error m on) calm b))
