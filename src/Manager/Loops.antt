-- ===== src/Manager/Loops.antt =====
-- The loops of the manager that wait for messages: `waitForResponses`, `drainStats`, `terminate`
-- and `discoverServerCapabilities`.
use sibench.Base.{
  ℕ, ◌+◌, ◌==◌, if◌then◌else◌, Bool, true, false, not, ◌&&◌, Option, none, some, List, [], ◌∷◌,
  length,
}
use sibench.Base.Bits.{u64}
use sibench.Messages.{Opcode, same_opcode, Stat}
use sibench.Report.{
  Report, transport_failure, unexpected_opcode, discovery_failure, add_stat, analyse_stats,
}
use sibench.Manager.{
  Manager, ServerDetails, Body, stats_of, discovery_of, Event, received, transport, signal, tick,
  timer, Result, returned, waiting, exited, panicked, ◌>>=◌, has_error, stopped, lookup, send_all,
  check_error, down,
}

-- What a turn of a loop comes to: another turn, a return, the end of the loop, the end of the
-- process, or a panic. `S` is what the loop keeps besides the manager.
pub data Turn {ℓ} (S : Type ℓ) : Type ℓ where
  again : S → Manager → Turn S
  leave : Manager → Turn S
  finish : Manager → Turn S
  quit : Manager → Turn S
  fault : Turn S

abbrev pub follow {ℓ} :
    {S : Type ℓ}
    → (S → Manager → Result)
    → (Manager → List Event → Result)
    → List Event
    → Turn S
    → Result
follow loop after es (again s m) = loop s m
follow loop after es (leave m) = returned m es
follow loop after es (finish m) = after m es
follow loop after es (quit m) = exited m
follow loop after es fault = panicked

-- `for { select { ... } }`, with what follows the loop.
module _ {ℓ} {S : Type ℓ} (turn : Event → S → Manager → Turn S)
    (after : Manager → List Event → Result) where
  unfoldable pub select_loop : List Event → S → Manager → Result
  select_loop [] s m = waiting m
  select_loop (e ∷ es) s m = follow (select_loop es) after es (turn e s m)

-- What a loop does with a message: a failure ends it, and `use` handles the message else.
abbrev pub unless_failed {ℓ} :
    {S : Type ℓ} → ℕ → Opcode → Body → Manager → (Manager → Turn S) → Turn S
unless_failed c op body m proceed = elim (check_error c op body m) [
  | none ↦ fault
  | some m' ↦ if has_error m'.err then leave m' else proceed m'
]

abbrev pub unexpected {ℓ} : {S : Type ℓ} → Opcode → Manager → Turn S
unexpected op m = leave (record m { err = some (unexpected_opcode op) })

abbrev pub interrupt {ℓ} : {S : Type ℓ} → Manager → Turn S
interrupt m = leave (record m { interrupted = true })

-- `pending--`, and the test that ends a loop.
abbrev pub count_down : ℕ → Manager → Turn ℕ
count_down pending m = if down pending == 0 then finish m else again (down pending) m

-- `waitForResponses`. A ticker or a timer is not in its `select`.
unfoldable pub wait_turn : Opcode → Event → ℕ → Manager → Turn ℕ
wait_turn expected (received c op body) pending m = unless_failed c op body m λ m'.
    if same_opcode op expected
    then count_down pending m'
    else if same_opcode op Opcode.stat_summary
    then again pending m'
    else unexpected op m'
wait_turn expected (transport c eof) pending m = quit m
wait_turn expected signal pending m = interrupt m
wait_turn expected tick pending m = again pending m
wait_turn expected timer pending m = again pending m

unfoldable pub wait_for_responses : Opcode → Manager → List Event → Result
wait_for_responses expected m es =
    if stopped m
    then returned m es
    else select_loop (wait_turn expected) returned es (length m.conns) m

-- `sendOpToServers`
unfoldable pub send_op : Opcode → Bool → Manager → List Event → Result
send_op op wait m es =
    if not (same_opcode op Opcode.terminate) && stopped m
    then returned m es
    else if wait
    then wait_for_responses op (send_all op m) es
    else returned (send_all op m) es

-- The stats of a message of the server with the given details; `none` is a panic.
unfoldable pub add_stats : Option ServerDetails → List Stat → Report → Option Report
add_stats d [] r = some r
add_stats none (s ∷ stats) r = none
add_stats (some d) (s ∷ stats) r = elim (add_stat (record { stat = s; server_index = d.index }) r) [
  | none ↦ none
  | some r' ↦ add_stats (some d) stats r'
]

-- `drainStats`, from the request on.
unfoldable pub drain_turn : Event → ℕ → Manager → Turn ℕ
drain_turn (received c op body) pending m = unless_failed c op body m λ m'.
    if same_opcode op Opcode.stat_details
    then elim (add_stats (lookup c m'.details) (stats_of body) m'.report) [
      | none ↦ fault
      | some r ↦ again pending (record m' { report = r })
    ]
    else if same_opcode op Opcode.stat_details_done
    then count_down pending m'
    else if same_opcode op Opcode.stat_summary
    then again pending m'
    else unexpected op m'
drain_turn (transport c eof) pending m = leave (record m { err = some (transport_failure c) })
drain_turn signal pending m = interrupt m
drain_turn tick pending m = again pending m
drain_turn timer pending m = again pending m

unfoldable pub analyse : Manager → List Event → Result
analyse m es = elim (analyse_stats m.report) [
  | none ↦ panicked
  | some r ↦ returned (record m { report = r }) es
]

unfoldable pub drain_stats : Manager → List Event → Result
drain_stats m es =
    if stopped m
    then returned m es
    else send_op Opcode.stat_details false m es >>= λ m es.
        if length m.conns == 0
        then analyse m es
        else select_loop drain_turn analyse es (length m.conns) m

-- The loop of `terminate`, which only reads messages.
unfoldable pub terminate_turn : Event → ℕ → Manager → Turn ℕ
terminate_turn (received c op body) pending m =
    if same_opcode op Opcode.terminate then count_down pending m else again pending m
terminate_turn (transport c true) pending m = again pending m
terminate_turn (transport c false) pending m =
    again pending (record m { err = some (transport_failure c) })
terminate_turn _ pending m = again pending m

unfoldable pub terminate : Manager → List Event → Result
terminate m es = send_op Opcode.terminate false m es >>= λ m es.
    if length m.conns == 0
    then returned m es
    else select_loop terminate_turn returned es (length m.conns) m

-- The details of a server with what it has said; `none` is the panic of a connection without.
unfoldable pub learn : ℕ → Body → List (ℕ × ServerDetails) → Option (ℕ × List (ℕ × ServerDetails))
learn c body [] = none
learn c body ((d, x) ∷ ds) =
    let rest = learn c body ds in
    if c == d
    then (let told = discovery_of body x.discovery in
        some (told.cores, (d, record x { discovery = told }) ∷ ds))
    else elim rest [ none ↦ none | some (cores, ds') ↦ some (cores, (d, x) ∷ ds') ]

-- `discoverServerCapabilities`
unfoldable pub discover_turn : Event → ℕ → Manager → Turn ℕ
discover_turn (received c op body) pending m =
    if same_opcode op Opcode.discovery
    then elim (learn c body m.details) [
      | none ↦ fault
      | some (cores, details) ↦
          count_down pending
            (record m { details = details; core_count = u64 (m.core_count + cores) })
    ]
    else unexpected op m
discover_turn (transport c eof) pending m = leave (record m { err = some (discovery_failure c) })
discover_turn _ pending m = again pending m

unfoldable pub discover : Manager → List Event → Result
discover m es =
    if stopped m
    then returned m es
    else (let m' = record (send_all Opcode.discovery m) { core_count = 0 } in
        if length m'.conns == 0
        then returned m' es
        else select_loop discover_turn returned es (length m'.conns) m')
