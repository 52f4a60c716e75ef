-- ===== src/Manager/Starts.antt =====
-- What the servers get up to the start of the phases: the connections, the discovery and the work
-- orders.
use sibench.Base.{
  ℕ, suc, ◌+◌, ◌-◌, ◌==◌, ◌<◌, if◌then◌else◌, Bool, true, false, ◌||◌, Option, none, some, List, [],
  ◌∷◌, ◌++◌, map, ◌≡◌, refl, ap, ◌∙◌, arith, inl, inr, Bool-cases, Option-cases, length, get_elem?,
}
use sibench.Base.Bits.{u64, u64_mod}
use sibench.Base.Floats.{Float32}
use Prim.Native.String.{String}
use sibench.Messages.{Opcode, same_opcode, WorkOrder}
use sibench.Manager.{
  Manager, ServerDetails, Event, received, transport, signal, tick, timer, Result, returned,
  stopped, lookup, known, send_all, Sent, to_server,
}
use sibench.Manager.Loops.{fault, count_down, learn, discover_turn, discover}
use sibench.Manager.Run.{connect_servers, connect_to_servers, order_shares, send_job}
use sibench.Manager.Sends.{IsQuiet-refl, TurnIsQuiet, fails_quietly, turn_if}
use sibench.Manager.Received.{ops_to, ops_to-append, IsDistinct}
use sibench.Manager.Script.{
  IsAt, Takes, stopped-IsAt, sent-IsAt, send_all-IsAt, loop-Takes, wait_for_responses-Takes,
  count_down-IsQuiet,
}

learned-IsQuiet :
    (m : Manager) (pending : ℕ) (o : Option (ℕ × List (ℕ × ServerDetails)))
    → TurnIsQuiet m (elim o [
      | none ↦ fault
      | some (cores, details) ↦
          count_down pending
            (record m { details = details; core_count = u64 (m.core_count + cores) })
    ])
learned-IsQuiet m pending none = tt
learned-IsQuiet m pending (some (cores, details)) =
    count_down-IsQuiet pending m _
      (record { sends = λ c. refl; fewer = λ c h. h; distinct = λ h. h; stops = λ h. h })

discover_turn-IsQuiet :
    (e : Event) (pending : ℕ) (m : Manager) → TurnIsQuiet m (discover_turn e pending m)
unfolding discover_turn
discover_turn-IsQuiet (received c op body) pending m =
    turn_if m (same_opcode op Opcode.discovery) _ _
      (learned-IsQuiet m pending (learn c body m.details)) (fails_quietly m _, refl)
discover_turn-IsQuiet (transport c eof) pending m = (fails_quietly m _, refl)
discover_turn-IsQuiet signal pending m = IsQuiet-refl m
discover_turn-IsQuiet tick pending m = IsQuiet-refl m
discover_turn-IsQuiet timer pending m = IsQuiet-refl m

Takes-if :
    (script : List Opcode) (k : ℕ) (b : Bool) (r s : Result)
    → Takes script k r
    → Takes script k s
    → Takes script k (if b then r else s)
Takes-if script k true r s p q = p
Takes-if script k false r s p q = q

pub discover-Takes :
    (script : List Opcode) (k : ℕ) (m : Manager) (es : List Event)
    → get_elem? script k ≡ some Opcode.discovery
    → IsAt script k m
    → Takes script (suc k) (discover m es)
unfolding discover
discover-Takes script k m es e h = elim (Bool-cases (stopped m)) [
  | inl over ↦ rw (over, if◌then◌else◌) (stopped-IsAt script k (suc k) m h over)
  | inr on ↦
      (let asked = send_all-IsAt script k Opcode.discovery m e h on in
        let h' : IsAt script (suc k) (record (send_all Opcode.discovery m) { core_count = 0 }) =
          record { distinct = asked.distinct; prompt = asked.prompt; behind = asked.behind } in
        rw (on, if◌then◌else◌)
          (Takes-if script (suc k) (length (send_all Opcode.discovery m).conns == 0) _ _ h' (
            loop-Takes script (suc k) (suc k) discover_turn returned discover_turn-IsQuiet
              (λ m es h. h) es _ _ h')))
]

module _ (fl : Float32) where
  open fl use {Carrier, of_u64, to_u64, add, mul, div}

  abbrev Ordered : List ℕ → Option (List Sent) → Type 0
  Ordered conns none = Unit
  Ordered conns (some orders) =
      (c : ℕ) → ops_to c orders ≡ ops_to c (map (λ d. to_server d Opcode.connect) conns)

  order_shares-Ordered :
      (order : WorkOrder) (core_count : ℕ) (stride : Carrier) (details : List (ℕ × ServerDetails))
      (start : Carrier) (conns : List ℕ)
      → Ordered conns (order_shares fl order core_count stride details start conns)
  unfolding order_shares ops_to
  order_shares-Ordered order n stride details start [] = λ c. refl
  order_shares-Ordered order n stride details start (d ∷ conns) =
      elim (Option-cases (lookup d details)) [
        | inl gone ↦ rw (gone, order_shares) tt
        | inr (x, found) ↦ elim (Bool-cases (n == 0)) [
          | inl zero_cores ↦ rw (found, zero_cores, order_shares, if◌then◌else◌) tt
          | inr some_cores ↦
              (let end = add start (mul stride (of_u64 x.discovery.cores)) in
                let rest = order_shares-Ordered order n stride details end conns in
                elim (Option-cases (order_shares fl order n stride details end conns)) [
                  | inl failed ↦ rw (found, some_cores, order_shares, if◌then◌else◌) (rw failed tt)
                  | inr (orders, done) ↦
                      (let same : Ordered conns (some orders) = rw done at rest in
                        rw (found, some_cores, order_shares, if◌then◌else◌)
                          (rw done (λ c. ground (arith, same c))))
                ])
        ]
      ]

  pub send_job-Takes :
      (script : List Opcode) (k : ℕ) (m : Manager) (es : List Event)
      → get_elem? script k ≡ some Opcode.connect
      → IsAt script k m
      → Takes script (suc k) (send_job fl m es)
  unfolding send_job
  send_job-Takes script k m es e h = elim (Bool-cases (stopped m)) [
    | inl over ↦ rw (over, if◌then◌else◌) (stopped-IsAt script k (suc k) m h over)
    | inr on ↦
        (let order = m.job.order in
          let range_len = u64 (order.range_end + u64_mod - order.range_start) in
          let stride = div (of_u64 range_len) (of_u64 m.core_count) in
          let start = of_u64 order.range_start in
          let lemma = order_shares-Ordered order m.core_count stride m.details start m.conns in
          rw (on, if◌then◌else◌)
            (elim (Option-cases
              (order_shares fl order m.core_count stride m.details start m.conns)) [
                | inl failed ↦ rw failed tt
                | inr (orders, done) ↦
                    (let same : Ordered m.conns (some orders) = rw done at lemma in
                      let m' = record m { sent = m.sent ++ orders } in
                      rw done (
                        wait_for_responses-Takes script (suc k) Opcode.connect m' es (
                          sent-IsAt script k Opcode.connect m m' e h on refl (λ c.
                            ops_to-append c m.sent orders
                            ∙ ap (λ ops. ops_to c m.sent ++ ops) (same c)))))
              ]))
  ]

-- The connections that have been made are those below `i`.
record AreBelow (i : ℕ) (cs : List ℕ) : Type 0 where
  distinct : IsDistinct cs
  below : (c : ℕ) → known c cs ≡ true → c < i

known-append : (c : ℕ) (cs : List ℕ) (i : ℕ) → known c (cs ++ (i ∷ [])) ≡ (known c cs || (c == i))
known-append c [] i = ground arith
known-append c (d ∷ cs) i = ground (arith, known-append c cs i)

append-IsDistinct :
    (cs : List ℕ) (i : ℕ) → IsDistinct cs → known i cs ≡ false → IsDistinct (cs ++ (i ∷ []))
append-IsDistinct [] i h n = (refl, tt)
append-IsDistinct (c ∷ cs) i (a, h) n =
    (ground (arith, known-append c cs i), append-IsDistinct cs i h (ground arith))

below_next : (i : ℕ) (cs : List ℕ) → AreBelow i cs → AreBelow (i + 1) (cs ++ (i ∷ []))
below_next i cs h = record {
  distinct = append-IsDistinct cs i h.distinct (elim (Bool-cases (known i cs)) [
    | inl here ↦ absurd (omega (arith, h.below i here))
    | inr gone ↦ gone
  ]);
  below = λ c k. elim (Bool-cases (known c cs)) [
    | inl here ↦ omega (arith, h.below c here)
    | inr gone ↦ ground (arith, known-append c cs i)
  ];
}

connect_servers_lem :
    (connects : String → Bool) (i : ℕ) (servers : List String) (m : Manager)
    → AreBelow i m.conns
    → IsDistinct (connect_servers connects i servers m).conns
      × ((connect_servers connects i servers m).sent ≡ m.sent)
unfolding connect_servers
connect_servers_lem connects i [] m h = (h.distinct, refl)
connect_servers_lem connects i (s ∷ servers) m h = elim (Bool-cases (connects s)) [
  | inl yes_ ↦
      rw (yes_, if◌then◌else◌)
        (connect_servers_lem connects (i + 1) servers _ (below_next i m.conns h))
  | inr no_ ↦ rw (no_, if◌then◌else◌) (h.distinct, refl)
]

fresh-IsAt :
    (script : List Opcode) (m : Manager) → IsDistinct m.conns → m.sent ≡ [] → IsAt script 0 m
unfolding ops_to
fresh-IsAt script m d e = record {
  distinct = d;
  prompt = λ on c here. rw e;
  behind = λ c. rw e (script, refl);
}

no_conns-AreBelow : (cs : List ℕ) → cs ≡ [] → AreBelow 0 cs
no_conns-AreBelow cs e = record { distinct = rw e tt; below = λ c here. cc }

pub connect_to_servers-IsAt :
    (script : List Opcode) (connects : String → Bool) (m : Manager)
    → m.conns ≡ []
    → m.sent ≡ []
    → IsAt script 0 (connect_to_servers connects m)
unfolding connect_to_servers
connect_to_servers-IsAt script connects m e f = elim (Bool-cases (stopped m)) [
  | inl over ↦ rw (over, if◌then◌else◌) (fresh-IsAt script m (rw e tt) f)
  | inr on ↦
      (let made = connect_servers_lem connects 0 m.job.servers m (no_conns-AreBelow m.conns e) in
        rw (on, if◌then◌else◌) (fresh-IsAt script _ made.0 (made.1 ∙ f)))
]
