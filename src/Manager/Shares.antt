-- ===== src/Manager/Shares.antt =====
-- How the manager (src/sibench/manager.go) divides the range of objects and the bandwidth of a job
-- between the servers.
use sibench.Base.{
  ℕ, ◌+◌, ◌*◌, ◌/◌, ◌==◌, ◌<◌, ◌≤◌, ◌≡◌, sym, arith, if◌then◌else◌, Option, none, some, List, [],
  ◌∷◌, ◌⊎◌, inl, inr, Bool-cases, Option-cases,
}
use mathlib.Core.Path.{subst}
use native.Mathlib.Nat.{mul-add, mul-le-mul_left, le_of_mul-le-mul_right}
use sibench.Base.Bits.{u64, u64_mod}
use sibench.Base.Floats.{Float32}
use sibench.Messages.{WorkOrder}
use sibench.Ranges.{share_le}
use sibench.Manager.{ServerDetails, lookup, Sent, to_connect}
use sibench.Manager.Run.{order_shares}

-- The work orders among what is sent.
abbrev pub orders_in : List Sent → List WorkOrder
orders_in [] = []
orders_in (to_connect c o ∷ sent) = o ∷ orders_in sent
orders_in (_ ∷ sent) = orders_in sent

abbrev pub first : WorkOrder → ℕ
first o = o.range_start

abbrev pub last : WorkOrder → ℕ
last o = o.range_end

abbrev pub total_bandwidth : List WorkOrder → ℕ
total_bandwidth [] = 0
total_bandwidth (o ∷ os) = o.bandwidth + total_bandwidth os

abbrev pub cores_of : List (ℕ × ServerDetails) → ℕ → ℕ
cores_of details c = elim (lookup c details) [ none ↦ 0 | some d ↦ d.discovery.cores ]

abbrev pub total_cores : List (ℕ × ServerDetails) → List ℕ → ℕ
total_cores details [] = 0
total_cores details (c ∷ conns) = cores_of details c + total_cores details conns

bandwidth_step :
    (b k tot t n : ℕ)
    → b * (k + tot) < u64_mod
    → t * n ≤ b * tot
    → (u64 (b * k) / n + t) * n ≤ b * (k + tot)
bandwidth_step b k tot t n h i =
    let parts : b * (k + tot) ≡ b * k + b * tot = mul-add b k tot in
    let short : u64 (b * k) ≡ b * k = omega (arith, parts) in
    let own = share_le (b * k) n in
    let swap : (b * k / n + t) * n ≡ n * (b * k / n) + t * n = grind arith in
    rw short (omega (arith, parts, own, swap))

cancel : (t b cores n : ℕ) → 0 < n → cores ≤ n → t * n ≤ b * cores → t ≤ b
cancel t b cores n p c h = le_of_mul-le-mul_right {k = n} (omega (arith, mul-le-mul_left b c)) p

module _ (fl : Float32) (order : WorkOrder) (n : ℕ) (details : List (ℕ × ServerDetails)) where
  open fl use {Carrier, of_u64, to_u64, add, mul}

  -- The variable `rangeStart` after the given connections.
  abbrev pub walk : Carrier → Carrier → List ℕ → Carrier
  walk stride start [] = start
  walk stride start (c ∷ conns) =
      walk stride (add start (mul stride (of_u64 (cores_of details c)))) conns

  -- The order for a server with the given cores.
  abbrev pub given : Carrier → Carrier → ℕ → WorkOrder
  given stride start cores = record order {
    bandwidth = u64 (order.bandwidth * cores) / n;
    range_start = to_u64 start;
    range_end = to_u64 (add start (mul stride (of_u64 cores)));
  }

  abbrev pub with_order : ℕ → WorkOrder → Option (List Sent) → Option (List Sent)
  with_order c o none = none
  with_order c o (some sent) = some (to_connect c o ∷ sent)

  pub order_shares_lem :
      (stride start : Carrier) (c : ℕ) (conns : List ℕ)
      → (order_shares fl order n stride details start (c ∷ conns) ≡ none)
        ⊎ (order_shares fl order n stride details start (c ∷ conns)
            ≡ with_order c (given stride start (cores_of details c)) (
                order_shares fl order n stride details
                  (add start (mul stride (of_u64 (cores_of details c))))
                  conns))
  unfolding order_shares
  order_shares_lem stride start c conns = elim (Option-cases (lookup c details)) [
    | inl gone ↦ inl (rw (gone, order_shares))
    | inr (d, found) ↦ elim (Bool-cases (n == 0)) [
      | inl zero_cores ↦ inl (rw (found, zero_cores, order_shares, if◌then◌else◌))
      | inr some_cores ↦ inr (
          subst
            (λ k.
              order_shares fl order n stride details start (c ∷ conns)
              ≡ with_order c (given stride start k) (
                  order_shares fl order n stride details (add start (mul stride (of_u64 k))) conns))
            (known_cores d found)
            (rw (found, some_cores, order_shares, if◌then◌else◌)
              (elim (Option-cases (
                order_shares fl order n stride details
                  (add start (mul stride (of_u64 d.discovery.cores))) conns)) [
                    | inl failed ↦ rw failed
                    | inr (sent, done) ↦ rw done
                  ])))
    ]
  ]
    where
      known_cores :
          (d : ServerDetails) → lookup c details ≡ some d → d.discovery.cores ≡ cores_of details c
      known_cores d found = rw (found, cores_of)

  -- What holds of an empty share, and is kept by one more server, holds of all the shares that
  -- `sendJobToServers` makes.
  module _ (stride : Carrier) (P : Carrier → List ℕ → List Sent → Type 0) where
    abbrev pub If : Carrier → List ℕ → Option (List Sent) → Type 0
    If start conns none = Unit
    If start conns (some sent) = P start conns sent

    pub order_shares-If :
        ((start : Carrier) → P start [] [])
        → ((start : Carrier) (c : ℕ) (conns : List ℕ) (sent : List Sent)
            → P (add start (mul stride (of_u64 (cores_of details c)))) conns sent
            → P start (c ∷ conns) (to_connect c (given stride start (cores_of details c)) ∷ sent))
        → (start : Carrier) (conns : List ℕ)
        → If start conns (order_shares fl order n stride details start conns)
    unfolding order_shares
    order_shares-If base next start [] = base start
    order_shares-If base next start (c ∷ conns) =
        let end = add start (mul stride (of_u64 (cores_of details c))) in
        let rest = order_shares-If base next end conns in
        elim (order_shares_lem stride start c conns) [
          | inl failed ↦ subst (If start (c ∷ conns)) (sym failed) tt
          | inr made ↦ subst (If start (c ∷ conns)) (sym made) (
              one_more start c conns (order_shares fl order n stride details end conns)
                (next start c conns) rest)
        ]
      where
        one_more :
            (start : Carrier) (c : ℕ) (conns : List ℕ) (o : Option (List Sent))
            → ((sent : List Sent)
                → P (add start (mul stride (of_u64 (cores_of details c)))) conns sent
                → P start
                    (c ∷ conns)
                    (to_connect c (given stride start (cores_of details c)) ∷ sent))
            → If (add start (mul stride (of_u64 (cores_of details c)))) conns o
            → If start (c ∷ conns) (with_order c (given stride start (cores_of details c)) o)
        one_more start c conns none next h = tt
        one_more start c conns (some sent) next h = next sent h

  -- Together the servers get no more bandwidth than the job has, where the manager counts as many
  -- cores as the servers have and the products do not wrap.
  pub order_shares_bandwidth :
      (stride start : Carrier) (conns : List ℕ) (sent : List Sent)
      → 0 < n
      → total_cores details conns ≤ n
      → order.bandwidth * total_cores details conns < u64_mod
      → order_shares fl order n stride details start conns ≡ some sent
      → total_bandwidth (orders_in sent) ≤ order.bandwidth
  order_shares_bandwidth stride start conns sent p cores b e =
      let P : Carrier → List ℕ → List Sent → Type 0 = λ start conns sent.
        order.bandwidth * total_cores details conns < u64_mod
        → total_bandwidth (orders_in sent) * n ≤ order.bandwidth * total_cores details conns in
      let scaled =
        order_shares-If stride P (λ start h. omega arith)
          (λ start c conns sent h b.
            bandwidth_step order.bandwidth (cores_of details c) (total_cores details conns) _ n b (
              h (
                omega (
                  arith,
                  mul-add order.bandwidth (cores_of details c) (total_cores details conns),
                  b,
                ))))
          start conns in
      cancel (total_bandwidth (orders_in sent)) order.bandwidth (total_cores details conns) n p
        cores (subst (If stride P start conns) e scaled b)
