-- ===== src/Manager/Starved.antt =====
-- A server that gets no objects.
use sibench.Comms.Orders.{decode_order}
use sibench.Base.{
  ◌==◌, if◌then◌else◌, arith, Bool-cases, ℕ, ◌<◌, ◌≡◌, sym, ap, ◌∙◌, Option, none, some, List, [],
  ◌∷◌, inl, inr,
}
use mathlib.Core.Path.{subst}
use sibench.Base.Bits.{u64_mod}
use sibench.Base.Floats.{Float32}
use sibench.Messages.{WorkOrder}
use sibench.Foreman.Machine.{Foreman, panicked}
use sibench.Foreman.Connect.{Site, connect}
use sibench.Foreman.Idle.{connect_empty_panics}
use sibench.Manager.{ServerDetails, Sent}
use sibench.Manager.Run.{order_shares}
use sibench.Manager.Shares.{orders_in, cores_of, given, with_order, order_shares_lem}

-- Bounds that are equal are equal once they are decoded.
decoded_empty :
    (start end old_start old_end : ℕ)
    → start ≡ end
    → (start ≡ 0 → old_start ≡ old_end)
    → (if start == 0 then old_start else start) ≡ (if end == 0 then old_end else end)
decoded_empty start end old_start old_end e h = elim (Bool-cases (start == 0)) [
  | inl zero ↦ (let z : start ≡ 0 = ground arith in let same = h z in ground (arith, e, same))
  | inr sent ↦ ground (arith, e)
]

decoded_fits :
    (end old_end : ℕ)
    → end < u64_mod
    → old_end < u64_mod
    → (if end == 0 then old_end else end) < u64_mod
decoded_fits end old_end h k = ground arith

module _ (fl : Float32) (order : WorkOrder) (n : ℕ) (details : List (ℕ × ServerDetails)) where
  open fl use {Carrier, of_u64, to_u64, add, mul}

  refused : {sent : List Sent} {A : Type 0} → none ≡ some sent → A
  refused e = absurd (cc e)

  first_order :
      (c : ℕ) (o : WorkOrder) (rest : Option (List Sent)) (sent : List Sent)
      → with_order fl order n details c o rest ≡ some sent
      → (os : List WorkOrder) × (orders_in sent ≡ o ∷ os)
  first_order c o none sent e = refused e
  first_order c o (some more) sent e =
      (orders_in more, sym (ap (λ x. elim x [ none ↦ [] | some s ↦ orders_in s ]) e))

  -- Where the cores of a server are so few that its part of the range, from any bound on, ends at
  -- the object at which it starts: the server gets a work order that makes its foreman panic once it
  -- is decoded into the foreman's variable. As bounds that are zero are not sent, the variable must,
  -- if that object is 0, hold an empty range, as it does before a foreman's first order.
  pub starved_server_panics :
      (stride start : Carrier) (c : ℕ) (conns : List ℕ) (sent : List Sent)
      → order_shares fl order n stride details start (c ∷ conns) ≡ some sent
      → to_u64 (add start (mul stride (of_u64 (cores_of details c)))) ≡ to_u64 start
      → to_u64 start < u64_mod
      → (site : Site) (f : Foreman) (old : WorkOrder) → old.range_end < u64_mod
      → (to_u64 start ≡ 0 → old.range_start ≡ old.range_end)
      → (o : WorkOrder) × (os : List WorkOrder) × (orders_in sent ≡ o ∷ os)
        × (connect fl site (decode_order o old) f ≡ panicked)
  unfolding decode_order
  starved_server_panics stride start c conns sent e few low site f old small empty =
      let o = given fl order n details stride start (cores_of details c) in
      let same : (decode_order o old).range_start ≡ (decode_order o old).range_end =
        decoded_empty (to_u64 start) _ _ _ (sym few) empty in
      let fits : (decode_order o old).range_end < u64_mod =
        decoded_fits _ _ (subst (λ x. x < u64_mod) (sym few) low) small in
      elim (order_shares_lem fl order n details stride start c conns) [
        | inl failed ↦ refused (sym failed ∙ e)
        | inr made ↦
            (let (os, first) = first_order c o _ sent (sym made ∙ e) in
              (o, os, first, connect_empty_panics fl site (decode_order o old) f same fits))
      ]
