-- ===== src/Connections/S3/Bodies.antt =====
-- An object comes out of its body whole.
use sibench.Base.{
  ℕ, zero, suc, ◌+◌, ◌-◌, ◌<◌, ◌≤◌, ◌==◌, if◌then◌else◌, List, [], ◌++◌, length, ◌≡◌, refl, sym, ap,
  ◌∙◌, arith, ◌⊎◌, inl, inr, Bool-cases, append_assoc, length-append,
}
use sibench.Connections.S3.{
  BodyRead, more_of_body, last_of_body, streamed, wrong_length, body_loop, get_body,
}

-- A Read gives one byte or more of what is pending, or all of it with the end of the body.
abbrev pub Serves {ℓ} : {C : Type ℓ} → (C → ℕ → BodyRead C) → (C → List ℕ) → C → ℕ → Type ℓ
Serves {C = C} read pending c n =
    ((bytes : List ℕ) × (c' : C) × (read c n ≡ more_of_body bytes c')
      × (0 < length bytes)
      × (pending c ≡ bytes ++ pending c'))
    ⊎ (read c n ≡ last_of_body (pending c))

module _ {ℓ} {C : Type ℓ} (read : C → ℕ → BodyRead C) (pending : C → List ℕ)
    (serves : (c : C) (n : ℕ) → length (pending c) ≤ n → Serves read pending c n) where
  body_loop_lem :
      (n capacity : ℕ) (got : List ℕ) (c : C)
      → length (pending c) < n
      → length got + length (pending c) ≤ capacity
      → body_loop read n capacity got c ≡ streamed (got ++ pending c)
  unfolding body_loop
  body_loop_lem zero capacity got c h e = absurd (omega (arith, h))
  body_loop_lem (suc n) capacity got c h e =
      elim (serves c (capacity - length got) (omega (arith, e))) [
        | inr end ↦ rw (end, body_loop) refl
        | inl (bytes, c', more, some_bytes, split) ↦
            (let shorter = ap length split ∙ length-append bytes (pending c') in
              rw (more, body_loop)
                (body_loop_lem n capacity (got ++ bytes) c' (omega (arith, shorter, some_bytes, h))
                    (omega (arith, shorter, length-append got bytes, e))
                  ∙ ap streamed
                      (append_assoc got bytes (pending c') ∙ ap (λ ys. got ++ ys) (sym split))))
      ]

  -- A body whose reads give one byte or more, until the end, is read whole into a buffer of its
  -- size, in no more rounds than it has bytes and one for the end; a buffer of another size is
  -- refused.
  pub get_body_lem :
      (n capacity : ℕ) (c : C)
      → length (pending c) < n
      → get_body read n capacity (length (pending c)) c
        ≡ (if length (pending c) == capacity then streamed (pending c) else wrong_length)
  unfolding get_body
  get_body_lem n capacity c h = elim (Bool-cases (length (pending c) == capacity)) [
    | inl same ↦
        rw (same, get_body, if◌then◌else◌) (body_loop_lem n capacity [] c h (ground (arith, same)))
    | inr other ↦ rw (other, get_body, if◌then◌else◌) refl
  ]
