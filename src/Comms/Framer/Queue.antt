-- ===== src/Comms/Framer/Queue.antt =====
-- The framer over a connection that is a byte stream, in whatever pieces it delivers the bytes:
-- the messages come out whole and in the order in which they were sent.
use sibench.Base.{ℕ, zero, suc, ◌-◌, ◌<◌, ◌≤◌, ◌^◌, ◌≡◌, refl, sym, ◌∙◌, ap, arith}
use sibench.Base.{
  Bool-cases, inl, inr, Bool, true, false, List, [], ◌∷◌, ◌++◌, length, append_assoc, append-nil,
  length-append, length-drop, take, drop, take-append, drop-append, take-append_le,
  take-append-drop,
}
use mathlib.Core.Bool.{true≢false}
use sibench.Comms.Framer.{
  header_of, Reading, bytes, received, send, receive, receive_loop, receive_bytes, receive_body,
}
use sibench.Comms.Framer.Stream.{length_of-header}

-- The bytes of the frames of some messages.
unfoldable pub framed : List (List ℕ) → List ℕ
framed [] = []
framed (m ∷ ms) = header_of (length m) ++ m ++ framed ms

framed-append :
    (ms : List (List ℕ)) (x : List ℕ)
    → framed ms ++ header_of (length x) ++ x ≡ framed (ms ++ x ∷ [])
unfolding framed header_of
framed-append [] x = rw (append-nil x)
framed-append (m ∷ ms) x = simp (sym (framed-append ms x), append_assoc) refl

drop-append_le {ℓ} :
    {A : Type ℓ} → (n : ℕ) (zs ws : List A) → n ≤ length zs → drop n (zs ++ ws) ≡ drop n zs ++ ws
drop-append_le zero zs ws l = refl
drop-append_le (suc n) [] ws l = absurd (omega arith)
drop-append_le (suc n) (z ∷ zs) ws l = drop-append_le n zs ws (omega arith)

-- A list that starts with a shorter one.
split_prefix {ℓ} :
    {A : Type ℓ}
    → (xs ys zs ws : List A) → xs ++ ys ≡ zs ++ ws
    → length xs ≤ length zs
    → (zs ≡ xs ++ drop (length xs) zs) × (ys ≡ drop (length xs) zs ++ ws)
split_prefix xs ys zs ws h l =
    let n = length xs in
    let t : take n zs ≡ xs =
      sym (take-append_le n zs ws l) ∙ ap (λ us. take n us) (sym h) ∙ take-append xs ys in
    let d : ys ≡ drop n zs ++ ws =
      sym (drop-append xs ys) ∙ ap (λ us. drop n us) h ∙ drop-append_le n zs ws l in
    (sym (take-append-drop n zs) ∙ ap (λ us. us ++ drop n zs) t, d)

-- A `Read` with room for at least one byte, where bytes are pending, gives some of them.
pub record Delivery {ℓ} {C : Type ℓ} (read : C → ℕ → Reading C) (pending : C → List ℕ) (c : C)
    (n : ℕ) : Type ℓ where
  pub some_bytes : List ℕ
  pub after : C
  pub reads : read c n ≡ bytes some_bytes after
  pub progress : 0 < length some_bytes
  pub fits : length some_bytes ≤ n
  pub in_order : pending c ≡ some_bytes ++ pending after

-- A connection whose `pending` bytes are those written to it and not yet read.
module _ {ℓ} {C : Type ℓ} (read : C → ℕ → Reading C) (write : C → List ℕ → Bool × C)
    (pending : C → List ℕ)
    (reads_pending : (c : C) (n : ℕ) → 0 < n → 0 < length (pending c) → Delivery read pending c n)
    (writes_pending : (c c' : C) (bs : List ℕ)
      → write c bs ≡ (true, c')
      → pending c' ≡ pending c ++ bs) where
  receive_loop_bytes :
      (fuel remaining : ℕ) (got : List ℕ) (c c' : C) (bs : List ℕ)
      → read c (suc remaining) ≡ bytes bs c'
      → receive_loop read write (suc fuel) (suc remaining) got c
        ≡ receive_loop read write fuel (suc remaining - length bs) (got ++ bs) c'
  unfolding receive_loop
  receive_loop_bytes fuel remaining got c c' bs e = rw (e, receive_loop) refl

  receive_loop_lem :
      (fuel remaining : ℕ) (got : List ℕ) (c : C) (m rest : List ℕ)
      → length m ≡ remaining
      → remaining ≤ fuel
      → pending c ≡ m ++ rest
      → (c' : C) × (receive_loop read write fuel remaining got c ≡ received (got ++ m) c')
        × (pending c' ≡ rest)
  unfolding receive_loop
  receive_loop_lem fuel zero got c [] rest l b p = (c, rw (append-nil got), p)
  receive_loop_lem fuel zero got c (x ∷ m) rest l b p = absurd (omega arith)
  receive_loop_lem zero (suc remaining) got c m rest l b p = absurd (omega arith)
  receive_loop_lem (suc fuel) (suc remaining) got c m rest l b p =
      let long = ap length p ∙ length-append m rest in
      let d = reads_pending c (suc remaining) (omega arith) (omega (arith, long, l)) in
      let fits : length d.some_bytes ≤ length m = omega (arith, d.fits, l) in
      let s = split_prefix d.some_bytes (pending d.after) m rest (sym d.in_order ∙ p) fits in
      let k = length d.some_bytes in
      let r =
        receive_loop_lem fuel (suc remaining - k) (got ++ d.some_bytes) d.after (drop k m) rest
          (length-drop k m ∙ ap (λ t. t - k) l) (omega (arith, d.progress, b)) s.1 in
      let first = receive_loop_bytes fuel remaining got c d.after d.some_bytes d.reads in
      let whole = append_assoc got d.some_bytes (drop k m) ∙ ap (λ us. got ++ us) (sym s.0) in
      (r.0, first ∙ r.1 ∙ ap (λ us. received us r.0) whole, r.2)

  pub receive_bytes_lem :
      (c : C) (m rest : List ℕ)
      → pending c ≡ m ++ rest
      → (c' : C) × (receive_bytes read write (length m) c ≡ received m c') × (pending c' ≡ rest)
  unfolding receive_bytes
  receive_bytes_lem c m rest p =
      receive_loop_lem (length m) (length m) [] c m rest refl (omega arith) p

  -- `Receive` gives the first pending message.
  pub receive-framed :
      (c : C) (m : List ℕ) (ms : List (List ℕ))
      → length m < 2 ^ 32
      → pending c ≡ framed (m ∷ ms)
      → (c' : C) × (receive read write c ≡ received m c') × (pending c' ≡ framed ms)
  unfolding receive receive_body framed header_of
  receive-framed c m ms h p =
      let r = receive_bytes_lem c (header_of (length m)) (m ++ framed ms) p in
      let s = receive_bytes_lem r.0 m (framed ms) r.2 in
      (
        s.0,
        rw (r.1) (ap (λ k. receive_bytes read write k r.0) (length_of-header (length m) h) ∙ s.1),
        s.2,
      )

  -- `Send` puts a message behind those pending.
  pub send-framed :
      (c c' : C) (ms : List (List ℕ)) (x : List ℕ)
      → pending c ≡ framed ms
      → send read write c x ≡ (true, c')
      → pending c' ≡ framed (ms ++ x ∷ [])
  unfolding send
  send-framed c c' ms x p h =
      let w = write c (header_of (length x)) in
      elim (Bool-cases w.0) [
        | inl e ↦
            (let first = writes_pending c w.1 (header_of (length x)) (ap (λ b. (b, w.1)) e) in
              let second = writes_pending w.1 c' x (sym (simp e refl) ∙ h) in
              second
              ∙ ap (λ us. us ++ x) (first ∙ ap (λ us. us ++ header_of (length x)) p)
              ∙ framed-append ms x)
        | inr e ↦
            (let unsent : send read write c x ≡ (false, w.1) = simp e refl in
              absurd (true≢false (ap (λ r. r.0) (sym h ∙ unsent))))
      ]

  -- A message that is sent comes out behind the messages that are pending: a receive after the
  -- send gives the first of all of them, and leaves the others pending.
  pub receive-send :
      (c c' : C) (m : List ℕ) (ms : List (List ℕ)) (x : List ℕ)
      → length m < 2 ^ 32
      → pending c ≡ framed (m ∷ ms)
      → send read write c x ≡ (true, c')
      → (c'' : C) × (receive read write c' ≡ received m c'') × (pending c'' ≡ framed (ms ++ x ∷ []))
  receive-send c c' m ms x h p e =
      receive-framed c' m (ms ++ x ∷ []) h (send-framed c c' (m ∷ ms) x p e)

  -- On a connection with nothing pending, a receive gives the message that was sent.
  pub receive-send_empty :
      (c c' : C) (x : List ℕ)
      → length x < 2 ^ 32
      → pending c ≡ []
      → send read write c x ≡ (true, c')
      → (c'' : C) × (receive read write c' ≡ received x c'') × (pending c'' ≡ [])
  unfolding framed
  receive-send_empty c c' x h p e = receive-framed c' x [] h (send-framed c c' [] x p e)
