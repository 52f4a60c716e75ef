-- ===== src/Comms/Connection/Delivered.antt =====
-- From `Send` on one side to the channel on the other: what is sent over a byte stream comes out
-- in order, and after it the error of the stream's end.
use sibench.Base.{
  if◌then◌else◌, Bool-cases, append-nil, ℕ, suc, ◌%◌, ◌<◌, ◌^◌, ◌≡◌, refl, sym, ap, ◌∙◌, arith,
  Bool, true, false, Option, none, some, List, [], ◌∷◌, ◌++◌, length, map, All, append_assoc,
  Option-cases, inl, inr,
}
use mathlib.Core.List.{map-append}
use mathlib.Core.Bool.{true≢false}
use sibench.Comms.Framer.{
  Reading, failed, broken, receive, receive_bytes, receive_loop, receive_body,
}
use sibench.Comms.Framer.Queue.{framed, Delivery, receive-framed, send-framed}
use sibench.Comms.Encoder.{
  Codec, Message, packet, data_of, send_message, unpack, receive_message, incoming, receive_failed,
}
use sibench.Comms.Connection.{info, error_info, returned, panicked, process_receives}

-- The bytes of a message in its frame.
abbrev pub packed : Message → List ℕ
packed m = m.id ∷ m.message_bytes

abbrev pub IsSmall : Message → Type 0
IsSmall m = length (packed m) < 2 ^ 32

module _ {D : Type 0} (gob : Codec D) (fresh : D) where
  -- A message has the ID of a letter, and the data that were sent.
  abbrev pub OpensTo : ℕ × Option D → Message → Type 0
  OpensTo (id, none) m = m.id ≡ id % 256
  OpensTo (id, some d) m = (m.id ≡ id % 256) × (data_of gob m fresh ≡ d)

  abbrev pub Opens : List (ℕ × Option D) → List Message → Type 0
  Opens [] [] = Unit
  Opens [] (m ∷ ms) = ⊥
  Opens (l ∷ letters) [] = ⊥
  Opens (l ∷ letters) (m ∷ ms) = OpensTo l m × Opens letters ms

-- A connection whose `pending` bytes are those written to it and not yet read, and which fails
-- where none are left.
module _ {ℓ} {C : Type ℓ} (read : C → ℕ → Reading C) (write : C → List ℕ → Bool × C)
    (pending : C → List ℕ)
    (reads_pending : (c : C) (n : ℕ) → 0 < n → 0 < length (pending c) → Delivery read pending c n)
    (writes_pending : (c c' : C) (bs : List ℕ)
      → write c bs ≡ (true, c')
      → pending c' ≡ pending c ++ bs)
    (ends : (c : C) (n : ℕ) → pending c ≡ [] → read c n ≡ failed) where
  receive-packed :
      (c : C) (m : Message) (ms : List (List ℕ))
      → IsSmall m
      → pending c ≡ framed (packed m ∷ ms)
      → (c' : C) × (receive_message read write c ≡ incoming m c') × (pending c' ≡ framed ms)
  unfolding receive_message unpack
  receive-packed c m ms h p =
      let r = receive-framed read write pending reads_pending writes_pending c (packed m) ms h p in
      (r.0, ap (unpack read write) r.1, r.2)

  read_at_end : (c : C) → pending c ≡ [] → receive_bytes read write 4 c ≡ broken
  unfolding receive_bytes receive_loop
  read_at_end c p = rw (ends c 4 p, receive_loop) refl

  receive_at_end : (c : C) → pending c ≡ [] → receive_message read write c ≡ receive_failed
  unfolding receive_message unpack receive receive_body
  receive_at_end c p = ap (λ r. unpack read write (receive_body read write r)) (read_at_end c p)

  process_receives-framed :
      (c : C) (ms : List Message)
      → All IsSmall ms
      → pending c ≡ framed (map packed ms)
      → process_receives read write (suc (length ms)) c ≡ (map info ms ++ error_info ∷ [], returned)
  unfolding process_receives framed
  process_receives-framed c [] h p = rw (receive_at_end c p, process_receives) refl
  process_receives-framed c (m ∷ ms) (h, hs) p =
      let r = receive-packed c m (map packed ms) h p in
      rw (r.1, process_receives)
        (ap (λ rest. (info m ∷ rest.0, rest.1)) (process_receives-framed r.0 ms hs r.2))

  -- A frame without a byte makes the go-routine panic.
  pub process_receives_empty :
      (n : ℕ) (c : C) (ms : List (List ℕ))
      → pending c ≡ framed ([] ∷ ms)
      → process_receives read write (suc n) c ≡ ([], panicked)
  unfolding process_receives receive_message unpack
  process_receives_empty n c ms p =
      let r =
        receive-framed read write pending reads_pending writes_pending c [] ms (omega arith) p in
      rw (ap (unpack read write) r.1, process_receives, receive_message) refl

  module _ {D : Type 0} (gob : Codec D) (fresh : D)
      (decodes : (d : D) (bs : List ℕ) → gob.encode d ≡ some bs → gob.decode bs fresh ≡ d)
      (small : (d : D) (bs : List ℕ) → gob.encode d ≡ some bs → length bs < 2 ^ 31) where
    -- Some messages are sent; none where one of them fails.
    abbrev pub transmit : List (ℕ × Option D) → C → Option C
    transmit [] c = some c
    transmit ((id, content) ∷ letters) c =
        let (sent, c') = send_message gob read write id content c in
        if sent then transmit letters c' else none

    unsent : (b : Bool) (c c' : C) → b ≡ false → ◌≡◌ {A = Bool × C} (b, c) (true, c') → ⊥
    unsent b c c' f e = true≢false (sym (ap (λ r. r.0) e) ∙ f)

    send_message-framed :
        (id : ℕ) (content : Option D) (c c' : C) (ms : List (List ℕ))
        → pending c ≡ framed ms
        → send_message gob read write id content c ≡ (true, c')
        → (m : Message) × (pending c' ≡ framed (ms ++ packed m ∷ []))
          × IsSmall m
          × OpensTo gob fresh (id, content) m
    unfolding send_message packet data_of
    send_message-framed id none c c' ms p e =
        let m : Message = record { id = id % 256; message_bytes = [] } in
        (
          m,
          send-framed read write pending reads_pending writes_pending c c' ms (packed m) p e,
          omega arith,
          refl,
        )
    send_message-framed id (some d) c c' ms p e = elim (Option-cases (gob.encode d)) [
      | inl refused ↦ absurd (unsent false c c' refl (rw (refused, send_message) at e))
      | inr (bs, done) ↦
          (let m : Message = record { id = id % 256; message_bytes = bs } in
            (
              m,
              send-framed read write pending reads_pending writes_pending c c' ms (packed m) p
                  (rw (done, send_message) at e),
              omega (arith, small d bs done),
              (refl, decodes d bs done),
            ))
    ]

    inj : {c c' : C} → some c ≡ some c' → c ≡ c'
    inj {c} e = ap (λ o. elim o [ none ↦ c | some x ↦ x ]) e

    refused_message : {c : C} → none ≡ some c → ⊥
    refused_message e = cc

    transmit-framed :
        (letters : List (ℕ × Option D)) (c c' : C) (before : List Message)
        → pending c ≡ framed (map packed before)
        → transmit letters c ≡ some c'
        → (ms : List Message) × (pending c' ≡ framed (map packed (before ++ ms)))
          × All IsSmall ms
          × Opens gob fresh letters ms
          × (length ms ≡ length letters)
    transmit-framed [] c c' before p e = (
      [],
      ap pending (sym (inj e)) ∙ p ∙ ap (λ xs. framed (map packed xs)) (sym (append-nil before)),
      tt,
      tt,
      refl,
    )
    transmit-framed ((id, content) ∷ letters) c c' before p e =
        let s = send_message gob read write id content c in
        elim (Bool-cases s.0) [
          | inr lost ↦ absurd (refused_message (rw (lost, if◌then◌else◌) at e))
          | inl sent ↦
              (let r =
                  send_message-framed id content c s.1 (map packed before) p
                    (ap (λ b. (b, s.1)) sent) in
                let next =
                  transmit-framed letters s.1 c' (before ++ r.0 ∷ [])
                    (r.1 ∙ ap framed (sym (map-append packed before (r.0 ∷ []))))
                    (rw (sent, if◌then◌else◌) at e) in
                (
                  r.0 ∷ next.0,
                  next.1
                      ∙ ap (λ xs. framed (map packed xs)) (append_assoc before (r.0 ∷ []) next.0),
                  (r.2, next.2),
                  (r.3, next.3),
                  ap suc next.4,
                ))
        ]

    -- Messages that are sent over an empty connection come out of `processReceives` on the other
    -- side: all of them, in order, each with its ID as a byte and the data that were sent, and then
    -- the error with which the stream ends.
    pub process_receives-transmit :
        (letters : List (ℕ × Option D)) (c c' : C)
        → pending c ≡ []
        → transmit letters c ≡ some c'
        → (ms : List Message) × (process_receives read write (suc (length letters)) c'
            ≡ (map info ms ++ error_info ∷ [], returned))
          × Opens gob fresh letters ms
    unfolding framed
    process_receives-transmit letters c c' p e =
        let t = transmit-framed letters c c' [] p e in
        (
          t.0,
          ap (λ n. process_receives read write (suc n) c') (sym t.4)
              ∙ process_receives-framed c' t.0 t.2 t.1,
          t.3,
        )
