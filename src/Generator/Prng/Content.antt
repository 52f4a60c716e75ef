-- ===== src/Generator/Prng/Content.antt =====
-- What the PRNG generator writes.
use sibench.Base.{ℕ, zero, suc, ◌+◌, ◌-◌, ◌*◌, ◌/◌, ◌%◌, ◌<◌, ◌≤◌, ◌≡◌, refl, ◌∙◌, arith}
use sibench.Base.{some, List, [], ◌∷◌, ◌++◌, length, drop, append_assoc, append-nil, replicate}
use sibench.Base.{length-append, length-drop, drop-drop, length-replicate, drop_all}
use sibench.Base.Bits.{u64, u64_mod}
use sibench.Generator.Bytes.{le_bytes, length-le_bytes, write_at, write_at-append}
use sibench.Generator.Prng.{prng, first_word, put_uint64, put_words, put_zeroes, generate}

abbrev pub words : ℕ → ℕ → List ℕ
words zero next = []
words (suc n) next = le_bytes 8 next ++ words n (prng next)

abbrev pub header : ℕ → ℕ → ℕ → ℕ → List ℕ
header seed size id cycle =
    ((le_bytes 8 size ++ le_bytes 8 cycle) ++ le_bytes 8 seed) ++ le_bytes 8 id

-- The object, whatever was in the buffer: its header, the words of the sequence, and zeroes.
abbrev pub content : ℕ → ℕ → ℕ → ℕ → List ℕ
content seed size id cycle =
    (header seed size id cycle ++ words ((size - 32) / 8) (first_word seed size id cycle))
    ++ replicate ((size - 32) % 8) 0

length-words : (n next : ℕ) → length (words n next) ≡ 8 * n
length-words zero next = refl
length-words (suc n) next = omega (
  arith,
  length-append (le_bytes 8 next) (words n (prng next)),
  length-le_bytes 8 next,
  length-words n (prng next),
)

length-header : (seed size id cycle : ℕ) → length (header seed size id cycle) ≡ 32
length-header seed size id cycle = omega (
  arith,
  length-append ((le_bytes 8 size ++ le_bytes 8 cycle) ++ le_bytes 8 seed) (le_bytes 8 id),
  length-append (le_bytes 8 size ++ le_bytes 8 cycle) (le_bytes 8 seed),
  length-append (le_bytes 8 size) (le_bytes 8 cycle),
  length-le_bytes 8 size,
  length-le_bytes 8 cycle,
  length-le_bytes 8 seed,
  length-le_bytes 8 id,
)

pub length-content :
    (seed size id cycle : ℕ) → 32 ≤ size → length (content seed size id cycle) ≡ size
length-content seed size id cycle h =
    let n = (size - 32) / 8 in
    let w = words n (first_word seed size id cycle) in
    let z : List ℕ = replicate ((size - 32) % 8) 0 in
    omega (
      arith,
      length-append (header seed size id cycle ++ w) z,
      length-append (header seed size id cycle) w,
      length-header seed size id cycle,
      length-words n (first_word seed size id cycle),
      length-replicate ((size - 32) % 8) (let b : ℕ = 0 in b),
    )

-- One write behind a prefix of the buffer.
put_uint64-append :
    (pos v : ℕ) (p r : List ℕ)
    → length p ≡ pos
    → 8 ≤ length r
    → put_uint64 pos v (p ++ r) ≡ some ((p ++ le_bytes 8 v) ++ drop 8 r)
unfolding put_uint64
put_uint64-append pos v p r e h =
    let l = length-le_bytes 8 v in
    rw (← e) (write_at-append p (le_bytes 8 v) r (omega (arith, l)) ∙ rw l)

put_words-append :
    (n pos next : ℕ) (p r : List ℕ)
    → length p ≡ pos
    → 8 * n ≤ length r
    → put_words n pos next (p ++ r) ≡ some ((p ++ words n next) ++ drop (8 * n) r)
unfolding put_words
put_words-append zero pos next p r e h = rw append-nil
put_words-append (suc n) pos next p r e h = rw (put_uint64-append pos next p r e (omega arith)) (
    put_words-append n (pos + 8) (prng next) (p ++ le_bytes 8 next) (drop 8 r)
      (omega (arith, length-append p (le_bytes 8 next), length-le_bytes 8 next, e))
      (omega (arith, length-drop 8 r))
    ∙ (let more : 8 + 8 * n ≡ 8 * suc n = omega arith in
        rw (append_assoc p (le_bytes 8 next) (words n (prng next)), drop-drop (8 * n) 8 r, more)))

write_zero :
    (pos : ℕ) (p r : List ℕ)
    → length p ≡ pos
    → 1 ≤ length r
    → write_at pos (0 ∷ []) (p ++ r) ≡ some ((p ++ (0 ∷ [])) ++ drop 1 r)
write_zero pos p r e h = rw (← e) (write_at-append p (0 ∷ []) r h)

put_zeroes-append :
    (n pos : ℕ) (p r : List ℕ)
    → length p ≡ pos
    → n ≤ length r
    → put_zeroes n pos (p ++ r) ≡ some ((p ++ replicate n 0) ++ drop n r)
unfolding put_zeroes
put_zeroes-append zero pos p r e h = rw append-nil
put_zeroes-append (suc n) pos p r e h = rw (write_zero pos p r e (omega arith)) (
    put_zeroes-append n (pos + 1) (p ++ (0 ∷ [])) (drop 1 r)
      (omega (arith, length-append p (0 ∷ []), e)) (omega (arith, length-drop 1 r))
    ∙ (let more : 1 + n ≡ suc n = omega arith in
        rw (append_assoc p (0 ∷ []) (replicate n 0), drop-drop n 1 r, more)))

-- `Generate` fills any buffer of the right size with the same object.
pub generate_lem :
    (seed size id cycle : ℕ) (buf : List ℕ)
    → length buf ≡ size
    → 32 ≤ size
    → size < u64_mod
    → generate seed size id cycle buf ≡ some (content seed size id cycle)
unfolding generate
generate_lem seed size id cycle buf e h k =
    let rest : u64 (size + u64_mod - 32) ≡ size - 32 = omega arith in
    let n = (size - 32) / 8 in
    let h1 = le_bytes 8 size in
    let h2 = h1 ++ le_bytes 8 cycle in
    let h3 = h2 ++ le_bytes 8 seed in
    let l1 = length-le_bytes 8 size in
    let l2 : length h2 ≡ 16 =
      omega (arith, length-append h1 (le_bytes 8 cycle), l1, length-le_bytes 8 cycle) in
    let l3 : length h3 ≡ 24 =
      omega (arith, length-append h2 (le_bytes 8 seed), l2, length-le_bytes 8 seed) in
    let l4 = length-header seed size id cycle in
    let r1 = drop 8 buf in
    let r2 = drop 8 r1 in
    let r3 = drop 8 r2 in
    let r4 = drop 8 r3 in
    let d1 = length-drop 8 buf in
    let d2 = length-drop 8 r1 in
    let d3 = length-drop 8 r2 in
    let d4 = length-drop 8 r3 in
    let next = first_word seed size id cycle in
    let body = header seed size id cycle ++ words n next in
    let lb : length body ≡ 32 + 8 * n =
      omega (
        arith,
        length-append (header seed size id cycle) (words n next),
        l4,
        length-words n next,
      ) in
    let d5 = length-drop (8 * n) r4 in
    rw rest (
      rw (put_uint64-append 0 size [] buf refl (omega arith)) (
        rw (put_uint64-append 8 cycle h1 r1 l1 (omega (arith, d1))) (
          rw (put_uint64-append 16 seed h2 r2 l2 (omega (arith, d1, d2))) (
            rw (put_uint64-append 24 id h3 r3 l3 (omega (arith, d1, d2, d3))) (
              rw
                (put_words-append n 32 next (header seed size id cycle) r4 l4
                  (omega (arith, d1, d2, d3, d4)))
                (rw
                  (put_zeroes-append ((size - 32) % 8) (32 + 8 * n) body (drop (8 * n) r4) lb
                    (omega (arith, d1, d2, d3, d4, d5)))
                  (rw (
                    drop_all ((size - 32) % 8) (drop (8 * n) r4)
                        (omega (arith, d1, d2, d3, d4, d5)),
                    append-nil,
                  ))))))))
