-- ===== src/Manager/Received.antt =====
-- The opcodes that each server gets.
use sibench.Base.{
  ℕ, ◌==◌, if◌then◌else◌, true, false, List, [], ◌∷◌, ◌++◌, map, ◌≡◌, refl, arith, inl, inr,
  Bool-cases, ==_iff,
}
use sibench.Messages.{Opcode}
use sibench.Manager.{Sent, to_server, to_connect, closed, ran_script, known, without}

-- The opcodes sent to the server of the connection `c`, oldest first.
unfoldable pub ops_to : ℕ → List Sent → List Opcode
ops_to c [] = []
ops_to c (to_server d op ∷ sent) = let rest = ops_to c sent in if c == d then op ∷ rest else rest
ops_to c (to_connect d o ∷ sent) =
    let rest = ops_to c sent in if c == d then Opcode.connect ∷ rest else rest
ops_to c (_ ∷ sent) = ops_to c sent

pub ops_to-append : (c : ℕ) (xs ys : List Sent) → ops_to c (xs ++ ys) ≡ ops_to c xs ++ ops_to c ys
unfolding ops_to
ops_to-append c [] ys = refl
ops_to-append c (to_server d op ∷ xs) ys = ground (arith, ops_to-append c xs ys)
ops_to-append c (to_connect d o ∷ xs) ys = ground (arith, ops_to-append c xs ys)
ops_to-append c (closed d ∷ xs) ys = ops_to-append c xs ys
ops_to-append c (ran_script b ∷ xs) ys = ops_to-append c xs ys

-- No connection occurs twice.
abbrev pub IsDistinct : List ℕ → Type 0
IsDistinct [] = Unit
IsDistinct (c ∷ cs) = (known c cs ≡ false) × IsDistinct cs

pub ops_to-unknown :
    (c : ℕ) (op : Opcode) (cs : List ℕ)
    → known c cs ≡ false
    → ops_to c (map (λ d. to_server d op) cs) ≡ []
unfolding ops_to
ops_to-unknown c op [] h = refl
ops_to-unknown c op (d ∷ cs) h = ground (arith, ops_to-unknown c op cs)

pub ops_to-known :
    (c : ℕ) (op : Opcode) (cs : List ℕ)
    → IsDistinct cs
    → known c cs ≡ true
    → ops_to c (map (λ d. to_server d op) cs) ≡ op ∷ []
unfolding ops_to
ops_to-known c op [] d h = cc
ops_to-known c op (e ∷ cs) (n, d) h = elim (Bool-cases (c == e)) [
  | inl same ↦
      (let eq = (==_iff c e).0 same in
        let absent : known c cs ≡ false = rw eq n in
        rw (same, if◌then◌else◌) (rw (ops_to-unknown c op cs absent)))
  | inr other ↦ ground (arith, ops_to-known c op cs d)
]

pub without-known : (c e : ℕ) (cs : List ℕ) → known e (without c cs) ≡ true → known e cs ≡ true
without-known c e [] h = h
without-known c e (d ∷ cs) h = ground (arith, without-known c e cs)

pub without-unknown : (c e : ℕ) (cs : List ℕ) → known e cs ≡ false → known e (without c cs) ≡ false
without-unknown c e [] h = h
without-unknown c e (d ∷ cs) h = ground (arith, without-unknown c e cs)

pub without-IsDistinct : (c : ℕ) (cs : List ℕ) → IsDistinct cs → IsDistinct (without c cs)
without-IsDistinct c [] h = h
without-IsDistinct c (d ∷ cs) (n, h) = elim (Bool-cases (c == d)) [
  | inl same ↦ rw (same, if◌then◌else◌) h
  | inr other ↦ rw (other, if◌then◌else◌) (without-unknown c d cs n, without-IsDistinct c cs h)
]
