-- ===== src/Units.antt =====
-- The sizes and bandwidths of the command line (`expandUnits` of src/sibench/main.go), on the bytes
-- of an argument.
pub mod Suffixes
use sibench.Base.{
  ℕ, suc, ◌+◌, ◌-◌, ◌*◌, ◌^◌, ◌==◌, ltb, leb, if◌then◌else◌, Bool, true, false, ◌&&◌, ◌||◌, Option,
  none, some, List, [], ◌∷◌,
}
use sibench.Base.Bits.{u64}

-- The class [0-9].
abbrev pub is_digit : ℕ → Bool
is_digit c = leb 48 c && leb c 57

-- The digits at the start, and what follows them.
abbrev pub digits : List ℕ → List ℕ
digits [] = []
digits (c ∷ s) = let rest = digits s in if is_digit c then c ∷ rest else []

abbrev pub behind_digits : List ℕ → List ℕ
behind_digits [] = []
behind_digits (c ∷ s) = let rest = behind_digits s in if is_digit c then rest else c ∷ s

-- The factor of a unit, in lower case or in upper case, which may be left out; `none` is no unit.
unfoldable pub factor : List ℕ → Option ℕ
factor [] = some 1
factor (c ∷ []) =
    if c == 107 || c == 75
    then some 1024
    else if c == 109 || c == 77
    then some (1024 * 1024)
    else if c == 103 || c == 71
    then some (1024 * 1024 * 1024)
    else none
factor (c ∷ d ∷ s) = none

-- The number of a row of digits, where `n` stands before them.
abbrev pub number : ℕ → List ℕ → ℕ
number n [] = n
number n (c ∷ s) = number (n * 10 + (c - 48)) s

-- `strconv.Atoi`, which gives the greatest int with an error that is dropped where the number is
-- greater.
unfoldable pub atoi : List ℕ → ℕ
atoi s = if ltb (number 0 s) (2 ^ 63) then number 0 s else 2 ^ 63 - 1

abbrev pub matched : List ℕ → Option ℕ → Option (List ℕ × ℕ)
matched [] f = none
matched (d ∷ ds) none = none
matched (d ∷ ds) (some f) = some (d ∷ ds, f)

-- A match of the expression that starts at the first byte: its digits and its factor.
unfoldable pub match_here : List ℕ → Option (List ℕ × ℕ)
match_here s = matched (digits s) (factor (behind_digits s))

abbrev pub or_else : Option (List ℕ × ℕ) → Option (List ℕ × ℕ) → Option (List ℕ × ℕ)
or_else none later = later
or_else (some found) later = some found

-- `FindStringSubmatch`, the match that starts first.
unfoldable pub find_match : List ℕ → Option (List ℕ × ℕ)
find_match [] = none
find_match (c ∷ s) = or_else (match_here (c ∷ s)) (find_match s)

abbrev pub expanded : Option (List ℕ × ℕ) → Option ℕ
expanded none = none
expanded (some (ds, f)) = some (u64 (atoi ds * f))

-- `none` is an error.
unfoldable pub expand_units : List ℕ → Option ℕ
expand_units s = expanded (find_match s)
