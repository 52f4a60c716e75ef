-- ===== src/Units/Suffixes.antt =====
-- What `expandUnits` makes of an argument that ends in a number and a unit.
use sibench.Base.{
  ℕ, suc, ◌*◌, ◌≤◌, if◌then◌else◌, Bool, true, false, none, some, List, [], ◌∷◌, ◌++◌, length, All,
  ◌≡◌, refl, ap, ◌∙◌, arith, inl, inr, Bool-cases, length-append,
}
use sibench.Base.Bits.{u64}
use sibench.Units.{
  is_digit, digits, behind_digits, factor, atoi, matched, match_here, or_else, find_match, expanded,
  expand_units,
}

abbrev pub ends_in_digit : List ℕ → Bool
ends_in_digit [] = false
ends_in_digit (c ∷ []) = is_digit c
ends_in_digit (c ∷ d ∷ s) = ends_in_digit (d ∷ s)

abbrev pub starts_with_digit : List ℕ → Bool
starts_with_digit [] = false
starts_with_digit (c ∷ s) = is_digit c

-- Behind a text that does not end in a digit, the match of the digits never gets.
length-behind_digits :
    (c : ℕ) (s t : List ℕ)
    → ends_in_digit (c ∷ s) ≡ false
    → suc (length t) ≤ length (behind_digits ((c ∷ s) ++ t))
length-behind_digits c [] t e = rw (e, if◌then◌else◌) (omega arith)
length-behind_digits c (d ∷ s) t e = elim (Bool-cases (is_digit c)) [
  | inl digit ↦ rw (digit, if◌then◌else◌) (length-behind_digits d s t e)
  | inr other ↦ rw (other, if◌then◌else◌) (omega (arith, length-append s t))
]

factor_long : (s : List ℕ) → 2 ≤ length s → factor s ≡ none
unfolding factor
factor_long [] h = absurd (omega arith)
factor_long (c ∷ []) h = absurd (omega arith)
factor_long (c ∷ d ∷ s) h = refl

no_match : (s : List ℕ) → factor (behind_digits s) ≡ none → match_here s ≡ none
unfolding match_here
no_match s e = rw e (none_lem (digits s))
  where
    none_lem : (ds : List ℕ) → matched ds none ≡ none
    none_lem [] = refl
    none_lem (d ∷ ds) = refl

digits-append :
    (ds u : List ℕ)
    → All (λ c. is_digit c ≡ true) ds
    → starts_with_digit u ≡ false
    → digits (ds ++ u) ≡ ds
digits-append [] [] h e = refl
digits-append [] (c ∷ u) h e = rw (e, if◌then◌else◌)
digits-append (d ∷ ds) u (h, hs) e =
    rw (h, if◌then◌else◌) (ap (λ s. d ∷ s) (digits-append ds u hs e))

behind_digits-append :
    (ds u : List ℕ)
    → All (λ c. is_digit c ≡ true) ds
    → starts_with_digit u ≡ false
    → behind_digits (ds ++ u) ≡ u
behind_digits-append [] [] h e = refl
behind_digits-append [] (c ∷ u) h e = rw (e, if◌then◌else◌)
behind_digits-append (d ∷ ds) u (h, hs) e = rw (h, if◌then◌else◌) (behind_digits-append ds u hs e)

number_match :
    (d : ℕ) (ds u : List ℕ) (f : ℕ)
    → All (λ c. is_digit c ≡ true) (d ∷ ds)
    → starts_with_digit u ≡ false
    → factor u ≡ some f
    → match_here ((d ∷ ds) ++ u) ≡ some (d ∷ ds, f)
unfolding match_here
number_match d ds u f h n k =
    let found = digits-append (d ∷ ds) u h n in
    let left = ap factor (behind_digits-append (d ∷ ds) u h n) ∙ k in
    ap (λ xs. matched xs (factor (behind_digits ((d ∷ ds) ++ u)))) found
    ∙ ap (matched (d ∷ ds)) left

find_number :
    (before : List ℕ) (d : ℕ) (ds u : List ℕ) (f : ℕ)
    → ends_in_digit before ≡ false
    → All (λ c. is_digit c ≡ true) (d ∷ ds)
    → starts_with_digit u ≡ false
    → factor u ≡ some f
    → find_match (before ++ ((d ∷ ds) ++ u)) ≡ some (d ∷ ds, f)
unfolding find_match
find_number [] d ds u f e h n k =
    ap (λ o. or_else o (find_match (ds ++ u))) (number_match d ds u f h n k)
find_number (c ∷ before) d ds u f e h n k =
    let t = (d ∷ ds) ++ u in
    let long : 2 ≤ length (behind_digits ((c ∷ before) ++ t)) =
      omega (arith, length-behind_digits c before t e) in
    let skipped = no_match ((c ∷ before) ++ t) (factor_long _ long) in
    ap (λ o. or_else o (find_match (before ++ t))) skipped
    ∙ find_number before d ds u f (shorter c before e) h n k
  where
    shorter : (c : ℕ) (s : List ℕ) → ends_in_digit (c ∷ s) ≡ false → ends_in_digit s ≡ false
    shorter c [] e = refl
    shorter c (d ∷ s) e = e

-- Whatever stands before a number and its unit is skipped, where it does not end in a digit: the
-- result is the number times the factor of the unit, as a uint64.
pub expand_units_lem :
    (before : List ℕ) (d : ℕ) (ds u : List ℕ) (f : ℕ)
    → ends_in_digit before ≡ false
    → All (λ c. is_digit c ≡ true) (d ∷ ds)
    → starts_with_digit u ≡ false
    → factor u ≡ some f
    → expand_units (before ++ ((d ∷ ds) ++ u)) ≡ some (u64 (atoi (d ∷ ds) * f))
unfolding expand_units
expand_units_lem before d ds u f e h n k = ap expanded (find_number before d ds u f e h n k)
