-- ===== src/Scenarios/Arguments.antt =====
-- The size "1.5k".
use sibench.Base.{some, [], ◌∷◌, ◌≡◌, refl}
use sibench.Units.{expand_units, factor, atoi}
use sibench.Units.Suffixes.{expand_units_lem}

expand_units_lem_example : expand_units (49 ∷ 46 ∷ 53 ∷ 107 ∷ []) ≡ some 5120
unfolding factor atoi
expand_units_lem_example =
    expand_units_lem (49 ∷ 46 ∷ []) 53 [] (107 ∷ []) 1024 refl (refl, tt) refl refl
