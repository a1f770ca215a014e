-- ===== src/Argmax/Tests.antt =====
-- A row whose greatest value stands at two places.
use kairos_engine.Base.{◌≡◌, refl, [], ◌∷◌}
use kairos_engine.Argmax.{argmax, dialogue_argmax}
use kairos_engine.Argmax.Ties.{row}

last_wins : argmax (row (1 ∷ 5 ∷ 5 ∷ [])) ≡ 2
unfolding argmax
last_wins = refl

first_wins : dialogue_argmax (row (1 ∷ 5 ∷ 5 ∷ [])) ≡ 1
unfolding dialogue_argmax
first_wins = refl
