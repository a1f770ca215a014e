-- ===== src/Recall/Match/Tests.antt =====
-- Two episodes of which the second agrees better.
use kairos_engine.Base.Bits.{count_ones}
use kairos_engine.Base.{◌≡◌, refl, some, List, [], ◌∷◌}
use kairos_engine.Similarity.{Sig}
use kairos_engine.Recall.Match.{Episode, agree, match_loop, best_match}
use kairos_engine.Recall.Match.Best.{agreements, BestOf, best_match-BestOf}

abbrev query : Sig
query = (5, 0, 0, 0)

abbrev registry : List Episode
registry =
    (record { name = []; text = []; sig = (0, 0, 0, 0) })
    ∷ (record { name = []; text = []; sig = (4, 0, 0, 0) })
    ∷ (record { name = []; text = []; sig = (1, 0, 0, 0) })
    ∷ []

test-best_match : best_match query registry ≡ some (1, 255)
unfolding best_match match_loop agree count_ones
test-best_match = refl

best_match-BestOf_example : BestOf (agreements query registry) (best_match query registry)
best_match-BestOf_example = best_match-BestOf query registry
