-- ===== src/Similarity/Tests.antt =====
-- Signatures that differ in a few bits.
use kairos_engine.Base.{◌≡◌, refl, [], ◌∷◌}
use kairos_engine.Base.Sort.{sort_by}
use kairos_engine.Similarity.{Sig, hamming, nearer_leb, find_similar}

abbrev low : Sig
low = (1, 0, 0, 0)

abbrev high : Sig
high = (7, 0, 0, 1)

three_bits : hamming low high ≡ 3
unfolding hamming
three_bits = refl

nearest_first : find_similar ((2 ∷ [], high) ∷ (1 ∷ [], low) ∷ []) low 1 ≡ (1 ∷ [], 0) ∷ []
unfolding find_similar sort_by nearer_leb
nearest_first = refl
