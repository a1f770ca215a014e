-- ===== src/Sampler/Tests.antt =====
-- Samplers over the toy numbers.
use mathlib.Core.List.Permᴰ
use kairos_engine.Base.{ℕ, ◌≡◌, refl, true, false, some, List, [], ◌∷◌, map, list_beq, arith}
use kairos_engine.Base.Sort.{sort_by}
use kairos_engine.Argmax.{argmax}
use kairos_engine.Sampler.{
  SamplingParams, Sampler, with_suppress, set_min_thought, set_max_thought, set_ngram_prefix,
  masked, suppress_all, thought_floor, thought_ceiling, keep_only, ban_loop, ban_repeat_ngram,
  next_u64,
}
use kairos_engine.Sampler.Toy.{toy, greedy}
use kairos_engine.Sampler.Draw.{sample, candidates, penalize, penalized, enumerate}
use kairos_engine.Sampler.Allowed.{Allowed}
use kairos_engine.Sampler.Greedy.{sample-Allowed}
use kairos_engine.Sampler.NullFloor.{observes, sample-null_floor}

abbrev warm : SamplingParams toy
warm = record greedy { temperature = 1; repetition_penalty = 2; top_k = 2 }

-- 3 is suppressed, 2 closes the thought, which has a floor of 2, and the prompt is 0 1.
abbrev fresh : Sampler toy
fresh =
    set_ngram_prefix toy (set_min_thought toy (with_suppress toy greedy (3 ∷ []) 0) (some 2) 2)
      (0 ∷ 1 ∷ [])

abbrev after_zero : Sampler toy
after_zero = record fresh { history = 0 ∷ [] }

abbrev row : List ℕ
row = 4 ∷ 9 ∷ 8 ∷ 9 ∷ 5 ∷ []

-- The ban takes 1 after 0, the floor takes 2 and the suppression 3.
test-masked : masked toy after_zero 0 row ≡ (false, 4 ∷ 0 ∷ 0 ∷ 0 ∷ 5 ∷ [])
unfolding masked suppress_all thought_floor thought_ceiling keep_only ban_repeat_ngram ban_loop
    list_beq
test-masked = refl

sample-Allowed_example :
    (t : ℕ) × (s' : Sampler toy) × (sample toy after_zero 0 0 row ≡ some (t, s'))
    × Allowed toy after_zero 0 row t
unfolding masked suppress_all thought_floor thought_ceiling keep_only ban_repeat_ngram ban_loop
    list_beq
sample-Allowed_example =
    sample-Allowed toy after_zero 0 0 row 4 4 5 refl (λ j w h. (w, refl)) (omega arith) refl refl
      refl

sample-null_floor_example :
    sample toy
      (observes toy (with_suppress toy (record greedy { no_repeat_ngram = 0 }) [] 0) (1 ∷ []))
      0
      0
      row
    ≡ some (
      argmax (map some row),
      observes toy (with_suppress toy (record greedy { no_repeat_ngram = 0 }) [] 0) (1 ∷ []),
    )
sample-null_floor_example =
    sample-null_floor toy (record greedy { no_repeat_ngram = 0 }) 0 (1 ∷ []) 0 0 row refl
      (omega arith) (omega arith)

-- The prompt has the close after 0: the ceiling leaves the close alone and the ban takes it too, so
-- the last index of the row comes out.
test-ceiling_banned :
    masked toy
      (record (set_max_thought toy after_zero (some 2) 1 0) {
        ngram_prefix = 0 ∷ 2 ∷ [];
        think_min = 0;
      })
      0
      row
    ≡ (true, 0 ∷ 0 ∷ 0 ∷ 0 ∷ 0 ∷ [])
unfolding masked suppress_all thought_floor thought_ceiling keep_only ban_repeat_ngram ban_loop
    list_beq
test-ceiling_banned = refl

-- The vector 1 of SplitMix64 from the state 0.
test-next_u64 : (next_u64 0).0 ≡ 0xE220A8397B1DCDAF
unfolding next_u64
test-next_u64 = refl

-- The first token of the history is halved once and the row is cut to two candidates.
test-candidates :
    candidates toy (record (with_suppress toy warm [] 0) { history = 1 ∷ 1 ∷ [] }) row
    ≡ some ((3, 9) ∷ (2, 8) ∷ [])
unfolding candidates penalized penalize enumerate sort_by
test-candidates = refl
