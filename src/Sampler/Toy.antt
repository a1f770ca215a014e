-- ===== src/Sampler/Toy.antt =====
-- Toy numbers for the tests: an `f32` is its place, and 0 is negative infinity.
use kairos_engine.Base.{ℕ, ◌+◌, ◌-◌, ◌*◌, ◌/◌, Bool, some, ltb, leb, ◌==◌}
use kairos_engine.Base.Sort.{sort_by}
use kairos_engine.Sampler.{Floats, SamplingParams}

abbrev pub descending : ℕ × ℕ → ℕ × ℕ → Bool
descending a b = leb b.1 a.1

abbrev pub toy : Floats
toy = record {
  F32 = ℕ;
  F64 = ℕ;
  place = some;
  neg_infinity = 0;
  at_most_zero = λ x. x == 0;
  above_zero = ltb 0;
  differs_from_one = λ x. ltb 1 x;
  differs_from_zero = ltb 0;
  times = λ x y. x * y;
  over = λ x y. x / y;
  minus = λ x y. x - y;
  at_least_tiny = λ x. x;
  weight = λ l top. l;
  clamped = λ x. x;
  zero_f64 = 0;
  plus = λ x y. x + y;
  over_f64 = λ x y. x;
  times_f64 = λ x y. x * y;
  less = ltb;
  at_least = λ x y. leb y x;
  below_one = λ x. x == 0;
  degenerate = λ x. x == 0;
  unit_fraction = λ bits. 0;
  sort_descending = λ cand. some (sort_by descending cand);
}

abbrev pub greedy : SamplingParams toy
greedy = record {
  temperature = 0;
  top_p = 1;
  top_k = 0;
  repetition_penalty = 1;
  frequency_penalty = 0;
  seed = some 7;
  no_repeat_ngram = 2;
}
