-- ===== src/Sampler/Draw.antt =====
-- `Sampler::sample`: the greedy return, and the draw from the truncated distribution.
use kairos_engine.Base.{
  ℕ, zero, suc, ◌+◌, ◌-◌, ◌/◌, ◌^◌, min, max, Bool, not, ◌&&◌, ◌||◌, Option, none, some, List, [],
  ◌∷◌, ◌>>=◌, map, length, get_elem?, set, take, ltb, ◌==◌, if◌then◌else◌,
}
use kairos_engine.Argmax.{argmax}
use kairos_engine.Sampler.{Floats, SamplingParams, Sampler, as_usize, next_u64, contains, masked}

module _ (fl : Floats) where
  open fl use {
    F32, F64, place, at_most_zero, above_zero, differs_from_one, differs_from_zero, times, over,
    minus, at_least_tiny, weight, clamped, zero_f64, plus, over_f64, times_f64, less, at_least,
    below_one, degenerate, unit_fraction, sort_descending,
  }

  abbrev pub is_greedy : Sampler fl → Bool
  is_greedy s = at_most_zero s.params.temperature

  -- The penalties of one token of the history: the first of a token scales its logit, each one
  -- lowers it.
  abbrev pub scaled : SamplingParams fl → Bool → F32 → F32
  scaled p first l =
      if differs_from_one p.repetition_penalty && first
      then (if above_zero l then over l p.repetition_penalty else times l p.repetition_penalty)
      else l

  abbrev pub lowered : SamplingParams fl → F32 → F32
  lowered p l = if differs_from_zero p.frequency_penalty then minus l p.frequency_penalty else l

  abbrev pub penalize_at : SamplingParams fl → Bool → ℕ → Option F32 → List F32 → List F32
  penalize_at p first i none logits = logits
  penalize_at p first i (some l) logits = set logits i (lowered p (scaled p first l))

  -- The walk over the history; `seen_rep` holds the tokens met so far.
  unfoldable pub penalize : SamplingParams fl → List ℕ → List ℕ → List F32 → List F32
  penalize p seen_rep [] logits = logits
  penalize p seen_rep (t ∷ ts) logits = penalize p (t ∷ seen_rep) ts (
      penalize_at p (not (contains seen_rep t)) (as_usize t) (get_elem? logits (as_usize t)) logits)

  unfoldable pub penalized : Sampler fl → List F32 → List F32
  unfolding penalize
  penalized s logits =
      if differs_from_one s.params.repetition_penalty
        || differs_from_zero s.params.frequency_penalty
      then penalize s.params [] s.history logits
      else logits

  -- `enumerate`
  unfoldable pub enumerate : ℕ → List F32 → List (ℕ × F32)
  enumerate i [] = []
  enumerate i (l ∷ ls) = (i, l) ∷ enumerate (i + 1) ls

  -- The penalized row over the temperature.
  abbrev pub tempered : Sampler fl → List F32 → List F32
  tempered s logits =
      map (λ (l : F32). over l (at_least_tiny s.params.temperature)) (penalized s logits)

  -- The candidates after the top-k truncation; `none` is a panic of the sort.
  unfoldable pub candidates : Sampler fl → List F32 → Option (List (ℕ × F32))
  unfolding enumerate penalized
  candidates s logits = sort_descending (enumerate 0 (tempered s logits)) >>= (λ cand.
      some
        (take (if s.params.top_k == 0 then length cand else min s.params.top_k (length cand)) cand))

  unfoldable pub sum_from : F64 → List F64 → F64
  sum_from acc [] = acc
  sum_from acc (p ∷ ps) = sum_from (plus acc p) ps

  -- The length of the smallest prefix whose mass reaches `top_p`, or of the whole.
  unfoldable pub nucleus_loop : F64 → F64 → ℕ → List F64 → ℕ
  nucleus_loop top_p acc i [] = i
  nucleus_loop top_p acc i (p ∷ ps) =
      let rest = nucleus_loop top_p (plus acc p) (i + 1) ps in
      if at_least (plus acc p) top_p then i + 1 else rest

  unfoldable pub nucleus : F64 → List F64 → ℕ
  unfolding nucleus_loop
  nucleus top_p probs =
      max (if below_one top_p then nucleus_loop top_p zero_f64 0 probs else length probs) 1

  -- The index of the first candidate past whose mass the draw does not fall; the last one else.
  unfoldable pub pick : F64 → F64 → ℕ → List F64 → ℕ
  pick r acc i [] = i - 1
  pick r acc i (p ∷ ps) =
      let rest = pick r (plus acc p) (i + 1) ps in if less r (plus acc p) then i else rest

  -- `cand[i].0`; `none` is the panic past the end.
  abbrev pub id_at : List (ℕ × F32) → ℕ → Option ℕ
  id_at [] i = none
  id_at ((k, l) ∷ cand) zero = some k
  id_at ((k, l) ∷ cand) (suc i) = id_at cand i

  abbrev pub first_id : List (ℕ × F32) → ℕ
  first_id [] = 0
  first_id ((k, l) ∷ cand) = k

  abbrev pub first_logit : List (ℕ × F32) → F32 → F32
  first_logit [] l = l
  first_logit ((i, l) ∷ cand) default = l

  -- The draw over the probabilities of the candidates: the token and the generator after it. A
  -- nucleus past the candidates is a panic.
  unfoldable pub draw : F64 → ℕ → List (ℕ × F32) → List F64 → Option (ℕ × ℕ)
  unfolding sum_from nucleus pick next_u64
  draw top_p rng cand probs =
      let n = nucleus top_p probs in
      let (bits, rng') = next_u64 rng in
      let r = times_f64 (unit_fraction (bits / 2 ^ 11)) (sum_from zero_f64 (take n probs)) in
      if ltb (length probs) n
      then none
      else id_at cand (pick r zero_f64 0 (take n probs)) >>= (λ token. some (token, rng'))

  -- The softmax over the candidates and the draw; a degenerate sum takes the first candidate and
  -- leaves the generator.
  unfoldable pub draw_from : Sampler fl → F32 → List (ℕ × F32) → Option (ℕ × ℕ)
  unfolding draw
  draw_from s zero_f32 cand =
      let top = first_logit cand zero_f32 in
      let weights = map (λ (c : ℕ × F32). weight c.1 top) cand in
      let sum = sum_from zero_f64 weights in
      if degenerate sum
      then some (first_id cand, s.rng)
      else draw (clamped s.params.top_p) s.rng cand (map (λ (p : F64). over_f64 p sum) weights)

  abbrev pub with_draw : Sampler fl → Bool → ℕ × ℕ → ℕ × Sampler fl
  with_draw s forced (token, rng') =
      (token, record s { rng = rng'; think_forced = s.think_forced || forced })

  abbrev pub choose : Sampler fl → F32 → Bool × List F32 → Option (ℕ × Sampler fl)
  choose s zero_f32 (forced, logits) =
      (if is_greedy s
        then some (argmax (map place logits), s.rng)
        else candidates s logits >>= (λ cand. draw_from s zero_f32 cand))
      >>= (λ drawn. some (with_draw s forced drawn))

  -- Sampler::sample: the token and the sampler after it; `none` is a panic. `elapsed` is the time
  -- since the turn began in milliseconds, `zero_f32` the constant 0.0.
  unfoldable pub sample : Sampler fl → F32 → ℕ → List F32 → Option (ℕ × Sampler fl)
  unfolding masked draw_from candidates
  sample s zero_f32 elapsed [] = some (0, s)
  sample s zero_f32 elapsed (l ∷ ls) = choose s zero_f32 (masked fl s elapsed (l ∷ ls))
