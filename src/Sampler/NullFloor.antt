-- ===== src/Sampler/NullFloor.antt =====
-- The masks switched off, and the ceiling that applies once.
use kairos_engine.Base.{
  ℕ, ◌<◌, ◌≡◌, refl, ap, sym, ◌∙◌, Bool, true, false, ◌&&◌, ◌||◌, not, some, List, [], ◌∷◌, map,
  length, ltb, leb, ==_refl, arith,
}
use kairos_engine.Argmax.{argmax}
use kairos_engine.Sampler.{
  Floats, Sampler, SamplingParams, with_suppress, masked, suppress_all, thought_floor,
  thought_ceiling, thought_budget_spent, observe, is_id,
}
use kairos_engine.Sampler.Draw.{sample, with_draw}
use kairos_engine.Sampler.Greedy.{sample-greedy}

module _ (fl : Floats) where
  open fl use {F32, neg_infinity, place, at_most_zero}

  -- The tokens that a turn has sampled so far.
  unfoldable pub observes : Sampler fl → List ℕ → Sampler fl
  observes s [] = s
  observes s (t ∷ ts) = observes (observe fl s t) ts

  -- The settings under which every mask is off.
  record Unmasked (s : Sampler fl) : Type 0 where
    no_suppress : s.suppress ≡ []
    no_floor : s.think_min ≡ 0
    no_ceiling : s.think_max ≡ 0
    no_deadline : s.think_max_ms ≡ 0
    no_ngram : s.params.no_repeat_ngram < 2

  observes-Unmasked :
      (s : Sampler fl) (ts : List ℕ)
      → Unmasked s
      → Unmasked (observes s ts)
        × ((observes s ts).params ≡ s.params)
        × ((observes s ts).think_forced ≡ s.think_forced)
  unfolding observes observe
  observes-Unmasked s [] h = (h, refl, refl)
  observes-Unmasked s (t ∷ ts) h = observes-Unmasked (observe fl s t) ts (record {
    no_suppress = h.no_suppress;
    no_floor = h.no_floor;
    no_ceiling = h.no_ceiling;
    no_deadline = h.no_deadline;
    no_ngram = h.no_ngram;
  })

  masked-Unmasked :
      (s : Sampler fl) (elapsed : ℕ) (row : List F32)
      → Unmasked s
      → masked fl s elapsed row ≡ (false, row)
  unfolding masked suppress_all thought_floor thought_ceiling
  masked-Unmasked s elapsed row h = rw (h.no_suppress, floor, ceiling, ngram) refl
    where
      floor : (ltb 0 s.think_min && ltb (length s.history) s.think_min) ≡ false
      floor = rw (h.no_floor) refl

      ceiling : (not s.think_closed && thought_budget_spent fl s elapsed) ≡ false
      ceiling = rw (h.no_ceiling, h.no_deadline) (and_false (not s.think_closed))
        where
          and_false : (b : Bool) → (b && false) ≡ false
          and_false true = refl
          and_false false = refl

      ngram : leb 2 s.params.no_repeat_ngram ≡ false
      ngram = ground (arith, h.no_ngram)

  -- The null floor: a greedy sampler made with no suppressed token and with its n-gram setting below
  -- 2 returns, after any tokens of the turn, exactly the `argmax` of the row, and is left as it was.
  pub sample-null_floor :
      (p : SamplingParams fl) (clock : ℕ) (ts : List ℕ) (zero_f32 : F32) (elapsed : ℕ)
      (row : List F32)
      → at_most_zero p.temperature ≡ true
      → p.no_repeat_ngram < 2
      → 0 < length row
      → sample fl (observes (with_suppress fl p [] clock) ts) zero_f32 elapsed row
        ≡ some (argmax (map place row), observes (with_suppress fl p [] clock) ts)
  sample-null_floor p clock ts zero_f32 elapsed row greedy off pos =
      sample-greedy fl s zero_f32 elapsed row pos
        (ap (λ (q : SamplingParams fl). at_most_zero q.temperature) kept.1 ∙ greedy)
      ∙ ap (λ (m : Bool × List F32). some (with_draw fl s m.0 (argmax (map place m.1), s.rng)))
          (masked-Unmasked s elapsed row kept.0)
      ∙ ap (λ (b : Bool). some (argmax (map place row), record s { think_forced = b }))
          (ap (λ (b : Bool). b || false) kept.2 ∙ sym kept.2)
    where
      s : Sampler fl
      s = observes (with_suppress fl p [] clock) ts

      kept : Unmasked s × (s.params ≡ p) × (s.think_forced ≡ false)
      kept = observes-Unmasked (with_suppress fl p [] clock) ts (record {
        no_suppress = refl;
        no_floor = refl;
        no_ceiling = refl;
        no_deadline = refl;
        no_ngram = off;
      })

  closed_stays :
      (s : Sampler fl) (ts : List ℕ) → s.think_closed ≡ true → (observes s ts).think_closed ≡ true
  unfolding observes observe
  closed_stays s [] h = h
  closed_stays s (t ∷ ts) h = closed_stays (observe fl s t) ts (rw (h) refl)

  -- Once the close has been sampled the ceiling never applies again in the turn, whatever tokens
  -- and however much time follow.
  pub ceiling_once :
      (s : Sampler fl) (id : ℕ) (ts : List ℕ) (elapsed : ℕ) (row : List F32)
      → s.think_close ≡ some id
      → thought_ceiling fl (observes (observe fl s id) ts) elapsed row ≡ (false, row)
  unfolding thought_ceiling observe
  ceiling_once s id ts elapsed row close = rw (closed_stays (observe fl s id) ts shut) refl
    where
      or_true : (b : Bool) → (b || true) ≡ true
      or_true true = refl
      or_true false = refl

      shut : (s.think_closed || is_id fl s.think_close id) ≡ true
      shut = rw (close, ==_refl id) (or_true s.think_closed)
