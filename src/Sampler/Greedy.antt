-- ===== src/Sampler/Greedy.antt =====
-- The greedy return of `Sampler::sample`: the token it takes from a row without NaN.
use mathlib.Core.Option.{some-injective}
use kairos_engine.Base.{
  ℕ, zero, suc, ◌^◌, ◌≤◌, ◌<◌, ◌≡◌, refl, ap, sym, ◌∙◌, ◌⊎◌, inl, inr, true, some, List, [], ◌∷◌,
  map, length, get_elem?, get_elem?-lt, arith,
}
use kairos_engine.Argmax.{Logit, argmax}
use kairos_engine.Argmax.Ties.{row, IsLastMax, argmax-IsLastMax}
use kairos_engine.Sampler.{Floats, Sampler, masked}
use kairos_engine.Sampler.Mask.{Mutes}
use kairos_engine.Sampler.Masked.{length-masked, masked-Mutes}
use kairos_engine.Sampler.Allowed.{Live, Allowed, masked-Allowed, as_usize_small}
use kairos_engine.Sampler.Draw.{is_greedy, sample, with_draw}

module _ (fl : Floats) where
  open fl use {F32, neg_infinity, place}

  -- No entry is NaN.
  abbrev pub NoNan : List F32 → Type 0
  NoNan ls = (j : ℕ) (w : F32) → get_elem? ls j ≡ some w → (v : ℕ) × (place w ≡ some v)

  pub Mutes-NoNan :
      (ls ls' : List F32) → place neg_infinity ≡ some 0 → Mutes fl ls ls' → NoNan ls → NoNan ls'
  Mutes-NoNan ls ls' low f total = λ j w h. go j w (f j w h)
    where
      go :
          (j : ℕ) (w : F32)
          → (w ≡ neg_infinity) ⊎ (get_elem? ls j ≡ some w)
          → (v : ℕ) × (place w ≡ some v)
      go j w (inl e) = (0, ap place e ∙ low)
      go j w (inr e) = total j w e

  -- The places of such a row.
  places : (ls : List F32) → NoNan ls → (vs : List ℕ) × (map place ls ≡ row vs)
  places [] total = ([], refl)
  places (l ∷ ls) total =
      let (v, e) = total 0 l refl in
      let (vs, es) = places ls (λ j w h. total (suc j) w h) in (v ∷ vs, rw (e, es) refl)

  get_elem?-row :
      (vs : List ℕ) (i v : ℕ) → get_elem? vs i ≡ some v → get_elem? (row vs) i ≡ some (some v)
  get_elem?-row [] i v h = absurd (cc h)
  get_elem?-row (x ∷ vs) zero v h = ap some h
  get_elem?-row (x ∷ vs) (suc i) v h = get_elem?-row vs i v h

  row-get_elem? :
      (vs : List ℕ) (i v : ℕ) → get_elem? (row vs) i ≡ some (some v) → get_elem? vs i ≡ some v
  row-get_elem? [] i v h = absurd (cc h)
  row-get_elem? (x ∷ vs) zero v h = some-injective (some x) (some v) h
  row-get_elem? (x ∷ vs) (suc i) v h = row-get_elem? vs i v h

  get_elem?-place :
      (ls : List F32) (i : ℕ) (o : Logit)
      → get_elem? (map place ls) i ≡ some o
      → (w : F32) × (get_elem? ls i ≡ some w) × (place w ≡ o)
  get_elem?-place [] i o h = absurd (cc h)
  get_elem?-place (l ∷ ls) zero o h = (l, refl, some-injective (place l) o h)
  get_elem?-place (l ∷ ls) (suc i) o h = get_elem?-place ls i o h

  place-get_elem? :
      (ls : List F32) (i : ℕ) (w : F32)
      → get_elem? ls i ≡ some w
      → get_elem? (map place ls) i ≡ some (place w)
  place-get_elem? [] i w h = absurd (cc h)
  place-get_elem? (l ∷ ls) zero w h = ap (λ (x : F32). some (place x)) (some-injective l w h)
  place-get_elem? (l ∷ ls) (suc i) w h = place-get_elem? ls i w h

  -- Where the row has a logit above negative infinity, `argmax` finds the greatest one.
  record Found (ls : List F32) (t : ℕ) : Type 0 where
    w : F32
    at : get_elem? ls t ≡ some w
    top : ℕ
    placed : place w ≡ some top
    bound : (j v : ℕ) (u : F32) → get_elem? ls j ≡ some u → place u ≡ some v → v ≤ top

  argmax-Found : (ls : List F32) → NoNan ls → 0 < length ls → Found ls (argmax (map place ls))
  argmax-Found ls total lt = go (places ls total).0 (places ls total).1
    where
      go : (vs : List ℕ) → map place ls ≡ row vs → Found ls (argmax (map place ls))
      go [] e = absurd (empty ls lt e)
        where
          empty : (ls : List F32) → 0 < length ls → map place ls ≡ row [] → ⊥
          empty [] lt e = absurd (omega (arith, lt))
          empty (l ∷ ls) lt e = absurd (cc e)
      go (v ∷ vs) e = record {
        w = hit.0;
        at = hit.1;
        top = best.0;
        placed = hit.2;
        bound = λ j x u h p. best.1.bound j x (
            row-get_elem? (v ∷ vs) j x (
              ap (λ (r : List Logit). get_elem? r j) (sym e)
              ∙ place-get_elem? ls j u h
              ∙ ap some p));
      }
        where
          best : (top : ℕ) × IsLastMax (v ∷ vs) (argmax (row (v ∷ vs))) top
          best = argmax-IsLastMax v vs

          hit :
              (w : F32) × (get_elem? ls (argmax (map place ls)) ≡ some w) × (place w ≡ some best.0)
          hit = get_elem?-place ls (argmax (map place ls)) (some best.0) (
              ap (λ (r : List Logit). get_elem? r (argmax (map place ls))) e
              ∙ ap (λ (r : List Logit). get_elem? (row (v ∷ vs)) (argmax r)) e
              ∙ get_elem?-row (v ∷ vs) (argmax (row (v ∷ vs))) best.0 best.1.at)

  -- The greedy return on a row that is not empty.
  pub sample-greedy :
      (s : Sampler fl) (zero_f32 : F32) (elapsed : ℕ) (ls : List F32)
      → 0 < length ls
      → is_greedy fl s ≡ true
      → sample fl s zero_f32 elapsed ls
        ≡ some (
            with_draw fl s
              (masked fl s elapsed ls).0
              (argmax (map place (masked fl s elapsed ls).1), s.rng))
  unfolding sample
  sample-greedy s zero_f32 elapsed [] lt greedy = absurd (omega (arith, lt))
  sample-greedy s zero_f32 elapsed (l ∷ ls) lt greedy = rw (greedy) refl

  -- At temperature 0, on a row without NaN of at most 2 ^ 31 entries of which the masks leave one
  -- above negative infinity, a token is sampled that is in range and has the logit that the model
  -- gave it, is not suppressed, and does not close the thought below its floor; it is the close if
  -- the thought is open, its budget spent and the close in the row; and if the n-gram setting is at
  -- least 2 and prompt and reply repeat no n-gram, they repeat none with the token either.
  pub sample-Allowed :
      (s : Sampler fl) (zero_f32 : F32) (elapsed : ℕ) (ls : List F32) (j v : ℕ) (u : F32)
      → place neg_infinity ≡ some 0
      → NoNan ls
      → length ls ≤ 2 ^ 31
      → is_greedy fl s ≡ true
      → get_elem? (masked fl s elapsed ls).1 j ≡ some u
      → place u ≡ some (suc v)
      → (t : ℕ) × (s' : Sampler fl) × (sample fl s zero_f32 elapsed ls ≡ some (t, s'))
        × Allowed fl s elapsed ls t
  sample-Allowed s zero_f32 elapsed ls j v u low total small greedy at above = (
    t,
    (with_draw fl s (masked fl s elapsed ls).0 (t, s.rng)).1,
    sample-greedy s zero_f32 elapsed ls some_entry greedy,
    masked-Allowed fl s elapsed ls t found.w inside small live,
  )
    where
      m : List F32
      m = (masked fl s elapsed ls).1

      t : ℕ
      t = argmax (map place m)

      len : length m ≡ length ls
      len = length-masked fl s elapsed ls

      some_entry : 0 < length ls
      some_entry = omega (arith, len, get_elem?-lt m j at)

      found : Found m t
      found =
          argmax-Found m (Mutes-NoNan ls m low (masked-Mutes fl s elapsed ls) total)
            (omega (arith, len, some_entry))

      inside : t < length ls
      inside = omega (arith, len, get_elem?-lt m t found.at)

      live : Live fl m t found.w
      live = record {
        at = ap (get_elem? m) (as_usize_small t (omega (arith, inside, small))) ∙ found.at;
        live =
            λ e. not_low (some-injective 0 found.top (sym low ∙ ap place (sym e) ∙ found.placed));
      }
        where
          not_low : 0 ≡ found.top → ⊥
          not_low e = absurd (omega (arith, e, found.bound j (suc v) u at above))
