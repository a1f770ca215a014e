-- ===== src/Sampler/Mask.antt =====
-- Masking: a row after a mask has, at each index, what it had or negative infinity.
use mathlib.Core.List.{Memᴰ}
use mathlib.Core.Option.{some-injective}
use kairos_engine.Base.{
  ◌||◌, ◌++◌, drop, ℕ, zero, suc, ◌+◌, ◌-◌, ◌<◌, ◌≡◌, ◌≢◌, refl, ap, sym, ◌∙◌, ◌⊎◌, inl, inr, Bool,
  true, false, ◌&&◌, not, Bool-cases, Option, none, some, List, [], ◌∷◌, map, length, get_elem?,
  set, take, list_beq, ltb, get_elem?-set_other, get_elem?-set_self, ◌==◌, ==_iff, if◌then◌else◌,
  arith,
}
use kairos_engine.Sampler.{
  Floats, Sampler, as_usize, mask, suppress_all, mask_id, thought_floor, keep_only, close_only,
  thought_ceiling, thought_budget_spent, ban_loop, ban_repeat_ngram,
}

module _ (fl : Floats) where
  open fl use {F32, neg_infinity}

  -- Each entry of the second row is negative infinity, or stands there in the first.
  abbrev pub Mutes : List F32 → List F32 → Type 0
  Mutes row row' =
      (j : ℕ) (w : F32)
      → get_elem? row' j ≡ some w
      → (w ≡ neg_infinity) ⊎ (get_elem? row j ≡ some w)

  -- The token has no entry, or negative infinity.
  abbrev pub Muted : List F32 → ℕ → Type 0
  Muted row id = (w : F32) → get_elem? row (as_usize id) ≡ some w → w ≡ neg_infinity

  pub Mutes-refl : (row : List F32) → Mutes row row
  Mutes-refl row = λ j w h. inr h

  pub Mutes-trans : (a b c : List F32) → Mutes a b → Mutes b c → Mutes a c
  Mutes-trans a b c f g = λ j w h. go j w (g j w h)
    where
      go :
          (j : ℕ) (w : F32)
          → (w ≡ neg_infinity) ⊎ (get_elem? b j ≡ some w)
          → (w ≡ neg_infinity) ⊎ (get_elem? a j ≡ some w)
      go j w (inl e) = inl e
      go j w (inr h) = f j w h

  pub Muted-Mutes : (row row' : List F32) (id : ℕ) → Mutes row row' → Muted row id → Muted row' id
  Muted-Mutes row row' id f m = λ w h. go w (f (as_usize id) w h)
    where
      go :
          (w : F32) → (w ≡ neg_infinity) ⊎ (get_elem? row (as_usize id) ≡ some w) → w ≡ neg_infinity
      go w (inl e) = e
      go w (inr h) = m w h

  pub mask-Muted : (row : List F32) (id : ℕ) → Muted (mask fl row id) id
  mask-Muted row id = λ w h. get_elem?-set_self row (as_usize id) neg_infinity w h

  set-Mutes : (row : List F32) (i : ℕ) → Mutes row (set row i neg_infinity)
  set-Mutes row i = λ j w h. go j w h (Bool-cases (i == j))
    where
      go :
          (j : ℕ) (w : F32)
          → get_elem? (set row i neg_infinity) j ≡ some w
          → ((i == j) ≡ true) ⊎ ((i == j) ≡ false)
          → (w ≡ neg_infinity) ⊎ (get_elem? row j ≡ some w)
      go j w h (inl e) = inl (
          get_elem?-set_self row i neg_infinity w
            (ap (get_elem? (set row i neg_infinity)) ((==_iff i j).0 e) ∙ h))
      go j w h (inr e) = inr (
          sym (get_elem?-set_other row i j neg_infinity (λ same. clash ((==_iff i j).1 same) e))
          ∙ h)
        where
          clash : {b : Bool} → b ≡ true → b ≡ false → ⊥
          clash e1 e2 = absurd (cc (sym e1 ∙ e2))

  pub suppress_all-Mutes : (row : List F32) (ids : List ℕ) → Mutes row (suppress_all fl row ids)
  unfolding suppress_all
  suppress_all-Mutes row [] = Mutes-refl row
  suppress_all-Mutes row (id ∷ ids) =
      Mutes-trans row (mask fl row id) (suppress_all fl (mask fl row id) ids)
        (set-Mutes row (as_usize id)) (suppress_all-Mutes (mask fl row id) ids)

  pub suppress_all-Muted :
      (row : List F32) (ids : List ℕ) (id : ℕ) → Memᴰ id ids → Muted (suppress_all fl row ids) id
  unfolding suppress_all
  suppress_all-Muted row [] id inside = elim inside [ ]
  suppress_all-Muted row (id' ∷ ids) id (Memᴰ.head e) =
      Muted-Mutes (mask fl row id') (suppress_all fl (mask fl row id') ids) id
        (suppress_all-Mutes (mask fl row id') ids)
        (λ w h.
          mask-Muted row id' w
            (ap (λ (t : ℕ). get_elem? (mask fl row id') (as_usize t)) (sym e) ∙ h))
  suppress_all-Muted row (id' ∷ ids) id (Memᴰ.tail inside) =
      suppress_all-Muted (mask fl row id') ids id inside

  mask_id-Mutes : (row : List F32) (o : Option ℕ) → Mutes row (mask_id fl row o)
  mask_id-Mutes row none = Mutes-refl row
  mask_id-Mutes row (some id) = set-Mutes row (as_usize id)

  pub if-Mutes :
      (b : Bool) (row yes_row : List F32)
      → Mutes row yes_row
      → Mutes row (if b then yes_row else row)
  if-Mutes true row yes_row h = h
  if-Mutes false row yes_row h = Mutes-refl row

  pub thought_floor-Mutes : (s : Sampler fl) (row : List F32) → Mutes row (thought_floor fl s row)
  unfolding thought_floor
  thought_floor-Mutes s row =
      if-Mutes (ltb 0 s.think_min && ltb (length s.history) s.think_min) row
        (mask_id fl row s.think_close) (mask_id-Mutes row s.think_close)

  -- Before the floor is reached the close is muted.
  pub thought_floor-Muted :
      (s : Sampler fl) (row : List F32) (id : ℕ)
      → length s.history < s.think_min
      → s.think_close ≡ some id
      → Muted (thought_floor fl s row) id
  unfolding thought_floor
  thought_floor-Muted s row id h e = rw (due, ap (mask_id fl row) e) (mask-Muted row id)
    where
      due : (ltb 0 s.think_min && ltb (length s.history) s.think_min) ≡ true
      due = ground (arith, h)

  all_muted :
      (ls : List F32) (j : ℕ) (w : F32)
      → get_elem? (map (λ (x : F32). neg_infinity) ls) j ≡ some w
      → w ≡ neg_infinity
  all_muted [] j w h = absurd (cc h)
  all_muted (l ∷ ls) zero w h = sym (some-injective neg_infinity w h)
  all_muted (l ∷ ls) (suc j) w h = all_muted ls j w h

  pub keep_only-Mutes : (i : ℕ) (row : List F32) → Mutes row (keep_only fl i row)
  unfolding keep_only
  keep_only-Mutes i [] = Mutes-refl []
  keep_only-Mutes zero (l ∷ ls) = λ j w h. go j w h
    where
      go :
          (j : ℕ) (w : F32)
          → get_elem? (l ∷ map (λ (x : F32). neg_infinity) ls) j ≡ some w
          → (w ≡ neg_infinity) ⊎ (get_elem? (l ∷ ls) j ≡ some w)
      go zero w h = inr h
      go (suc j) w h = inl (all_muted ls j w h)
  keep_only-Mutes (suc i) (l ∷ ls) = λ j w h. go (keep_only-Mutes i ls) j w h
    where
      go :
          Mutes ls (keep_only fl i ls)
          → (j : ℕ) (w : F32) → get_elem? (neg_infinity ∷ keep_only fl i ls) j ≡ some w
          → (w ≡ neg_infinity) ⊎ (get_elem? (l ∷ ls) j ≡ some w)
      go ih zero w h = inl (sym (some-injective neg_infinity w h))
      go ih (suc j) w h = ih j w h

  pub keep_only-others :
      (i : ℕ) (row : List F32) (j : ℕ) (w : F32)
      → i ≢ j
      → get_elem? (keep_only fl i row) j ≡ some w
      → w ≡ neg_infinity
  unfolding keep_only
  keep_only-others i [] j w ne h = absurd (cc h)
  keep_only-others zero (l ∷ ls) zero w ne h = absurd (ne refl)
  keep_only-others zero (l ∷ ls) (suc j) w ne h = all_muted ls j w h
  keep_only-others (suc i) (l ∷ ls) zero w ne h = sym (some-injective neg_infinity w h)
  keep_only-others (suc i) (l ∷ ls) (suc j) w ne h =
      keep_only-others i ls j w (λ e. ne (ap suc e)) h

  close_only-Mutes : (o : Option ℕ) (row : List F32) → Mutes row (close_only fl o row).1
  close_only-Mutes none row = Mutes-refl row
  close_only-Mutes (some id) row = go (ltb (as_usize id) (length row))
    where
      go :
          (b : Bool)
          → Mutes row
              (if◌then◌else◌ {A = Bool × List F32} b
                (true, keep_only fl (as_usize id) row)
                (false, row)).1
      go true = keep_only-Mutes (as_usize id) row
      go false = Mutes-refl row

  pub thought_ceiling-Mutes :
      (s : Sampler fl) (elapsed : ℕ) (row : List F32)
      → Mutes row (thought_ceiling fl s elapsed row).1
  unfolding thought_ceiling
  thought_ceiling-Mutes s elapsed row = go (not s.think_closed && thought_budget_spent fl s elapsed)
    where
      go : (b : Bool) → Mutes row (if b then close_only fl s.think_close row else (false, row)).1
      go true = close_only-Mutes s.think_close row
      go false = Mutes-refl row

  pub ban_loop-Mutes :
      (sources : ℕ) (seq suffix : List ℕ) (n : ℕ) (row : List F32)
      → Mutes row (ban_loop fl sources seq suffix n row)
  unfolding ban_loop
  ban_loop-Mutes zero seq suffix n row = Mutes-refl row
  ban_loop-Mutes (suc sources) [] suffix n row = Mutes-refl row
  ban_loop-Mutes (suc sources) (x ∷ seq) suffix n row =
      let b = list_beq (take (n - 1) (x ∷ seq)) suffix in
      let here = mask_id fl row (get_elem? (x ∷ seq) (n - 1)) in
      Mutes-trans row (if b then here else row)
        (ban_loop fl sources seq suffix n (if b then here else row))
        (if-Mutes b row here (mask_id-Mutes row (get_elem? (x ∷ seq) (n - 1))))
        (ban_loop-Mutes sources seq suffix n (if b then here else row))

  pub ban_repeat_ngram-Mutes :
      (row : List F32) (prefix history : List ℕ) (n : ℕ)
      → Mutes row (ban_repeat_ngram fl row prefix history n)
  unfolding ban_repeat_ngram
  ban_repeat_ngram-Mutes row prefix history n = go (ltb n 2 || ltb (length (prefix ++ history)) n)
    where
      banned : List F32
      banned =
          ban_loop fl (length (prefix ++ history) - n + 1) (prefix ++ history)
            (drop (length (prefix ++ history) - (n - 1)) (prefix ++ history)) n row

      go : (b : Bool) → Mutes row (if b then row else banned)
      go true = Mutes-refl row
      go false =
          ban_loop-Mutes (length (prefix ++ history) - n + 1) (prefix ++ history)
            (drop (length (prefix ++ history) - (n - 1)) (prefix ++ history)) n row
