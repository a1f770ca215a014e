-- ===== src/Sampler/Masked.antt =====
-- What the masks of `Sampler::sample` leave: the row keeps its length, and a token that still has
-- its logit is allowed by each of them.
use kairos_engine.Base.{
  ℕ, zero, suc, ◌+◌, ◌-◌, ◌≡◌, refl, ap, ◌∙◌, Bool, true, false, ◌&&◌, ◌||◌, not, Option, none,
  some, List, [], ◌∷◌, ◌++◌, map, length, get_elem?, take, drop, list_beq, ltb, leb, length-set,
  if◌then◌else◌,
}
use kairos_engine.Sampler.{
  Floats, Sampler, as_usize, mask, suppress_all, mask_id, thought_floor, keep_only, close_only,
  thought_ceiling, thought_budget_spent, ban_loop, ban_repeat_ngram, masked,
}
use kairos_engine.Sampler.Mask.{
  Mutes, Mutes-trans, suppress_all-Mutes, thought_floor-Mutes, thought_ceiling-Mutes,
  ban_repeat_ngram-Mutes, if-Mutes,
}

module _ (fl : Floats) where
  open fl use {F32, neg_infinity}

  length-if :
      (b : Bool) (row yes_row : List F32)
      → length yes_row ≡ length row
      → length (if b then yes_row else row) ≡ length row
  length-if true row yes_row h = h
  length-if false row yes_row h = refl

  length-suppress_all :
      (row : List F32) (ids : List ℕ) → length (suppress_all fl row ids) ≡ length row
  unfolding suppress_all
  length-suppress_all row [] = refl
  length-suppress_all row (id ∷ ids) =
      length-suppress_all (mask fl row id) ids ∙ length-set row (as_usize id) neg_infinity

  length-mask_id : (row : List F32) (o : Option ℕ) → length (mask_id fl row o) ≡ length row
  length-mask_id row none = refl
  length-mask_id row (some id) = length-set row (as_usize id) neg_infinity

  length-thought_floor :
      (s : Sampler fl) (row : List F32) → length (thought_floor fl s row) ≡ length row
  unfolding thought_floor
  length-thought_floor s row =
      length-if (ltb 0 s.think_min && ltb (length s.history) s.think_min) row
        (mask_id fl row s.think_close) (length-mask_id row s.think_close)

  length-fill : (ls : List F32) → length (map (λ (x : F32). neg_infinity) ls) ≡ length ls
  length-fill [] = refl
  length-fill (l ∷ ls) = ap suc (length-fill ls)

  length-keep_only : (i : ℕ) (row : List F32) → length (keep_only fl i row) ≡ length row
  unfolding keep_only
  length-keep_only i [] = refl
  length-keep_only zero (l ∷ ls) = ap suc (length-fill ls)
  length-keep_only (suc i) (l ∷ ls) = ap suc (length-keep_only i ls)

  length-thought_ceiling :
      (s : Sampler fl) (elapsed : ℕ) (row : List F32)
      → length (thought_ceiling fl s elapsed row).1 ≡ length row
  unfolding thought_ceiling
  length-thought_ceiling s elapsed row =
      go (not s.think_closed && thought_budget_spent fl s elapsed) s.think_close
    where
      kept :
          (id : ℕ) (b : Bool)
          → length
              (if◌then◌else◌ {A = Bool × List F32} b
                (true, keep_only fl (as_usize id) row)
                (false, row)).1
            ≡ length row
      kept id true = length-keep_only (as_usize id) row
      kept id false = refl

      go :
          (b : Bool) (o : Option ℕ)
          → length (if◌then◌else◌ {A = Bool × List F32} b (close_only fl o row) (false, row)).1
            ≡ length row
      go true none = refl
      go true (some id) = kept id (ltb (as_usize id) (length row))
      go false o = refl

  length-ban_loop :
      (sources : ℕ) (seq suffix : List ℕ) (n : ℕ) (row : List F32)
      → length (ban_loop fl sources seq suffix n row) ≡ length row
  unfolding ban_loop
  length-ban_loop zero seq suffix n row = refl
  length-ban_loop (suc sources) [] suffix n row = refl
  length-ban_loop (suc sources) (x ∷ seq) suffix n row =
      let b = list_beq (take (n - 1) (x ∷ seq)) suffix in
      let here = mask_id fl row (get_elem? (x ∷ seq) (n - 1)) in
      length-ban_loop sources seq suffix n (if b then here else row)
      ∙ length-if b row here (length-mask_id row (get_elem? (x ∷ seq) (n - 1)))

  length-ban_repeat_ngram :
      (row : List F32) (prefix history : List ℕ) (n : ℕ)
      → length (ban_repeat_ngram fl row prefix history n) ≡ length row
  unfolding ban_repeat_ngram
  length-ban_repeat_ngram row prefix history n = go (ltb n 2 || ltb (length (prefix ++ history)) n)
    where
      banned : List F32
      banned =
          ban_loop fl (length (prefix ++ history) - n + 1) (prefix ++ history)
            (drop (length (prefix ++ history) - (n - 1)) (prefix ++ history)) n row

      go : (b : Bool) → length (if b then row else banned) ≡ length row
      go true = refl
      go false =
          length-ban_loop (length (prefix ++ history) - n + 1) (prefix ++ history)
            (drop (length (prefix ++ history) - (n - 1)) (prefix ++ history)) n row

  -- The row after the suppression and the floor, and after the ceiling.
  abbrev pub floored : Sampler fl → List F32 → List F32
  floored s row = thought_floor fl s (suppress_all fl row s.suppress)

  abbrev pub ceiled : Sampler fl → ℕ → List F32 → List F32
  ceiled s elapsed row = (thought_ceiling fl s elapsed (floored s row)).1

  abbrev banned : Sampler fl → ℕ → List F32 → List F32
  banned s elapsed row =
      ban_repeat_ngram fl (ceiled s elapsed row) s.ngram_prefix s.history s.params.no_repeat_ngram

  pub length-floored : (s : Sampler fl) (row : List F32) → length (floored s row) ≡ length row
  length-floored s row =
      length-thought_floor s (suppress_all fl row s.suppress) ∙ length-suppress_all row s.suppress

  pub masked_lem :
      (s : Sampler fl) (elapsed : ℕ) (row : List F32)
      → (masked fl s elapsed row).1
        ≡ (if leb 2 s.params.no_repeat_ngram then banned s elapsed row else ceiled s elapsed row)
  unfolding masked
  masked_lem s elapsed row = refl

  pub length-masked :
      (s : Sampler fl) (elapsed : ℕ) (row : List F32)
      → length (masked fl s elapsed row).1 ≡ length row
  length-masked s elapsed row =
      ap length (masked_lem s elapsed row)
      ∙ length-if (leb 2 s.params.no_repeat_ngram) (ceiled s elapsed row) (banned s elapsed row) (
          length-ban_repeat_ngram (ceiled s elapsed row) s.ngram_prefix s.history
            s.params.no_repeat_ngram)
      ∙ length-thought_ceiling s elapsed (floored s row)
      ∙ length-floored s row

  pub ceiled-masked :
      (s : Sampler fl) (elapsed : ℕ) (row : List F32)
      → Mutes fl (ceiled s elapsed row) (masked fl s elapsed row).1
  ceiled-masked s elapsed row = rw (masked_lem s elapsed row) (
      if-Mutes fl (leb 2 s.params.no_repeat_ngram) (ceiled s elapsed row) (banned s elapsed row) (
        ban_repeat_ngram-Mutes fl (ceiled s elapsed row) s.ngram_prefix s.history
          s.params.no_repeat_ngram))

  pub floored-masked :
      (s : Sampler fl) (elapsed : ℕ) (row : List F32)
      → Mutes fl (floored s row) (masked fl s elapsed row).1
  floored-masked s elapsed row =
      Mutes-trans fl (floored s row) (ceiled s elapsed row) (masked fl s elapsed row).1
        (thought_ceiling-Mutes fl s elapsed (floored s row)) (ceiled-masked s elapsed row)

  pub suppressed-masked :
      (s : Sampler fl) (elapsed : ℕ) (row : List F32)
      → Mutes fl (suppress_all fl row s.suppress) (masked fl s elapsed row).1
  suppressed-masked s elapsed row =
      Mutes-trans fl (suppress_all fl row s.suppress) (floored s row) (masked fl s elapsed row).1
        (thought_floor-Mutes fl s (suppress_all fl row s.suppress)) (floored-masked s elapsed row)

  pub masked-Mutes :
      (s : Sampler fl) (elapsed : ℕ) (row : List F32) → Mutes fl row (masked fl s elapsed row).1
  masked-Mutes s elapsed row =
      Mutes-trans fl row (suppress_all fl row s.suppress) (masked fl s elapsed row).1
        (suppress_all-Mutes fl row s.suppress) (suppressed-masked s elapsed row)
