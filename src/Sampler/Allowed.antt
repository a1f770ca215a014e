-- ===== src/Sampler/Allowed.antt =====
-- What a token may be: every rule that the masks of `Sampler::sample` enforce, on one token.
use mathlib.Core.List.{Memᴰ, append_assoc}
use kairos_engine.Base.{
  ℕ, ◌^◌, ◌≤◌, ◌<◌, ◌≡◌, ◌≢◌, refl, ap, sym, ◌∙◌, ◌⊎◌, inl, inr, Bool, true, false, ◌&&◌, not,
  Bool-cases, Option, some, List, [], ◌∷◌, ◌++◌, length, get_elem?, ltb, leb, ==_iff, ◌==◌,
  if◌then◌else◌, subst, arith,
}
use kairos_engine.Sampler.{
  Floats, Sampler, as_usize, suppress_all, keep_only, close_only, thought_ceiling,
  thought_budget_spent, ban_repeat_ngram, masked, observe,
}
use kairos_engine.Sampler.Mask.{Mutes, suppress_all-Muted, thought_floor-Muted, keep_only-others}
use kairos_engine.Sampler.Ngram.{NoRepeat, ban_repeat_ngram-NoRepeat}
use kairos_engine.Sampler.Masked.{
  floored, ceiled, masked_lem, length-floored, ceiled-masked, floored-masked, suppressed-masked,
  masked-Mutes,
}

-- As an index, an `i32` that is not negative is itself, and a negative one is past every row.
pub as_usize-injective : (id t : ℕ) → t < 2 ^ 31 → as_usize id ≡ as_usize t → id ≡ t
as_usize-injective id t lt e = ground (arith, lt, e)

pub as_usize_small : (t : ℕ) → t < 2 ^ 31 → as_usize t ≡ t
as_usize_small t lt = ground (arith, lt)

module _ (fl : Floats) where
  open fl use {F32, neg_infinity}

  -- The token has the logit `w` that no mask has taken.
  pub record Live (row : List F32) (t : ℕ) (w : F32) : Type 0 where
    pub at : get_elem? row (as_usize t) ≡ some w
    pub live : w ≢ neg_infinity

  -- What the sampler promises of the token `t` it takes from `row`.
  pub record Allowed (s : Sampler fl) (elapsed : ℕ) (row : List F32) (t : ℕ) : Type 0 where
    pub inside : t < length row
    -- Its logit is the one of the model.
    pub kept : (w : F32) × Live row t w
    pub not_suppressed : ¬ Memᴰ t s.suppress
    -- The thought is not closed before its floor.
    pub floor : length s.history < s.think_min → s.think_close ≢ some t
    -- An open thought whose budget is spent is closed.
    pub ceiling :
        (id : ℕ)
        → s.think_closed ≡ false
        → thought_budget_spent fl s elapsed ≡ true
        → s.think_close ≡ some id
        → as_usize id < length row
        → t ≡ id
    -- No n-gram of prompt and reply is completed again.
    pub no_repeat :
        2 ≤ s.params.no_repeat_ngram
        → NoRepeat s.params.no_repeat_ngram (s.ngram_prefix ++ s.history)
        → NoRepeat s.params.no_repeat_ngram (s.ngram_prefix ++ (observe fl s t).history)

  Live-Mutes :
      (row row' : List F32) (t : ℕ) (w : F32) → Mutes fl row row' → Live row' t w → Live row t w
  Live-Mutes row row' t w f h = go (f (as_usize t) w h.at)
    where
      go : (w ≡ neg_infinity) ⊎ (get_elem? row (as_usize t) ≡ some w) → Live row t w
      go (inl e) = absurd (h.live e)
      go (inr e) = record { at = e; live = h.live }

  -- A ceiling that applies leaves no other token its logit.
  ceiling_only :
      (s : Sampler fl) (elapsed : ℕ) (row : List F32) (id t : ℕ) (w : F32)
      → s.think_closed ≡ false
      → thought_budget_spent fl s elapsed ≡ true
      → s.think_close ≡ some id
      → as_usize id < length row
      → Live (thought_ceiling fl s elapsed row).1 t w
      → as_usize id ≡ as_usize t
  unfolding thought_ceiling
  ceiling_only s elapsed row id t w open_ spent close lt h =
      go (Bool-cases (as_usize id == as_usize t))
    where
      due : (not s.think_closed && thought_budget_spent fl s elapsed) ≡ true
      due = rw (open_, spent) refl

      inside : ltb (as_usize id) (length row) ≡ true
      inside = ground (arith, lt)

      only : (thought_ceiling fl s elapsed row).1 ≡ keep_only fl (as_usize id) row
      only =
          ap
            (λ (b : Bool).
              (if◌then◌else◌ {A = Bool × List F32} b (close_only fl s.think_close row)
                (false, row)).1)
            due
          ∙ ap (λ (o : Option ℕ). (close_only fl o row).1) close
          ∙ ap
              (λ (b : Bool).
                (if◌then◌else◌ {A = Bool × List F32} b (true, keep_only fl (as_usize id) row)
                  (false, row)).1)
              inside

      go :
          ((as_usize id == as_usize t) ≡ true) ⊎ ((as_usize id == as_usize t) ≡ false)
          → as_usize id ≡ as_usize t
      go (inl e) = (==_iff (as_usize id) (as_usize t)).0 e
      go (inr e) = absurd (
          h.live (
            keep_only-others fl (as_usize id) row (as_usize t) w ne
              (ap (λ (r : List F32). get_elem? r (as_usize t)) (sym only) ∙ h.at)))
        where
          ne : as_usize id ≢ as_usize t
          ne same = absurd (cc (sym ((==_iff (as_usize id) (as_usize t)).1 same) ∙ e))

  -- A token whose logit is left after the masks is allowed by each of them.
  pub masked-Allowed :
      (s : Sampler fl) (elapsed : ℕ) (row : List F32) (t : ℕ) (w : F32)
      → t < length row
      → length row ≤ 2 ^ 31
      → Live (masked fl s elapsed row).1 t w
      → Allowed s elapsed row t
  unfolding observe
  masked-Allowed s elapsed row t w lt small h = record {
    inside = lt;
    kept = (w, Live-Mutes row m t w (masked-Mutes fl s elapsed row) h);
    not_suppressed =
        λ inside. suppressed.live (suppress_all-Muted fl row s.suppress t inside w suppressed.at);
    floor = λ early close.
        floored_live.live (
          thought_floor-Muted fl s (suppress_all fl row s.suppress) t early close w
            floored_live.at);
    ceiling = λ id open_ spent close fits. sym (
        as_usize-injective id t (omega (arith, lt, small)) (
          ceiling_only s elapsed (floored fl s row) id t w open_ spent close
            (omega (arith, fits, length-floored fl s row)) ceiled_live));
    no_repeat = λ two before. subst (NoRepeat n) (append_assoc s.ngram_prefix s.history (t ∷ [])) (
        ban_repeat_ngram-NoRepeat fl (ceiled fl s elapsed row) s.ngram_prefix s.history n t w two
          (banned_at two) h.live before);
  }
    where
      m : List F32
      m = (masked fl s elapsed row).1

      n : ℕ
      n = s.params.no_repeat_ngram

      suppressed : Live (suppress_all fl row s.suppress) t w
      suppressed =
          Live-Mutes (suppress_all fl row s.suppress) m t w (suppressed-masked fl s elapsed row) h

      floored_live : Live (floored fl s row) t w
      floored_live = Live-Mutes (floored fl s row) m t w (floored-masked fl s elapsed row) h

      ceiled_live : Live (ceiled fl s elapsed row) t w
      ceiled_live = Live-Mutes (ceiled fl s elapsed row) m t w (ceiled-masked fl s elapsed row) h

      banned : List F32
      banned = ban_repeat_ngram fl (ceiled fl s elapsed row) s.ngram_prefix s.history n

      banned_at : 2 ≤ n → get_elem? banned (as_usize t) ≡ some w
      banned_at two =
          ap (λ (b : Bool). get_elem? (if b then banned else ceiled fl s elapsed row) (as_usize t))
            (sym on)
          ∙ ap (λ (r : List F32). get_elem? r (as_usize t)) (sym (masked_lem fl s elapsed row))
          ∙ h.at
        where
          on : leb 2 n ≡ true
          on = ground (arith, two)
