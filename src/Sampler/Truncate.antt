-- ===== src/Sampler/Truncate.antt =====
-- The steps of the draw, each within its bounds: the candidates, the nucleus and the pick.
use mathlib.Core.List.{Permᴰ}
use kairos_engine.Base.{
  ℕ, zero, suc, ◌+◌, ◌≤◌, ◌<◌, ◌≡◌, refl, ap, ◌∙◌, Bool, true, false, Option, none, some, List, [],
  ◌∷◌, map, length, take, All, length-set, max, if◌then◌else◌, subst, get_elem?, ◌||◌, not, arith,
}
use kairos_engine.Argmax.{Logit, argmax, max_by_loop, partial_cmp, or_equal}
use Prim.Native.Nat.{Ordering}
use kairos_engine.Sampler.{Floats, Sampler, SamplingParams, as_usize, contains}
use kairos_engine.Sampler.Draw.{
  penalize_at, penalize, penalized, enumerate, nucleus_loop, nucleus, pick, id_at,
}

-- A permutation keeps the length and what holds of every element.
pub length-Permᴰ {ℓ} : {A : Type ℓ} {xs ys : List A} → Permᴰ xs ys → length xs ≡ length ys
length-Permᴰ Permᴰ.nil = refl
length-Permᴰ (Permᴰ.cons e d) = ap suc (length-Permᴰ d)
length-Permᴰ (Permᴰ.swap e₁ e₂) = refl
length-Permᴰ (Permᴰ.trans d₁ d₂) = length-Permᴰ d₁ ∙ length-Permᴰ d₂

pub All-Permᴰ {ℓ κ} :
    {A : Type ℓ} (P : A → Type κ) {xs ys : List A} → Permᴰ xs ys → All P xs → All P ys
All-Permᴰ P Permᴰ.nil h = h
All-Permᴰ P (Permᴰ.cons e d) h = (subst P e h.0, All-Permᴰ P d h.1)
All-Permᴰ P (Permᴰ.swap e₁ e₂) h = (subst P e₂ h.1.0, (subst P e₁ h.0, h.1.1))
All-Permᴰ P (Permᴰ.trans d₁ d₂) h = All-Permᴰ P d₂ (All-Permᴰ P d₁ h)

pub All-take {ℓ κ} :
    {A : Type ℓ} (P : A → Type κ) (n : ℕ) (xs : List A) → All P xs → All P (take n xs)
All-take P zero xs h = tt
All-take P (suc n) [] h = tt
All-take P (suc n) (x ∷ xs) h = (h.0, All-take P n xs h.1)

pub length-map {ℓ κ} :
    {A : Type ℓ} {B : Type κ} (f : A → B) (xs : List A) → length (map f xs) ≡ length xs
length-map f [] = refl
length-map f (x ∷ xs) = ap suc (length-map f xs)

-- The index that `argmax` returns, NaN or not.
max_by_loop_lt :
    (bi : ℕ) (b : Logit) (i : ℕ) (vs : List Logit) → bi < i → max_by_loop bi b i vs < i + length vs
unfolding max_by_loop
max_by_loop_lt bi b i [] lt = omega (arith, lt)
max_by_loop_lt bi b i (v ∷ vs) lt =
    go (or_equal (partial_cmp b v)) (max_by_loop_lt bi b (i + 1) vs (omega (arith, lt)))
      (max_by_loop_lt i v (i + 1) vs (omega arith))
  where
    go :
        (o : Ordering)
        → max_by_loop bi b (i + 1) vs < i + 1 + length vs
        → max_by_loop i v (i + 1) vs < i + 1 + length vs
        → (elim o [ Ordering.gt ↦ max_by_loop bi b (i + 1) vs | _ ↦ max_by_loop i v (i + 1) vs ])
          < i + length (v ∷ vs)
    go Ordering.gt p q = omega (arith, p)
    go Ordering.eq p q = omega (arith, q)
    go Ordering.lt p q = omega (arith, q)

pub argmax_lt : (vs : List Logit) → 0 < length vs → argmax vs < length vs
unfolding argmax
argmax_lt [] pos = absurd (omega (arith, pos))
argmax_lt (v ∷ vs) pos = omega (arith, max_by_loop_lt 0 v 1 vs (omega arith))

module _ (fl : Floats) where
  open fl use {
    F32, F64, zero_f64, plus, over, over_f64, weight, clamped, degenerate, below_one, less,
    times_f64, unit_fraction, at_least_tiny, sort_descending, place, differs_from_one,
    differs_from_zero,
  }

  -- The indices of the candidates are below `n`.
  abbrev pub Below : ℕ → List (ℕ × F32) → Type 0
  Below n cand = All (λ (c : ℕ × F32). c.0 < n) cand

  length-penalize :
      (p : SamplingParams fl) (seen ts : List ℕ) (ls : List F32)
      → length (penalize fl p seen ts ls) ≡ length ls
  unfolding penalize
  length-penalize p seen [] ls = refl
  length-penalize p seen (t ∷ ts) ls =
      length-penalize p (t ∷ seen) ts
        (penalize_at fl p (not (contains seen t)) (as_usize t) (get_elem? ls (as_usize t)) ls)
      ∙ go (get_elem? ls (as_usize t))
    where
      go :
          (o : Option F32)
          → length (penalize_at fl p (not (contains seen t)) (as_usize t) o ls) ≡ length ls
      go none = refl
      go (some l) = length-set ls (as_usize t) _

  pub length-penalized : (s : Sampler fl) (ls : List F32) → length (penalized fl s ls) ≡ length ls
  unfolding penalized
  length-penalized s ls =
      go (
        differs_from_one s.params.repetition_penalty
        || differs_from_zero s.params.frequency_penalty)
    where
      go : (b : Bool) → length (if b then penalize fl s.params [] s.history ls else ls) ≡ length ls
      go true = length-penalize s.params [] s.history ls
      go false = refl

  pub enumerate-Below : (i n : ℕ) (ls : List F32) → i + length ls ≤ n → Below n (enumerate fl i ls)
  unfolding enumerate
  enumerate-Below i n [] h = tt
  enumerate-Below i n (l ∷ ls) h =
      (omega (arith, h), enumerate-Below (i + 1) n ls (omega (arith, h)))

  pub length-enumerate : (i : ℕ) (ls : List F32) → length (enumerate fl i ls) ≡ length ls
  unfolding enumerate
  length-enumerate i [] = refl
  length-enumerate i (l ∷ ls) = ap suc (length-enumerate (i + 1) ls)

  -- What `sort_unstable_by` documents of elements that the comparison orders totally, as it does
  -- logits that are numbers: it returns, with the same elements.
  abbrev pub Sorts : (F32 → Type 0) → Type 0
  Sorts IsNumber =
      (cand : List (ℕ × F32))
      → All (λ (c : ℕ × F32). IsNumber c.1) cand
      → (sorted : List (ℕ × F32)) × (sort_descending cand ≡ some sorted) × Permᴰ cand sorted

  pub enumerate-All :
      (IsNumber : F32 → Type 0) (i : ℕ) (ls : List F32)
      → All IsNumber ls
      → All (λ (c : ℕ × F32). IsNumber c.1) (enumerate fl i ls)
  unfolding enumerate
  enumerate-All IsNumber i [] h = tt
  enumerate-All IsNumber i (l ∷ ls) h = (h.0, enumerate-All IsNumber (i + 1) ls h.1)

  nucleus_loop_le :
      (top_p acc : F64) (i : ℕ) (ps : List F64) → nucleus_loop fl top_p acc i ps ≤ i + length ps
  unfolding nucleus_loop
  nucleus_loop_le top_p acc i [] = omega arith
  nucleus_loop_le top_p acc i (p ∷ ps) =
      go (fl.at_least (plus acc p) top_p) (nucleus_loop_le top_p (plus acc p) (i + 1) ps)
    where
      go :
          (b : Bool)
          → nucleus_loop fl top_p (plus acc p) (i + 1) ps ≤ i + 1 + length ps
          → (if b then i + 1 else nucleus_loop fl top_p (plus acc p) (i + 1) ps)
            ≤ i + length (p ∷ ps)
      go true ih = omega arith
      go false ih = omega (arith, ih)

  -- The nucleus is not empty and within the candidates.
  pub nucleus-bounds :
      (top_p : F64) (ps : List F64)
      → 0 < length ps
      → (1 ≤ nucleus fl top_p ps) × (nucleus fl top_p ps ≤ length ps)
  unfolding nucleus
  nucleus-bounds top_p ps pos = go (below_one top_p) (nucleus_loop_le top_p zero_f64 0 ps)
    where
      go :
          (b : Bool)
          → nucleus_loop fl top_p zero_f64 0 ps ≤ 0 + length ps
          → (1 ≤ max (if b then nucleus_loop fl top_p zero_f64 0 ps else length ps) 1)
            × (max (if b then nucleus_loop fl top_p zero_f64 0 ps else length ps) 1 ≤ length ps)
      go true le = (omega arith, omega (arith, le, pos))
      go false le = (omega arith, omega (arith, pos))

  pub pick_lt :
      (r acc : F64) (i : ℕ) (ps : List F64) → 0 < i + length ps → pick fl r acc i ps < i + length ps
  unfolding pick
  pick_lt r acc i [] pos = omega (arith, pos)
  pick_lt r acc i (p ∷ ps) pos =
      go (less r (plus acc p)) (pick_lt r (plus acc p) (i + 1) ps (omega arith))
    where
      go :
          (b : Bool)
          → pick fl r (plus acc p) (i + 1) ps < i + 1 + length ps
          → (if b then i else pick fl r (plus acc p) (i + 1) ps) < i + length (p ∷ ps)
      go true ih = omega arith
      go false ih = omega (arith, ih)

  pub id_at-Below :
      (n : ℕ) (cand : List (ℕ × F32)) (i : ℕ)
      → Below n cand
      → i < length cand
      → (t : ℕ) × (id_at fl cand i ≡ some t) × (t < n)
  id_at-Below n [] i h lt = absurd (omega (arith, lt))
  id_at-Below n ((k, l) ∷ cand) zero h lt = (k, refl, h.0)
  id_at-Below n ((k, l) ∷ cand) (suc i) h lt = id_at-Below n cand i h.1 (omega (arith, lt))
