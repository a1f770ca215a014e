-- ===== src/Recall/Match/Best.antt =====
-- Which episode `best_match` returns.
use mathlib.Core.Option.{some-injective}
use mathlib.Core.List.{append_assoc, append-nil}
use kairos_engine.Base.{
  ℕ, zero, suc, ◌+◌, ◌≤◌, ◌<◌, ◌≡◌, refl, ap, sym, ◌∙◌, ◌⊎◌, inl, inr, Bool, true, false, Option,
  none, some, List, [], ◌∷◌, ◌++◌, length, get_elem?, get_elem?-lt, get_elem?-append, length-append,
  leb, if◌then◌else◌, subst, arith,
}
use kairos_engine.Argmax.Ties.{IsFirstMax}
use kairos_engine.Similarity.{Sig}
use kairos_engine.Recall.Match.{Episode, agree, keep_best, match_loop, best_match}

-- The agreements of the query with the episodes.
abbrev pub agreements : Sig → List Episode → List ℕ
agreements query [] = []
agreements query (ep ∷ eps) = agree query ep.sig ∷ agreements query eps

-- An entry of a list with one more element.
snoc_case :
    (xs : List ℕ) (v j w : ℕ)
    → get_elem? (xs ++ (v ∷ [])) j ≡ some w
    → (get_elem? xs j ≡ some w) ⊎ ((j ≡ length xs) × (w ≡ v))
snoc_case [] v zero w h = inr (refl, sym (some-injective v w h))
snoc_case [] v (suc j) w h = absurd (cc h)
snoc_case (x ∷ xs) v zero w h = inl h
snoc_case (x ∷ xs) v (suc j) w h = go (snoc_case xs v j w h)
  where
    go :
        (get_elem? xs j ≡ some w) ⊎ ((j ≡ length xs) × (w ≡ v))
        → (get_elem? xs j ≡ some w) ⊎ ((suc j ≡ suc (length xs)) × (w ≡ v))
    go (inl e) = inl e
    go (inr (e, e')) = inr (ap suc e, e')

get_elem?-left :
    (xs ys : List ℕ) (j w : ℕ) → get_elem? xs j ≡ some w → get_elem? (xs ++ ys) j ≡ some w
get_elem?-left [] ys j w h = absurd (cc h)
get_elem?-left (x ∷ xs) ys zero w h = h
get_elem?-left (x ∷ xs) ys (suc j) w h = get_elem?-left xs ys j w h

-- A new element that is not greater, and one that is.
IsFirstMax-kept :
    (vs : List ℕ) (v i top : ℕ) → v ≤ top → IsFirstMax vs i top → IsFirstMax (vs ++ (v ∷ [])) i top
IsFirstMax-kept vs v i top le m = record {
  at = get_elem?-left vs (v ∷ []) i top m.at;
  bound = λ j w h. bound j w (snoc_case vs v j w h);
  earlier = λ j w h lt. earlier j w lt (snoc_case vs v j w h);
}
  where
    bound : (j w : ℕ) → (get_elem? vs j ≡ some w) ⊎ ((j ≡ length vs) × (w ≡ v)) → w ≤ top
    bound j w (inl e) = m.bound j w e
    bound j w (inr (e, e')) = omega (arith, le, e')

    earlier : (j w : ℕ) → j < i → (get_elem? vs j ≡ some w) ⊎ ((j ≡ length vs) × (w ≡ v)) → w < top
    earlier j w lt (inl e) = m.earlier j w e lt
    earlier j w lt (inr (e, e')) = absurd (omega (arith, e, lt, get_elem?-lt vs i m.at))

IsFirstMax-new :
    (vs : List ℕ) (v : ℕ)
    → ((j w : ℕ) → get_elem? vs j ≡ some w → w < v)
    → IsFirstMax (vs ++ (v ∷ [])) (length vs) v
IsFirstMax-new vs v less = record {
  at = get_elem?-append vs v [];
  bound = λ j w h. bound j w (snoc_case vs v j w h);
  earlier = λ j w h lt. earlier j w lt (snoc_case vs v j w h);
}
  where
    bound : (j w : ℕ) → (get_elem? vs j ≡ some w) ⊎ ((j ≡ length vs) × (w ≡ v)) → w ≤ v
    bound j w (inl e) = omega (arith, less j w e)
    bound j w (inr (e, e')) = omega (arith, e')

    earlier :
        (j w : ℕ) → j < length vs → (get_elem? vs j ≡ some w) ⊎ ((j ≡ length vs) × (w ≡ v)) → w < v
    earlier j w lt (inl e) = less j w e
    earlier j w lt (inr (e, e')) = absurd (omega (arith, e, lt))

-- What the best so far says of the agreements so far.
abbrev pub BestOf : List ℕ → Option (ℕ × ℕ) → Type 0
BestOf vs none = vs ≡ []
BestOf vs (some (i, top)) = IsFirstMax vs i top

keep_best-BestOf :
    (vs : List ℕ) (v : ℕ) (best : Option (ℕ × ℕ))
    → BestOf vs best
    → BestOf (vs ++ (v ∷ [])) (keep_best best (length vs) v)
keep_best-BestOf vs v none h = IsFirstMax-new vs v nothing
  where
    nothing : (j w : ℕ) → get_elem? vs j ≡ some w → w < v
    nothing j w e = absurd (cc (sym (ap (λ (l : List ℕ). get_elem? l j) h) ∙ e))
keep_best-BestOf vs v (some (i, top)) h = go (leb v top) refl
  where
    go :
        (b : Bool)
        → leb v top ≡ b
        → BestOf (vs ++ (v ∷ [])) (if b then some (i, top) else some (length vs, v))
    go true e = IsFirstMax-kept vs v i top (ground (arith, e)) h
    go false e = IsFirstMax-new vs v (λ j w at. omega (arith, over e, h.bound j w at))
      where
        over : leb v top ≡ false → top < v
        over e = ground (arith, e)

match_loop-BestOf :
    (query : Sig) (eps : List Episode) (best : Option (ℕ × ℕ)) (vs : List ℕ) (i : ℕ)
    → i ≡ length vs
    → BestOf vs best
    → BestOf (vs ++ agreements query eps) (match_loop query best i eps)
unfolding match_loop
match_loop-BestOf query [] best vs i e h =
    subst (λ (l : List ℕ). BestOf l best) (sym (append-nil vs)) h
match_loop-BestOf query (ep ∷ eps) best vs i e h =
    let v = agree query ep.sig in
    subst (λ (l : List ℕ). BestOf l (match_loop query (keep_best best i v) (i + 1) eps))
      (append_assoc vs (v ∷ []) (agreements query eps))
      (match_loop-BestOf query eps (keep_best best i v) (vs ++ (v ∷ [])) (i + 1)
        (omega (arith, e, length-append vs (v ∷ [])))
        (subst (λ (n : ℕ). BestOf (vs ++ (v ∷ [])) (keep_best best n v)) (sym e)
          (keep_best-BestOf vs v best h)))

-- The match is the first episode of the greatest agreement, with that agreement; there is none only
-- in an empty registry.
pub best_match-BestOf :
    (query : Sig) (registry : List Episode)
    → BestOf (agreements query registry) (best_match query registry)
unfolding best_match
best_match-BestOf query registry = match_loop-BestOf query registry none [] 0 refl refl
