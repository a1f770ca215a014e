-- ===== src/Argmax/Ties.antt =====
-- Which index each picker returns, over rows without NaN.
use Prim.Native.Nat.{compare, Ordering}
use kairos_engine.Base.{
  ℕ, zero, suc, ◌+◌, ◌≤◌, ◌<◌, ◌≡◌, ◌≢◌, refl, Option, some, List, [], ◌∷◌, arith, get_elem?, map,
  Bool, true, false,
}
use native.Mathlib.Decide.{dec_lt}
use kairos_engine.Argmax.{argmax, max_by_loop, dialogue_argmax, first_max_loop}

-- A row without NaN, by the places of its values.
abbrev pub row : List ℕ → List (Option ℕ)
row vs = map some vs

-- `i` holds the greatest value of the row, and no later index holds it.
pub record IsLastMax (vs : List ℕ) (i top : ℕ) : Type 0 where
  pub at : get_elem? vs i ≡ some top
  pub bound : (j v : ℕ) → get_elem? vs j ≡ some v → v ≤ top
  pub later : (j v : ℕ) → get_elem? vs j ≡ some v → i < j → v < top

-- `i` holds the greatest value of the row, and no earlier index holds it.
pub record IsFirstMax (vs : List ℕ) (i top : ℕ) : Type 0 where
  pub at : get_elem? vs i ≡ some top
  pub bound : (j v : ℕ) → get_elem? vs j ≡ some v → v ≤ top
  pub earlier : (j v : ℕ) → get_elem? vs j ≡ some v → j < i → v < top

data LastCase (bi b i r : ℕ) (vs : List ℕ) : Type 0 where
  kept : r ≡ bi → ((j v : ℕ) → get_elem? vs j ≡ some v → v < b) → LastCase bi b i r vs
  moved : (k top : ℕ) → r ≡ i + k → b ≤ top → IsLastMax vs k top → LastCase bi b i r vs

IsLastMax-head :
    (v : ℕ) (vs : List ℕ) → ((j w : ℕ) → get_elem? vs j ≡ some w → w < v) → IsLastMax (v ∷ vs) 0 v
IsLastMax-head v vs h = record { at = refl; bound = bound; later = later }
  where
    bound : (j w : ℕ) → get_elem? (v ∷ vs) j ≡ some w → w ≤ v
    bound zero w e = ground arith
    bound (suc j) w e = omega (arith, h j w e)

    later : (j w : ℕ) → get_elem? (v ∷ vs) j ≡ some w → 0 < j → w < v
    later zero w e lt = absurd (omega arith)
    later (suc j) w e lt = h j w e

IsLastMax-tail :
    (v k top : ℕ) (vs : List ℕ) → v ≤ top → IsLastMax vs k top → IsLastMax (v ∷ vs) (suc k) top
IsLastMax-tail v k top vs le m = record { at = m.at; bound = bound; later = later }
  where
    bound : (j w : ℕ) → get_elem? (v ∷ vs) j ≡ some w → w ≤ top
    bound zero w e = ground arith
    bound (suc j) w e = m.bound j w e

    later : (j w : ℕ) → get_elem? (v ∷ vs) j ≡ some w → suc k < j → w < top
    later zero w e lt = absurd (omega arith)
    later (suc j) w e lt = m.later j w e (omega arith)

max_by_loop_case :
    (bi b i : ℕ) (vs : List ℕ) → LastCase bi b i (max_by_loop bi (some b) i (row vs)) vs
unfolding max_by_loop
max_by_loop_case bi b i [] = kept refl (λ j v e. absurd (cc))
max_by_loop_case bi b i (v ∷ vs) =
    go (compare b v) refl (max_by_loop_case bi b (i + 1) vs) (max_by_loop_case i v (i + 1) vs)
  where
    cont : Ordering → ℕ
    cont o = elim o [
      | Ordering.gt ↦ max_by_loop bi (some b) (i + 1) (row vs)
      | _ ↦ max_by_loop i (some v) (i + 1) (row vs)
    ]

    stay :
        LastCase bi b (i + 1) (max_by_loop bi (some b) (i + 1) (row vs)) vs
        → v < b
        → LastCase bi b i (max_by_loop bi (some b) (i + 1) (row vs)) (v ∷ vs)
    stay (kept e h) lt = kept e smaller
      where
        smaller : (j w : ℕ) → get_elem? (v ∷ vs) j ≡ some w → w < b
        smaller zero w p = ground arith
        smaller (suc j) w p = h j w p
    stay (moved k top e le m) lt =
        moved (suc k) top (omega arith) le (IsLastMax-tail v k top vs (omega arith) m)

    take_new :
        LastCase i v (i + 1) (max_by_loop i (some v) (i + 1) (row vs)) vs
        → b ≤ v
        → LastCase bi b i (max_by_loop i (some v) (i + 1) (row vs)) (v ∷ vs)
    take_new (kept e h) le = moved 0 v (omega arith) le (IsLastMax-head v vs h)
    take_new (moved k top e le' m) le =
        moved (suc k) top (omega arith) (omega arith) (IsLastMax-tail v k top vs le' m)

    go :
        (o : Ordering)
        → compare b v ≡ o
        → LastCase bi b (i + 1) (max_by_loop bi (some b) (i + 1) (row vs)) vs
        → LastCase i v (i + 1) (max_by_loop i (some v) (i + 1) (row vs)) vs
        → LastCase bi b i (cont o) (v ∷ vs)
    go Ordering.gt e p q = stay p (ground arith)
    go Ordering.eq e p q = take_new q (ground arith)
    go Ordering.lt e p q = take_new q (ground arith)

-- On a row that is not empty and has no NaN, `argmax` of spec.rs and sampler.rs returns the LAST
-- index of the greatest value.
pub argmax-IsLastMax :
    (v : ℕ) (vs : List ℕ) → (top : ℕ) × IsLastMax (v ∷ vs) (argmax (row (v ∷ vs))) top
unfolding argmax
argmax-IsLastMax v vs = go (max_by_loop 0 (some v) 1 (row vs)) (max_by_loop_case 0 v 1 vs)
  where
    go : (r : ℕ) → LastCase 0 v 1 r vs → (top : ℕ) × IsLastMax (v ∷ vs) r top
    go r (kept e h) = (v, rw e (IsLastMax-head v vs h))
    go r (moved k top e le m) =
        let here : r ≡ suc k = omega arith in (top, rw here (IsLastMax-tail v k top vs le m))

data FirstCase (bi b i r : ℕ) (vs : List ℕ) : Type 0 where
  kept : r ≡ bi → ((j v : ℕ) → get_elem? vs j ≡ some v → v ≤ b) → FirstCase bi b i r vs
  moved : (k top : ℕ) → r ≡ i + k → b < top → IsFirstMax vs k top → FirstCase bi b i r vs

IsFirstMax-head :
    (v : ℕ) (vs : List ℕ) → ((j w : ℕ) → get_elem? vs j ≡ some w → w ≤ v) → IsFirstMax (v ∷ vs) 0 v
IsFirstMax-head v vs h = record {
  at = refl;
  bound = bound;
  earlier = λ j w e lt. absurd (omega arith);
}
  where
    bound : (j w : ℕ) → get_elem? (v ∷ vs) j ≡ some w → w ≤ v
    bound zero w e = ground arith
    bound (suc j) w e = h j w e

IsFirstMax-tail :
    (v k top : ℕ) (vs : List ℕ) → v < top → IsFirstMax vs k top → IsFirstMax (v ∷ vs) (suc k) top
IsFirstMax-tail v k top vs lt m = record { at = m.at; bound = bound; earlier = earlier }
  where
    bound : (j w : ℕ) → get_elem? (v ∷ vs) j ≡ some w → w ≤ top
    bound zero w e = ground arith
    bound (suc j) w e = m.bound j w e

    earlier : (j w : ℕ) → get_elem? (v ∷ vs) j ≡ some w → j < suc k → w < top
    earlier zero w e before = ground arith
    earlier (suc j) w e before = m.earlier j w e (omega arith)

first_max_loop_case :
    (bi b i : ℕ) (vs : List ℕ) → FirstCase bi b i (first_max_loop bi (some b) i (row vs)) vs
unfolding first_max_loop
first_max_loop_case bi b i [] = kept refl (λ j v e. absurd (cc))
first_max_loop_case bi b i (v ∷ vs) =
    go (compare v b) refl (first_max_loop_case bi b (i + 1) vs) (first_max_loop_case i v (i + 1) vs)
  where
    cont : Ordering → ℕ
    cont o = elim (elim o as (λ x. Bool) [ Ordering.gt ↦ true | _ ↦ false ]) [
      | true ↦ first_max_loop i (some v) (i + 1) (row vs)
      | false ↦ first_max_loop bi (some b) (i + 1) (row vs)
    ]

    stay :
        FirstCase bi b (i + 1) (first_max_loop bi (some b) (i + 1) (row vs)) vs
        → v ≤ b
        → FirstCase bi b i (first_max_loop bi (some b) (i + 1) (row vs)) (v ∷ vs)
    stay (kept e h) le = kept e smaller
      where
        smaller : (j w : ℕ) → get_elem? (v ∷ vs) j ≡ some w → w ≤ b
        smaller zero w p = ground arith
        smaller (suc j) w p = h j w p
    stay (moved k top e lt m) le =
        moved (suc k) top (omega arith) lt (IsFirstMax-tail v k top vs (omega arith) m)

    take_new :
        FirstCase i v (i + 1) (first_max_loop i (some v) (i + 1) (row vs)) vs
        → b < v
        → FirstCase bi b i (first_max_loop i (some v) (i + 1) (row vs)) (v ∷ vs)
    take_new (kept e h) lt = moved 0 v (omega arith) lt (IsFirstMax-head v vs h)
    take_new (moved k top e lt' m) lt =
        moved (suc k) top (omega arith) (omega arith) (IsFirstMax-tail v k top vs lt' m)

    go :
        (o : Ordering)
        → compare v b ≡ o
        → FirstCase bi b (i + 1) (first_max_loop bi (some b) (i + 1) (row vs)) vs
        → FirstCase i v (i + 1) (first_max_loop i (some v) (i + 1) (row vs)) vs
        → FirstCase bi b i (cont o) (v ∷ vs)
    go Ordering.gt e p q = take_new q (ground arith)
    go Ordering.eq e p q = stay p (ground arith)
    go Ordering.lt e p q = stay p (ground arith)

-- On a row that is not empty and has no NaN, `argmax` of dialogue.rs returns the FIRST index of the
-- greatest value.
pub dialogue_argmax-IsFirstMax :
    (v : ℕ) (vs : List ℕ) → (top : ℕ) × IsFirstMax (v ∷ vs) (dialogue_argmax (row (v ∷ vs))) top
unfolding dialogue_argmax
dialogue_argmax-IsFirstMax v vs =
    go (first_max_loop 0 (some 0) 0 (row (v ∷ vs))) (first_max_loop_case 0 0 0 (v ∷ vs))
  where
    go : (r : ℕ) → FirstCase 0 0 0 r (v ∷ vs) → (top : ℕ) × IsFirstMax (v ∷ vs) r top
    go r (kept e h) =
        let none_above : v ≡ 0 = omega (arith, h 0 v refl) in
        (v, rw e (IsFirstMax-head v vs (λ j w p. omega (arith, h (suc j) w p))))
    go r (moved k top e lt m) = let here : r ≡ k = omega arith in (top, rw here m)

-- Whenever the greatest value of a row without NaN stands at two indices, the two pickers choose
-- different tokens.
pub pickers_differ_on_tie :
    (v : ℕ) (vs : List ℕ) (i j top : ℕ)
    → i < j
    → get_elem? (v ∷ vs) i ≡ some top
    → get_elem? (v ∷ vs) j ≡ some top
    → ((k w : ℕ) → get_elem? (v ∷ vs) k ≡ some w → w ≤ top)
    → argmax (row (v ∷ vs)) ≢ dialogue_argmax (row (v ∷ vs))
pickers_differ_on_tie v vs i j top lt ei ej most same =
    let (a, last) = argmax-IsLastMax v vs in
    let (b, first) = dialogue_argmax-IsFirstMax v vs in
    let last_top : a ≤ top = most _ a last.at in
    let first_top : b ≤ top = most _ b first.at in
    let late : argmax (row (v ∷ vs)) < j → ⊥ = λ q. omega (arith, last.later j top ej q) in
    let early : i < dialogue_argmax (row (v ∷ vs)) → ⊥ =
      λ q. omega (arith, first.earlier i top ei q) in
    elim (dec_lt (argmax (row (v ∷ vs))) j) [ yes q ↦ late q | no q ↦ early (omega arith) ]
