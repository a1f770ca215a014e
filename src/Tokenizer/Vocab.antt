-- ===== src/Tokenizer/Vocab.antt =====
-- Which ids the vocabulary gives to the stops, to the suppressed set and to the control surfaces.
use mathlib.Core.List.{Memᴰ}
use mathlib.Core.Option.{some-injective}
use kairos_engine.Base.{
  ℕ, zero, suc, ◌+◌, ◌<◌, ◌≡◌, refl, ap, sym, ◌∙◌, ◌⊎◌, inl, inr, ◌↔◌, Bool, true, false, ◌&&◌, not,
  some, List, [], ◌∷◌, ◌++◌, get_elem?, list_beq, list_beq→eq, ltb, ◌==◌, ==_iff, if◌then◌else◌,
  subst, arith,
}
use kairos_engine.Sampler.{as_usize, contains}
use kairos_engine.Tokenizer.{SptbTokenizer, ids_where, position_of, union_ids, control_id}

-- The entry at `id` passes the test.
abbrev pub Passes : (List ℕ → Bool) → List (List ℕ) → ℕ → Type 0
Passes test vs id = (bytes : List ℕ) × (get_elem? vs id ≡ some bytes) × (test bytes ≡ true)

ids_where-Passes :
    (test : List ℕ → Bool) (i : ℕ) (vs : List (List ℕ)) (id : ℕ)
    → Memᴰ id (ids_where test i vs)
    → (k : ℕ) × (id ≡ i + k) × Passes test vs k
unfolding ids_where
ids_where-Passes test i [] id inside = elim inside [ ]
ids_where-Passes test i (v ∷ vs) id inside =
    go (test v) refl inside (ids_where-Passes test (i + 1) vs id)
  where
    later :
        (k : ℕ) × (id ≡ i + 1 + k) × Passes test vs k
        → (k : ℕ) × (id ≡ i + k) × Passes test (v ∷ vs) k
    later (k, at, passes) = (suc k, omega (arith, at), passes)

    go :
        (b : Bool)
        → test v ≡ b
        → Memᴰ id (if b then i ∷ ids_where test (i + 1) vs else ids_where test (i + 1) vs)
        → (Memᴰ id (ids_where test (i + 1) vs) → (k : ℕ) × (id ≡ i + 1 + k) × Passes test vs k)
        → (k : ℕ) × (id ≡ i + k) × Passes test (v ∷ vs) k
    go true e (Memᴰ.head same) ih = (0, omega (arith, same), (v, refl, e))
    go true e (Memᴰ.tail inside) ih = later (ih inside)
    go false e inside ih = later (ih inside)

Passes-ids_where :
    (test : List ℕ → Bool) (i : ℕ) (vs : List (List ℕ)) (k : ℕ)
    → Passes test vs k
    → Memᴰ (i + k) (ids_where test i vs)
unfolding ids_where
Passes-ids_where test i [] k (bytes, at, h) = absurd (cc at)
Passes-ids_where test i (v ∷ vs) zero (bytes, at, h) =
    let here : test v ≡ true = ap test (some-injective v bytes at) ∙ h in
    rw (here) (Memᴰ.head (omega arith))
Passes-ids_where test i (v ∷ vs) (suc k) (bytes, at, h) = go (test v) (
    subst (λ (n : ℕ). Memᴰ n (ids_where test (i + 1) vs)) (omega arith)
      (Passes-ids_where test (i + 1) vs k (bytes, at, h)))
  where
    go :
        (b : Bool)
        → Memᴰ (i + suc k) (ids_where test (i + 1) vs)
        → Memᴰ (i + suc k) (if b then i ∷ ids_where test (i + 1) vs else ids_where test (i + 1) vs)
    go true inside = Memᴰ.tail inside
    go false inside = inside

pub ids_where_iff :
    (test : List ℕ → Bool) (vs : List (List ℕ)) (id : ℕ)
    → Memᴰ id (ids_where test 0 vs) ↔ Passes test vs id
ids_where_iff test vs id = (to, from)
  where
    to : Memᴰ id (ids_where test 0 vs) → Passes test vs id
    to inside =
        let (k, at, passes) = ids_where-Passes test 0 vs id inside in
        let same : k ≡ id = omega (arith, at) in subst (Passes test vs) same passes

    from : Passes test vs id → Memᴰ id (ids_where test 0 vs)
    from passes =
        let same : 0 + id ≡ id = omega arith in
        subst (λ (n : ℕ). Memᴰ n (ids_where test 0 vs)) same (Passes-ids_where test 0 vs id passes)

-- The surface that is found stands at the id.
pub position_of-at :
    (surface : List ℕ) (i : ℕ) (vs : List (List ℕ)) (id : ℕ)
    → position_of surface i vs ≡ some id
    → (k : ℕ) × (id ≡ i + k) × (get_elem? vs k ≡ some surface)
unfolding position_of
position_of-at surface i [] id h = absurd (cc h)
position_of-at surface i (v ∷ vs) id h =
    go (list_beq v surface) refl h (position_of-at surface (i + 1) vs id)
  where
    go :
        (b : Bool)
        → list_beq v surface ≡ b
        → (if b then some i else position_of surface (i + 1) vs) ≡ some id
        → (position_of surface (i + 1) vs ≡ some id
            → (k : ℕ) × (id ≡ i + 1 + k) × (get_elem? vs k ≡ some surface))
        → (k : ℕ) × (id ≡ i + k) × (get_elem? (v ∷ vs) k ≡ some surface)
    go true e h ih =
        let here : i ≡ id = some-injective i id h in
        (0, omega (arith, here), ap some (list_beq→eq v surface e))
    go false e h ih = let (k, at, found) = ih h in (suc k, omega (arith, at), found)

pub control_id-at :
    (t : SptbTokenizer) (surface : List ℕ) (id : ℕ)
    → control_id t surface ≡ some id
    → get_elem? t.id_to_bytes id ≡ some surface
unfolding control_id
control_id-at t surface id h =
    let (k, at, found) = position_of-at surface 0 t.id_to_bytes id h in
    let same : k ≡ id = omega (arith, at) in
    subst (λ (n : ℕ). get_elem? t.id_to_bytes n ≡ some surface) same found

pub Memᴰ-append_left {ℓ} : {A : Type ℓ} (x : A) (xs ys : List A) → Memᴰ x xs → Memᴰ x (xs ++ ys)
Memᴰ-append_left x [] ys inside = elim inside [ ]
Memᴰ-append_left x (y ∷ xs) ys (Memᴰ.head e) = Memᴰ.head e
Memᴰ-append_left x (y ∷ xs) ys (Memᴰ.tail inside) = Memᴰ.tail (Memᴰ-append_left x xs ys inside)

pub Memᴰ-append_last {ℓ} : {A : Type ℓ} (x : A) (xs : List A) → Memᴰ x (xs ++ (x ∷ []))
Memᴰ-append_last x [] = Memᴰ.head refl
Memᴰ-append_last x (y ∷ xs) = Memᴰ.tail (Memᴰ-append_last x xs)

pub Memᴰ-snoc {ℓ} :
    {A : Type ℓ} (x y : A) (xs : List A) → Memᴰ x (xs ++ (y ∷ [])) → Memᴰ x xs ⊎ (x ≡ y)
Memᴰ-snoc x y [] (Memᴰ.head e) = inr e
Memᴰ-snoc x y [] (Memᴰ.tail inside) = elim inside [ ]
Memᴰ-snoc x y (z ∷ xs) (Memᴰ.head e) = inl (Memᴰ.head e)
Memᴰ-snoc x y (z ∷ xs) (Memᴰ.tail inside) = go (Memᴰ-snoc x y xs inside)
  where
    go : Memᴰ x xs ⊎ (x ≡ y) → Memᴰ x (z ∷ xs) ⊎ (x ≡ y)
    go (inl h) = inl (Memᴰ.tail h)
    go (inr e) = inr e

pub contains-Memᴰ : (xs : List ℕ) (t : ℕ) → contains xs t ≡ true → Memᴰ t xs
contains-Memᴰ [] t h = absurd (cc h)
contains-Memᴰ (x ∷ xs) t h = go (x == t) refl h (contains-Memᴰ xs t)
  where
    go :
        (b : Bool)
        → (x == t) ≡ b
        → (if b then true else contains xs t) ≡ true
        → (contains xs t ≡ true → Memᴰ t xs)
        → Memᴰ t (x ∷ xs)
    go true e h ih = Memᴰ.head (sym ((==_iff x t).0 e))
    go false e h ih = Memᴰ.tail (ih h)

-- What the union holds: what was there, and the configured ids inside the vocabulary.
pub union_ids-to :
    (n : ℕ) (out ids : List ℕ) (id : ℕ)
    → Memᴰ id (union_ids n out ids)
    → Memᴰ id out ⊎ (Memᴰ id ids × (as_usize id < n))
unfolding union_ids
union_ids-to n out [] id inside = inl inside
union_ids-to n out (x ∷ ids) id inside = go (ltb (as_usize x) n && not (contains out x)) refl (
    union_ids-to n (if ltb (as_usize x) n && not (contains out x) then out ++ (x ∷ []) else out) ids
      id inside)
  where
    pushed :
        as_usize x < n
        → Memᴰ id out ⊎ (id ≡ x)
        → Memᴰ id out ⊎ (Memᴰ id (x ∷ ids) × (as_usize id < n))
    pushed lt (inl h) = inl h
    pushed lt (inr e) = inr (Memᴰ.head e, subst (λ (m : ℕ). as_usize m < n) (sym e) lt)

    go :
        (b : Bool)
        → (ltb (as_usize x) n && not (contains out x)) ≡ b
        → Memᴰ id (if b then out ++ (x ∷ []) else out) ⊎ (Memᴰ id ids × (as_usize id < n))
        → Memᴰ id out ⊎ (Memᴰ id (x ∷ ids) × (as_usize id < n))
    go b e (inr (h, lt)) = inr (Memᴰ.tail h, lt)
    go false e (inl h) = inl h
    go true e (inl h) = pushed (in_range (ltb (as_usize x) n) refl e) (Memᴰ-snoc id x out h)
      where
        in_range :
            (c : Bool)
            → ltb (as_usize x) n ≡ c
            → (c && not (contains out x)) ≡ true
            → as_usize x < n
        in_range true e h = ground (arith, e)
        in_range false e h = absurd (cc h)

pub union_ids-kept :
    (n : ℕ) (out ids : List ℕ) (id : ℕ) → Memᴰ id out → Memᴰ id (union_ids n out ids)
unfolding union_ids
union_ids-kept n out [] id inside = inside
union_ids-kept n out (x ∷ ids) id inside =
    union_ids-kept n (if ltb (as_usize x) n && not (contains out x) then out ++ (x ∷ []) else out)
      ids id (go (ltb (as_usize x) n && not (contains out x)))
  where
    go : (b : Bool) → Memᴰ id (if b then out ++ (x ∷ []) else out)
    go true = Memᴰ-append_left id out (x ∷ []) inside
    go false = inside

pub union_ids-from :
    (n : ℕ) (out ids : List ℕ) (id : ℕ)
    → Memᴰ id ids
    → as_usize id < n
    → Memᴰ id (union_ids n out ids)
unfolding union_ids
union_ids-from n out [] id inside lt = elim inside [ ]
union_ids-from n out (x ∷ ids) id (Memᴰ.tail inside) lt =
    union_ids-from n (if ltb (as_usize x) n && not (contains out x) then out ++ (x ∷ []) else out)
      ids id inside lt
union_ids-from n out (x ∷ ids) id (Memᴰ.head same) lt =
    union_ids-kept n (if ltb (as_usize x) n && not (contains out x) then out ++ (x ∷ []) else out)
      ids id
      (subst
        (λ (m : ℕ).
          Memᴰ m (if ltb (as_usize x) n && not (contains out x) then out ++ (x ∷ []) else out))
        (sym same) (go (contains out x) refl))
  where
    fits : ltb (as_usize x) n ≡ true
    fits = ground (arith, ap as_usize same, lt)

    go :
        (c : Bool)
        → contains out x ≡ c
        → Memᴰ x (if ltb (as_usize x) n && not c then out ++ (x ∷ []) else out)
    go true e = rw (fits) (contains-Memᴰ out x e)
    go false e = rw (fits) (Memᴰ-append_last x out)
