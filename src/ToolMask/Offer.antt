-- ===== src/ToolMask/Offer.antt =====
-- What a name offers after the tokens spelled so far, and the set of offers.
use mathlib.Core.List.{Memᴰ}
use kairos_engine.Base.{
  ℕ, suc, ◌-◌, ◌≤◌, ◌≡◌, refl, ap, sym, ◌∙◌, ◌⊎◌, inl, inr, Bool, true, false, ◌&&◌, Option, some,
  none, List, [], ◌∷◌, ◌++◌, length, get_elem?, take, drop, length-append, length-drop, take-append,
  get_elem?-append, cut_at, list_beq, list_beq→eq, list_beq_refl, ltb, ltb→lt, ◌==◌, ==_iff,
  if◌then◌else◌, arith,
}
use kairos_engine.ToolMask.{ToolMask, contains, spelled, prefix_ok, offer, insert}

-- The depth counts tokens of the history.
abbrev pub IsTracking : ToolMask → Type 0
IsTracking m = m.depth ≤ length m.hist

-- A tool's name goes on with this token after the tokens spelled so far.
abbrev pub Continues : ToolMask → ℕ → Type 0
Continues m t = (n : List ℕ) × Memᴰ n m.names × ((rest : List ℕ) × (n ≡ spelled m ++ (t ∷ rest)))

pub length-spelled : (m : ToolMask) → IsTracking m → length (spelled m) ≡ m.depth
length-spelled m h = omega (arith, length-drop (length m.hist - m.depth) m.hist, h)

pub prefix_ok-eq : (m : ToolMask) (n : List ℕ) → prefix_ok m n ≡ true → spelled m ≡ take m.depth n
unfolding prefix_ok
prefix_ok-eq m n h = go (ltb (length n) m.depth) h
  where
    go :
        (b : Bool)
        → (if b then false else list_beq (spelled m) (take m.depth n)) ≡ true
        → spelled m ≡ take m.depth n
    go true h = absurd (cc h)
    go false h = list_beq→eq (spelled m) (take m.depth n) h

pub prefix_ok-append :
    (m : ToolMask) (rest : List ℕ) → IsTracking m → prefix_ok m (spelled m ++ rest) ≡ true
unfolding prefix_ok
prefix_ok-append m rest h = go (ltb (length (spelled m ++ rest)) m.depth) refl
  where
    same : take m.depth (spelled m ++ rest) ≡ spelled m
    same =
        ap (λ (d : ℕ). take d (spelled m ++ rest)) (sym (length-spelled m h))
        ∙ take-append (spelled m) rest

    go :
        (b : Bool)
        → ltb (length (spelled m ++ rest)) m.depth ≡ b
        → (if b then false else list_beq (spelled m) (take m.depth (spelled m ++ rest))) ≡ true
    go true e = absurd (
        omega (
          arith,
          ltb→lt (length (spelled m ++ rest)) m.depth e,
          length-append (spelled m) rest,
          length-spelled m h,
        ))
    go false e = ap (list_beq (spelled m)) same ∙ list_beq_refl (spelled m)

pub offer-eq-some :
    (m : ToolMask) (n : List ℕ) (t : ℕ)
    → offer m n ≡ some t
    → n ≡ spelled m ++ (t ∷ drop (suc m.depth) n)
unfolding offer
offer-eq-some m n t h = go (ltb m.depth (length n)) (prefix_ok m n) refl h
  where
    go :
        (b c : Bool)
        → prefix_ok m n ≡ c
        → (if b && c then get_elem? n m.depth else none) ≡ some t
        → n ≡ spelled m ++ (t ∷ drop (suc m.depth) n)
    go true true e h =
        cut_at n m.depth h
        ∙ ap (λ (xs : List ℕ). xs ++ (t ∷ drop (suc m.depth) n)) (sym (prefix_ok-eq m n e))
    go true false e h = absurd (cc h)
    go false c e h = absurd (cc h)

pub offer-append :
    (m : ToolMask) (t : ℕ) (rest : List ℕ)
    → IsTracking m
    → offer m (spelled m ++ (t ∷ rest)) ≡ some t
unfolding offer
offer-append m t rest h =
    go (ltb m.depth (length (spelled m ++ (t ∷ rest)))) refl (prefix_ok m (spelled m ++ (t ∷ rest)))
      (prefix_ok-append m (t ∷ rest) h)
  where
    here : get_elem? (spelled m ++ (t ∷ rest)) m.depth ≡ some t
    here =
        ap (get_elem? (spelled m ++ (t ∷ rest))) (sym (length-spelled m h))
        ∙ get_elem?-append (spelled m) t rest

    go :
        (b : Bool)
        → ltb m.depth (length (spelled m ++ (t ∷ rest))) ≡ b
        → (c : Bool) → c ≡ true
        → (if b && c then get_elem? (spelled m ++ (t ∷ rest)) m.depth else none) ≡ some t
    go true e true ec = here
    go true e false ec = absurd (cc ec)
    go false e c ec =
        absurd (ground (arith, length-append (spelled m) (t ∷ rest), length-spelled m h))

contains→Mem : (ids : List ℕ) (t : ℕ) → contains ids t ≡ true → Memᴰ t ids
contains→Mem [] t h = absurd (cc h)
contains→Mem (x ∷ xs) t h = go (contains→Mem xs t) (x == t) refl h
  where
    go :
        (contains xs t ≡ true → Memᴰ t xs)
        → (b : Bool) → (x == t) ≡ b
        → (if b then true else contains xs t) ≡ true
        → Memᴰ t (x ∷ xs)
    go ih true e h = Memᴰ.head (sym ((==_iff x t).0 e))
    go ih false e h = Memᴰ.tail (ih h)

pub insert_sound :
    (ids : List ℕ) (o : Option ℕ) (t : ℕ) → Memᴰ t (insert ids o) → Memᴰ t ids ⊎ (o ≡ some t)
insert_sound ids none t h = inl h
insert_sound ids (some u) t h = go (contains ids u) h
  where
    go : (b : Bool) → Memᴰ t (if b then ids else u ∷ ids) → Memᴰ t ids ⊎ (some u ≡ some t)
    go true h = inl h
    go false (Memᴰ.head e) = inr (ap some (sym e))
    go false (Memᴰ.tail h) = inl h

pub insert-keeps : (ids : List ℕ) (o : Option ℕ) (t : ℕ) → Memᴰ t ids → Memᴰ t (insert ids o)
insert-keeps ids none t h = h
insert-keeps ids (some u) t h = go (contains ids u)
  where
    go : (b : Bool) → Memᴰ t (if b then ids else u ∷ ids)
    go true = h
    go false = Memᴰ.tail h

pub insert-has : (ids : List ℕ) (t : ℕ) → Memᴰ t (insert ids (some t))
insert-has ids t = go (contains ids t) refl
  where
    go : (b : Bool) → contains ids t ≡ b → Memᴰ t (if b then ids else t ∷ ids)
    go true e = contains→Mem ids t e
    go false e = Memᴰ.head refl
