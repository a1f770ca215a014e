-- ===== src/ToolMask/Names.antt =====
-- The tokens that the mask lets through inside a name, and the one that it forces.
use mathlib.Core.List.{Memᴰ}
use mathlib.Core.Option.{some-injective}
use kairos_engine.Base.{
  ℕ, suc, ◌≡◌, refl, ap, sym, ◌∙◌, subst, ◌↔◌, ◌⊎◌, inl, inr, Bool, true, false, ◌&&◌, Option, some,
  none, List, [], ◌∷◌, drop, if◌then◌else◌,
}
use kairos_engine.ToolMask.{
  ToolMask, enabled, offer, insert, next_ids, in_name, unless_empty, allowed, force_single, forced,
}
use kairos_engine.ToolMask.Offer.{
  IsTracking, Continues, offer-eq-some, offer-append, insert_sound, insert-keeps, insert-has,
}

-- A name of the list that offers the token.
abbrev OfferedBy : ToolMask → List (List ℕ) → ℕ → Type 0
OfferedBy m ns t = (n : List ℕ) × Memᴰ n ns × (offer m n ≡ some t)

later :
    (m : ToolMask) (n : List ℕ) (ns : List (List ℕ)) (t : ℕ)
    → OfferedBy m ns t
    → OfferedBy m (n ∷ ns) t
later m n ns t (n', inside, offers) = (n', Memᴰ.tail inside, offers)

next_ids_sound :
    (m : ToolMask) (ids : List ℕ) (ns : List (List ℕ)) (t : ℕ)
    → Memᴰ t (next_ids m ids ns)
    → Memᴰ t ids ⊎ OfferedBy m ns t
unfolding next_ids
next_ids_sound m ids [] t h = inl h
next_ids_sound m ids (n ∷ ns) t h = go (next_ids_sound m (insert ids (offer m n)) ns t h)
  where
    first : Memᴰ t ids ⊎ (offer m n ≡ some t) → Memᴰ t ids ⊎ OfferedBy m (n ∷ ns) t
    first (inl h) = inl h
    first (inr e) = inr (n, Memᴰ.head refl, e)

    go : Memᴰ t (insert ids (offer m n)) ⊎ OfferedBy m ns t → Memᴰ t ids ⊎ OfferedBy m (n ∷ ns) t
    go (inl h) = first (insert_sound ids (offer m n) t h)
    go (inr o) = inr (later m n ns t o)

next_ids-keeps :
    (m : ToolMask) (ids : List ℕ) (ns : List (List ℕ)) (t : ℕ)
    → Memᴰ t ids
    → Memᴰ t (next_ids m ids ns)
unfolding next_ids
next_ids-keeps m ids [] t h = h
next_ids-keeps m ids (n ∷ ns) t h =
    next_ids-keeps m (insert ids (offer m n)) ns t (insert-keeps ids (offer m n) t h)

next_ids-complete :
    (m : ToolMask) (ids : List ℕ) (ns : List (List ℕ)) (t : ℕ) (n : List ℕ)
    → Memᴰ n ns
    → offer m n ≡ some t
    → Memᴰ t (next_ids m ids ns)
unfolding next_ids
next_ids-complete m ids [] t n inside h = elim inside [ ]
next_ids-complete m ids (n' ∷ ns) t n (Memᴰ.head e) h =
    next_ids-keeps m (insert ids (offer m n')) ns t
      (subst (λ (o : Option ℕ). Memᴰ t (insert ids o)) (sym h ∙ ap (offer m) e) (insert-has ids t))
next_ids-complete m ids (n' ∷ ns) t n (Memᴰ.tail inside) h =
    next_ids-complete m (insert ids (offer m n')) ns t n inside h

Continues-iff :
    (m : ToolMask) (t : ℕ) → IsTracking m → Memᴰ t (next_ids m [] m.names) ↔ Continues m t
Continues-iff m t h = (λ k. sound (next_ids_sound m [] m.names t k), complete)
  where
    sound : Memᴰ t [] ⊎ OfferedBy m m.names t → Continues m t
    sound (inl none_yet) = elim none_yet [ ]
    sound (inr (n, inside, offers)) =
        (n, inside, (drop (suc m.depth) n, offer-eq-some m n t offers))

    complete : Continues m t → Memᴰ t (next_ids m [] m.names)
    complete (n, inside, (rest, e)) =
        next_ids-complete m [] m.names t n inside (ap (offer m) e ∙ offer-append m t rest h)

-- The list that `allowed` returns is the list of the ids collected.
allowed-ids : (m : ToolMask) (ids : List ℕ) → (allowed m).0 ≡ some ids → ids ≡ next_ids m [] m.names
unfolding allowed
allowed-ids m ids h = go (in_name m.state && enabled m) h
  where
    of_list : (ts : List ℕ) → (unless_empty m ts).0 ≡ some ids → ids ≡ ts
    of_list [] h = absurd (cc h)
    of_list (t ∷ ts) h = sym (some-injective (t ∷ ts) ids h)

    go :
        (b : Bool)
        → (if b then unless_empty m (next_ids m [] m.names) else (none, m)).0 ≡ some ids
        → ids ≡ next_ids m [] m.names
    go true h = of_list (next_ids m [] m.names) h
    go false h = absurd (cc h)

-- Where the mask constrains, it lets a token through exactly when some tool's name goes on with
-- that token after the tokens spelled so far; the depth must not exceed the history.
pub allowed_iff_Continues :
    (m : ToolMask) (ids : List ℕ) (t : ℕ)
    → IsTracking m
    → (allowed m).0 ≡ some ids
    → Memᴰ t ids ↔ Continues m t
allowed_iff_Continues m ids t h e =
    subst (λ (l : List ℕ). Memᴰ t l ↔ Continues m t) (sym (allowed-ids m ids e))
      (Continues-iff m t h)

forced-single : (m : ToolMask) (t : ℕ) → (forced m).0 ≡ some t → (allowed m).0 ≡ some (t ∷ [])
unfolding forced
forced-single m t h = go (allowed m) h
  where
    go : (r : Option (List ℕ) × ToolMask) → (force_single r).0 ≡ some t → r.0 ≡ some (t ∷ [])
    go (none, m') h = absurd (cc h)
    go (some [], m') h = absurd (cc h)
    go (some (u ∷ []), m') h = ap (λ (x : ℕ). some (x ∷ [])) (some-injective u t h)
    go (some (u ∷ v ∷ ts), m') h = absurd (cc h)

-- A token that is forced, without a forward pass, is the only one with which a tool's name goes
-- on; the depth must not exceed the history.
pub forced_is_only :
    (m : ToolMask) (t : ℕ)
    → IsTracking m
    → (forced m).0 ≡ some t
    → Continues m t × ((u : ℕ) → Continues m u → u ≡ t)
forced_is_only m t h e = (
  (allowed_iff_Continues m (t ∷ []) t h (forced-single m t e)).0 (Memᴰ.head refl),
  λ (u : ℕ) k. single ((allowed_iff_Continues m (t ∷ []) u h (forced-single m t e)).1 k),
)
  where
    single : {u : ℕ} → Memᴰ u (t ∷ []) → u ≡ t
    single (Memᴰ.head same) = same
    single (Memᴰ.tail further) = elim further [ ]
