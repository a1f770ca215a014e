-- ===== src/Recall/Lexical/Pick.antt =====
-- The entry that a reply picks is the one whose tag it names first.
use kairos_engine.Base.{
  ℕ, zero, suc, ◌+◌, ◌<◌, ◌≤◌, ◌≡◌, refl, ap, sym, ◌∙◌, ◌⊎◌, inl, inr, Bool, true, false, Option,
  none, some, List, [], ◌∷◌, length, get_elem?, ltb, if◌then◌else◌, subst, arith,
}
use mathlib.Core.Option.{some-injective}
use kairos_engine.Base.Text.{codes}
use kairos_engine.Recall.Lexical.{Text, starts_with}
use kairos_engine.Recall.Lexical.Evidence.{
  to_ascii_uppercase, find, next_place, Pick, usize_max, earlier, pick_loop, or_none, pick_tag,
}

find-le : (s p : Text) (j : ℕ) → find s p ≡ some j → j ≤ length s
unfolding find
find-le [] p j h = here (starts_with [] p) h
  where
    here : (b : Bool) → (if b then some 0 else none) ≡ some j → j ≤ 0
    here true e = omega (arith, some-injective 0 j e)
    here false e = absurd (cc e)
find-le (c ∷ s) p j h = here (starts_with (c ∷ s) p) h (later (find s p) (find-le s p))
  where
    later :
        (o : Option ℕ)
        → ((k : ℕ) → o ≡ some k → k ≤ length s)
        → (k : ℕ) → next_place o ≡ some k
        → k ≤ suc (length s)
    later none f k e = absurd (cc e)
    later (some i) f k e = omega (arith, f i refl, some-injective (suc i) k e)

    here :
        (b : Bool)
        → (if b then some 0 else next_place (find s p)) ≡ some j
        → ((k : ℕ) → next_place (find s p) ≡ some k → k ≤ suc (length s))
        → j ≤ suc (length s)
    here true e f = omega (arith, some-injective 0 j e)
    here false e f = f j e

module _ (up : Text) where
  abbrev Found : Text → ℕ → Type 0
  Found t j = find up (to_ascii_uppercase t) ≡ some j

  -- What one entry's tag does to the pick.
  record Step (i : ℕ) (t : Text) (p q : Pick) : Type 0 where
    lower : q.ti ≤ p.ti
    not_after : (j : ℕ) → Found t j → q.ti ≤ j
    from : (q ≡ p) ⊎ ((q.pick ≡ some i) × Found t q.ti)

  earlier-Step :
      (i : ℕ) (t : Text) (p : Pick) → Step i t p (earlier p i (find up (to_ascii_uppercase t)))
  earlier-Step i t p = go (find up (to_ascii_uppercase t)) refl
    where
      at :
          (j : ℕ) (b : Bool)
          → ltb j p.ti ≡ b
          → Found t j
          → Step i t p (if b then record { pick = some i; ti = j } else p)
      at j true e h = record {
        lower = ground (arith, e);
        not_after = λ k f. omega (arith, some-injective j k (sym h ∙ f));
        from = inr (refl, h);
      }
      at j false e h = record {
        lower = omega arith;
        not_after = λ k f. ground (arith, e, some-injective j k (sym h ∙ f));
        from = inl refl;
      }

      go : (o : Option ℕ) → find up (to_ascii_uppercase t) ≡ o → Step i t p (earlier p i o)
      go none e = record {
        lower = omega arith;
        not_after = λ j f. absurd (cc (sym e ∙ f));
        from = inl refl;
      }
      go (some j) e = at j (ltb j p.ti) refl e

  -- The pick after the entries from number `i` on.
  record Loop (i : ℕ) (tags : List Text) (p q : Pick) : Type 0 where
    lower : q.ti ≤ p.ti
    not_after : (m : ℕ) (t : Text) (j : ℕ) → get_elem? tags m ≡ some t → Found t j → q.ti ≤ j
    from :
        (q ≡ p)
        ⊎ ((m : ℕ) × (t : Text) × (q.pick ≡ some (i + m))
            × (get_elem? tags m ≡ some t)
            × Found t q.ti)

  pick_loop-Loop : (i : ℕ) (tags : List Text) (p : Pick) → Loop i tags p (pick_loop up i tags p)
  unfolding pick_loop
  pick_loop-Loop i [] p = record {
    lower = omega arith;
    not_after = λ m t j e f. absurd (cc e);
    from = inl refl;
  }
  pick_loop-Loop i (t ∷ tags) p =
      join (earlier p i (find up (to_ascii_uppercase t))) (earlier-Step i t p)
        (pick_loop-Loop (suc i) tags (earlier p i (find up (to_ascii_uppercase t))))
    where
      join :
          (p' : Pick)
          → Step i t p p'
          → Loop (suc i) tags p' (pick_loop up (suc i) tags p')
          → Loop i (t ∷ tags) p (pick_loop up (suc i) tags p')
      join p' st lp = record {
        lower = omega (arith, st.lower, lp.lower);
        not_after = after;
        from = elim lp.from [
          | inl same ↦ elim st.from [
            | inl kept ↦ inl (same ∙ kept)
            | inr (picked, found) ↦ inr (
              0,
              t,
              ap (λ (r : Pick). r.pick) same ∙ picked ∙ ap some (omega arith),
              refl,
              subst (λ (r : Pick). Found t r.ti) (sym same) found,
            )
          ]
          | inr (m, u, picked, there, found) ↦
              inr (suc m, u, picked ∙ ap some (omega arith), there, found)
        ];
      }
        where
          after :
              (m : ℕ) (u : Text) (j : ℕ)
              → get_elem? (t ∷ tags) m ≡ some u
              → Found u j
              → (pick_loop up (suc i) tags p').ti ≤ j
          after zero u j e f = omega (
            arith,
            lp.lower,
            st.not_after j (subst (λ (v : Text). Found v j) (sym (some-injective t u e)) f),
          )
          after (suc m) u j e f = lp.not_after m u j e f

-- The tag of this entry stands in the reply at `place`, no other tag and no `NONE` before it.
pub record IsEarliest (up : Text) (tags : List Text) (i : ℕ) : Type 0 where
  pub tag : Text
  pub place : ℕ
  pub is_tag : get_elem? tags i ≡ some tag
  pub found : find up (to_ascii_uppercase tag) ≡ some place
  pub first :
      (m : ℕ) (t : Text) (j : ℕ)
      → get_elem? tags m ≡ some t
      → find up (to_ascii_uppercase t) ≡ some j
      → place ≤ j
  pub before_none : (j : ℕ) → find up (codes "NONE") ≡ some j → place ≤ j

-- Every tag in the reply stands after a `NONE`.
abbrev pub NoneFirst : Text → List Text → Type 0
NoneFirst up tags =
    (m : ℕ) (t : Text) (j : ℕ)
    → get_elem? tags m ≡ some t
    → find up (to_ascii_uppercase t) ≡ some j
    → (k : ℕ) × (find up (codes "NONE") ≡ some k) × (k < j)

-- A reply shorter than `usize::MAX` picks the entry whose tag stands first in it, if that is not
-- after `NONE`; it picks none exactly where every tag in it stands after a `NONE`, so also where
-- no tag stands in it.
pub pick_tag-Earliest :
    (up : Text) (tags : List Text)
    → length up < usize_max
    → ((pick_tag up tags ≡ none) × NoneFirst up tags)
      ⊎ ((i : ℕ) × (pick_tag up tags ≡ some i) × IsEarliest up tags i)
unfolding pick_tag
pick_tag-Earliest up tags short =
    go (pick_loop up 0 tags start) (pick_loop-Loop up 0 tags start) (find up (codes "NONE")) refl
  where
    start : Pick
    start = record { pick = none; ti = usize_max }

    go :
        (q : Pick)
        → Loop up 0 tags start q
        → (o : Option ℕ) → find up (codes "NONE") ≡ o
        → ((or_none q o ≡ none) × NoneFirst up tags)
          ⊎ ((i : ℕ) × (or_none q o ≡ some i) × IsEarliest up tags i)
    go q lp o e = elim lp.from [
      | inl same ↦ inl (
        none_of o (ap (λ (r : Pick). r.pick) same),
        λ m t j is found. absurd (
            omega (
              arith,
              lp.not_after m t j is found,
              ap (λ (r : Pick). r.ti) same,
              find-le up (to_ascii_uppercase t) j found,
              short,
            )),
      )
      | inr (m, t, picked, is, found) ↦ placed o e m t picked is found
    ]
      where
        none_of : (o : Option ℕ) → q.pick ≡ none → or_none q o ≡ none
        none_of none h = h
        none_of (some k) h = either (ltb k q.ti) h
          where
            either : (b : Bool) → q.pick ≡ none → (if b then none else q.pick) ≡ none
            either true h = refl
            either false h = h

        placed :
            (o : Option ℕ)
            → find up (codes "NONE") ≡ o
            → (m : ℕ) (t : Text) → q.pick ≡ some (0 + m)
            → get_elem? tags m ≡ some t
            → find up (to_ascii_uppercase t) ≡ some q.ti
            → ((or_none q o ≡ none) × NoneFirst up tags)
              ⊎ ((i : ℕ) × (or_none q o ≡ some i) × IsEarliest up tags i)
        placed none e m t picked is found = inr (
          m,
          picked ∙ ap some (omega arith),
          record {
            tag = t;
            place = q.ti;
            is_tag = is;
            found = found;
            first = lp.not_after;
            before_none = λ j f. absurd (cc (sym e ∙ f));
          },
        )
        placed (some k) e m t picked is found = before (ltb k q.ti) refl
          where
            before :
                (b : Bool)
                → ltb k q.ti ≡ b
                → (((if b then none else q.pick) ≡ none) × NoneFirst up tags)
                  ⊎ ((i : ℕ) × ((if b then none else q.pick) ≡ some i) × IsEarliest up tags i)
            before true lt =
                inl (refl, λ m' t' j is' f. (k, e, ground (arith, lt, lp.not_after m' t' j is' f)))
            before false ge = inr (
              m,
              picked ∙ ap some (omega arith),
              record {
                tag = t;
                place = q.ti;
                is_tag = is;
                found = found;
                first = lp.not_after;
                before_none = λ j f. ground (arith, ge, some-injective k j (sym e ∙ f));
              },
            )
