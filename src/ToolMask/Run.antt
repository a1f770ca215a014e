-- ===== src/ToolMask/Run.antt =====
-- A call's name generated under the mask, token by token.
use mathlib.Core.List.{Memᴰ, append_assoc, append-nil}
use kairos_engine.Base.{
  ℕ, ◌+◌, ◌-◌, ◌≡◌, refl, ap, sym, ◌∙◌, subst, Bool, true, false, ◌&&◌, some, none, List, [], ◌∷◌,
  ◌++◌, length, drop, length-append, drop-append_le, if◌then◌else◌, arith,
}
use kairos_engine.ToolMask.{
  name, ToolMask, contains, spelled, prefix_ok, off_path, go_to, seen, counted, transition, push,
  enabled, in_name, next_ids, unless_empty, allowed,
}
use kairos_engine.ToolMask.Offer.{IsTracking, Continues, prefix_ok-append}
use kairos_engine.ToolMask.Names.{allowed_iff_Continues}

-- The tokens so far begin the name of a tool.
abbrev pub Begins : ToolMask → Type 0
Begins m = (n : List ℕ) × Memᴰ n m.names × ((rest : List ℕ) × (n ≡ spelled m ++ rest))

pub record OnName (m : ToolMask) : Type 0 where
  pub in_state : m.state ≡ name
  pub tracks : IsTracking m
  pub begins : Begins m

-- The mask after one more token of the name.
abbrev grown : ToolMask → ℕ → ToolMask
grown m t = go_to (seen m t) name (m.depth + 1)

spelled-grown : (m : ToolMask) (t : ℕ) → IsTracking m → spelled (grown m t) ≡ spelled m ++ (t ∷ [])
spelled-grown m t h =
    ap (λ (k : ℕ). drop k (m.hist ++ (t ∷ []))) same
    ∙ drop-append_le (length m.hist - m.depth) m.hist (t ∷ []) (omega arith)
  where
    same : length (m.hist ++ (t ∷ [])) - (m.depth + 1) ≡ length m.hist - m.depth
    same = omega (arith, length-append m.hist (t ∷ []), h)

grown-IsTracking : (m : ToolMask) (t : ℕ) → IsTracking m → IsTracking (grown m t)
grown-IsTracking m t h = omega (arith, length-append m.hist (t ∷ []), h)

off_path-eq-false :
    (m : ToolMask) (ns : List (List ℕ)) (n : List ℕ)
    → Memᴰ n ns
    → prefix_ok m n ≡ true
    → off_path m ns ≡ false
off_path-eq-false m [] n inside h = elim inside [ ]
off_path-eq-false m (n' ∷ ns) n (Memᴰ.head e) h = rw (sym e, h) refl
off_path-eq-false m (n' ∷ ns) n (Memᴰ.tail inside) h =
    go (prefix_ok m n') (off_path-eq-false m ns n inside h)
  where
    go : (b : Bool) → off_path m ns ≡ false → (if b then false else off_path m ns) ≡ false
    go true e = refl
    go false e = e

-- A token that goes on with a name, without an open parenthesis, keeps the mask in the name.
push-grown :
    (m : ToolMask) (t : ℕ) (piece : List ℕ)
    → OnName m
    → Continues m t
    → contains piece 40 ≡ false
    → (push m t piece ≡ grown m t) × OnName (grown m t)
unfolding push transition
push-grown m t piece on (n, inside, (rest, e)) no_paren = (
  rw (on.in_state, no_paren, off_path-eq-false (grown m t) m.names n inside fits) refl,
  record {
    in_state = refl;
    tracks = grown-IsTracking m t on.tracks;
    begins = (n, inside, (rest, longer));
  },
)
  where
    longer : n ≡ spelled (grown m t) ++ rest
    longer =
        e
        ∙ sym (append_assoc (spelled m) (t ∷ []) rest)
        ∙ ap (λ (xs : List ℕ). xs ++ rest) (sym (spelled-grown m t on.tracks))

    fits : prefix_ok (grown m t) n ≡ true
    fits =
        ap (prefix_ok (grown m t)) longer
        ∙ prefix_ok-append (grown m t) rest (grown-IsTracking m t on.tracks)

allowed-counted :
    (m : ToolMask) (ids : List ℕ)
    → (allowed m).0 ≡ some ids
    → (allowed m).1 ≡ counted m (m.masked_steps + 1) m.forced_steps
unfolding allowed
allowed-counted m ids h = go (in_name m.state && enabled m) (next_ids m [] m.names) h
  where
    go :
        (b : Bool) (ts : List ℕ)
        → (if b then unless_empty m ts else (none, m)).0 ≡ some ids
        → (if b then unless_empty m ts else (none, m)).1
          ≡ counted m (m.masked_steps + 1) m.forced_steps
    go true [] h = absurd (cc h)
    go true (t ∷ ts) h = refl
    go false ts h = absurd (cc h)

-- Generation under the mask: at each step `allowed` constrains, one of its ids is emitted, and the
-- piece has no open parenthesis.
pub data Run : ToolMask → List ℕ → ToolMask → Type 0 where
  done : {m : ToolMask} → Run m [] m
  more :
      {m m' : ToolMask} {ts : List ℕ} (ids : List ℕ) (t : ℕ) (piece : List ℕ)
      → (allowed m).0 ≡ some ids
      → Memᴰ t ids
      → contains piece 40 ≡ false
      → Run (push (allowed m).1 t piece) ts m'
      → Run m (t ∷ ts) m'

on_counted : (m : ToolMask) (a b : ℕ) → OnName m → OnName (counted m a b)
on_counted m a b on = record { in_state = on.in_state; tracks = on.tracks; begins = on.begins }

-- While the mask constrains, the mask stays in the name, and the tokens spelled grow by exactly
-- the tokens emitted and begin the name of a tool, whatever is picked from the ids let through.
pub Run-spelled :
    (m m' : ToolMask) (ts : List ℕ)
    → OnName m
    → Run m ts m'
    → OnName m' × (spelled m' ≡ spelled m ++ ts)
Run-spelled m m' [] on done = (on, sym (append-nil (spelled m)))
Run-spelled m m' (t ∷ ts) on (more ids _ piece e inside no_paren rest) =
    let after = allowed-counted m ids e in
    let c = counted m (m.masked_steps + 1) m.forced_steps in
    let (same, on') =
      push-grown c t piece (on_counted m (m.masked_steps + 1) m.forced_steps on)
        ((allowed_iff_Continues m ids t on.tracks e).0 inside) no_paren in
    let (on'', spells) = Run-spelled (grown c t) m' ts on' (
      subst (λ (x : ToolMask). Run x ts m') (ap (λ (x : ToolMask). push x t piece) after ∙ same)
        rest) in
    (
      on'',
      spells
          ∙ ap (λ (xs : List ℕ). xs ++ ts) (spelled-grown c t on.tracks)
          ∙ append_assoc (spelled m) (t ∷ []) ts,
    )
