-- ===== src/Recall/EpisodeDir/Resolved.antt =====
-- What a resolved directory is.
use mathlib.Core.Option.{some-injective}
use mathlib.Core.List.{append_assoc}
use kairos_engine.Base.{
  ℕ, ◌≡◌, ◌≢◌, refl, ap, sym, ◌∙◌, ◌⊎◌, inl, inr, Bool, true, false, ◌&&◌, ◌||◌, Option, some, List,
  [], ◌∷◌, ◌++◌, if◌then◌else◌,
}
use kairos_engine.Recall.EpisodeDir.{
  EpisodeDir, as_written, moved_to, cold_at, missing, is_sep, sep_cons, trim_seps, any_sep,
  last_part, nonempty, ep_basename, norm_root, is_empty, joined,
}

abbrev pub all_sep : List ℕ → Bool
all_sep [] = true
all_sep (c ∷ cs) = is_sep c && all_sep cs

-- The last component of a path: not empty, without a separator, with only separators after it and
-- a separator before it, if anything.
pub record IsBasename (dir base : List ℕ) : Type 0 where
  pub before : List ℕ
  pub after : List ℕ
  pub whole : dir ≡ before ++ (base ++ after)
  pub closed : all_sep after ≡ true
  pub alone : any_sep base ≡ false
  pub some_char : base ≢ []
  pub parted :
      (before ≡ [])
      ⊎ ((root : List ℕ) × (sep : ℕ) × (is_sep sep ≡ true) × (before ≡ root ++ (sep ∷ [])))

trim_seps-after :
    (dir : List ℕ) → (after : List ℕ) × (dir ≡ trim_seps dir ++ after) × (all_sep after ≡ true)
unfolding trim_seps
trim_seps-after [] = ([], refl, refl)
trim_seps-after (c ∷ cs) = go (trim_seps cs) (trim_seps-after cs)
  where
    go :
        (t : List ℕ)
        → (after : List ℕ) × (cs ≡ t ++ after) × (all_sep after ≡ true)
        → (after : List ℕ) × (c ∷ cs ≡ sep_cons c t ++ after) × (all_sep after ≡ true)
    go (d ∷ ds) (after, e, all) = (after, ap (λ (l : List ℕ). c ∷ l) e, all)
    go [] (after, e, all) = last (is_sep c) refl
      where
        last :
            (b : Bool)
            → is_sep c ≡ b
            → (after : List ℕ) × (c ∷ cs ≡ (if b then [] else c ∷ []) ++ after)
              × (all_sep after ≡ true)
        last true h = (c ∷ after, ap (λ (l : List ℕ). c ∷ l) e, rw (h) all)
        last false h = (after, ap (λ (l : List ℕ). c ∷ l) e, all)

-- The last part of a text, alone or after a separator.
record IsLast (text part : List ℕ) : Type 0 where
  before : List ℕ
  whole : text ≡ before ++ part
  alone : any_sep part ≡ false
  parted :
      (before ≡ [])
      ⊎ ((root : List ℕ) × (sep : ℕ) × (is_sep sep ≡ true) × (before ≡ root ++ (sep ∷ [])))

last_part-IsLast : (text : List ℕ) → IsLast text (last_part text)
unfolding last_part
last_part-IsLast [] = record { before = []; whole = refl; alone = refl; parted = inl refl }
last_part-IsLast (c ∷ cs) = go (any_sep cs) (is_sep c) refl refl (last_part-IsLast cs)
  where
    more :
        (before : List ℕ)
        → (before ≡ [])
          ⊎ ((root : List ℕ) × (sep : ℕ) × (is_sep sep ≡ true) × (before ≡ root ++ (sep ∷ [])))
        → cs ≡ before ++ last_part cs
        → any_sep cs ≡ true
        → any_sep (last_part cs) ≡ false
        → (c ∷ before ≡ [])
          ⊎ ((root : List ℕ) × (sep : ℕ) × (is_sep sep ≡ true) × (c ∷ before ≡ root ++ (sep ∷ [])))
    more before (inr (root, sep, h, e)) whole has alone =
        inr (c ∷ root, sep, h, ap (λ (l : List ℕ). c ∷ l) e)
    more before (inl e) whole has alone =
        absurd
          (cc (sym has ∙ ap any_sep (whole ∙ ap (λ (l : List ℕ). l ++ last_part cs) e) ∙ alone))

    go :
        (a b : Bool)
        → any_sep cs ≡ a
        → is_sep c ≡ b
        → IsLast cs (last_part cs)
        → IsLast (c ∷ cs) (if a then last_part cs else if b then cs else c ∷ cs)
    go true b ea eb ih = record {
      before = c ∷ ih.before;
      whole = ap (λ (l : List ℕ). c ∷ l) ih.whole;
      alone = ih.alone;
      parted = more ih.before ih.parted ih.whole ea ih.alone;
    }
    go false true ea eb ih = record {
      before = c ∷ [];
      whole = refl;
      alone = ea;
      parted = inr ([], c, eb, refl);
    }
    go false false ea eb ih = record {
      before = [];
      whole = refl;
      alone = rw (eb) ea;
      parted = inl refl;
    }

pub ep_basename-IsBasename : (dir base : List ℕ) → ep_basename dir ≡ some base → IsBasename dir base
unfolding ep_basename
ep_basename-IsBasename dir base h =
    go (last_part (trim_seps dir)) h (last_part-IsLast (trim_seps dir)) (trim_seps-after dir)
  where
    go :
        (part : List ℕ)
        → nonempty part ≡ some base
        → IsLast (trim_seps dir) part
        → (after : List ℕ) × (dir ≡ trim_seps dir ++ after) × (all_sep after ≡ true)
        → IsBasename dir base
    go [] h l a = absurd (cc h)
    go (c ∷ cs) h l (after, e, all) =
        let same : c ∷ cs ≡ base = some-injective (c ∷ cs) base h in
        record {
          before = l.before;
          after = after;
          whole =
              e
              ∙ ap (λ (t : List ℕ). t ++ after) l.whole
              ∙ append_assoc l.before (c ∷ cs) after
              ∙ ap (λ (t : List ℕ). l.before ++ (t ++ after)) same;
          closed = all;
          alone = ap any_sep (sym same) ∙ l.alone;
          some_char = λ z. absurd (cc (same ∙ z));
          parted = l.parted;
        }

module _ (is_dir : List ℕ → Bool) (ep_key : List ℕ → List ℕ) (moved : List ℕ → Bool) where
  -- The row's path is there and is no directory.
  abbrev pub IsGone : List ℕ → Type 0
  IsGone dir = (is_empty dir ≡ false) × (is_dir dir ≡ false)

  -- A root is configured, and the episode's directory stands in it.
  abbrev pub IsBelow : List ℕ → List ℕ → Type 0
  IsBelow root base = (is_empty root ≡ false) × (is_dir (joined root base) ≡ true)

  -- What each outcome says of the disk.
  abbrev pub Says : List ℕ → Option (List ℕ) → Option (List ℕ) → EpisodeDir → Type 0
  Says dir eps_root cold_root as_written = (is_empty dir || is_dir dir) ≡ true
  Says dir eps_root cold_root (moved_to p) =
      IsGone dir
      × (base : List ℕ) × IsBasename dir base
      × IsBelow (norm_root eps_root) base
      × (p ≡ joined (norm_root eps_root) base)
  Says dir eps_root cold_root (cold_at p) =
      IsGone dir
      × (base : List ℕ) × IsBasename dir base
      × (¬ IsBelow (norm_root eps_root) base)
      × IsBelow (norm_root cold_root) base
      × (moved (ep_key base) ≡ true)
      × (p ≡ joined (norm_root cold_root) base)
  Says dir eps_root cold_root missing =
      IsGone dir
      × ((base : List ℕ)
          → ep_basename dir ≡ some base
          → (¬ IsBelow (norm_root eps_root) base)
            × (¬ (IsBelow (norm_root cold_root) base × (moved (ep_key base) ≡ true))))
