-- ===== src/Spine/Top.antt =====
-- The loop over the candidates keeps the greatest cosine and the greatest of the others.
use mathlib.Core.List.{Permᴰ, Memᴰ, append-nil}
use mathlib.Core.List.Permᴰ
use kairos_engine.Base.{
  ℕ, ◌≡◌, refl, sym, Bool, true, false, Option, none, some, List, [], ◌∷◌, ◌++◌, length, ◌==◌,
  ==_iff, ◌⊎◌, inl, inr, if◌then◌else◌, subst, All,
}
use kairos_engine.Spine.{Floats, Chars, Episode, cos512}
use kairos_engine.Spine.Deciders.{Ranking, rank_in, l5_loop}

-- Numbers that are not NaN, and how `<=` and `<` compare them.
pub record Ordered (fl : Floats) : Type 1 where
  pub IsNumber : fl.F32 → Type 0
  pub less_leq : (a b : fl.F32) → fl.less a b ≡ true → fl.leq a b ≡ true
  pub not_less : (a b : fl.F32) → IsNumber a → IsNumber b → fl.less a b ≡ false → fl.leq b a ≡ true
  pub not_leq : (a b : fl.F32) → IsNumber a → IsNumber b → fl.leq a b ≡ false → fl.leq b a ≡ true
  pub leq_trans : (a b c : fl.F32) → fl.leq a b ≡ true → fl.leq b c ≡ true → fl.leq a c ≡ true
  pub leq_refl : (a : fl.F32) → IsNumber a → fl.leq a a ≡ true
  pub infinity_number : IsNumber fl.neg_infinity

module _ (fl : Floats) (ch : Chars) (hd : ℕ) (query : List fl.F32) where
  open fl use {F32, leq, less, neg_infinity}

  -- The cosines of the candidates that have a key of the right size.
  unfoldable pub cosines : List (Episode fl) → List F32
  cosines [] = []
  cosines (ep ∷ eps) =
      let rest = cosines eps in
      if length ep.l5key == hd then cos512 fl query ep.l5key ∷ rest else rest

  -- The best and the second of a list of cosines: the best, with the others, is that list, none of
  -- the others is above the second or above the best, and the second is one of the others or the
  -- negative infinity that it was at first.
  abbrev pub IsTop : List F32 → Option (F32 × Episode fl) → F32 → Type 0
  IsTop done none second = (second ≡ neg_infinity) × (done ≡ [])
  IsTop done (some (b, ep)) second =
      (others : List F32) × Permᴰ (b ∷ others) done
      × All (λ (c : F32). leq c second ≡ true) others
      × All (λ (c : F32). leq c b ≡ true) others
      × ((second ≡ neg_infinity) ⊎ Memᴰ second others)

  -- The best is the cosine of its episode, one of these, with a key of the right size.
  abbrev pub IsOwn : List (Episode fl) → Option (F32 × Episode fl) → Type 0
  IsOwn eps none = Unit
  IsOwn eps (some (b, ep)) = Memᴰ ep eps × (length ep.l5key ≡ hd) × (b ≡ cos512 fl query ep.l5key)

  abbrev OwnBest : List (Episode fl) → Ranking fl ch hd → Type 0
  OwnBest eps r = IsOwn eps r.best

  rank_in-IsOwn :
      (eps : List (Episode fl)) (ep : Episode fl) (best : Option (F32 × Episode fl)) (second : F32)
      → Memᴰ ep eps
      → length ep.l5key ≡ hd
      → IsOwn eps best
      → IsOwn eps (rank_in fl ch hd (cos512 fl query ep.l5key) ep best second).best
  unfolding rank_in
  rank_in-IsOwn eps ep none second m key own = (m, key, refl)
  rank_in-IsOwn eps ep (some (b, e)) second m key own = go (leq (cos512 fl query ep.l5key) b)
    where
      c : F32
      c = cos512 fl query ep.l5key

      go :
          (v : Bool)
          → OwnBest eps (
              if v
              then record { best = some (b, e); second = if less second c then c else second }
              else record { best = some (c, ep); second = b })
      go true = own
      go false = (m, key, refl)

  l5_loop-IsOwn :
      (all eps : List (Episode fl)) (r : Ranking fl ch hd)
      → ((ep : Episode fl) → Memᴰ ep eps → Memᴰ ep all)
      → IsOwn all r.best
      → IsOwn all (l5_loop fl ch hd query eps r).best
  unfolding l5_loop
  l5_loop-IsOwn all [] r inside own = own
  l5_loop-IsOwn all (ep ∷ eps) r inside own =
      l5_loop-IsOwn all eps
        (if length ep.l5key == hd then rank_in fl ch hd c ep r.best r.second else r)
        (λ e m. inside e (Memᴰ.tail m)) (go (length ep.l5key == hd) refl)
    where
      c : F32
      c = cos512 fl query ep.l5key

      go :
          (v : Bool)
          → (length ep.l5key == hd) ≡ v
          → IsOwn all (if v then rank_in fl ch hd c ep r.best r.second else r).best
      go true e =
          rank_in-IsOwn all ep r.best r.second (inside ep (Memᴰ.head refl))
            ((==_iff (length ep.l5key) hd).0 e) own
      go false e = own

  module _ (ord : Ordered fl) where
    open ord use {IsNumber, less_leq, not_less, not_leq, leq_trans, leq_refl, infinity_number}

    raise :
        (s c : F32) (others : List F32)
        → leq s c ≡ true
        → All (λ (x : F32). leq x s ≡ true) others
        → All (λ (x : F32). leq x c ≡ true) others
    raise s c [] h all = tt
    raise s c (x ∷ others) h (hx, all) = (leq_trans x s c hx h, raise s c others h all)

    abbrev Numbered : Option (F32 × Episode fl) → Type 0
    Numbered none = Unit
    Numbered (some (b, ep)) = IsNumber b

    record Inv (done : List F32) (r : Ranking fl ch hd) : Type 0 where
      is_top : IsTop done r.best r.second
      second_number : IsNumber r.second
      best_number : Numbered r.best

    rank_in-Inv :
        (c : F32) (ep : Episode fl) (done : List F32) (best : Option (F32 × Episode fl))
        (second : F32)
        → IsNumber c
        → IsTop done best second
        → IsNumber second
        → Numbered best
        → Inv (c ∷ done) (rank_in fl ch hd c ep best second)
    unfolding rank_in
    rank_in-Inv c ep done none second number (e, d) ns nb = record {
      is_top = (
        [],
        subst (λ (l : List F32). Permᴰ (c ∷ []) (c ∷ l)) (sym d) (Permᴰ.cons refl Permᴰ.nil),
        tt,
        tt,
        inl e,
      );
      second_number = ns;
      best_number = number;
    }
    rank_in-Inv c ep done (some (b, e)) second number (others, perm, low, lower, own) ns nb =
        go (leq c b) refl (less second c) refl
      where
        further :
            (second ≡ neg_infinity) ⊎ Memᴰ second others
            → (second ≡ neg_infinity) ⊎ Memᴰ second (c ∷ others)
        further (inl none_yet) = inl none_yet
        further (inr m) = inr (Memᴰ.tail m)

        go :
            (v : Bool)
            → leq c b ≡ v
            → (u : Bool) → less second c ≡ u
            → Inv (c ∷ done) (
                if v
                then record { best = some (b, e); second = if u then c else second }
                else record { best = some (c, ep); second = b })
        go true le true up = record {
          is_top = (
            c ∷ others,
            Permᴰ.trans (Permᴰ.swap refl refl) (Permᴰ.cons refl perm),
            (leq_refl c number, raise second c others (less_leq second c up) low),
            (le, lower),
            inr (Memᴰ.head refl),
          );
          second_number = number;
          best_number = nb;
        }
        go true le false up = record {
          is_top = (
            c ∷ others,
            Permᴰ.trans (Permᴰ.swap refl refl) (Permᴰ.cons refl perm),
            (not_less second c ns number up, low),
            (le, lower),
            further own,
          );
          second_number = ns;
          best_number = nb;
        }
        go false le u up =
            let above = not_leq c b number nb le in
            record {
              is_top = (
                b ∷ others,
                Permᴰ.cons refl perm,
                (leq_refl b nb, lower),
                (above, raise b c others above lower),
                inr (Memᴰ.head refl),
              );
              second_number = nb;
              best_number = number;
            }

    l5_loop-Inv :
        (eps : List (Episode fl)) (done : List F32) (r : Ranking fl ch hd)
        → All IsNumber (cosines eps)
        → Inv done r
        → (all : List F32) × Permᴰ all (cosines eps ++ done)
          × Inv all (l5_loop fl ch hd query eps r)
    unfolding l5_loop cosines
    l5_loop-Inv [] done r numbers inv = (done, Permᴰ.refl done, inv)
    l5_loop-Inv (ep ∷ eps) done r numbers inv = go (length ep.l5key == hd) (l5_loop-Inv eps) numbers
      where
        c : F32
        c = cos512 fl query ep.l5key

        go :
            (v : Bool)
            → ((done' : List F32) (r' : Ranking fl ch hd)
                → All IsNumber (cosines eps)
                → Inv done' r'
                → (all : List F32) × Permᴰ all (cosines eps ++ done')
                  × Inv all (l5_loop fl ch hd query eps r'))
            → All IsNumber (if v then c ∷ cosines eps else cosines eps)
            → (all : List F32) × Permᴰ all ((if v then c ∷ cosines eps else cosines eps) ++ done)
              × Inv all (
                  l5_loop fl ch hd query eps
                    (if v then rank_in fl ch hd c ep r.best r.second else r))
        go true ih (number, later) =
            let (all, perm, inv') = ih (c ∷ done) (rank_in fl ch hd c ep r.best r.second) later (
              rank_in-Inv c ep done r.best r.second number inv.is_top inv.second_number
                inv.best_number) in
            (all, Permᴰ.trans perm (Permᴰ.middle c (cosines eps) done), inv')
        go false ih later = ih done r later inv

    moved :
        (xs ys : List F32) (best : Option (F32 × Episode fl)) (second : F32)
        → Permᴰ xs ys
        → IsTop xs best second
        → IsTop ys best second
    moved xs ys none second perm (e, d) =
        (e, empty ys (subst (λ (l : List F32). Permᴰ l ys) d perm))
      where
        empty : (l : List F32) → Permᴰ [] l → l ≡ []
        empty [] p = refl
        empty (x ∷ l) p = absurd (cc (Permᴰ.length-eq p))
    moved xs ys (some (b, ep)) second perm (others, p, low, lower, own) =
        (others, Permᴰ.trans p perm, low, lower, own)

    -- Where no cosine is NaN, the loop finds the greatest of the cosines, which is the cosine of the
    -- episode that it keeps, one of the given with a key of the right size; its second is the
    -- greatest of the other cosines, or still the negative infinity, and none of the others is above
    -- it.
    pub l5_loop-IsTop :
        (eps : List (Episode fl))
        → All IsNumber (cosines eps)
        → IsTop
            (cosines eps)
            (l5_loop fl ch hd query eps record { best = none; second = neg_infinity }).best
            (l5_loop fl ch hd query eps record { best = none; second = neg_infinity }).second
          × IsOwn eps
              (l5_loop fl ch hd query eps record { best = none; second = neg_infinity }).best
    l5_loop-IsTop eps numbers =
        let start : Ranking fl ch hd = record { best = none; second = neg_infinity } in
        let (all, perm, inv) =
          l5_loop-Inv eps [] start numbers
            record { is_top = (refl, refl); second_number = infinity_number; best_number = tt } in
        (
          moved all (cosines eps) (l5_loop fl ch hd query eps start).best
              (l5_loop fl ch hd query eps start).second
              (subst (λ (l : List F32). Permᴰ all l) (append-nil (cosines eps)) perm) inv.is_top,
          l5_loop-IsOwn eps eps start (λ e m. m) tt,
        )
