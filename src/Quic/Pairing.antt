-- ===== src/Quic/Pairing.antt =====
-- The two blocks of a sequence id become one result, in whatever order the tasks run.
use kairos_engine.Base.{
  ℕ, ◌≡◌, ◌≢◌, refl, ap, sym, ◌∙◌, ◌⊎◌, inl, inr, Bool, true, false, Option, none, some, List, [],
  ◌∷◌, ◌++◌, get_elem?, ◌==◌, ==_iff, subst,
}
use kairos_engine.Quic.Garner.{
  GarnerResult, Task, arrived, refined, both_arrived, sending, finished, World, advance, run,
  has_both,
}
use kairos_engine.Quic.Finish.{get_elem?-step_task}
use kairos_engine.Quic.Effect.{
  results_for, IsAway, Effect-arrived, Effect-refined, Effect-both, Effect-sending,
  advance_finished, Frame, Frame-advance,
}
use kairos_engine.Quic.Pair.{
  Side, is_q1, result_from, IsPair, IsPair-swap, lone, joined, put_first, put_second, has_both-lone,
  has_both-joined, take_pending-joined,
}

module _ (n : ℕ) (rc : List ℕ → List ℕ → Option (List ℕ)) (s : ℕ) (cs : List ℕ) where
  -- The task of a side has its block still.
  abbrev pub IsNew : Side → World → Type 0
  IsNew x w =
      ((addr : ℕ) × (get_elem? w.tasks x.index ≡ some (arrived addr x.block)))
      ⊎ (get_elem? w.tasks x.index ≡ some (refined x.block))

  abbrev pub At : Side → Task → World → Type 0
  At x t w = get_elem? w.tasks x.index ≡ some t

  -- How far the two have come; `x` is the side that stored its block first, where one has.
  pub data Phase (x y : Side) (w : World) : Type 0 where
    both_new :
        IsNew x w → IsNew y w → w.pending s ≡ none → results_for s w.results ≡ [] → Phase x y w
    stored :
        At x finished w
        → IsNew y w
        → w.pending s ≡ some (lone n rc s cs x (is_q1 x))
        → results_for s w.results ≡ []
        → Phase x y w
    full :
        At x finished w
        → At y (both_arrived s) w
        → w.pending s ≡ some (joined n rc s cs x y)
        → results_for s w.results ≡ []
        → Phase x y w
    won :
        At x finished w
        → At y (sending (result_from s cs x)) w
        → w.pending s ≡ none
        → results_for s w.results ≡ []
        → Phase x y w
    sent :
        At x finished w
        → At y finished w
        → w.pending s ≡ none
        → results_for s w.results ≡ result_from s cs x ∷ []
        → Phase x y w

  -- Every other task is about another id.
  abbrev pub OthersAway : Side → Side → World → Type 0
  OthersAway x y w =
      (k : ℕ) (t : Task) → x.index ≢ k → y.index ≢ k → get_elem? w.tasks k ≡ some t → IsAway s t

  abbrev kept_new :
      (x : Side) (w w' : World)
      → get_elem? w'.tasks x.index ≡ get_elem? w.tasks x.index
      → IsNew x w
      → IsNew x w'
  kept_new x w w' e (inl (addr, h)) = inl (addr, e ∙ h)
  kept_new x w w' e (inr h) = inr (e ∙ h)

  -- Nothing of the id changes in a step of a third task.
  frame-Phase :
      (x y : Side) (w w' : World)
      → get_elem? w'.tasks x.index ≡ get_elem? w.tasks x.index
      → get_elem? w'.tasks y.index ≡ get_elem? w.tasks y.index
      → w'.pending s ≡ w.pending s
      → results_for s w'.results ≡ results_for s w.results
      → Phase x y w
      → Phase x y w'
  frame-Phase x y w w' ex ey ep er (both_new hx hy hp hr) =
      both_new (kept_new x w w' ex hx) (kept_new y w w' ey hy) (ep ∙ hp) (er ∙ hr)
  frame-Phase x y w w' ex ey ep er (stored hx hy hp hr) =
      stored (ex ∙ hx) (kept_new y w w' ey hy) (ep ∙ hp) (er ∙ hr)
  frame-Phase x y w w' ex ey ep er (full hx hy hp hr) = full (ex ∙ hx) (ey ∙ hy) (ep ∙ hp) (er ∙ hr)
  frame-Phase x y w w' ex ey ep er (won hx hy hp hr) = won (ex ∙ hx) (ey ∙ hy) (ep ∙ hp) (er ∙ hr)
  frame-Phase x y w w' ex ey ep er (sent hx hy hp hr) = sent (ex ∙ hx) (ey ∙ hy) (ep ∙ hp) (er ∙ hr)

  -- A step of the first side's task.
  Phase-first :
      (x y : Side) (w : World)
      → IsPair n rc s cs x y
      → Phase x y w
      → Phase x y (advance n rc x.index w)
  Phase-first x y w pair (both_new (inl (addr, hx)) hy hp hr) =
      let e = Effect-arrived n rc s x.index w addr x.block hx in
      both_new (inr e.own) (kept_new y w (advance n rc x.index w) (e.rest y.index pair.apart) hy)
        (e.pend ∙ hp) (e.res ∙ hr)
  Phase-first x y w pair (both_new (inr hx) hy hp hr) =
      let e =
        Effect-refined n rc s x.index w x.block none false hx pair.seq_x hp
          (ap has_both (put_first n rc s cs x) ∙ has_both-lone n rc s cs x (is_q1 x)) in
      stored e.own (kept_new y w (advance n rc x.index w) (e.rest y.index pair.apart) hy)
        (e.pend ∙ ap some (put_first n rc s cs x)) (e.res ∙ hr)
  Phase-first x y w pair (stored hx hy hp hr) =
      subst (Phase x y) (sym (advance_finished n rc s x.index w hx)) (stored hx hy hp hr)
  Phase-first x y w pair (full hx hy hp hr) =
      subst (Phase x y) (sym (advance_finished n rc s x.index w hx)) (full hx hy hp hr)
  Phase-first x y w pair (won hx hy hp hr) =
      subst (Phase x y) (sym (advance_finished n rc s x.index w hx)) (won hx hy hp hr)
  Phase-first x y w pair (sent hx hy hp hr) =
      subst (Phase x y) (sym (advance_finished n rc s x.index w hx)) (sent hx hy hp hr)

  -- A step of the second side's task, after the first has stored its block.
  Phase-second :
      (x y : Side) (w : World)
      → IsPair n rc s cs x y
      → Phase x y w
      → Phase x y (advance n rc y.index w) ⊎ Phase y x (advance n rc y.index w)
  Phase-second x y w pair (both_new hx hy hp hr) =
      inr (Phase-first y x w (IsPair-swap n rc s cs x y pair) (both_new hy hx hp hr))
  Phase-second x y w pair (stored hx (inl (addr, hy)) hp hr) =
      let e = Effect-arrived n rc s y.index w addr y.block hy in
      inl (
        stored (e.rest x.index (λ q. pair.apart (sym q)) ∙ hx) (inr e.own) (e.pend ∙ hp)
          (e.res ∙ hr))
  Phase-second x y w pair (stored hx (inr hy) hp hr) =
      let two = put_second n rc s cs x y pair.primes in
      let e =
        Effect-refined n rc s y.index w y.block (some (lone n rc s cs x (is_q1 x))) true hy
          pair.seq_y hp (ap has_both two ∙ has_both-joined n rc s cs x y) in
      inl (
        full (e.rest x.index (λ q. pair.apart (sym q)) ∙ hx) e.own (e.pend ∙ ap some two)
          (e.res ∙ hr))
  Phase-second x y w pair (full hx hy hp hr) =
      let e = Effect-both n rc s y.index w (some (joined n rc s cs x y)) hy hp in
      inl (
        won (e.rest x.index (λ q. pair.apart (sym q)) ∙ hx)
          (e.own ∙ ap some (take_pending-joined n rc s cs x y pair)) e.pend (e.res ∙ hr))
  Phase-second x y w pair (won hx hy hp hr) =
      let e = Effect-sending n rc s y.index w (result_from s cs x) hy refl in
      inl (
        sent (e.rest x.index (λ q. pair.apart (sym q)) ∙ hx) e.own (e.pend ∙ hp)
          (e.res ∙ ap (λ (l : List GarnerResult). l ++ (result_from s cs x ∷ [])) hr))
  Phase-second x y w pair (sent hx hy hp hr) =
      inl (subst (Phase x y) (sym (advance_finished n rc s y.index w hy)) (sent hx hy hp hr))

  pub record IsOnTheWay (x y : Side) (w : World) : Type 0 where
    pub phase : Phase x y w
    pub away : OthersAway x y w

  away_kept :
      (x y : Side) (m : ℕ) (w : World)
      → (m ≡ x.index) ⊎ (m ≡ y.index)
      → OthersAway x y w
      → OthersAway x y (advance n rc m w)
  unfolding advance
  away_kept x y m w at away k t kx ky h =
      away k t kx ky (sym (get_elem?-step_task n rc m k w (get_elem? w.tasks m) apart) ∙ h)
    where
      apart : m ≢ k
      apart e = elim at [ inl q ↦ absurd (kx (sym q ∙ e)) | inr q ↦ absurd (ky (sym q ∙ e)) ]

  third :
      (x y : Side) (m : ℕ) (w : World)
      → x.index ≢ m
      → y.index ≢ m
      → IsOnTheWay x y w
      → IsOnTheWay x y (advance n rc m w)
  third x y m w mx my way =
      let f = Frame-advance n rc s m w (λ t h. way.away m t mx my h) in
      record {
        phase =
            frame-Phase x y w (advance n rc m w) (f.rest x.index (λ e. mx (sym e)))
              (f.rest y.index (λ e. my (sym e))) f.pend f.res way.phase;
        away = λ k t kx ky h. go f k t kx ky h (m == k) refl;
      }
    where
      go :
          Frame n rc s m w (advance n rc m w)
          → (k : ℕ) (t : Task) → x.index ≢ k
          → y.index ≢ k
          → get_elem? (advance n rc m w).tasks k ≡ some t
          → (b : Bool) → (m == k) ≡ b
          → IsAway s t
      go f k t kx ky h true e = f.own t (
          subst (λ (j : ℕ). get_elem? (advance n rc m w).tasks j ≡ some t) (sym ((==_iff m k).0 e))
            h)
      go f k t kx ky h false e =
          way.away k t kx ky (sym (f.rest k (λ q. absurd (cc (sym e ∙ (==_iff m k).1 q)))) ∙ h)

  -- A step of any task.
  advance-IsOnTheWay :
      (x y : Side) (m : ℕ) (w : World)
      → IsPair n rc s cs x y
      → IsOnTheWay x y w
      → IsOnTheWay x y (advance n rc m w) ⊎ IsOnTheWay y x (advance n rc m w)
  advance-IsOnTheWay x y m w pair way = elim (decide x.index m) [
    | inl ex ↦ inl record {
      phase = subst (λ (k : ℕ). Phase x y (advance n rc k w)) ex (Phase-first x y w pair way.phase);
      away = away_kept x y m w (inl (sym ex)) way.away;
    }
    | inr nx ↦ elim (decide y.index m) [
      | inl ey ↦
          elim (subst (λ (k : ℕ). Phase x y (advance n rc k w) ⊎ Phase y x (advance n rc k w)) ey
            (Phase-second x y w pair way.phase)) [
              | inl p ↦ inl record { phase = p; away = away_kept x y m w (inr (sym ey)) way.away }
              | inr p ↦ inr record {
                phase = p;
                away = λ k t ky kx. away_kept x y m w (inr (sym ey)) way.away k t kx ky;
              }
            ]
      | inr ny ↦ inl (third x y m w nx ny way)
    ]
  ]
    where
      decide : (a b : ℕ) → (a ≡ b) ⊎ (a ≢ b)
      decide a b = go (a == b) refl
        where
          go : (v : Bool) → (a == b) ≡ v → (a ≡ b) ⊎ (a ≢ b)
          go true e = inl ((==_iff a b).0 e)
          go false e = inr (λ q. absurd (cc (sym e ∙ (==_iff a b).1 q)))

  pub run-IsOnTheWay :
      (schedule : List ℕ) (x y : Side) (w : World)
      → IsPair n rc s cs x y
      → IsOnTheWay x y w
      → IsOnTheWay x y (run n rc schedule w) ⊎ IsOnTheWay y x (run n rc schedule w)
  unfolding run
  run-IsOnTheWay [] x y w pair way = inl way
  run-IsOnTheWay (m ∷ schedule) x y w pair way = elim (advance-IsOnTheWay x y m w pair way) [
    | inl on ↦ run-IsOnTheWay schedule x y (advance n rc m w) pair on
    | inr on ↦
        elim (run-IsOnTheWay schedule y x (advance n rc m w) (IsPair-swap n rc s cs x y pair) on) [
          | inl a ↦ inr a
          | inr b ↦ inl b
        ]
  ]
