-- ===== src/Quic/Finish.antt =====
-- The tasks of the Garner loop come to their ends.
use kairos_engine.Base.{
  ℕ, suc, ◌-◌, ◌≤◌, ◌≡◌, ◌≢◌, refl, sym, ◌∙◌, Bool, true, false, Option, none, some, List, [], ◌∷◌,
  length, get_elem?, set, get_elem?-set_at, get_elem?-set_other, ◌==◌, ==_iff, if◌then◌else◌, subst,
  arith, ◌&&◌,
}
use kairos_engine.Quic.Garner.{
  PendingBlock, Task, arrived, refined, both_arrived, sending, finished, World, result_of,
  recombined, take_pending, step_task, advance, run, has_both, insert_residue, or_new,
}

-- The steps that a task can still take, at most.
abbrev pub rank : Option Task → ℕ
rank none = 0
rank (some (arrived addr block)) = 4
rank (some (refined block)) = 3
rank (some (both_arrived seq)) = 2
rank (some (sending r)) = 1
rank (some finished) = 0

unfoldable pub count : ℕ → List ℕ → ℕ
count k [] = 0
count k (i ∷ schedule) = if i == k then suc (count k schedule) else count k schedule

module _ (n : ℕ) (rc : List ℕ → List ℕ → Option (List ℕ)) where
  rank-recombined :
      (seq : ℕ) (pb : PendingBlock) (q1 q2 : Option (List ℕ))
      → rank (some (recombined n rc seq pb q1 q2)) ≤ 1
  unfolding recombined result_of
  rank-recombined seq pb none q2 = omega arith
  rank-recombined seq pb (some q1) none = omega arith
  rank-recombined seq pb (some q1) (some q2) =
      good ((length q1 == n) && (length q2 == n)) (rc q1 q2)
    where
      good :
          (b : Bool) (c : Option (List ℕ))
          → rank (some (if b then result_of n rc seq pb q1 q2 c else finished)) ≤ 1
      good false c = omega arith
      good true none = omega arith
      good true (some cs) = omega arith

  rank-take_pending :
      (seq : ℕ) (p : Option PendingBlock) → rank (some (take_pending n rc seq p)) ≤ 1
  unfolding take_pending
  rank-take_pending seq none = omega arith
  rank-take_pending seq (some pb) = rank-recombined seq pb pb.q1 pb.q2

  -- The task at work comes nearer its end.
  rank-step_task :
      (i : ℕ) (w : World) (t : Option Task)
      → get_elem? w.tasks i ≡ t
      → rank (get_elem? (step_task n rc i w t).tasks i) ≤ rank t - 1
  unfolding step_task
  rank-step_task i w none h = subst (λ (t : Option Task). rank t ≤ 0) (sym h) (omega arith)
  rank-step_task i w (some finished) h =
      subst (λ (t : Option Task). rank t ≤ 0) (sym h) (omega arith)
  rank-step_task i w (some (arrived addr b)) h =
      rw (get_elem?-set_at w.tasks i (refined b) (arrived addr b) h) (omega arith)
  rank-step_task i w (some (refined b)) h =
      stored (has_both (insert_residue b (or_new b (w.pending b.header.seq_id))))
    where
      stored :
          (v : Bool)
          → rank
              (get_elem? (set w.tasks i (if v then both_arrived b.header.seq_id else finished)) i)
            ≤ 2
      stored true =
          rw (get_elem?-set_at w.tasks i (both_arrived b.header.seq_id) (refined b) h) (omega arith)
      stored false = rw (get_elem?-set_at w.tasks i finished (refined b) h) (omega arith)
  rank-step_task i w (some (both_arrived seq)) h =
      let t = take_pending n rc seq (w.pending seq) in
      rw (get_elem?-set_at w.tasks i t (both_arrived seq) h) (rank-take_pending seq (w.pending seq))
  rank-step_task i w (some (sending r)) h =
      rw (get_elem?-set_at w.tasks i finished (sending r) h) (omega arith)

  -- A task is as it was after the steps of another.
  pub get_elem?-step_task :
      (i k : ℕ) (w : World) (t : Option Task)
      → i ≢ k
      → get_elem? (step_task n rc i w t).tasks k ≡ get_elem? w.tasks k
  unfolding step_task
  get_elem?-step_task i k w none h = refl
  get_elem?-step_task i k w (some finished) h = refl
  get_elem?-step_task i k w (some (arrived addr b)) h =
      get_elem?-set_other w.tasks i k (refined b) h
  get_elem?-step_task i k w (some (refined b)) h = get_elem?-set_other w.tasks i k _ h
  get_elem?-step_task i k w (some (both_arrived seq)) h =
      get_elem?-set_other w.tasks i k (take_pending n rc seq (w.pending seq)) h
  get_elem?-step_task i k w (some (sending r)) h = get_elem?-set_other w.tasks i k finished h

  rank-advance :
      (i k : ℕ) (w : World)
      → (b : Bool) → (i == k) ≡ b
      → rank (get_elem? (advance n rc i w).tasks k)
        ≤ rank (get_elem? w.tasks k) - (if b then 1 else 0)
  unfolding advance
  rank-advance i k w true h =
      subst
        (λ (m : ℕ).
          rank (get_elem? (step_task n rc i w (get_elem? w.tasks i)).tasks m)
          ≤ rank (get_elem? w.tasks m) - 1)
        ((==_iff i k).0 h) (rank-step_task i w (get_elem? w.tasks i) refl)
  rank-advance i k w false h =
      rw
        (get_elem?-step_task i k w (get_elem? w.tasks i)
          (λ e. absurd (cc (sym h ∙ (==_iff i k).1 e))))
        (omega arith)

  pub rank-run :
      (schedule : List ℕ) (k : ℕ) (w : World)
      → rank (get_elem? (run n rc schedule w).tasks k)
        ≤ rank (get_elem? w.tasks k) - count k schedule
  unfolding run count
  rank-run [] k w = omega arith
  rank-run (i ∷ schedule) k w = go (i == k) refl (rank-run schedule k (advance n rc i w))
    where
      go :
          (b : Bool)
          → (i == k) ≡ b
          → rank (get_elem? (run n rc schedule (advance n rc i w)).tasks k)
            ≤ rank (get_elem? (advance n rc i w).tasks k) - count k schedule
          → rank (get_elem? (run n rc schedule (advance n rc i w)).tasks k)
            ≤ rank (get_elem? w.tasks k) - (if b then suc (count k schedule) else count k schedule)
      go true h ih = omega (arith, rank-advance i k w true h, ih)
      go false h ih = omega (arith, rank-advance i k w false h, ih)

  rank_le : (t : Option Task) → rank t ≤ 4
  rank_le none = omega arith
  rank_le (some (arrived addr b)) = omega arith
  rank_le (some (refined b)) = omega arith
  rank_le (some (both_arrived seq)) = omega arith
  rank_le (some (sending r)) = omega arith
  rank_le (some finished) = omega arith

  finished_of : (t : Task) → rank (some t) ≤ 0 → t ≡ finished
  finished_of (arrived addr b) h = absurd (omega (arith, h))
  finished_of (refined b) h = absurd (omega (arith, h))
  finished_of (both_arrived seq) h = absurd (omega (arith, h))
  finished_of (sending r) h = absurd (omega (arith, h))
  finished_of finished h = refl

  -- Every task is at its end after a schedule that gives it four turns, wherever they stand.
  pub run-finished :
      (schedule : List ℕ) (w : World) (k : ℕ) (t : Task)
      → 4 ≤ count k schedule
      → get_elem? (run n rc schedule w).tasks k ≡ some t
      → t ≡ finished
  run-finished schedule w k t turns h = finished_of t (
      subst (λ (o : Option Task). rank o ≤ 0) h
        (omega (arith, rank-run schedule k w, rank_le (get_elem? w.tasks k), turns)))
