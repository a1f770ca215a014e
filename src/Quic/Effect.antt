-- ===== src/Quic/Effect.antt =====
-- What one step of the Garner loop changes for a sequence id.
use kairos_engine.Base.{
  ℕ, ◌≡◌, ◌≢◌, refl, ap, sym, ◌∙◌, Bool, true, false, Option, none, some, List, [], ◌∷◌, ◌++◌,
  length, get_elem?, get_elem?-set_at, get_elem?-set_self, get_elem?-set_other, ◌==◌, ==_iff,
  if◌then◌else◌, subst, ◌&&◌,
}
use kairos_engine.Quic.{ResidueBlock}
use kairos_engine.Quic.Garner.{
  PendingBlock, GarnerResult, Map, Task, arrived, refined, both_arrived, sending, finished, World,
  update, result_of, recombined, take_pending, step_task, advance, has_both, insert_residue, or_new,
}
use kairos_engine.Quic.Finish.{get_elem?-step_task}

-- The results of one sequence id, in their order.
unfoldable pub results_for : ℕ → List GarnerResult → List GarnerResult
results_for s [] = []
results_for s (r ∷ rs) = if r.seq_id == s then r ∷ results_for s rs else results_for s rs

-- A task that is not about a sequence id.
abbrev pub IsAway : ℕ → Task → Type 0
IsAway s (arrived addr b) = b.header.seq_id ≢ s
IsAway s (refined b) = b.header.seq_id ≢ s
IsAway s (both_arrived seq) = seq ≢ s
IsAway s (sending r) = r.seq_id ≢ s
IsAway s finished = Unit

abbrev pub put : ResidueBlock → Option PendingBlock → PendingBlock
put b p = insert_residue b (or_new b p)

==_false : (a b : ℕ) → a ≢ b → (a == b) ≡ false
==_false a b h = go (a == b) refl
  where
    go : (v : Bool) → (a == b) ≡ v → v ≡ false
    go true e = absurd (h ((==_iff a b).0 e))
    go false e = refl

update_at :
    (m : Map PendingBlock) (key : ℕ) (v : Option PendingBlock) (k : ℕ)
    → k ≡ key
    → update m key v k ≡ v
unfolding update
update_at m key v k h = rw ((==_iff k key).1 h) refl

update_other :
    (m : Map PendingBlock) (key : ℕ) (v : Option PendingBlock) (k : ℕ)
    → k ≢ key
    → update m key v k ≡ m k
unfolding update
update_other m key v k h = rw (==_false k key h) refl

results_for-snoc :
    (s : ℕ) (rs : List GarnerResult) (r : GarnerResult)
    → r.seq_id ≡ s
    → results_for s (rs ++ (r ∷ [])) ≡ results_for s rs ++ (r ∷ [])
unfolding results_for
results_for-snoc s [] r h = rw ((==_iff r.seq_id s).1 h) refl
results_for-snoc s (q ∷ rs) r h = go (q.seq_id == s) (results_for-snoc s rs r h)
  where
    go :
        (v : Bool)
        → results_for s (rs ++ (r ∷ [])) ≡ results_for s rs ++ (r ∷ [])
        → (if v then q ∷ results_for s (rs ++ (r ∷ [])) else results_for s (rs ++ (r ∷ [])))
          ≡ (if v then q ∷ results_for s rs else results_for s rs) ++ (r ∷ [])
    go true ih = ap (λ (l : List GarnerResult). q ∷ l) ih
    go false ih = ih

results_for-snoc_other :
    (s : ℕ) (rs : List GarnerResult) (r : GarnerResult)
    → r.seq_id ≢ s
    → results_for s (rs ++ (r ∷ [])) ≡ results_for s rs
unfolding results_for
results_for-snoc_other s [] r h = rw (==_false r.seq_id s h) refl
results_for-snoc_other s (q ∷ rs) r h =
    ap (λ (l : List GarnerResult). if q.seq_id == s then q ∷ l else l)
      (results_for-snoc_other s rs r h)

module _ (n : ℕ) (rc : List ℕ → List ℕ → Option (List ℕ)) (s : ℕ) where
  -- The step of a task: where it stands then, and what there is for the sequence id.
  pub record Effect (i : ℕ) (w w' : World) (t : Task) (p : Option PendingBlock)
      (rs : List GarnerResult) : Type 0 where
    pub own : get_elem? w'.tasks i ≡ some t
    pub pend : w'.pending s ≡ p
    pub res : results_for s w'.results ≡ rs
    pub rest : (k : ℕ) → i ≢ k → get_elem? w'.tasks k ≡ get_elem? w.tasks k

  others_rest :
      (i : ℕ) (w : World) (k : ℕ)
      → i ≢ k
      → get_elem? (advance n rc i w).tasks k ≡ get_elem? w.tasks k
  unfolding advance
  others_rest i w k h = get_elem?-step_task n rc i k w (get_elem? w.tasks i) h

  advance_as :
      (i : ℕ) (w : World) (t : Task)
      → get_elem? w.tasks i ≡ some t
      → advance n rc i w ≡ step_task n rc i w (some t)
  unfolding advance
  advance_as i w t h = ap (step_task n rc i w) h

  pub Effect-arrived :
      (i : ℕ) (w : World) (addr : ℕ) (b : ResidueBlock)
      → get_elem? w.tasks i ≡ some (arrived addr b)
      → Effect i w (advance n rc i w) (refined b) (w.pending s) (results_for s w.results)
  unfolding step_task
  Effect-arrived i w addr b h =
      let e = advance_as i w (arrived addr b) h in
      record {
        own =
            ap (λ (v : World). get_elem? v.tasks i) e
            ∙ get_elem?-set_at w.tasks i (refined b) (arrived addr b) h;
        pend = ap (λ (v : World). v.pending s) e;
        res = ap (λ (v : World). results_for s v.results) e;
        rest = others_rest i w;
      }

  pub Effect-refined :
      (i : ℕ) (w : World) (b : ResidueBlock) (p : Option PendingBlock) (v : Bool)
      → get_elem? w.tasks i ≡ some (refined b)
      → b.header.seq_id ≡ s
      → w.pending s ≡ p
      → has_both (put b p) ≡ v
      → Effect i w
          (advance n rc i w)
          (if v then both_arrived s else finished)
          (some (put b p))
          (results_for s w.results)
  unfolding step_task
  Effect-refined i w b p v h e_seq e_p e_v =
      let e = advance_as i w (refined b) h in
      let e_put = ap (put b) (ap w.pending e_seq ∙ e_p) in
      let t =
        if has_both (put b (w.pending b.header.seq_id))
        then both_arrived b.header.seq_id
        else finished in
      record {
        own =
            ap (λ (u : World). get_elem? u.tasks i) e
            ∙ get_elem?-set_at w.tasks i t (refined b) h
            ∙ (λ j.
                some (if (ap has_both e_put ∙ e_v) j then both_arrived (e_seq j) else finished));
        pend =
            ap (λ (u : World). u.pending s) e
            ∙ update_at w.pending b.header.seq_id (some (put b (w.pending b.header.seq_id))) s
                (sym e_seq)
            ∙ ap some e_put;
        res = ap (λ (u : World). results_for s u.results) e;
        rest = others_rest i w;
      }

  pub Effect-both :
      (i : ℕ) (w : World) (p : Option PendingBlock)
      → get_elem? w.tasks i ≡ some (both_arrived s)
      → w.pending s ≡ p
      → Effect i w (advance n rc i w) (take_pending n rc s p) none (results_for s w.results)
  unfolding step_task
  Effect-both i w p h e_p =
      let e = advance_as i w (both_arrived s) h in
      record {
        own =
            ap (λ (u : World). get_elem? u.tasks i) e
            ∙ get_elem?-set_at w.tasks i (take_pending n rc s (w.pending s)) (both_arrived s) h
            ∙ ap (λ (q : Option PendingBlock). some (take_pending n rc s q)) e_p;
        pend = ap (λ (u : World). u.pending s) e ∙ update_at w.pending s none s refl;
        res = ap (λ (u : World). results_for s u.results) e;
        rest = others_rest i w;
      }

  pub Effect-sending :
      (i : ℕ) (w : World) (r : GarnerResult)
      → get_elem? w.tasks i ≡ some (sending r)
      → r.seq_id ≡ s
      → Effect i w (advance n rc i w) finished (w.pending s) (results_for s w.results ++ (r ∷ []))
  unfolding step_task
  Effect-sending i w r h e_seq =
      let e = advance_as i w (sending r) h in
      record {
        own =
            ap (λ (u : World). get_elem? u.tasks i) e
            ∙ get_elem?-set_at w.tasks i finished (sending r) h;
        pend = ap (λ (u : World). u.pending s) e;
        res = ap (λ (u : World). results_for s u.results) e ∙ results_for-snoc s w.results r e_seq;
        rest = others_rest i w;
      }

  pub advance_finished :
      (i : ℕ) (w : World) → get_elem? w.tasks i ≡ some finished → advance n rc i w ≡ w
  unfolding step_task
  advance_finished i w h = advance_as i w finished h

  take_pending-IsAway :
      (seq : ℕ) (p : Option PendingBlock) → seq ≢ s → IsAway s (take_pending n rc seq p)
  unfolding take_pending recombined result_of
  take_pending-IsAway seq none h = tt
  take_pending-IsAway seq (some pb) h = halves pb.q1 pb.q2
    where
      good :
          (q1 q2 : List ℕ) (b : Bool) (c : Option (List ℕ))
          → IsAway s (if b then result_of n rc seq pb q1 q2 c else finished)
      good q1 q2 false c = tt
      good q1 q2 true none = tt
      good q1 q2 true (some cs) = h

      halves : (q1 q2 : Option (List ℕ)) → IsAway s (recombined n rc seq pb q1 q2)
      halves none q2 = tt
      halves (some q1) none = tt
      halves (some q1) (some q2) = good q1 q2 ((length q1 == n) && (length q2 == n)) (rc q1 q2)

  -- A step of a task about another id: nothing of this one changes, and the task is away still.
  pub record Frame (i : ℕ) (w w' : World) : Type 0 where
    pub pend : w'.pending s ≡ w.pending s
    pub res : results_for s w'.results ≡ results_for s w.results
    pub own : (t : Task) → get_elem? w'.tasks i ≡ some t → IsAway s t
    pub rest : (k : ℕ) → i ≢ k → get_elem? w'.tasks k ≡ get_elem? w.tasks k

  Frame-step_task :
      (i : ℕ) (w : World) (o : Option Task)
      → get_elem? w.tasks i ≡ o
      → ((t : Task) → get_elem? w.tasks i ≡ some t → IsAway s t)
      → Frame i w (step_task n rc i w o)
  unfolding step_task
  Frame-step_task i w none h away = record {
    pend = refl;
    res = refl;
    own = away;
    rest = λ k d. refl;
  }
  Frame-step_task i w (some finished) h away = record {
    pend = refl;
    res = refl;
    own = away;
    rest = λ k d. refl;
  }
  Frame-step_task i w (some (arrived addr b)) h away = record {
    pend = refl;
    res = refl;
    own = λ t e.
        subst (IsAway s) (sym (get_elem?-set_self w.tasks i (refined b) t e))
          (away (arrived addr b) h);
    rest = λ k d. get_elem?-set_other w.tasks i k (refined b) d;
  }
  Frame-step_task i w (some (refined b)) h away =
      let seq = b.header.seq_id in
      let entry = put b (w.pending seq) in
      let t' = if has_both entry then both_arrived seq else finished in
      record {
        pend = update_other w.pending seq (some entry) s (λ e. away (refined b) h (sym e));
        res = refl;
        own = λ t e.
            subst (IsAway s) (sym (get_elem?-set_self w.tasks i t' t e)) (both (has_both entry));
        rest = λ k d. get_elem?-set_other w.tasks i k t' d;
      }
    where
      both : (v : Bool) → IsAway s (if v then both_arrived b.header.seq_id else finished)
      both true = away (refined b) h
      both false = tt
  Frame-step_task i w (some (both_arrived seq)) h away =
      let t' = take_pending n rc seq (w.pending seq) in
      let apart = away (both_arrived seq) h in
      record {
        pend = update_other w.pending seq none s (λ e. apart (sym e));
        res = refl;
        own = λ t e.
            subst (IsAway s) (sym (get_elem?-set_self w.tasks i t' t e))
              (take_pending-IsAway seq (w.pending seq) apart);
        rest = λ k d. get_elem?-set_other w.tasks i k t' d;
      }
  Frame-step_task i w (some (sending r)) h away = record {
    pend = refl;
    res = results_for-snoc_other s w.results r (away (sending r) h);
    own = λ t e. subst (IsAway s) (sym (get_elem?-set_self w.tasks i finished t e)) tt;
    rest = λ k d. get_elem?-set_other w.tasks i k finished d;
  }

  pub Frame-advance :
      (i : ℕ) (w : World)
      → ((t : Task) → get_elem? w.tasks i ≡ some t → IsAway s t)
      → Frame i w (advance n rc i w)
  unfolding advance
  Frame-advance i w away = Frame-step_task i w (get_elem? w.tasks i) refl away
