-- ===== src/Quic/Joined.antt =====
-- From the streams of two shards to the one result of their sequence id.
use kairos_engine.Base.{
  ℕ, ◌≤◌, ◌≡◌, ◌≢◌, ap, ◌∙◌, ◌⊎◌, inl, inr, Option, none, some, List, [], ◌∷◌, length, get_elem?,
}
use kairos_engine.Quic.Wire.{send_block, recv_block, Delivers, IsBlock, recv_block-send_block}
use kairos_engine.Quic.Garner.{accept_uni, World, run, Task}
use kairos_engine.Quic.Effect.{results_for, IsAway}
use kairos_engine.Quic.Pair.{Side, result_from, IsPair}
use kairos_engine.Quic.Pairing.{
  IsNew, Phase, both_new, stored, full, won, sent, IsOnTheWay, run-IsOnTheWay,
}

-- A shard has sent its block, and the side's task has the stream.
pub record IsSent (x : Side) (w : World) : Type 0 where
  pub addr : ℕ
  pub read_to_end : ℕ → Option (List ℕ)
  pub block_ok : IsBlock x.block
  pub fits : length x.block.residues ≤ 512
  pub stream : Delivers read_to_end (send_block x.block)
  pub task : get_elem? w.tasks x.index ≡ some (accept_uni addr (recv_block read_to_end))

-- Nothing is there yet for the sequence id, and the tasks but those two are about others.
pub record IsFresh (s : ℕ) (x y : Side) (w : World) : Type 0 where
  pub pending_none : w.pending s ≡ none
  pub results_none : results_for s w.results ≡ []
  pub others :
      (k : ℕ) (t : Task) → x.index ≢ k → y.index ≢ k → get_elem? w.tasks k ≡ some t → IsAway s t

module _ (n : ℕ) (rc : List ℕ → List ℕ → Option (List ℕ)) (s : ℕ) (cs : List ℕ) where
  sent-IsNew : (x : Side) (w : World) → IsSent x w → IsNew n rc s cs x w
  sent-IsNew x w h = inl (
    h.addr,
    h.task
        ∙ ap (λ r. some (accept_uni h.addr r))
            (recv_block-send_block h.read_to_end x.block h.block_ok h.fits h.stream),
  )

  start :
      (x y : Side) (w : World)
      → IsSent x w
      → IsSent y w
      → IsFresh s x y w
      → IsOnTheWay n rc s cs x y w
  start x y w hx hy fresh = record {
    phase = both_new (sent-IsNew x w hx) (sent-IsNew y w hy) fresh.pending_none fresh.results_none;
    away = fresh.others;
  }

  -- There is at most one result so far, and it is of the first side.
  so_far :
      (x y : Side) (w : World)
      → Phase n rc s cs x y w
      → (results_for s w.results ≡ []) ⊎ (results_for s w.results ≡ result_from s cs x ∷ [])
  so_far x y w (both_new hx hy hp hr) = inl hr
  so_far x y w (stored hx hy hp hr) = inl hr
  so_far x y w (full hx hy hp hr) = inl hr
  so_far x y w (won hx hy hp hr) = inl hr
  so_far x y w (sent hx hy hp hr) = inr hr

  -- At no time of any schedule is there more than one result for the sequence id, or another than
  -- the two blocks make: the blocks are as for a full run.
  pub run-never_twice :
      (schedule : List ℕ) (x y : Side) (w : World)
      → IsPair n rc s cs x y
      → IsSent x w
      → IsSent y w
      → IsFresh s x y w
      → (results_for s (run n rc schedule w).results ≡ [])
        ⊎ ((results_for s (run n rc schedule w).results ≡ result_from s cs x ∷ [])
            ⊎ (results_for s (run n rc schedule w).results ≡ result_from s cs y ∷ []))
  run-never_twice schedule x y w pair hx hy fresh =
      let w' = run n rc schedule w in
      elim (run-IsOnTheWay n rc s cs schedule x y w pair (start x y w hx hy fresh)) [
        | inl on ↦ elim (so_far x y w' on.phase) [ inl e ↦ inl e | inr e ↦ inr (inl e) ]
        | inr on ↦ elim (so_far y x w' on.phase) [ inl e ↦ inl e | inr e ↦ inr (inr e) ]
      ]
