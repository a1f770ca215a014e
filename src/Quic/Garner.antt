-- ===== src/Quic/Garner.antt =====
-- `run_garner_loop`: the tasks, one for a stream, and the state that they share. A step is what one
-- task does between two points where another can run; a task that has not begun is a stream not
-- yet accepted.
use kairos_engine.Base.{
  ℕ, Bool, true, false, ◌&&◌, Option, none, some, List, [], ◌∷◌, ◌++◌, length, get_elem?, set, ◌==◌,
  if◌then◌else◌,
}
use kairos_engine.Quic.{ResidueBlock}
use kairos_engine.Quic.Wire.{Received, received, refused}

pub record PendingBlock : Type 0 where
  pub q1 : Option (List ℕ)
  pub q2 : Option (List ℕ)
  pub token_pos : ℕ
  pub layer_id : ℕ

pub record GarnerResult : Type 0 where
  pub seq_id : ℕ
  pub token_pos : ℕ
  pub layer_id : ℕ
  pub coeffs : List ℕ

-- Where a task stands: with its block, with its peer's shard id refined, with both residues seen,
-- with a result to send, and at its end.
pub data Task : Type 0 where
  arrived : ℕ → ResidueBlock → Task
  refined : ResidueBlock → Task
  both_arrived : ℕ → Task
  sending : GarnerResult → Task
  finished : Task

-- A task begins with `recv_block`, and ends there on an error.
abbrev pub accept_uni : ℕ → Received → Task
accept_uni remote_addr (received block) = arrived remote_addr block
accept_uni remote_addr (refused e) = finished

-- A `DashMap` from keys, an address or a sequence id, to values.
abbrev pub Map : Type 0 → Type 0
Map V = ℕ → Option V

pub record World : Type 0 where
  pub pending : Map PendingBlock
  pub peers : Map ℕ
  pub tasks : List Task
  pub results : List GarnerResult

unfoldable pub update : {V : Type 0} → Map V → ℕ → Option V → Map V
update m key v k = if k == key then v else m k

abbrev pub unknown_shard : ℕ
unknown_shard = 255

-- `and_modify`: an id that is set stays.
unfoldable pub refine_shard : Option ℕ → ℕ → Option ℕ
refine_shard none prime = none
refine_shard (some id) prime = some (if id == unknown_shard then prime else id)

abbrev pub is_some : {V : Type 0} → Option V → Bool
is_some none = false
is_some (some v) = true

abbrev pub or_new : ResidueBlock → Option PendingBlock → PendingBlock
or_new block (some entry) = entry
or_new block none = record {
  q1 = none;
  q2 = none;
  token_pos = block.header.token_pos;
  layer_id = block.header.layer_id;
}

unfoldable pub insert_residue : ResidueBlock → PendingBlock → PendingBlock
insert_residue block entry =
    if block.header.prime_selector == 0
    then record {
      q1 = some block.residues;
      q2 = entry.q2;
      token_pos = entry.token_pos;
      layer_id = entry.layer_id;
    }
    else record {
      q1 = entry.q1;
      q2 = some block.residues;
      token_pos = entry.token_pos;
      layer_id = entry.layer_id;
    }

unfoldable pub has_both : PendingBlock → Bool
has_both entry = is_some entry.q1 && is_some entry.q2

module _ (ntt_n : ℕ) (recombine : List ℕ → List ℕ → Option (List ℕ)) where
  -- The result of a block of residues, where there is one.
  unfoldable pub result_of : ℕ → PendingBlock → List ℕ → List ℕ → Option (List ℕ) → Task
  result_of seq pb q1 q2 none = finished
  result_of seq pb q1 q2 (some coeffs) =
      sending
        record { seq_id = seq; token_pos = pb.token_pos; layer_id = pb.layer_id; coeffs = coeffs }

  unfoldable pub recombined : ℕ → PendingBlock → Option (List ℕ) → Option (List ℕ) → Task
  recombined seq pb (some q1) (some q2) =
      if (length q1 == ntt_n) && (length q2 == ntt_n)
      then result_of seq pb q1 q2 (recombine q1 q2)
      else finished
  recombined seq pb (some q1) none = finished
  recombined seq pb none q2 = finished

  unfoldable pub take_pending : ℕ → Option PendingBlock → Task
  take_pending seq none = finished
  take_pending seq (some pb) = recombined seq pb pb.q1 pb.q2

  -- The next step of the task with number `i`.
  unfoldable pub step_task : ℕ → World → Option Task → World
  step_task i w none = w
  step_task i w (some finished) = w
  step_task i w (some (arrived addr block)) = record {
    pending = w.pending;
    peers = update w.peers addr (refine_shard (w.peers addr) block.header.prime_selector);
    tasks = set w.tasks i (refined block);
    results = w.results;
  }
  step_task i w (some (refined block)) =
      let seq = block.header.seq_id in
      let entry = insert_residue block (or_new block (w.pending seq)) in
      record {
        pending = update w.pending seq (some entry);
        peers = w.peers;
        tasks = set w.tasks i (if has_both entry then both_arrived seq else finished);
        results = w.results;
      }
  step_task i w (some (both_arrived seq)) = record {
    pending = update w.pending seq none;
    peers = w.peers;
    tasks = set w.tasks i (take_pending seq (w.pending seq));
    results = w.results;
  }
  step_task i w (some (sending r)) = record {
    pending = w.pending;
    peers = w.peers;
    tasks = set w.tasks i finished;
    results = w.results ++ (r ∷ []);
  }

  unfoldable pub advance : ℕ → World → World
  advance i w = step_task i w (get_elem? w.tasks i)

  -- The tasks run in the order of a list of their numbers.
  unfoldable pub run : List ℕ → World → World
  run [] w = w
  run (i ∷ schedule) w = run schedule (advance i w)
