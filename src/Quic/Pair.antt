-- ===== src/Quic/Pair.antt =====
-- Two blocks of one sequence id, and the entry of `pending` that they make.
use kairos_engine.Base.{
  ℕ, ◌≡◌, ◌≢◌, refl, sym, Bool, true, false, not, Option, none, some, List, length, ◌==◌, ==_iff,
  if◌then◌else◌,
}
use kairos_engine.Quic.{ResidueBlock}
use kairos_engine.Quic.Garner.{
  PendingBlock, GarnerResult, sending, result_of, recombined, take_pending, has_both,
  insert_residue,
}
use kairos_engine.Quic.Effect.{put}

-- A block and the number of the task that has it.
pub record Side : Type 0 where
  pub index : ℕ
  pub block : ResidueBlock

abbrev pub is_q1 : Side → Bool
is_q1 x = x.block.header.prime_selector == 0

-- The residues for the two primes.
abbrev pub q1_of : Side → Side → List ℕ
q1_of x y = if is_q1 x then x.block.residues else y.block.residues

abbrev pub q2_of : Side → Side → List ℕ
q2_of x y = if is_q1 x then y.block.residues else x.block.residues

-- A result with the position of this side's block.
abbrev pub result_from : ℕ → List ℕ → Side → GarnerResult
result_from s cs x = record {
  seq_id = s;
  token_pos = x.block.header.token_pos;
  layer_id = x.block.header.layer_id;
  coeffs = cs;
}

module _ (n : ℕ) (rc : List ℕ → List ℕ → Option (List ℕ)) (s : ℕ) (cs : List ℕ) where
  -- Two tasks have a block of the id each, of the two primes and the right length, and the
  -- residues recombine to `cs`.
  pub record IsPair (x y : Side) : Type 0 where
    pub apart : x.index ≢ y.index
    pub seq_x : x.block.header.seq_id ≡ s
    pub seq_y : y.block.header.seq_id ≡ s
    pub length_x : length x.block.residues ≡ n
    pub length_y : length y.block.residues ≡ n
    pub primes : is_q1 x ≡ not (is_q1 y)
    pub recombines : rc (q1_of x y) (q2_of x y) ≡ some cs

  pub IsPair-swap : (x y : Side) → IsPair x y → IsPair y x
  IsPair-swap x y pair = record {
    apart = λ e. pair.apart (sym e);
    seq_x = pair.seq_y;
    seq_y = pair.seq_x;
    length_x = pair.length_y;
    length_y = pair.length_x;
    primes = flip (is_q1 x) (is_q1 y) pair.primes;
    recombines = turned (is_q1 x) (is_q1 y) pair.primes pair.recombines;
  }
    where
      flip : (a b : Bool) → a ≡ not b → b ≡ not a
      flip true true h = absurd (cc h)
      flip true false h = refl
      flip false true h = refl
      flip false false h = absurd (cc h)

      turned :
          (a b : Bool)
          → a ≡ not b
          → rc
              (if a then x.block.residues else y.block.residues)
              (if a then y.block.residues else x.block.residues)
            ≡ some cs
          → rc
              (if b then y.block.residues else x.block.residues)
              (if b then x.block.residues else y.block.residues)
            ≡ some cs
      turned true true h e = absurd (cc h)
      turned true false h e = e
      turned false true h e = e
      turned false false h e = absurd (cc h)

  -- The entry that the first block leaves, and the one that the second makes of it.
  abbrev pub lone : Side → Bool → PendingBlock
  lone x true = record {
    q1 = some x.block.residues;
    q2 = none;
    token_pos = x.block.header.token_pos;
    layer_id = x.block.header.layer_id;
  }
  lone x false = record {
    q1 = none;
    q2 = some x.block.residues;
    token_pos = x.block.header.token_pos;
    layer_id = x.block.header.layer_id;
  }

  abbrev pub joined : Side → Side → PendingBlock
  joined x y = record {
    q1 = some (q1_of x y);
    q2 = some (q2_of x y);
    token_pos = x.block.header.token_pos;
    layer_id = x.block.header.layer_id;
  }

  pub put_first : (x : Side) → put x.block none ≡ lone x (is_q1 x)
  unfolding insert_residue
  put_first x = go (is_q1 x)
    where
      go : (a : Bool) → (if a then lone x true else lone x false) ≡ lone x a
      go true = refl
      go false = refl

  pub put_second :
      (x y : Side) → is_q1 x ≡ not (is_q1 y) → put y.block (some (lone x (is_q1 x))) ≡ joined x y
  unfolding insert_residue
  put_second x y h = go (is_q1 x) (is_q1 y) h
    where
      go :
          (a b : Bool)
          → a ≡ not b
          → ◌≡◌ {A = PendingBlock}
              (if b
                then record {
                  q1 = some y.block.residues;
                  q2 = (lone x a).q2;
                  token_pos = (lone x a).token_pos;
                  layer_id = (lone x a).layer_id;
                }
                else record {
                  q1 = (lone x a).q1;
                  q2 = some y.block.residues;
                  token_pos = (lone x a).token_pos;
                  layer_id = (lone x a).layer_id;
                })
              record {
                q1 = some (if a then x.block.residues else y.block.residues);
                q2 = some (if a then y.block.residues else x.block.residues);
                token_pos = x.block.header.token_pos;
                layer_id = x.block.header.layer_id;
              }
      go true true e = absurd (cc e)
      go true false e = refl
      go false true e = refl
      go false false e = absurd (cc e)

  pub has_both-lone : (x : Side) (a : Bool) → has_both (lone x a) ≡ false
  unfolding has_both
  has_both-lone x true = refl
  has_both-lone x false = refl

  pub has_both-joined : (x y : Side) → has_both (joined x y) ≡ true
  unfolding has_both
  has_both-joined x y = refl

  pub take_pending-joined :
      (x y : Side)
      → IsPair x y
      → take_pending n rc s (some (joined x y)) ≡ sending (result_from s cs x)
  unfolding take_pending recombined result_of
  take_pending-joined x y pair =
      rw (is_n (is_q1 x) x y pair, is_n (is_q1 x) y x (IsPair-swap x y pair), pair.recombines) refl
    where
      is_n :
          (a : Bool) (x y : Side)
          → IsPair x y
          → (length (if a then x.block.residues else y.block.residues) == n) ≡ true
      is_n true x y p = (==_iff (length x.block.residues) n).1 p.length_x
      is_n false x y p = (==_iff (length y.block.residues) n).1 p.length_y
