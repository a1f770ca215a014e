-- ===== src/Quic/Tests.antt =====
-- Blocks on the wire and tasks in different orders.
use kairos_engine.Base.{
  ℕ, zero, suc, ◌+◌, ◌*◌, ◌%◌, ◌≢◌, ◌≤◌, ◌<◌, ◌≡◌, refl, ◌⊎◌, true, false, Option, none, some, List,
  [], ◌∷◌, ◌++◌, length, get_elem?, subst, leb, if◌then◌else◌, arith,
}
use mathlib.Core.Option.{some-injective}
use kairos_engine.Quic.{ResidueBlock}
use kairos_engine.Quic.Wire.{
  send_block, recv_block, received, Delivers, IsBlock, recv_block-send_block, recv_block_shapes,
  max_stream, refused, read_failed, stream_too_short, residue_length,
}
use kairos_engine.Quic.Garner.{World, Task, arrived, accept_uni, run}
use kairos_engine.Quic.Effect.{results_for, IsAway}
use kairos_engine.Quic.Pair.{Side, result_from, IsPair}
use kairos_engine.Quic.Joined.{IsSent, IsFresh, run-never_twice}

-- A stream of these bytes.
read_of : List ℕ → ℕ → Option (List ℕ)
read_of bytes limit = if leb (length bytes) limit then some bytes else none

read_of-Delivers : (bytes : List ℕ) → Delivers (read_of bytes) bytes
unfolding read_of
read_of-Delivers bytes = record {
  within = λ limit h. rw (fits limit h) refl;
  past = λ limit h. rw (long limit h) refl;
}
  where
    fits : (limit : ℕ) → length bytes ≤ limit → leb (length bytes) limit ≡ true
    fits limit h = ground (arith, h)

    long : (limit : ℕ) → limit < length bytes → leb (length bytes) limit ≡ false
    long limit h = ground (arith, h)

abbrev block_of : ℕ → ℕ → List ℕ → ResidueBlock
block_of seq prime rs = record {
  header = record { seq_id = seq; token_pos = 5; layer_id = 3; prime_selector = prime };
  residues = rs;
}

abbrev first_block : ResidueBlock
first_block = block_of 7 0 (10 ∷ 20 ∷ [])

abbrev second_block : ResidueBlock
second_block = block_of 7 1 (30 ∷ 1073732608 ∷ [])

first_block-IsBlock : IsBlock first_block
first_block-IsBlock = record {
  seq_u64 = omega arith;
  token_u32 = omega arith;
  layer_u32 = omega arith;
  prime_u8 = omega arith;
  residue_u32 = (omega arith, (omega arith, tt));
}

second_block-IsBlock : IsBlock second_block
second_block-IsBlock = record {
  seq_u64 = omega arith;
  token_u32 = omega arith;
  layer_u32 = omega arith;
  prime_u8 = omega arith;
  residue_u32 = (omega arith, (omega arith, tt));
}

recv_block-send_block_example :
    recv_block (read_of (send_block second_block)) ≡ received second_block
recv_block-send_block_example =
    recv_block-send_block (read_of (send_block second_block)) second_block second_block-IsBlock
      (omega arith) (read_of-Delivers (send_block second_block))

abbrev short_stream : List ℕ
short_stream = 1 ∷ 2 ∷ 3 ∷ []

recv_block_shapes_example :
    ((max_stream < length short_stream) × (recv_block (read_of short_stream) ≡ refused read_failed))
    ⊎ (((length short_stream < 64)
          × (recv_block (read_of short_stream) ≡ refused (stream_too_short (length short_stream))))
        ⊎ (((length short_stream % 4 ≢ 0)
              × (recv_block (read_of short_stream) ≡ refused residue_length))
            ⊎ ((b : ResidueBlock) × (recv_block (read_of short_stream) ≡ received b)
                × (length short_stream ≡ 64 + 4 * length b.residues))))
recv_block_shapes_example =
    recv_block_shapes (read_of short_stream) short_stream (read_of-Delivers short_stream)

-- The recombination of the tests: the two lists, one after the other.
abbrev paired : List ℕ → List ℕ → Option (List ℕ)
paired q1 q2 = some (q1 ++ q2)

abbrev side_one : Side
side_one = record { index = 0; block = second_block }

abbrev side_two : Side
side_two = record { index = 2; block = first_block }

-- Two streams of the sequence id 7, and between them a block of the id 8.
abbrev three_streams : World
three_streams = record {
  pending = λ k. none;
  peers = λ k. none;
  tasks =
      accept_uni 1 (recv_block (read_of (send_block second_block)))
      ∷ arrived 2 (block_of 8 0 (1 ∷ 2 ∷ []))
      ∷ accept_uni 2 (recv_block (read_of (send_block first_block)))
      ∷ [];
  results = [];
}

sides-IsPair : IsPair 2 paired 7 (10 ∷ 20 ∷ 30 ∷ 1073732608 ∷ []) side_one side_two
sides-IsPair = record {
  apart = λ e. absurd (omega (arith, e));
  seq_x = refl;
  seq_y = refl;
  length_x = refl;
  length_y = refl;
  primes = refl;
  recombines = refl;
}

one-IsSent : IsSent side_one three_streams
one-IsSent = record {
  addr = 1;
  read_to_end = read_of (send_block second_block);
  block_ok = second_block-IsBlock;
  fits = omega arith;
  stream = read_of-Delivers (send_block second_block);
  task = refl;
}

two-IsSent : IsSent side_two three_streams
two-IsSent = record {
  addr = 2;
  read_to_end = read_of (send_block first_block);
  block_ok = first_block-IsBlock;
  fits = omega arith;
  stream = read_of-Delivers (send_block first_block);
  task = refl;
}

three_streams-IsFresh : IsFresh 7 side_one side_two three_streams
unfolding results_for
three_streams-IsFresh = record { pending_none = refl; results_none = refl; others = others }
  where
    others :
        (k : ℕ) (t : Task) → 0 ≢ k → 2 ≢ k → get_elem? three_streams.tasks k ≡ some t → IsAway 7 t
    others zero t h0 h2 e = absurd (h0 refl)
    others (suc zero) t h0 h2 e =
        subst (IsAway 7) (some-injective (arrived 2 (block_of 8 0 (1 ∷ 2 ∷ []))) t e)
          (λ q. absurd (omega (arith, q)))
    others (suc (suc zero)) t h0 h2 e = absurd (h2 refl)
    others (suc (suc (suc k))) t h0 h2 e = absurd (cc e)

abbrev turns : List ℕ
turns = 2 ∷ 0 ∷ 1 ∷ 0 ∷ 2 ∷ 2 ∷ 0 ∷ 1 ∷ 2 ∷ 1 ∷ 0 ∷ []

run-never_twice_example :
    (results_for 7 (run 2 paired (2 ∷ 2 ∷ 0 ∷ []) three_streams).results ≡ [])
    ⊎ ((results_for 7 (run 2 paired (2 ∷ 2 ∷ 0 ∷ []) three_streams).results
          ≡ result_from 7 (10 ∷ 20 ∷ 30 ∷ 1073732608 ∷ []) side_one ∷ [])
        ⊎ (results_for 7 (run 2 paired (2 ∷ 2 ∷ 0 ∷ []) three_streams).results
            ≡ result_from 7 (10 ∷ 20 ∷ 30 ∷ 1073732608 ∷ []) side_two ∷ []))
run-never_twice_example =
    run-never_twice 2 paired 7 (10 ∷ 20 ∷ 30 ∷ 1073732608 ∷ []) (2 ∷ 2 ∷ 0 ∷ []) side_one side_two
      three_streams sides-IsPair one-IsSent two-IsSent three_streams-IsFresh
