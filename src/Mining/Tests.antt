-- ===== src/Mining/Tests.antt =====
-- Two events minted by a fresh miner, with a toy signature.
use kairos_engine.Base.{
  ℕ, ◌%◌, ◌^◌, ◌≡◌, refl, true, false, List, [], ◌∷◌, ◌++◌, take, replicate, arith,
}
use kairos_engine.Mining.{SieveEvent, Miner, Outside, mint_all, frontier_cap, mine_batch}
use kairos_engine.Mining.Ring.{recent, records, mint_all_keeps_recent}

abbrev toy : Outside
toy = record {
  sp_sieve_evaluate =
      λ batch frontier n. record { rc = 0; frontier = frontier; frontier_n = n; events = [] };
  sign = λ message. take 64 message;
  pubkey = replicate 32 7;
}

abbrev fresh : Miner
fresh = record {
  frontier = replicate frontier_cap (replicate 64 0);
  frontier_n = 0;
  global_round = 0;
  receipt_store = [];
  pouw_minted = 0;
  sent = [];
}

abbrev fold : SieveEvent
fold = record { sig = replicate 64 1; seq_hash = replicate 32 171; round = 0 }

abbrev folds : List (SieveEvent × ℕ)
folds = (fold, 1000) ∷ (fold, 2000) ∷ []

mint_all_keeps_recent_example :
    ((mint_all toy fresh folds).receipt_store ≡ recent ([] ++ records toy 0 folds))
    × ((mint_all toy fresh folds).global_round ≡ 2 % 2 ^ 64)
    × ((mint_all toy fresh folds).pouw_minted ≡ 2 % 2 ^ 64)
mint_all_keeps_recent_example =
    mint_all_keeps_recent toy fresh [] folds refl (omega arith) (omega arith)

-- A batch of one candidate, and the same while inference is active.
one_batch : mine_batch toy false (replicate 48 2 ∷ []) (λ i. 0) fresh ≡ fresh
unfolding mine_batch
one_batch = refl

waiting : mine_batch toy true (replicate 48 2 ∷ []) (λ i. 0) fresh ≡ fresh
unfolding mine_batch
waiting = refl
