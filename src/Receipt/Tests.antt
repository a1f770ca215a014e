-- ===== src/Receipt/Tests.antt =====
-- A turn of a dialogue, minted, stamped and read back.
use kairos_engine.Base.{ℕ, zero, suc, ◌%◌, refl, List, [], ◌∷◌, length, replicate, All, arith}
use kairos_engine.Base.Bytes.{IsByte}
use kairos_engine.Receipt.{SpinorReceipt, IsReceipt, mint}
use kairos_engine.Receipt.Mint.{IsDigest, mint-IsReceipt}

-- 32 bytes that tell messages apart by their length.
abbrev digest : List ℕ → List ℕ
digest m = replicate 32 (length m % 256)

All-replicate : (n b : ℕ) → IsByte b → All IsByte (replicate n b)
All-replicate zero b h = tt
All-replicate (suc n) b h = (h, All-replicate n b h)

digest-IsDigest : IsDigest digest
digest-IsDigest = record {
  digest_len = λ m. refl;
  digest_bytes = λ m. All-replicate 32 (length m % 256) (omega arith);
}

abbrev turn : SpinorReceipt
turn = mint digest 3 14 (5 ∷ 6 ∷ []) (7 ∷ []) 1000

turn-IsReceipt : IsReceipt turn
turn-IsReceipt =
    mint-IsReceipt digest digest-IsDigest 3 14 (5 ∷ 6 ∷ []) (7 ∷ []) 1000 (omega arith)
      (omega arith)
