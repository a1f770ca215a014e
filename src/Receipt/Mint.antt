-- ===== src/Receipt/Mint.antt =====
-- What `mint` and the sequence rank put into a receipt.
use kairos_engine.Base.{
  ℕ, zero, suc, ◌<◌, ◌≡◌, refl, List, [], ◌∷◌, arith, length, take, All, length-take,
}
use kairos_engine.Base.Bytes.{IsByte}
use kairos_engine.Receipt.{IsReceipt, hash_buf, mint}

take_bytes : (n : ℕ) (b : List ℕ) → All IsByte b → All IsByte (take n b)
take_bytes zero b h = tt
take_bytes (suc n) [] h = tt
take_bytes (suc n) (x ∷ b) h = (h.0, take_bytes n b h.1)

-- SHA-256 returns 32 bytes.
pub record IsDigest (sha256 : List ℕ → List ℕ) : Type 0 where
  pub digest_len : (m : List ℕ) → length (sha256 m) ≡ 32
  pub digest_bytes : (m : List ℕ) → All IsByte (sha256 m)

module _ (sha256 : List ℕ → List ℕ) (d : IsDigest sha256) where
  hash_len : (t m : ℕ) (xs : List ℕ) → length (hash_buf sha256 t m xs) ≡ 24
  unfolding hash_buf
  hash_len t m xs = omega (arith, length-take {0} 24 (sha256 _), d.digest_len _)

  hash_bytes : (t m : ℕ) (xs : List ℕ) → All IsByte (hash_buf sha256 t m xs)
  unfolding hash_buf
  hash_bytes t m xs = take_bytes 24 _ (d.digest_bytes _)

  -- Whatever the lengths and the clock, a minted receipt has its fields in range: the counts and
  -- the clock saturate instead of wrapping.
  pub mint-IsReceipt :
      (turn model : ℕ) (input output : List ℕ) (wall : ℕ)
      → turn < 256
      → model < 256
      → IsReceipt (mint sha256 turn model input output wall)
  unfolding mint
  mint-IsReceipt turn model input output wall ht hm = record {
    turn_byte = ht;
    model_byte = hm;
    pad_len = refl;
    pad_bytes = omega arith;
    wall_u32 = omega arith;
    input_len = hash_len turn model input;
    input_bytes = hash_bytes turn model input;
    output_len = hash_len turn model output;
    output_bytes = hash_bytes turn model output;
    n_input_u32 = omega arith;
    n_output_byte = omega arith;
    reserved_len = refl;
    reserved_bytes = omega arith;
    sentinel_byte = omega arith;
  }
