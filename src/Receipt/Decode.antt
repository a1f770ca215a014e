-- ===== src/Receipt/Decode.antt =====
-- `receipt_from_bytes` on any 64 bytes: the struct it copies has its fields in range and writes the
-- same 64 bytes again.
use kairos_engine.Base.{
  ℕ, zero, suc, ◌+◌, ◌^◌, ◌≤◌, ◌<◌, ◌≡◌, refl, ap, sym, ◌∙◌, List, [], ◌∷◌, ◌++◌, arith, length,
  take, drop, All, length-take, length-drop, take-append-drop,
}
use kairos_engine.Base.Bytes.{
  to_le_bytes, from_le_bytes, IsByte, to-from_le_bytes, from_le_bytes-lt,
}
use kairos_engine.Receipt.{IsReceipt, as_bytes, receipt_from_bytes, byte_at, slice}

drop-drop : (m n k : ℕ) (b : List ℕ) → k ≡ m + n → drop n (drop m b) ≡ drop k b
drop-drop zero n k b e = ap (λ (t : ℕ). drop t b) (omega arith)
drop-drop (suc m) n zero b e = absurd (omega arith)
drop-drop (suc m) zero (suc k) [] e = refl
drop-drop (suc m) (suc n) (suc k) [] e = refl
drop-drop (suc m) n (suc k) (x ∷ b) e = drop-drop m n k b (omega arith)

slice_join : (off n m : ℕ) (b : List ℕ) → m ≡ off + n → slice off n b ++ drop m b ≡ drop off b
slice_join off n m b e =
    ap (λ t. slice off n b ++ t) (sym (drop-drop off n m b e)) ∙ take-append-drop n (drop off b)

byte_join : (b : List ℕ) (off : ℕ) → off < length b → byte_at b off ∷ drop (suc off) b ≡ drop off b
byte_join [] off h = absurd (omega arith)
byte_join (x ∷ b) zero h = refl
byte_join (x ∷ b) (suc off) h = byte_join b off (omega arith)

drop_all : (b : List ℕ) (n : ℕ) → length b ≤ n → drop n b ≡ []
drop_all [] zero h = refl
drop_all [] (suc n) h = refl
drop_all (x ∷ b) zero h = absurd (omega arith)
drop_all (x ∷ b) (suc n) h = drop_all b n (omega arith)

All-take : (n : ℕ) (b : List ℕ) → All IsByte b → All IsByte (take n b)
All-take zero b h = tt
All-take (suc n) [] h = tt
All-take (suc n) (x ∷ b) h = (h.0, All-take n b h.1)

All-drop : (n : ℕ) (b : List ℕ) → All IsByte b → All IsByte (drop n b)
All-drop zero b h = h
All-drop (suc n) [] h = tt
All-drop (suc n) (x ∷ b) h = All-drop n b h.1

byte_at-lt : (b : List ℕ) (i : ℕ) → All IsByte b → byte_at b i < 256
byte_at-lt [] i h = omega arith
byte_at-lt (x ∷ b) zero h = h.0
byte_at-lt (x ∷ b) (suc i) h = byte_at-lt b i h.1

module _ (b : List ℕ) (len : length b ≡ 64) (bytes : All IsByte b) where
  slice_len : (off n : ℕ) → off + n ≤ 64 → length (slice off n b) ≡ n
  slice_len off n h = omega (arith, length-take {0} n (drop off b), length-drop {0} off b, len)

  slice_bytes : (off n : ℕ) → All IsByte (slice off n b)
  slice_bytes off n = All-take n (drop off b) (All-drop off b bytes)

  slice_lt : (off : ℕ) → off + 4 ≤ 64 → from_le_bytes (slice off 4 b) < 256 ^ 4
  slice_lt off h = rw (slice_len off 4 h) at (from_le_bytes-lt (slice off 4 b) (slice_bytes off 4))

  rewrite_slice :
      (off : ℕ) → off + 4 ≤ 64 → to_le_bytes 4 (from_le_bytes (slice off 4 b)) ≡ slice off 4 b
  rewrite_slice off h =
      ap (λ (w : ℕ). to_le_bytes w (from_le_bytes (slice off 4 b))) (sym (slice_len off 4 h))
      ∙ to-from_le_bytes (slice off 4 b) (slice_bytes off 4)

  -- Every field that is copied out of 64 bytes is in the range of its type.
  pub receipt_from_bytes-IsReceipt : IsReceipt (receipt_from_bytes b)
  unfolding receipt_from_bytes
  receipt_from_bytes-IsReceipt = record {
    turn_byte = byte_at-lt b 0 bytes;
    model_byte = byte_at-lt b 1 bytes;
    pad_len = slice_len 2 2 (omega arith);
    pad_bytes = slice_bytes 2 2;
    wall_u32 = slice_lt 4 (omega arith);
    input_len = slice_len 8 24 (omega arith);
    input_bytes = slice_bytes 8 24;
    output_len = slice_len 32 24 (omega arith);
    output_bytes = slice_bytes 32 24;
    n_input_u32 = slice_lt 56 (omega arith);
    n_output_byte = byte_at-lt b 60 bytes;
    reserved_len = slice_len 61 2 (omega arith);
    reserved_bytes = slice_bytes 61 2;
    sentinel_byte = byte_at-lt b 63 bytes;
  }

  -- The tail of the wire form of the copied struct, from the hashes on.
  joined_rank : slice 61 2 b ++ (byte_at b 63 ∷ []) ≡ drop 61 b
  joined_rank =
      ap (λ t. slice 61 2 b ++ (byte_at b 63 ∷ t)) (sym (drop_all b 64 (omega arith)))
      ∙ ap (λ t. slice 61 2 b ++ t) (byte_join b 63 (omega arith))
      ∙ slice_join 61 2 63 b refl

  joined_n_input :
      to_le_bytes 4 (from_le_bytes (slice 56 4 b))
        ++ (byte_at b 60 ∷ (slice 61 2 b ++ (byte_at b 63 ∷ [])))
      ≡ drop 56 b
  joined_n_input =
      ap (λ t. t ++ (byte_at b 60 ∷ (slice 61 2 b ++ (byte_at b 63 ∷ []))))
        (rewrite_slice 56 (omega arith))
      ∙ ap (λ t. slice 56 4 b ++ (byte_at b 60 ∷ t)) joined_rank
      ∙ ap (λ t. slice 56 4 b ++ t) (byte_join b 60 (omega arith))
      ∙ slice_join 56 4 60 b refl

  -- The copied struct writes the 64 bytes that it was copied from.
  pub as_bytes-receipt_from_bytes : as_bytes (receipt_from_bytes b) ≡ b
  unfolding as_bytes receipt_from_bytes
  as_bytes-receipt_from_bytes =
      ap (λ t. front (slice 2 2 b ++ (wall ++ (slice 8 24 b ++ (slice 32 24 b ++ t)))))
        joined_n_input
      ∙ ap (λ t. front (slice 2 2 b ++ (wall ++ (slice 8 24 b ++ t)))) (slice_join 32 24 56 b refl)
      ∙ ap (λ t. front (slice 2 2 b ++ (wall ++ t))) (slice_join 8 24 32 b refl)
      ∙ ap (λ t. front (slice 2 2 b ++ (t ++ drop 8 b))) (rewrite_slice 4 (omega arith))
      ∙ ap (λ t. front (slice 2 2 b ++ t)) (slice_join 4 4 8 b refl)
      ∙ ap front (slice_join 2 2 4 b refl)
      ∙ ap (λ t. byte_at b 0 ∷ t) (byte_join b 1 (omega arith))
      ∙ byte_join b 0 (omega arith)
    where
      front : List ℕ → List ℕ
      front t = byte_at b 0 ∷ byte_at b 1 ∷ t

      wall : List ℕ
      wall = to_le_bytes 4 (from_le_bytes (slice 4 4 b))
