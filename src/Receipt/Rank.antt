-- ===== src/Receipt/Rank.antt =====
-- `with_sequence_rank` and `sequence_rank`: the rank on the wire.
use mathlib.Core.List.{append_assoc}
use kairos_engine.Base.{
  ℕ, ◌^◌, ◌<◌, ◌≡◌, refl, ap, sym, ◌∙◌, List, [], ◌∷◌, ◌++◌, arith, length, take, drop,
  length-append,
}
use kairos_engine.Base.Bytes.{
  to_le_bytes, from_le_bytes, from-to_le_bytes, length-to_le_bytes, to_le_bytes-IsByte, take_field,
}
use kairos_engine.Receipt.{
  SpinorReceipt, IsReceipt, as_bytes, mint, byte_at, slice, spinor_sentinel, with_sequence_rank,
  sequence_rank,
}
use kairos_engine.Receipt.Layout.{
  length-as_bytes, byte_at-as_bytes, reserved_field, past_rank, from_rank,
}
use kairos_engine.Receipt.Mint.{IsDigest, mint-IsReceipt}

pub with_sequence_rank-IsReceipt :
    (r : SpinorReceipt) (rank : ℕ) → IsReceipt r → IsReceipt (with_sequence_rank r rank)
unfolding with_sequence_rank
with_sequence_rank-IsReceipt r rank v = record {
  turn_byte = v.turn_byte;
  model_byte = v.model_byte;
  pad_len = v.pad_len;
  pad_bytes = v.pad_bytes;
  wall_u32 = v.wall_u32;
  input_len = v.input_len;
  input_bytes = v.input_bytes;
  output_len = v.output_len;
  output_bytes = v.output_bytes;
  n_input_u32 = v.n_input_u32;
  n_output_byte = v.n_output_byte;
  reserved_len = length-to_le_bytes 2 rank;
  reserved_bytes = to_le_bytes-IsByte 2 rank;
  sentinel_byte = v.sentinel_byte;
}

-- The fields before the rank.
abbrev front : SpinorReceipt → List ℕ
front r =
    r.turn_index
    ∷ r.model_id
    ∷ (r.pad
        ++ (to_le_bytes 4 r.wall_us
            ++ (r.input_hash
                ++ (r.output_hash
                    ++ (to_le_bytes 4 r.n_input_tokens ++ (r.n_output_tokens ∷ []))))))

as_bytes_split : (r : SpinorReceipt) → as_bytes r ≡ front r ++ from_rank r
unfolding as_bytes
as_bytes_split r = simp append_assoc

length-front : (r : SpinorReceipt) → IsReceipt r → length (front r) ≡ 61
length-front r v = omega (
  arith,
  length-as_bytes r v,
  ap (length {0} {A = ℕ}) (as_bytes_split r),
  length-append {0} (front r) (from_rank r),
  length-append {0} r.reserved (r.sentinel ∷ []),
  v.reserved_len,
)

take-front : (r : SpinorReceipt) → IsReceipt r → take 61 (as_bytes r) ≡ front r
take-front r v =
    ap (take 61) (as_bytes_split r) ∙ take_field 61 (front r) (from_rank r) (length-front r v)

-- Stamping a rank writes it into bytes 61 and 62 of the wire form, little-endian, and leaves every
-- byte before and after them as it was.
pub with_sequence_rank_bytes :
    (r : SpinorReceipt) (rank : ℕ)
    → IsReceipt r
    → (take 61 (as_bytes (with_sequence_rank r rank)) ≡ take 61 (as_bytes r))
      × (slice 61 2 (as_bytes (with_sequence_rank r rank)) ≡ to_le_bytes 2 rank)
      × (drop 63 (as_bytes (with_sequence_rank r rank)) ≡ drop 63 (as_bytes r))
unfolding with_sequence_rank
with_sequence_rank_bytes r rank v = (
  take-front (with_sequence_rank r rank) stamped ∙ sym (take-front r v),
  reserved_field (with_sequence_rank r rank) stamped,
  past_rank (with_sequence_rank r rank) stamped ∙ sym (past_rank r v),
)
  where
    stamped : IsReceipt (with_sequence_rank r rank)
    stamped = with_sequence_rank-IsReceipt r rank v

-- A rank of 16 bits is read back.
pub sequence_rank-with_sequence_rank :
    (r : SpinorReceipt) (rank : ℕ)
    → rank < 2 ^ 16
    → sequence_rank (with_sequence_rank r rank) ≡ rank
unfolding sequence_rank with_sequence_rank
sequence_rank-with_sequence_rank r rank h = from-to_le_bytes 2 rank h

module _ (sha256 : List ℕ → List ℕ) (d : IsDigest sha256) where
  -- A minted receipt, stamped with any 16-bit rank, has 64 bytes on the wire and the marker 0xA5 at
  -- offset 63, and its rank is read back; before it is stamped its rank is 0.
  pub mint_on_wire :
      (turn model : ℕ) (input output : List ℕ) (wall rank : ℕ)
      → turn < 256
      → model < 256
      → rank < 2 ^ 16
      → (length (as_bytes (with_sequence_rank (mint sha256 turn model input output wall) rank))
          ≡ 64)
        × (byte_at
              (as_bytes (with_sequence_rank (mint sha256 turn model input output wall) rank))
              63
            ≡ spinor_sentinel)
        × (sequence_rank (with_sequence_rank (mint sha256 turn model input output wall) rank)
            ≡ rank)
        × (sequence_rank (mint sha256 turn model input output wall) ≡ 0)
  unfolding with_sequence_rank sequence_rank from_le_bytes mint
  mint_on_wire turn model input output wall rank ht hm hr =
      (length-as_bytes _ stamped, byte_at-as_bytes _ stamped, from-to_le_bytes 2 rank hr, refl)
    where
      stamped : IsReceipt (with_sequence_rank (mint sha256 turn model input output wall) rank)
      stamped =
          with_sequence_rank-IsReceipt _ rank
            (mint-IsReceipt sha256 d turn model input output wall ht hm)
