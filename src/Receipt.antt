-- ===== src/Receipt.antt =====
-- tools/sp_daemon/src/dialogue.rs: the 64-byte receipt of a dialogue turn and its wire form, with
-- `receipt_from_bytes` of tools/sp_daemon/src/pouw_ledger.rs. SHA-256 is an argument. A token (an
-- `i32`) stands for its 32-bit pattern, a fixed array for a list whose length `IsReceipt` states.
pub mod Layout
pub mod Mint
pub mod Decode
pub mod Rank
mod Tests
use kairos_engine.Base.{
  ℕ, ◌+◌, ◌^◌, ◌<◌, ◌-◌, min, Bool, true, false, not, ◌&&◌, List, [], ◌∷◌, ◌++◌, ◌==◌, ◌≡◌, length,
  take, drop, zero, suc, All,
}
use kairos_engine.Base.Bytes.{to_le_bytes, from_le_bytes, IsByte}

pub record SpinorReceipt : Type 0 where
  pub turn_index : ℕ
  pub model_id : ℕ
  pub pad : List ℕ
  pub wall_us : ℕ
  pub input_hash : List ℕ
  pub output_hash : List ℕ
  pub n_input_tokens : ℕ
  pub n_output_tokens : ℕ
  pub reserved : List ℕ
  pub sentinel : ℕ

-- The ranges that the field types of the struct state.
pub record IsReceipt (r : SpinorReceipt) : Type 0 where
  pub turn_byte : r.turn_index < 256
  pub model_byte : r.model_id < 256
  pub pad_len : length r.pad ≡ 2
  pub pad_bytes : All IsByte r.pad
  pub wall_u32 : r.wall_us < 256 ^ 4
  pub input_len : length r.input_hash ≡ 24
  pub input_bytes : All IsByte r.input_hash
  pub output_len : length r.output_hash ≡ 24
  pub output_bytes : All IsByte r.output_hash
  pub n_input_u32 : r.n_input_tokens < 256 ^ 4
  pub n_output_byte : r.n_output_tokens < 256
  pub reserved_len : length r.reserved ≡ 2
  pub reserved_bytes : All IsByte r.reserved
  pub sentinel_byte : r.sentinel < 256

abbrev pub model_id_executive : ℕ
model_id_executive = 0xe

abbrev pub model_id_memory : ℕ
model_id_memory = 0x4d

abbrev pub spinor_sentinel : ℕ
spinor_sentinel = 0xa5

abbrev pub u32_max : ℕ
u32_max = 2 ^ 32 - 1

abbrev pub u8_max : ℕ
u8_max = 255

-- The bytes of a token buffer: each `i32` in little-endian order.
pub token_bytes : List ℕ → List ℕ
token_bytes [] = []
token_bytes (t ∷ ts) = to_le_bytes 4 t ++ token_bytes ts

module _ (sha256 : List ℕ → List ℕ) where
  unfoldable pub hash_buf : ℕ → ℕ → List ℕ → List ℕ
  unfolding token_bytes
  hash_buf turn_index model_id tokens =
      take 24 (sha256 ((model_id ∷ turn_index ∷ []) ++ token_bytes tokens))

  unfoldable pub mint : ℕ → ℕ → List ℕ → List ℕ → ℕ → SpinorReceipt
  unfolding hash_buf
  mint turn_index model_id input_tokens output_tokens wall_us = record {
    turn_index = turn_index;
    model_id = model_id;
    pad = 0 ∷ 0 ∷ [];
    wall_us = min wall_us u32_max;
    input_hash = hash_buf turn_index model_id input_tokens;
    output_hash = hash_buf turn_index model_id output_tokens;
    n_input_tokens = min (length input_tokens) u32_max;
    n_output_tokens = min (length output_tokens) u8_max;
    reserved = 0 ∷ 0 ∷ [];
    sentinel = spinor_sentinel;
  }

-- `#[repr(C, packed)]`: the fields in order, with no padding between them.
unfoldable pub as_bytes : SpinorReceipt → List ℕ
as_bytes r =
    r.turn_index
    ∷ r.model_id
    ∷ (r.pad
        ++ (to_le_bytes 4 r.wall_us
            ++ (r.input_hash
                ++ (r.output_hash
                    ++ (to_le_bytes 4 r.n_input_tokens
                        ++ (r.n_output_tokens ∷ (r.reserved ++ (r.sentinel ∷ []))))))))

-- The byte at an offset, and a field of the copied struct.
abbrev pub byte_at : List ℕ → ℕ → ℕ
byte_at [] i = 0
byte_at (b ∷ bs) zero = b
byte_at (b ∷ bs) (suc i) = byte_at bs i

abbrev pub slice : ℕ → ℕ → List ℕ → List ℕ
slice off n bs = take n (drop off bs)

unfoldable pub receipt_from_bytes : List ℕ → SpinorReceipt
receipt_from_bytes buf = record {
  turn_index = byte_at buf 0;
  model_id = byte_at buf 1;
  pad = slice 2 2 buf;
  wall_us = from_le_bytes (slice 4 4 buf);
  input_hash = slice 8 24 buf;
  output_hash = slice 32 24 buf;
  n_input_tokens = from_le_bytes (slice 56 4 buf);
  n_output_tokens = byte_at buf 60;
  reserved = slice 61 2 buf;
  sentinel = byte_at buf 63;
}

pub sentinel_ok : SpinorReceipt → Bool
sentinel_ok r = r.sentinel == spinor_sentinel

-- `iter().any(|&b| b != 0)`
pub any_nonzero : List ℕ → Bool
any_nonzero [] = false
any_nonzero (b ∷ bs) = elim (b == 0) [ true ↦ any_nonzero bs | false ↦ true ]

pub hashes_nonzero : SpinorReceipt → Bool
unfolding any_nonzero
hashes_nonzero r = any_nonzero r.input_hash && any_nonzero r.output_hash

unfoldable pub with_sequence_rank : SpinorReceipt → ℕ → SpinorReceipt
with_sequence_rank r rank = record r { reserved = to_le_bytes 2 rank }

unfoldable pub sequence_rank : SpinorReceipt → ℕ
sequence_rank r = from_le_bytes r.reserved
