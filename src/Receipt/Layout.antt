-- ===== src/Receipt/Layout.antt =====
-- The wire form of a receipt: its length, the offsets of its fields, and both round trips.
use kairos_engine.Base.{
  ℕ, zero, suc, ◌+◌, ◌≡◌, refl, ap, ◌∙◌, List, [], ◌∷◌, ◌++◌, arith, length, take, drop,
  length-append,
}
use kairos_engine.Base.Bytes.{
  to_le_bytes, from_le_bytes, length-to_le_bytes, from-to_le_bytes, take_field, drop_field,
}
use kairos_engine.Receipt.{SpinorReceipt, IsReceipt, as_bytes, receipt_from_bytes, byte_at, slice}

drop_past : (n k m : ℕ) (xs ys : List ℕ) → length xs ≡ n → m ≡ n + k → drop m (xs ++ ys) ≡ drop k ys
drop_past n k m [] ys h e = ap (λ (t : ℕ). drop t ys) (omega arith)
drop_past n k zero (x ∷ xs) ys h e = absurd (omega arith)
drop_past n k (suc m) (x ∷ xs) ys h e = drop_past (length xs) k m xs ys refl (omega arith)

byte_at-drop : (b : List ℕ) (i x : ℕ) (rest : List ℕ) → drop i b ≡ x ∷ rest → byte_at b i ≡ x
byte_at-drop [] zero x rest e = cc
byte_at-drop [] (suc i) x rest e = cc
byte_at-drop (y ∷ b) zero x rest e = cc
byte_at-drop (y ∷ b) (suc i) x rest e = byte_at-drop b i x rest e

-- The parts of the wire form, from each of its later fields on.
abbrev pub from_rank : SpinorReceipt → List ℕ
from_rank r = r.reserved ++ (r.sentinel ∷ [])

abbrev from_n_input : SpinorReceipt → List ℕ
from_n_input r = to_le_bytes 4 r.n_input_tokens ++ (r.n_output_tokens ∷ from_rank r)

abbrev from_output : SpinorReceipt → List ℕ
from_output r = r.output_hash ++ from_n_input r

abbrev from_input : SpinorReceipt → List ℕ
from_input r = r.input_hash ++ from_output r

abbrev from_wall : SpinorReceipt → List ℕ
from_wall r = to_le_bytes 4 r.wall_us ++ from_input r

module _ (r : SpinorReceipt) (v : IsReceipt r) where
  wall_len : length (to_le_bytes 4 r.wall_us) ≡ 4
  wall_len = length-to_le_bytes 4 r.wall_us

  n_input_len : length (to_le_bytes 4 r.n_input_tokens) ≡ 4
  n_input_len = length-to_le_bytes 4 r.n_input_tokens

  -- Past the pad and the clock, and past the hash of the input too.
  past_wall : (k m : ℕ) → m ≡ 8 + k → drop m (as_bytes r) ≡ drop k (from_input r)
  unfolding as_bytes
  past_wall k zero e = absurd (omega arith)
  past_wall k (suc zero) e = absurd (omega arith)
  past_wall k (suc (suc m)) e =
      drop_past 2 (4 + k) m r.pad (from_wall r) v.pad_len (omega arith)
      ∙ drop_past 4 k (4 + k) (to_le_bytes 4 r.wall_us) (from_input r) wall_len refl

  past_input : (k m : ℕ) → m ≡ 32 + k → drop m (as_bytes r) ≡ drop k (from_output r)
  past_input k m e =
      past_wall (24 + k) m (omega arith)
      ∙ drop_past 24 k (24 + k) r.input_hash (from_output r) v.input_len refl

  past_output : (k m : ℕ) → m ≡ 56 + k → drop m (as_bytes r) ≡ drop k (from_n_input r)
  past_output k m e =
      past_input (24 + k) m (omega arith)
      ∙ drop_past 24 k (24 + k) r.output_hash (from_n_input r) v.output_len refl

  past_n_input :
      (k m : ℕ) → m ≡ 60 + k → drop m (as_bytes r) ≡ drop k (r.n_output_tokens ∷ from_rank r)
  past_n_input k m e =
      past_output (4 + k) m (omega arith)
      ∙ drop_past 4 k (4 + k) (to_le_bytes 4 r.n_input_tokens) (r.n_output_tokens ∷ from_rank r)
          n_input_len refl

  pub past_rank : drop 63 (as_bytes r) ≡ r.sentinel ∷ []
  past_rank = past_n_input 3 63 refl ∙ drop_field 2 r.reserved (r.sentinel ∷ []) v.reserved_len

  -- The wire form has 64 bytes.
  pub length-as_bytes : length (as_bytes r) ≡ 64
  unfolding as_bytes
  length-as_bytes = omega (
    arith,
    length-append {0} r.pad (from_wall r),
    length-append {0} (to_le_bytes 4 r.wall_us) (from_input r),
    length-append {0} r.input_hash (from_output r),
    length-append {0} r.output_hash (from_n_input r),
    length-append {0} (to_le_bytes 4 r.n_input_tokens) (r.n_output_tokens ∷ from_rank r),
    length-append {0} r.reserved (r.sentinel ∷ []),
    wall_len,
    n_input_len,
    v.pad_len,
    v.input_len,
    v.output_len,
    v.reserved_len,
  )

  pub byte_at-as_bytes : byte_at (as_bytes r) 63 ≡ r.sentinel
  byte_at-as_bytes = byte_at-drop (as_bytes r) 63 r.sentinel [] past_rank

  pad_field : slice 2 2 (as_bytes r) ≡ r.pad
  unfolding as_bytes
  pad_field = take_field 2 r.pad (from_wall r) v.pad_len

  wall_field : from_le_bytes (slice 4 4 (as_bytes r)) ≡ r.wall_us
  unfolding as_bytes
  wall_field =
      ap (λ t. from_le_bytes (take 4 t)) (drop_field 2 r.pad (from_wall r) v.pad_len)
      ∙ ap from_le_bytes (take_field 4 (to_le_bytes 4 r.wall_us) (from_input r) wall_len)
      ∙ from-to_le_bytes 4 r.wall_us v.wall_u32

  input_field : slice 8 24 (as_bytes r) ≡ r.input_hash
  input_field =
      ap (take 24) (past_wall 0 8 refl) ∙ take_field 24 r.input_hash (from_output r) v.input_len

  output_field : slice 32 24 (as_bytes r) ≡ r.output_hash
  output_field =
      ap (take 24) (past_input 0 32 refl)
      ∙ take_field 24 r.output_hash (from_n_input r) v.output_len

  n_input_field : from_le_bytes (slice 56 4 (as_bytes r)) ≡ r.n_input_tokens
  n_input_field =
      ap (λ t. from_le_bytes (take 4 t)) (past_output 0 56 refl)
      ∙ ap from_le_bytes (
          take_field 4 (to_le_bytes 4 r.n_input_tokens) (r.n_output_tokens ∷ from_rank r)
            n_input_len)
      ∙ from-to_le_bytes 4 r.n_input_tokens v.n_input_u32

  n_output_field : byte_at (as_bytes r) 60 ≡ r.n_output_tokens
  n_output_field =
      byte_at-drop (as_bytes r) 60 r.n_output_tokens (from_rank r) (past_n_input 0 60 refl)

  pub reserved_field : slice 61 2 (as_bytes r) ≡ r.reserved
  reserved_field =
      ap (take 2) (past_n_input 1 61 refl)
      ∙ take_field 2 r.reserved (r.sentinel ∷ []) v.reserved_len

  -- A receipt whose fields are in their ranges is read back from its wire form, field by field.
  pub receipt_from_bytes-as_bytes : receipt_from_bytes (as_bytes r) ≡ r
  unfolding receipt_from_bytes as_bytes
  receipt_from_bytes-as_bytes = λ i. record {
    turn_index = r.turn_index;
    model_id = r.model_id;
    pad = pad_field i;
    wall_us = wall_field i;
    input_hash = input_field i;
    output_hash = output_field i;
    n_input_tokens = n_input_field i;
    n_output_tokens = n_output_field i;
    reserved = reserved_field i;
    sentinel = byte_at-as_bytes i;
  }
