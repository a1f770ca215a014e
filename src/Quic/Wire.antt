-- ===== src/Quic/Wire.antt =====
-- The wire form of a block of residues: 64 bytes of header, then each residue in four bytes.
-- `read_to_end` of a QUIC stream is another crate's and an argument.
use kairos_engine.Base.{
  ℕ, zero, suc, ◌+◌, ◌-◌, ◌*◌, ◌/◌, ◌%◌, ◌^◌, ◌<◌, ◌≤◌, ◌≡◌, ◌≢◌, refl, ap, sym, ◌∙◌, Bool, true,
  false, not, Option, none, some, List, [], ◌∷◌, ◌++◌, length, take, drop, replicate, All,
  length-append, ltb, ◌==◌, if◌then◌else◌, arith, ==_iff, length-drop, ◌⊎◌, inl, inr,
}
use kairos_engine.Base.Bytes.{
  to_le_bytes, from_le_bytes, length-to_le_bytes, from-to_le_bytes, take_field, drop_field,
}
use kairos_engine.Quic.{ShardBlockHeader, ResidueBlock}

unfoldable pub header_to_bytes : ShardBlockHeader → List ℕ
header_to_bytes h =
    to_le_bytes 8 h.seq_id
    ++ (to_le_bytes 4 h.token_pos
        ++ (to_le_bytes 4 h.layer_id ++ (h.prime_selector ∷ replicate 47 0)))

-- One field of a header: `n` bytes from `at`.
abbrev field : ℕ → ℕ → List ℕ → ℕ
field at n bytes = from_le_bytes (take n (drop at bytes))

unfoldable pub header_from_bytes : List ℕ → ShardBlockHeader
header_from_bytes b = record {
  seq_id = field 0 8 b;
  token_pos = field 8 4 b;
  layer_id = field 12 4 b;
  prime_selector = field 16 1 b;
}

unfoldable pub residue_bytes : List ℕ → List ℕ
residue_bytes [] = []
residue_bytes (r ∷ rs) = to_le_bytes 4 r ++ residue_bytes rs

-- `send_block`: the bytes it writes to a stream of its own.
unfoldable pub send_block : ResidueBlock → List ℕ
send_block block = header_to_bytes block.header ++ residue_bytes block.residues

pub data RecvError : Type 0 where
  read_failed : RecvError
  stream_too_short : ℕ → RecvError
  residue_length : RecvError

pub data Received : Type 0 where
  received : ResidueBlock → Received
  refused : RecvError → Received

-- `chunks_exact(4)`, each chunk read as a number.
unfoldable pub residues_from : List ℕ → List ℕ
residues_from (a ∷ b ∷ c ∷ d ∷ rest) = from_le_bytes (a ∷ b ∷ c ∷ d ∷ []) ∷ residues_from rest
residues_from (a ∷ b ∷ c ∷ []) = []
residues_from (a ∷ b ∷ []) = []
residues_from (a ∷ []) = []
residues_from [] = []

abbrev pub max_stream : ℕ
max_stream = 64 + 512 * 4

unfoldable pub decode_block : List ℕ → Received
decode_block bytes =
    if ltb (length bytes) 64
    then refused (stream_too_short (length bytes))
    else if not ((length bytes - 64) % 4 == 0)
    then refused residue_length
    else received record {
      header = header_from_bytes (take 64 bytes);
      residues = residues_from (drop 64 bytes);
    }

-- `recv_block` over `read_to_end`, which is given the limit.
unfoldable pub recv_block : (ℕ → Option (List ℕ)) → Received
recv_block read_to_end = go (read_to_end max_stream)
  where
    go : Option (List ℕ) → Received
    go none = refused read_failed
    go (some bytes) = decode_block bytes

-- What a stream of these bytes gives: all of them within the limit, a failure past it.
pub record Delivers (read_to_end : ℕ → Option (List ℕ)) (bytes : List ℕ) : Type 0 where
  pub within : (limit : ℕ) → length bytes ≤ limit → read_to_end limit ≡ some bytes
  pub past : (limit : ℕ) → limit < length bytes → read_to_end limit ≡ none

-- The ranges of the struct's field types.
pub record IsBlock (b : ResidueBlock) : Type 0 where
  pub seq_u64 : b.header.seq_id < 256 ^ 8
  pub token_u32 : b.header.token_pos < 256 ^ 4
  pub layer_u32 : b.header.layer_id < 256 ^ 4
  pub prime_u8 : b.header.prime_selector < 256
  pub residue_u32 : All (λ (r : ℕ). r < 256 ^ 4) b.residues

length-residue_bytes : (rs : List ℕ) → length (residue_bytes rs) ≡ 4 * length rs
unfolding residue_bytes
length-residue_bytes [] = refl
length-residue_bytes (r ∷ rs) = omega (
  arith,
  length-append (to_le_bytes 4 r) (residue_bytes rs),
  length-to_le_bytes 4 r,
  length-residue_bytes rs,
)

residues_from-residue_bytes :
    (rs : List ℕ) → All (λ (r : ℕ). r < 256 ^ 4) rs → residues_from (residue_bytes rs) ≡ rs
unfolding residues_from residue_bytes to_le_bytes
residues_from-residue_bytes [] h = refl
residues_from-residue_bytes (r ∷ rs) (h, hs) =
    ap (λ (x : ℕ). x ∷ residues_from (residue_bytes rs)) (from-to_le_bytes 4 r h)
    ∙ ap (λ (l : List ℕ). r ∷ l) (residues_from-residue_bytes rs hs)

length-header_to_bytes : (h : ShardBlockHeader) → length (header_to_bytes h) ≡ 64
unfolding header_to_bytes to_le_bytes
length-header_to_bytes h = refl

from_le_bytes_one : (n : ℕ) → from_le_bytes (n ∷ []) ≡ n
unfolding from_le_bytes
from_le_bytes_one n = omega arith

header_from-header_to_bytes :
    (b : ResidueBlock) → IsBlock b → header_from_bytes (header_to_bytes b.header) ≡ b.header
unfolding header_to_bytes header_from_bytes to_le_bytes
header_from-header_to_bytes b ok i = record {
  seq_id = from-to_le_bytes 8 b.header.seq_id ok.seq_u64 i;
  token_pos = from-to_le_bytes 4 b.header.token_pos ok.token_u32 i;
  layer_id = from-to_le_bytes 4 b.header.layer_id ok.layer_u32 i;
  prime_selector = from_le_bytes_one b.header.prime_selector i;
}

length-send_block : (b : ResidueBlock) → length (send_block b) ≡ 64 + 4 * length b.residues
unfolding send_block
length-send_block b = omega (
  arith,
  length-append (header_to_bytes b.header) (residue_bytes b.residues),
  length-header_to_bytes b.header,
  length-residue_bytes b.residues,
)

decode_block-append :
    (h rs : List ℕ)
    → length h ≡ 64
    → length rs % 4 ≡ 0
    → decode_block (h ++ rs)
      ≡ received record { header = header_from_bytes h; residues = residues_from rs }
unfolding decode_block
decode_block-append h rs len_h len_rs =
    rw (long, whole, take_field 64 h rs len_h, drop_field 64 h rs len_h) refl
  where
    size : length (h ++ rs) ≡ 64 + length rs
    size = omega (arith, length-append h rs, len_h)

    long : ltb (length (h ++ rs)) 64 ≡ false
    long = ground (arith, size)

    whole : ((length (h ++ rs) - 64) % 4 == 0) ≡ true
    whole = (==_iff ((length (h ++ rs) - 64) % 4) 0).1 (omega (arith, size, len_rs))

decode_block-send_block : (b : ResidueBlock) → IsBlock b → decode_block (send_block b) ≡ received b
unfolding send_block
decode_block-send_block b ok =
    decode_block-append (header_to_bytes b.header) (residue_bytes b.residues)
      (length-header_to_bytes b.header) (omega (arith, length-residue_bytes b.residues))
    ∙ (λ i. received record {
      header = header_from-header_to_bytes b ok i;
      residues = residues_from-residue_bytes b.residues ok.residue_u32 i;
    })

-- A block that a shard sends is received as it was: its fields are in range, it has at most 512
-- residues, and the stream delivers its bytes.
pub recv_block-send_block :
    (read_to_end : ℕ → Option (List ℕ)) (b : ResidueBlock)
    → IsBlock b
    → length b.residues ≤ 512
    → Delivers read_to_end (send_block b)
    → recv_block read_to_end ≡ received b
unfolding recv_block
recv_block-send_block read_to_end b ok fits stream =
    rw (stream.within max_stream short) (decode_block-send_block b ok)
  where
    short : length (send_block b) ≤ max_stream
    short = omega (arith, length-send_block b, fits)

length-residues_from : (n : ℕ) (xs : List ℕ) → length xs ≡ 4 * n → length (residues_from xs) ≡ n
unfolding residues_from
length-residues_from zero [] h = refl
length-residues_from zero (a ∷ xs) h = absurd (omega (arith, h))
length-residues_from (suc n) (a ∷ b ∷ c ∷ d ∷ xs) h =
    ap suc (length-residues_from n xs (omega (arith, h)))
length-residues_from (suc n) (a ∷ b ∷ c ∷ []) h = absurd (omega (arith, h))
length-residues_from (suc n) (a ∷ b ∷ []) h = absurd (omega (arith, h))
length-residues_from (suc n) (a ∷ []) h = absurd (omega (arith, h))
length-residues_from (suc n) [] h = absurd (omega (arith, h))

-- The three outcomes within the limit.
abbrev Shapes : List ℕ → Received → Type 0
Shapes bytes r =
    ((length bytes < 64) × (r ≡ refused (stream_too_short (length bytes))))
    ⊎ (((length bytes % 4 ≢ 0) × (r ≡ refused residue_length))
        ⊎ ((b : ResidueBlock) × (r ≡ received b) × (length bytes ≡ 64 + 4 * length b.residues)))

decode_block-Shapes : (bytes : List ℕ) → Shapes bytes (decode_block bytes)
unfolding decode_block
decode_block-Shapes bytes = short (ltb (length bytes) 64) refl
  where
    body : ResidueBlock
    body = record {
      header = header_from_bytes (take 64 bytes);
      residues = residues_from (drop 64 bytes);
    }

    at_least : ltb (length bytes) 64 ≡ false → 64 ≤ length bytes
    at_least h = ground (arith, h)

    whole :
        (b : Bool)
        → ((length bytes - 64) % 4 == 0) ≡ b
        → ltb (length bytes) 64 ≡ false
        → Shapes bytes (if not b then refused residue_length else received body)
    whole true h long =
        let n = (length bytes - 64) / 4 in
        let exact = (==_iff ((length bytes - 64) % 4) 0).0 h in
        inr (
          inr (
            body,
            refl,
            omega (
              arith,
              at_least long,
              exact,
              length-residues_from n (drop 64 bytes) (omega (arith, exact, length-drop 64 bytes)),
            ),
          ))
    whole false h long = inr (
        inl (
          (λ e. absurd (
              cc (
                sym h ∙ (==_iff ((length bytes - 64) % 4) 0).1 (omega (arith, e, at_least long))))),
          refl,
        ))

    short :
        (b : Bool)
        → ltb (length bytes) 64 ≡ b
        → Shapes bytes (
            if b
            then refused (stream_too_short (length bytes))
            else if not ((length bytes - 64) % 4 == 0)
            then refused residue_length
            else received body)
    short true h = inl (ground (arith, h), refl)
    short false h = whole ((length bytes - 64) % 4 == 0) refl h

-- Every way a stream can be received, by its length: past the limit, shorter than a header, not
-- whole residues, and otherwise a block with a residue for each four bytes after the header.
pub recv_block_shapes :
    (read_to_end : ℕ → Option (List ℕ)) (bytes : List ℕ)
    → Delivers read_to_end bytes
    → ((max_stream < length bytes) × (recv_block read_to_end ≡ refused read_failed))
      ⊎ (((length bytes < 64)
            × (recv_block read_to_end ≡ refused (stream_too_short (length bytes))))
          ⊎ (((length bytes % 4 ≢ 0) × (recv_block read_to_end ≡ refused residue_length))
              ⊎ ((b : ResidueBlock) × (recv_block read_to_end ≡ received b)
                  × (length bytes ≡ 64 + 4 * length b.residues))))
unfolding recv_block
recv_block_shapes read_to_end bytes stream = elim within_limit [
  | inl over ↦ inl (over, rw (stream.past max_stream over) refl)
  | inr ok ↦ inr (rw (stream.within max_stream ok) (decode_block-Shapes bytes))
]
  where
    within_limit : (max_stream < length bytes) ⊎ (length bytes ≤ max_stream)
    within_limit = ground arith
