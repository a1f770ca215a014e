-- ===== src/Mining/Payload.antt =====
-- The text of a receipt.
use kairos_engine.Base.{
  ℕ, ◌*◌, ◌/◌, ◌%◌, ◌≡◌, refl, ap, ◌∙◌, List, [], ◌∷◌, ◌++◌, length, take, drop, length-append,
  arith,
}
use kairos_engine.Base.Bytes.{to_le_bytes, length-to_le_bytes, take_field, drop_field}
use kairos_engine.Mining.{pack_receipt, magic, hex_encode, hex_digit}

hex_encode-append : (xs ys : List ℕ) → hex_encode (xs ++ ys) ≡ hex_encode xs ++ hex_encode ys
unfolding hex_encode
hex_encode-append [] ys = refl
hex_encode-append (x ∷ xs) ys =
    ap (λ (l : List ℕ). hex_digit (x / 16) ∷ hex_digit (x % 16) ∷ l) (hex_encode-append xs ys)

length-hex_encode : (xs : List ℕ) → length (hex_encode xs) ≡ 2 * length xs
unfolding hex_encode
length-hex_encode [] = refl
length-hex_encode (x ∷ xs) = omega (arith, length-hex_encode xs)

-- With a 64-byte tree, a 32-byte hash and a 32-byte key, a receipt has 152 bytes, and the slice
-- `payload_hex[144..208]` of its text is the text of its `seq_hash`.
pub payload_shows_seq_hash :
    (sig seq_hash pubkey : List ℕ) (round now : ℕ)
    → length sig ≡ 64
    → length seq_hash ≡ 32
    → length pubkey ≡ 32
    → (length (pack_receipt sig seq_hash pubkey round now) ≡ 152)
      × (take 64 (drop 144 (hex_encode (pack_receipt sig seq_hash pubkey round now)))
          ≡ hex_encode seq_hash)
unfolding pack_receipt
payload_shows_seq_hash sig seq_hash pubkey round now hs hq hp = (size, shown)
  where
    numbers : List ℕ
    numbers = to_le_bytes 8 round ++ to_le_bytes 8 now

    post : List ℕ
    post = pubkey ++ numbers

    pre : List ℕ
    pre = magic ++ sig

    size : length (magic ++ (sig ++ (seq_hash ++ post))) ≡ 152
    size = omega (
      arith,
      length-append sig (seq_hash ++ post),
      length-append seq_hash post,
      length-append pubkey numbers,
      length-append (to_le_bytes 8 round) (to_le_bytes 8 now),
      length-to_le_bytes 8 round,
      length-to_le_bytes 8 now,
      hs,
      hq,
      hp,
    )

    split :
        hex_encode (magic ++ (sig ++ (seq_hash ++ post)))
        ≡ hex_encode pre ++ (hex_encode seq_hash ++ hex_encode post)
    split =
        hex_encode-append pre (seq_hash ++ post)
        ∙ ap (λ (l : List ℕ). hex_encode pre ++ l) (hex_encode-append seq_hash post)

    length_pre : length (hex_encode pre) ≡ 144
    length_pre = length-hex_encode pre ∙ omega (arith, hs)

    length_hash : length (hex_encode seq_hash) ≡ 64
    length_hash = length-hex_encode seq_hash ∙ omega (arith, hq)

    shown :
        take 64 (drop 144 (hex_encode (magic ++ (sig ++ (seq_hash ++ post))))) ≡ hex_encode seq_hash
    shown =
        ap (λ (l : List ℕ). take 64 (drop 144 l)) split
        ∙ ap (take 64)
            (drop_field 144 (hex_encode pre) (hex_encode seq_hash ++ hex_encode post) length_pre)
        ∙ take_field 64 (hex_encode seq_hash) (hex_encode post) length_hash
