-- ===== src/Tokenizer/Gpt2.antt =====
-- The inverse of GPT-2's byte-to-character table.
use kairos_engine.Base.{
  ℕ, ◌+◌, ◌-◌, ◌<◌, ◌≡◌, refl, ap, sym, ◌∙◌, ◌↔◌, Option, some, List, [], ◌∷◌, map, All, ltb, ◌==◌,
  if◌then◌else◌, arith,
}
use kairos_engine.Tokenizer.{gpt2_char_to_byte, gpt2_decode, keep}

-- The published table: a printable byte is its own character, and the others are numbered from 256
-- in their order.
unfoldable pub byte_to_char : ℕ → ℕ
byte_to_char b =
    if ltb b 0x21
    then b + 0x100
    else if ltb b 0x7F
    then b
    else if ltb b 0xA1
    then b - 0x7F + 0x121
    else if b == 0xAD
    then 0x143
    else b

char-byte : (b : ℕ) → b < 256 → gpt2_char_to_byte (byte_to_char b) ≡ some b
unfolding byte_to_char
char-byte b lt = ground (arith, lt)

byte-char : (c b : ℕ) → gpt2_char_to_byte c ≡ some b → byte_to_char b ≡ c
unfolding byte_to_char
byte-char c b h = ground (arith, h)

byte_lt : (c b : ℕ) → gpt2_char_to_byte c ≡ some b → b < 256
byte_lt c b h = ground (arith, h)

-- A character stands for a byte exactly if it is that byte's character in the published table.
pub gpt2_char_to_byte_iff :
    (c b : ℕ) → (gpt2_char_to_byte c ≡ some b) ↔ ((b < 256) × (c ≡ byte_to_char b))
gpt2_char_to_byte_iff c b =
    (λ h. (byte_lt c b h, sym (byte-char c b h)), λ h. ap gpt2_char_to_byte h.1 ∙ char-byte b h.0)

-- Bytes written in the published table are read back, all and in order.
pub gpt2_decode-bytes :
    (bs : List ℕ) → All (λ (b : ℕ). b < 256) bs → gpt2_decode (map byte_to_char bs) ≡ bs
unfolding gpt2_decode
gpt2_decode-bytes [] h = refl
gpt2_decode-bytes (b ∷ bs) h =
    ap (λ (o : Option ℕ). keep o (gpt2_decode (map byte_to_char bs))) (char-byte b h.0)
    ∙ ap (λ (r : List ℕ). b ∷ r) (gpt2_decode-bytes bs h.1)
