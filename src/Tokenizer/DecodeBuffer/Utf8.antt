-- ===== src/Tokenizer/DecodeBuffer/Utf8.antt =====
-- The UTF-8 scan of the buffer stays within it.
use kairos_engine.Base.{
  ℕ, zero, suc, ◌+◌, ◌≤◌, ◌≡◌, refl, Bool, true, false, List, [], ◌∷◌, length, drop, length-drop,
  ltb, ◌==◌, if◌then◌else◌, arith,
}
use kairos_engine.Tokenizer.DecodeBuffer.{
  within, tail_bytes, sequence, char_width, valid_loop, valid_utf8_up_to,
}

pub le_if : (b : Bool) (x y m : ℕ) → x ≤ m → y ≤ m → (if b then x else y) ≤ m
le_if true x y m hx hy = hx
le_if false x y m hx hy = hy

length-tail_bytes : (n : ℕ) (bs : List ℕ) → tail_bytes n bs ≡ true → n ≤ length bs
length-tail_bytes zero bs h = omega arith
length-tail_bytes (suc n) [] h = absurd (cc h)
length-tail_bytes (suc n) (b ∷ bs) h = go (within 0x80 0xBF b) h (length-tail_bytes n bs)
  where
    go :
        (c : Bool)
        → (if c then tail_bytes n bs else false) ≡ true
        → (tail_bytes n bs ≡ true → n ≤ length bs)
        → suc n ≤ length (b ∷ bs)
    go true h ih = omega (arith, ih h)
    go false h ih = absurd (cc h)

length-sequence : (low high more : ℕ) (bs : List ℕ) → sequence low high more bs ≤ suc (length bs)
length-sequence low high more [] = omega arith
length-sequence low high more (b ∷ bs) =
    le_if (within low high b) (if tail_bytes more bs then more + 2 else 0) 0 (suc (suc (length bs)))
      (go (tail_bytes more bs) (length-tail_bytes more bs)) (omega arith)
  where
    go :
        (c : Bool)
        → (c ≡ true → more ≤ length bs)
        → (if c then more + 2 else 0) ≤ suc (suc (length bs))
    go true h = omega (arith, h refl)
    go false h = omega arith

pub length-char_width : (bs : List ℕ) → char_width bs ≤ length bs
unfolding char_width
length-char_width [] = omega arith
length-char_width (b ∷ bs) = le_if (ltb b 0x80) 1 w0 m (omega arith) h0
  where
    m : ℕ
    m = length (b ∷ bs)

    w6 : ℕ
    w6 = if b == 0xF4 then sequence 0x80 0x8F 2 bs else 0

    h6 : w6 ≤ m
    h6 =
        le_if (b == 0xF4) (sequence 0x80 0x8F 2 bs) 0 m (length-sequence 0x80 0x8F 2 bs)
          (omega arith)

    w5 : ℕ
    w5 = if within 0xF1 0xF3 b then sequence 0x80 0xBF 2 bs else w6

    h5 : w5 ≤ m
    h5 =
        le_if (within 0xF1 0xF3 b) (sequence 0x80 0xBF 2 bs) w6 m (length-sequence 0x80 0xBF 2 bs)
          h6

    w4 : ℕ
    w4 = if b == 0xF0 then sequence 0x90 0xBF 2 bs else w5

    h4 : w4 ≤ m
    h4 = le_if (b == 0xF0) (sequence 0x90 0xBF 2 bs) w5 m (length-sequence 0x90 0xBF 2 bs) h5

    w3 : ℕ
    w3 = if within 0xE1 0xEF b then sequence 0x80 0xBF 1 bs else w4

    h3 : w3 ≤ m
    h3 =
        le_if (within 0xE1 0xEF b) (sequence 0x80 0xBF 1 bs) w4 m (length-sequence 0x80 0xBF 1 bs)
          h4

    w2 : ℕ
    w2 = if b == 0xED then sequence 0x80 0x9F 1 bs else w3

    h2 : w2 ≤ m
    h2 = le_if (b == 0xED) (sequence 0x80 0x9F 1 bs) w3 m (length-sequence 0x80 0x9F 1 bs) h3

    w1 : ℕ
    w1 = if b == 0xE0 then sequence 0xA0 0xBF 1 bs else w2

    h1 : w1 ≤ m
    h1 = le_if (b == 0xE0) (sequence 0xA0 0xBF 1 bs) w2 m (length-sequence 0xA0 0xBF 1 bs) h2

    w0 : ℕ
    w0 = if within 0xC2 0xDF b then sequence 0x80 0xBF 0 bs else w1

    h0 : w0 ≤ m
    h0 =
        le_if (within 0xC2 0xDF b) (sequence 0x80 0xBF 0 bs) w1 m (length-sequence 0x80 0xBF 0 bs)
          h1

length-valid_loop : (fuel : ℕ) (bs : List ℕ) → valid_loop fuel bs ≤ length bs
unfolding valid_loop
length-valid_loop zero bs = omega arith
length-valid_loop (suc fuel) bs =
    le_if (char_width bs == 0) 0 (char_width bs + valid_loop fuel (drop (char_width bs) bs))
      (length bs) (omega arith)
      (omega (
        arith,
        length-char_width bs,
        length-valid_loop fuel (drop (char_width bs) bs),
        length-drop (char_width bs) bs,
      ))

pub length-valid_utf8_up_to : (bs : List ℕ) → valid_utf8_up_to bs ≤ length bs
unfolding valid_utf8_up_to
length-valid_utf8_up_to bs = length-valid_loop (length bs) bs
