-- ===== src/Tokenizer/DecodeBuffer/Hold.antt =====
-- The bytes that are held back are enough for every stop string.
use mathlib.Core.List.{append_assoc}
use kairos_engine.Base.{
  ℕ, ◌+◌, ◌-◌, ◌≤◌, ◌<◌, ◌≡◌, refl, ap, sym, ◌∙◌, ◌⊎◌, inl, inr, Bool, true, false, List, ◌++◌,
  length, take, drop, leb, length-take, length-append, drop-append_add, window-append, Bool-cases,
  if◌then◌else◌, arith,
}
use kairos_engine.Tokenizer.DecodeBuffer.{valid_utf8_up_to, emit_end}
use kairos_engine.Tokenizer.DecodeBuffer.Stop.{Free}
use kairos_engine.Tokenizer.DecodeBuffer.Utf8.{length-valid_utf8_up_to}

-- At most the bytes above the hold leave the buffer.
pub emit_end-hold :
    (hold : ℕ) (buf : List ℕ) → (emit_end hold buf ≡ 0) ⊎ (emit_end hold buf + hold ≤ length buf)
unfolding emit_end
emit_end-hold hold buf = go (leb (length buf) hold) refl
  where
    go :
        (b : Bool)
        → leb (length buf) hold ≡ b
        → ((if b then 0 else valid_utf8_up_to (take (length buf - hold) buf)) ≡ 0)
          ⊎ ((if b then 0 else valid_utf8_up_to (take (length buf - hold) buf)) + hold ≤ length buf)
    go true e = inl refl
    go false e =
        let more : hold < length buf = ground (arith, e) in
        inr (
          omega (
            arith,
            more,
            length-valid_utf8_up_to (take (length buf - hold) buf),
            length-take (length buf - hold) buf,
          ))

-- A stop string that ends in what a push brings stands in the buffer.
pub Free-append :
    (hold : ℕ) (stop out buf bytes : List ℕ)
    → length stop ≤ hold + 1
    → (length out ≡ 0) ⊎ (hold ≤ length buf)
    → Free stop (out ++ buf)
    → Free stop (buf ++ bytes)
    → Free stop (out ++ (buf ++ bytes))
Free-append hold stop out buf bytes short back before here i pos stands =
    go (Bool-cases (leb (length out) i))
  where
    outside : length out ≤ i → ⊥
    outside le =
        let at : i ≡ length out + (i - length out) = omega (arith, le) in
        here (i - length out) pos (
          ap (take (length stop)) (
            sym (drop-append_add out (buf ++ bytes) (i - length out))
            ∙ ap (λ (m : ℕ). drop m (out ++ (buf ++ bytes))) (sym at))
          ∙ stands)

    inside : i < length out → (length out ≡ 0) ⊎ (hold ≤ length buf) → ⊥
    inside lt (inl e) = absurd (omega (arith, lt, e))
    inside lt (inr h) = before i pos (
        sym (
          window-append i (length stop) (out ++ buf) bytes
            (omega (arith, lt, h, short, length-append out buf)))
        ∙ ap (λ (t : List ℕ). take (length stop) (drop i t)) (append_assoc out buf bytes)
        ∙ stands)

    go : (leb (length out) i ≡ true) ⊎ (leb (length out) i ≡ false) → ⊥
    go (inl e) = outside (ground (arith, e))
    go (inr e) = inside (ground (arith, e)) back
