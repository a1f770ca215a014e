-- ===== src/Similarity/Index.antt =====
-- Inserting into the similarity index, and the bounds of its measure.
use Prim.Native.Nat.{bit_xor}
use kairos_engine.Base.Bits.{count_ones}
use kairos_engine.Base.{
  ℕ, zero, suc, ◌+◌, ◌-◌, ◌/◌, ◌≤◌, ◌≡◌, ◌≢◌, refl, ap, sym, ◌∙◌, Bool, true, false, Option, some,
  none, List, [], ◌∷◌, list_beq, list_beq→eq, list_beq_refl, if◌then◌else◌, arith,
}
use kairos_engine.Similarity.{Sig, hamming, agree, C2Index, insert}

-- The signature that the index holds for an address.
unfoldable pub lookup : C2Index → List ℕ → Option Sig
lookup [] addr = none
lookup ((a, s) ∷ entries) addr =
    let rest = lookup entries addr in if list_beq a addr then some s else rest

lookup-insert_self :
    (entries : C2Index) (addr : List ℕ) (sig : Sig)
    → lookup (insert entries addr sig) addr ≡ some sig
unfolding lookup insert
lookup-insert_self [] addr sig = rw (list_beq_refl addr) refl
lookup-insert_self ((a, s) ∷ entries) addr sig =
    go (list_beq a addr) refl (lookup-insert_self entries addr sig)
  where
    go :
        (b : Bool)
        → list_beq a addr ≡ b
        → lookup (insert entries addr sig) addr ≡ some sig
        → lookup (if b then (a, sig) ∷ entries else (a, s) ∷ insert entries addr sig) addr
          ≡ some sig
    go true e ih = rw e refl
    go false e ih = rw e ih

lookup-insert_other :
    (entries : C2Index) (addr other : List ℕ) (sig : Sig)
    → addr ≢ other
    → lookup (insert entries addr sig) other ≡ lookup entries other
unfolding lookup insert
lookup-insert_other [] addr other sig ne = go (list_beq addr other) refl
  where
    go : (b : Bool) → list_beq addr other ≡ b → (if b then some sig else none) ≡ none
    go true e = absurd (ne (list_beq→eq addr other e))
    go false e = refl
lookup-insert_other ((a, s) ∷ entries) addr other sig ne =
    go (list_beq a addr) refl (lookup-insert_other entries addr other sig ne)
  where
    apart :
        list_beq a addr ≡ true
        → (b : Bool) → list_beq a other ≡ b
        → (if b then some sig else lookup entries other)
          ≡ (if b then some s else lookup entries other)
    apart e true e' = absurd (ne (sym (list_beq→eq a addr e) ∙ list_beq→eq a other e'))
    apart e false e' = refl

    go :
        (b : Bool)
        → list_beq a addr ≡ b
        → lookup (insert entries addr sig) other ≡ lookup entries other
        → lookup (if b then (a, sig) ∷ entries else (a, s) ∷ insert entries addr sig) other
          ≡ (if list_beq a other then some s else lookup entries other)
    go true e ih = apart e (list_beq a other) refl
    go false e ih = ap (λ (o : Option Sig). if list_beq a other then some s else o) ih

-- An insertion gives its address the new signature, whatever the index held, and leaves that of
-- every other address.
pub lookup-insert :
    (entries : C2Index) (addr : List ℕ) (sig : Sig)
    → (lookup (insert entries addr sig) addr ≡ some sig)
      × ((other : List ℕ)
          → addr ≢ other
          → lookup (insert entries addr sig) other ≡ lookup entries other)
lookup-insert entries addr sig = (
  lookup-insert_self entries addr sig,
  λ (other : List ℕ) ne. lookup-insert_other entries addr other sig ne,
)

count_ones-le : (bits n : ℕ) → count_ones bits n ≤ bits
unfolding count_ones
count_ones-le zero n = omega arith
count_ones-le (suc bits) n = omega (arith, count_ones-le bits (n / 2))

four_words :
    (w x y z : ℕ)
    → w ≤ 64
    → x ≤ 64
    → y ≤ 64
    → z ≤ 64
    → (w + x + y + z ≤ 256) × (256 - (w + x + y + z) + (w + x + y + z) ≡ 256)
four_words w x y z h i j k = (omega arith, omega arith)

-- The distance of two signatures is at most 256, so that the agreement, a `u32` subtraction, does
-- not underflow: distance and agreement add up to 256.
pub agree-hamming : (a b : Sig) → (hamming a b ≤ 256) × (agree a b + hamming a b ≡ 256)
unfolding hamming agree
agree-hamming (a, b, c, d) (a', b', c', d') =
    four_words (count_ones 64 (bit_xor a a')) (count_ones 64 (bit_xor b b'))
      (count_ones 64 (bit_xor c c')) (count_ones 64 (bit_xor d d'))
      (count_ones-le 64 (bit_xor a a')) (count_ones-le 64 (bit_xor b b'))
      (count_ones-le 64 (bit_xor c c')) (count_ones-le 64 (bit_xor d d'))
