-- ===== src/Base/Bits.antt =====
-- Binary digits: what `bit_or` with a power of two does to them, and how many of them are one.
use Prim.Native.Nat.{
  ℕ, zero, suc, ◌+◌, ◌*◌, ◌/◌, ◌%◌, ◌^◌, ◌<◌, ◌≤◌, max, digits, bit_or, bit_or-bitwise,
}
use mathlib.Core.Path.{◌≡◌, refl, ap, ◌∙◌}
use mathlib.Core.Logic.{◌≢◌}
use native.Mathlib.Nat.{pow-suc}
use native.Mathlib.Omega.{arith}

abbrev or_digits : ℕ → ℕ → ℕ → ℕ
or_digits fuel a b = digits (λ y. y) max fuel a b

-- Any fuel that the first number fits in gives the same.
or_digits-fuel : (k l a b : ℕ) → a ≤ k → a ≤ l → or_digits k a b ≡ or_digits l a b
or_digits-fuel k l zero b hk hl = empty k l
  where
    empty : (k l : ℕ) → or_digits k zero b ≡ or_digits l zero b
    empty zero zero = refl
    empty zero (suc l) = refl
    empty (suc k) zero = refl
    empty (suc k) (suc l) = refl
or_digits-fuel zero l (suc a) b hk hl = absurd (omega (arith, hk))
or_digits-fuel (suc k) zero (suc a) b hk hl = absurd (omega (arith, hl))
or_digits-fuel (suc k) (suc l) (suc a) b hk hl =
    ap (λ (r : ℕ). r * 2 + max (suc a % 2) (b % 2))
      (or_digits-fuel k l (suc a / 2) (b / 2) (omega (arith, hk)) (omega (arith, hl)))

pub bit_or_halves : (a b : ℕ) → bit_or a b ≡ bit_or (a / 2) (b / 2) * 2 + max (a % 2) (b % 2)
bit_or_halves zero b = simp bit_or-bitwise (omega arith)
bit_or_halves (suc a) b = simp bit_or-bitwise (
    ap (λ (r : ℕ). r * 2 + max (suc a % 2) (b % 2))
      (or_digits-fuel a (suc a / 2) (suc a / 2) (b / 2) (omega arith) (omega arith)))

-- The digit number `i`, from the lowest.
unfoldable pub test_bit : ℕ → ℕ → ℕ
test_bit zero n = n % 2
test_bit (suc i) n = test_bit i (n / 2)

-- How many of the lowest `w` digits are one.
unfoldable pub count_ones : ℕ → ℕ → ℕ
count_ones zero n = 0
count_ones (suc w) n = n % 2 + count_ones w (n / 2)

half_or : (a b : ℕ) → bit_or a b / 2 ≡ bit_or (a / 2) (b / 2)
half_or a b = omega (arith, bit_or_halves a b)

low_or : (a b : ℕ) → bit_or a b % 2 ≡ max (a % 2) (b % 2)
low_or a b = omega (arith, bit_or_halves a b)

half_power : (h : ℕ) → 2 ^ suc h / 2 ≡ 2 ^ h
half_power h = omega (arith, pow-suc 2 h)

low_power : (h : ℕ) → 2 ^ suc h % 2 ≡ 0
low_power h = omega (arith, pow-suc 2 h)

pub test_bit-zero : (i : ℕ) → test_bit i 0 ≡ 0
unfolding test_bit
test_bit-zero zero = refl
test_bit-zero (suc i) = test_bit-zero i

test_bit-or_zero : (i a : ℕ) → test_bit i (bit_or a 0) ≡ test_bit i a
unfolding test_bit
test_bit-or_zero zero a = omega (arith, low_or a 0)
test_bit-or_zero (suc i) a = ap (test_bit i) (half_or a 0) ∙ test_bit-or_zero i (a / 2)

-- Another digit than the one that is set.
pub test_bit-or_power : (i h a : ℕ) → i ≢ h → test_bit i (bit_or a (2 ^ h)) ≡ test_bit i a
unfolding test_bit
test_bit-or_power zero zero a d = absurd (d refl)
test_bit-or_power zero (suc h) a d = omega (arith, low_or a (2 ^ suc h), low_power h)
test_bit-or_power (suc i) zero a d = ap (test_bit i) (half_or a 1) ∙ test_bit-or_zero i (a / 2)
test_bit-or_power (suc i) (suc h) a d =
    ap (test_bit i) (half_or a (2 ^ suc h) ∙ ap (bit_or (a / 2)) (half_power h))
    ∙ test_bit-or_power i h (a / 2) (λ e. d (ap suc e))

pub test_bit-or_power_self : (h a : ℕ) → test_bit h (bit_or a (2 ^ h)) ≡ 1
unfolding test_bit
test_bit-or_power_self zero a = omega (arith, low_or a 1)
test_bit-or_power_self (suc h) a =
    ap (test_bit h) (half_or a (2 ^ suc h) ∙ ap (bit_or (a / 2)) (half_power h))
    ∙ test_bit-or_power_self h (a / 2)

count_ones-or_zero : (w a : ℕ) → count_ones w (bit_or a 0) ≡ count_ones w a
unfolding count_ones
count_ones-or_zero zero a = refl
count_ones-or_zero (suc w) a =
    omega (arith, low_or a 0, ap (count_ones w) (half_or a 0), count_ones-or_zero w (a / 2))

-- A digit that is zero and is set counts for one.
pub count_ones-or_power :
    (w h a : ℕ) → h < w → test_bit h a ≡ 0 → count_ones w (bit_or a (2 ^ h)) ≡ suc (count_ones w a)
unfolding test_bit count_ones
count_ones-or_power zero h a lt off = absurd (omega (arith, lt))
count_ones-or_power (suc w) zero a lt off =
    omega (arith, off, low_or a 1, ap (count_ones w) (half_or a 1), count_ones-or_zero w (a / 2))
count_ones-or_power (suc w) (suc h) a lt off = omega (
  arith,
  low_or a (2 ^ suc h),
  low_power h,
  ap (count_ones w) (half_or a (2 ^ suc h) ∙ ap (bit_or (a / 2)) (half_power h)),
  count_ones-or_power w h (a / 2) (omega (arith, lt)) off,
)

pub count_ones-zero : (w : ℕ) → count_ones w 0 ≡ 0
unfolding count_ones
count_ones-zero zero = refl
count_ones-zero (suc w) = omega (arith, count_ones-zero w)
