-- ===== src/Base/Bytes.antt =====
-- Little-endian numbers as bytes: `to_le_bytes`, `from_le_bytes`, and fixed-width fields.
use Prim.Native.Nat.{ℕ, zero, suc, ◌+◌, ◌*◌, ◌/◌, ◌%◌, ◌^◌, ◌<◌}
use mathlib.Core.Path.{◌≡◌, refl, ap}
use mathlib.Core.List.{List, [], ◌∷◌, ◌++◌}
use native.Mathlib.Nat.{pow-suc}
use native.Mathlib.Omega.{arith}
use kairos_engine.Base.Lists.{length, take, drop, All, take-append, drop-append}

-- The `w` low bytes of `n`, the lowest first.
unfoldable pub to_le_bytes : ℕ → ℕ → List ℕ
to_le_bytes zero n = []
to_le_bytes (suc w) n = n % 256 ∷ to_le_bytes w (n / 256)

unfoldable pub from_le_bytes : List ℕ → ℕ
from_le_bytes [] = 0
from_le_bytes (b ∷ bs) = b + 256 * from_le_bytes bs

abbrev pub IsByte : ℕ → Type 0
IsByte b = b < 256

pub length-to_le_bytes : (w n : ℕ) → length (to_le_bytes w n) ≡ w
unfolding to_le_bytes
length-to_le_bytes zero n = refl
length-to_le_bytes (suc w) n = ap suc (length-to_le_bytes w (n / 256))

pub to_le_bytes-IsByte : (w n : ℕ) → All IsByte (to_le_bytes w n)
unfolding to_le_bytes
to_le_bytes-IsByte zero n = tt
to_le_bytes-IsByte (suc w) n = (omega arith, to_le_bytes-IsByte w (n / 256))

pub from-to_le_bytes : (w n : ℕ) → n < 256 ^ w → from_le_bytes (to_le_bytes w n) ≡ n
unfolding to_le_bytes from_le_bytes
from-to_le_bytes zero n h = omega arith
from-to_le_bytes (suc w) n h =
    omega (arith, from-to_le_bytes w (n / 256) (omega (arith, pow-suc 256 w)))

pub to-from_le_bytes :
    (bs : List ℕ) → All IsByte bs → to_le_bytes (length bs) (from_le_bytes bs) ≡ bs
unfolding to_le_bytes from_le_bytes
to-from_le_bytes [] h = refl
to-from_le_bytes (b ∷ bs) (hb, hs) = ground (
  arith,
  to-from_le_bytes bs hs,
  div_256 b (from_le_bytes bs) hb,
  mod_256 b (from_le_bytes bs) hb,
)
  where
    div_256 : (b n : ℕ) → b < 256 → (b + 256 * n) / 256 ≡ n
    div_256 b n h = omega arith

    mod_256 : (b n : ℕ) → b < 256 → (b + 256 * n) % 256 ≡ b
    mod_256 b n h = omega arith

pub from_le_bytes-lt : (bs : List ℕ) → All IsByte bs → from_le_bytes bs < 256 ^ length bs
unfolding from_le_bytes
from_le_bytes-lt [] h = omega arith
from_le_bytes-lt (b ∷ bs) (hb, hs) = omega (arith, from_le_bytes-lt bs hs, pow-suc 256 (length bs))

-- A field of known width at the front.
module _ {ℓ} {A : Type ℓ} where
  pub take_field : (n : ℕ) (xs ys : List A) → length xs ≡ n → take n (xs ++ ys) ≡ xs
  take_field n xs ys h = rw (← h) (take-append xs ys)

  pub drop_field : (n : ℕ) (xs ys : List A) → length xs ≡ n → drop n (xs ++ ys) ≡ ys
  drop_field n xs ys h = rw (← h) (drop-append xs ys)
