-- ===== src/Base/Lists.antt =====
-- Lists measured and indexed by native numbers, under the library's names.
use Prim.Native.Nat.{ℕ, zero, suc, ◌+◌, ◌-◌, ◌≤◌, ◌<◌, min, compare, Ordering}
use mathlib.Core.Path.{◌≡◌, refl, ap, sym, ◌∙◌}
use mathlib.Core.Logic.{◌≢◌}
use mathlib.Core.Bool.{Bool, true, false}
use mathlib.Core.List.{List, [], ◌∷◌, ◌++◌}
use mathlib.Core.Option.{Option, none, some, some-injective}
use native.Mathlib.Omega.{arith}

module _ {ℓ} {A : Type ℓ} where
  abbrev pub length : List A → ℕ
  length [] = 0
  length (x ∷ xs) = suc (length xs)

  abbrev pub get_elem? : List A → ℕ → Option A
  get_elem? [] i = none
  get_elem? (x ∷ xs) zero = some x
  get_elem? (x ∷ xs) (suc i) = get_elem? xs i

  -- A write out of bounds changes nothing.
  abbrev pub set : List A → ℕ → A → List A
  set [] i v = []
  set (x ∷ xs) zero v = v ∷ xs
  set (x ∷ xs) (suc i) v = x ∷ set xs i v

  abbrev pub take : ℕ → List A → List A
  take zero xs = []
  take (suc n) [] = []
  take (suc n) (x ∷ xs) = x ∷ take n xs

  abbrev pub drop : ℕ → List A → List A
  drop zero xs = xs
  drop (suc n) [] = []
  drop (suc n) (x ∷ xs) = drop n xs

  abbrev pub replicate : ℕ → A → List A
  replicate zero a = []
  replicate (suc n) a = a ∷ replicate n a

  -- A predicate on every element, as a tuple.
  abbrev pub All {κ} : (A → Type κ) → List A → Type κ
  All P [] = Unit
  All P (x ∷ xs) = P x × All P xs

module _ {ℓ} {A : Type ℓ} where
  pub length-append : (xs ys : List A) → length (xs ++ ys) ≡ length xs + length ys
  length-append [] ys = omega arith
  length-append (x ∷ xs) ys = omega (arith, length-append xs ys)

  pub length-take : (n : ℕ) (xs : List A) → length (take n xs) ≡ min n (length xs)
  length-take zero xs = omega arith
  length-take (suc n) [] = omega arith
  length-take (suc n) (x ∷ xs) = omega (arith, length-take n xs)

  pub length-drop : (n : ℕ) (xs : List A) → length (drop n xs) ≡ length xs - n
  length-drop zero xs = omega arith
  length-drop (suc n) [] = omega arith
  length-drop (suc n) (x ∷ xs) = omega (arith, length-drop n xs)

  pub length-set : (xs : List A) (i : ℕ) (v : A) → length (set xs i v) ≡ length xs
  length-set [] i v = refl
  length-set (x ∷ xs) zero v = refl
  length-set (x ∷ xs) (suc i) v = ap suc (length-set xs i v)

  -- What follows a first part of known length.
  pub take-append : (xs ys : List A) → take (length xs) (xs ++ ys) ≡ xs
  take-append [] ys = refl
  take-append (x ∷ xs) ys = ap (◌∷◌ x) (take-append xs ys)

  pub drop-append : (xs ys : List A) → drop (length xs) (xs ++ ys) ≡ ys
  drop-append [] ys = refl
  drop-append (x ∷ xs) ys = drop-append xs ys

  pub take-append-drop : (n : ℕ) (xs : List A) → take n xs ++ drop n xs ≡ xs
  take-append-drop zero xs = refl
  take-append-drop (suc n) [] = refl
  take-append-drop (suc n) (x ∷ xs) = ap (◌∷◌ x) (take-append-drop n xs)

  pub drop-append_le :
      (n : ℕ) (xs ys : List A) → n ≤ length xs → drop n (xs ++ ys) ≡ drop n xs ++ ys
  drop-append_le zero xs ys h = refl
  drop-append_le (suc n) [] ys h = absurd (omega (arith, h))
  drop-append_le (suc n) (x ∷ xs) ys h = drop-append_le n xs ys (omega (arith, h))

  pub take-append_le : (n : ℕ) (xs ys : List A) → n ≤ length xs → take n (xs ++ ys) ≡ take n xs
  take-append_le zero xs ys h = refl
  take-append_le (suc n) [] ys h = absurd (omega (arith, h))
  take-append_le (suc n) (x ∷ xs) ys h = ap (◌∷◌ x) (take-append_le n xs ys (omega (arith, h)))

  pub take_all : (n : ℕ) (xs : List A) → length xs ≤ n → take n xs ≡ xs
  take_all zero [] h = refl
  take_all zero (x ∷ xs) h = absurd (omega (arith, h))
  take_all (suc n) [] h = refl
  take_all (suc n) (x ∷ xs) h = ap (◌∷◌ x) (take_all n xs (omega (arith, h)))

  -- A first part that ends in `t`: what stands before it, and `t` at its index.
  pub take_last :
      (k : ℕ) (xs before : List A) (t : A)
      → length before ≡ k
      → take (suc k) xs ≡ before ++ (t ∷ [])
      → (take k xs ≡ before) × (get_elem? xs k ≡ some t)
  take_last k [] [] t e h = absurd (cc h)
  take_last k [] (y ∷ before) t e h = absurd (cc h)
  take_last zero (x ∷ xs) [] t e h = (refl, ap some (cc h))
  take_last (suc k) (x ∷ xs) [] t e h = absurd (omega (arith, e))
  take_last zero (x ∷ xs) (y ∷ before) t e h = absurd (omega (arith, e))
  take_last (suc k) (x ∷ xs) (y ∷ before) t e h =
      let ih = take_last k xs before t (omega (arith, e)) (cc h) in
      let same : x ≡ y = cc h in (rw (same, ih.0) refl, ih.1)

  pub drop-append_add : (xs ys : List A) (d : ℕ) → drop (length xs + d) (xs ++ ys) ≡ drop d ys
  drop-append_add [] ys d = let none_before : 0 + d ≡ d = omega arith in rw (none_before) refl
  drop-append_add (x ∷ xs) ys d =
      let one_more : suc (length xs) + d ≡ suc (length xs + d) = omega arith in
      rw (one_more) (drop-append_add xs ys d)

  pub take-append_add : (xs ys : List A) (d : ℕ) → take (length xs + d) (xs ++ ys) ≡ xs ++ take d ys
  take-append_add [] ys d = let none_before : 0 + d ≡ d = omega arith in rw (none_before) refl
  take-append_add (x ∷ xs) ys d =
      let one_more : suc (length xs) + d ≡ suc (length xs + d) = omega arith in
      rw (one_more) (ap (◌∷◌ x) (take-append_add xs ys d))

  pub take-take_le : (i m : ℕ) (xs : List A) → i ≤ m → take i (take m xs) ≡ take i xs
  take-take_le zero m xs h = refl
  take-take_le (suc i) zero xs h = absurd (omega (arith, h))
  take-take_le (suc i) (suc m) [] h = refl
  take-take_le (suc i) (suc m) (x ∷ xs) h = ap (◌∷◌ x) (take-take_le i m xs (omega (arith, h)))

  -- A window of a list within its first part.
  pub window-append :
      (i n : ℕ) (xs ys : List A)
      → i + n ≤ length xs
      → take n (drop i (xs ++ ys)) ≡ take n (drop i xs)
  window-append i n xs ys h =
      ap (take n) (drop-append_le i xs ys (omega (arith, h)))
      ∙ take-append_le n (drop i xs) ys (omega (arith, h, length-drop i xs))

  -- A list cut at an index that it has.
  pub cut_at :
      (xs : List A) (i : ℕ) {a : A}
      → get_elem? xs i ≡ some a
      → xs ≡ take i xs ++ (a ∷ drop (suc i) xs)
  cut_at [] i h = absurd (cc h)
  cut_at (x ∷ xs) zero h = ap (λ (y : A). y ∷ xs) (some-injective x _ h)
  cut_at (x ∷ xs) (suc i) h = ap (◌∷◌ x) (cut_at xs i h)

  pub get_elem?-append :
      (xs : List A) (a : A) (ys : List A) → get_elem? (xs ++ (a ∷ ys)) (length xs) ≡ some a
  get_elem?-append [] a ys = refl
  get_elem?-append (x ∷ xs) a ys = get_elem?-append xs a ys

  pub get_elem?-set_other :
      (xs : List A) (i j : ℕ) (v : A) → i ≢ j → get_elem? (set xs i v) j ≡ get_elem? xs j
  get_elem?-set_other [] i j v h = refl
  get_elem?-set_other (x ∷ xs) zero zero v h = absurd (h refl)
  get_elem?-set_other (x ∷ xs) zero (suc j) v h = refl
  get_elem?-set_other (x ∷ xs) (suc i) zero v h = refl
  get_elem?-set_other (x ∷ xs) (suc i) (suc j) v h =
      get_elem?-set_other xs i j v (λ e. h (ap suc e))

  pub get_elem?-set_self :
      (xs : List A) (i : ℕ) (v w : A) → get_elem? (set xs i v) i ≡ some w → w ≡ v
  get_elem?-set_self [] i v w h = absurd (cc h)
  get_elem?-set_self (x ∷ xs) zero v w h = sym (some-injective v w h)
  get_elem?-set_self (x ∷ xs) (suc i) v w h = get_elem?-set_self xs i v w h

  pub get_elem?-set_at :
      (xs : List A) (i : ℕ) (v w : A) → get_elem? xs i ≡ some w → get_elem? (set xs i v) i ≡ some v
  get_elem?-set_at [] i v w h = absurd (cc h)
  get_elem?-set_at (x ∷ xs) zero v w h = refl
  get_elem?-set_at (x ∷ xs) (suc i) v w h = get_elem?-set_at xs i v w h

  pub get_elem?-lt : (xs : List A) (i : ℕ) {a : A} → get_elem? xs i ≡ some a → i < length xs
  get_elem?-lt [] i h = absurd (cc h)
  get_elem?-lt (x ∷ xs) zero h = omega arith
  get_elem?-lt (x ∷ xs) (suc i) h = omega (arith, get_elem?-lt xs i h)

  pub All-append {κ} : (P : A → Type κ) (xs ys : List A) → All P xs → All P ys → All P (xs ++ ys)
  All-append P [] ys hx hy = hy
  All-append P (x ∷ xs) ys hx hy = (hx.0, All-append P xs ys hx.1 hy)

-- `==` on slices of integers.
unfoldable pub list_beq : List ℕ → List ℕ → Bool
list_beq [] [] = true
list_beq [] (y ∷ ys) = false
list_beq (x ∷ xs) [] = false
list_beq (x ∷ xs) (y ∷ ys) = elim (compare x y) [ Ordering.eq ↦ list_beq xs ys | _ ↦ false ]

pub list_beq→eq : (xs ys : List ℕ) → list_beq xs ys ≡ true → xs ≡ ys
unfolding list_beq
list_beq→eq [] [] h = refl
list_beq→eq [] (y ∷ ys) h = ground arith
list_beq→eq (x ∷ xs) [] h = ground arith
list_beq→eq (x ∷ xs) (y ∷ ys) h = ground (arith, list_beq→eq xs ys)

pub list_beq_refl : (xs : List ℕ) → list_beq xs xs ≡ true
unfolding list_beq
list_beq_refl [] = refl
list_beq_refl (x ∷ xs) = ground (arith, list_beq_refl xs)
