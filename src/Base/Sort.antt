-- ===== src/Base/Sort.antt =====
-- `slice::sort_by`: the stable sort, as insertion from the right. The result of a stable sort is
-- determined by its input and its order, so this is the library's sort, whatever its algorithm.
use mathlib.Core.Path.{◌≡◌, refl, ap, ◌∙◌, subst}
use mathlib.Core.Logic.{◌⊎◌, inl, inr}
use mathlib.Core.Bool.{Bool, true, false}
use mathlib.Core.List.{List, [], ◌∷◌, Permᴰ}
use mathlib.Core.List.Permᴰ
use Prim.Native.Nat.{suc}
use native.Mathlib.Omega.{arith}
use kairos_engine.Base.Tests.{Bool-cases, if◌then◌else◌}
use kairos_engine.Base.Lists.{length, All}

-- What a comparison must satisfy.
pub record IsOrder {ℓ} {A : Type ℓ} (leb : A → A → Bool) : Type ℓ where
  pub total : (a b : A) → leb a b ≡ false → leb b a ≡ true
  pub trans : (a b c : A) → leb a b ≡ true → leb b c ≡ true → leb a c ≡ true

module _ {ℓ} {A : Type ℓ} (leb : A → A → Bool) where
  -- Before the first element that is not smaller: equal elements keep their order.
  unfoldable pub insert_by : A → List A → List A
  insert_by x [] = x ∷ []
  insert_by x (y ∷ ys) = if leb x y then x ∷ y ∷ ys else y ∷ insert_by x ys

  unfoldable pub sort_by : List A → List A
  unfolding insert_by
  sort_by [] = []
  sort_by (x ∷ xs) = insert_by x (sort_by xs)

  abbrev pub IsBelow : A → List A → Type 0
  IsBelow x ys = All (λ y. leb x y ≡ true) ys

  abbrev pub IsSorted : List A → Type 0
  IsSorted [] = Unit
  IsSorted (x ∷ xs) = IsBelow x xs × IsSorted xs

  -- Two elements of which neither is equal to the other in the order.
  abbrev pub Apart : A → A → Type 0
  Apart a b = (leb a b ≡ false) ⊎ (leb b a ≡ false)

  abbrev pub AllApart : List A → Type 0
  AllApart [] = Unit
  AllApart (x ∷ xs) = All (λ y. Apart x y) xs × AllApart xs

module _ {ℓ} {A : Type ℓ} (leb : A → A → Bool) where
  pub length-insert_by : (x : A) (ys : List A) → length (insert_by leb x ys) ≡ length (x ∷ ys)
  unfolding insert_by
  length-insert_by x [] = refl
  length-insert_by x (y ∷ ys) = ground (arith, length-insert_by x ys)

  pub length-sort_by : (xs : List A) → length (sort_by leb xs) ≡ length xs
  unfolding sort_by
  length-sort_by [] = refl
  length-sort_by (x ∷ xs) = length-insert_by x (sort_by leb xs) ∙ ap suc (length-sort_by xs)

  pub insert_by-perm : (x : A) (ys : List A) → Permᴰ (insert_by leb x ys) (x ∷ ys)
  unfolding insert_by
  insert_by-perm x [] = Permᴰ.refl (x ∷ [])
  insert_by-perm x (y ∷ ys) = elim (Bool-cases (leb x y)) [
    | inl e ↦ rw e (Permᴰ.refl (x ∷ y ∷ ys))
    | inr e ↦ rw e (Permᴰ.trans (Permᴰ.cons refl (insert_by-perm x ys)) (Permᴰ.swap refl refl))
  ]

  pub sort_by-perm : (xs : List A) → Permᴰ (sort_by leb xs) xs
  unfolding sort_by
  sort_by-perm [] = Permᴰ.nil
  sort_by-perm (x ∷ xs) =
      Permᴰ.trans (insert_by-perm x (sort_by leb xs)) (Permᴰ.cons refl (sort_by-perm xs))

module _ {ℓ} {A : Type ℓ} (leb : A → A → Bool) (o : IsOrder leb) where
  IsBelow-trans : (x y : A) (zs : List A) → leb x y ≡ true → IsBelow leb y zs → IsBelow leb x zs
  IsBelow-trans x y [] h b = tt
  IsBelow-trans x y (z ∷ zs) h b = (o.trans x y z h b.0, IsBelow-trans x y zs h b.1)

  insert_by-IsBelow :
      (x y : A) (zs : List A)
      → leb x y ≡ true
      → IsBelow leb x zs
      → IsBelow leb x (insert_by leb y zs)
  unfolding insert_by
  insert_by-IsBelow x y [] h b = (h, tt)
  insert_by-IsBelow x y (z ∷ zs) h b = elim (Bool-cases (leb y z)) [
    | inl e ↦ rw e (h, (b.0, b.1))
    | inr e ↦ rw e (b.0, insert_by-IsBelow x y zs h b.1)
  ]

  insert_by-IsSorted : (x : A) (ys : List A) → IsSorted leb ys → IsSorted leb (insert_by leb x ys)
  unfolding insert_by
  insert_by-IsSorted x [] s = (tt, tt)
  insert_by-IsSorted x (y ∷ ys) s = elim (Bool-cases (leb x y)) [
    | inl e ↦ rw e ((e, IsBelow-trans x y ys e s.0), s)
    | inr e ↦ rw e (insert_by-IsBelow y x ys (o.total x y e) s.0, insert_by-IsSorted x ys s.1)
  ]

  pub sort_by-IsSorted : (xs : List A) → IsSorted leb (sort_by leb xs)
  unfolding sort_by
  sort_by-IsSorted [] = tt
  sort_by-IsSorted (x ∷ xs) = insert_by-IsSorted x (sort_by leb xs) (sort_by-IsSorted xs)

  -- A sorted list is its own sort.
  insert_by_of_IsBelow : (x : A) (ys : List A) → IsBelow leb x ys → insert_by leb x ys ≡ x ∷ ys
  unfolding insert_by
  insert_by_of_IsBelow x [] b = refl
  insert_by_of_IsBelow x (y ∷ ys) b = rw (b.0)

  pub sort_by_of_IsSorted : (xs : List A) → IsSorted leb xs → sort_by leb xs ≡ xs
  unfolding sort_by
  sort_by_of_IsSorted [] s = refl
  sort_by_of_IsSorted (x ∷ xs) s =
      ap (insert_by leb x) (sort_by_of_IsSorted xs s.1) ∙ insert_by_of_IsBelow x xs s.0

  -- Two elements that are apart go in in either order.
  insert_by_comm :
      (x y : A) (zs : List A)
      → Apart leb x y
      → insert_by leb x (insert_by leb y zs) ≡ insert_by leb y (insert_by leb x zs)
  unfolding insert_by
  insert_by_comm x y [] h = ground (arith, o.total x y, o.total y x)
  insert_by_comm x y (z ∷ zs) h = ground (
    arith,
    o.total x y,
    o.total y x,
    o.total x z,
    o.total y z,
    o.trans x y z,
    o.trans y x z,
    o.trans x z y,
    o.trans y z x,
    insert_by_comm x y zs h,
  )

  Apart-symm : (x y : A) → Apart leb x y → Apart leb y x
  Apart-symm x y (inl h) = inr h
  Apart-symm x y (inr h) = inl h

  All-Apart-perm :
      (x : A) {ys zs : List A}
      → Permᴰ ys zs
      → All (λ y. Apart leb x y) ys
      → All (λ y. Apart leb x y) zs
  All-Apart-perm x Permᴰ.nil h = tt
  All-Apart-perm x (Permᴰ.cons e p) h = (subst (λ t. Apart leb x t) e h.0, All-Apart-perm x p h.1)
  All-Apart-perm x (Permᴰ.swap {a} {b} e f) h =
      (subst (λ t. Apart leb x t) f h.1.0, (subst (λ t. Apart leb x t) e h.0, h.1.1))
  All-Apart-perm x (Permᴰ.trans p q) h = All-Apart-perm x q (All-Apart-perm x p h)

  AllApart-perm : {xs ys : List A} → Permᴰ xs ys → AllApart leb xs → AllApart leb ys
  AllApart-perm Permᴰ.nil h = tt
  AllApart-perm (Permᴰ.cons {l₂ = l} e p) h =
      (subst (λ t. All (λ y. Apart leb t y) l) e (All-Apart-perm _ p h.0), AllApart-perm p h.1)
  AllApart-perm (Permᴰ.swap {a} {b} {a'} {b'} {l} e f) h = (
    (
      subst (λ t. Apart leb t b') f (subst (λ t. Apart leb b t) e (Apart-symm a b h.0.0)),
      subst (λ t. All (λ y. Apart leb t y) l) f h.1.0,
    ),
    (subst (λ t. All (λ y. Apart leb t y) l) e h.0.1, h.1.1),
  )
  AllApart-perm (Permᴰ.trans p q) h = AllApart-perm q (AllApart-perm p h)

  -- Two orders of elements that are pairwise apart have one sort.
  pub sort_by-eq_of_perm :
      {xs ys : List A} → Permᴰ xs ys → AllApart leb xs → sort_by leb xs ≡ sort_by leb ys
  unfolding sort_by
  sort_by-eq_of_perm Permᴰ.nil h = refl
  sort_by-eq_of_perm (Permᴰ.cons {a} {b} {l₁} {l₂} e p) h =
      ap (insert_by leb a) (sort_by-eq_of_perm p h.1) ∙ ap (λ t. insert_by leb t (sort_by leb l₂)) e
  sort_by-eq_of_perm (Permᴰ.swap {a} {b} {a'} {b'} {l} e f) h =
      insert_by_comm a b (sort_by leb l) h.0.0
      ∙ ap (λ t. insert_by leb t (insert_by leb a (sort_by leb l))) f
      ∙ ap (λ t. insert_by leb a' (insert_by leb t (sort_by leb l))) e
  sort_by-eq_of_perm (Permᴰ.trans p q) h =
      sort_by-eq_of_perm p h ∙ sort_by-eq_of_perm q (AllApart-perm p h)
