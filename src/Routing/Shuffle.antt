-- ===== src/Routing/Shuffle.antt =====
-- The shuffle of the heads is a rearrangement: as many heads, all in range, no two the same.
use mathlib.Core.Option.{some-injective}
use kairos_engine.Base.{
  ℕ, zero, suc, ◌+◌, ◌-◌, ◌%◌, ◌<◌, ◌≡◌, ◌≢◌, refl, ap, sym, ◌∙◌, Bool, true, false, Option, none,
  some, List, length, get_elem?, set, length-set, get_elem?-set_at, get_elem?-set_other,
  get_elem?-lt, ◌==◌, ==_iff, if◌then◌else◌, subst, arith,
}
use kairos_engine.Routing.{swap, swap_values, shuffle, splitmix64, heads_from, layer_perm}

pub record IsShuffled (n : ℕ) (perm : List ℕ) : Type 0 where
  pub size : length perm ≡ n
  pub in_range : (m v : ℕ) → get_elem? perm m ≡ some v → v < n
  pub no_two : (l m v : ℕ) → get_elem? perm l ≡ some v → get_elem? perm m ≡ some v → l ≡ m

-- The number whose place `m` a swap of `i` and `j` takes from.
abbrev turned : ℕ → ℕ → ℕ → ℕ
turned i j m = if m == j then i else if m == i then j else m

get_elem?-swap :
    (perm : List ℕ) (i j m a b : ℕ)
    → get_elem? perm i ≡ some a
    → get_elem? perm j ≡ some b
    → get_elem? (set (set perm i b) j a) m ≡ get_elem? perm (turned i j m)
get_elem?-swap perm i j m a b hi hj = at_j (m == j) refl
  where
    at_i :
        (v : Bool)
        → (m == i) ≡ v
        → m ≢ j
        → get_elem? (set (set perm i b) j a) m ≡ get_elem? perm (if v then j else m)
    at_i true e apart =
        get_elem?-set_other (set perm i b) j m a (λ q. apart (sym q))
        ∙ subst (λ (k : ℕ). get_elem? (set perm i b) k ≡ some b) (sym ((==_iff m i).0 e))
            (get_elem?-set_at perm i b a hi)
        ∙ sym hj
    at_i false e apart =
        get_elem?-set_other (set perm i b) j m a (λ q. apart (sym q))
        ∙ get_elem?-set_other perm i m b (λ q. absurd (cc (sym e ∙ (==_iff m i).1 (sym q))))

    there : (v : Bool) → (i == j) ≡ v → (w : ℕ) × (get_elem? (set perm i b) j ≡ some w)
    there true e = (
      b,
      subst (λ (k : ℕ). get_elem? (set perm i b) k ≡ some b) ((==_iff i j).0 e)
          (get_elem?-set_at perm i b a hi),
    )
    there false e =
        (b, get_elem?-set_other perm i j b (λ q. absurd (cc (sym e ∙ (==_iff i j).1 q))) ∙ hj)

    at_j :
        (v : Bool)
        → (m == j) ≡ v
        → get_elem? (set (set perm i b) j a) m
          ≡ get_elem? perm (if v then i else if m == i then j else m)
    at_j true e =
        let (w, hw) = there (i == j) refl in
        subst (λ (k : ℕ). get_elem? (set (set perm i b) j a) k ≡ get_elem? perm i)
          (sym ((==_iff m j).0 e)) (get_elem?-set_at (set perm i b) j a w hw ∙ sym hi)
    at_j false e = at_i (m == i) refl (λ q. absurd (cc (sym e ∙ (==_iff m j).1 q)))

turned-injective : (i j l m : ℕ) → turned i j l ≡ turned i j m → l ≡ m
turned-injective i j l m e = ground (arith, e)

swap_values-IsShuffled :
    (n : ℕ) (perm : List ℕ) (i j : ℕ) (a b : Option ℕ)
    → get_elem? perm i ≡ a
    → get_elem? perm j ≡ b
    → IsShuffled n perm
    → IsShuffled n (swap_values perm i j a b)
unfolding swap_values
swap_values-IsShuffled n perm i j none b hi hj h = h
swap_values-IsShuffled n perm i j (some a) none hi hj h = h
swap_values-IsShuffled n perm i j (some a) (some b) hi hj h = record {
  size = length-set (set perm i b) j a ∙ length-set perm i b ∙ h.size;
  in_range = λ m v e. h.in_range (turned i j m) v (sym (get_elem?-swap perm i j m a b hi hj) ∙ e);
  no_two = λ l m v el em. turned-injective i j l m (
      h.no_two (turned i j l) (turned i j m) v (sym (get_elem?-swap perm i j l a b hi hj) ∙ el)
        (sym (get_elem?-swap perm i j m a b hi hj) ∙ em));
}

shuffle-IsShuffled :
    (n i state : ℕ) (perm : List ℕ) → IsShuffled n perm → IsShuffled n (shuffle i state perm)
unfolding shuffle swap
shuffle-IsShuffled n zero state perm h = h
shuffle-IsShuffled n (suc i) state perm h =
    shuffle-IsShuffled n i (splitmix64 state).1
      (swap perm (suc i) ((splitmix64 state).0 % (suc i + 1)))
      (swap_values-IsShuffled n perm (suc i) ((splitmix64 state).0 % (suc i + 1)) _ _ refl refl h)

get_elem?-heads_from : (a n m v : ℕ) → get_elem? (heads_from a n) m ≡ some v → v ≡ a + m
unfolding heads_from
get_elem?-heads_from a zero m v h = absurd (cc h)
get_elem?-heads_from a (suc n) zero v h = omega (arith, some-injective a v h)
get_elem?-heads_from a (suc n) (suc m) v h = omega (arith, get_elem?-heads_from (suc a) n m v h)

length-heads_from : (a n : ℕ) → length (heads_from a n) ≡ n
unfolding heads_from
length-heads_from a zero = refl
length-heads_from a (suc n) = ap suc (length-heads_from (suc a) n)

heads_from-IsShuffled : (n : ℕ) → IsShuffled n (heads_from 0 n)
heads_from-IsShuffled n = record {
  size = length-heads_from 0 n;
  in_range = λ m v e. omega (
    arith,
    get_elem?-heads_from 0 n m v e,
    get_elem?-lt (heads_from 0 n) m e,
    length-heads_from 0 n,
  );
  no_two = λ l m v el em.
      omega (arith, get_elem?-heads_from 0 n l v el, get_elem?-heads_from 0 n m v em);
}

pub layer_perm-IsShuffled : (hash l n : ℕ) → IsShuffled n (layer_perm hash l n)
unfolding layer_perm
layer_perm-IsShuffled hash l n =
    shuffle-IsShuffled n (n - 1) _ (heads_from 0 n) (heads_from-IsShuffled n)
