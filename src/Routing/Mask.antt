-- ===== src/Routing/Mask.antt =====
-- `compute_memory_routing`: the mask of each layer.
use kairos_engine.Base.{
  ℕ, zero, suc, ◌+◌, ◌*◌, ◌^◌, ◌≤◌, ◌<◌, ◌≡◌, ◌≢◌, refl, ap, sym, ◌∙◌, ◌⊎◌, inl, inr, Bool, true,
  false, some, List, [], ◌∷◌, length, get_elem?, take, All, length-take, ltb, ◌==◌, ==_iff,
  if◌then◌else◌, arith,
}
use Prim.Native.Nat.{bit_or}
use native.Mathlib.Nat.{suc-mul}
use kairos_engine.Base.Bits.{
  test_bit, count_ones, test_bit-or_power, count_ones-or_power, test_bit-zero, count_ones-zero,
}
use kairos_engine.Routing.{
  RoutingMask, total_of, total_active, set_bits, layer_perm, layer_bits, layers, too_many_active,
  too_many_heads, no_layers, Routed, ok, err, compute_memory_routing, fnv1a64, kste_tier0_root,
}
use kairos_engine.Routing.Shuffle.{layer_perm-IsShuffled}

abbrev AllApart : List ℕ → Type 0
AllApart [] = Unit
AllApart (x ∷ xs) = All (λ (y : ℕ). y ≢ x) xs × AllApart xs

All-get_elem? :
    (P : ℕ → Type 0) (xs : List ℕ) → ((m v : ℕ) → get_elem? xs m ≡ some v → P v) → All P xs
All-get_elem? P [] h = tt
All-get_elem? P (x ∷ xs) h = (h 0 x refl, All-get_elem? P xs (λ m v e. h (suc m) v e))

no_two-AllApart :
    (xs : List ℕ)
    → ((l m v : ℕ) → get_elem? xs l ≡ some v → get_elem? xs m ≡ some v → l ≡ m)
    → AllApart xs
no_two-AllApart [] h = tt
no_two-AllApart (x ∷ xs) h = (
  All-get_elem? (λ (y : ℕ). y ≢ x) xs
      (λ m v e q. absurd (omega (arith, h 0 (suc m) v (ap some (sym q)) e))),
  no_two-AllApart xs (λ l m v el em. omega (arith, h (suc l) (suc m) v el em)),
)

All-take : (P : ℕ → Type 0) (k : ℕ) (xs : List ℕ) → All P xs → All P (take k xs)
All-take P zero xs h = tt
All-take P (suc k) [] h = tt
All-take P (suc k) (x ∷ xs) (h, hs) = (h, All-take P k xs hs)

AllApart-take : (k : ℕ) (xs : List ℕ) → AllApart xs → AllApart (take k xs)
AllApart-take zero xs h = tt
AllApart-take (suc k) [] h = tt
AllApart-take (suc k) (x ∷ xs) (h, hs) = (All-take (λ (y : ℕ). y ≢ x) k xs h, AllApart-take k xs hs)

abbrev Off : ℕ → ℕ → Type 0
Off bits h = test_bit h bits ≡ 0

still-Off :
    (bits h : ℕ) (hs : List ℕ)
    → All (λ (y : ℕ). y ≢ h) hs
    → All (Off bits) hs
    → All (Off (bit_or bits (2 ^ h))) hs
still-Off bits h [] apart off = tt
still-Off bits h (y ∷ hs) (d, apart) (o, off) =
    (test_bit-or_power y h bits d ∙ o, still-Off bits h hs apart off)

-- Bits that were zero and are set one after the other.
count_ones-set_bits :
    (w : ℕ) (hs : List ℕ) (bits : ℕ)
    → AllApart hs
    → All (λ (h : ℕ). h < w) hs
    → All (Off bits) hs
    → count_ones w (set_bits bits hs) ≡ count_ones w bits + length hs
unfolding set_bits
count_ones-set_bits w [] bits apart lt off = omega arith
count_ones-set_bits w (h ∷ hs) bits (d, apart) (lt, lts) (o, off) = omega (
  arith,
  count_ones-set_bits w hs (bit_or bits (2 ^ h)) apart lts (still-Off bits h hs d off),
  count_ones-or_power w h bits lt o,
)

test_bit-set_bits :
    (i : ℕ) (hs : List ℕ) (bits : ℕ)
    → All (λ (h : ℕ). i ≢ h) hs
    → test_bit i (set_bits bits hs) ≡ test_bit i bits
unfolding set_bits
test_bit-set_bits i [] bits h = refl
test_bit-set_bits i (y ∷ hs) bits (d, h) =
    test_bit-set_bits i hs (bit_or bits (2 ^ y)) h ∙ test_bit-or_power i y bits d

-- What the mask of a layer promises: `k` heads, none of them past the last.
pub record IsLayer (n_heads k : ℕ) (bits : ℕ) : Type 0 where
  pub active : count_ones 64 bits ≡ k
  pub in_range : (i : ℕ) → n_heads ≤ i → test_bit i bits ≡ 0

layer_bits-IsLayer :
    (hash n_heads k l : ℕ)
    → n_heads ≤ 64
    → k ≤ n_heads
    → IsLayer n_heads k (layer_bits hash n_heads k l)
unfolding layer_bits
layer_bits-IsLayer hash n_heads k l small few =
    let perm = layer_perm hash l n_heads in
    let h = layer_perm-IsShuffled hash l n_heads in
    record {
      active = omega (
        arith,
        count_ones-set_bits 64 (take k perm) 0
            (AllApart-take k perm (no_two-AllApart perm h.no_two))
            (All-take (λ (v : ℕ). v < 64) k perm
              (All-get_elem? (λ (v : ℕ). v < 64) perm
                (λ m v e. omega (arith, h.in_range m v e, small))))
            (All-take (Off 0) k perm (All-get_elem? (Off 0) perm (λ m v e. test_bit-zero v))),
        count_ones-zero 64,
        length-take k perm,
        h.size,
        few,
      );
      in_range = λ i past.
          test_bit-set_bits i (take k perm) 0 (
            All-take (λ (v : ℕ). i ≢ v) k perm
              (All-get_elem? (λ (v : ℕ). i ≢ v) perm
                (λ m v e q. absurd (omega (arith, h.in_range m v e, past, q)))))
          ∙ test_bit-zero i;
    }

layers-All :
    (hash n_heads k l n : ℕ)
    → n_heads ≤ 64
    → k ≤ n_heads
    → All (IsLayer n_heads k) (layers hash n_heads k l n)
      × (length (layers hash n_heads k l n) ≡ n)
      × (total_of (layers hash n_heads k l n) ≡ n * k)
unfolding layers total_of
layers-All hash n_heads k l zero small few = (tt, refl, omega arith)
layers-All hash n_heads k l (suc n) small few =
    let (all, len, total) = layers-All hash n_heads k (suc l) n small few in
    let first = layer_bits-IsLayer hash n_heads k l small few in
    (
      (first, all),
      ap suc len,
      more (count_ones 64 (layer_bits hash n_heads k l))
          (total_of (layers hash n_heads k (suc l) n)) first.active total,
    )
  where
    more : (a b : ℕ) → a ≡ k → b ≡ n * k → a + b ≡ suc n * k
    more a b ha hb = omega (arith, ha, hb, suc-mul n k)

-- The mask that a query gets.
pub record IsMask (n_layers n_heads k : ℕ) (mask : RoutingMask) : Type 0 where
  pub layer_count : length mask.active ≡ n_layers
  pub each_layer : All (IsLayer n_heads k) mask.active
  pub total : total_active mask ≡ n_layers * k

abbrev Shapes : ℕ → ℕ → ℕ → Routed → Type 0
Shapes n_layers n_heads k r =
    ((n_heads < k) × (r ≡ err too_many_active))
    ⊎ (((k ≤ n_heads) × (64 < n_heads) × (r ≡ err too_many_heads))
        ⊎ (((k ≤ n_heads) × (n_heads ≤ 64) × (n_layers ≡ 0) × (r ≡ err no_layers))
            ⊎ ((m : RoutingMask) × (r ≡ ok m) × IsMask n_layers n_heads k m)))

-- The result for every query and size: the three errors, in the order of their tests, and otherwise
-- a mask with `n_layers` layers, `k` active heads in each of them, none out of range.
pub compute_memory_routing_shapes :
    (kste_encode : List ℕ → List ℕ) (query : List ℕ) (n_layers n_heads k : ℕ)
    → ((n_heads < k)
        × (compute_memory_routing kste_encode query n_layers n_heads k ≡ err too_many_active))
      ⊎ (((k ≤ n_heads)
            × (64 < n_heads)
            × (compute_memory_routing kste_encode query n_layers n_heads k ≡ err too_many_heads))
          ⊎ (((k ≤ n_heads)
                × (n_heads ≤ 64)
                × (n_layers ≡ 0)
                × (compute_memory_routing kste_encode query n_layers n_heads k ≡ err no_layers))
              ⊎ ((mask : RoutingMask) × (compute_memory_routing kste_encode query n_layers n_heads k
                    ≡ ok mask)
                  × IsMask n_layers n_heads k mask)))
unfolding compute_memory_routing total_active
compute_memory_routing_shapes kste_encode query n_layers n_heads k = active (ltb n_heads k) refl
  where
    hash : ℕ
    hash = fnv1a64 (kste_tier0_root kste_encode query)

    mask : RoutingMask
    mask = record {
      active = layers hash n_heads k 0 n_layers;
      k_per_layer = k;
      n_layers = n_layers;
      n_heads = n_heads;
      source_tier0_hash = hash;
    }

    none_left :
        (b : Bool)
        → (n_layers == 0) ≡ b
        → k ≤ n_heads
        → n_heads ≤ 64
        → Shapes n_layers n_heads k (if b then err no_layers else ok mask)
    none_left true h few small = inr (inr (inl (few, small, (==_iff n_layers 0).0 h, refl)))
    none_left false h few small =
        let (all, len, total) = layers-All hash n_heads k 0 n_layers small few in
        inr (inr (inr (mask, refl, record { layer_count = len; each_layer = all; total = total })))

    heads :
        (b : Bool)
        → ltb 64 n_heads ≡ b
        → k ≤ n_heads
        → Shapes n_layers n_heads k
            (if b then err too_many_heads else if n_layers == 0 then err no_layers else ok mask)
    heads true h few = inr (inl (few, ground (arith, h), refl))
    heads false h few = none_left (n_layers == 0) refl few (ground (arith, h))

    active :
        (b : Bool)
        → ltb n_heads k ≡ b
        → Shapes n_layers n_heads k (
            if b
            then err too_many_active
            else if ltb 64 n_heads
            then err too_many_heads
            else if n_layers == 0
            then err no_layers
            else ok mask)
    active true h = inl (ground (arith, h), refl)
    active false h = heads (ltb 64 n_heads) refl (ground (arith, h))
