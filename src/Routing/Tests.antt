-- ===== src/Routing/Tests.antt =====
-- Masks of a toy encoding: the tree is eight zeros and then the query's bytes.
use kairos_engine.Base.{ℕ, ◌≤◌, ◌<◌, ◌≡◌, refl, ◌⊎◌, List, [], ◌∷◌, ◌++◌, replicate, some}
use kairos_engine.Base.Bits.{count_ones}
use kairos_engine.Routing.{
  RoutingMask, shuffle, swap, swap_values, heads_from, splitmix64, hamming, hamming_of, ok, err,
  too_many_active, too_many_heads, no_layers, compute_memory_routing,
}
use kairos_engine.Routing.Mask.{IsMask, compute_memory_routing_shapes}

abbrev toy_encode : List ℕ → List ℕ
toy_encode query = replicate 8 0 ++ query ++ replicate 56 0

-- A shuffle keeps the heads and moves them.
shuffled : shuffle 3 1 (heads_from 0 4) ≡ 2 ∷ 0 ∷ 3 ∷ 1 ∷ []
unfolding shuffle splitmix64 swap swap_values heads_from
shuffled = refl

compute_memory_routing_shapes_example :
    ((4 < 2) × (compute_memory_routing toy_encode (1 ∷ 2 ∷ []) 3 4 2 ≡ err too_many_active))
    ⊎ (((2 ≤ 4)
          × (64 < 4)
          × (compute_memory_routing toy_encode (1 ∷ 2 ∷ []) 3 4 2 ≡ err too_many_heads))
        ⊎ (((2 ≤ 4)
              × (4 ≤ 64)
              × (◌≡◌ {A = ℕ} 3 0)
              × (compute_memory_routing toy_encode (1 ∷ 2 ∷ []) 3 4 2 ≡ err no_layers))
            ⊎ ((mask : RoutingMask) × (compute_memory_routing toy_encode (1 ∷ 2 ∷ []) 3 4 2
                  ≡ ok mask)
                × IsMask 3 4 2 mask)))
compute_memory_routing_shapes_example = compute_memory_routing_shapes toy_encode (1 ∷ 2 ∷ []) 3 4 2

-- A mask with the bits of its two layers.
abbrev two_layers : ℕ → ℕ → RoutingMask
two_layers a b = record {
  active = a ∷ b ∷ [];
  k_per_layer = 2;
  n_layers = 2;
  n_heads = 4;
  source_tier0_hash = 0;
}

distance : hamming (two_layers 3 12) (two_layers 5 12) ≡ some 2
unfolding hamming hamming_of count_ones
distance = refl
