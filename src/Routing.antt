-- ===== src/Routing.antt =====
-- tools/sp_daemon/src/memo_routing.rs: the heads that a query activates in each layer. The KSTE
-- encoding is C code and an argument, from a query to the 64 bytes of its tree; a mask is a `u64`.
pub mod Shuffle
pub mod Mask
mod Tests
use Prim.Native.Nat.{bit_or, bit_xor}
use kairos_engine.Base.{
  ℕ, zero, suc, ◌+◌, ◌-◌, ◌*◌, ◌/◌, ◌%◌, ◌^◌, Option, none, some, List, [], ◌∷◌, ◌++◌, take, drop,
  get_elem?, set, ltb, ◌==◌, ◌&&◌, if◌then◌else◌,
}
use kairos_engine.Base.Bits.{count_ones}

pub record RoutingMask : Type 0 where
  pub active : List ℕ
  pub k_per_layer : ℕ
  pub n_layers : ℕ
  pub n_heads : ℕ
  pub source_tier0_hash : ℕ

unfoldable pub total_of : List ℕ → ℕ
total_of [] = 0
total_of (m ∷ ms) = count_ones 64 m + total_of ms

pub total_active : RoutingMask → ℕ
unfolding total_of
total_active mask = total_of mask.active

unfoldable pub hamming_of : List ℕ → List ℕ → ℕ
hamming_of [] ys = 0
hamming_of (x ∷ xs) [] = 0
hamming_of (x ∷ xs) (y ∷ ys) = count_ones 64 (bit_xor x y) + hamming_of xs ys

-- `none` is the panic on masks of different shapes.
unfoldable pub hamming : RoutingMask → RoutingMask → Option ℕ
hamming a b =
    if (a.n_layers == b.n_layers) && (a.n_heads == b.n_heads)
    then some (hamming_of a.active b.active)
    else none

-- `SP_KSTE_OFF_ROOT` and the twelve bytes from there.
unfoldable pub kste_tier0_root : (List ℕ → List ℕ) → List ℕ → List ℕ
kste_tier0_root kste_encode query = take 12 (drop 8 (kste_encode query))

unfoldable pub hash_bytes : ℕ → List ℕ → ℕ
hash_bytes h [] = h
hash_bytes h (b ∷ bytes) = hash_bytes (bit_xor h b * 0x100000001b3 % 2 ^ 64) bytes

unfoldable pub fnv1a64 : List ℕ → ℕ
fnv1a64 bytes = hash_bytes 0xcbf29ce484222325 bytes

-- The drawn number and the next state.
unfoldable pub splitmix64 : ℕ → ℕ × ℕ
splitmix64 state =
    let s = (state + 0x9E3779B97F4A7C15) % 2 ^ 64 in
    let z1 = bit_xor s (s / 2 ^ 30) * 0xBF58476D1CE4E5B9 % 2 ^ 64 in
    let z2 = bit_xor z1 (z1 / 2 ^ 27) * 0x94D049BB133111EB % 2 ^ 64 in (bit_xor z2 (z2 / 2 ^ 31), s)

-- `perm.swap(i, j)`, for numbers in range.
unfoldable pub swap_values : List ℕ → ℕ → ℕ → Option ℕ → Option ℕ → List ℕ
swap_values perm i j (some a) (some b) = set (set perm i b) j a
swap_values perm i j none b = perm
swap_values perm i j (some a) none = perm

unfoldable pub swap : List ℕ → ℕ → ℕ → List ℕ
swap perm i j = swap_values perm i j (get_elem? perm i) (get_elem? perm j)

-- The loop for `i` from its first value down to 1.
unfoldable pub shuffle : ℕ → ℕ → List ℕ → List ℕ
shuffle zero state perm = perm
shuffle (suc i) state perm =
    let (r, next) = splitmix64 state in shuffle i next (swap perm (suc i) (r % (suc i + 1)))

unfoldable pub heads_from : ℕ → ℕ → List ℕ
heads_from a zero = []
heads_from a (suc n) = a ∷ heads_from (suc a) n

unfoldable pub set_bits : ℕ → List ℕ → ℕ
set_bits bits [] = bits
set_bits bits (h ∷ hs) = set_bits (bit_or bits (2 ^ h)) hs

-- One layer: the mixed seed, the shuffled heads, and the bits of the first `k`.
unfoldable pub layer_perm : ℕ → ℕ → ℕ → List ℕ
layer_perm hash l n_heads =
    let (drawn, state) = splitmix64 (bit_xor hash (l * 0xDEADBEEFCAFEBABE % 2 ^ 64)) in
    shuffle (n_heads - 1) state (heads_from 0 n_heads)

unfoldable pub layer_bits : ℕ → ℕ → ℕ → ℕ → ℕ
layer_bits hash n_heads k l = set_bits 0 (take k (layer_perm hash l n_heads))

-- `n` layers from `l`.
unfoldable pub layers : ℕ → ℕ → ℕ → ℕ → ℕ → List ℕ
layers hash n_heads k l zero = []
layers hash n_heads k l (suc n) = layer_bits hash n_heads k l ∷ layers hash n_heads k (suc l) n

pub data RoutingError : Type 0 where
  too_many_active : RoutingError
  too_many_heads : RoutingError
  no_layers : RoutingError

pub data Routed : Type 0 where
  ok : RoutingMask → Routed
  err : RoutingError → Routed

unfoldable pub compute_memory_routing : (List ℕ → List ℕ) → List ℕ → ℕ → ℕ → ℕ → Routed
compute_memory_routing kste_encode query n_layers n_heads k =
    if ltb n_heads k
    then err too_many_active
    else if ltb 64 n_heads
    then err too_many_heads
    else if n_layers == 0
    then err no_layers
    else let hash = fnv1a64 (kste_tier0_root kste_encode query) in
      ok record {
        active = layers hash n_heads k 0 n_layers;
        k_per_layer = k;
        n_layers = n_layers;
        n_heads = n_heads;
        source_tier0_hash = hash;
      }
