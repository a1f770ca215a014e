-- ===== src/Similarity.antt =====
-- tools/sp_swarm/src/similarity.rs: signatures of 256 bits and the index over them. An address is
-- the list of its bytes; reading the index from a directory is left out.
pub mod Index
mod Tests
use Prim.Native.Nat.{bit_xor, compare, Ordering}
use kairos_engine.Base.Bits.{count_ones}
use kairos_engine.Base.{
  ℕ, zero, suc, ◌+◌, ◌-◌, ◌/◌, ◌%◌, Bool, true, false, Option, some, none, List, [], ◌∷◌, ◌++◌, map,
  take, list_beq, if◌then◌else◌,
}
use kairos_engine.Base.Sort.{sort_by}
use kairos_engine.Ledger.Key.{bytes_leb}

-- Four `u64` words.
abbrev pub Sig : Type 0
Sig = ℕ × ℕ × ℕ × ℕ

unfoldable pub hamming : Sig → Sig → ℕ
unfolding count_ones
hamming (a, b, c, d) (a', b', c', d') =
    count_ones 64 (bit_xor a a')
    + count_ones 64 (bit_xor b b')
    + count_ones 64 (bit_xor c c')
    + count_ones 64 (bit_xor d d')

unfoldable pub agree : Sig → Sig → ℕ
unfolding hamming
agree a b = 256 - hamming a b

-- The entries of `C2Index`.
abbrev pub C2Index : Type 0
C2Index = List (List ℕ × Sig)

-- The first entry of the address is overwritten, or one is pushed.
unfoldable pub insert : C2Index → List ℕ → Sig → C2Index
insert [] addr sig = (addr, sig) ∷ []
insert ((a, s) ∷ entries) addr sig =
    let rest = insert entries addr sig in
    if list_beq a addr then (a, sig) ∷ entries else (a, s) ∷ rest

-- `x.1.cmp(&y.1).then(x.0.cmp(&y.0))`: the first does not come after the second.
unfoldable pub nearer_leb : List ℕ × ℕ → List ℕ × ℕ → Bool
nearer_leb (a, m) (b, n) = elim (compare m n) [
  | Ordering.lt ↦ true
  | Ordering.gt ↦ false
  | Ordering.eq ↦ bytes_leb a b
]

abbrev pub score : Sig → List ℕ × Sig → List ℕ × ℕ
score q (a, s) = (a, hamming q s)

unfoldable pub find_similar : C2Index → Sig → ℕ → List (List ℕ × ℕ)
unfolding hamming
find_similar entries q k = take k (sort_by nearer_leb (map (score q) entries))
