-- ===== src/Recall/Match.antt =====
-- `agree` and `best_match` of tools/sp_daemon/src/recall.rs: the episode that a signature matches
-- best. Of an `Episode` the match reads the signature.
pub mod Best
mod Tests
use Prim.Native.Nat.{bit_xor}
use kairos_engine.Base.{
  ℕ, zero, suc, ◌+◌, ◌-◌, Bool, true, false, Option, none, some, List, [], ◌∷◌, ◌++◌, map, leb,
  if◌then◌else◌,
}
use kairos_engine.Base.Bits.{count_ones}
use kairos_engine.Similarity.{Sig}

pub record Episode : Type 0 where
  pub name : List ℕ
  pub text : List ℕ
  pub sig : Sig

unfoldable pub agree : Sig → Sig → ℕ
unfolding count_ones
agree (a, b, c, d) (a', b', c', d') =
    256
    - (count_ones 64 (bit_xor a a')
        + count_ones 64 (bit_xor b b')
        + count_ones 64 (bit_xor c c')
        + count_ones 64 (bit_xor d d'))

-- The best so far, after the episode at `i` with the agreement `a`.
abbrev pub keep_best : Option (ℕ × ℕ) → ℕ → ℕ → Option (ℕ × ℕ)
keep_best none i a = some (i, a)
keep_best (some (j, bs)) i a = if leb a bs then some (j, bs) else some (i, a)

unfoldable pub match_loop : Sig → Option (ℕ × ℕ) → ℕ → List Episode → Option (ℕ × ℕ)
unfolding agree
match_loop query best i [] = best
match_loop query best i (ep ∷ eps) =
    match_loop query (keep_best best i (agree query ep.sig)) (i + 1) eps

unfoldable pub best_match : Sig → List Episode → Option (ℕ × ℕ)
unfolding match_loop
best_match query registry = match_loop query none 0 registry
