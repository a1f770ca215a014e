-- ===== src/Argmax.antt =====
-- The two greedy pickers: `argmax` of tools/sp_daemon/src/spec.rs and sampler.rs (one text) and
-- `argmax` of tools/sp_daemon/src/dialogue.rs. The code only compares logits here, so a logit is
-- its place among the f32 values: `none` for NaN, `some 0` for negative infinity (-0 and 0 share a
-- place). An index is below 2 ^ 31 and its cast to i32 keeps it.
pub mod Ties
mod Tests
use Prim.Native.Nat.{compare, Ordering}
use kairos_engine.Base.{ℕ, ◌+◌, Option, some, none, List, [], ◌∷◌, Bool, true, false}

abbrev pub Logit : Type 0
Logit = Option ℕ

abbrev pub neg_infinity : Logit
neg_infinity = some 0

-- `f32::partial_cmp`
abbrev pub partial_cmp : Logit → Logit → Option Ordering
partial_cmp none b = none
partial_cmp (some a) none = none
partial_cmp (some a) (some b) = some (compare a b)

-- `.unwrap_or(Ordering::Equal)`
abbrev pub or_equal : Option Ordering → Ordering
or_equal none = Ordering.eq
or_equal (some o) = o

-- The fold of `max_by`: the later element is kept unless the earlier is greater.
unfoldable pub max_by_loop : ℕ → Logit → ℕ → List Logit → ℕ
max_by_loop best_i best_v i [] = best_i
max_by_loop best_i best_v i (v ∷ vs) = elim (or_equal (partial_cmp best_v v)) [
  | Ordering.gt ↦ max_by_loop best_i best_v (i + 1) vs
  | _ ↦ max_by_loop i v (i + 1) vs
]

-- spec.rs, sampler.rs
unfoldable pub argmax : List Logit → ℕ
unfolding max_by_loop
argmax [] = 0
argmax (v ∷ vs) = max_by_loop 0 v 1 vs

-- `v > best_v`
abbrev pub is_greater : Logit → Logit → Bool
is_greater v best_v = elim (partial_cmp v best_v) [
  | none ↦ false
  | some o ↦ elim o [ Ordering.gt ↦ true | _ ↦ false ]
]

unfoldable pub first_max_loop : ℕ → Logit → ℕ → List Logit → ℕ
first_max_loop best_i best_v i [] = best_i
first_max_loop best_i best_v i (v ∷ vs) = elim (is_greater v best_v) [
  | true ↦ first_max_loop i v (i + 1) vs
  | false ↦ first_max_loop best_i best_v (i + 1) vs
]

-- dialogue.rs
unfoldable pub dialogue_argmax : List Logit → ℕ
unfolding first_max_loop
dialogue_argmax logits = first_max_loop 0 neg_infinity 0 logits
