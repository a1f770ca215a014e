-- ===== src/Spine.antt =====
-- tools/sp_daemon/src/spine.rs: the decision of a turn, a fold of deciders over a view of the query,
-- and its execution on the cache. The floats are a record of abstract operations, over which
-- `cos512` of tools/sp_daemon/src/recall.rs is written; Unicode's tables are an argument.
pub mod Deciders
pub mod Executor
pub mod Top
pub mod Justified
pub mod Answered
pub mod Kept
mod Tests
use kairos_engine.Base.{
  ℕ, zero, suc, Bool, true, false, not, ◌||◌, Option, none, some, List, [], ◌∷◌, ◌++◌, length,
  list_beq, ◌==◌, if◌then◌else◌,
}
use kairos_engine.Base.Text.{codes}

abbrev pub Text : Type 0
Text = List ℕ

pub record Floats : Type 1 where
  pub F32 : Type 0
  pub F64 : Type 0
  -- `<=` and `<`
  pub leq : F32 → F32 → Bool
  pub less : F32 → F32 → Bool
  pub neg_infinity : F32
  pub infinity : F32
  pub zero_f32 : F32
  pub is_finite : F32 → Bool
  pub minus : F32 → F32 → F32
  pub over : F32 → F32 → F32
  pub of_count : ℕ → F32
  -- `max(0.0)`, and `(x * 1000.0) as u32`
  pub at_least_zero : F32 → F32
  pub milli : F32 → ℕ
  pub zero_f64 : F64
  -- The sum and the product with a product of two `f32` taken as `f64`.
  pub plus_product : F64 → F32 → F32 → F64
  -- `na.sqrt() * nb.sqrt()`, its test `<= 0.0`, and the quotient as an `f32`
  pub denominator : F64 → F64 → F64
  pub at_most_zero : F64 → Bool
  pub quotient : F64 → F64 → F32

pub record Chars : Type 0 where
  pub is_alphanumeric : ℕ → Bool
  pub to_lowercase : Text → Text

pub data Delivery : Type 0 where
  system_echo : Delivery
  system : Delivery
  sandwich : Delivery
  fact_echo : Delivery
  recite : Delivery

unfoldable pub from_env : Text → Delivery
from_env v =
    if list_beq v (codes "system")
    then system
    else if list_beq v (codes "sandwich")
    then sandwich
    else if list_beq v (codes "factecho")
    then fact_echo
    else if list_beq v (codes "recite")
    then recite
    else system_echo

pub record EpisodeRef : Type 0 where
  pub name : Text
  pub text : Text
  pub score_milli : ℕ

pub data LatentDecision : Type 0 where
  pass : LatentDecision
  deliver : EpisodeRef → Delivery → LatentDecision
  decline : Text → LatentDecision
  route : ℕ → LatentDecision

unfoldable pub is_terminal : LatentDecision → Bool
is_terminal pass = false
is_terminal (deliver r f) = false
is_terminal (decline m) = true
is_terminal (route t) = true

module _ (fl : Floats) where
  open fl use {
    F32, F64, neg_infinity, zero_f32, zero_f64, plus_product, denominator, at_most_zero, quotient,
  }

  -- What the deciders read of an episode: the rest is the loaders'.
  pub record Episode : Type 0 where
    pub name : Text
    pub text : Text
    pub l5key : List F32
    pub gk : List F32

  pub record LatentView : Type 0 where
    pub raw_user : Text
    pub global_q : List F32
    pub l5_query : List F32
    pub registry : List Episode
    pub nightshift : List Episode
    pub interrogative : Bool
    pub qonly : Bool
    pub tau_l5 : F32
    pub tau_margin : F32
    pub attr_tau : F32
    pub attr_gate : Bool
    pub framing : Delivery

  abbrev pub candidates : LatentView → List Episode
  candidates view = view.registry ++ view.nightshift

  pub record LatentHead : Type 0 where
    pub score : LatentView → Episode → F32
    pub reject_floor : LatentView → F32

  -- The three sums of the loop.
  pub record Sums : Type 0 where
    pub dot : F64
    pub na : F64
    pub nb : F64

  unfoldable pub cos_sums : List F32 → List F32 → Sums → Sums
  cos_sums [] ys s = s
  cos_sums (x ∷ xs) [] s = s
  cos_sums (x ∷ xs) (y ∷ ys) s = cos_sums xs ys record {
    dot = plus_product s.dot x y;
    na = plus_product s.na x x;
    nb = plus_product s.nb y y;
  }

  unfoldable pub cos512 : List F32 → List F32 → F32
  cos512 a b =
      let s = cos_sums a b record { dot = zero_f64; na = zero_f64; nb = zero_f64 } in
      let den = denominator s.na s.nb in
      if not (length a == length b) || (length a == 0)
      then neg_infinity
      else if at_most_zero den
      then zero_f32
      else quotient s.dot den
