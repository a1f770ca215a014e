-- ===== src/Sampler.antt =====
-- tools/sp_daemon/src/sampler.rs: the choice of the next token from a row of logits. The arithmetic
-- of `f32` and `f64` is a parameter, with `place`, the order of a value among the `f32`s as Argmax
-- reads it, and the sort of the standard library, which leaves the order of equals open. A token is
-- the 32-bit pattern of an `i32`; the time since the turn began is an argument.
pub mod Mask
pub mod Masked
pub mod Ngram
pub mod Allowed
pub mod Greedy
pub mod Draw
pub mod Truncate
pub mod Range
pub mod NullFloor
pub mod Toy
mod Tests
use Prim.Native.Nat.{bit_xor}
use kairos_engine.Base.{
  ℕ, zero, suc, ◌+◌, ◌-◌, ◌*◌, ◌/◌, ◌%◌, ◌^◌, min, max, Bool, true, false, not, ◌&&◌, ◌||◌, Option,
  none, some, List, [], ◌∷◌, ◌++◌, map, length, get_elem?, set, take, drop, list_beq, ltb, leb,
  ◌==◌, if◌then◌else◌,
}
use kairos_engine.Argmax.{Logit, argmax}

pub record Floats : Type 1 where
  pub F32 : Type 0
  pub F64 : Type 0
  pub place : F32 → Logit
  pub neg_infinity : F32
  pub at_most_zero : F32 → Bool
  pub above_zero : F32 → Bool
  -- `(x - 1.0).abs() > f32::EPSILON` and `x.abs() > f32::EPSILON`
  pub differs_from_one : F32 → Bool
  pub differs_from_zero : F32 → Bool
  pub times : F32 → F32 → F32
  pub over : F32 → F32 → F32
  pub minus : F32 → F32 → F32
  -- `max(1e-6)`, `((l - max_logit) as f64).exp()`, `clamp(0.0, 1.0) as f64`
  pub at_least_tiny : F32 → F32
  pub weight : F32 → F32 → F64
  pub clamped : F32 → F64
  pub zero_f64 : F64
  pub plus : F64 → F64 → F64
  pub over_f64 : F64 → F64 → F64
  pub times_f64 : F64 → F64 → F64
  pub less : F64 → F64 → Bool
  pub at_least : F64 → F64 → Bool
  pub below_one : F64 → Bool
  -- `sum <= 0.0 || !sum.is_finite()`
  pub degenerate : F64 → Bool
  -- The quotient of a 53-bit number by 2 ^ 53.
  pub unit_fraction : ℕ → F64
  -- `sort_unstable_by` in descending order of the logits; `none` is a panic, which it may be where
  -- the comparison is no total order.
  pub sort_descending : List (ℕ × F32) → Option (List (ℕ × F32))

-- SplitMix64: `Rng`, its seeding and its step.
abbrev pub golden : ℕ
golden = 0x9E3779B97F4A7C15

abbrev pub new_rng : ℕ → ℕ
new_rng seed = bit_xor seed golden

abbrev pub mix : ℕ → ℕ → ℕ → ℕ
mix z shift factor = bit_xor z (z / 2 ^ shift) * factor % 2 ^ 64

unfoldable pub next_u64 : ℕ → ℕ × ℕ
next_u64 state =
    let s = (state + golden) % 2 ^ 64 in
    let z = mix (mix s 30 0xBF58476D1CE4E5B9) 27 0x94D049BB133111EB in (bit_xor z (z / 2 ^ 31), s)

abbrev pub contains : List ℕ → ℕ → Bool
contains [] t = false
contains (x ∷ xs) t = if x == t then true else contains xs t

-- `id as usize` of an `i32`: a negative id is extended by its sign.
abbrev pub as_usize : ℕ → ℕ
as_usize t = if ltb t (2 ^ 31) then t else t + (2 ^ 64 - 2 ^ 32)

module _ (fl : Floats) where
  open fl use {F32, neg_infinity}

  pub record SamplingParams : Type 0 where
    pub temperature : F32
    pub top_p : F32
    pub top_k : ℕ
    pub repetition_penalty : F32
    pub frequency_penalty : F32
    pub seed : Option ℕ
    pub no_repeat_ngram : ℕ

  pub record Sampler : Type 0 where
    pub params : SamplingParams
    pub rng : ℕ
    pub history : List ℕ
    pub suppress : List ℕ
    pub ngram_prefix : List ℕ
    pub think_close : Option ℕ
    pub think_min : ℕ
    pub think_max : ℕ
    pub think_max_ms : ℕ
    pub think_closed : Bool
    pub think_forced : Bool

  abbrev pub seed_or : Option ℕ → ℕ → ℕ
  seed_or none clock = clock
  seed_or (some s) clock = s

  -- Sampler::with_suppress; the clock seeds a sampler that has no seed.
  abbrev pub with_suppress : SamplingParams → List ℕ → ℕ → Sampler
  with_suppress params suppress clock = record {
    params = params;
    rng = new_rng (seed_or params.seed clock);
    history = [];
    suppress = suppress;
    ngram_prefix = [];
    think_close = none;
    think_min = 0;
    think_max = 0;
    think_max_ms = 0;
    think_closed = false;
    think_forced = false;
  }

  abbrev pub set_ngram_prefix : Sampler → List ℕ → Sampler
  set_ngram_prefix s prefix = record s { ngram_prefix = prefix }

  abbrev pub set_no_repeat_ngram : Sampler → ℕ → Sampler
  set_no_repeat_ngram s n = record s { params = record s.params { no_repeat_ngram = n } }

  abbrev pub set_min_thought : Sampler → Option ℕ → ℕ → Sampler
  set_min_thought s close_id min_tokens = record s {
    think_close = close_id;
    think_min = min_tokens;
  }

  abbrev pub or_kept : Option ℕ → Option ℕ → Option ℕ
  or_kept none old = old
  or_kept (some id) old = some id

  abbrev pub set_max_thought : Sampler → Option ℕ → ℕ → ℕ → Sampler
  set_max_thought s close_id max_tokens max_ms = record s {
    think_close = or_kept close_id s.think_close;
    think_max = max_tokens;
    think_max_ms = max_ms;
  }

  abbrev pub thought_budget_spent : Sampler → ℕ → Bool
  thought_budget_spent s elapsed =
      (ltb 0 s.think_max && leb s.think_max (length s.history))
      || (ltb 0 s.think_max_ms && leb s.think_max_ms elapsed)

  abbrev pub is_id : Option ℕ → ℕ → Bool
  is_id none t = false
  is_id (some id) t = t == id

  unfoldable pub observe : Sampler → ℕ → Sampler
  observe s token = record s {
    think_closed = s.think_closed || is_id s.think_close token;
    history = s.history ++ (token ∷ []);
  }

  -- A masked entry; an id past the row masks nothing.
  abbrev pub mask : List F32 → ℕ → List F32
  mask logits id = set logits (as_usize id) neg_infinity

  unfoldable pub suppress_all : List F32 → List ℕ → List F32
  suppress_all logits [] = logits
  suppress_all logits (id ∷ ids) = suppress_all (mask logits id) ids

  abbrev pub mask_id : List F32 → Option ℕ → List F32
  mask_id logits none = logits
  mask_id logits (some id) = mask logits id

  unfoldable pub thought_floor : Sampler → List F32 → List F32
  thought_floor s logits =
      if ltb 0 s.think_min && ltb (length s.history) s.think_min
      then mask_id logits s.think_close
      else logits

  -- Every entry but one becomes negative infinity.
  unfoldable pub keep_only : ℕ → List F32 → List F32
  keep_only i [] = []
  keep_only zero (l ∷ ls) = l ∷ map (λ (x : F32). neg_infinity) ls
  keep_only (suc i) (l ∷ ls) = neg_infinity ∷ keep_only i ls

  abbrev pub close_only : Option ℕ → List F32 → Bool × List F32
  close_only none logits = (false, logits)
  close_only (some id) logits =
      if ltb (as_usize id) (length logits)
      then (true, keep_only (as_usize id) logits)
      else (false, logits)

  -- Whether the ceiling forces the close, and the row after it.
  unfoldable pub thought_ceiling : Sampler → ℕ → List F32 → Bool × List F32
  unfolding keep_only
  thought_ceiling s elapsed logits =
      if not s.think_closed && thought_budget_spent s elapsed
      then close_only s.think_close logits
      else (false, logits)

  -- The loop of `ban_repeat_ngram` over the first `sources` tails of the sequence.
  unfoldable pub ban_loop : ℕ → List ℕ → List ℕ → ℕ → List F32 → List F32
  ban_loop zero seq suffix n logits = logits
  ban_loop (suc sources) [] suffix n logits = logits
  ban_loop (suc sources) (x ∷ seq) suffix n logits = ban_loop sources seq suffix n (
      if list_beq (take (n - 1) (x ∷ seq)) suffix
      then mask_id logits (get_elem? (x ∷ seq) (n - 1))
      else logits)

  unfoldable pub ban_repeat_ngram : List F32 → List ℕ → List ℕ → ℕ → List F32
  unfolding ban_loop
  ban_repeat_ngram logits prefix history n =
      let seq = prefix ++ history in
      if ltb n 2 || ltb (length seq) n
      then logits
      else ban_loop (length seq - n + 1) seq (drop (length seq - (n - 1)) seq) n logits

  -- The row after every mask, up to the greedy return.
  unfoldable pub masked : Sampler → ℕ → List F32 → Bool × List F32
  unfolding suppress_all thought_floor thought_ceiling ban_repeat_ngram
  masked s elapsed logits =
      let floored = thought_floor s (suppress_all logits s.suppress) in
      let (forced, closed) = thought_ceiling s elapsed floored in
      let n = s.params.no_repeat_ngram in
      (forced, if leb 2 n then ban_repeat_ngram closed s.ngram_prefix s.history n else closed)
