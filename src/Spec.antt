-- ===== src/Spec.antt =====
-- tools/sp_daemon/src/spec.rs: one step of speculative decoding. The two sessions are handles of
-- the C library behind session.rs, which is not part of the repository, so a session is a
-- parameter: its type, `decode_step` (the new session and the row it writes, `none` for an error)
-- and `rewind`. On an error the step returns it and promises nothing of the sessions.
pub mod Greedy
pub mod Aligned
mod Tests
use kairos_engine.Base.{
  ℕ, zero, suc, ◌+◌, ◌-◌, ◌%◌, ◌^◌, Bool, Option, some, none, List, [], ◌∷◌, ◌++◌, ◌>>=◌, ltb, ◌==◌,
  if◌then◌else◌,
}
use kairos_engine.Argmax.{Logit, argmax}

pub record Engine : Type 1 where
  pub Session : Type 0
  pub decode_step : Session → ℕ → Option (Session × List Logit)
  pub rewind : Session → ℕ → Option Session

abbrev pub last_of : ℕ → List ℕ → ℕ
last_of d [] = d
last_of d (t ∷ ts) = last_of t ts

-- `k - 1 - k_idx` on `usize`.
abbrev pub rewind_by : ℕ → ℕ → ℕ
rewind_by k k_idx = (k + 2 ^ 64 - 1 - k_idx) % 2 ^ 64

module _ (e : Engine) where
  open e use {Session, decode_step, rewind}

  -- `SpecResult`, with the two sessions as the step leaves them.
  pub record SpecOut : Type 0 where
    pub accepted : List ℕ
    pub next_target_logits : List Logit
    pub next_draft_logits : Option (List Logit)
    pub target : Session
    pub draft : Session

  -- `for _ in 1..k`: the tokens after the first, and the draft session after them.
  unfoldable pub draft_loop : ℕ → Session → ℕ → Option (List ℕ × Session)
  draft_loop zero draft last = some ([], draft)
  draft_loop (suc n) draft last = decode_step draft last >>= λ (draft', d_logits).
      draft_loop n draft' (argmax d_logits) >>= λ (ts, draft'').
      some (argmax d_logits ∷ ts, draft'')

  abbrev pub spec_out : List ℕ → List Logit → Option (List Logit) → Session → Session → SpecOut
  spec_out accepted t_logits d_logits target draft = record {
    accepted = accepted;
    next_target_logits = t_logits;
    next_draft_logits = d_logits;
    target = target;
    draft = draft;
  }

  -- The draft session without its last `extra` tokens; nothing is called for none.
  unfoldable pub take_back : ℕ → Session → Option Session
  take_back extra draft = if ltb 0 extra then rewind draft extra else some draft

  -- The rejection at `k_idx`.
  unfoldable pub reject : ℕ → ℕ → Session → Session → List Logit → List ℕ → Option SpecOut
  reject k k_idx target draft t_logits accepted = take_back (rewind_by k k_idx) draft >>= λ draft'.
      some (spec_out accepted t_logits none target draft')

  -- What follows the loop when all tokens are accepted.
  unfoldable pub accept_all : ℕ → Session → Session → List Logit → List ℕ → Option SpecOut
  accept_all last target draft t_logits accepted = decode_step draft last >>= λ (draft', d_logits).
      some (spec_out accepted t_logits (some d_logits) target draft')

  -- The loop over the draft's tokens from index `k_idx` on; `last` is the draft's last token.
  unfoldable pub verify_loop :
      (k k_idx last : ℕ) → List ℕ → Session → Session → List Logit → List ℕ → Option SpecOut
  unfolding reject accept_all
  verify_loop k k_idx last [] target draft t_logits accepted =
      accept_all last target draft t_logits accepted
  verify_loop k k_idx last (d ∷ ds) target draft t_logits accepted =
      let go_on = decode_step target d >>= λ (target', t_logits').
      verify_loop k (k_idx + 1) last ds target' draft t_logits' (accepted ++ (d ∷ [])) in
      if argmax t_logits == d then go_on else reject k k_idx target draft t_logits accepted

  unfoldable pub spec_step : Session → Session → List Logit → List Logit → ℕ → Option SpecOut
  unfolding draft_loop verify_loop
  spec_step target draft target_logits draft_logits k =
      let first = argmax draft_logits in
      draft_loop (k - 1) draft first >>= λ (ts, draft').
      verify_loop k 0 (last_of first ts) (first ∷ ts) target draft' target_logits []
