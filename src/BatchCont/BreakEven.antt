-- ===== src/BatchCont/BreakEven.antt =====
-- The thresholds of batch_cont_prefill.rs against the costs that its comments state.
use kairos_engine.Base.{ℕ, ◌+◌, ◌*◌, ◌<◌, ◌≡◌, ◌↔◌, Bool, true, false, arith}
use kairos_engine.BatchCont.{
  min_suffix, batch_ms_per_tok, pertok_ms_per_tok, snap_overhead_ms, suffix_ms_per_tok,
  suffix_snap_ms, full_rebatch_wins, suffix_batch_wins, want_batch_cont_gated,
}

-- What the comments take a full re-batch, a suffix batch and a per-token prefill to cost, in ms.
abbrev pub full_rebatch_cost : ℕ → ℕ → ℕ
full_rebatch_cost p n = batch_ms_per_tok * (p + n) + snap_overhead_ms

abbrev pub suffix_batch_cost : ℕ → ℕ
suffix_batch_cost n = suffix_ms_per_tok * n + suffix_snap_ms

abbrev pub per_token_cost : ℕ → ℕ
per_token_cost n = pertok_ms_per_tok * n

-- The full re-batch is taken exactly on a warm turn whose suffix is longer than the floor of 64
-- tokens and for which the re-batch of prefix and suffix costs less than the per-token prefill of
-- the suffix.
pub full_rebatch_wins_iff :
    (p n : ℕ)
    → (full_rebatch_wins p n ≡ true)
      ↔ ((0 < p) × (min_suffix < n) × (full_rebatch_cost p n < per_token_cost n))
unfolding full_rebatch_wins
full_rebatch_wins_iff p n = ground arith

-- The suffix batch is taken exactly on a warm turn whose suffix is longer than the floor of 64
-- tokens, and then it costs less than the per-token prefill.
pub suffix_batch_wins_iff :
    (p n : ℕ)
    → ((suffix_batch_wins p n ≡ true) ↔ ((0 < p) × (min_suffix < n)))
      × (suffix_batch_wins p n ≡ true → suffix_batch_cost n < per_token_cost n)
unfolding suffix_batch_wins
suffix_batch_wins_iff p n = (ground arith, ground arith)

-- The gated dispatch batches only when its flag is on, more than one token is entered at a time,
-- the turn is warm and the suffix is longer than 64 tokens; and arming the suffix arm never turns
-- a batched dispatch off.
pub want_batch_cont_gated_guards :
    (flag suffix single : Bool) (p n : ℕ)
    → want_batch_cont_gated flag suffix single p n ≡ true
    → (flag ≡ true)
      × (single ≡ false)
      × (0 < p)
      × (min_suffix < n)
      × (want_batch_cont_gated flag true single p n ≡ true)
unfolding want_batch_cont_gated
want_batch_cont_gated_guards flag suffix single p n h = ground arith
