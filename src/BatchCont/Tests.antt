-- ===== src/BatchCont/Tests.antt =====
-- Runs of batch_cont_prefill.rs at the inputs of its own tests.
use kairos_engine.Base.{◌≡◌, refl, true, false, none, some}
use kairos_engine.BatchCont.{
  full_rebatch_wins, full_rebatch_min_suffix, suffix_batch_min_suffix, want_batch_cont_gated,
  want_batch_cont,
}

rebatch_at_2500 : full_rebatch_wins 2500 488 ≡ false
unfolding full_rebatch_wins
rebatch_at_2500 = refl

rebatch_past_2500 : full_rebatch_wins 2500 489 ≡ true
unfolding full_rebatch_wins
rebatch_past_2500 = refl

short_prefix_floor : full_rebatch_min_suffix 100 ≡ 64
unfolding full_rebatch_min_suffix
short_prefix_floor = refl

suffix_floor : suffix_batch_min_suffix ≡ 64
unfolding suffix_batch_min_suffix
suffix_floor = refl

gated_at_6700 : want_batch_cont_gated true true false 6700 200 ≡ true
unfolding want_batch_cont_gated
gated_at_6700 = refl

env_off : want_batch_cont (some "true") none false 6700 5000 ≡ false
unfolding want_batch_cont
env_off = refl
