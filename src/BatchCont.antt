-- ===== src/BatchCont.antt =====
-- tools/sp_daemon/src/batch_cont_prefill.rs: when a warm continuation is prefilled in a batch.
-- Lengths are `usize`; the model's numbers do not wrap, and the sums stay far below 2 ^ 64 for
-- every prompt length that fits in memory.
mod Tests
pub mod BreakEven
use kairos_engine.Base.{
  ℕ, ◌+◌, ◌-◌, ◌*◌, ◌/◌, ◌^◌, max, Bool, true, false, not, ◌&&◌, ◌||◌, ltb, ◌==◌, if◌then◌else◌,
  Option, none, some,
}
use Prim.Native.String.{String}
use text.Mathlib.Text.{◌==◌ as str_eq}

abbrev pub min_suffix : ℕ
min_suffix = 64

abbrev pub batch_ms_per_tok : ℕ
batch_ms_per_tok = 13

abbrev pub pertok_ms_per_tok : ℕ
pertok_ms_per_tok = 80

abbrev pub snap_overhead_ms : ℕ
snap_overhead_ms = 200

abbrev pub suffix_ms_per_tok : ℕ
suffix_ms_per_tok = 22

abbrev pub suffix_snap_ms : ℕ
suffix_snap_ms = 500

abbrev pub usize_max : ℕ
usize_max = 2 ^ 64 - 1

-- `val == Some("1")`
pub cont_flag_enabled : Option String → Bool
cont_flag_enabled none = false
cont_flag_enabled (some v) = str_eq v "1"

pub suffix_flag_enabled : Option String → Bool
suffix_flag_enabled none = false
suffix_flag_enabled (some v) = str_eq v "1"

pub suffix_batch_min_suffix : ℕ
suffix_batch_min_suffix =
    let denom = pertok_ms_per_tok - suffix_ms_per_tok in
    if denom == 0 then usize_max else max (suffix_snap_ms / denom) min_suffix

pub suffix_batch_wins : ℕ → ℕ → Bool
unfolding suffix_batch_min_suffix
suffix_batch_wins prefill_from suffix_len =
    ltb 0 prefill_from && ltb suffix_batch_min_suffix suffix_len

pub full_rebatch_min_suffix : ℕ → ℕ
full_rebatch_min_suffix prefill_from =
    let denom = pertok_ms_per_tok - batch_ms_per_tok in
    if denom == 0
    then usize_max
    else max ((batch_ms_per_tok * prefill_from + snap_overhead_ms) / denom) min_suffix

pub full_rebatch_wins : ℕ → ℕ → Bool
unfolding full_rebatch_min_suffix
full_rebatch_wins prefill_from suffix_len =
    if prefill_from == 0 then false else ltb (full_rebatch_min_suffix prefill_from) suffix_len

pub want_batch_cont_gated : Bool → Bool → Bool → ℕ → ℕ → Bool
unfolding suffix_batch_wins full_rebatch_wins
want_batch_cont_gated flag_on suffix_on single_entry prefill_from suffix_len =
    if not flag_on || single_entry
    then false
    else if suffix_on
    then suffix_batch_wins prefill_from suffix_len
    else full_rebatch_wins prefill_from suffix_len

-- `want_batch_cont`: the two environment variables are arguments.
pub want_batch_cont : Option String → Option String → Bool → ℕ → ℕ → Bool
unfolding want_batch_cont_gated cont_flag_enabled suffix_flag_enabled
want_batch_cont cont_env suffix_env single_entry prefill_from suffix_len =
    want_batch_cont_gated (cont_flag_enabled cont_env) (suffix_flag_enabled suffix_env) single_entry
      prefill_from suffix_len
