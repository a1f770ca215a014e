-- ===== src/Recall/EpisodeDir.antt =====
-- Where the directory of an episode is (tools/sp_daemon/src/recall.rs, `resolve_episode_dir`). The
-- file system, the move ledger and the folding of case on Windows are arguments.
pub mod Resolved
mod Tests
use kairos_engine.Base.{
  ℕ, zero, suc, Bool, true, false, ◌&&◌, ◌||◌, not, Option, none, some, List, [], ◌∷◌, ◌++◌, ◌==◌,
  if◌then◌else◌,
}
use kairos_engine.Base.Text.{codes, trim}

pub data EpisodeDir : Type 0 where
  as_written : EpisodeDir
  moved_to : List ℕ → EpisodeDir
  cold_at : List ℕ → EpisodeDir
  missing : EpisodeDir

abbrev pub is_sep : ℕ → Bool
is_sep c = c == 47 || c == 92

-- `trim_end_matches(['/', '\\'])`
abbrev pub sep_cons : ℕ → List ℕ → List ℕ
sep_cons c [] = if is_sep c then [] else c ∷ []
sep_cons c (d ∷ ds) = c ∷ d ∷ ds

unfoldable pub trim_seps : List ℕ → List ℕ
trim_seps [] = []
trim_seps (c ∷ cs) = sep_cons c (trim_seps cs)

abbrev pub any_sep : List ℕ → Bool
any_sep [] = false
any_sep (c ∷ cs) = is_sep c || any_sep cs

-- The first part of an `rsplit` at the separators.
unfoldable pub last_part : List ℕ → List ℕ
last_part [] = []
last_part (c ∷ cs) =
    let rest = last_part cs in if any_sep cs then rest else if is_sep c then cs else c ∷ cs

abbrev pub nonempty : List ℕ → Option (List ℕ)
nonempty [] = none
nonempty (c ∷ cs) = some (c ∷ cs)

unfoldable pub ep_basename : List ℕ → Option (List ℕ)
unfolding trim_seps last_part
ep_basename dir = nonempty (last_part (trim_seps dir))

-- A root as it is configured, without its trailing separators.
abbrev pub norm_root : Option (List ℕ) → List ℕ
norm_root none = []
norm_root (some r) = trim_seps (trim r)

abbrev pub is_empty : List ℕ → Bool
is_empty [] = true
is_empty (c ∷ cs) = false

-- `format!("{}/{}", root, base)`
abbrev pub joined : List ℕ → List ℕ → List ℕ
joined root base = root ++ (47 ∷ base)

module _ (is_dir : List ℕ → Bool) (ep_key : List ℕ → List ℕ) (moved : List ℕ → Bool) where
  abbrev pub look_cold : List ℕ → List ℕ → EpisodeDir
  look_cold cold base =
      if not (is_empty cold) && moved (ep_key base)
      then (if is_dir (joined cold base) then cold_at (joined cold base) else missing)
      else missing

  abbrev pub look_up : List ℕ → List ℕ → Option (List ℕ) → EpisodeDir
  look_up hot cold none = missing
  look_up hot cold (some base) =
      if not (is_empty hot) && is_dir (joined hot base)
      then moved_to (joined hot base)
      else look_cold cold base

  unfoldable pub resolve_episode_dir : List ℕ → Option (List ℕ) → Option (List ℕ) → EpisodeDir
  unfolding ep_basename trim trim_seps
  resolve_episode_dir dir eps_root cold_root =
      if is_empty dir || is_dir dir
      then as_written
      else look_up (norm_root eps_root) (norm_root cold_root) (ep_basename dir)
