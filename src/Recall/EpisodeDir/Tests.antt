-- ===== src/Recall/EpisodeDir/Tests.antt =====
-- A disk on which an episode has moved.
use kairos_engine.Base.{ℕ, ◌≡◌, refl, Bool, none, some, List, list_beq}
use kairos_engine.Base.Text.{codes, trim, trim_start, trim_end}
use kairos_engine.Recall.EpisodeDir.{
  moved_to, cold_at, resolve_episode_dir, ep_basename, trim_seps, last_part,
}

abbrev is_dir : List ℕ → Bool
is_dir path = list_beq path (codes "/new/ep1")

abbrev ep_key : List ℕ → List ℕ
ep_key base = base

abbrev moved : List ℕ → Bool
moved base = list_beq base (codes "ep1")

-- A path of Windows under a root with a separator at its end.
test-moved :
    resolve_episode_dir is_dir ep_key moved (codes "D:\\old\\ep1\\") (some (codes " /new/ ")) none
    ≡ moved_to (codes "/new/ep1")
unfolding resolve_episode_dir ep_basename trim_seps last_part list_beq trim trim_start trim_end
test-moved = refl

test-cold :
    resolve_episode_dir is_dir ep_key moved (codes "/old/ep1") none (some (codes "/new"))
    ≡ cold_at (codes "/new/ep1")
unfolding resolve_episode_dir ep_basename trim_seps last_part list_beq trim trim_start trim_end
test-cold = refl
