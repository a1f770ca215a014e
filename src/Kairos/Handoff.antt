-- ===== src/Kairos/Handoff.antt =====
-- The handoff types of kairos.rs: what a task resumes from, and the orchestration primitives. No
-- operation of the file works on them yet. `Workflow` holds lists of itself, `Workflows` here.
use kairos_engine.Base.{ℕ, Bool, List}

-- A string is its list of code points.
pub record EpisodePtr : Type 0 where
  pub manifest_path : List ℕ
  pub n_layers : ℕ

pub data PriorityClass : Type 0 where
  realtime : PriorityClass
  interactive : PriorityClass
  background : PriorityClass
  batch : PriorityClass

pub data GoalCond : Type 0 where
  always : GoalCond
  never : GoalCond
  predicate : List ℕ → GoalCond

pub record SessionHandoff : Type 0 where
  pub episode_manifest : EpisodePtr
  pub episode_store : List ℕ
  pub ring_coords : List (ℕ × ℕ × ℕ)
  pub fs_pointer : List (List ℕ)
  pub priority : PriorityClass
  pub goal : GoalCond

pub data TaskState : Type 0 where
  pending : TaskState
  running : ℕ → TaskState
  yielded : SessionHandoff → TaskState
  blocked : GoalCond → TaskState
  finished : List ℕ → TaskState
  failed : List ℕ → TaskState

mutual
  pub data Workflow : Type 0 where
    agent : TaskState → Workflow
    parallel : Workflows → Bool → Workflow
    pipeline : Workflows → Workflow
    sub : List ℕ → Workflow

  pub data Workflows : Type 0 where
    no_more : Workflows
    and_more : Workflow → Workflows → Workflows
