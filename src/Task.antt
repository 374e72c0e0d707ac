-- ===== src/Task.antt =====
-- src/domain: the task record and its parts, and the test for one source.
pub mod Samples
use oh_my_github_runner.Prelude.{
  ℕ, String, Bool, Option, List, [], ◌∷◌, ◌&&◌, text_discrete, ℕ_discrete, is,
}

pub data TaskStatus : Type 0 where
  queued running succeeded failed superseded : TaskStatus

-- The order in which the store scans its directories.
abbrev pub task_statuses : List TaskStatus
task_statuses = queued ∷ running ∷ succeeded ∷ failed ∷ superseded ∷ []

pub data SourceKind : Type 0 where
  issue pull_request : SourceKind

pub data TaskPriority : Type 0 where
  normal : TaskPriority

pub record RepoRef : Type 0 where
  pub owner : String
  pub name : String

pub record SourceRef : Type 0 where
  pub kind : SourceKind
  pub number : ℕ

pub record StickyCommentRef : Type 0 where
  pub repo : RepoRef
  pub issue_number : ℕ
  pub comment_id : ℕ

pub data TriggerTarget : Type 0 where
  issue_target : ℕ → TriggerTarget
  comment_target : ℕ → TriggerTarget

pub record TriggerReactionRef : Type 0 where
  pub target : TriggerTarget
  pub reaction_id : ℕ

pub record TaskNotifications : Type 0 where
  pub sticky : Option StickyCommentRef
  pub trigger : Option TriggerReactionRef

-- Times are milliseconds since the epoch; the files hold them as ISO texts.
pub record TaskRecord : Type 0 where
  pub task_id : String
  pub repo : RepoRef
  pub source : SourceRef
  pub instruction_id : String
  pub additional_instructions : Option String
  pub status : TaskStatus
  pub priority : TaskPriority
  pub requested_by : String
  pub created_at : ℕ
  pub started_at : Option ℕ
  pub finished_at : Option ℕ
  pub error_summary : Option String
  pub superseded_by : Option String
  pub notifications : Option TaskNotifications

pub record QueueTaskInput : Type 0 where
  pub task_id : Option String
  pub repo : RepoRef
  pub source : SourceRef
  pub instruction_id : String
  pub additional_instructions : Option String
  pub requested_by : String
  pub priority : Option TaskPriority
  pub notifications : Option TaskNotifications

unfoldable pub TaskStatus-discrete : Discrete TaskStatus
TaskStatus-discrete = hlevel

unfoldable pub SourceKind-discrete : Discrete SourceKind
SourceKind-discrete = hlevel

abbrev pub has_status : TaskStatus → TaskRecord → Bool
has_status s t = is (TaskStatus-discrete t.status s)

unfoldable pub has_same_source : RepoRef → SourceRef → RepoRef → SourceRef → Bool
has_same_source left_repo left_source right_repo right_source =
    is (text_discrete left_repo.owner right_repo.owner)
    && is (text_discrete left_repo.name right_repo.name)
    && is (SourceKind-discrete left_source.kind right_source.kind)
    && is (ℕ_discrete left_source.number right_source.number)
