-- ===== src/Checkpoint.antt =====
-- src/infra/checkpoint/file-checkpoint-store.ts: the saved results of AI steps, one directory for a
-- task and in it one file for a step. The name of a step's file, a SHA-256 digest, is an argument.
-- The directory `corrupt` is a list of its own, so no task is named like it.
pub mod Laws
mod Tests
use oh_my_github_runner.Prelude.{
  ℕ, suc, ◌-◌, String, Option, none, some, List, [], ◌∷◌, if◌then◌else◌, includes, keep, length,
  ℕ_discrete, ite, not,
}
use oh_my_github_runner.Prelude.Assoc.{Assoc, lookup, insert, erase}
use oh_my_github_runner.Commands.{Text}

pub record CheckpointEntry : Type 0 where
  pub step_key : String
  pub fingerprint : String
  pub tool : String
  pub succeeded_at : String
  pub stdout : Text

abbrev pub checkpoint_version : ℕ
checkpoint_version = 1

-- A file: `JSON.parse` throws, the payload lacks a field, or it has all of them.
pub data Persisted : Type 0 where
  unparsed incomplete : Persisted
  persisted : ℕ → CheckpointEntry → Persisted

pub record Checkpoints : Type 0 where
  pub dirs : Assoc (Assoc Persisted)
  pub corrupt : List (String × String)

abbrev pub files_of : String → Assoc (Assoc Persisted) → Assoc Persisted
files_of task_id dirs = elim (lookup task_id dirs) [ none ↦ [] | some files ↦ files ]

module _ (step_filename : String → String) where
  unfoldable pub quarantine : String → String → Checkpoints → Checkpoints
  quarantine task_id step_key c = record {
    dirs = insert task_id (erase (step_filename step_key) (files_of task_id c.dirs)) c.dirs;
    corrupt = (task_id, step_filename step_key) ∷ c.corrupt;
  }

  unfoldable pub read_file :
      Option Persisted → String → String → Checkpoints → Option CheckpointEntry × Checkpoints
  read_file none task_id step_key c = (none, c)
  read_file (some unparsed) task_id step_key c = (none, quarantine task_id step_key c)
  read_file (some incomplete) task_id step_key c = (none, quarantine task_id step_key c)
  read_file (some (persisted version entry)) task_id step_key c =
      (ite (ℕ_discrete version checkpoint_version) (some entry) none, c)

  unfoldable pub read : String → String → Checkpoints → Option CheckpointEntry × Checkpoints
  read task_id step_key c =
      read_file (lookup (step_filename step_key) (files_of task_id c.dirs)) task_id step_key c

  unfoldable pub write : String → CheckpointEntry → Checkpoints → Checkpoints
  write task_id entry c = record c {
    dirs =
        insert task_id
          (insert (step_filename entry.step_key) (persisted checkpoint_version entry)
            (files_of task_id c.dirs))
          c.dirs;
  }

unfoldable pub drop : String → Checkpoints → Checkpoints
drop task_id c = record c { dirs = erase task_id c.dirs }

-- The directories of inactive tasks are removed, and counted.
unfoldable pub sweep : List String → Checkpoints → ℕ × Checkpoints
sweep active_task_ids c = (
  length (keep (λ e. not (includes e.0 active_task_ids)) c.dirs),
  record c { dirs = keep (λ e. includes e.0 active_task_ids) c.dirs },
)
