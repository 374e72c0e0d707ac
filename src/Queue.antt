-- ===== src/Queue.antt =====
-- src/infra/queue/file-queue-store.ts: the task queue on disk, one directory to a status and one
-- JSON file to a task. Files of other kinds (the .tmp files of the atomic writes) are not listed by
-- any operation and are left out. The clock and a fresh task id are arguments.
pub mod Transitions
pub mod Listing
pub mod Files
pub mod Consistency
pub mod Refinement
pub mod Reads
pub mod Scan
pub mod Fifo
pub mod Sweeps
pub mod Recovery
pub mod Pruning
pub mod Crash
pub mod Samples
mod Tests
use oh_my_github_runner.Prelude.{
  ℕ, suc, ◌+◌, String, Bool, true, false, Option, none, some, List, [], ◌∷◌, ◌++◌, ltb, leb, ite,
  if◌then◌else◌, keep, length, ◌==◌,
}
use oh_my_github_runner.Prelude.Assoc.{Assoc, lookup, insert, erase, keys}
use oh_my_github_runner.Prelude.Action.{Action, Result, ok, err, task_not_found, not_queued, ◌>>=◌}
use oh_my_github_runner.Task.{
  TaskStatus, queued, running, succeeded, failed, superseded, task_statuses, TaskRecord,
  TaskNotifications, QueueTaskInput, RepoRef, SourceRef, normal, has_same_source,
  TaskStatus-discrete,
}

-- What `JSON.parse` makes of a file.
pub data Content : Type 0 where
  json : TaskRecord → Content
  corrupt : Content

pub record File : Type 0 where
  pub content : Content
  pub modified : ℕ

pub record Quarantined : Type 0 where
  pub status : TaskStatus
  pub task_id : String
  pub stamp : ℕ

pub record Store : Type 0 where
  pub dir : TaskStatus → Assoc File
  pub corrupt_dir : List Quarantined
  pub last_created_at : ℕ

pub find : TaskStatus → String → Store → Option File
find status task_id s = lookup task_id (s.dir status)

-- The record in the file of a task, if the file is there and not corrupt.
abbrev pub parsed : Option File → Option TaskRecord
parsed none = none
parsed (some f) = elim f.content [ json t ↦ some t | corrupt ↦ none ]

abbrev pub record_at : TaskStatus → String → Store → Option TaskRecord
record_at status task_id s = parsed (find status task_id s)

pub set_dir : TaskStatus → Assoc File → Store → Store
set_dir status d s = record s {
  dir = λ other. ite (TaskStatus-discrete status other) d (s.dir other);
}

pub write_file : TaskStatus → String → File → Store → Store
unfolding set_dir
write_file status task_id f s = set_dir status (insert task_id f (s.dir status)) s

pub remove_file : TaskStatus → String → Store → Store
unfolding set_dir
remove_file status task_id s = set_dir status (erase task_id (s.dir status)) s

-- `rename` of a file into another directory.
pub rename : TaskStatus → TaskStatus → String → Store → Store
rename from to task_id s = elim (find from task_id s) [
  | none ↦ s
  | some f ↦ write_file to task_id f (remove_file from task_id s)
]

abbrev pub file_of : TaskRecord → ℕ → File
file_of task now = record { content = json task; modified = now }

pub write_task_file : TaskRecord → ℕ → Store → Store
write_task_file task now = write_file task.status task.task_id (file_of task now)

-- The first step of `relocate`: the new content at the old place.
pub relocate_rewrite : TaskRecord → TaskStatus → ℕ → Store → Store
relocate_rewrite task from now = write_file from task.task_id (file_of task now)

pub relocate : TaskRecord → TaskStatus → ℕ → Store → Store
unfolding relocate_rewrite
relocate task from now s =
    let written = relocate_rewrite task from now s in
    ite (TaskStatus-discrete from task.status) written
      (rename from task.status task.task_id written)

quarantine_corrupt_file : TaskStatus → String → ℕ → Store → Store
quarantine_corrupt_file status task_id now s =
    let entry : Quarantined = record { status = status; task_id = task_id; stamp = now } in
    record (remove_file status task_id s) { corrupt_dir = entry ∷ s.corrupt_dir }

-- A corrupt file is moved aside, and reads as a missing one.
pub try_read_task_file : TaskStatus → String → ℕ → Store → Option TaskRecord × Store
unfolding quarantine_corrupt_file
try_read_task_file status task_id now s = elim (find status task_id s) [
  | none ↦ (none, s)
  | some f ↦ elim f.content [
    | json t ↦ (some t, s)
    | corrupt ↦ (none, quarantine_corrupt_file status task_id now s)
  ]
]

abbrev pub or_throw : Option TaskRecord × Store → Result TaskRecord → Result TaskRecord × Store
or_throw (none, s) e = (e, s)
or_throw (some t, s) e = (ok t, s)

unfoldable pub require_from_status : TaskStatus → String → ℕ → Action Store TaskRecord
require_from_status status task_id now s =
    or_throw (try_read_task_file status task_id now s) (err (task_not_found task_id))

abbrev pub relocated : TaskRecord → TaskStatus → ℕ → Action Store TaskRecord
relocated task from now s = (ok task, relocate task from now s)
