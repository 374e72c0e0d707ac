-- ===== src/Queue/Transitions.antt =====
-- The status transitions of file-queue-store.ts: start, complete, revert, supersede.
use oh_my_github_runner.Prelude.{ℕ, String, Option, none, some}
use oh_my_github_runner.Prelude.Action.{Action, err, not_queued, ◌>>=◌}
use oh_my_github_runner.Task.{
  TaskStatus, queued, running, succeeded, failed, superseded, TaskRecord,
}
use oh_my_github_runner.Queue.{Store, try_read_task_file, or_throw, require_from_status, relocated}

abbrev pub started : ℕ → TaskRecord → TaskRecord
started now task = record task {
  status = running;
  started_at = some now;
  finished_at = none;
  error_summary = none;
}

unfoldable pub start_task : String → ℕ → Action Store TaskRecord
start_task task_id now = do
  task ← require_from_status queued task_id now
  relocated (started now task) queued now

pub data Completion : Type 0 where
  completed : Completion
  completed_failed : Option String → Completion

abbrev pub completion_status : Completion → TaskStatus
completion_status completed = succeeded
completion_status (completed_failed _) = failed

abbrev pub completion_error : Completion → Option String
completion_error completed = none
completion_error (completed_failed summary) = summary

abbrev pub finished : ℕ → Completion → TaskRecord → TaskRecord
finished now input task = record task {
  status = completion_status input;
  finished_at = some now;
  error_summary = completion_error input;
}

unfoldable pub complete_task : String → Completion → ℕ → Action Store TaskRecord
complete_task task_id input now = do
  task ← require_from_status running task_id now
  relocated (finished now input task) running now

abbrev pub requeued : TaskRecord → TaskRecord
requeued task = record task {
  status = queued;
  started_at = none;
  finished_at = none;
  error_summary = none;
}

unfoldable pub revert_to_queued : String → ℕ → Action Store TaskRecord
revert_to_queued task_id now = do
  task ← require_from_status running task_id now
  relocated (requeued task) running now

abbrev pub replaced : ℕ → String → TaskRecord → TaskRecord
replaced now by task = record task {
  status = superseded;
  superseded_by = some by;
  finished_at = some now;
  error_summary = none;
}

unfoldable pub require_queued : String → ℕ → Action Store TaskRecord
require_queued task_id now s =
    or_throw (try_read_task_file queued task_id now s) (err (not_queued task_id))

unfoldable pub mark_superseded : String → String → ℕ → Action Store TaskRecord
unfolding require_queued
mark_superseded task_id superseded_by now = do
  task ← require_queued task_id now
  relocated (replaced now superseded_by task) queued now
