-- ===== src/Queue/Samples.antt =====
-- Queues for the tests: the empty directories, and one queued task.
use oh_my_github_runner.Prelude.{◌≡◌, refl, some, none, [], text_discrete}
use oh_my_github_runner.Prelude.Assoc.{lookup, insert, erase}
use oh_my_github_runner.Task.{
  TaskRecord, TaskStatus, TaskStatus-discrete, queued, running, succeeded, failed, superseded,
}
use oh_my_github_runner.Task.Samples.{sample_input, sample_task}
use oh_my_github_runner.Queue.{
  require_from_status, try_read_task_file, relocate, relocate_rewrite, remove_file, rename, Store,
  find, write_file, write_task_file,
}
use oh_my_github_runner.Queue.Consistency.{Consistent, view}
use oh_my_github_runner.Queue.Transitions.{started, start_task}
use oh_my_github_runner.Queue.Refinement.{Moves-Consistent, start_task-Moves}
use oh_my_github_runner.Queue.Listing.{enqueue}
use oh_my_github_runner.Queue.Fifo.{enqueue-Consistent}

abbrev pub empty : Store
empty = record { dir = λ status. []; corrupt_dir = []; last_created_at = 0 }

pub empty-Consistent : Consistent empty
unfolding find lookup
empty-Consistent = record { named = λ at j t h. cc; alone = λ a b j f g h h'. cc }

pub empty_fresh : (at : TaskStatus) → find at "t1" empty ≡ none
unfolding find lookup
empty_fresh at = refl

-- One queued task.
abbrev pub one : Store
one = (enqueue (sample_input "issue-implement") "t1" 100 empty).1

pub one-Consistent : Consistent one
one-Consistent =
    enqueue-Consistent (sample_input "issue-implement") "t1" 100 empty empty-Consistent empty_fresh

-- A second id is free.
pub fresh_again : (at : TaskStatus) → find at "t2" one ≡ none
unfolding find enqueue write_task_file write_file lookup insert TaskStatus-discrete text_discrete
fresh_again queued = refl
fresh_again running = refl
fresh_again succeeded = refl
fresh_again failed = refl
fresh_again superseded = refl

-- The same task, running.
abbrev pub active : Store
active = (start_task "t1" 110 one).1

pub active-Consistent : Consistent active
active-Consistent = Moves-Consistent (start_task-Moves "t1" 110 one one-Consistent)

abbrev pub task : TaskRecord
task = started 110 (sample_task "t1" "issue-implement" queued 100)

pub active-task : view active "t1" ≡ some task
unfolding find enqueue start_task require_from_status try_read_task_file relocate relocate_rewrite
    rename write_task_file write_file remove_file lookup insert erase TaskStatus-discrete
    text_discrete
active-task = refl
