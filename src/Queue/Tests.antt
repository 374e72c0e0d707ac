-- ===== src/Queue/Tests.antt =====
-- Runs of the queue on disk, from the empty directories.
use oh_my_github_runner.Prelude.{
  ◌≤◌, String, ◌≡◌, refl, some, [], ◌∷◌, ◌++◌, arith, text_discrete, All, Disjoint,
}
use oh_my_github_runner.Prelude.Assoc.{lookup, insert}
use oh_my_github_runner.Prelude.Action.{task_not_found, not_queued}
use oh_my_github_runner.Task.{TaskStatus-discrete, TaskRecord, queued, running}
use oh_my_github_runner.Task.Samples.{sample_input, sample_task}
use oh_my_github_runner.Strategies.{tools_for_task}
use oh_my_github_runner.Scheduling.{select_tasks}
use oh_my_github_runner.Queue.{Store, find, record_at, write_file, write_task_file}
use oh_my_github_runner.Queue.Samples.{one, one-Consistent, fresh_again, active, active-Consistent}
use oh_my_github_runner.Queue.Consistency.{view}
use oh_my_github_runner.Queue.Transitions.{
  started, finished, completed, requeued, replaced, start_task, complete_task, revert_to_queued,
  mark_superseded,
}
use oh_my_github_runner.Queue.Refinement.{
  Moves, start_task-Moves, complete_task-Moves, revert_to_queued-Moves, mark_superseded-Moves,
}
use oh_my_github_runner.Queue.Listing.{enqueue, list_in_status, list_tasks}
use oh_my_github_runner.Queue.Fifo.{enqueue_fifo}
use oh_my_github_runner.Queue.Sweeps.{recover_running_tasks}
use oh_my_github_runner.Queue.Recovery.{view-recover, recovered_record}
use oh_my_github_runner.Queue.Crash.{stopped_start_blocks, restarted}

start_task-Moves_example :
    Moves queued (started 110) (task_not_found "t1") "t1" one (start_task "t1" 110 one)
start_task-Moves_example = start_task-Moves "t1" 110 one one-Consistent

complete_task-Moves_example :
    Moves running
      (finished 120 completed)
      (task_not_found "t1")
      "t1"
      active
      (complete_task "t1" completed 120 active)
complete_task-Moves_example = complete_task-Moves "t1" completed 120 active active-Consistent

revert_to_queued-Moves_example :
    Moves running requeued (task_not_found "t1") "t1" active (revert_to_queued "t1" 120 active)
revert_to_queued-Moves_example = revert_to_queued-Moves "t1" 120 active active-Consistent

-- A running task is not superseded.
mark_superseded-Moves_example :
    Moves queued
      (replaced 120 "t2")
      (not_queued "t1")
      "t1"
      active
      (mark_superseded "t1" "t2" 120 active)
mark_superseded-Moves_example = mark_superseded-Moves "t1" "t2" 120 active active-Consistent

abbrev sample_task_1 : TaskRecord
sample_task_1 = sample_task "t1" "issue-implement" queued 100

one_record : record_at queued "t1" one ≡ some (sample_task_1)
unfolding find enqueue write_task_file write_file lookup insert TaskStatus-discrete text_discrete
one_record = refl

old_times :
    (j : String) (t : TaskRecord)
    → record_at queued j one ≡ some t
    → t.created_at ≤ one.last_created_at
unfolding find enqueue write_task_file write_file lookup insert TaskStatus-discrete
old_times j t e = ground arith

enqueue_fifo_example :
    let later : Store = (enqueue (sample_input "issue-implement") "t2" 100 one).1 in
    (list_in_status queued 130 later).0
    ≡ (list_in_status queued 130 one).0
      ++ (enqueue (sample_input "issue-implement") "t2" 100 one).0 ∷ []
enqueue_fifo_example =
    enqueue_fifo (sample_input "issue-implement") "t2" 100 one one-Consistent fresh_again 130
      old_times

view-recover_example :
    view (recover_running_tasks "stopped" 200 active) "t1"
    ≡ recovered_record "stopped" 200 (view active "t1")
view-recover_example = view-recover "stopped" 200 active active-Consistent "t1"

stopped_start_blocks_example :
    All
      (λ u. Disjoint (tools_for_task (started 110 sample_task_1)) (tools_for_task u))
      (select_tasks tools_for_task
        (list_tasks 300
          (restarted one one-Consistent "t1" sample_task_1 one_record 110 "stopped" 200)).0
        3
        [])
stopped_start_blocks_example =
    stopped_start_blocks one one-Consistent "t1" sample_task_1 one_record 110 "stopped" 200
      tools_for_task 300 3 []
