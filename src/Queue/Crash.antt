-- ===== src/Queue/Crash.antt =====
-- A stop of the process between the two steps of `relocate`: the file of the task has its new
-- content and still stands under the old status.
use oh_my_github_runner.Prelude.{
  ℕ, String, ◌≡◌, refl, ◌∙◌, ◌≢◌, none, some, List, arith, ite, text_discrete, All,
  Member-append_left, All-Member, Member, Disjoint,
}
use oh_my_github_runner.Prelude.Action.{err, task_not_found}
use oh_my_github_runner.Task.{TaskStatus, queued, running, TaskRecord, TaskStatus-discrete}
use oh_my_github_runner.Queue.{
  Store, find, record_at, file_of, relocate_rewrite, require_from_status,
}
use oh_my_github_runner.Queue.Files.{find-write_file}
use oh_my_github_runner.Queue.Consistency.{try_read-none, Consistent, elsewhere}
use oh_my_github_runner.Queue.Transitions.{started, Completion, complete_task}
use oh_my_github_runner.Queue.Sweeps.{recover_running_tasks}
use oh_my_github_runner.Queue.Recovery.{recover_each-Outcome, Outcome, untouched, recovered}
use oh_my_github_runner.Queue.Listing.{list_in_status, list_tasks, list_statuses}
use oh_my_github_runner.Queue.Reads.{All-list, Member-list, record_at-list}
use oh_my_github_runner.Scheduling.{select_tasks}
use oh_my_github_runner.Scheduling.Exclusion.{Apart-busy, claimed_of, select-Apart}

module _ (s : Store) (c : Consistent s) (task_id : String) (t : TaskRecord)
    (waiting : record_at queued task_id s ≡ some t) (now : ℕ) where
  -- The disk after a stop in the middle of `startTask`.
  abbrev pub stopped : Store
  stopped = relocate_rewrite (started now t) queued now s

  find-stopped :
      (at : TaskStatus) (j : String)
      → find at j stopped
        ≡ ite
            (TaskStatus-discrete queued at)
            (ite (text_discrete t.task_id j) (some (file_of (started now t) now)) (find at j s))
            (find at j s)
  unfolding relocate_rewrite
  find-stopped at j = find-write_file queued t.task_id (file_of (started now t) now) s at j

  stopped_running :
      (record_at queued task_id stopped ≡ some (started now t))
      × (find running task_id stopped ≡ none)
  stopped_running = ground (
    arith,
    find-stopped queued task_id,
    find-stopped running task_id,
    elsewhere c queued running task_id t waiting (λ p. cc),
    c.named queued task_id t waiting,
  )

  module _ (summary : String) (boot : ℕ) where
    -- The disk after the next startup.
    abbrev pub restarted : Store
    restarted = recover_running_tasks summary boot stopped

    abbrev scan : List TaskRecord × Store
    scan = list_in_status running boot stopped

    -- The listing of `running` has only tasks that were running before.
    running_others : All (λ u. u.task_id ≢ task_id) scan.0
    running_others =
        All-list (λ u. u.task_id ≢ task_id) running boot stopped
          λ id u e same. ground (
            arith,
            find-stopped running id,
            c.named running id u,
            elsewhere c queued running task_id t waiting (λ p. cc),
          )

    from_Outcome :
        Outcome summary boot scan.0 scan.1 restarted task_id
        → (at : TaskStatus) → record_at at task_id restarted ≡ record_at at task_id stopped
    from_Outcome (untouched _ same) at =
        ground (arith, same at, record_at-list running boot stopped at task_id)
    from_Outcome (recovered u m e _) at =
        absurd (All-Member (λ v. v.task_id ≢ task_id) running_others m e)

    restarted_at : (at : TaskStatus) → record_at at task_id restarted ≡ record_at at task_id stopped
    unfolding recover_running_tasks
    restarted_at = from_Outcome (recover_each-Outcome summary boot scan.0 scan.1 task_id)

    -- After a stop between the two steps of `startTask`, startup recovery does not find the task:
    -- its file says `running` and stands under `queued`. `completeTask` of it throws.
    pub stopped_start_stays :
        (input : Completion) (later : ℕ)
        → (record_at queued task_id restarted ≡ some (started now t))
          × ((complete_task task_id input later restarted).0 ≡ err (task_not_found task_id))
    unfolding complete_task require_from_status
    stopped_start_stays input later = (
      restarted_at queued ∙ stopped_running.0,
      ground (
        arith,
        try_read-none running task_id later restarted,
        restarted_at running,
        stopped_running.1,
      ),
    )

    list-Member : (later : ℕ) → Member (started now t) (list_tasks later restarted).0
    unfolding list_tasks list_statuses
    list-Member later =
        Member-append_left
          (Member-list (started now t) queued task_id later restarted
            (restarted_at queued ∙ stopped_running.0))
          _

    -- After a stop between the two steps of `startTask`, and the recovery at the next start, the
    -- scheduler takes the task for a running one: no task that shares a tool with it is selected.
    pub stopped_start_blocks :
        (tools_for_task : TaskRecord → List String) (later max_concurrency : ℕ)
        (paused : List String)
        → All
            (λ u. Disjoint (tools_for_task (started now t)) (tools_for_task u))
            (select_tasks tools_for_task (list_tasks later restarted).0 max_concurrency paused)
    unfolding TaskStatus-discrete
    stopped_start_blocks tools_for_task later max_concurrency paused =
        Apart-busy tools_for_task _ _ _
          (claimed_of tools_for_task (started now t) (list_tasks later restarted).0
            (list-Member later) refl)
          (select-Apart tools_for_task (list_tasks later restarted).0 max_concurrency paused)
