-- ===== src/Scheduling.antt =====
-- src/domain/rules/scheduling.ts and src/services/scheduler-service.ts: which queued tasks a tick
-- starts. A strategy's tools are an argument, as `toolsForTask` is in the source.
pub mod Selection
pub mod Exclusion
mod Tests
use oh_my_github_runner.Prelude.{
  ℕ, zero, suc, ◌-◌, String, List, [], ◌∷◌, ◌++◌, ◌||◌, map, length, keep, any, meets, includes,
  leb, if◌then◌else◌,
}
use oh_my_github_runner.Task.{TaskRecord, has_status, queued, running, TaskStatus-discrete}

abbrev pub global_tools : List String
global_tools = "github" ∷ []

module _ (tools_for_task : TaskRecord → List String) where
  -- The tools of the running tasks.
  abbrev pub claimed : List TaskRecord → List String
  claimed [] = []
  claimed (t ∷ ts) = tools_for_task t ++ claimed ts

  -- The loop over the queued tasks: `slots` are left, and `in_flight` tools are taken.
  pub pick : List String → ℕ → List String → List TaskRecord → List TaskRecord
  pick paused slots in_flight [] = []
  pick paused zero in_flight (t ∷ ts) = []
  pick paused (suc slots) in_flight (t ∷ ts) =
      let skipped = pick paused (suc slots) in_flight ts in
      let taken = t ∷ pick paused slots (in_flight ++ tools_for_task t) ts in
      if meets (tools_for_task t) paused || meets (tools_for_task t) in_flight
      then skipped
      else taken

  -- The tasks whose ids `selectNextTasks` returns.
  pub select_tasks : List TaskRecord → ℕ → List String → List TaskRecord
  select_tasks tasks max_concurrency paused =
      let active = keep (has_status running) tasks in
      if any (λ tool. includes tool paused) global_tools
      then []
      else if leb max_concurrency (length active)
      then []
      else pick paused (max_concurrency - length active) (claimed active)
          (keep (has_status queued) tasks)

  unfoldable pub select_next_tasks : List TaskRecord → ℕ → List String → List String
  unfolding select_tasks
  select_next_tasks tasks max_concurrency paused =
      map (λ t. t.task_id) (select_tasks tasks max_concurrency paused)
