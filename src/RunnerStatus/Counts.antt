-- ===== src/RunnerStatus/Counts.antt =====
-- The status page against the queue and the scheduler.
use oh_my_github_runner.Prelude.{
  ite, ℕ, ◌+◌, String, ◌≡◌, refl, ◌∙◌, List, [], ◌∷◌, ◌++◌, map, arith, includes, includes-append,
  keep, length, ◌||◌, Bool-cases, inl, inr, if◌then◌else◌,
}
use oh_my_github_runner.Task.{
  TaskStatus, TaskRecord, queued, running, succeeded, failed, superseded, has_status,
  TaskStatus-discrete,
}
use oh_my_github_runner.Scheduling.{claimed}
use oh_my_github_runner.Queue.{Store}
use oh_my_github_runner.Queue.Listing.{list_tasks}
use oh_my_github_runner.RunnerStatus.{
  TaskCounts, count_one, no_tasks, count_tasks, get_status, tool_entry,
}

abbrev pub count_of : TaskStatus → TaskCounts → ℕ
count_of queued c = c.in_queue
count_of running c = c.in_progress
count_of succeeded c = c.done
count_of failed c = c.broken
count_of superseded c = c.replaced

module _ (tools_for_task : TaskRecord → List String) where
  count_one-count :
      (st at : TaskStatus) (c : TaskCounts)
      → count_of at (count_one st c) ≡ count_of at c + ite (TaskStatus-discrete st at) 1 0
  unfolding TaskStatus-discrete
  count_one-count st at c = ground (arith, st, at)

  bumped :
      (t : TaskRecord) (ts : List TaskRecord) (counts : TaskCounts) (st : TaskStatus)
      → count_of st (count_one t.status counts) + length (keep (has_status st) ts)
        ≡ count_of st counts + length (keep (has_status st) (t ∷ ts))
  bumped t ts counts st = ground (arith, count_one-count t.status st counts)

  count_tasks-count :
      (ts : List TaskRecord) (counts : TaskCounts) (busy_tools : List String) (st : TaskStatus)
      → count_of st (count_tasks tools_for_task ts counts busy_tools).0
        ≡ count_of st counts + length (keep (has_status st) ts)
  unfolding count_tasks
  count_tasks-count [] counts busy_tools st = omega arith
  count_tasks-count (t ∷ ts) counts busy_tools st =
      let rest =
        count_tasks-count ts (count_one t.status counts)
          (if has_status running t then busy_tools ++ tools_for_task t else busy_tools) st in
      rest ∙ bumped t ts counts st

  busier :
      (t : TaskRecord) (ts : List TaskRecord) (busy_tools : List String) (tool : String)
      → (includes tool (if has_status running t then busy_tools ++ tools_for_task t else busy_tools)
          || includes tool (claimed tools_for_task (keep (has_status running) ts)))
        ≡ (includes tool busy_tools
            || includes tool (claimed tools_for_task (keep (has_status running) (t ∷ ts))))
  busier t ts busy_tools tool = elim (Bool-cases (has_status running t)) [
    | inl e ↦ rw e (
        ground (
          arith,
          includes-append tool busy_tools (tools_for_task t),
          includes-append tool (tools_for_task t)
              (claimed tools_for_task (keep (has_status running) ts)),
        ))
    | inr e ↦ rw e refl
  ]

  no_count : (st : TaskStatus) (n : ℕ) → count_of st no_tasks + n ≡ n
  no_count queued n = omega arith
  no_count running n = omega arith
  no_count succeeded n = omega arith
  no_count failed n = omega arith
  no_count superseded n = omega arith

  count_tasks-busy :
      (ts : List TaskRecord) (counts : TaskCounts) (busy_tools : List String) (tool : String)
      → includes tool (count_tasks tools_for_task ts counts busy_tools).1 ≡ (
          includes tool busy_tools
          || includes tool (claimed tools_for_task (keep (has_status running) ts)))
  unfolding count_tasks includes
  count_tasks-busy [] counts busy_tools tool = ground arith
  count_tasks-busy (t ∷ ts) counts busy_tools tool =
      count_tasks-busy ts (count_one t.status counts)
        (if has_status running t then busy_tools ++ tools_for_task t else busy_tools) tool
      ∙ busier t ts busy_tools tool

  map-tool_status :
      (busy_tools registered_tools : List String) (h : List String)
      → ((tool : String) → includes tool busy_tools ≡ includes tool h)
      → map (tool_entry busy_tools) registered_tools ≡ map (tool_entry h) registered_tools
  map-tool_status busy_tools [] h same = refl
  map-tool_status busy_tools (tool ∷ tools) h same =
      ground (arith, same tool, map-tool_status busy_tools tools h same)

  -- The status page counts the listed tasks of each status, and shows a registered tool as busy
  -- exactly when a running task claims it from the scheduler.
  pub get_status_agrees :
      (registered_tools : List String) (now : ℕ) (s : Store)
      → let tasks = (list_tasks now s).0 in
        ((st : TaskStatus)
          → count_of st (get_status tools_for_task registered_tools now s).0.tasks
            ≡ length (keep (has_status st) tasks))
        × ((get_status tools_for_task registered_tools now s).0.runners
            ≡ map
                (tool_entry (claimed tools_for_task (keep (has_status running) tasks)))
                registered_tools)
  unfolding get_status includes
  get_status_agrees registered_tools now s = (
    λ st. count_tasks-count (list_tasks now s).0 no_tasks [] st ∙ no_count st _,
    map-tool_status _ registered_tools _
        (λ tool. count_tasks-busy (list_tasks now s).0 no_tasks [] tool),
  )
