-- ===== src/RunnerStatus.antt =====
-- src/services/runner-status-service.ts: the counts of tasks and the tools in use, for the status
-- page. A strategy's tools are an argument, as in the source.
pub mod Counts
mod Tests
use oh_my_github_runner.Prelude.{
  ℕ, ◌+◌, String, Bool, Option, List, [], ◌∷◌, ◌++◌, map, if◌then◌else◌, includes,
}
use oh_my_github_runner.Task.{
  TaskStatus, TaskRecord, queued, running, succeeded, failed, superseded, has_status,
}
use oh_my_github_runner.Queue.{Store}
use oh_my_github_runner.Queue.Listing.{list_tasks}

pub record TaskCounts : Type 0 where
  pub in_queue : ℕ
  pub in_progress : ℕ
  pub done : ℕ
  pub broken : ℕ
  pub replaced : ℕ

pub data RunnerToolStatus : Type 0 where
  idle busy : RunnerToolStatus

pub record RunnerStatusSummary : Type 0 where
  pub tasks : TaskCounts
  pub runners : List (String × RunnerToolStatus)

abbrev pub count_one : TaskStatus → TaskCounts → TaskCounts
count_one queued c = record c { in_queue = c.in_queue + 1 }
count_one running c = record c { in_progress = c.in_progress + 1 }
count_one succeeded c = record c { done = c.done + 1 }
count_one failed c = record c { broken = c.broken + 1 }
count_one superseded c = record c { replaced = c.replaced + 1 }

abbrev pub no_tasks : TaskCounts
no_tasks = record { in_queue = 0; in_progress = 0; done = 0; broken = 0; replaced = 0 }

abbrev pub tool_entry : List String → String → String × RunnerToolStatus
tool_entry busy_tools tool = (tool, if includes tool busy_tools then busy else idle)

module _ (tools_for_task : TaskRecord → List String) where
  -- The loop over the tasks, with the counts and the set of busy tools.
  unfoldable pub count_tasks : List TaskRecord → TaskCounts → List String → TaskCounts × List String
  count_tasks [] counts busy_tools = (counts, busy_tools)
  count_tasks (t ∷ ts) counts busy_tools =
      count_tasks ts (count_one t.status counts)
        (if has_status running t then busy_tools ++ tools_for_task t else busy_tools)

  unfoldable pub get_status : List String → ℕ → Store → RunnerStatusSummary × Store
  get_status registered_tools now s =
      let (tasks, s') = list_tasks now s in
      let (counts, busy_tools) = count_tasks tasks no_tasks [] in
      (record { tasks = counts; runners = map (tool_entry busy_tools) registered_tools }, s')
