-- ===== src/RunnerStatus/Tests.antt =====
-- The status of a queue with one task.
use oh_my_github_runner.Prelude.{◌≡◌, [], ◌∷◌, map, keep, length}
use oh_my_github_runner.Task.{TaskStatus, has_status, running}
use oh_my_github_runner.Strategies.{tools_for_task}
use oh_my_github_runner.Scheduling.{claimed}
use oh_my_github_runner.Queue.Listing.{list_tasks}
use oh_my_github_runner.Queue.Samples.{one}
use oh_my_github_runner.RunnerStatus.{get_status, tool_entry}
use oh_my_github_runner.RunnerStatus.Counts.{count_of, get_status_agrees}

get_status_agrees_example :
    let tasks = (list_tasks 130 one).0 in
    ((st : TaskStatus)
      → count_of st (get_status tools_for_task ("claude" ∷ []) 130 one).0.tasks
        ≡ length (keep (has_status st) tasks))
    × ((get_status tools_for_task ("claude" ∷ []) 130 one).0.runners
        ≡ map
            (tool_entry (claimed tools_for_task (keep (has_status running) tasks)))
            ("claude" ∷ []))
get_status_agrees_example = get_status_agrees tools_for_task ("claude" ∷ []) 130 one
