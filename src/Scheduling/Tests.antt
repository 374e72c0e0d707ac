-- ===== src/Scheduling/Tests.antt =====
-- Runs of the scheduler: one running task, three queued ones.
use oh_my_github_runner.Prelude.{
  ◌-◌, ◌≤◌, ◌≡◌, refl, List, [], ◌∷◌, arith, length, keep, All, includes, text_discrete,
}
use oh_my_github_runner.Task.{TaskRecord, TaskStatus-discrete, has_status, queued, running}
use oh_my_github_runner.Task.Samples.{sample_task}
use oh_my_github_runner.Strategies.{tools_for_task, get_strategy}
use oh_my_github_runner.Prelude.Assoc.{lookup}
use oh_my_github_runner.Scheduling.{select_tasks, select_next_tasks, pick, claimed}
use oh_my_github_runner.Scheduling.Selection.{select_within_budget}
use oh_my_github_runner.Scheduling.Exclusion.{Apart, select-Apart, Served, select_conserves}

abbrev board : List TaskRecord
board =
    sample_task "a" "issue-implement" running 1
    ∷ sample_task "b" "pr-implement" queued 2
    ∷ sample_task "c" "issue-initial-review" queued 3
    ∷ sample_task "d" "issue-comment-reply" queued 4
    ∷ []

-- `b` waits for the tool of `a`, and `d` for that of `c`.
board_run : select_next_tasks tools_for_task board 3 [] ≡ "c" ∷ []
unfolding select_next_tasks pick tools_for_task get_strategy lookup includes text_discrete
    TaskStatus-discrete
board_run = refl

board_paused : select_next_tasks tools_for_task board 3 ("codex" ∷ []) ≡ []
unfolding select_next_tasks pick tools_for_task get_strategy lookup includes text_discrete
    TaskStatus-discrete
board_paused = refl

select_within_budget_example :
    length (select_tasks tools_for_task board 3 []) ≤ 3 - length (keep (has_status running) board)
select_within_budget_example = select_within_budget tools_for_task board 3 []

select-Apart_example :
    Apart tools_for_task
      (claimed tools_for_task (keep (has_status running) board))
      (select_tasks tools_for_task board 3 [])
select-Apart_example = select-Apart tools_for_task board 3 []

select_conserves_example :
    All
      (Served tools_for_task []
        (claimed tools_for_task (keep (has_status running) board))
        (select_tasks tools_for_task board 3 []))
      (keep (has_status queued) board)
unfolding select_tasks pick tools_for_task get_strategy lookup includes text_discrete
    TaskStatus-discrete
select_conserves_example = select_conserves tools_for_task board 3 [] refl (omega arith)
