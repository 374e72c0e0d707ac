-- ===== src/Daemon/Pauses.antt =====
-- `handleRateLimit` of runner-daemon.ts and the ticks after it.
use oh_my_github_runner.Prelude.{
  ℕ, ◌+◌, ◌<◌, String, ◌≡◌, refl, ap, ◌∙◌, true, false, List, ◌++◌, arith, includes, All,
}
use oh_my_github_runner.Prelude.Action.{Result, ok, err, Failure}
use oh_my_github_runner.Queue.Transitions.{revert_to_queued}
use oh_my_github_runner.Task.{TaskRecord}
use oh_my_github_runner.RateLimit.{pause_all, paused_tools}
use oh_my_github_runner.RateLimit.Pauses.{paused-pause_all}
use oh_my_github_runner.Scheduling.{select_tasks, global_tools}
use oh_my_github_runner.Scheduling.Selection.{select_avoids_paused}
use oh_my_github_runner.Daemon.{
  Settings, Daemon, Warning, warn_of, revert_failed, Outcome, run_rate_limited, run_result,
  handle_rate_limit, take_result, run_task,
}

warn_of-pauses :
    (w : String → Failure → Warning) (task_id : String) (r : Result TaskRecord) (d : Daemon)
    → (warn_of w task_id r d).pauses ≡ d.pauses
warn_of-pauses w task_id (ok _) d = refl
warn_of-pauses w task_id (err e) d = refl

handle_rate_limit-pauses :
    (c : Settings) (task : TaskRecord) (tools : List String) (now : ℕ) (d : Daemon)
    → (handle_rate_limit c task tools now d).pauses
      ≡ pause_all tools (now + c.rate_limit_cooldown_ms) d.pauses
unfolding handle_rate_limit
handle_rate_limit-pauses c task tools now d =
    warn_of-pauses revert_failed task.task_id (revert_to_queued task.task_id now d.store).0
      (record d {
        pauses = pause_all tools (now + c.rate_limit_cooldown_ms) d.pauses;
        store = (revert_to_queued task.task_id now d.store).1;
      })

pauses_after :
    (c : Settings) (task : TaskRecord) (outcome : Outcome) (tools : List String) (now : ℕ)
    (d : Daemon)
    → run_result outcome ≡ run_rate_limited tools
    → (run_task c task outcome now d).pauses
      ≡ pause_all tools (now + c.rate_limit_cooldown_ms) d.pauses
unfolding run_task take_result
pauses_after c task outcome tools now d e =
    ap (λ r. (take_result c task r now d).pauses) e ∙ handle_rate_limit-pauses c task tools now d

-- After a run was rate-limited by some tools, and until the cooldown is over, the scheduler selects
-- no task that uses one of them, of whatever tasks, as long as the pauses are those that the run
-- left. A global tool counts as used by every task.
pub rate_limited_tools_wait :
    (c : Settings) (tools_for_task : TaskRecord → List String) (task : TaskRecord)
    (outcome : Outcome) (tools : List String) (now : ℕ) (d : Daemon) (tool : String) (later : ℕ)
    (tasks : List TaskRecord)
    → run_result outcome ≡ run_rate_limited tools
    → includes tool tools ≡ true
    → later < now + c.rate_limit_cooldown_ms
    → All
        (λ t. includes tool (global_tools ++ tools_for_task t) ≡ false)
        (select_tasks tools_for_task tasks c.max_concurrency
          (paused_tools later (run_task c task outcome now d).pauses))
rate_limited_tools_wait c tools_for_task task outcome tools now d tool later tasks e used soon =
    select_avoids_paused tools_for_task tasks c.max_concurrency _ tool (
      ground (
        arith,
        pauses_after c task outcome tools now d e,
        paused-pause_all later (now + c.rate_limit_cooldown_ms) tools tool d.pauses,
      ))
