-- ===== src/Daemon/Tests.antt =====
-- Runs of the daemon on a queue with one running task.
use oh_my_github_runner.Prelude.{
  String, ◌≡◌, refl, some, none, false, [], ◌∷◌, ◌++◌, arith, ite, text_discrete, includes, All,
  if◌then◌else◌,
}
use oh_my_github_runner.Task.{running}
use oh_my_github_runner.RateLimit.{missing, paused_tools}
use oh_my_github_runner.Strategies.{tools_for_task}
use oh_my_github_runner.Scheduling.{select_tasks, global_tools}
use oh_my_github_runner.Queue.{record_at}
use oh_my_github_runner.Queue.Consistency.{Consistent, view}
use oh_my_github_runner.Queue.Samples.{active, active-Consistent, active-task, task}
use oh_my_github_runner.Daemon.{
  Settings, Daemon, returned, run_succeeded, github_rate_limited, run_task, initialize, tick,
  supersede,
}
use oh_my_github_runner.Queue.{record_at}
use oh_my_github_runner.Queue.Recovery.{recovered_record}
use oh_my_github_runner.Checkpoint.{read}
use oh_my_github_runner.Daemon.Startup.{live_of, initialize_idle}
use oh_my_github_runner.Daemon.Supervision.{Supervised}
use oh_my_github_runner.Daemon.Reach.{booted, ticked, ended, replaced_by, Reached-Supervised}
use oh_my_github_runner.Daemon.Pauses.{rate_limited_tools_wait}
use oh_my_github_runner.Daemon.Runs.{ended_record, ended_checkpoints, run_task-view}
use oh_my_github_runner.Daemon.Sweep.{swept, swept_record, sweep-view, sweep_spares}

abbrev settings : Settings
settings = record {
  rate_limit_cooldown_ms = 1800000;
  idle_warning_interval_ms = 60000;
  retention_ms = 604800000;
  prune_interval_ms = 86400000;
  stale_running_cutoff_ms = 1800000;
  registered_tools = "claude" ∷ "codex" ∷ [];
  max_concurrency = 2;
  stale_text = λ age at. "stale running: no in-memory active task";
}

abbrev daemon : Daemon
daemon = record {
  store = active;
  pauses = missing;
  checkpoints = record { dirs = []; corrupt = [] };
  active_tasks = "t1" ∷ [];
  last_idle_warning_at = 0;
  last_prune_at = 0;
  notices = [];
  warnings = [];
}

run_task-view_example :
    Consistent (run_task settings task (returned run_succeeded) 500 daemon).store
    × ((j : String)
        → view (run_task settings task (returned run_succeeded) 500 daemon).store j
          ≡ ite (text_discrete "t1" j) (some (ended_record 500 run_succeeded task)) (view active j))
    × ((run_task settings task (returned run_succeeded) 500 daemon).checkpoints
        ≡ ended_checkpoints run_succeeded "t1" daemon.checkpoints)
    × (includes "t1" (run_task settings task (returned run_succeeded) 500 daemon).active_tasks
        ≡ false)
run_task-view_example =
    run_task-view settings task (returned run_succeeded) 500 daemon task active-Consistent
      active-task refl

rate_limited_tools_wait_example :
    All
      (λ t. includes "github" (global_tools ++ tools_for_task t) ≡ false)
      (select_tasks tools_for_task
        (task ∷ [])
        2
        (paused_tools 600 (run_task settings task github_rate_limited 500 daemon).pauses))
unfolding includes text_discrete
rate_limited_tools_wait_example =
    rate_limited_tools_wait settings tools_for_task task github_rate_limited ("github" ∷ []) 500
      daemon "github" 600 (task ∷ []) refl refl (omega arith)

sweep-view_example :
    Consistent (swept settings 4000000 daemon).store
    × (view (swept settings 4000000 daemon).store "t1"
        ≡ swept_record settings 4000000 ("t1" ∷ []) (view active "t1"))
sweep-view_example = sweep-view settings 4000000 daemon "t1" active-Consistent

initialize_idle_example :
    (record_at running "t1" (initialize settings "daemon interrupted" 200 daemon).store ≡ none)
    × ((read
          (λ key. key)
          "t1"
          "architect"
          (initialize settings "daemon interrupted" 200 daemon).checkpoints).0
        ≡ (if live_of (recovered_record "daemon interrupted" 200 (view active "t1"))
            then (read (λ key. key) "t1" "architect" daemon.checkpoints).0
            else none))
initialize_idle_example =
    initialize_idle settings "daemon interrupted" 200 daemon (λ key. key) "t1" "architect"
      active-Consistent

sweep_spares_example : view (swept settings 4000000 daemon).store "t1" ≡ view active "t1"
unfolding includes text_discrete
sweep_spares_example = sweep_spares settings 4000000 daemon "t1" active-Consistent refl

-- A start, a call of `supersede`, a tick, and the end of a run.
abbrev worked : Daemon
worked =
    run_task settings task github_rate_limited 700
      (tick settings tools_for_task 600
        (supersede "t1" "t9" 300 (initialize settings "daemon interrupted" 200 daemon))).1

Reached-Supervised_example : Supervised worked
Reached-Supervised_example = Reached-Supervised settings tools_for_task worked (
    ended task github_rate_limited 700 (
      ticked 600
        (replaced_by "t1" "t9" 300 (booted "daemon interrupted" 200 daemon active-Consistent))))
