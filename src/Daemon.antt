-- ===== src/Daemon.antt =====
-- src/daemon/runner-daemon.ts: the loop that starts tasks, takes their results back into the queue,
-- pauses rate-limited tools, and cleans up. A call reads the clock once; the runs of the strategies
-- appear as their outcomes. Hooks and warnings are recorded in the order of their calls; an error
-- that the source catches from a hook changes nothing else. All optional dependencies but the
-- workspace janitor are there, as the composition root wires them.
pub mod Runs
pub mod Sweep
pub mod Startup
pub mod Supervision
pub mod Reach
pub mod Pauses
mod Tests
use oh_my_github_runner.Prelude.{
  ℕ, ◌+◌, ◌-◌, String, Bool, true, false, ◌&&◌, ◌||◌, not, Option, none, some, List, [], ◌∷◌, ◌++◌,
  if◌then◌else◌, includes, keep, any, all, map, ltb, leb, is, text_discrete,
}
use oh_my_github_runner.Prelude.Action.{Action, Result, ok, err, after, Failure}
use oh_my_github_runner.Task.{TaskRecord, has_status, queued, running}
use oh_my_github_runner.RateLimit.{StateFile, paused_tools, pause_all}
use oh_my_github_runner.Scheduling.{select_next_tasks, global_tools}
use oh_my_github_runner.Queue.{Store}
use oh_my_github_runner.Queue.Listing.{list_tasks}
use oh_my_github_runner.Queue.Transitions.{
  Completion, completed, completed_failed, start_task, complete_task, revert_to_queued,
  mark_superseded,
}
use oh_my_github_runner.Queue.Sweeps.{recover_running_tasks, prune_terminal_tasks}
use oh_my_github_runner.Checkpoint.{Checkpoints, drop}
use oh_my_github_runner.Checkpoint as Checkpoint

pub data ExecuteResult : Type 0 where
  run_succeeded : ExecuteResult
  run_failed : String → ExecuteResult
  run_rate_limited : List String → ExecuteResult

-- How a run of a strategy ends: with a result, with the error of a GitHub rate limit, or with
-- another error and the message the daemon reads of it.
pub data Outcome : Type 0 where
  returned : ExecuteResult → Outcome
  github_rate_limited : Outcome
  threw : String → Outcome

pub data Notice : Type 0 where
  on_failure : TaskRecord → String → Notice
  on_succeeded on_rate_limited : TaskRecord → Notice
  on_superseded : TaskRecord → String → Notice

pub data Warning : Type 0 where
  tools_paused : List String → Warning
  complete_failed revert_failed stale_failed supersede_failed : String → Failure → Warning

-- `stale_text` prints the age and the start time of a stale task.
pub record Settings : Type 0 where
  pub rate_limit_cooldown_ms : ℕ
  pub idle_warning_interval_ms : ℕ
  pub retention_ms : ℕ
  pub prune_interval_ms : ℕ
  pub stale_running_cutoff_ms : ℕ
  pub registered_tools : List String
  pub max_concurrency : ℕ
  pub stale_text : ℕ → ℕ → String

-- The daemon's own fields, and the stores it works on.
pub record Daemon : Type 0 where
  pub store : Store
  pub pauses : StateFile
  pub checkpoints : Checkpoints
  pub active_tasks : List String
  pub last_idle_warning_at : ℕ
  pub last_prune_at : ℕ
  pub notices : List Notice
  pub warnings : List Warning

abbrev pub notify : Notice → Daemon → Daemon
notify n d = record d { notices = d.notices ++ n ∷ [] }

abbrev pub warn : Warning → Daemon → Daemon
warn w d = record d { warnings = d.warnings ++ w ∷ [] }

abbrev pub drop_checkpoints : String → Daemon → Daemon
drop_checkpoints task_id d = record d { checkpoints = drop task_id d.checkpoints }

-- The end of a run.
abbrev pub run_result : Outcome → ExecuteResult
run_result (returned result) = result
run_result github_rate_limited = run_rate_limited ("github" ∷ [])
run_result (threw message) = run_failed message

abbrev pub warn_of : (String → Failure → Warning) → String → Result TaskRecord → Daemon → Daemon
warn_of w task_id (ok _) d = d
warn_of w task_id (err e) d = warn (w task_id e) d

-- `completeTask`, whose error is logged, and the removal of the checkpoints.
unfoldable pub complete : TaskRecord → Completion → ℕ → Daemon → Daemon
complete task result now d =
    let (r, store) = complete_task task.task_id result now d.store in
    drop_checkpoints task.task_id
      (warn_of complete_failed task.task_id r (record d { store = store }))

-- The tools are paused first, and the task is queued again after that.
unfoldable pub handle_rate_limit : Settings → TaskRecord → List String → ℕ → Daemon → Daemon
handle_rate_limit c task tool_names now d =
    let paused = pause_all tool_names (now + c.rate_limit_cooldown_ms) d.pauses in
    let (r, store) = revert_to_queued task.task_id now d.store in
    notify (on_rate_limited task)
      (warn_of revert_failed task.task_id r (record d { pauses = paused; store = store }))

unfoldable pub take_result : Settings → TaskRecord → ExecuteResult → ℕ → Daemon → Daemon
take_result c task (run_rate_limited tool_names) now d = handle_rate_limit c task tool_names now d
take_result c task run_succeeded now d = complete task completed now (notify (on_succeeded task) d)
take_result c task (run_failed summary) now d =
    complete task (completed_failed (some summary)) now (notify (on_failure task summary) d)

-- `runTask` from the end of the run, and the `finally` of its caller.
unfoldable pub run_task : Settings → TaskRecord → Outcome → ℕ → Daemon → Daemon
run_task c task outcome now d =
    let ended = take_result c task (run_result outcome) now d in
    record ended {
      active_tasks = keep (λ id. not (is (text_discrete id task.task_id))) ended.active_tasks;
    }

-- The call returns early when the store refuses.
abbrev pub superseded_end : String → String → Result TaskRecord → Daemon → Daemon
superseded_end old_id new_id (ok t) d = notify (on_superseded t new_id) (drop_checkpoints old_id d)
superseded_end old_id new_id (err e) d = warn (supersede_failed old_id e) d

unfoldable pub supersede : String → String → ℕ → Daemon → Daemon
supersede old_id new_id now d =
    let (r, store) = mark_superseded old_id new_id now d.store in
    superseded_end old_id new_id r (record d { store = store })

-- Whether the record of a task says that it runs, while this process does not run it, and its start
-- is too long ago. A record without a start time is not touched.
abbrev pub started_before : ℕ → ℕ → Option ℕ → Bool
started_before cutoff now none = false
started_before cutoff now (some started_at) = leb (started_at + cutoff) now

abbrev pub is_stale : Settings → ℕ → List String → TaskRecord → Bool
is_stale c now active_tasks task =
    has_status running task
    && not (includes task.task_id active_tasks)
    && started_before c.stale_running_cutoff_ms now task.started_at

abbrev pub stale_summary : Settings → ℕ → Option ℕ → String
stale_summary c now none = c.stale_text 0 0
stale_summary c now (some started_at) = c.stale_text (now - started_at) started_at

abbrev stale_end : String → Result TaskRecord → Daemon → Daemon
stale_end task_id (ok _) d = drop_checkpoints task_id d
stale_end task_id (err e) d = warn (stale_failed task_id e) d

unfoldable pub fail_stale : Settings → ℕ → TaskRecord → Daemon → Daemon
fail_stale c now task d =
    let summary = stale_summary c now task.started_at in
    let (r, store) = complete_task task.task_id (completed_failed (some summary)) now d.store in
    stale_end task.task_id r (record d { store = store })

unfoldable pub sweep_stale_running : Settings → ℕ → List TaskRecord → Daemon → Daemon
sweep_stale_running c now [] d = d
sweep_stale_running c now (task ∷ tasks) d =
    sweep_stale_running c now tasks
      (if is_stale c now d.active_tasks task then fail_stale c now task d else d)

-- `force` at the start of the daemon, and otherwise once in an interval.
unfoldable pub maybe_prune : Settings → Bool → ℕ → Daemon → Daemon
maybe_prune c force now d =
    if not force && ltb now (d.last_prune_at + c.prune_interval_ms) then d else record d {
      last_prune_at = now;
      store = (prune_terminal_tasks (now - c.retention_ms) d.store).1;
    }

abbrev pub is_nil {ℓ} : {A : Type ℓ} → List A → Bool
is_nil [] = true
is_nil (_ ∷ _) = false

-- Whether pauses alone hold the queue back: those of all registered tools, or of a global one.
abbrev pub blocked : Settings → List String → Bool
blocked c paused =
    not (is_nil c.registered_tools) && all (λ tool. includes tool paused) c.registered_tools
    || any (λ tool. includes tool paused) global_tools

unfoldable pub maybe_warn_all_tools_paused :
    Settings → ℕ → List TaskRecord → List String → Daemon → Daemon
maybe_warn_all_tools_paused c now tasks paused d =
    if not (blocked c paused)
      || not (any (has_status queued) tasks)
      || ltb now (d.last_idle_warning_at + c.idle_warning_interval_ms)
    then d
    else warn
        (tools_paused (
          keep (λ tool. includes tool paused) c.registered_tools
          ++ keep (λ tool. includes tool paused) global_tools))
        (record d { last_idle_warning_at = now })

abbrev pub find_task : String → List TaskRecord → Option TaskRecord
find_task id [] = none
find_task id (t ∷ ts) = if is (text_discrete t.task_id id) then some t else find_task id ts

abbrev pub launched : String → Result TaskRecord → Daemon → Result (List TaskRecord) × Daemon
launched task_id (ok t) d = (ok (t ∷ []), record d { active_tasks = task_id ∷ d.active_tasks })
launched task_id (err e) d = (err e, d)

-- A task whose start throws ends the tick.
unfoldable pub start_selected : ℕ → Option TaskRecord → Action Daemon (List TaskRecord)
start_selected now none d = (ok [], d)
start_selected now (some task) d =
    let (r, store) = start_task task.task_id now d.store in
    launched task.task_id r (record d { store = store })

-- The result is the list of the started tasks, whose runs begin now.
unfoldable pub start_each : ℕ → List TaskRecord → List String → Action Daemon (List TaskRecord)
start_each now tasks [] d = (ok [], d)
start_each now tasks (id ∷ ids) d =
    after (start_selected now (find_task id tasks) d)
      λ first d'. after (start_each now tasks ids d') λ rest d''. (ok (first ++ rest), d'')

module _ (c : Settings) (tools_for_task : TaskRecord → List String) where
  abbrev pub selected : ℕ → List TaskRecord → Daemon → List String
  selected now tasks d =
      select_next_tasks tools_for_task tasks c.max_concurrency (paused_tools now d.pauses)

  unfoldable pub dispatch : ℕ → List TaskRecord → Action Daemon (List TaskRecord)
  dispatch now tasks d =
      let ids = selected now tasks d in
      start_each now tasks ids (
        if is_nil ids
        then maybe_warn_all_tools_paused c now tasks (paused_tools now d.pauses) d
        else d)

  unfoldable pub tick : ℕ → Action Daemon (List TaskRecord)
  tick now d =
      let pruned = maybe_prune c false now d in
      let (tasks, store) = list_tasks now pruned.store in
      dispatch now tasks (sweep_stale_running c now tasks (record pruned { store = store }))

abbrev pub is_live : TaskRecord → Bool
is_live task = has_status queued task || has_status running task

-- Startup: interrupted runs fail, the checkpoints of finished tasks go, and old files are pruned.
unfoldable pub initialize : Settings → String → ℕ → Daemon → Daemon
initialize c interrupted now d =
    let recovered = recover_running_tasks interrupted now d.store in
    let (tasks, store) = list_tasks now recovered in
    let live_ids = map (λ t. t.task_id) (keep is_live tasks) in
    maybe_prune c true now
      (record d { store = store; checkpoints = (Checkpoint.sweep live_ids d.checkpoints).1 })
