-- ===== src/Daemon/Runs.antt =====
-- `runTask` of runner-daemon.ts: the end of a run, for the task, the others and the checkpoints.
use oh_my_github_runner.Prelude.{
  ℕ, String, ◌≡◌, refl, sym, ap, subst, ◌∙◌, ◌≢◌, some, false, List, [], ◌∷◌, arith, ite,
  text_discrete, includes, keep, not, is,
}
use oh_my_github_runner.Prelude.Action.{Result, Failure, ok, err, task_not_found}
use oh_my_github_runner.Task.{TaskStatus, TaskRecord, running}
use oh_my_github_runner.Queue.{Store}
use oh_my_github_runner.Queue.Consistency.{Consistent, view}
use oh_my_github_runner.Queue.Transitions.{
  completed, completed_failed, finished, requeued, complete_task, revert_to_queued,
}
use oh_my_github_runner.Queue.Refinement.{
  Moves, moved, refused, complete_task-Moves, revert_to_queued-Moves,
}
use oh_my_github_runner.Checkpoint.{Checkpoints, drop}
use oh_my_github_runner.Daemon.{
  Settings, Daemon, Warning, warn_of, ExecuteResult, run_succeeded, run_failed, run_rate_limited,
  Outcome, run_result, complete, handle_rate_limit, take_result, run_task, complete_failed,
  revert_failed,
}

-- Under a known record, a transition either happens or is refused.
module _ (from : TaskStatus) (f : TaskRecord → TaskRecord) (e : Failure) (task_id : String)
    (s : Store) (r : Result TaskRecord × Store) (t : TaskRecord) (v : view s task_id ≡ some t) where
  pub Moves-moved :
      Moves from f e task_id s r
      → t.status ≡ from
      → (r.0 ≡ ok (f t))
        × Consistent r.1
        × ((j : String) → view r.1 j ≡ ite (text_discrete task_id j) (some (f t)) (view s j))
  Moves-moved (moved u v' _ done c views) _ =
      let same : u ≡ t = cc in
      (
        subst (λ x. r.0 ≡ ok (f x)) same done,
        c,
        λ j.
            subst (λ x. view r.1 j ≡ ite (text_discrete task_id j) (some (f x)) (view s j)) same
              (views j),
      )
  Moves-moved (refused others _ _ _) st = absurd (others t v st)

  pub Moves-refused :
      Moves from f e task_id s r
      → t.status ≢ from
      → (r.0 ≡ err e) × Consistent r.1 × ((j : String) → view r.1 j ≡ view s j)
  Moves-refused (moved u v' st _ _ _) differs =
      absurd (differs (ap (λ x. x.status) (the_same u v') ∙ st))
    where
      the_same : (u : TaskRecord) → view s task_id ≡ some u → t ≡ u
      the_same u v' = cc
  Moves-refused (refused _ failed_so c views) _ = (failed_so, c, views)

-- The record of a task after a run with the result.
abbrev pub ended_record : ℕ → ExecuteResult → TaskRecord → TaskRecord
ended_record now run_succeeded t = finished now completed t
ended_record now (run_failed summary) t = finished now (completed_failed (some summary)) t
ended_record now (run_rate_limited tools) t = requeued t

-- A rate-limited task keeps its checkpoints.
abbrev pub ended_checkpoints : ExecuteResult → String → Checkpoints → Checkpoints
ended_checkpoints run_succeeded task_id c = drop task_id c
ended_checkpoints (run_failed _) task_id c = drop task_id c
ended_checkpoints (run_rate_limited _) task_id c = c

abbrev Same : Daemon → Daemon → Type 0
Same d d' = (d.store ≡ d'.store) × (d.checkpoints ≡ d'.checkpoints)

warn_of-Same :
    (w : String → Failure → Warning) (task_id : String) (r : Result TaskRecord) (d : Daemon)
    → Same (warn_of w task_id r d) d
warn_of-Same w task_id (ok _) d = (refl, refl)
warn_of-Same w task_id (err e) d = (refl, refl)

pub transition : TaskRecord → ExecuteResult → ℕ → Store → Result TaskRecord × Store
transition task run_succeeded now s = complete_task task.task_id completed now s
transition task (run_failed summary) now s =
    complete_task task.task_id (completed_failed (some summary)) now s
transition task (run_rate_limited tools) now s = revert_to_queued task.task_id now s

pub transition-Moves :
    (task : TaskRecord) (result : ExecuteResult) (now : ℕ) (s : Store)
    → Consistent s
    → Moves running
        (ended_record now result)
        (task_not_found task.task_id)
        task.task_id
        s
        (transition task result now s)
unfolding transition
transition-Moves task run_succeeded now s c = complete_task-Moves task.task_id completed now s c
transition-Moves task (run_failed summary) now s c =
    complete_task-Moves task.task_id (completed_failed (some summary)) now s c
transition-Moves task (run_rate_limited tools) now s c = revert_to_queued-Moves task.task_id now s c

pub take_result_lem :
    (c : Settings) (task : TaskRecord) (result : ExecuteResult) (now : ℕ) (d : Daemon)
    → ((take_result c task result now d).store ≡ (transition task result now d.store).1)
      × ((take_result c task result now d).checkpoints
          ≡ ended_checkpoints result task.task_id d.checkpoints)
unfolding take_result transition complete handle_rate_limit
take_result_lem c task run_succeeded now d =
    let (p, q) =
      warn_of-Same complete_failed task.task_id (complete_task task.task_id completed now d.store).0
        _ in
    (p, ap (drop task.task_id) q)
take_result_lem c task (run_failed summary) now d =
    let (p, q) =
      warn_of-Same complete_failed task.task_id
        (complete_task task.task_id (completed_failed (some summary)) now d.store).0 _ in
    (p, ap (drop task.task_id) q)
take_result_lem c task (run_rate_limited tools) now d =
    warn_of-Same revert_failed task.task_id (revert_to_queued task.task_id now d.store).0 _

warn_of-active :
    (w : String → Failure → Warning) (task_id : String) (r : Result TaskRecord) (d : Daemon)
    → (warn_of w task_id r d).active_tasks ≡ d.active_tasks
warn_of-active w task_id (ok _) d = refl
warn_of-active w task_id (err e) d = refl

pub take_result-active :
    (c : Settings) (task : TaskRecord) (result : ExecuteResult) (now : ℕ) (d : Daemon)
    → (take_result c task result now d).active_tasks ≡ d.active_tasks
unfolding take_result complete handle_rate_limit
take_result-active c task run_succeeded now d =
    warn_of-active complete_failed task.task_id (complete_task task.task_id completed now d.store).0
      _
take_result-active c task (run_failed summary) now d =
    warn_of-active complete_failed task.task_id
      (complete_task task.task_id (completed_failed (some summary)) now d.store).0 _
take_result-active c task (run_rate_limited tools) now d =
    warn_of-active revert_failed task.task_id (revert_to_queued task.task_id now d.store).0 _

removed :
    (id : String) (ids : List String)
    → includes id (keep (λ j. not (is (text_discrete j id))) ids) ≡ false
unfolding includes
removed id [] = refl
removed id (j ∷ ids) = ground (arith, removed id ids)

-- The end of a run of a task that a consistent queue holds as running: the task becomes succeeded,
-- failed with the run's message, or queued again after a rate limit, no other task changes, the
-- checkpoints of the task stay after a rate limit and are dropped otherwise, and the daemon no
-- longer counts the task as active.
pub run_task-view :
    (c : Settings) (task : TaskRecord) (outcome : Outcome) (now : ℕ) (d : Daemon) (t : TaskRecord)
    → Consistent d.store
    → view d.store task.task_id ≡ some t
    → t.status ≡ running
    → Consistent (run_task c task outcome now d).store
      × ((j : String)
          → view (run_task c task outcome now d).store j
            ≡ ite
                (text_discrete task.task_id j)
                (some (ended_record now (run_result outcome) t))
                (view d.store j))
      × ((run_task c task outcome now d).checkpoints
          ≡ ended_checkpoints (run_result outcome) task.task_id d.checkpoints)
      × (includes task.task_id (run_task c task outcome now d).active_tasks ≡ false)
unfolding run_task
run_task-view c task outcome now d t con v st =
    let (at_store, at_checkpoints) = take_result_lem c task (run_result outcome) now d in
    let (_, con', views) =
      Moves-moved running (ended_record now (run_result outcome)) _ task.task_id d.store _ t v
        (transition-Moves task (run_result outcome) now d.store con) st in
    (
      subst Consistent (sym at_store) con',
      λ j. ap (λ s. view s j) at_store ∙ views j,
      at_checkpoints,
      removed task.task_id _,
    )
