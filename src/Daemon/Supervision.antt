-- ===== src/Daemon/Supervision.antt =====
-- The invariant of the daemon between its calls: which tasks the queue may hold as running.
use oh_my_github_runner.Prelude.{
  if_pos, any, ◌||◌, ◌+◌, ℕ, ◌-◌, String, ◌≡◌, sym, ap, subst, ◌∙◌, ◌≢◌, inl, inr, Option, none,
  some, true, false, List, [], ◌∷◌, arith, text_discrete, Bool, Bool-cases, includes, keep, not, is,
  by_test, if_neg, ◌&&◌, ltb,
}
use oh_my_github_runner.Prelude.Action.{Result, ok, err, after, task_not_found}
use oh_my_github_runner.RateLimit.{paused_tools}
use oh_my_github_runner.Task.{has_status, TaskRecord, queued, running}
use oh_my_github_runner.Queue.{Store, record_at}
use oh_my_github_runner.Queue.Consistency.{Consistent, view, view_at, at_view}
use oh_my_github_runner.Queue.Transitions.{started, start_task}
use oh_my_github_runner.Queue.Refinement.{Moves, moved, refused, Moves-Consistent, start_task-Moves}
use oh_my_github_runner.Queue.Sweeps.{prune_terminal_tasks}
use oh_my_github_runner.Queue.Recovery.{recover-Consistent}
use oh_my_github_runner.Queue.Pruning.{find-prune}
use oh_my_github_runner.Queue.Listing.{list_tasks}
use oh_my_github_runner.Queue.Scan.{list_tasks-Consistent}
use oh_my_github_runner.Daemon.{
  selected, is_nil, blocked, maybe_warn_all_tools_paused, take_result, Settings, Daemon, is_stale,
  ExecuteResult, run_succeeded, run_failed, run_rate_limited, Outcome, run_result, run_task,
  start_selected, start_each, find_task, dispatch, tick, initialize, maybe_prune, launched,
}
use oh_my_github_runner.Daemon.Runs.{
  transition, transition-Moves, take_result_lem, ended_record, take_result-active,
}
use oh_my_github_runner.Daemon.Sweep.{swept, sweep-view, swept-active, swept_record}
use oh_my_github_runner.Daemon.Startup.{prune_running, initialize_idle}

-- The queue is consistent, and each task that it holds as running is run by this process.
pub record Supervised (d : Daemon) : Type 0 where
  pub consistent : Consistent d.store
  pub supervised :
      (j : String) (t : TaskRecord)
      → view d.store j ≡ some t
      → t.status ≡ running
      → includes j d.active_tasks ≡ true

prune-Consistent :
    (older_than : ℕ) (s : Store) → Consistent s → Consistent (prune_terminal_tasks older_than s).1
prune-Consistent older_than s c = record {
  named = λ at j t e. ground (arith, find-prune older_than s at j, c.named at j t);
  alone = λ a b j f g e e'.
      ground (arith, find-prune older_than s a j, find-prune older_than s b j, c.alone a b j f g);
}

-- A call that leaves the running records to those there were, and forgets no active task.
preserved :
    (d d' : Daemon)
    → Supervised d
    → Consistent d'.store
    → ((j : String) (t : TaskRecord)
        → view d'.store j ≡ some t
        → t.status ≡ running
        → view d.store j ≡ some t)
    → ((j : String) → includes j d.active_tasks ≡ true → includes j d'.active_tasks ≡ true)
    → Supervised d'
preserved d d' h c back grow = record {
  consistent = c;
  supervised = λ j t v st. grow j (h.supervised j t (back j t v st) st);
}

pruned_back :
    (older_than : ℕ) (s : Store) (j : String) (t : TaskRecord)
    → Consistent s
    → view (prune_terminal_tasks older_than s).1 j ≡ some t
    → t.status ≡ running
    → view s j ≡ some t
pruned_back older_than s j t c v st = view_at c running j t (
    sym (prune_running older_than s j)
    ∙ subst (λ k. record_at k j (prune_terminal_tasks older_than s).1 ≡ some t) st
        (at_view (prune-Consistent older_than s c) j t v))

maybe_prune-Supervised :
    (c : Settings) (force : Bool) (now : ℕ) (d : Daemon)
    → Supervised d
    → Supervised (maybe_prune c force now d)
unfolding maybe_prune
maybe_prune-Supervised c force now d h =
    by_test Supervised (not force && ltb now (d.last_prune_at + c.prune_interval_ms)) (λ _. h)
      λ _.
        preserved d
          (record d {
            last_prune_at = now;
            store = (prune_terminal_tasks (now - c.retention_ms) d.store).1;
          })
          h (prune-Consistent (now - c.retention_ms) d.store h.consistent)
          (λ j t v st. pruned_back (now - c.retention_ms) d.store j t h.consistent v st) (λ j e. e)

swept_back :
    (c : Settings) (now : ℕ) (active : List String) (o : Option TaskRecord) (t : TaskRecord)
    → swept_record c now active o ≡ some t
    → t.status ≡ running
    → o ≡ some t
swept_back c now active none t e st = e
swept_back c now active (some u) t e st = elim (Bool-cases (is_stale c now active u)) [
  | inl stale ↦ ground (arith, e, stale, st)
  | inr calm ↦ ground (arith, e, calm)
]

swept-Supervised : (c : Settings) (now : ℕ) (d : Daemon) → Supervised d → Supervised (swept c now d)
swept-Supervised c now d h =
    preserved d (swept c now d) h (sweep-view c now d "" h.consistent).0
      (λ j t v st.
        swept_back c now d.active_tasks (view d.store j) t
          (sym (sweep-view c now d j h.consistent).1 ∙ v) st)
      (λ j e. ap (includes j) (swept-active c now d) ∙ e)

launched-Supervised :
    (now : ℕ) (task_id : String) (d : Daemon) (r : Result TaskRecord) (s : Store)
    → Supervised d
    → Moves queued (started now) (task_not_found task_id) task_id d.store (r, s)
    → Supervised (launched task_id r (record d { store = s })).1
unfolding includes
launched-Supervised now task_id d (ok t) s h (moved u v st e c views) = record {
  consistent = c;
  supervised = λ j t' v' st'. ground (arith, views j, h.supervised j t');
}
launched-Supervised now task_id d (err x) s h (moved u v st e c views) = cc
launched-Supervised now task_id d (ok t) s h (refused others e c views) = cc
launched-Supervised now task_id d (err x) s h (refused others e c views) =
    preserved d (record d { store = s }) h c (λ j t v st. sym (views j) ∙ v) (λ j e. e)

start_selected-Supervised :
    (now : ℕ) (o : Option TaskRecord) (d : Daemon)
    → Supervised d
    → Supervised (start_selected now o d).1
unfolding start_selected
start_selected-Supervised now none d h = h
start_selected-Supervised now (some task) d h =
    launched-Supervised now task.task_id d (start_task task.task_id now d.store).0
      (start_task task.task_id now d.store).1 h
      (start_task-Moves task.task_id now d.store h.consistent)

after-Supervised :
    {A B : Type 0} (x : Result A × Daemon) (f : A → Daemon → Result B × Daemon)
    → Supervised x.1
    → ((a : A) (d : Daemon) → Supervised d → Supervised (f a d).1)
    → Supervised (after x f).1
after-Supervised (ok a, d) f h g = g a d h
after-Supervised (err e, d) f h g = h

start_each-Supervised :
    (now : ℕ) (tasks : List TaskRecord) (ids : List String) (d : Daemon)
    → Supervised d
    → Supervised (start_each now tasks ids d).1
unfolding start_each
start_each-Supervised now tasks [] d h = h
start_each-Supervised now tasks (id ∷ ids) d h =
    after-Supervised (start_selected now (find_task id tasks) d) _
      (start_selected-Supervised now (find_task id tasks) d h)
      λ first d' h'.
        after-Supervised (start_each now tasks ids d') _ (start_each-Supervised now tasks ids d' h')
          λ rest d'' h''. h''

warned-Supervised :
    (c : Settings) (now : ℕ) (tasks : List TaskRecord) (paused : List String) (d : Daemon)
    → Supervised d
    → Supervised (maybe_warn_all_tools_paused c now tasks paused d)
unfolding maybe_warn_all_tools_paused
warned-Supervised c now tasks paused d h =
    by_test Supervised
      (not (blocked c paused)
        || not (any (has_status queued) tasks)
        || ltb now (d.last_idle_warning_at + c.idle_warning_interval_ms))
      (λ _. h) (λ _. record { consistent = h.consistent; supervised = h.supervised })

pub tick-Supervised :
    (c : Settings) (tools_for_task : TaskRecord → List String) (now : ℕ) (d : Daemon)
    → Supervised d
    → Supervised (tick c tools_for_task now d).1
unfolding tick dispatch
tick-Supervised c tools_for_task now d h =
    let pruned = maybe_prune c false now d in
    let tasks = (list_tasks now pruned.store).0 in
    let ready = swept c now pruned in
    let h' = swept-Supervised c now pruned (maybe_prune-Supervised c false now d h) in
    let ids = selected c tools_for_task now tasks ready in
    start_each-Supervised now tasks ids _ (
      by_test Supervised (is_nil ids)
        (λ _. warned-Supervised c now tasks (paused_tools now ready.pauses) ready h') (λ _. h'))

kept_id :
    (id j : String) (ids : List String)
    → id ≢ j
    → includes j ids ≡ true
    → includes j (keep (λ k. not (is (text_discrete k id))) ids) ≡ true
unfolding includes
kept_id id j [] differs h = h
kept_id id j (k ∷ ids) differs h = ground (arith, differs, h, kept_id id j ids differs)

ended_stops :
    (now : ℕ) (result : ExecuteResult) (t : TaskRecord)
    → (ended_record now result t).status ≢ running
ended_stops now run_succeeded t e = ground arith
ended_stops now (run_failed summary) t e = ground arith
ended_stops now (run_rate_limited tools) t e = ground arith

ap_status : (t u : TaskRecord) → some t ≡ some u → t.status ≡ u.status
ap_status t u e = ground (arith, e)

ended_back :
    (now : ℕ) (id : String) (result : ExecuteResult) (d : Daemon) (r : Result TaskRecord × Store)
    → Moves running (ended_record now result) (task_not_found id) id d.store r
    → (j : String) (t : TaskRecord) → view r.1 j ≡ some t
    → t.status ≡ running
    → (id ≢ j) × (view d.store j ≡ some t)
ended_back now id result d r (moved u v _ e c views) j t v' st = elim (text_discrete id j) [
  | yes same ↦
      let ended : some (ended_record now result u) ≡ some t =
        sym (if_pos (text_discrete id j) same (some (ended_record now result u)) (view d.store j))
        ∙ sym (views j)
        ∙ v' in
      absurd (ended_stops now result u (ap_status _ t ended ∙ st))
  | no differs ↦ (
    differs,
    sym (if_neg (text_discrete id j) differs (some (ended_record now result u)) (view d.store j))
        ∙ sym (views j)
        ∙ v',
  )
]
ended_back now id result d r (refused others e c views) j t v' st =
    let before = sym (views j) ∙ v' in
    ((λ same. others t (ap (view d.store) same ∙ before) st), before)

pub run_task-Supervised :
    (c : Settings) (task : TaskRecord) (outcome : Outcome) (now : ℕ) (d : Daemon)
    → Supervised d
    → Supervised (run_task c task outcome now d)
unfolding run_task
run_task-Supervised c task outcome now d h =
    let result = run_result outcome in
    let moves = transition-Moves task result now d.store h.consistent in
    let at_store = (take_result_lem c task result now d).0 in
    record {
      consistent = subst Consistent (sym at_store) (Moves-Consistent moves);
      supervised = λ j t v st.
          let back =
            ended_back now task.task_id result d (transition task result now d.store) moves j t
              (ap (λ s. view s j) (sym at_store) ∙ v) st in
          kept_id task.task_id j (take_result c task result now d).active_tasks back.0
            (ap (includes j) (take_result-active c task result now d) ∙ h.supervised j t back.1 st);
    }

initialize-Consistent :
    (c : Settings) (interrupted : String) (now : ℕ) (d : Daemon)
    → Consistent d.store
    → Consistent (initialize c interrupted now d).store
unfolding initialize maybe_prune
initialize-Consistent c interrupted now d con =
    prune-Consistent (now - c.retention_ms) _
      (list_tasks-Consistent now _ (recover-Consistent interrupted now d.store con))

pub initialize-Supervised :
    (c : Settings) (interrupted : String) (now : ℕ) (d : Daemon)
    → Consistent d.store
    → Supervised (initialize c interrupted now d)
initialize-Supervised c interrupted now d con = record {
  consistent = initialize-Consistent c interrupted now d con;
  supervised = λ j t v st.
      let idle = (initialize_idle c interrupted now d (λ key. key) j "" con).0 in
      let there =
        subst (λ k. record_at k j (initialize c interrupted now d).store ≡ some t) st
          (at_view (initialize-Consistent c interrupted now d con) j t v) in
      ground (arith, idle, there);
}
