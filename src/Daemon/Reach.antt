-- ===== src/Daemon/Reach.antt =====
-- The states that a daemon reaches by `initialize`, `tick`, the ends of its runs, the enqueues of
-- src/services/enqueue-service.ts on its queue, and `supersede`.
use oh_my_github_runner.Prelude.{
  ℕ, String, ◌≡◌, sym, ap, ◌∙◌, subst, inl, inr, Bool, true, false, Option, none, some, List,
  if◌then◌else◌, arith, includes, Option-cases,
}
use oh_my_github_runner.Task.{TaskStatus, TaskRecord, QueueTaskInput, running}
use oh_my_github_runner.Strategies.{get_strategy}
use oh_my_github_runner.Queue.{find}
use oh_my_github_runner.Queue.Consistency.{Consistent, view}
use oh_my_github_runner.Queue.Fifo.{view-enqueue}
use oh_my_github_runner.Queue.Listing as Listing
use oh_my_github_runner.Queue.Listing.{or_else}
use oh_my_github_runner.Enqueue.{enqueue}
use oh_my_github_runner.Enqueue.Stores.{replaced_record}
use oh_my_github_runner.Enqueue.Told.{
  AfterInsert, enqueue-AfterInsert, enqueue-unknown, supersede-Told, names,
}
use oh_my_github_runner.Daemon.{Settings, Daemon, Outcome, initialize, tick, run_task, supersede}
use oh_my_github_runner.Daemon.Supervision.{
  Supervised, tick-Supervised, run_task-Supervised, initialize-Supervised,
}

still_running :
    (new_id : String) (now : ℕ) (hit : Bool) (o : Option TaskRecord) (t : TaskRecord)
    → (if hit then replaced_record now new_id o else o) ≡ some t
    → t.status ≡ running
    → o ≡ some t
still_running new_id now false o t e st = e
still_running new_id now true none t e st = e
still_running new_id now true (some u) t e st = ground (arith, e, st)

old_view :
    (d : Daemon) (input : QueueTaskInput) (new_id : String) (now : ℕ)
    → Consistent d.store
    → ((at : TaskStatus) → find at (or_else input.task_id new_id) d.store ≡ none)
    → (j : String) (t : TaskRecord) → view (Listing.enqueue input new_id now d.store).1 j ≡ some t
    → t.status ≡ running
    → view d.store j ≡ some t
old_view d input new_id now c fresh j t v st =
    let (is_queued, views) = view-enqueue input new_id now d.store c fresh j in
    ground (arith, is_queued, views, v, st)

-- The running records among the tasks of an enqueue are those of before.
not_new :
    (d d' : Daemon) (input : QueueTaskInput) (new_id : String) (now : ℕ) (h : Supervised d)
    (fresh : (at : TaskStatus) → find at (or_else input.task_id new_id) d.store ≡ none)
    → AfterInsert input new_id now d h.consistent fresh d'
    → Supervised d'
not_new d d' input new_id now h fresh (s, same, told) = record {
  consistent = told.is_consistent;
  supervised = λ j t v st.
      let there =
        still_running (or_else input.task_id new_id) now (names told.told j) _ t
          (sym (told.is_view j) ∙ v) st in
      ap (includes j) told.same_active
      ∙ h.supervised j t
          (old_view d input new_id now h.consistent fresh j t (sym (same j) ∙ there) st) st;
}

superseded-Supervised :
    (old_id new_id : String) (now : ℕ) (d : Daemon)
    → Supervised d
    → Supervised (supersede old_id new_id now d)
superseded-Supervised old_id new_id now d h =
    let told = supersede-Told new_id now old_id d h.consistent in
    record {
      consistent = told.is_consistent;
      supervised = λ j t v st.
          ap (includes j) told.same_active
          ∙ h.supervised j t
              (still_running new_id now (names told.told j) _ t (sym (told.is_view j) ∙ v) st) st;
    }

enqueue-Supervised :
    (input : QueueTaskInput) (new_id : String) (now : ℕ) (d : Daemon)
    → ((at : TaskStatus) → find at (or_else input.task_id new_id) d.store ≡ none)
    → Supervised d
    → Supervised (enqueue input new_id now d).1
enqueue-Supervised input new_id now d fresh h =
    elim (Option-cases (get_strategy input.instruction_id)) [
      | inl e ↦ subst Supervised (sym (enqueue-unknown input new_id now d h.consistent fresh e)) h
      | inr (policies, e) ↦
          not_new d _ input new_id now h fresh
            (enqueue-AfterInsert input new_id now d h.consistent fresh policies e)
    ]

-- What a daemon reaches from its start: ticks, ends of runs of any task with any outcome, enqueues
-- under an id that has no file, each with the tasks that it supersedes, and single calls of
-- `supersede`, in any order and at any times.
pub data Reached (c : Settings) (tools_for_task : TaskRecord → List String) : Daemon → Type 0 where
  booted :
      (interrupted : String) (now : ℕ) (d : Daemon)
      → Consistent d.store
      → Reached c tools_for_task (initialize c interrupted now d)
  ticked :
      {d : Daemon} (now : ℕ)
      → Reached c tools_for_task d
      → Reached c tools_for_task (tick c tools_for_task now d).1
  ended :
      {d : Daemon} (task : TaskRecord) (outcome : Outcome) (now : ℕ)
      → Reached c tools_for_task d
      → Reached c tools_for_task (run_task c task outcome now d)
  enqueued :
      {d : Daemon} (input : QueueTaskInput) (new_id : String) (now : ℕ)
      → ((at : TaskStatus) → find at (or_else input.task_id new_id) d.store ≡ none)
      → Reached c tools_for_task d
      → Reached c tools_for_task (enqueue input new_id now d).1
  replaced_by :
      {d : Daemon} (old_id new_id : String) (now : ℕ)
      → Reached c tools_for_task d
      → Reached c tools_for_task (supersede old_id new_id now d)

-- If the queue was consistent before the daemon's start, then after any ticks, ends of runs, enqueues
-- under an id that has no file, and calls of `supersede`, in any order and at any times, it is
-- consistent, and each task that it holds as running is one that the daemon counts as active.
pub Reached-Supervised :
    (c : Settings) (tools_for_task : TaskRecord → List String) (d : Daemon)
    → Reached c tools_for_task d
    → Supervised d
Reached-Supervised c tools_for_task d (booted interrupted now d0 con) =
    initialize-Supervised c interrupted now d0 con
Reached-Supervised c tools_for_task d (ticked now r) =
    tick-Supervised c tools_for_task now _ (Reached-Supervised c tools_for_task _ r)
Reached-Supervised c tools_for_task d (ended task outcome now r) =
    run_task-Supervised c task outcome now _ (Reached-Supervised c tools_for_task _ r)
Reached-Supervised c tools_for_task d (enqueued input new_id now fresh r) =
    enqueue-Supervised input new_id now _ fresh (Reached-Supervised c tools_for_task _ r)
Reached-Supervised c tools_for_task d (replaced_by old_id new_id now r) =
    superseded-Supervised old_id new_id now _ (Reached-Supervised c tools_for_task _ r)
