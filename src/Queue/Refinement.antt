-- ===== src/Queue/Refinement.antt =====
-- The transitions of the queue on disk against their specification on the view: a table from task
-- ids to records, in which a transition replaces one record or reports that it may not.
use oh_my_github_runner.Prelude.{
  ℕ, String, ◌≡◌, refl, sym, subst, ◌≢◌, ◌∙◌, inl, inr, none, some, arith, ite, if_pos,
  text_discrete, Option-cases,
}
use oh_my_github_runner.Prelude.Action.{Result, Failure, ok, err, task_not_found, not_queued, after}
use oh_my_github_runner.Task.{
  TaskStatus, queued, running, succeeded, failed, superseded, TaskRecord,
}
use oh_my_github_runner.Queue.{
  Store, File, find, record_at, relocate, relocated, try_read_task_file, or_throw,
  require_from_status,
}
use oh_my_github_runner.Queue.Files.{find-relocate}
use oh_my_github_runner.Queue.Consistency.{
  Consistent, view, found, view_at, at_view, try_read-some, try_read-none, record_at-try_read,
  try_read-Consistent, relocate-Consistent,
}
use oh_my_github_runner.Queue.Transitions.{
  started, Completion, finished, requeued, replaced, start_task, complete_task, revert_to_queued,
  mark_superseded, require_queued,
}

view-relocate :
    (task : TaskRecord) (from : TaskStatus) (now : ℕ) (s : Store) (f : File) (j : String)
    → Consistent s
    → find from task.task_id s ≡ some f
    → view (relocate task from now s) j ≡ ite (text_discrete task.task_id j) (some task) (view s j)
view-relocate task from now s f j c e = elim (text_discrete task.task_id j) [
  | yes same ↦ rw (if_pos _ same) (
      view_at (relocate-Consistent task from now s f c e) task.status j task
        (ground (arith, find-relocate task from now s task.status j)))
  | no differs ↦ ground (
    arith,
    find-relocate task from now s queued j,
    find-relocate task from now s running j,
    find-relocate task from now s succeeded j,
    find-relocate task from now s failed j,
    find-relocate task from now s superseded j,
  )
]

-- The task was in `from`: it now has the record `f t`, no other task changed, and the call returns
-- the new record. Or it was not: the call throws `e` and no task changed. Either way the
-- directories stay consistent.
pub data Moves (from : TaskStatus) (f : TaskRecord → TaskRecord) (e : Failure) (task_id : String)
    (s : Store) (r : Result TaskRecord × Store) : Type 0 where
  moved :
      (t : TaskRecord)
      → view s task_id ≡ some t
      → t.status ≡ from
      → r.0 ≡ ok (f t)
      → Consistent r.1
      → ((j : String) → view r.1 j ≡ ite (text_discrete task_id j) (some (f t)) (view s j))
      → Moves from f e task_id s r
  refused :
      ((t : TaskRecord) → view s task_id ≡ some t → t.status ≢ from)
      → r.0 ≡ err e
      → Consistent r.1
      → ((j : String) → view r.1 j ≡ view s j)
      → Moves from f e task_id s r

module _ (from : TaskStatus) (f : TaskRecord → TaskRecord) (e : Failure) (task_id : String)
    (now : ℕ) (keeps_id : (t : TaskRecord) → (f t).task_id ≡ t.task_id) (s : Store)
    (c : Consistent s) where
  abbrev move : Result TaskRecord × Store
  move =
      after (or_throw (try_read_task_file from task_id now s) (err e)) λ t. relocated (f t) from now

  move_ok :
      (t : TaskRecord)
      → record_at from task_id s ≡ some t
      → move ≡ (ok (f t), relocate (f t) from now s)
  move_ok t p = rw (try_read-some from task_id now s t p)

  move_found : (t : TaskRecord) → record_at from task_id s ≡ some t → Moves from f e task_id s move
  move_found t p =
      let (named, status) = c.named from task_id t p in
      let id : (f t).task_id ≡ task_id = keeps_id t ∙ named in
      let (file, there) = found c from task_id t p in
      let there' : find from (f t).task_id s ≡ some file = rw id there in
      subst (Moves from f e task_id s) (sym (move_ok t p)) (
        moved t (view_at c from task_id t p) status refl
          (relocate-Consistent (f t) from now s file c there')
          (λ j. ground (arith, view-relocate (f t) from now s file j c there')))

  -- What a refused call leaves behind: a corrupt file may have been moved aside.
  abbrev left : Store
  left = (try_read_task_file from task_id now s).1

  move_err : record_at from task_id s ≡ none → move ≡ (err e, left)
  move_err p = ground (arith, try_read-none from task_id now s p)

  not_there :
      record_at from task_id s ≡ none → (t : TaskRecord) → view s task_id ≡ some t → t.status ≢ from
  not_there p t v same = ground (arith, at_view c task_id t v)

  view-left : (j : String) → view left j ≡ view s j
  view-left j = simp record_at-try_read

  move_missing : record_at from task_id s ≡ none → Moves from f e task_id s move
  move_missing p =
      subst (Moves from f e task_id s) (sym (move_err p))
        (refused (not_there p) refl (try_read-Consistent from task_id now s c) view-left)

  move-Moves : Moves from f e task_id s move
  move-Moves = elim (Option-cases (record_at from task_id s)) [
    | inl p ↦ move_missing p
    | inr (t, p) ↦ move_found t p
  ]

-- On a consistent queue, `startTask` of a queued task makes it running, with a start time and no
-- trace of an earlier run, and changes no other task; of any other id it throws and changes no
-- task.
pub start_task-Moves :
    (task_id : String) (now : ℕ) (s : Store)
    → Consistent s
    → Moves queued (started now) (task_not_found task_id) task_id s (start_task task_id now s)
unfolding start_task require_from_status
start_task-Moves task_id now s c =
    move-Moves queued (started now) (task_not_found task_id) task_id now (λ t. refl) s c

-- On a consistent queue, `completeTask` of a running task gives it the terminal status of the
-- input, with a finish time, and changes no other task; of any other id it throws and changes no
-- task.
pub complete_task-Moves :
    (task_id : String) (input : Completion) (now : ℕ) (s : Store)
    → Consistent s
    → Moves running
        (finished now input)
        (task_not_found task_id)
        task_id
        s
        (complete_task task_id input now s)
unfolding complete_task require_from_status
complete_task-Moves task_id input now s c =
    move-Moves running (finished now input) (task_not_found task_id) task_id now (λ t. refl) s c

-- On a consistent queue, `revertToQueued` of a running task makes it queued, with the fields of its
-- run removed, and changes no other task; of any other id it throws and changes no task.
pub revert_to_queued-Moves :
    (task_id : String) (now : ℕ) (s : Store)
    → Consistent s
    → Moves running requeued (task_not_found task_id) task_id s (revert_to_queued task_id now s)
unfolding revert_to_queued require_from_status
revert_to_queued-Moves task_id now s c =
    move-Moves running requeued (task_not_found task_id) task_id now (λ t. refl) s c

-- On a consistent queue, `markSuperseded` of a queued task makes it superseded by the given task,
-- and changes no other task; of any other id it throws and changes no task.
pub mark_superseded-Moves :
    (task_id superseded_by : String) (now : ℕ) (s : Store)
    → Consistent s
    → Moves queued
        (replaced now superseded_by)
        (not_queued task_id)
        task_id
        s
        (mark_superseded task_id superseded_by now s)
unfolding mark_superseded require_queued
mark_superseded-Moves task_id superseded_by now s c =
    move-Moves queued (replaced now superseded_by) (not_queued task_id) task_id now (λ t. refl) s c

pub Moves-Consistent :
    {from : TaskStatus} {f : TaskRecord → TaskRecord} {e : Failure} {task_id : String} {s : Store}
    {r : Result TaskRecord × Store}
    → Moves from f e task_id s r
    → Consistent r.1
Moves-Consistent (moved t v q o c after_view) = c
Moves-Consistent (refused missing o c after_view) = c
