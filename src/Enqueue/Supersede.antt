-- ===== src/Enqueue/Supersede.antt =====
-- What an enqueue does to the tasks of its source and to all others, and whom it tells.
use oh_my_github_runner.Prelude.{
  ℕ, String, ◌≡◌, refl, ap, ◌∙◌, inl, inr, Bool, true, false, none, some, List, [], ◌∷◌, ite,
  text_discrete, Option-cases, Bool-cases, if◌then◌else◌,
}
use oh_my_github_runner.Prelude.Action.{Result, ok, err}
use oh_my_github_runner.Task.{TaskStatus, TaskRecord, QueueTaskInput}
use oh_my_github_runner.Strategies.{get_strategy, supersedes}
use oh_my_github_runner.Queue.{Store, find}
use oh_my_github_runner.Queue.Consistency.{Consistent, view}
use oh_my_github_runner.Queue.Listing as Listing
use oh_my_github_runner.Queue.Listing.{find_queued_by_source, or_else}
use oh_my_github_runner.Daemon.{Daemon, supersede, superseded_end}
use oh_my_github_runner.Enqueue.{is_conflict, supersede_conflicts, enqueue}
use oh_my_github_runner.Enqueue.Stores.{
  supersede_store, supersede_all, enqueue_store, policy, enqueue_store-view,
}

superseded_end-store :
    (old_id new_id : String) (r : Result TaskRecord) (d : Daemon)
    → (superseded_end old_id new_id r d).store ≡ d.store
superseded_end-store old_id new_id (ok t) d = refl
superseded_end-store old_id new_id (err e) d = refl

supersede-store :
    (old_id new_id : String) (now : ℕ) (d : Daemon)
    → (supersede old_id new_id now d).store ≡ supersede_store old_id new_id now d.store
unfolding supersede supersede_store
supersede-store old_id new_id now d = superseded_end-store old_id new_id _ _

module _ (new_id : String) (now : ℕ) where
  one-store :
      (old : TaskRecord) (d : Daemon)
      → (if is_conflict new_id old then supersede old.task_id new_id now d else d).store ≡ (
          if is_conflict new_id old
          then supersede_store old.task_id new_id now d.store
          else d.store)
  one-store old d = elim (Bool-cases (is_conflict new_id old)) [
    | inl e ↦ rw e (supersede-store old.task_id new_id now d)
    | inr e ↦ rw e refl
  ]

  supersede_conflicts-store :
      (olds : List TaskRecord) (d : Daemon)
      → (supersede_conflicts new_id now olds d).store ≡ supersede_all new_id now olds d.store
  unfolding supersede_conflicts supersede_all
  supersede_conflicts-store [] d = refl
  supersede_conflicts-store (old ∷ olds) d =
      supersede_conflicts-store olds _ ∙ ap (supersede_all new_id now olds) (one-store old d)

abbrev Projected : Result TaskRecord × Daemon → Result TaskRecord × Store → Type 0
Projected r q = (r.0 ≡ q.0) × (r.1.store ≡ q.1)

enqueue-Projected :
    (input : QueueTaskInput) (new_id : String) (now : ℕ) (d : Daemon)
    → Projected (enqueue input new_id now d) (enqueue_store input new_id now d.store)
unfolding enqueue enqueue_store
enqueue-Projected input new_id now d = elim (Option-cases (get_strategy input.instruction_id)) [
  | inl e ↦ rw (e, enqueue, enqueue_store) (refl, refl)
  | inr (policies, e) ↦
      rw (e, enqueue, enqueue_store) (refl, under policies.supersede_on_same_source)
]
  where
    inserted : Store
    inserted = (Listing.enqueue input new_id now d.store).1

    listed : Store
    listed = (find_queued_by_source input.repo input.source now inserted).1

    id : String
    id = (Listing.enqueue input new_id now d.store).0.task_id

    conflicts : List TaskRecord
    conflicts = (find_queued_by_source input.repo input.source now inserted).0

    under :
        (on : Bool)
        → (if on
            then supersede_conflicts id now conflicts (record d { store = listed })
            else record d { store = inserted }).store
          ≡ (if on then supersede_all id now conflicts listed else inserted)
    under true = supersede_conflicts-store id now conflicts _
    under false = refl

-- On a consistent queue, and under an id that has no file yet, an enqueue of a superseding
-- strategy returns the new task. Each queued task of the same source whose strategy supersedes is
-- marked as replaced by it; a running task, a finished one, a task of another source, and one
-- whose strategy does not supersede keep their records.
pub enqueue-view :
    (input : QueueTaskInput) (new_id : String) (now : ℕ) (d : Daemon)
    → Consistent d.store
    → ((at : TaskStatus) → find at (or_else input.task_id new_id) d.store ≡ none)
    → supersedes (get_strategy input.instruction_id) ≡ true
    → (j : String)
    → ((enqueue input new_id now d).0 ≡ ok (Listing.enqueue input new_id now d.store).0)
      × (view (enqueue input new_id now d).1.store j
          ≡ ite
              (text_discrete (or_else input.task_id new_id) j)
              (some (Listing.enqueue input new_id now d.store).0)
              (policy input (or_else input.task_id new_id) now (view d.store j)))
enqueue-view input new_id now d c fresh on j =
    let (same, at_store) = enqueue-Projected input new_id now d in
    let (result, at_view) = enqueue_store-view input new_id now d.store c fresh on j in
    (same ∙ result, ap (λ s. view s j) at_store ∙ at_view)
