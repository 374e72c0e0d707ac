-- ===== src/Queue/Fifo.antt =====
-- The times that `enqueue` of file-queue-store.ts gives, and the order of a listing.
use mathlib.Core.List.{map-append}
use oh_my_github_runner.Prelude.{
  ap, ◌∙◌, ℕ, ◌≤◌, ◌<◌, String, ◌≡◌, refl, sym, subst, ◌≢◌, Option, none, some, List, [], ◌∷◌, ◌++◌,
  arith, ite, text_discrete, All,
}
use oh_my_github_runner.Prelude.Assoc.{Assoc, lookup, keys, insert_new}
use oh_my_github_runner.Task.{
  running, succeeded, failed, superseded, TaskStatus, queued, TaskRecord, QueueTaskInput,
  TaskStatus-discrete,
}
use oh_my_github_runner.Queue.{
  Store, File, find, file_of, write_file, write_task_file, set_dir, record_at,
}
use oh_my_github_runner.Queue.Files.{find-write_file}
use oh_my_github_runner.Queue.Consistency.{Consistent, view, write_new-Consistent}
use oh_my_github_runner.Queue.Listing.{
  sort_by_created, insert_by_created, list_in_status, enqueue, or_else,
}
use oh_my_github_runner.Queue.Reads.{gather, list-gather, All-gather}

abbrev pub IsSorted : List TaskRecord → Type 0
IsSorted [] = Unit
IsSorted (t ∷ ts) = All (λ u. t.created_at ≤ u.created_at) ts × IsSorted ts

insert-All-le :
    (n : ℕ) (t : TaskRecord) (ts : List TaskRecord)
    → n ≤ t.created_at
    → All (λ u. n ≤ u.created_at) ts
    → All (λ u. n ≤ u.created_at) (insert_by_created t ts)
unfolding insert_by_created
insert-All-le n t [] h a = (h, tt)
insert-All-le n t (u ∷ us) h a = ground (arith, insert-All-le n t us h a.1)

le-All-le :
    (m n : ℕ) (ts : List TaskRecord)
    → m ≤ n
    → All (λ u. n ≤ u.created_at) ts
    → All (λ u. m ≤ u.created_at) ts
le-All-le m n [] h a = tt
le-All-le m n (t ∷ ts) h a = (omega arith, le-All-le m n ts h a.1)

insert-IsSorted :
    (t : TaskRecord) (ts : List TaskRecord) → IsSorted ts → IsSorted (insert_by_created t ts)
unfolding insert_by_created
insert-IsSorted t [] s = (tt, tt)
insert-IsSorted t (u ∷ us) s = ground (
  arith,
  insert-IsSorted t us s.1,
  insert-All-le u.created_at t us,
  le-All-le t.created_at u.created_at us,
)

sort-IsSorted : (ts : List TaskRecord) → IsSorted (sort_by_created ts)
unfolding sort_by_created
sort-IsSorted [] = tt
sort-IsSorted (t ∷ ts) = insert-IsSorted t (sort_by_created ts) (sort-IsSorted ts)

-- Each listing is in the order of creation, whatever order the directory is read in.
pub list-IsSorted :
    (status : TaskStatus) (now : ℕ) (s : Store) → IsSorted (list_in_status status now s).0
list-IsSorted status now s = subst IsSorted (sym (list-gather status now s)) (sort-IsSorted _)

insert_last :
    (x t : TaskRecord) (us : List TaskRecord)
    → x.created_at ≤ t.created_at
    → insert_by_created x (us ++ t ∷ []) ≡ insert_by_created x us ++ t ∷ []
unfolding insert_by_created
insert_last x t [] h = ground arith
insert_last x t (u ∷ us) h = ground (arith, insert_last x t us)

sort_last :
    (t : TaskRecord) (ts : List TaskRecord)
    → All (λ u. u.created_at ≤ t.created_at) ts
    → sort_by_created (ts ++ t ∷ []) ≡ sort_by_created ts ++ t ∷ []
unfolding sort_by_created insert_by_created
sort_last t [] h = refl
sort_last t (x ∷ ts) h = rw (sort_last t ts h.1) (insert_last x t (sort_by_created ts) h.0)

gather-append :
    (f : String → Option TaskRecord) (ids : List String) (id : String) (t : TaskRecord)
    → f id ≡ some t
    → gather f (ids ++ id ∷ []) ≡ gather f ids ++ t ∷ []
unfolding gather
gather-append f [] id t e = rw e
gather-append f (j ∷ ids) id t e = ground (arith, gather-append f ids id t e)

gather_other :
    (f g : String → Option TaskRecord) (id : String) (m : Assoc File)
    → ((j : String) → id ≢ j → f j ≡ g j)
    → lookup id m ≡ none
    → gather f (keys m) ≡ gather g (keys m)
unfolding gather lookup
gather_other f g id [] h e = refl
gather_other f g id ((j, v) ∷ m) h e = ground (arith, h j, gather_other f g id m h)

-- The creation time of a new task is later than every time that the store gave before.
pub enqueue_rises :
    (input : QueueTaskInput) (new_id : String) (now : ℕ) (s : Store)
    → (s.last_created_at < (enqueue input new_id now s).0.created_at)
      × ((enqueue input new_id now s).1.last_created_at ≡ (enqueue input new_id now s).0.created_at)
unfolding enqueue write_task_file write_file
enqueue_rises input new_id now s = ground arith

module _ (input : QueueTaskInput) (new_id : String) (now : ℕ) (s : Store) (c : Consistent s)
    (fresh : (at : TaskStatus) → find at (or_else input.task_id new_id) s ≡ none) where
  abbrev id : String
  id = or_else input.task_id new_id

  abbrev task : TaskRecord
  task = (enqueue input new_id now s).0

  abbrev store : Store
  store = (enqueue input new_id now s).1

  task-task_id : task.task_id ≡ id
  unfolding enqueue
  task-task_id = refl

  find-enqueue :
      (at : TaskStatus) (j : String)
      → find at j store
        ≡ ite
            (TaskStatus-discrete queued at)
            (ite (text_discrete id j) (some (file_of task now)) (find at j s))
            (find at j s)
  unfolding enqueue write_task_file find
  find-enqueue at j =
      find-write_file queued id (file_of task now) (record s { last_created_at = task.created_at })
        at j

  dir-enqueue : store.dir queued ≡ s.dir queued ++ (id, file_of task now) ∷ []
  unfolding enqueue write_task_file write_file set_dir find TaskStatus-discrete
  dir-enqueue = insert_new id (file_of task now) (s.dir queued) (fresh queued)

  -- A task under a new id keeps the queue consistent.
  pub enqueue-Consistent : Consistent store
  unfolding enqueue find
  enqueue-Consistent =
      write_new-Consistent task now (record s { last_created_at = task.created_at })
        (record { named = c.named; alone = c.alone }) fresh

  -- The new task is queued under its id, and no other task changes.
  pub view-enqueue :
      (j : String)
      → (task.status ≡ queued) × (view store j ≡ ite (text_discrete id j) (some task) (view s j))
  view-enqueue j = (
    unfold enqueue in refl,
    ground (
      arith,
      find-enqueue queued j,
      find-enqueue running j,
      find-enqueue succeeded j,
      find-enqueue failed j,
      find-enqueue superseded j,
      fresh running,
      fresh succeeded,
      fresh failed,
      fresh superseded,
    ),
  )

  other_records : (j : String) → id ≢ j → record_at queued j store ≡ record_at queued j s
  other_records j differs = ground (arith, find-enqueue queued j)

  -- If no queued task is newer than the last time that the store gave, the new task is listed
  -- behind all queued tasks, whose order does not change.
  pub enqueue_fifo :
      (later : ℕ)
      → ((j : String) (t : TaskRecord)
          → record_at queued j s ≡ some t
          → t.created_at ≤ s.last_created_at)
      → (list_in_status queued later store).0 ≡ (list_in_status queued later s).0 ++ task ∷ []
  enqueue_fifo later old =
      list-gather queued later store
      ∙ ap sort_by_created names
      ∙ sort_last task (gather (λ j. record_at queued j s) (keys (s.dir queued)))
          (All-gather (λ u. u.created_at ≤ task.created_at) _ _ older)
      ∙ ap (λ ts. ts ++ task ∷ []) (sym (list-gather queued later s))
    where
      older :
          (j : String) (t : TaskRecord)
          → record_at queued j s ≡ some t
          → t.created_at ≤ task.created_at
      older j t e = ground (arith, old j t e, enqueue_rises input new_id now s)

      names :
          gather (λ j. record_at queued j store) (keys (store.dir queued))
          ≡ gather (λ j. record_at queued j s) (keys (s.dir queued)) ++ task ∷ []
      names =
          ap (λ d. gather (λ j. record_at queued j store) (keys d)) dir-enqueue
          ∙ ap (gather (λ j. record_at queued j store)) (map-append _ (s.dir queued) _)
          ∙ gather-append (λ j. record_at queued j store) (keys (s.dir queued)) id task
              (ground (arith, find-enqueue queued id))
          ∙ ap (λ ts. ts ++ task ∷ [])
              (gather_other (λ j. record_at queued j store) (λ j. record_at queued j s) id
                (s.dir queued) other_records (unfold find in fresh queued))
