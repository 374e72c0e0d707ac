-- ===== src/Queue/Scan.antt =====
-- `listTasks`: which records it lists, and what it leaves behind.
use oh_my_github_runner.Prelude.{
  ℕ, String, ◌≡◌, refl, sym, subst, ◌∙◌, some, List, [], ◌∷◌, ◌++◌, All, All-append, Member, here,
  there, Member-append_left,
}
use oh_my_github_runner.Task.{
  TaskStatus, queued, running, succeeded, failed, superseded, task_statuses, TaskRecord,
}
use oh_my_github_runner.Queue.{Store, record_at}
use oh_my_github_runner.Queue.Consistency.{Consistent, view, view_at, at_view}
use oh_my_github_runner.Queue.Listing.{list_in_status, list_statuses, list_tasks}
use oh_my_github_runner.Queue.Reads.{
  All-list, Member-list, list-Consistent, view-list, record_at-list,
}

Member-append_right {ℓ} :
    {A : Type ℓ} {a : A} (xs : List A) {ys : List A} → Member a ys → Member a (xs ++ ys)
Member-append_right [] m = m
Member-append_right (x ∷ xs) m = there (Member-append_right xs m)

All-list_statuses :
    (P : TaskRecord → Type 0) (statuses : List TaskStatus) (now : ℕ) (s : Store)
    → ((st : TaskStatus) (id : String) (t : TaskRecord) → record_at st id s ≡ some t → P t)
    → All P (list_statuses statuses now s).0
unfolding list_statuses
All-list_statuses P [] now s h = tt
All-list_statuses P (st ∷ more) now s h = All-append P _ _ (All-list P st now s (h st)) (
    All-list_statuses P more now (list_in_status st now s).1
      λ at id t e. h at id t (sym (record_at-list st now s at id) ∙ e))

Member-list_statuses :
    (t : TaskRecord) (st : TaskStatus) (statuses : List TaskStatus) (id : String) (now : ℕ)
    (s : Store)
    → Member st statuses
    → record_at st id s ≡ some t
    → Member t (list_statuses statuses now s).0
unfolding list_statuses
Member-list_statuses t st [] id now s m e = elim m [ ]
Member-list_statuses t st (_ ∷ more) id now s here e =
    Member-append_left (Member-list t st id now s e) _
Member-list_statuses t st (first ∷ more) id now s (there m) e =
    Member-append_right (list_in_status first now s).0 (
      Member-list_statuses t st more id now (list_in_status first now s).1 m
        (record_at-list first now s st id ∙ e))

status-Member : (st : TaskStatus) → Member st task_statuses
status-Member queued = here
status-Member running = there here
status-Member succeeded = there (there here)
status-Member failed = there (there (there here))
status-Member superseded = there (there (there (there here)))

-- The scan of all directories lists each task of the view, under its own id, and nothing else.
pub list_tasks_sound :
    (now : ℕ) (s : Store) → Consistent s → All (λ t. view s t.task_id ≡ some t) (list_tasks now s).0
unfolding list_tasks
list_tasks_sound now s c =
    All-list_statuses _ task_statuses now s
      λ st id t e. subst (λ k. view s k ≡ some t) (sym (c.named st id t e).0) (view_at c st id t e)

pub list_tasks_complete :
    (now : ℕ) (s : Store) (j : String) (t : TaskRecord)
    → Consistent s
    → view s j ≡ some t
    → Member t (list_tasks now s).0
unfolding list_tasks
list_tasks_complete now s j t c v =
    Member-list_statuses t t.status task_statuses j now s (status-Member t.status) (at_view c j t v)

list_statuses-Consistent :
    (statuses : List TaskStatus) (now : ℕ) (s : Store)
    → Consistent s
    → Consistent (list_statuses statuses now s).1
unfolding list_statuses
list_statuses-Consistent [] now s c = c
list_statuses-Consistent (st ∷ more) now s c =
    list_statuses-Consistent more now (list_in_status st now s).1 (list-Consistent st now s c)

view-list_statuses :
    (statuses : List TaskStatus) (now : ℕ) (s : Store) (j : String)
    → view (list_statuses statuses now s).1 j ≡ view s j
unfolding list_statuses
view-list_statuses [] now s j = refl
view-list_statuses (st ∷ more) now s j =
    view-list_statuses more now (list_in_status st now s).1 j ∙ view-list st now s j

pub list_tasks-Consistent : (now : ℕ) (s : Store) → Consistent s → Consistent (list_tasks now s).1
unfolding list_tasks
list_tasks-Consistent = list_statuses-Consistent task_statuses

pub view-list_tasks : (now : ℕ) (s : Store) (j : String) → view (list_tasks now s).1 j ≡ view s j
unfolding list_tasks
view-list_tasks = view-list_statuses task_statuses
