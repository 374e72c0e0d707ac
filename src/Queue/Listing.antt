-- ===== src/Queue/Listing.antt =====
-- The reads of file-queue-store.ts over whole directories, and `enqueue`.
use oh_my_github_runner.Prelude.{
  ℕ, ◌+◌, String, Option, none, some, List, [], ◌∷◌, ◌++◌, ltb, leb, if◌then◌else◌, keep, is,
  text_discrete,
}
use oh_my_github_runner.Prelude.Assoc.{keys}
use oh_my_github_runner.Task.{
  TaskStatus, queued, task_statuses, TaskRecord, TaskNotifications, QueueTaskInput, RepoRef,
  SourceRef, normal, has_same_source,
}
use oh_my_github_runner.Queue.{Store, try_read_task_file, write_task_file}

abbrev pub cons_some : Option TaskRecord → List TaskRecord → List TaskRecord
cons_some none ts = ts
cons_some (some t) ts = t ∷ ts

-- The loop over the entries of one directory.
unfoldable pub read_each : TaskStatus → ℕ → List String → Store → List TaskRecord × Store
read_each status now [] s = ([], s)
read_each status now (task_id ∷ ids) s =
    let (t, s') = try_read_task_file status task_id now s in
    let (ts, s'') = read_each status now ids s' in (cons_some t ts, s'')

-- `sort` by `createdAt`: a stable sort.
unfoldable pub insert_by_created : TaskRecord → List TaskRecord → List TaskRecord
insert_by_created t [] = t ∷ []
insert_by_created t (u ∷ us) =
    let rest = insert_by_created t us in
    if leb t.created_at u.created_at then t ∷ u ∷ us else u ∷ rest

unfoldable pub sort_by_created : List TaskRecord → List TaskRecord
unfolding insert_by_created
sort_by_created [] = []
sort_by_created (t ∷ ts) = insert_by_created t (sort_by_created ts)

unfoldable pub list_in_status : TaskStatus → ℕ → Store → List TaskRecord × Store
list_in_status status now s =
    let (ts, s') = read_each status now (keys (s.dir status)) s in (sort_by_created ts, s')

unfoldable pub list_statuses : List TaskStatus → ℕ → Store → List TaskRecord × Store
list_statuses [] now s = ([], s)
list_statuses (status ∷ more) now s =
    let (ts, s') = list_in_status status now s in
    let (us, s'') = list_statuses more now s' in (ts ++ us, s'')

unfoldable pub list_tasks : ℕ → Store → List TaskRecord × Store
list_tasks = list_statuses task_statuses

-- `getTask`: the first status in which the task reads.
unfoldable pub get_from : List TaskStatus → String → ℕ → Store → Option TaskRecord × Store
get_from [] task_id now s = (none, s)
get_from (status ∷ more) task_id now s =
    let (t, s') = try_read_task_file status task_id now s in
    let rest = get_from more task_id now s' in
    elim t [ some record_found ↦ (some record_found, s') | none ↦ rest ]

unfoldable pub get_task : String → ℕ → Store → Option TaskRecord × Store
unfolding get_from
get_task = get_from task_statuses

unfoldable pub find_queued_by_source : RepoRef → SourceRef → ℕ → Store → List TaskRecord × Store
find_queued_by_source repo source now s =
    let (ts, s') = list_in_status queued now s in
    (keep (λ t. has_same_source t.repo t.source repo source) ts, s')

-- Strictly later than every time given before.
unfoldable pub next_created_at : ℕ → ℕ → ℕ
next_created_at now last = if ltb last now then now else last + 1

abbrev pub or_else {ℓ} : {A : Type ℓ} → Option A → A → A
or_else none a = a
or_else (some b) a = b

-- An empty text of instructions is left out, and so are notifications without a reference.
abbrev pub non_empty : Option String → Option String
non_empty none = none
non_empty (some text) = if is (text_discrete text "") then none else some text

abbrev pub referenced : Option TaskNotifications → Option TaskNotifications
referenced none = none
referenced (some n) = elim n.sticky [
  | some _ ↦ some n
  | none ↦ elim n.trigger [ some _ ↦ some n | none ↦ none ]
]

abbrev pub new_task : QueueTaskInput → String → ℕ → TaskRecord
new_task input new_id created_at = record {
  task_id = or_else input.task_id new_id;
  repo = input.repo;
  source = input.source;
  instruction_id = input.instruction_id;
  additional_instructions = non_empty input.additional_instructions;
  status = queued;
  priority = or_else input.priority normal;
  requested_by = input.requested_by;
  created_at = created_at;
  started_at = none;
  finished_at = none;
  error_summary = none;
  superseded_by = none;
  notifications = referenced input.notifications;
}

-- `new_id` is what `createTaskId` draws.
unfoldable pub enqueue : QueueTaskInput → String → ℕ → Store → TaskRecord × Store
unfolding next_created_at
enqueue input new_id now s =
    let created = next_created_at now s.last_created_at in
    let task = new_task input new_id created in
    (task, write_task_file task now (record s { last_created_at = created }))
