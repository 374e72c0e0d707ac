-- ===== src/Queue/Files.antt =====
-- What the file operations do to each place of the disk.
use oh_my_github_runner.Prelude.{ℕ, String, ◌≡◌, ◌≢◌, none, some, arith, ite, text_discrete}
use oh_my_github_runner.Prelude.Assoc.{lookup-insert, lookup-erase}
use oh_my_github_runner.Task.{TaskStatus, TaskRecord, TaskStatus-discrete}
use oh_my_github_runner.Queue.{
  Store, File, find, write_file, remove_file, rename, file_of, relocate, relocate_rewrite,
}

module _ (status : TaskStatus) (task_id : String) where
  pub find-write_file :
      (f : File) (s : Store) (at : TaskStatus) (j : String)
      → find at j (write_file status task_id f s)
        ≡ ite
            (TaskStatus-discrete status at)
            (ite (text_discrete task_id j) (some f) (find at j s))
            (find at j s)
  unfolding find write_file
  find-write_file f s at j = ground (arith, lookup-insert task_id j f (s.dir status))

  pub find-remove_file :
      (s : Store) (at : TaskStatus) (j : String)
      → find at j (remove_file status task_id s)
        ≡ ite
            (TaskStatus-discrete status at)
            (ite (text_discrete task_id j) none (find at j s))
            (find at j s)
  unfolding find remove_file
  find-remove_file s at j = ground (arith, lookup-erase task_id j (s.dir status))

find-rename :
    (from to : TaskStatus) (task_id : String) (s : Store) (f : File) (at : TaskStatus) (j : String)
    → find from task_id s ≡ some f
    → find at j (rename from to task_id s)
      ≡ ite
          (text_discrete task_id j)
          (ite
            (TaskStatus-discrete to at)
            (some f)
            (ite (TaskStatus-discrete from at) none (find at j s)))
          (find at j s)
unfolding rename
find-rename from to task_id s f at j e = ground (
  arith,
  find-write_file to task_id f (remove_file from task_id s) at j,
  find-remove_file from task_id s at j,
)

module _ (task : TaskRecord) (from : TaskStatus) (now : ℕ) (s : Store) (at : TaskStatus)
    (j : String) where
  abbrev Relocated : Type 0
  Relocated =
      find at j (relocate task from now s)
      ≡ ite (text_discrete task.task_id j)
          (ite (TaskStatus-discrete task.status at) (some (file_of task now))
            (ite (TaskStatus-discrete from at) none (find at j s)))
          (find at j s)

  relocate_in_place : from ≡ task.status → Relocated
  unfolding relocate
  relocate_in_place same =
      ground (arith, find-write_file from task.task_id (file_of task now) s at j)

  rewritten : find from task.task_id (relocate_rewrite task from now s) ≡ some (file_of task now)
  unfolding relocate_rewrite
  rewritten =
      ground (arith, find-write_file from task.task_id (file_of task now) s from task.task_id)

  relocate_across : from ≢ task.status → Relocated
  unfolding relocate
  relocate_across differs = ground (
    arith,
    find-write_file from task.task_id (file_of task now) s at j,
    rewritten,
    find-rename from task.status task.task_id (relocate_rewrite task from now s) (file_of task now)
        at j,
  )

-- After `relocate` the file of the task stands under the status of its record, no longer under the
-- old status, and all other files are as they were.
pub find-relocate :
    (task : TaskRecord) (from : TaskStatus) (now : ℕ) (s : Store) (at : TaskStatus) (j : String)
    → find at j (relocate task from now s)
      ≡ ite
          (text_discrete task.task_id j)
          (ite
            (TaskStatus-discrete task.status at)
            (some (file_of task now))
            (ite (TaskStatus-discrete from at) none (find at j s)))
          (find at j s)
find-relocate task from now s at j = elim (TaskStatus-discrete from task.status) [
  | yes same ↦ relocate_in_place task from now s at j same
  | no differs ↦ relocate_across task from now s at j differs
]
