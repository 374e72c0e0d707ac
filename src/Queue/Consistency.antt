-- ===== src/Queue/Consistency.antt =====
-- The invariant of the queue on disk: a file holds the record of the task that it is named after,
-- with the status of its directory, and no task has files under two statuses.
use oh_my_github_runner.Prelude.{
  ℕ, String, ◌≡◌, sym, subst, ◌≢◌, inl, inr, Option, none, some, arith, ite, text_discrete,
  Option-cases,
}
use oh_my_github_runner.Task.{
  TaskStatus, queued, running, succeeded, failed, superseded, TaskRecord, TaskStatus-discrete,
}
use oh_my_github_runner.Queue.{
  Store, File, find, record_at, write_task_file, file_of, relocate, try_read_task_file,
  quarantine_corrupt_file,
}
use oh_my_github_runner.Queue.Files.{find-relocate, find-write_file, find-remove_file}

pub record Consistent (s : Store) : Type 0 where
  pub named :
      (status : TaskStatus) (task_id : String) (t : TaskRecord)
      → record_at status task_id s ≡ some t
      → (t.task_id ≡ task_id) × (t.status ≡ status)
  pub alone :
      (a b : TaskStatus) (task_id : String) (f g : File)
      → find a task_id s ≡ some f
      → find b task_id s ≡ some g
      → a ≡ b

-- What a client sees of the queue: the record of each task.
abbrev pub or_next : Option TaskRecord → Option TaskRecord → Option TaskRecord
or_next none t = t
or_next (some t) _ = some t

abbrev pub view : Store → String → Option TaskRecord
view s id = or_next (record_at queued id s) (
    or_next (record_at running id s) (
      or_next (record_at succeeded id s)
        (or_next (record_at failed id s) (record_at superseded id s))))

module _ {s : Store} (c : Consistent s) where
  lone :
      (a b : TaskStatus) (task_id : String) (f : File)
      → find a task_id s ≡ some f
      → a ≢ b
      → find b task_id s ≡ none
  lone a b task_id f e differs = elim (Option-cases (find b task_id s)) [
    | inl missing ↦ missing
    | inr (g, e') ↦ absurd (differs (c.alone a b task_id f g e e'))
  ]

  pub found :
      (status : TaskStatus) (task_id : String) (t : TaskRecord)
      → record_at status task_id s ≡ some t
      → (f : File) × (find status task_id s ≡ some f)
  found status task_id t e = elim (Option-cases (find status task_id s)) [
    | inl missing ↦ absurd (ground arith)
    | inr (f, e') ↦ (f, e')
  ]

  pub elsewhere :
      (a b : TaskStatus) (task_id : String) (t : TaskRecord)
      → record_at a task_id s ≡ some t
      → a ≢ b
      → find b task_id s ≡ none
  elsewhere a b task_id t e differs =
      let (f, e') = found a task_id t e in lone a b task_id f e' differs

  pub view_at :
      (status : TaskStatus) (task_id : String) (t : TaskRecord)
      → record_at status task_id s ≡ some t
      → view s task_id ≡ some t
  view_at queued task_id t e = ground arith
  view_at running task_id t e = ground (arith, elsewhere running queued task_id t e (λ p. cc))
  view_at succeeded task_id t e = ground (
    arith,
    elsewhere succeeded queued task_id t e (λ p. cc),
    elsewhere succeeded running task_id t e (λ p. cc),
  )
  view_at failed task_id t e = ground (
    arith,
    elsewhere failed queued task_id t e (λ p. cc),
    elsewhere failed running task_id t e (λ p. cc),
    elsewhere failed succeeded task_id t e (λ p. cc),
  )
  view_at superseded task_id t e = ground (
    arith,
    elsewhere superseded queued task_id t e (λ p. cc),
    elsewhere superseded running task_id t e (λ p. cc),
    elsewhere superseded succeeded task_id t e (λ p. cc),
    elsewhere superseded failed task_id t e (λ p. cc),
  )

  some_status :
      (task_id : String) (t : TaskRecord)
      → view s task_id ≡ some t
      → (status : TaskStatus) × (record_at status task_id s ≡ some t)
  some_status task_id t e = elim (Option-cases (record_at queued task_id s)) [
    | inr (u, q) ↦ (queued, ground arith)
    | inl q ↦ elim (Option-cases (record_at running task_id s)) [
      | inr (u, r) ↦ (running, ground arith)
      | inl r ↦ elim (Option-cases (record_at succeeded task_id s)) [
        | inr (u, w) ↦ (succeeded, ground arith)
        | inl w ↦ elim (Option-cases (record_at failed task_id s)) [
          | inr (u, x) ↦ (failed, ground arith)
          | inl x ↦ (superseded, ground arith)
        ]
      ]
    ]
  ]

  pub at_view :
      (task_id : String) (t : TaskRecord)
      → view s task_id ≡ some t
      → record_at t.status task_id s ≡ some t
  at_view task_id t e =
      let (status, p) = some_status task_id t e in
      subst (λ st. record_at st task_id s ≡ some t) (sym (c.named status task_id t p).1) p

-- A read that fails leaves the other files, and one that succeeds leaves all.
module _ (status : TaskStatus) (task_id : String) (now : ℕ) (s : Store) where
  pub try_read-some :
      (t : TaskRecord)
      → record_at status task_id s ≡ some t
      → try_read_task_file status task_id now s ≡ (some t, s)
  unfolding try_read_task_file
  try_read-some t e = ground arith

  pub try_read-none :
      record_at status task_id s ≡ none → (try_read_task_file status task_id now s).0 ≡ none
  unfolding try_read_task_file
  try_read-none e = ground arith

  find-quarantine :
      (at : TaskStatus) (j : String)
      → find at j (quarantine_corrupt_file status task_id now s)
        ≡ ite
            (TaskStatus-discrete status at)
            (ite (text_discrete task_id j) none (find at j s))
            (find at j s)
  unfolding quarantine_corrupt_file find
  find-quarantine at j = find-remove_file status task_id s at j

  find-try_read :
      (at : TaskStatus) (j : String) (f : File)
      → find at j (try_read_task_file status task_id now s).1 ≡ some f
      → find at j s ≡ some f
  unfolding try_read_task_file
  find-try_read at j f e = ground (arith, find-quarantine at j)

  pub record_at-try_read :
      (at : TaskStatus) (j : String)
      → record_at at j (try_read_task_file status task_id now s).1 ≡ record_at at j s
  unfolding try_read_task_file
  record_at-try_read at j = ground (arith, find-quarantine at j)

  -- Moving a corrupt file aside keeps the queue consistent.
  pub try_read-Consistent : Consistent s → Consistent (try_read_task_file status task_id now s).1
  try_read-Consistent c = record {
    named = λ at j t e. c.named at j t (rw record_at-try_read at e);
    alone = λ a b j f g e e'. c.alone a b j f g (find-try_read a j f e) (find-try_read b j g e');
  }

-- A record that replaces the one of its own task, under any status, keeps the queue consistent.
pub relocate-Consistent :
    (task : TaskRecord) (from : TaskStatus) (now : ℕ) (s : Store) (f : File)
    → Consistent s
    → find from task.task_id s ≡ some f
    → Consistent (relocate task from now s)
relocate-Consistent task from now s f c e = record {
  named = λ at j t h. ground (arith, find-relocate task from now s at j, c.named at j t);
  alone = λ a b j g g' h h'. ground (
    arith,
    find-relocate task from now s a j,
    find-relocate task from now s b j,
    c.alone a b j g g',
    c.alone from a j f g,
    c.alone from b j f g',
  );
}

-- So does a record under a new id.
pub write_new-Consistent :
    (task : TaskRecord) (now : ℕ) (s : Store)
    → Consistent s
    → ((at : TaskStatus) → find at task.task_id s ≡ none)
    → Consistent (write_task_file task now s)
unfolding write_task_file
write_new-Consistent task now s c fresh = record {
  named = λ at j t h.
      ground
        (arith, find-write_file task.status task.task_id (file_of task now) s at j, c.named at j t);
  alone = λ a b j g g' h h'. ground (
    arith,
    find-write_file task.status task.task_id (file_of task now) s a j,
    find-write_file task.status task.task_id (file_of task now) s b j,
    c.alone a b j g g',
    fresh a,
    fresh b,
  );
}
