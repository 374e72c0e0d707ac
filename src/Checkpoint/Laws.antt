-- ===== src/Checkpoint/Laws.antt =====
-- What a read gives after the other operations of the checkpoint store.
use oh_my_github_runner.Prelude.{
  String, ◌≡◌, refl, none, some, List, [], ◌∷◌, if◌then◌else◌, includes, keep, ite, arith,
  text_discrete,
}
use oh_my_github_runner.Prelude.Assoc.{Assoc, lookup, insert, lookup-insert, lookup-erase}
use oh_my_github_runner.Checkpoint.{
  CheckpointEntry, Persisted, Checkpoints, files_of, read, read_file, write, drop, sweep,
}

lookup-nil : {V : Type 0} (k : String) → lookup {V = V} k [] ≡ none
unfolding lookup
lookup-nil k = refl

module _ (step_filename : String → String) where
  -- After a write, a read of the same step of the task, or of one whose file has the same name,
  -- finds the entry. Any other read finds what it found before.
  pub read-write :
      (task_id j : String) (entry : CheckpointEntry) (key : String) (c : Checkpoints)
      → (read step_filename j key (write step_filename task_id entry c)).0
        ≡ ite
            (text_discrete task_id j)
            (ite
              (text_discrete (step_filename entry.step_key) (step_filename key))
              (some entry)
              (read step_filename j key c).0)
            (read step_filename j key c).0
  unfolding read write read_file
  read-write task_id j entry key c = ground (
    arith,
    lookup-insert task_id j
        (insert (step_filename entry.step_key) (Persisted.persisted 1 entry)
          (files_of task_id c.dirs))
        c.dirs,
    lookup-insert (step_filename entry.step_key) (step_filename key) (Persisted.persisted 1 entry)
        (files_of task_id c.dirs),
  )

-- After a drop no step of the task has a saved result, and the results of other tasks are kept.
pub read-drop :
    (step_filename : String → String) (task_id j key : String) (c : Checkpoints)
    → (read step_filename j key (drop task_id c)).0
      ≡ ite (text_discrete task_id j) none (read step_filename j key c).0
unfolding read drop read_file
read-drop step_filename task_id j key c =
    ground (arith, lookup-erase task_id j c.dirs, lookup-nil {V = Persisted} (step_filename key))

lookup-keep :
    {V : Type 0} (ids : List String) (j : String) (m : Assoc V)
    → lookup j (keep (λ e. includes e.0 ids) m) ≡ (if includes j ids then lookup j m else none)
unfolding lookup
lookup-keep ids j [] = ground arith
lookup-keep ids j ((k, v) ∷ m) = ground (arith, lookup-keep ids j m)

-- After a sweep, a read finds what it found before for the active tasks, and nothing for all
-- others.
pub read-sweep :
    (step_filename : String → String) (active : List String) (j key : String) (c : Checkpoints)
    → (read step_filename j key (sweep active c).1).0
      ≡ (if includes j active then (read step_filename j key c).0 else none)
unfolding read sweep read_file
read-sweep step_filename active j key c =
    ground (arith, lookup-keep active j c.dirs, lookup-nil {V = Persisted} (step_filename key))
