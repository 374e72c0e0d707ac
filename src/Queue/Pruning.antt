-- ===== src/Queue/Pruning.antt =====
-- What `pruneTerminalTasks` removes.
use oh_my_github_runner.Prelude.{
  Option-cases, inl, inr, ℕ, String, ◌≡◌, refl, Bool, true, false, ◌&&◌, none, List, [], ◌∷◌, arith,
  includes, if◌then◌else◌,
}
use oh_my_github_runner.Prelude.Assoc.{includes-keys, Assoc, lookup, erase, keys, lookup-erase}
use oh_my_github_runner.Task.{
  TaskStatus, queued, running, succeeded, failed, superseded, TaskStatus-discrete,
}
use oh_my_github_runner.Queue.{Store, File, find, set_dir}
use oh_my_github_runner.Queue.Consistency.{Consistent}
use oh_my_github_runner.Queue.Sweeps.{expired, prune_names, prune_statuses, prune_terminal_tasks}

lookup-prune_names :
    (cutoff : ℕ) (names : List String) (d : Assoc File) (j : String)
    → lookup j (prune_names cutoff names d).1
      ≡ (if includes j names && expired cutoff (lookup j d) then none else lookup j d)
unfolding prune_names includes
lookup-prune_names cutoff [] d j = refl
lookup-prune_names cutoff (name ∷ names) d j = ground (
  arith,
  lookup-prune_names cutoff names (if expired cutoff (lookup name d) then erase name d else d) j,
  lookup-erase name j d,
)

lookup-prune_keys :
    (cutoff : ℕ) (d : Assoc File) (j : String)
    → lookup j (prune_names cutoff (keys d) d).1
      ≡ (if expired cutoff (lookup j d) then none else lookup j d)
lookup-prune_keys cutoff d j = elim (Option-cases (lookup j d)) [
  | inl e ↦ ground (arith, lookup-prune_names cutoff (keys d) d j)
  | inr (f, e) ↦ ground (arith, lookup-prune_names cutoff (keys d) d j, includes-keys j d f e)
]

abbrev pub is_terminal : TaskStatus → Bool
is_terminal queued = false
is_terminal running = false
is_terminal _ = true

-- Pruning removes the files of the terminal statuses that were last written at the cutoff or
-- before, and no other file: never one of a queued or a running task.
pub find-prune :
    (older_than : ℕ) (s : Store) (at : TaskStatus) (j : String)
    → find at j (prune_terminal_tasks older_than s).1
      ≡ (if is_terminal at && expired older_than (find at j s) then none else find at j s)
unfolding find prune_terminal_tasks prune_statuses set_dir TaskStatus-discrete
find-prune older_than s queued j = refl
find-prune older_than s running j = refl
find-prune older_than s succeeded j = lookup-prune_keys older_than (s.dir succeeded) j
find-prune older_than s failed j = lookup-prune_keys older_than (s.dir failed) j
find-prune older_than s superseded j = lookup-prune_keys older_than (s.dir superseded) j

pub prune-Consistent :
    (older_than : ℕ) (s : Store) → Consistent s → Consistent (prune_terminal_tasks older_than s).1
prune-Consistent older_than s c = record {
  named = λ at j t h. ground (arith, find-prune older_than s at j, c.named at j t);
  alone = λ a b j f g h h'.
      ground (arith, find-prune older_than s a j, find-prune older_than s b j, c.alone a b j f g);
}
