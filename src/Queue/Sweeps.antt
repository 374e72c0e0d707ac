-- ===== src/Queue/Sweeps.antt =====
-- The sweeps of file-queue-store.ts: recovery of running tasks at startup, and pruning.
use oh_my_github_runner.Prelude.{
  ℕ, Bool, false, ◌+◌, String, Option, none, some, List, [], ◌∷◌, leb, if◌then◌else◌,
}
use oh_my_github_runner.Prelude.Assoc.{Assoc, lookup, erase, keys}
use oh_my_github_runner.Task.{TaskStatus, running, succeeded, failed, superseded, TaskRecord}
use oh_my_github_runner.Queue.{Store, File, relocate, set_dir}
use oh_my_github_runner.Queue.Listing.{list_in_status}

abbrev pub interrupted : String → ℕ → TaskRecord → TaskRecord
interrupted error_summary now task = record task {
  status = failed;
  finished_at = some now;
  error_summary = some error_summary;
}

unfoldable pub recover_each : String → ℕ → List TaskRecord → Store → Store
recover_each error_summary now [] s = s
recover_each error_summary now (t ∷ ts) s =
    recover_each error_summary now ts (relocate (interrupted error_summary now t) running now s)

unfoldable pub recover_running_tasks : String → ℕ → Store → Store
recover_running_tasks error_summary now s =
    let (ts, s') = list_in_status running now s in recover_each error_summary now ts s'

abbrev pub terminal_statuses : List TaskStatus
terminal_statuses = succeeded ∷ failed ∷ superseded ∷ []

-- A file that is there and was last written at the cutoff or before.
abbrev pub expired : ℕ → Option File → Bool
expired cutoff none = false
expired cutoff (some f) = leb f.modified cutoff

-- The loop over the names of one directory: how many files go, and what is left.
unfoldable pub prune_names : ℕ → List String → Assoc File → ℕ × Assoc File
prune_names cutoff [] d = (0, d)
prune_names cutoff (name ∷ names) d =
    let gone = expired cutoff (lookup name d) in
    let (pruned, rest) = prune_names cutoff names (if gone then erase name d else d) in
    ((if gone then pruned + 1 else pruned), rest)

unfoldable pub prune_statuses : List TaskStatus → ℕ → Store → ℕ × Store
prune_statuses [] cutoff s = (0, s)
prune_statuses (status ∷ more) cutoff s =
    let (pruned, d) = prune_names cutoff (keys (s.dir status)) (s.dir status) in
    let (rest, s') = prune_statuses more cutoff (set_dir status d s) in (pruned + rest, s')

unfoldable pub prune_terminal_tasks : ℕ → Store → ℕ × Store
unfolding prune_statuses
prune_terminal_tasks older_than s = prune_statuses terminal_statuses older_than s
