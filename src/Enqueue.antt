-- ===== src/Enqueue.antt =====
-- src/services/enqueue-service.ts, with the hook that src/index.ts wires, `supersede` of the daemon.
-- The queue of the service is the daemon's. All store calls of one enqueue read the clock once.
pub mod Stores
pub mod Supersede
pub mod Told
mod Tests
use oh_my_github_runner.Prelude.{
  ℕ, String, Bool, true, false, ◌&&◌, not, Option, none, some, List, [], ◌∷◌, if◌then◌else◌, is,
  text_discrete,
}
use oh_my_github_runner.Prelude.Action.{Action, ok, err, unknown_instruction}
use oh_my_github_runner.Task.{TaskRecord, QueueTaskInput}
use oh_my_github_runner.Strategies.{StrategyPolicies, get_strategy, supersedes}
use oh_my_github_runner.Queue.Listing as Listing
use oh_my_github_runner.Queue.Listing.{find_queued_by_source}
use oh_my_github_runner.Daemon.{Daemon, supersede}

-- The three tests of the loop before it supersedes a conflict.
abbrev pub is_conflict : String → TaskRecord → Bool
is_conflict new_id old =
    not (is (text_discrete old.task_id new_id)) && supersedes (get_strategy old.instruction_id)

unfoldable pub supersede_conflicts : String → ℕ → List TaskRecord → Daemon → Daemon
supersede_conflicts new_id now [] d = d
supersede_conflicts new_id now (old ∷ rest) d =
    supersede_conflicts new_id now rest
      (if is_conflict new_id old then supersede old.task_id new_id now d else d)

abbrev pub enqueue_under : StrategyPolicies → QueueTaskInput → String → ℕ → Action Daemon TaskRecord
enqueue_under policies input new_id now d =
    let (task, inserted) = Listing.enqueue input new_id now d.store in
    let (conflicts, listed) = find_queued_by_source input.repo input.source now inserted in
    (
      ok task,
      if policies.supersede_on_same_source
          then supersede_conflicts task.task_id now conflicts (record d { store = listed })
          else record d { store = inserted },
    )

unfoldable pub enqueue : QueueTaskInput → String → ℕ → Action Daemon TaskRecord
enqueue input new_id now d = elim (get_strategy input.instruction_id) [
  | none ↦ (err (unknown_instruction input.instruction_id), d)
  | some policies ↦ enqueue_under policies input new_id now d
]
