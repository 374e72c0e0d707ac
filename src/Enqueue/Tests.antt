-- ===== src/Enqueue/Tests.antt =====
-- Runs of the enqueue service.
use oh_my_github_runner.Prelude.{◌≡◌, refl, some, [], ite, text_discrete}
use oh_my_github_runner.Prelude.Assoc.{lookup}
use oh_my_github_runner.Prelude.Action.{ok}
use oh_my_github_runner.Task.Samples.{sample_input}
use oh_my_github_runner.Strategies.{get_strategy}
use oh_my_github_runner.Queue.Consistency.{view}
use oh_my_github_runner.Queue.Samples.{one, one-Consistent, fresh_again}
use oh_my_github_runner.Queue.Listing as Listing
use oh_my_github_runner.Enqueue.{enqueue}
use oh_my_github_runner.Enqueue.Supersede.{enqueue-view}
use oh_my_github_runner.Enqueue.Stores.{policy}
use oh_my_github_runner.Daemon.{Daemon}
use oh_my_github_runner.RateLimit.{missing}

abbrev waiting : Daemon
waiting = record {
  store = one;
  pauses = missing;
  checkpoints = record { dirs = []; corrupt = [] };
  active_tasks = [];
  last_idle_warning_at = 0;
  last_prune_at = 0;
  notices = [];
  warnings = [];
}

-- A second trigger on the issue replaces the task that waits for the first.
enqueue-view_example :
    ((enqueue (sample_input "issue-implement") "t2" 150 waiting).0
      ≡ ok (Listing.enqueue (sample_input "issue-implement") "t2" 150 one).0)
    × (view (enqueue (sample_input "issue-implement") "t2" 150 waiting).1.store "t1"
        ≡ ite
            (text_discrete "t2" "t1")
            (some (Listing.enqueue (sample_input "issue-implement") "t2" 150 one).0)
            (policy (sample_input "issue-implement") "t2" 150 (view one "t1")))
unfolding get_strategy lookup text_discrete
enqueue-view_example =
    enqueue-view (sample_input "issue-implement") "t2" 150 waiting one-Consistent fresh_again refl
      "t1"
