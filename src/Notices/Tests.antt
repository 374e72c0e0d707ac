-- ===== src/Notices/Tests.antt =====
-- The hooks of a task that has a comment and no reaction, with a server that refuses every call.
use oh_my_github_runner.Prelude.{ℕ, String, ◌≡◌, refl, none, some, List, [], ◌∷◌, codes}
use oh_my_github_runner.Prelude.Action.{Result, err, thrown}
use oh_my_github_runner.Task.{TaskRecord, running}
use oh_my_github_runner.Task.Samples.{sample_task, sample_repo}
use oh_my_github_runner.Commands.{Text}
use oh_my_github_runner.Notices.{HookCall, HookState, delete_comment, delete_failed, on_succeeded}

abbrev refusing : List HookCall → Result (Unit {0})
refusing _ = err (thrown "down")

abbrev id_text : String → Text
id_text _ = codes "x"

abbrev number_text : ℕ → Text
number_text _ = codes "7"

abbrev told_task : TaskRecord
told_task = record (sample_task "t1" "issue-comment-reply" running 5) {
  notifications = some (record {
    sticky = some (record { repo = sample_repo; issue_number = 7; comment_id = 12 });
    trigger = none;
  });
}

abbrev no_calls : HookState
no_calls = record { calls = []; warnings = [] }

a_refused_deletion : on_succeeded refusing id_text number_text told_task no_calls ≡ record {
  calls = delete_comment sample_repo 12 ∷ [];
  warnings = delete_failed "t1" (thrown "down") ∷ [];
}
unfolding on_succeeded
a_refused_deletion = refl
