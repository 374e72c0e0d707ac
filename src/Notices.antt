-- ===== src/Notices.antt =====
-- The hooks of src/index.ts that tell GitHub how a task ended. A call is recorded before it is
-- answered; an error of a call is logged, so that nothing else depends on the answer, and is a
-- warning here. The server is an argument, by the calls so far.
pub mod Targets
mod Tests
use oh_my_github_runner.Prelude.{ℕ, String, Option, none, some, List, [], ◌∷◌, ◌++◌}
use oh_my_github_runner.Prelude.Action.{Result, ok, err, Failure}
use oh_my_github_runner.Task.{
  TaskRecord, RepoRef, SourceKind, issue, pull_request, StickyCommentRef, TriggerReactionRef,
  TriggerTarget, TaskNotifications,
}
use oh_my_github_runner.Commands.{Text}
use oh_my_github_runner.Sticky.{render_failure, render_rate_limited, render_superseded}

pub data HookCall : Type 0 where
  update_comment : RepoRef → (comment_id : ℕ) → Text → HookCall
  delete_comment : RepoRef → (comment_id : ℕ) → HookCall
  remove_reaction : RepoRef → TriggerTarget → (reaction_id : ℕ) → HookCall
  post_on_issue post_on_pull_request : RepoRef → ℕ → Text → HookCall

pub data HookWarning : Type 0 where
  edit_failed post_failed delete_failed reaction_failed : (task_id : String) → Failure → HookWarning

pub record HookState : Type 0 where
  pub calls : List HookCall
  pub warnings : List HookWarning

abbrev pub warned : HookWarning → HookState → HookState
warned w s = record s { warnings = s.warnings ++ w ∷ [] }

abbrev pub logged : (Failure → HookWarning) → Result (Unit {0}) → HookState → HookState
logged warning (ok _) s = s
logged warning (err e) s = warned (warning e) s

abbrev pub sticky_of : Option TaskNotifications → Option StickyCommentRef
sticky_of none = none
sticky_of (some n) = n.sticky

abbrev pub trigger_of : Option TaskNotifications → Option TriggerReactionRef
trigger_of none = none
trigger_of (some n) = n.trigger

module _ (server : List HookCall → Result (Unit {0})) (text_of : String → Text)
    (digits : ℕ → Text) where
  abbrev pub try_call : (Failure → HookWarning) → HookCall → HookState → HookState
  try_call warning call s =
      let s' = record s { calls = s.calls ++ call ∷ [] } in logged warning (server s'.calls) s'

  abbrev pub edit_comment : TaskRecord → Text → Option StickyCommentRef → HookState → HookState
  edit_comment task body none s = s
  edit_comment task body (some sticky) s =
      try_call (edit_failed task.task_id) (update_comment sticky.repo sticky.comment_id body) s

  unfoldable pub edit_sticky : TaskRecord → Text → HookState → HookState
  edit_sticky task body s = edit_comment task body (sticky_of task.notifications) s

  abbrev pub post_call : SourceKind → RepoRef → ℕ → Text → HookCall
  post_call issue repo number body = post_on_issue repo number body
  post_call pull_request repo number body = post_on_pull_request repo number body

  abbrev pub edit_or_post : TaskRecord → Text → Option StickyCommentRef → HookState → HookState
  edit_or_post task body (some sticky) s = edit_sticky task body s
  edit_or_post task body none s =
      try_call (post_failed task.task_id)
        (post_call task.source.kind task.repo task.source.number body) s

  unfoldable pub edit_sticky_or_post : TaskRecord → Text → HookState → HookState
  edit_sticky_or_post task body s = edit_or_post task body (sticky_of task.notifications) s

  unfoldable pub on_failure : TaskRecord → Text → HookState → HookState
  on_failure task error_summary s =
      edit_sticky_or_post task (render_failure text_of digits task error_summary) s

  abbrev pub delete_sticky : TaskRecord → Option StickyCommentRef → HookState → HookState
  delete_sticky task none s = s
  delete_sticky task (some sticky) s =
      try_call (delete_failed task.task_id) (delete_comment sticky.repo sticky.comment_id) s

  abbrev pub delete_trigger : TaskRecord → Option TriggerReactionRef → HookState → HookState
  delete_trigger task none s = s
  delete_trigger task (some trigger) s =
      try_call (reaction_failed task.task_id)
        (remove_reaction task.repo trigger.target trigger.reaction_id) s

  unfoldable pub on_succeeded : TaskRecord → HookState → HookState
  on_succeeded task s =
      delete_trigger task (trigger_of task.notifications)
        (delete_sticky task (sticky_of task.notifications) s)

  unfoldable pub on_rate_limited : TaskRecord → HookState → HookState
  on_rate_limited task s = edit_sticky task (render_rate_limited text_of digits task) s

  unfoldable pub on_superseded : TaskRecord → String → HookState → HookState
  on_superseded task superseded_by s =
      edit_sticky task (render_superseded text_of digits task superseded_by) s
