-- ===== src/Notices/Targets.antt =====
-- The calls of each hook.
use oh_my_github_runner.Prelude.{ℕ, String, ◌≡◌, Option, none, some, List, [], ◌∷◌, ◌++◌}
use oh_my_github_runner.Prelude.Action.{Result}
use oh_my_github_runner.Task.{TaskRecord, StickyCommentRef, TriggerReactionRef}
use oh_my_github_runner.Commands.{Text}
use oh_my_github_runner.Notices.{
  HookCall, HookState, update_comment, delete_comment, remove_reaction, post_call,
}

-- What the hooks owe to GitHub, by what the task remembers of it.
abbrev pub edit_of : Text → Option StickyCommentRef → List HookCall
edit_of body none = []
edit_of body (some sticky) = update_comment sticky.repo sticky.comment_id body ∷ []

abbrev pub deletion_of : Option StickyCommentRef → List HookCall
deletion_of none = []
deletion_of (some sticky) = delete_comment sticky.repo sticky.comment_id ∷ []

module _ (server : List HookCall → Result (Unit {0})) (text_of : String → Text) (digits : ℕ → Text)
    (task : TaskRecord) where
  abbrev pub removal_of : Option TriggerReactionRef → List HookCall
  removal_of none = []
  removal_of (some trigger) = remove_reaction task.repo trigger.target trigger.reaction_id ∷ []

  abbrev pub report_of : Text → Option StickyCommentRef → List HookCall
  report_of body (some sticky) = update_comment sticky.repo sticky.comment_id body ∷ []
  report_of body none =
      post_call server text_of digits task.source.kind task.repo task.source.number body ∷ []

  -- Just these calls were added.
  abbrev pub Added : List HookCall → HookState → HookState → Type 0
  Added calls s s' = s'.calls ≡ s.calls ++ calls
