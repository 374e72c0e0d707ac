-- ===== src/Dispatch/Tests.antt =====
-- Runs of the dispatcher.
use oh_my_github_runner.Prelude.{[], ◌∷◌}
use oh_my_github_runner.Task.{RepoRef}
use oh_my_github_runner.Commands.{trigger_keyword}
use oh_my_github_runner.Dispatch.{
  DispatchedEvent, issue_comment_event, opened_event, default_dispatcher, dispatch,
}
use oh_my_github_runner.Dispatch.Gates.{Sound, dispatch-Sound}

abbrev sample_repo : RepoRef
sample_repo = record { owner = "octo"; name = "repo" }

-- A stranger's command.
abbrev strange_event : DispatchedEvent
strange_event =
    issue_comment_event sample_repo 7 (record { id = 70; body = 47 ∷ trigger_keyword })
      (record { id = 99; login = "stranger" })

-- An issue opened by the bot itself.
abbrev bot_issue : DispatchedEvent
bot_issue = opened_event sample_repo 8 [] (record { id = 1; login = "bot" })

dispatch-Sound_example : Sound bot_issue (dispatch (default_dispatcher 1 (5 ∷ [])) bot_issue)
dispatch-Sound_example = dispatch-Sound 1 (5 ∷ []) bot_issue
