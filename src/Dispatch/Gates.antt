-- ===== src/Dispatch/Gates.antt =====
-- `EventDispatcher.dispatch`: which events reach the queue.
use oh_my_github_runner.Prelude.{
  ℕ, ◌≡◌, refl, sym, is, text_discrete, by_test, Bool, true, false, not, ◌&&◌, ◌||◌, Option, none,
  some, List, String, arith, includes, ◌==◌,
}
use oh_my_github_runner.Prelude.Assoc.{lookup}
use oh_my_github_runner.Strategies.{StrategyPolicies, get_strategy}
use oh_my_github_runner.Task.{RepoRef, SourceRef, issue, pull_request}
use oh_my_github_runner.Commands.{
  Text, ParsedCommand, CommandVerb, implement, no_verb, parse_command,
}
use oh_my_github_runner.Dispatch.{
  EventDispatcher, DispatchedEvent, DispatchAction, enqueue_action, ignore, reject, Rejection,
  TriggerLocation, unless_rejected, pr_routed, dispatch, opened_event, issue_comment_event,
  pr_comment_event, sender_of, is_allowed, default_dispatcher, PullRequestState, EventComment,
  Sender, gated, dispatch_issue_opened, dispatch_issue_comment, dispatch_pull_request_comment,
  resolve_instruction_id, is_deleted, pr_command, issue_command, preflight_pull_request,
}

-- Whether an event is a comment.
abbrev pub is_comment : DispatchedEvent → Bool
is_comment (opened_event _ _ _ _) = false
is_comment (issue_comment_event _ _ _ _) = true
is_comment (pr_comment_event _ _ _ _) = true

abbrev pub passes : EventDispatcher → DispatchedEvent → Bool
passes d e =
    not (is_comment e) || not ((sender_of e).id == d.bot_user_id) && is_allowed d (sender_of e)

abbrev pub is_ignored : DispatchAction → Bool
is_ignored (ignore _) = true
is_ignored (enqueue_action _) = false
is_ignored (reject _) = false

-- A comment of the app's own bot, or of a sender outside the allow list, is ignored, whatever its
-- text.
pub dispatch_gates :
    (d : EventDispatcher) (e : DispatchedEvent)
    → passes d e ≡ false
    → is_ignored (dispatch d e) ≡ true
unfolding dispatch gated
dispatch_gates d (opened_event repo number labels sender) h = cc
dispatch_gates d (issue_comment_event repo number comment sender) h = ground arith
dispatch_gates d (pr_comment_event repo pr comment sender) h = ground arith

abbrev has_strategy : Option StrategyPolicies → Bool
has_strategy none = false
has_strategy (some _) = true

-- Whether an event is about a pull request that can be worked on.
abbrev pub is_fit : DispatchedEvent → Bool
is_fit (opened_event _ _ _ _) = false
is_fit (issue_comment_event _ _ _ _) = false
is_fit (pr_comment_event _ pr _ _) =
    not pr.is_fork && not pr.merged && not pr.is_closed && not (is_deleted pr.head_ref)

abbrev pub source_of : DispatchedEvent → SourceRef
source_of (opened_event _ number _ _) = record { kind = issue; number = number }
source_of (issue_comment_event _ number _ _) = record { kind = issue; number = number }
source_of (pr_comment_event _ pr _ _) = record { kind = pull_request; number = pr.number }

abbrev pub repo_of : DispatchedEvent → RepoRef
repo_of (opened_event repo _ _ _) = repo
repo_of (issue_comment_event repo _ _ _) = repo
repo_of (pr_comment_event repo _ _ _) = repo

abbrev pub is_pr_implement : String → Bool
is_pr_implement id = is (text_discrete id "pr-implement")

-- What the queue may rely on.
abbrev pub Sound : DispatchedEvent → DispatchAction → Type 0
Sound e (ignore _) = Unit
Sound e (reject _) = is_fit e ≡ false
Sound e (enqueue_action r) =
    (has_strategy (get_strategy r.instruction_id) ≡ true)
    × (r.requested_by ≡ (sender_of e).login)
    × (r.repo ≡ repo_of e)
    × (r.source ≡ source_of e)
    × ((is_pr_implement r.instruction_id && not (is_fit e)) ≡ false)

abbrev is_some : Option Rejection → Bool
is_some none = false
is_some (some _) = true

module _ (bot_user_id : ℕ) (allowed : List ℕ) where
  abbrev d : EventDispatcher
  d = default_dispatcher bot_user_id allowed

  gated-Sound :
      (e : DispatchedEvent) (sender : Sender) (action : DispatchAction)
      → Sound e action
      → Sound e (gated d sender action)
  unfolding gated
  gated-Sound e sender action h =
      by_test (Sound e) (sender.id == d.bot_user_id) (λ _. tt)
        (λ _. by_test (Sound e) (is_allowed d sender) (λ _. h) (λ _. tt))

  issue_verb-Sound :
      (repo : RepoRef) (number : ℕ) (comment : EventComment) (sender : Sender) (verb : CommandVerb)
      (text : Text)
      → Sound (issue_comment_event repo number comment sender) (
          issue_command d repo number comment sender
            (some (record { verb = verb; additional_instructions = text })))
  unfolding issue_command resolve_instruction_id get_strategy lookup text_discrete
  issue_verb-Sound repo number comment sender implement text = (refl, refl, refl, refl, refl)
  issue_verb-Sound repo number comment sender no_verb text = (refl, refl, refl, refl, refl)

  issue_command-Sound :
      (repo : RepoRef) (number : ℕ) (comment : EventComment) (sender : Sender)
      (command : Option ParsedCommand)
      → Sound
          (issue_comment_event repo number comment sender)
          (issue_command d repo number comment sender command)
  unfolding issue_command
  issue_command-Sound repo number comment sender none = tt
  issue_command-Sound repo number comment sender (some command) =
      issue_verb-Sound repo number comment sender command.verb command.additional_instructions

  -- The preflight lets a pull request pass exactly when it can be worked on.
  preflight-fit :
      (repo : RepoRef) (pr : PullRequestState) (comment : EventComment) (sender : Sender)
      (trigger : TriggerLocation)
      → is_some (preflight_pull_request repo pr trigger sender.login)
        ≡ not (is_fit (pr_comment_event repo pr comment sender))
  unfolding preflight_pull_request
  preflight-fit repo pr comment sender trigger = ground arith

  implement-Sound :
      (repo : RepoRef) (pr : PullRequestState) (comment : EventComment) (sender : Sender)
      (text : Text) (rejection : Option Rejection)
      → is_some rejection ≡ not (is_fit (pr_comment_event repo pr comment sender))
      → Sound (pr_comment_event repo pr comment sender) (
          unless_rejected d rejection (
            pr_routed d repo pr comment sender
              (record { verb = implement; additional_instructions = text })))
  unfolding resolve_instruction_id get_strategy lookup text_discrete
  implement-Sound repo pr comment sender text none h = (refl, refl, refl, refl, sym h)
  implement-Sound repo pr comment sender text (some rejection) h = ground arith

  pr_verb-Sound :
      (repo : RepoRef) (pr : PullRequestState) (comment : EventComment) (sender : Sender)
      (verb : CommandVerb) (text : Text)
      → Sound (pr_comment_event repo pr comment sender) (
          pr_command d repo pr comment sender
            (some (record { verb = verb; additional_instructions = text })))
  unfolding pr_command resolve_instruction_id get_strategy lookup text_discrete
  pr_verb-Sound repo pr comment sender implement text =
      implement-Sound repo pr comment sender text _ (preflight-fit repo pr comment sender _)
  pr_verb-Sound repo pr comment sender no_verb text = (refl, refl, refl, refl, refl)

  pr_command-Sound :
      (repo : RepoRef) (pr : PullRequestState) (comment : EventComment) (sender : Sender)
      (command : Option ParsedCommand)
      → Sound
          (pr_comment_event repo pr comment sender)
          (pr_command d repo pr comment sender command)
  unfolding pr_command
  pr_command-Sound repo pr comment sender none = tt
  pr_command-Sound repo pr comment sender (some command) =
      pr_verb-Sound repo pr comment sender command.verb command.additional_instructions

  -- With the default rules, each request to the queue names an instruction that has a strategy, the
  -- event's own repository and issue or pull request, and the sender who asked for it. A request to implement a
  -- pull request is made just for one that is open, not merged, not from a fork and has its branch,
  -- and a rejection is made just for one that is not so.
  pub dispatch-Sound : (e : DispatchedEvent) → Sound e (dispatch d e)
  unfolding dispatch dispatch_issue_opened dispatch_issue_comment dispatch_pull_request_comment
      resolve_instruction_id get_strategy lookup text_discrete
  dispatch-Sound (opened_event repo number labels sender) =
      by_test (Sound (opened_event repo number labels sender)) (includes d.no_ai_label labels)
        (λ _. tt) (λ _. (refl, refl, refl, refl, refl))
  dispatch-Sound (issue_comment_event repo number comment sender) =
      gated-Sound (issue_comment_event repo number comment sender) sender _
        (issue_command-Sound repo number comment sender (parse_command comment.body))
  dispatch-Sound (pr_comment_event repo pr comment sender) =
      gated-Sound (pr_comment_event repo pr comment sender) sender _
        (pr_command-Sound repo pr comment sender (parse_command comment.body))
