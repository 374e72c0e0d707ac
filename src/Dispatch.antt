-- ===== src/Dispatch.antt =====
-- src/services/event-dispatcher.ts and src/domain/rules/event-routing.ts: what an event of GitHub
-- leads to. The texts of the reasons and comments are constructors.
pub mod Gates
mod Tests
use oh_my_github_runner.Prelude.{
  ℕ, String, Bool, true, false, ◌&&◌, not, Option, none, some, List, [], ◌∷◌, if◌then◌else◌,
  includes, any, ◌==◌,
}
use oh_my_github_runner.Task.{RepoRef, SourceRef, issue, pull_request}
use oh_my_github_runner.Commands.{
  Text, CommandVerb, implement, no_verb, ParsedCommand, parse_command, is_empty,
}

pub data EventKind : Type 0 where
  issue_opened issue_comment pr_comment : EventKind

pub record RoutingInput : Type 0 where
  pub event_kind : EventKind
  pub verb : CommandVerb

pub record RoutingRule : Type 0 where
  pub match_input : RoutingInput → Bool
  pub instruction_id : String

abbrev pub opened : EventKind → Bool
opened issue_opened = true
opened issue_comment = false
opened pr_comment = false

abbrev pub on_issue : EventKind → Bool
on_issue issue_opened = false
on_issue issue_comment = true
on_issue pr_comment = false

abbrev pub on_pr : EventKind → Bool
on_pr issue_opened = false
on_pr issue_comment = false
on_pr pr_comment = true

abbrev pub is_implement : CommandVerb → Bool
is_implement implement = true
is_implement no_verb = false

abbrev pub default_routing_rules : List RoutingRule
default_routing_rules =
    record { match_input = λ i. opened i.event_kind; instruction_id = "issue-initial-review" }
    ∷ record {
      match_input = λ i. on_issue i.event_kind && is_implement i.verb;
      instruction_id = "issue-implement";
    }
    ∷ record {
      match_input = λ i. on_issue i.event_kind && not (is_implement i.verb);
      instruction_id = "issue-comment-reply";
    }
    ∷ record {
      match_input = λ i. on_pr i.event_kind && is_implement i.verb;
      instruction_id = "pr-implement";
    }
    ∷ record {
      match_input = λ i. on_pr i.event_kind && not (is_implement i.verb);
      instruction_id = "pr-review-comment";
    }
    ∷ []

unfoldable pub resolve_instruction_id : List RoutingRule → RoutingInput → Option String
resolve_instruction_id [] input = none
resolve_instruction_id (rule ∷ rules) input =
    let rest = resolve_instruction_id rules input in
    if rule.match_input input then some rule.instruction_id else rest

pub record PullRequestState : Type 0 where
  pub number : ℕ
  pub is_fork : Bool
  pub is_closed : Bool
  pub merged : Bool
  pub head_ref : Option String

pub data TriggerLocation : Type 0 where
  at_issue : ℕ → TriggerLocation
  at_comment : (issue_number comment_id : ℕ) → TriggerLocation

pub record Sender : Type 0 where
  pub id : ℕ
  pub login : String

pub record EventComment : Type 0 where
  pub id : ℕ
  pub body : Text

pub data DispatchedEvent : Type 0 where
  opened_event : RepoRef → (number : ℕ) → (labels : List String) → Sender → DispatchedEvent
  issue_comment_event : RepoRef → (number : ℕ) → EventComment → Sender → DispatchedEvent
  pr_comment_event : RepoRef → PullRequestState → EventComment → Sender → DispatchedEvent

pub data IgnoreReason : Type 0 where
  own_bot no_rule no_command : IgnoreReason
  not_allowed : ℕ → String → IgnoreReason
  suppressed_by : String → IgnoreReason

pub data RejectReason : Type 0 where
  from_fork already_merged already_closed head_deleted : RejectReason

pub record EnqueueRequest : Type 0 where
  pub instruction_id : String
  pub repo : RepoRef
  pub source : SourceRef
  pub additional_instructions : Option Text
  pub requested_by : String
  pub trigger : TriggerLocation

-- A rejection says why in a comment on the pull request of the number.
pub record Rejection : Type 0 where
  pub reason : RejectReason
  pub repo : RepoRef
  pub issue_number : ℕ
  pub trigger : TriggerLocation
  pub requested_by : String

pub data DispatchAction : Type 0 where
  enqueue_action : EnqueueRequest → DispatchAction
  ignore : IgnoreReason → DispatchAction
  reject : Rejection → DispatchAction

pub record EventDispatcher : Type 0 where
  pub bot_user_id : ℕ
  pub allowed_sender_ids : List ℕ
  pub no_ai_label : String
  pub routing_rules : List RoutingRule

-- The label and the rules when the settings name none.
abbrev pub default_dispatcher : ℕ → List ℕ → EventDispatcher
default_dispatcher bot_user_id allowed_sender_ids = record {
  bot_user_id = bot_user_id;
  allowed_sender_ids = allowed_sender_ids;
  no_ai_label = "no-ai";
  routing_rules = default_routing_rules;
}

abbrev pub routed : Option String → (String → EnqueueRequest) → DispatchAction
routed none request = ignore no_rule
routed (some instruction_id) request = enqueue_action (request instruction_id)

abbrev pub given : Text → Option Text
given text = if is_empty text then none else some text

abbrev pub sender_of : DispatchedEvent → Sender
sender_of (opened_event repo number labels sender) = sender
sender_of (issue_comment_event repo number comment sender) = sender
sender_of (pr_comment_event repo pr comment sender) = sender

abbrev pub is_allowed : EventDispatcher → Sender → Bool
is_allowed d sender = any (λ id. id == sender.id) d.allowed_sender_ids

abbrev pub is_deleted : Option String → Bool
is_deleted none = true
is_deleted (some _) = false

unfoldable pub preflight_pull_request :
    RepoRef → PullRequestState → TriggerLocation → String → Option Rejection
preflight_pull_request repo pr trigger requested_by =
    let rejection : RejectReason → Rejection = λ reason. record {
      reason = reason;
      repo = repo;
      issue_number = pr.number;
      trigger = trigger;
      requested_by = requested_by;
    } in
    if pr.is_fork
    then some (rejection from_fork)
    else if pr.merged
    then some (rejection already_merged)
    else if pr.is_closed
    then some (rejection already_closed)
    else if is_deleted pr.head_ref
    then some (rejection head_deleted)
    else none

module _ (d : EventDispatcher) where
  unfoldable pub dispatch_issue_opened : RepoRef → ℕ → List String → Sender → DispatchAction
  dispatch_issue_opened repo number labels sender =
      if includes d.no_ai_label labels
      then ignore (suppressed_by d.no_ai_label)
      else routed
          (resolve_instruction_id d.routing_rules
            (record { event_kind = issue_opened; verb = no_verb }))
          λ instruction_id. record {
            instruction_id = instruction_id;
            repo = repo;
            source = record { kind = issue; number = number };
            additional_instructions = none;
            requested_by = sender.login;
            trigger = at_issue number;
          }

  unfoldable pub issue_command :
      RepoRef → ℕ → EventComment → Sender → Option ParsedCommand → DispatchAction
  issue_command repo number comment sender none = ignore no_command
  issue_command repo number comment sender (some parsed) =
      routed
        (resolve_instruction_id d.routing_rules
          (record { event_kind = issue_comment; verb = parsed.verb }))
        λ instruction_id. record {
          instruction_id = instruction_id;
          repo = repo;
          source = record { kind = issue; number = number };
          additional_instructions = given parsed.additional_instructions;
          requested_by = sender.login;
          trigger = at_comment number comment.id;
        }

  unfoldable pub dispatch_issue_comment : RepoRef → ℕ → EventComment → Sender → DispatchAction
  dispatch_issue_comment repo number comment sender =
      issue_command repo number comment sender (parse_command comment.body)

  abbrev pub pr_routed :
      RepoRef → PullRequestState → EventComment → Sender → ParsedCommand → DispatchAction
  pr_routed repo pr comment sender parsed =
      routed
        (resolve_instruction_id d.routing_rules
          (record { event_kind = pr_comment; verb = parsed.verb }))
        λ instruction_id. record {
          instruction_id = instruction_id;
          repo = repo;
          source = record { kind = pull_request; number = pr.number };
          additional_instructions = given parsed.additional_instructions;
          requested_by = sender.login;
          trigger = at_comment pr.number comment.id;
        }

  abbrev pub unless_rejected : Option Rejection → DispatchAction → DispatchAction
  unless_rejected none action = action
  unless_rejected (some rejection) action = reject rejection

  unfoldable pub pr_command :
      RepoRef → PullRequestState → EventComment → Sender → Option ParsedCommand → DispatchAction
  pr_command repo pr comment sender none = ignore no_command
  pr_command repo pr comment sender (some parsed) =
      if is_implement parsed.verb
      then unless_rejected
          (preflight_pull_request repo pr (at_comment pr.number comment.id) sender.login)
          (pr_routed repo pr comment sender parsed)
      else pr_routed repo pr comment sender parsed

  unfoldable pub dispatch_pull_request_comment :
      RepoRef → PullRequestState → EventComment → Sender → DispatchAction
  dispatch_pull_request_comment repo pr comment sender =
      pr_command repo pr comment sender (parse_command comment.body)

  unfoldable pub gated : Sender → DispatchAction → DispatchAction
  gated sender action =
      if sender.id == d.bot_user_id
      then ignore own_bot
      else if is_allowed d sender
      then action
      else ignore (not_allowed sender.id sender.login)

  -- An opened issue passes both gates.
  unfoldable pub dispatch : DispatchedEvent → DispatchAction
  dispatch (opened_event repo number labels sender) =
      dispatch_issue_opened repo number labels sender
  dispatch (issue_comment_event repo number comment sender) =
      gated sender (dispatch_issue_comment repo number comment sender)
  dispatch (pr_comment_event repo pr comment sender) =
      gated sender (dispatch_pull_request_comment repo pr comment sender)
