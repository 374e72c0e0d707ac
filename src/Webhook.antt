-- ===== src/Webhook.antt =====
-- src/services/webhook-handler.ts: one delivery, from its signature to the queue. Arguments stand
-- for the runtime and for GitHub: the digest, `JSON.parse`, the text of code units, and the answers
-- to the calls, which may depend on all calls so far. A call is recorded before it is answered; an
-- answer that a `catch` logs changes nothing else. `generateTaskId` gives the id of a new task.
pub mod Effects
pub mod Deliveries
pub mod Admission
pub mod Tasks
pub mod Samples
mod Tests
use oh_my_github_runner.Prelude.{
  ℕ, String, Bool, true, false, not, Option, none, some, List, [], ◌∷◌, ◌++◌, if◌then◌else◌, is,
  text_discrete, option_map, drop, length,
}
use oh_my_github_runner.Prelude.Action.{
  Action, Result, ok, err, after, Failure, thrown, unknown_instruction,
}
use oh_my_github_runner.Task.{
  RepoRef, SourceRef, StickyCommentRef, TriggerTarget, issue_target, comment_target,
  TriggerReactionRef, TaskNotifications, TaskRecord, QueueTaskInput,
}
use oh_my_github_runner.Strategies.{StrategyPolicies, get_strategy}
use oh_my_github_runner.RateLimit.{StateFile, pause}
use oh_my_github_runner.Daemon.{
  Daemon, Notice, on_superseded, on_failure, on_succeeded, on_rate_limited,
}
use oh_my_github_runner.Enqueue.{enqueue}
use oh_my_github_runner.Commands.{Text}
use oh_my_github_runner.Signature.{verify_hub_signature}
use oh_my_github_runner.DeliveryDedup.{DeliveryDedupCache, mark_seen}
use oh_my_github_runner.Dispatch.{
  EventDispatcher, DispatchedEvent, DispatchAction, EnqueueRequest, Rejection, RejectReason,
  enqueue_action, ignore, reject, PullRequestState, TriggerLocation, at_issue, at_comment, dispatch,
}
use oh_my_github_runner.Payload.{Json, to_dispatched_event}

pub data HeaderValue (A : Type 0) : Type 0 where
  single : A → HeaderValue A
  several : List A → HeaderValue A

-- The headers that the handler reads.
pub record Headers : Type 0 where
  pub signature : Option (HeaderValue Text)
  pub delivery : Option (HeaderValue String)
  pub event : Option (HeaderValue String)

abbrev pub first {ℓ} : {A : Type ℓ} → List A → Option A
first [] = none
first (a ∷ _) = some a

abbrev pub read_header : {A : Type 0} → Option (HeaderValue A) → Option A
read_header none = none
read_header (some (single a)) = some a
read_header (some (several values)) = first values

abbrev pub or_dash : Option String → String
or_dash none = "-"
or_dash (some s) = s

pub record StickyCommentMeta : Type 0 where
  pub task_id : String
  pub instruction_id : String
  pub tools : List String
  pub requested_by : String
  pub trigger : TriggerLocation

pub data ReactionContent : Type 0 where
  eyes minus_one : ReactionContent

pub data CommentBody : Type 0 where
  queued_body : StickyCommentMeta → CommentBody
  rejection_body : RejectReason → String → TriggerLocation → CommentBody
  enqueue_failed_body : String → Failure → CommentBody
  superseded_body : TaskRecord → String → CommentBody

pub data GithubCall : Type 0 where
  add_reaction : RepoRef → TriggerTarget → ReactionContent → GithubCall
  get_pull_request_state : RepoRef → ℕ → GithubCall
  post_issue_comment : RepoRef → ℕ → CommentBody → GithubCall
  update_issue_comment : RepoRef → ℕ → CommentBody → GithubCall

-- What GitHub answers: the id of the reaction or of the comment, or the state of the pull request,
-- by the calls up to that one, and the ends of the pauses that the fetcher asks its sink for during
-- that call.
pub record GithubClient : Type 0 where
  pub pull_request_state : List GithubCall → Result PullRequestState
  pub reaction_id : List GithubCall → Result ℕ
  pub comment_id : List GithubCall → Result ℕ
  pub paused_until : List GithubCall → List ℕ

-- What a delivery changes. The daemon comes with its queue and the pauses of the tools.
pub record World : Type 0 where
  pub daemon : Daemon
  pub delivery_dedup : DeliveryDedupCache
  pub calls : List GithubCall

pub record WebhookHandlerResult : Type 0 where
  pub status : ℕ
  pub body : String

pub record WebhookHandler : Type 0 where
  pub secret : String
  pub dispatcher : EventDispatcher
  pub github : GithubClient
  pub hmac : String → Text → Text
  pub parse_json : Text → Option Json
  pub text_of : Text → String

abbrev pub reply : ℕ → String → Result WebhookHandlerResult
reply status body = ok (record { status = status; body = body })

-- The sink of the fetcher, which src/index.ts wires: each pause is one of the tool `github`.
unfoldable pub pause_github : List ℕ → StateFile → StateFile
pause_github [] file = file
pause_github (paused_until ∷ rest) file = pause_github rest (pause "github" paused_until file)

abbrev pub target_of : TriggerLocation → TriggerTarget
target_of (at_issue issue_number) = issue_target issue_number
target_of (at_comment issue_number comment_id) = comment_target comment_id

abbrev pub location_number : TriggerLocation → ℕ
location_number (at_issue issue_number) = issue_number
location_number (at_comment issue_number comment_id) = issue_number

abbrev pub reaction_ref : TriggerTarget → Result ℕ → Option TriggerReactionRef
reaction_ref target (ok id) = some (record { target = target; reaction_id = id })
reaction_ref target (err e) = none

abbrev pub sticky_ref : RepoRef → ℕ → Result ℕ → Option StickyCommentRef
sticky_ref repo issue_number (ok id) =
    some (record { repo = repo; issue_number = issue_number; comment_id = id })
sticky_ref repo issue_number (err e) = none

-- The references are left out when there are none.
abbrev pub notifications_of :
    Option StickyCommentRef → Option TriggerReactionRef → Option TaskNotifications
notifications_of none none = none
notifications_of none (some t) = some (record { sticky = none; trigger = some t })
notifications_of (some s) t = some (record { sticky = some s; trigger = t })

abbrev pub sticky_of : Option TaskNotifications → Option StickyCommentRef
sticky_of none = none
sticky_of (some n) = n.sticky

abbrev posted : Result ℕ → Result (Unit {0})
posted (ok id) = ok tt
posted (err e) = err e

module _ (h : WebhookHandler) where
  -- A call is recorded, and the pauses are made that come up during it.
  unfoldable pub called : GithubCall → World → World
  called call w =
      let calls = w.calls ++ call ∷ [] in
      let pauses = pause_github (h.github.paused_until calls) w.daemon.pauses in
      record w { calls = calls; daemon = record w.daemon { pauses = pauses } }

  abbrev pub ask_pull_request_state : RepoRef → ℕ → Action World PullRequestState
  ask_pull_request_state repo number w =
      let w' = called (get_pull_request_state repo number) w in
      (h.github.pull_request_state w'.calls, w')

  unfoldable pub try_add_reaction :
      RepoRef → TriggerLocation → ReactionContent → World → Option TriggerReactionRef × World
  try_add_reaction repo trigger content w =
      let target = target_of trigger in
      let w' = called (add_reaction repo target content) w in
      (reaction_ref target (h.github.reaction_id w'.calls), w')

  unfoldable pub post_sticky : RepoRef → ℕ → CommentBody → World → Option StickyCommentRef × World
  post_sticky repo issue_number body w =
      let w' = called (post_issue_comment repo issue_number body) w in
      (sticky_ref repo issue_number (h.github.comment_id w'.calls), w')

  unfoldable pub execute_reject : Rejection → Action World (Unit {0})
  execute_reject r w =
      let (_, w') = try_add_reaction r.repo r.trigger minus_one w in
      let w'' =
        called
          (post_issue_comment r.repo r.issue_number
            (rejection_body r.reason r.requested_by r.trigger))
          w' in
      (posted (h.github.comment_id w''.calls), w'')

  abbrev pub edited_after : Option StickyCommentRef → String → Failure → World → World
  edited_after none task_id e w = w
  edited_after (some s) task_id e w =
      called (update_issue_comment s.repo s.comment_id (enqueue_failed_body task_id e)) w

  abbrev pub enqueued :
      String → Option StickyCommentRef → Result TaskRecord → World → Result (Unit {0}) × World
  enqueued task_id sticky (ok task) w = (ok tt, w)
  enqueued task_id sticky (err e) w = (err e, edited_after sticky task_id e w)

  abbrev pub task_input : EnqueueRequest → String → Option TaskNotifications → QueueTaskInput
  task_input r task_id notifications = record {
    task_id = some task_id;
    repo = r.repo;
    source = r.source;
    instruction_id = r.instruction_id;
    additional_instructions = option_map h.text_of r.additional_instructions;
    requested_by = r.requested_by;
    priority = none;
    notifications = notifications;
  }

  abbrev pub sticky_meta : EnqueueRequest → String → StrategyPolicies → StickyCommentMeta
  sticky_meta r task_id policies = record {
    task_id = task_id;
    instruction_id = r.instruction_id;
    tools = policies.uses;
    requested_by = r.requested_by;
    trigger = r.trigger;
  }

  -- The hook `onSuperseded` of the daemon, for each notice: it edits the comment of the task that is
  -- replaced, if there is one, and its errors are logged. An enqueue leads to no other notice.
  abbrev pub tell : Option StickyCommentRef → TaskRecord → String → World → World
  tell none t new_id w = w
  tell (some s) t new_id w =
      called (update_issue_comment s.repo s.comment_id (superseded_body t new_id)) w

  unfoldable pub tell_each : List Notice → World → World
  tell_each [] w = w
  tell_each (on_superseded t new_id ∷ notices) w =
      tell_each notices (tell (sticky_of t.notifications) t new_id w)
  tell_each (on_failure t summary ∷ notices) w = tell_each notices w
  tell_each (on_succeeded t ∷ notices) w = tell_each notices w
  tell_each (on_rate_limited t ∷ notices) w = tell_each notices w

  -- The hook runs within the enqueue, whose steps do not depend on its calls, which follow here.
  unfoldable pub execute_enqueue :
      EnqueueRequest → StrategyPolicies → String → ℕ → Action World (Unit {0})
  execute_enqueue r policies task_id now w =
      let (reaction, w1) = try_add_reaction r.repo r.trigger eyes w in
      let (sticky, w2) =
        post_sticky r.repo (location_number r.trigger)
          (queued_body (sticky_meta r task_id policies)) w1 in
      let (result, daemon) =
        enqueue (task_input r task_id (notifications_of sticky reaction)) task_id now w2.daemon in
      enqueued task_id sticky result
        (tell_each (drop (length w2.daemon.notices) daemon.notices) (record w2 { daemon = daemon }))

  -- The tools of the strategy are looked up for the log before anything is done, and a missing
  -- strategy throws there.
  unfoldable pub execute_action : DispatchAction → String → ℕ → Action World (Unit {0})
  execute_action (ignore reason) task_id now w = (ok tt, w)
  execute_action (reject rejection) task_id now w = execute_reject rejection w
  execute_action (enqueue_action r) task_id now w = elim (get_strategy r.instruction_id) [
    | none ↦ (err (unknown_instruction r.instruction_id), w)
    | some policies ↦ execute_enqueue r policies task_id now w
  ]

  abbrev pub action_kind : DispatchAction → String
  action_kind (ignore reason) = "ignore"
  action_kind (reject rejection) = "reject"
  action_kind (enqueue_action r) = "enqueue"

  abbrev pub answered : String → Result (Unit {0}) × World → Result WebhookHandlerResult × World
  answered kind (ok _, w) = (reply 200 kind, w)
  answered kind (err e, w) = (err e, w)

  unfoldable pub handle_event :
      Option DispatchedEvent → String → ℕ → Action World WebhookHandlerResult
  handle_event none task_id now w = (reply 200 "ignored", w)
  handle_event (some event) task_id now w =
      let action = dispatch h.dispatcher event in
      answered (action_kind action) (execute_action action task_id now w)

  unfoldable pub handle_json : Option Json → String → String → ℕ → Action World WebhookHandlerResult
  handle_json none event_name task_id now w = (reply 400 "invalid JSON", w)
  handle_json (some json) event_name task_id now w =
      after (to_dispatched_event ask_pull_request_state event_name json w)
        λ event. handle_event event task_id now

  -- A delivery without an id is never a duplicate.
  unfoldable pub already_seen : String → ℕ → World → Bool × World
  already_seen delivery_id now w =
      if is (text_discrete delivery_id "-")
      then (false, w)
      else let (seen, cache) = mark_seen delivery_id now w.delivery_dedup in
        (seen, record w { delivery_dedup = cache })

  unfoldable pub handle : Text → Headers → String → ℕ → Action World WebhookHandlerResult
  handle raw_body headers task_id now w =
      let delivery_id = or_dash (read_header headers.delivery) in
      let event_name = or_dash (read_header headers.event) in
      let (seen, w') = already_seen delivery_id now w in
      if not (verify_hub_signature h.hmac h.secret raw_body (read_header headers.signature))
      then (reply 401 "invalid signature", w)
      else if seen
      then (reply 200 "duplicate", w')
      else if is (text_discrete event_name "-")
      then (reply 400 "missing X-GitHub-Event", w')
      else handle_json (h.parse_json raw_body) event_name task_id now w'
