-- ===== src/Payload.antt =====
-- src/services/webhook-handler.ts: how a delivery's JSON becomes an event. The parsed JSON is the
-- record of the fields that the code reads, absent where the object lacks them.
use oh_my_github_runner.Prelude.{
  ℕ, String, ◌<>◌, Bool, false, not, Option, none, some, List, [], map, if◌then◌else◌, is,
  text_discrete,
}
use oh_my_github_runner.Prelude.Action.{Action, Result, ok, err, after, thrown}
use oh_my_github_runner.Task.{RepoRef}
use oh_my_github_runner.Dispatch.{
  DispatchedEvent, opened_event, issue_comment_event, pr_comment_event, PullRequestState,
  EventComment, Sender,
}

pub data Label : Type 0 where
  plain named : String → Label

pub record IssueField : Type 0 where
  pub number : ℕ
  pub labels : Option (List Label)
  pub has_pull_request : Bool

-- `head_repo` is the full name of the head's repository, absent when that is null.
pub record PullField : Type 0 where
  pub number : ℕ
  pub is_closed : Bool
  pub merged : Option Bool
  pub head_ref : String
  pub head_repo : Option String

pub record Payload : Type 0 where
  pub action : Option String
  pub repository : Option RepoRef
  pub sender : Option Sender
  pub issue : Option IssueField
  pub comment : Option EventComment
  pub pull_request : Option PullField

pub data Json : Type 0 where
  not_an_object : Json
  object : Payload → Json

abbrev pub label_name : Label → String
label_name (plain name) = name
label_name (named name) = name

abbrev pub label_names : Option (List Label) → List String
label_names none = []
label_names (some labels) = map label_name labels

abbrev pub is_action : String → Option String → Bool
is_action name none = false
is_action name (some action) = is (text_discrete action name)

-- A field of a missing object: `TypeError`.
abbrev pub required : {A B : Type 0} → Option A → (A → Result B) → Result B
required none f = err (thrown "TypeError")
required (some a) f = f a

-- The event stands for nothing without its repository and its sender.
abbrev pub identified :
    Payload → (RepoRef → Sender → Result (Option DispatchedEvent)) → Result (Option DispatchedEvent)
identified p f = elim p.repository [
  | none ↦ ok none
  | some repo ↦ elim p.sender [ none ↦ ok none | some sender ↦ f repo sender ]
]

abbrev pub base_full_name : RepoRef → String
base_full_name repo = repo.owner <> "/" <> repo.name

abbrev pub is_fork_of : RepoRef → Option String → Bool
is_fork_of repo none = false
is_fork_of repo (some full_name) = not (is (text_discrete full_name (base_full_name repo)))

abbrev pub or_false : Option Bool → Bool
or_false none = false
or_false (some b) = b

abbrev pub head_ref_of : String → Option String → Option String
head_ref_of ref none = none
head_ref_of ref (some _) = some ref

unfoldable pub pull_request_state : RepoRef → PullField → PullRequestState
pull_request_state repo pull = record {
  number = pull.number;
  is_fork = is_fork_of repo pull.head_repo;
  is_closed = pull.is_closed;
  merged = or_false pull.merged;
  head_ref = head_ref_of pull.head_ref pull.head_repo;
}

unfoldable pub issues_event : Payload → Result (Option DispatchedEvent)
issues_event p =
    if is_action "opened" p.action
    then identified p (λ repo sender.
      required p.issue
        λ issue. ok (some (opened_event repo issue.number (label_names issue.labels) sender)))
    else ok none

abbrev pub on_pull_request :
    Payload → RepoRef → Sender → PullRequestState → Result (Option DispatchedEvent)
on_pull_request p repo sender pr =
    required p.comment λ comment. ok (some (pr_comment_event repo pr comment sender))

abbrev pub on_issue : Payload → RepoRef → ℕ → Sender → Result (Option DispatchedEvent)
on_issue p repo number sender =
    required p.comment λ comment. ok (some (issue_comment_event repo number comment sender))

unfoldable pub review_comment_payload : Payload → Result (Option DispatchedEvent)
unfolding pull_request_state
review_comment_payload p =
    if is_action "created" p.action
    then identified p (λ repo sender. required p.pull_request λ pull.
      required p.comment
        λ comment. ok (some (pr_comment_event repo (pull_request_state repo pull) comment sender)))
    else ok none

-- The question for the state of a pull request is an argument: it may change what the answers
-- depend on.
module _ {S : Type 0} (get_pull_request_state : RepoRef → ℕ → Action S PullRequestState) where
  abbrev pub on_comment :
      Payload → RepoRef → Sender → IssueField → Action S (Option DispatchedEvent)
  on_comment p repo sender issue s =
      if issue.has_pull_request
      then after (get_pull_request_state repo issue.number s)
          (λ pr s'. (on_pull_request p repo sender pr, s'))
      else (on_issue p repo issue.number sender, s)

  abbrev pub issue_or_throw :
      Payload → RepoRef → Sender → Option IssueField → Action S (Option DispatchedEvent)
  issue_or_throw p repo sender none s = (err (thrown "TypeError"), s)
  issue_or_throw p repo sender (some issue) s = on_comment p repo sender issue s

  abbrev pub by_identity :
      Payload → Option RepoRef → Option Sender → Action S (Option DispatchedEvent)
  by_identity p none sender s = (ok none, s)
  by_identity p (some repo) none s = (ok none, s)
  by_identity p (some repo) (some sender) s = issue_or_throw p repo sender p.issue s

  unfoldable pub issue_comment_payload : Payload → Action S (Option DispatchedEvent)
  issue_comment_payload p s =
      if is_action "created" p.action then by_identity p p.repository p.sender s else (ok none, s)

  -- `toDispatchedEvent`, by the name of the event.
  unfoldable pub to_dispatched_event : String → Json → Action S (Option DispatchedEvent)
  unfolding issues_event issue_comment_payload review_comment_payload
  to_dispatched_event event_name not_an_object s = (ok none, s)
  to_dispatched_event event_name (object p) s =
      if is (text_discrete event_name "issues")
      then (issues_event p, s)
      else if is (text_discrete event_name "issue_comment")
      then issue_comment_payload p s
      else if is (text_discrete event_name "pull_request_review_comment")
      then (review_comment_payload p, s)
      else (ok none, s)
