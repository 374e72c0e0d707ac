-- ===== src/Webhook/Tests.antt =====
-- Runs of the webhook handler.
use oh_my_github_runner.Prelude.{
  String, ◌≡◌, ◌≢◌, refl, none, some, true, false, [], arith, text_discrete, includes,
}
use oh_my_github_runner.Prelude.Assoc.{lookup}
use oh_my_github_runner.Prelude.Action.{ok}
use oh_my_github_runner.Commands.{starts_with, same_text}
use oh_my_github_runner.Strategies.{issue_response, get_strategy}
use oh_my_github_runner.Queue.Samples.{one-Consistent, fresh_again}
use oh_my_github_runner.Task.{issue}
use oh_my_github_runner.Task.Samples.{sample_repo}
use oh_my_github_runner.DeliveryDedup.{mark_seen, evict_expired}
use oh_my_github_runner.Dispatch.{
  dispatch, dispatch_issue_opened, resolve_instruction_id, EnqueueRequest, opened_event, at_issue,
}
use oh_my_github_runner.Payload.{
  Payload, object, to_dispatched_event, issues_event, issue_comment_payload,
}
use oh_my_github_runner.Signature.{verify_hub_signature, from_hex}
use oh_my_github_runner.Webhook.{
  handle, already_seen, reply, WebhookHandler, Headers, single, called,
}
use oh_my_github_runner.Webhook.Samples.{payload, handler, headers, world}
use oh_my_github_runner.Webhook.Admission.{Untouched, handle_admitted_only, AtMostAsked, is_signed}
use oh_my_github_runner.Webhook.Deliveries.{handle_once}
use oh_my_github_runner.Webhook.Tasks.{Queued, handle_enqueues, seen_world}

-- A signed comment on a pull request, of a sender outside the allow list.
abbrev comment_payload : Payload
comment_payload = record payload {
  action = some "created";
  sender = some (record { id = 6; login = "eve" });
  issue = some (record { number = 7; labels = none; has_pull_request = true });
  comment = some (record { id = 9; body = [] });
}

abbrev answering : WebhookHandler
answering = record handler {
  parse_json = λ body. some (object comment_payload);
  github = record handler.github {
    pull_request_state = λ calls. ok (record {
      number = 7;
      is_fork = false;
      is_closed = false;
      merged = false;
      head_ref = none;
    });
  };
}

abbrev comment_headers : Headers
comment_headers = record headers { event = some (single "issue_comment") }

handle_admitted_only_example :
    AtMostAsked answering
      (is_signed answering [] comment_headers)
      world
      (handle answering [] comment_headers "t2" 150 world).1
unfolding verify_hub_signature from_hex starts_with same_text already_seen mark_seen evict_expired
    lookup to_dispatched_event issue_comment_payload text_discrete called includes
handle_admitted_only_example = handle_admitted_only answering [] comment_headers "t2" 150 world refl

no_dash : ◌≢◌ {A = String} "d1" "-"
unfolding text_discrete
no_dash e = cc

named : ◌≢◌ {A = String} "issues" "-"
unfolding text_discrete
named e = cc

handle_once_example :
    ((handle handler [] headers "t3" 200 (handle handler [] headers "t2" 150 world).1).0
      ≡ reply 200 "duplicate")
    × Untouched
        (handle handler [] headers "t2" 150 world).1
        (handle handler [] headers "t3" 200 (handle handler [] headers "t2" 150 world).1).1
unfolding verify_hub_signature from_hex starts_with same_text mark_seen evict_expired lookup
handle_once_example =
    handle_once handler [] headers refl "d1" refl no_dash "t2" "t3" 150 200 world (omega arith) refl
      (omega arith)

abbrev request : EnqueueRequest
request = record {
  instruction_id = "issue-initial-review";
  repo = sample_repo;
  source = record { kind = issue; number = 7 };
  additional_instructions = none;
  requested_by = "ann";
  trigger = at_issue 7;
}

handle_enqueues_example :
    Queued handler request issue_response "t2"
      (seen_world handler headers 150 world)
      150
      (handle handler [] headers "t2" 150 world)
unfolding verify_hub_signature from_hex starts_with same_text already_seen mark_seen evict_expired
    lookup to_dispatched_event issues_event dispatch dispatch_issue_opened resolve_instruction_id
    get_strategy text_discrete includes
handle_enqueues_example =
    handle_enqueues handler [] headers (object payload) "issues"
      (opened_event sample_repo 7 [] (record { id = 5; login = "ann" })) 150 world
      (seen_world handler headers 150 world) refl refl named refl refl request issue_response refl
      refl refl "t2" refl one-Consistent fresh_again
