-- ===== src/Runs/Tests.antt =====
-- Runs of the strategies.
use oh_my_github_runner.Prelude.{
  String, ◌≡◌, refl, false, none, some, [], ◌∷◌, codes, includes, text_discrete,
}
use oh_my_github_runner.Prelude.Assoc.{lookup}
use oh_my_github_runner.Prelude.Action.{ok}
use oh_my_github_runner.Commands.{same_text, trim, trim_start, trim_end, is_space}
use oh_my_github_runner.Toolkit.{
  ai_run, run_step, call_tool, resolve_tool, fetch_context, prepare_observe, make_disposable,
  dispose, cleanup_tool_artifacts,
}
use oh_my_github_runner.Toolkit.Samples as Samples
use oh_my_github_runner.Replies.{
  entry, envelope, text_field, integer_field, other_field, parse_issue_comment_reply_envelope,
  parse_actions, parse_additional_action, read_non_empty_string, read_positive_integer,
  read_target_kind, format_succeeded_action_receipt, closed_receipt, RawOutput,
}
use oh_my_github_runner.Runs.{
  RunOptions, RunState, run_issue_response, close_issue_call, reply_call, dispatch_actions,
  post_source_reply,
}
use oh_my_github_runner.Runs.Replying.{IsReplying, run_issue_response-IsReplying}

abbrev output : RawOutput
output = envelope (record {
  raw_reply = text_field (codes "done");
  raw_reasoning = text_field (codes "why");
  raw_actions = some (
      entry (record {
        kind = text_field (codes "close_issue");
        title = other_field;
        body = other_field;
        issue_number = integer_field 9;
        target_kind = other_field;
        target_number = other_field;
      })
      ∷ []);
})

abbrev options : RunOptions String
options = record {
  toolkit_options = Samples.options;
  declared = "claude" ∷ [];
  aborted = λ s. false;
  github_answer = λ s. ok 0;
  head_ref = λ context. none;
  header = λ t context. codes "header";
  text_of = λ text. codes "text";
  parse_json = λ text. output;
  reply_schema = record { inline = codes "{}"; indented = codes "{}" };
  now = "now";
}

abbrev start : RunState String
start = record {
  toolkit = record {
    active = none;
    cached_context = none;
    prepared = 0;
    checkpoints = record { dirs = []; corrupt = [] };
    events = [];
  };
  calls = [];
  log = [];
}

run_issue_response-IsReplying_example :
    IsReplying options Samples.task []
      (run_issue_response options Samples.task start).0
      (run_issue_response options Samples.task start).1.calls
run_issue_response-IsReplying_example = run_issue_response-IsReplying options Samples.task start

answered :
    (run_issue_response options Samples.task start).1.calls
    ≡ close_issue_call 9
      ∷ reply_call 7 (record { reply_comment = codes "done"; receipts = closed_receipt 9 ∷ [] })
      ∷ []
unfolding run_issue_response prepare_observe make_disposable fetch_context ai_run resolve_tool
    run_step call_tool lookup includes text_discrete parse_issue_comment_reply_envelope
    parse_actions parse_additional_action read_non_empty_string read_positive_integer
    read_target_kind same_text trim trim_start trim_end is_space dispatch_actions post_source_reply
    format_succeeded_action_receipt dispose cleanup_tool_artifacts
answered = refl
