-- ===== src/Replies/Tests.antt =====
-- Envelopes that are accepted and refused.
use oh_my_github_runner.Prelude.{◌≡◌, refl, some, [], ◌∷◌, codes}
use oh_my_github_runner.Task.{issue}
use oh_my_github_runner.Commands.{same_text, trim, trim_start, trim_end, is_space}
use oh_my_github_runner.Replies.{
  RawEntry, RawOutput, entry, envelope, text_field, integer_field, other_field, comment, accepted,
  refused, source_issue_target, parse_issue_comment_reply_envelope, parse_actions,
  parse_additional_action, read_non_empty_string, read_positive_integer, read_target_kind,
}
use oh_my_github_runner.Replies.Envelopes.{parse_issue_comment_reply_envelope-Sound, Each, Sound}

abbrev comment_on : RawEntry
comment_on = entry (record {
  kind = text_field (codes "comment");
  title = other_field;
  body = text_field (codes " hi ");
  issue_number = other_field;
  target_kind = text_field (codes "issue");
  target_number = integer_field 8;
})

abbrev output : RawOutput
output = envelope (record {
  raw_reply = text_field (codes "done");
  raw_reasoning = text_field (codes "why");
  raw_actions = some (comment_on ∷ []);
})

parse_issue_comment_reply_envelope-Sound_example :
    Each (Sound 7 output) (parse_issue_comment_reply_envelope 7 output)
parse_issue_comment_reply_envelope-Sound_example = parse_issue_comment_reply_envelope-Sound 7 output

it_is_accepted :
    parse_issue_comment_reply_envelope 7 output
    ≡ accepted (record {
      reply_comment = codes "done";
      additional_actions = comment issue 8 (codes "hi") ∷ [];
      reasoning = codes "why";
    })
unfolding parse_issue_comment_reply_envelope parse_actions parse_additional_action
    read_non_empty_string read_positive_integer read_target_kind same_text trim trim_start trim_end
    is_space
it_is_accepted = refl

it_is_refused : parse_issue_comment_reply_envelope 8 output ≡ refused source_issue_target
unfolding parse_issue_comment_reply_envelope parse_actions parse_additional_action
    read_non_empty_string read_positive_integer read_target_kind same_text trim trim_start trim_end
    is_space
it_is_refused = refl
