-- ===== src/Sticky/Tests.antt =====
-- The comment of a queued task that was triggered by a comment.
use oh_my_github_runner.Prelude.{ℕ, String, ◌≡◌, refl, [], ◌∷◌, codes}
use oh_my_github_runner.Commands.{Text}
use oh_my_github_runner.Dispatch.{at_comment}
use oh_my_github_runner.Webhook.{StickyCommentMeta}
use oh_my_github_runner.Sticky.{truncate}

abbrev sample_meta : StickyCommentMeta
sample_meta = record {
  task_id = "t1";
  instruction_id = "issue-comment-reply";
  tools = "claude" ∷ [];
  requested_by = "ann";
  trigger = at_comment 7 9;
}

abbrev text_of_id : String → Text
text_of_id _ = codes "t1"

abbrev seven : ℕ → Text
seven _ = codes "7"

a_long_error : truncate (codes "abcdef") 4 ≡ codes "abcd…"
unfolding truncate
a_long_error = refl

a_short_error : truncate (codes "abcd") 4 ≡ codes "abcd"
unfolding truncate
a_short_error = refl
