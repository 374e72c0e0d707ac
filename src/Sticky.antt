-- ===== src/Sticky.antt =====
-- src/services/sticky-comment.ts: the texts of the comments on tasks. A text of the source's strings
-- is a list of code units here, and the literals stand as their code
-- points; `text_of` gives the units of an id or a login, and `digits` the
-- decimal text of a number.
pub mod Bodies
mod Tests
use oh_my_github_runner.Prelude.{
  ℕ, ◌+◌, String, Option, none, some, List, [], ◌∷◌, ◌++◌, map, if◌then◌else◌, leb, length, take,
  codes,
}
use oh_my_github_runner.Task.{TaskRecord, SourceKind, issue, pull_request}
use oh_my_github_runner.Strategies.{StrategyPolicies, get_strategy}
use oh_my_github_runner.Commands.{Text, newline}
use oh_my_github_runner.Dispatch.{TriggerLocation, at_issue, at_comment}
use oh_my_github_runner.Webhook.{StickyCommentMeta}
use oh_my_github_runner.Tools.Claude.{join_with}

abbrev pub lines : List Text → Text
lines ts = join_with (newline ∷ []) ts

abbrev pub rejection_marker : Text
rejection_marker = codes "<!-- omgr:rejected -->"

abbrev pub tools_label : List String → Text
tools_label [] = codes "tools"
tools_label (_ ∷ []) = codes "tool"
tools_label (_ ∷ _ ∷ _) = codes "tools"

abbrev pub tools_of : Option StrategyPolicies → List String
tools_of none = []
tools_of (some policies) = policies.uses

unfoldable pub truncate : Text → ℕ → Text
truncate value max_len =
    if leb (length value) max_len then value else take max_len value ++ codes "…"

module _ (text_of : String → Text) (digits : ℕ → Text) where
  unfoldable pub sticky_comment_marker : String → Text
  sticky_comment_marker task_id = codes "<!-- omgr:task=" ++ (text_of task_id ++ codes " -->")

  abbrev pub quoted : Text → Text
  quoted text = codes "`" ++ text ++ codes "`"

  unfoldable pub describe_trigger : TriggerLocation → Text
  describe_trigger (at_issue n) = codes "issue #" ++ digits n ++ codes " opened"
  describe_trigger (at_comment n comment_id) = codes "comment on #" ++ digits n

  abbrev pub kind_label : SourceKind → Text
  kind_label issue = codes "issue"
  kind_label pull_request = codes "PR"

  unfoldable pub describe_source : TaskRecord → Text
  describe_source task = kind_label task.source.kind ++ codes " #" ++ digits task.source.number

  unfoldable pub format_tools_cell : List String → Text
  format_tools_cell [] = codes "`—`"
  format_tools_cell (tool ∷ tools) =
      join_with (codes ", ") (map (λ t. quoted (text_of t)) (tool ∷ tools))

  abbrev pub row : Text → Text → Text
  row key value = codes "| " ++ key ++ codes " | " ++ value ++ codes " |"

  abbrev pub meta_table : String → List String → String → Text → Text → Text
  meta_table instruction_id tools requested_by last_key last_value = lines (
      codes "| key | value |"
      ∷ codes "|---|---|"
      ∷ row (codes "instruction") (quoted (text_of instruction_id))
      ∷ row (tools_label tools) (format_tools_cell tools)
      ∷ row (codes "triggered by") (codes "@" ++ text_of requested_by)
      ∷ row last_key last_value
      ∷ [])

  unfoldable pub queued_meta_table : StickyCommentMeta → Text
  queued_meta_table meta =
      meta_table meta.instruction_id meta.tools meta.requested_by (codes "trigger")
        (describe_trigger meta.trigger)

  unfoldable pub task_meta_table : TaskRecord → Text
  task_meta_table task =
      meta_table task.instruction_id (tools_of (get_strategy task.instruction_id)) task.requested_by
        (codes "source") (describe_source task)

  abbrev pub title : Text → String → Text
  title heading task_id = heading ++ codes " — " ++ quoted (text_of task_id)

  -- The marker, the heading, and the rest of a comment on a task.
  unfoldable pub headed : String → Text → List Text → Text
  headed task_id heading rest = lines (sticky_comment_marker task_id ∷ title heading task_id ∷ rest)

  unfoldable pub render_queued : StickyCommentMeta → Text
  render_queued meta = headed meta.task_id (codes "🤖 **Task queued**") (
      []
      ∷ queued_meta_table meta
      ∷ []
      ∷ codes "_This comment will be updated when the task completes._"
      ∷ [])

  unfoldable pub render_failure : TaskRecord → Text → Text
  render_failure task error_summary = headed task.task_id (codes "❌ **Task failed**") (
      []
      ∷ task_meta_table task
      ∷ []
      ∷ codes "**Error**:"
      ∷ []
      ∷ codes "```"
      ∷ truncate error_summary 1500
      ∷ codes "```"
      ∷ [])

  unfoldable pub render_rate_limited : TaskRecord → Text
  render_rate_limited task = headed task.task_id (codes "⏳ **Task waiting on rate-limit reset**") (
      []
      ∷ task_meta_table task
      ∷ []
      ∷ codes "_Will resume automatically once the tool's rate limit clears._"
      ∷ [])

  unfoldable pub render_superseded : TaskRecord → String → Text
  render_superseded task superseded_by = headed task.task_id (codes "🔁 **Task superseded**") (
      []
      ∷ task_meta_table task
      ∷ []
      ∷ (codes "_Replaced by a newer trigger: " ++ quoted (text_of superseded_by) ++ codes "._")
      ∷ [])

  unfoldable pub render_rejection : Text → Text → String → TriggerLocation → Text
  render_rejection reason body requested_by trigger = lines (
      rejection_marker
      ∷ (codes "❌ **Trigger rejected** — " ++ reason)
      ∷ []
      ∷ (codes "Triggered by @"
          ++ text_of requested_by
          ++ codes " via "
          ++ describe_trigger trigger)
      ∷ []
      ∷ body
      ∷ [])
