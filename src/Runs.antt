-- ===== src/Runs.antt =====
-- The `run` of the strategies, src/strategies/*.ts, with the helpers beside them: on the toolkit and
-- on the calls to GitHub that the issue response makes itself. A call is recorded before it is
-- answered, and an answer may depend on all that happened so far. `throwIfAborted` asks an argument.
-- Comments and results are constructors in place of texts. `C` is the type of the context.
pub mod Replying
pub mod Silence
mod Tests
use oh_my_github_runner.Prelude.{
  ℕ, zero, suc, String, Bool, true, false, not, Option, none, some, List, [], ◌∷◌, ◌++◌,
  if◌then◌else◌, ltb, codes, option_map, get_or, ◌*◌,
}
use oh_my_github_runner.Prelude.Action.{Action, Result, ok, err, Failure, thrown, after, ◌>>=◌}
use oh_my_github_runner.Task.{TaskRecord, SourceKind, issue, pull_request}
use oh_my_github_runner.Commands.{Text}
use oh_my_github_runner.Toolkit.{
  ToolkitFactoryOptions, ToolkitState, AiRunOptions, AiRunResult, ai_succeeded, ai_failed,
  ai_limited, AiFailure, PromptFragment, file_fragment, literal_fragment, user_fragment, omgr_doc,
  context_fragment, Workspace, fetch_context, prepare_observe, prepare_mutate, prepare_pr_implement,
  dispose, ai_run, issue_body, issue_comments, pr_body, pr_comments, pr_diff, pr_base_head,
  linked_refs,
}
use oh_my_github_runner.Tools.{OutputSchema, high}
use oh_my_github_runner.Replies.{
  ReplyAdditionalAction, create_issue, close_issue, comment, IssueCommentReplyEnvelope, RawOutput,
  Parsed, accepted, refused, ReplyError, parse_issue_comment_reply_envelope, Receipt,
  format_succeeded_action_receipt, format_failed_action_receipt, is_issue,
}

-- The reply, with the receipts below it when there are any.
pub record FinalReply : Type 0 where
  pub reply_comment : Text
  pub receipts : List Receipt

pub data ReplyCall : Type 0 where
  create_issue_call : (title body : Text) → ReplyCall
  close_issue_call : ℕ → ReplyCall
  comment_call : SourceKind → ℕ → (body : Text) → ReplyCall
  reply_call : ℕ → FinalReply → ReplyCall

pub data LogLine : Type 0 where
  reply_posted : (attempt : ℕ) → LogLine
  reply_attempt_failed : (attempt : ℕ) → Failure → LogLine
  giving_up : FinalReply → LogLine

pub data RunFailure : Type 0 where
  issue_source_required issue_context_required pull_request_required : RunFailure
  ai_error : AiFailure → RunFailure
  envelope_error : ReplyError → RunFailure
  reply_error : Failure → RunFailure

pub data StrategyResult : Type 0 where
  strategy_succeeded : StrategyResult
  strategy_failed : RunFailure → StrategyResult
  strategy_limited : List String → StrategyResult

pub record RunState (C : Type 0) : Type 0 where
  pub toolkit : ToolkitState C
  pub calls : List ReplyCall
  pub log : List LogLine

-- `head_ref` is absent in the context of an issue. `github_answer` gives a number, which counts for
-- a created issue only.
pub record RunOptions (C : Type 0) : Type 0 where
  pub toolkit_options : ToolkitFactoryOptions C
  pub declared : List String
  pub aborted : RunState C → Bool
  pub github_answer : RunState C → Result ℕ
  pub head_ref : C → Option String
  pub header : TaskRecord → C → Text
  pub text_of : String → Text
  pub parse_json : Text → RawOutput
  pub reply_schema : OutputSchema
  pub now : String

abbrev pub observe_allowed : List Text
observe_allowed =
    codes "read"
    ∷ codes "grep"
    ∷ codes "glob"
    ∷ codes "shell:gh"
    ∷ codes "shell:git log"
    ∷ codes "shell:git diff"
    ∷ codes "shell:git status"
    ∷ codes "shell:git show"
    ∷ []

abbrev pub collect_only_allowed : List Text
collect_only_allowed =
    codes "read"
    ∷ codes "grep"
    ∷ codes "glob"
    ∷ codes "shell:gh issue view"
    ∷ codes "shell:gh pr view"
    ∷ codes "shell:gh api"
    ∷ codes "shell:git log"
    ∷ codes "shell:git diff"
    ∷ codes "shell:git status"
    ∷ codes "shell:git show"
    ∷ []

abbrev pub mutate_allowed : List Text
mutate_allowed =
    codes "read"
    ∷ codes "grep"
    ∷ codes "glob"
    ∷ codes "edit"
    ∷ codes "write"
    ∷ codes "shell:gh"
    ∷ codes "shell:git"
    ∷ codes "shell:npm"
    ∷ codes "shell:node"
    ∷ []

abbrev pub mutate_disallowed : List Text
mutate_disallowed = codes "shell:gh pr merge" ∷ []

abbrev pub map_ai_failure : AiRunResult → StrategyResult
map_ai_failure (ai_succeeded stdout) = strategy_succeeded
map_ai_failure (ai_limited tool_name) = strategy_limited (tool_name ∷ [])
map_ai_failure (ai_failed failure) = strategy_failed (ai_error failure)

abbrev pub call_of : ReplyAdditionalAction → ReplyCall
call_of (create_issue title body) = create_issue_call title body
call_of (close_issue n) = close_issue_call n
call_of (comment target_kind n body) = comment_call target_kind n body

-- Of the actions, just a created issue has a number.
abbrev pub number_of : ReplyAdditionalAction → ℕ → Option ℕ
number_of (create_issue title body) n = some n
number_of (close_issue m) n = none
number_of (comment target_kind m body) n = none

abbrev pub receipt_of : ReplyAdditionalAction → Result ℕ → Receipt
receipt_of action (ok n) = format_succeeded_action_receipt action (number_of action n)
receipt_of action (err e) = format_failed_action_receipt action e

abbrev pub source_reply_max_attempts : ℕ
source_reply_max_attempts = 3

module _ {C : Type 0} where
  abbrev pub record_call : ReplyCall → RunState C → RunState C
  record_call call s = record s { calls = s.calls ++ call ∷ [] }

  abbrev pub write_log : LogLine → RunState C → RunState C
  write_log line s = record s { log = s.log ++ line ∷ [] }

  abbrev pub on_toolkit : {A : Type 0} → Action (ToolkitState C) A → Action (RunState C) A
  on_toolkit m s = let (r, t) = m s.toolkit in (r, record s { toolkit = t })

module _ {C : Type 0} (options : RunOptions C) (task : TaskRecord) where
  abbrev pub throw_if_aborted : Action (RunState C) (Unit {0})
  throw_if_aborted s = if options.aborted s then (err (thrown "AbortError"), s) else (ok tt, s)

  abbrev pub dispatch_action : ReplyAdditionalAction → RunState C → Receipt × RunState C
  dispatch_action action s =
      let s' = record_call (call_of action) s in (receipt_of action (options.github_answer s'), s')

  abbrev pub add_receipt :
      Receipt → Result (List Receipt) × RunState C → Result (List Receipt) × RunState C
  add_receipt receipt (ok receipts, s) = (ok (receipt ∷ receipts), s)
  add_receipt receipt (err e, s) = (err e, s)

  unfoldable pub dispatch_actions : List ReplyAdditionalAction → Action (RunState C) (List Receipt)
  dispatch_actions [] s = (ok [], s)
  dispatch_actions (action ∷ actions) s =
      let (receipt, s') = dispatch_action action s in
      let rest = dispatch_actions actions s' in
      if options.aborted s then (err (thrown "AbortError"), s) else add_receipt receipt rest

  abbrev pub attempt_ended :
      ℕ
      → (Failure → Result (Option Failure) × RunState C)
      → Result ℕ
      → RunState C
      → Result (Option Failure) × RunState C
  attempt_ended attempt again (ok _) s =
      (ok none, if ltb 1 attempt then write_log (reply_posted attempt) s else s)
  attempt_ended attempt again (err e) s = again e

  -- The loop over the attempts, with the error of the last one.
  unfoldable pub post_source_reply :
      ℕ → ℕ → Option Failure → FinalReply → Action (RunState C) (Option Failure)
  post_source_reply zero attempt last_error reply s = (ok last_error, s)
  post_source_reply (suc left) attempt last_error reply s =
      let s' = record_call (reply_call task.source.number reply) s in
      let again : Failure → Result (Option Failure) × RunState C = λ e.
        post_source_reply left (suc attempt) (some e) reply
          (write_log (reply_attempt_failed attempt e) s') in
      if options.aborted s
      then (err (thrown "AbortError"), s)
      else attempt_ended attempt again (options.github_answer s') s'

  abbrev pub reply_ended : FinalReply → Option Failure → Action (RunState C) StrategyResult
  reply_ended reply none s = (ok strategy_succeeded, s)
  reply_ended reply (some e) s =
      (ok (strategy_failed (reply_error e)), write_log (giving_up reply) s)

  abbrev pub answer_envelope : IssueCommentReplyEnvelope → Action (RunState C) StrategyResult
  answer_envelope e = dispatch_actions e.additional_actions >>= λ receipts.
      let reply : FinalReply = record { reply_comment = e.reply_comment; receipts = receipts } in
      post_source_reply source_reply_max_attempts 1 none reply >>= reply_ended reply

  abbrev pub answer_parsed : Parsed IssueCommentReplyEnvelope → Action (RunState C) StrategyResult
  answer_parsed (accepted e) s = answer_envelope e s
  answer_parsed (refused e) s = (ok (strategy_failed (envelope_error e)), s)

  abbrev pub answer : AiRunResult → Action (RunState C) StrategyResult
  answer (ai_succeeded stdout) s =
      answer_parsed
        (parse_issue_comment_reply_envelope task.source.number (options.parse_json stdout)) s
  answer (ai_failed failure) s = (ok (map_ai_failure (ai_failed failure)), s)
  answer (ai_limited tool_name) s = (ok (map_ai_failure (ai_limited tool_name)), s)

  -- `await using`: the workspace is disposed of however its block ends.
  abbrev pub scope_ended :
      {A : Type 0} → Result A → Result (Unit {0}) × RunState C → Result A × RunState C
  scope_ended result (ok _, s) = (result, s)
  scope_ended result (err e, s) = (err e, s)

  abbrev pub using_workspace :
      {A : Type 0} → Workspace → Action (RunState C) A → Action (RunState C) A
  using_workspace w block s =
      let (result, s') = block s in
      scope_ended result (on_toolkit (dispose options.toolkit_options task options.declared w) s')

  abbrev pub user_text : PromptFragment
  user_text =
      user_fragment (get_or (option_map options.text_of task.additional_instructions) (codes ""))

  abbrev pub common_fragments : List PromptFragment
  common_fragments =
      file_fragment (codes "_common/work-rules")
      ∷ file_fragment (codes "_common/tone")
      ∷ file_fragment (codes "_common/engineering-stance")
      ∷ []

  abbrev pub response_options : C → AiRunOptions
  response_options context = record {
    tool = none;
    prompt =
        common_fragments
        ++ literal_fragment (options.header task context)
          ∷ file_fragment (codes "modes/reply-structured")
          ∷ file_fragment (codes "_common/omgr-docs")
          ∷ context_fragment issue_body
          ∷ context_fragment issue_comments
          ∷ context_fragment linked_refs
          ∷ user_text
          ∷ [];
    intensity = some high;
    allowed_tools = some collect_only_allowed;
    disallowed_tools = none;
    timeout_ms = some (1800 * 1000);
    output_schema = some options.reply_schema;
    step_key = none;
  }

  abbrev pub implement_options : List PromptFragment → AiRunOptions
  implement_options prompt = record {
    tool = none;
    prompt = prompt;
    intensity = none;
    allowed_tools = some mutate_allowed;
    disallowed_tools = some mutate_disallowed;
    timeout_ms = some (3600 * 1000);
    output_schema = none;
    step_key = none;
  }

  abbrev pub pr_fragments : List PromptFragment
  pr_fragments =
      context_fragment pr_body
      ∷ context_fragment pr_comments
      ∷ context_fragment pr_diff
      ∷ context_fragment pr_base_head
      ∷ context_fragment linked_refs
      ∷ user_text
      ∷ []

  abbrev pub issue_implement_options : C → AiRunOptions
  issue_implement_options context = implement_options (
      common_fragments
      ++ file_fragment (codes "personas/implementation")
        ∷ literal_fragment (options.header task context)
        ∷ file_fragment (codes "modes/mutate")
        ∷ file_fragment (codes "guidance/issue-implement")
        ∷ omgr_doc (codes ".omgr/architecture.md")
        ∷ omgr_doc (codes ".omgr/testing.md")
        ∷ context_fragment issue_body
        ∷ context_fragment issue_comments
        ∷ context_fragment linked_refs
        ∷ user_text
        ∷ [])

  abbrev pub pr_implement_options : C → AiRunOptions
  pr_implement_options context = implement_options (
      common_fragments
      ++ file_fragment (codes "personas/implementation")
        ∷ literal_fragment (options.header task context)
        ∷ file_fragment (codes "modes/mutate")
        ∷ omgr_doc (codes ".omgr/architecture.md")
        ∷ omgr_doc (codes ".omgr/testing.md")
        ∷ pr_fragments)

  abbrev pub review_options : C → AiRunOptions
  review_options context = record {
    tool = none;
    prompt =
        common_fragments
        ++ file_fragment (codes "personas/architect")
          ∷ literal_fragment (options.header task context)
          ∷ file_fragment (codes "modes/observe")
          ∷ omgr_doc (codes ".omgr/architecture.md")
          ∷ pr_fragments;
    intensity = none;
    allowed_tools = some observe_allowed;
    disallowed_tools = none;
    timeout_ms = some (1800 * 1000);
    output_schema = none;
    step_key = none;
  }

  abbrev pub run_ai : AiRunOptions → Action (RunState C) AiRunResult
  run_ai opts = on_toolkit (ai_run options.toolkit_options task options.declared opts options.now)

  abbrev pub get_context : Action (RunState C) C
  get_context = on_toolkit (fetch_context options.toolkit_options task)

  abbrev pub respond_in_context : C → Option String → Action (RunState C) StrategyResult
  respond_in_context context (some head) s = (ok (strategy_failed issue_context_required), s)
  respond_in_context context none s =
      (throw_if_aborted >>= λ _. run_ai (response_options context) >>= answer) s

  abbrev pub respond_in_workspace : Action (RunState C) StrategyResult
  respond_in_workspace = throw_if_aborted >>= λ _.
      get_context >>= λ context. respond_in_context context (options.head_ref context)

  -- `issueResponseStrategy`.
  unfoldable pub run_issue_response : Action (RunState C) StrategyResult
  run_issue_response s =
      if not (is_issue task.source.kind)
      then (ok (strategy_failed issue_source_required), s)
      else (throw_if_aborted >>= λ _.
            on_toolkit (prepare_observe options.toolkit_options task none) >>= λ w.
            using_workspace w respond_in_workspace)
          s

  abbrev pub run_and_map : AiRunOptions → Action (RunState C) StrategyResult
  run_and_map opts =
      throw_if_aborted >>= λ _. run_ai opts >>= λ result s. (ok (map_ai_failure result), s)

  -- `issueImplementStrategy`.
  unfoldable pub run_issue_implement : Action (RunState C) StrategyResult
  run_issue_implement = throw_if_aborted >>= λ _. get_context >>= λ context.
      throw_if_aborted >>= λ _.
      on_toolkit (prepare_mutate options.toolkit_options task none) >>= λ w.
      using_workspace w (run_and_map (issue_implement_options context))

  abbrev pub with_head_ref :
      (String → Action (RunState C) StrategyResult)
      → Option String
      → Action (RunState C) StrategyResult
  with_head_ref run none s = (ok (strategy_failed pull_request_required), s)
  with_head_ref run (some head_ref) s = run head_ref s

  -- `prImplementStrategy`.
  unfoldable pub run_pr_implement : Action (RunState C) StrategyResult
  run_pr_implement = throw_if_aborted >>= λ _. get_context >>= λ context.
      with_head_ref
        (λ head_ref. throw_if_aborted >>= λ _.
          on_toolkit (prepare_pr_implement options.toolkit_options task head_ref) >>= λ w.
          using_workspace w (run_and_map (pr_implement_options context)))
        (options.head_ref context)

  -- `prReviewCommentStrategy`.
  unfoldable pub run_pr_review_comment : Action (RunState C) StrategyResult
  run_pr_review_comment = throw_if_aborted >>= λ _. get_context >>= λ context.
      with_head_ref
        (λ head_ref. throw_if_aborted >>= λ _.
          on_toolkit (prepare_observe options.toolkit_options task (some head_ref)) >>= λ w.
          using_workspace w (run_and_map (review_options context)))
        (options.head_ref context)
