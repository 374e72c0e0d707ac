-- ===== src/Toolkit.antt =====
-- src/services/toolkit.ts with src/services/tool-registry.ts and src/domain/rules/task-naming.ts:
-- what a strategy works with during one task. The services that the factory is given are arguments;
-- their answers may depend on the events so far, which are recorded in order. `C` is the type of the
-- context that GitHub gives, which is just handed on.
pub mod Calls
pub mod Caching
pub mod Disposal
pub mod Samples
mod Tests
use oh_my_github_runner.Prelude.{
  ℕ, suc, ◌-◌, String, Bool, true, false, ◌&&◌, not, Option, none, some, List, [], ◌∷◌, ◌++◌,
  if◌then◌else◌, includes, is, text_discrete, ◌==◌, codes, drop, length,
}
use oh_my_github_runner.Prelude.Assoc.{Assoc, lookup}
use oh_my_github_runner.Prelude.Action.{Action, Result, ok, err, Failure, thrown, after}
use oh_my_github_runner.Task.{TaskRecord, SourceKind, issue, pull_request}
use oh_my_github_runner.Commands.{Text, trim, is_empty}
use oh_my_github_runner.Checkpoint.{Checkpoints, CheckpointEntry, read, write}
use oh_my_github_runner.Tools.{
  Intensity, OutputSchema, ToolRunInput, ToolRunResult, tool_succeeded, tool_failed, tool_limited,
}
use oh_my_github_runner.Tools.Claude.{or_text}

pub data ContextKey : Type 0 where
  issue_body issue_comments pr_body pr_comments pr_diff pr_base_head linked_refs : ContextKey

pub data PromptFragment : Type 0 where
  file_fragment literal_fragment user_fragment omgr_doc : Text → PromptFragment
  context_fragment : ContextKey → PromptFragment

pub record AiRunOptions : Type 0 where
  pub tool : Option String
  pub prompt : List PromptFragment
  pub intensity : Option Intensity
  pub allowed_tools : Option (List Text)
  pub disallowed_tools : Option (List Text)
  pub timeout_ms : Option ℕ
  pub output_schema : Option OutputSchema
  pub step_key : Option String

pub data AiFailure : Type 0 where
  no_workspace no_context : AiFailure
  tool_required : (declared : List String) → AiFailure
  tool_undeclared : String → (declared : List String) → AiFailure
  tool_error : Text → AiFailure

pub data AiRunResult : Type 0 where
  ai_succeeded : Text → AiRunResult
  ai_failed : AiFailure → AiRunResult
  ai_limited : String → AiRunResult

-- The inputs of the fingerprint.
pub record FingerprintParts : Type 0 where
  pub prompt_text : Text
  pub tool : String
  pub intensity : Option Intensity
  pub allowed_tools : Option (List Text)
  pub disallowed_tools : Option (List Text)
  pub output_schema : Option OutputSchema

pub data Event : Type 0 where
  tool_run : String → ToolRunInput → Event
  artifacts_cleaned : String → Text → Event
  workspace_cleaned : Text → Event
  workspace_prepared : Text → Event
  checkpoint_hit : String → String → Event

-- The identity of a workspace stands for that of its object.
pub record ActiveWorkspace : Type 0 where
  pub identity : ℕ
  pub path : Text
  pub installation_token : String

pub record ToolkitState (C : Type 0) : Type 0 where
  pub active : Option ActiveWorkspace
  pub cached_context : Option C
  pub prepared : ℕ
  pub checkpoints : Checkpoints
  pub events : List Event

pub record WorkspaceManager : Type 0 where
  pub prepare_observe : List Event → TaskRecord → Option String → String → Result Text
  pub prepare_mutate : List Event → TaskRecord → String → Text → String → Result (Text × Text)
  pub prepare_pr_implement : List Event → TaskRecord → String → String → Result (Text × Text)
  pub cleanup_workspace : List Event → Text → Result (Unit {0})

-- `sha256_of` is the digest of the JSON text of the parts; `runners` are the registered tools;
-- `caching` tells whether a checkpoint store is wired.
pub record ToolkitFactoryOptions (C : Type 0) : Type 0 where
  pub get_source_context : List Event → TaskRecord → Result C
  pub get_default_branch : List Event → TaskRecord → Result String
  pub get_installation_access_token : List Event → TaskRecord → Result String
  pub manager : WorkspaceManager
  pub runners : Assoc (List Event → ToolRunInput → Result ToolRunResult)
  pub render : List PromptFragment → C → Text → Result Text
  pub tools_for_task : TaskRecord → List String
  pub caching : Bool
  pub step_filename : String → String
  pub sha256_of : FingerprintParts → String
  pub digits : ℕ → Text

-- A prepared workspace, as the strategy holds it.
pub record Workspace : Type 0 where
  pub identity : ℕ
  pub path : Text
  pub branch : Option (Text × String)
  pub installation_token : String

abbrev pub kind_text : SourceKind → Text
kind_text issue = codes "issue"
kind_text pull_request = codes "pull_request"

-- `slice(-8)`.
abbrev pub last_eight : Text → Text
last_eight cs = drop (length cs - 8) cs

unfoldable pub build_branch_name : (ℕ → Text) → TaskRecord → Text
build_branch_name digits task =
    codes "ai/"
    ++ kind_text task.source.kind
    ++ codes "-"
    ++ digits task.source.number
    ++ codes "-"
    ++ last_eight (codes task.task_id)

abbrev pub error_text : Text → Text → Text
error_text stdout stderr = or_text (trim (or_text stderr stdout)) (codes "tool execution failed")

abbrev pub result_of : ToolRunResult → AiRunResult
result_of (tool_succeeded stdout) = ai_succeeded stdout
result_of (tool_limited tool_name signal) = ai_limited tool_name
result_of (tool_failed exit_code stdout stderr) = ai_failed (tool_error (error_text stdout stderr))

abbrev pub is_hit : String → String → Option CheckpointEntry → Option Text
is_hit fingerprint tool none = none
is_hit fingerprint tool (some entry) =
    if is (text_discrete entry.fingerprint fingerprint) && is (text_discrete entry.tool tool)
    then some entry.stdout
    else none

-- The only tool that is declared.
abbrev pub sole : List String → Option String
sole [] = none
sole (tool ∷ []) = some tool
sole (tool ∷ other ∷ tools) = none

unfoldable pub resolve_tool : List String → Option String → Option String
resolve_tool declared (some tool) = some tool
resolve_tool declared none = sole declared

-- The slot of the active workspace, which is emptied if it holds the given one.
abbrev pub emptied : ℕ → Option ActiveWorkspace → Option ActiveWorkspace
emptied identity none = none
emptied identity (some w) = if w.identity == identity then none else some w

module _ {C : Type 0} where
  abbrev pub note : Event → ToolkitState C → ToolkitState C
  note event s = record s { events = s.events ++ event ∷ [] }

  abbrev pub without_active : ℕ → ToolkitState C → ToolkitState C
  without_active identity s = record s { active = emptied identity s.active }

module _ {C : Type 0} (options : ToolkitFactoryOptions C) (task : TaskRecord) where
  -- `ToolkitFactory.create`: the declared tools, of which there is one at least.
  unfoldable pub create : Checkpoints → Result (List String × ToolkitState C)
  create checkpoints = elim (options.tools_for_task task) [
    | [] ↦ err (thrown "declares no tools")
    | tool ∷ tools ↦ ok (
      tool ∷ tools,
      record {
        active = none;
        cached_context = none;
        prepared = 0;
        checkpoints = checkpoints;
        events = [];
      },
    )
  ]

  unfoldable pub fetch_context : Action (ToolkitState C) C
  fetch_context s = elim s.cached_context [
    | some context ↦ (ok context, s)
    | none ↦ elim (options.get_source_context s.events task) [
      | err e ↦ (err e, s)
      | ok context ↦ (ok context, record s { cached_context = some context })
    ]
  ]

  -- `makeDisposable` and `makeDisposableMutate`: the workspace becomes the active one.
  unfoldable pub make_disposable :
      Text → Option (Text × String) → String → ToolkitState C → Workspace × ToolkitState C
  make_disposable path branch token s = (
    record { identity = s.prepared; path = path; branch = branch; installation_token = token },
    record s {
      active = some (record { identity = s.prepared; path = path; installation_token = token });
      prepared = suc s.prepared;
      events = s.events ++ workspace_prepared path ∷ [];
    },
  )

  abbrev pub observed : String → Result Text → ToolkitState C → Result Workspace × ToolkitState C
  observed token (err e) s = (err e, s)
  observed token (ok path) s = let (w, s') = make_disposable path none token s in (ok w, s')

  abbrev pub mutated :
      String → String → Result (Text × Text) → ToolkitState C → Result Workspace × ToolkitState C
  mutated base token (err e) s = (err e, s)
  mutated base token (ok (path, branch)) s =
      let (w, s') = make_disposable path (some (branch, base)) token s in (ok w, s')

  abbrev pub token_of : Action (ToolkitState C) String
  token_of s = (options.get_installation_access_token s.events task, s)

  unfoldable pub prepare_observe : Option String → Action (ToolkitState C) Workspace
  prepare_observe checkout_ref s = after (token_of s) λ token s'.
      observed token (options.manager.prepare_observe s'.events task checkout_ref token) s'

  abbrev pub base_branch_of : Option String → List Event → Result String
  base_branch_of none events = options.get_default_branch events task
  base_branch_of (some base) events = ok base

  unfoldable pub prepare_mutate : Option String → Action (ToolkitState C) Workspace
  prepare_mutate base_branch s =
      after (base_branch_of base_branch s.events, s)
        λ base s'. after (token_of s') λ token s''.
          mutated base token
            (options.manager.prepare_mutate s''.events task base
              (build_branch_name options.digits task) token)
            s''

  unfoldable pub prepare_pr_implement : String → Action (ToolkitState C) Workspace
  prepare_pr_implement head_ref s = after (token_of s) λ token s'.
      mutated head_ref token (options.manager.prepare_pr_implement s'.events task head_ref token) s'

  abbrev pub cleaned_by : {R : Type 0} → Option R → String → Text → ToolkitState C → ToolkitState C
  cleaned_by none tool path s = s
  cleaned_by (some runner) tool path s = note (artifacts_cleaned tool path) s

  -- An unknown tool throws, and an error of the cleanup is logged: neither stops the loop.
  unfoldable pub cleanup_tool_artifacts : List String → Text → ToolkitState C → ToolkitState C
  cleanup_tool_artifacts [] path s = s
  cleanup_tool_artifacts (tool ∷ tools) path s =
      cleanup_tool_artifacts tools path (cleaned_by (lookup tool options.runners) tool path s)

  abbrev pub disposed :
      List String
      → Workspace
      → Result (Unit {0})
      → ToolkitState C
      → Result (Unit {0}) × ToolkitState C
  disposed declared w (err e) s = (err e, without_active w.identity s)
  disposed declared w (ok _) s =
      (ok tt, without_active w.identity (cleanup_tool_artifacts declared w.path s))

  -- The end of the scope of a workspace.
  unfoldable pub dispose : List String → Workspace → Action (ToolkitState C) (Unit {0})
  dispose declared w s =
      let s' = note (workspace_cleaned w.path) s in
      disposed declared w (options.manager.cleanup_workspace s'.events w.path) s'

  module _ (declared : List String) (opts : AiRunOptions) where
    abbrev pub run_input : Text → ActiveWorkspace → ToolRunInput
    run_input prompt_text w = record {
      task = task;
      workspace_path = w.path;
      prompt = prompt_text;
      installation_token = some w.installation_token;
      allowed_tools = opts.allowed_tools;
      disallowed_tools = opts.disallowed_tools;
      timeout_ms = opts.timeout_ms;
      intensity = opts.intensity;
      output_schema = opts.output_schema;
    }

    abbrev pub compute_fingerprint : Text → String → String
    compute_fingerprint prompt_text tool = options.sha256_of (record {
      prompt_text = prompt_text;
      tool = tool;
      intensity = opts.intensity;
      allowed_tools = opts.allowed_tools;
      disallowed_tools = opts.disallowed_tools;
      output_schema = opts.output_schema;
    })

    -- The key of the step, when the cache is in use.
    abbrev pub cache_key : Option String
    cache_key = if options.caching then opts.step_key else none

    abbrev pub entry_of : String → Text → String → Text → String → CheckpointEntry
    entry_of key prompt_text tool stdout at = record {
      step_key = key;
      fingerprint = compute_fingerprint prompt_text tool;
      tool = tool;
      succeeded_at = at;
      stdout = stdout;
    }

    abbrev pub saved :
        Option String → Text → String → String → ToolRunResult → ToolkitState C → ToolkitState C
    saved none prompt_text tool at result s = s
    saved (some key) prompt_text tool at (tool_succeeded stdout) s = record s {
      checkpoints =
          write options.step_filename task.task_id (entry_of key prompt_text tool stdout at)
            s.checkpoints;
    }
    saved (some key) prompt_text tool at (tool_limited tool_name signal) s = s
    saved (some key) prompt_text tool at (tool_failed exit_code stdout stderr) s = s

    abbrev pub tool_ended :
        Text
        → String
        → String
        → Result ToolRunResult
        → ToolkitState C
        → Result AiRunResult × ToolkitState C
    tool_ended prompt_text tool at (err e) s = (err e, s)
    tool_ended prompt_text tool at (ok result) s =
        (ok (result_of result), saved cache_key prompt_text tool at result s)

    unfoldable pub call_tool :
        Text → String → ActiveWorkspace → String → Action (ToolkitState C) AiRunResult
    call_tool prompt_text tool w at s = elim (lookup tool options.runners) [
      | none ↦ (err (thrown tool), s)
      | some runner ↦
          let input = run_input prompt_text w in
          let s' = note (tool_run tool input) s in
          tool_ended prompt_text tool at (runner s'.events input) s'
    ]

    abbrev pub cached_or :
        String
        → Text
        → String
        → ActiveWorkspace
        → String
        → Option Text
        → Action (ToolkitState C) AiRunResult
    cached_or key prompt_text tool w at (some stdout) s =
        (ok (ai_succeeded stdout), note (checkpoint_hit key tool) s)
    cached_or key prompt_text tool w at none s = call_tool prompt_text tool w at s

    unfoldable pub run_step :
        Option String
        → Text
        → String
        → ActiveWorkspace
        → String
        → Action (ToolkitState C) AiRunResult
    run_step none prompt_text tool w at s = call_tool prompt_text tool w at s
    run_step (some key) prompt_text tool w at s =
        let (entry, checkpoints) = read options.step_filename task.task_id key s.checkpoints in
        cached_or key prompt_text tool w at
          (is_hit (compute_fingerprint prompt_text tool) tool entry)
          (record s { checkpoints = checkpoints })

    abbrev pub rendered :
        String → ActiveWorkspace → String → Result Text → Action (ToolkitState C) AiRunResult
    rendered tool w at (err e) s = (err e, s)
    rendered tool w at (ok prompt_text) s = run_step cache_key prompt_text tool w at s

    abbrev pub fails : AiFailure → ToolkitState C → Result AiRunResult × ToolkitState C
    fails failure s = (ok (ai_failed failure), s)

    abbrev pub with_tool :
        ActiveWorkspace → C → String → Option String → Action (ToolkitState C) AiRunResult
    with_tool w context at none s = fails (tool_required declared) s
    with_tool w context at (some tool) s =
        if not (includes tool declared)
        then fails (tool_undeclared tool declared) s
        else rendered tool w at (options.render opts.prompt context w.path) s

    abbrev pub with_context :
        ActiveWorkspace → Option C → String → Action (ToolkitState C) AiRunResult
    with_context w none at s = fails no_context s
    with_context w (some context) at s = with_tool w context at (resolve_tool declared opts.tool) s

    abbrev pub with_workspace :
        Option ActiveWorkspace → String → Action (ToolkitState C) AiRunResult
    with_workspace none at s = fails no_workspace s
    with_workspace (some w) at s = with_context w s.cached_context at s

    -- `ai.run`; `at` is the time that a saved result gets.
    unfoldable pub ai_run : String → Action (ToolkitState C) AiRunResult
    ai_run at s = with_workspace s.active at s
