-- ===== src/Tools.antt =====
-- src/domain/tool.ts and src/infra/tool/_shared.ts: what a tool runner is given, the environment of
-- its process, and how the end of the process is read. An object of a schema stands as its two
-- printings; abort signals are left out.
pub mod Pattern
pub mod Claude
pub mod Codex
pub mod Limits
pub mod Cleanup
pub mod Answers
mod Tests
use oh_my_github_runner.Prelude.{
  ℕ, String, Option, none, some, List, [], ◌∷◌, ◌++◌, if◌then◌else◌, ◌==◌, codes, Bool, true, false,
}
use oh_my_github_runner.Prelude.Assoc.{Assoc, insert}
use oh_my_github_runner.Task.{TaskRecord}
use oh_my_github_runner.Commands.{Text, newline}
use Pattern.{RegExp, test}

pub data Intensity : Type 0 where
  low medium high : Intensity

pub record OutputSchema : Type 0 where
  pub inline : Text
  pub indented : Text

pub record ToolRunInput : Type 0 where
  pub task : TaskRecord
  pub workspace_path : Text
  pub prompt : Text
  pub installation_token : Option String
  pub allowed_tools : Option (List Text)
  pub disallowed_tools : Option (List Text)
  pub timeout_ms : Option ℕ
  pub intensity : Option Intensity
  pub output_schema : Option OutputSchema

pub data ToolRunResult : Type 0 where
  tool_succeeded : (stdout : Text) → ToolRunResult
  tool_failed : (exit_code : ℕ) → (stdout stderr : Text) → ToolRunResult
  tool_limited : (tool_name : String) → (signal : Text) → ToolRunResult

pub record RunProcessInput : Type 0 where
  pub command : Text
  pub args : List Text
  pub cwd : Text
  pub env : Assoc String
  pub stdin : Text
  pub timeout_ms : Option ℕ

pub record RunProcessResult : Type 0 where
  pub exit_code : ℕ
  pub stdout : Text
  pub stderr : Text

abbrev pub with_token : Option String → Assoc String → Assoc String
with_token none env = env
with_token (some token) env = insert "GITHUB_TOKEN" token (insert "GH_TOKEN" token env)

-- `process_env` is the environment of the runner itself.
unfoldable pub build_base_env : Assoc String → ToolRunInput → Assoc String
build_base_env process_env input = with_token input.installation_token (
    insert "RUNNER_REPO_NAME" input.task.repo.name (
      insert "RUNNER_REPO_OWNER" input.task.repo.owner (
        insert "RUNNER_INSTRUCTION_ID" input.task.instruction_id
          (insert "RUNNER_TASK_ID" input.task.task_id process_env))))

-- The loop over the patterns.
unfoldable pub first_match : List RegExp → Text → Option RegExp
first_match [] haystack = none
first_match (pattern ∷ patterns) haystack =
    let later = first_match patterns haystack in
    if test pattern haystack then some pattern else later

abbrev pub haystack_of : RunProcessResult → Text
haystack_of raw = raw.stdout ++ newline ∷ raw.stderr

abbrev pub limited_or_failed : RunProcessResult → String → Option RegExp → ToolRunResult
limited_or_failed raw tool_name none = tool_failed raw.exit_code raw.stdout raw.stderr
limited_or_failed raw tool_name (some pattern) =
    tool_limited tool_name (codes "pattern=" ++ pattern.source)

unfoldable pub classify_result : RunProcessResult → String → List RegExp → ToolRunResult
classify_result raw tool_name patterns =
    if raw.exit_code == 0
    then tool_succeeded raw.stdout
    else limited_or_failed raw tool_name (first_match patterns (haystack_of raw))

abbrev pub or_medium : Option Intensity → Intensity
or_medium none = medium
or_medium (some intensity) = intensity

abbrev pub has_schema : ToolRunInput → Bool
has_schema input = elim input.output_schema [ none ↦ false | some _ ↦ true ]

abbrev pub none_or_empty : Option (List Text) → List Text
none_or_empty none = []
none_or_empty (some items) = items

abbrev pub shell_prefix : Text
shell_prefix = codes "shell:"
