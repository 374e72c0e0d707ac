-- ===== src/Tools/Claude.antt =====
-- src/infra/tool/claude-tool-runner.ts: the runner of Claude Code. The process and the functions on
-- paths are arguments; a removal is recorded.
use oh_my_github_runner.Prelude.{
  ℕ, Option, none, some, List, [], ◌∷◌, ◌++◌, if◌then◌else◌, ◌==◌, ◌&&◌, ◌||◌, not, Bool, String,
  codes, drop, length, map, leb, any,
}
use oh_my_github_runner.Prelude.Assoc.{Assoc}
use oh_my_github_runner.Prelude.Action.{Result, ok, err}
use oh_my_github_runner.Commands.{Text, starts_with, same_text, is_empty, trim}
use oh_my_github_runner.Tools.{
  Intensity, ToolRunInput, ToolRunResult, tool_failed, RunProcessInput, RunProcessResult,
  build_base_env, classify_result, or_medium, OutputSchema, none_or_empty, shell_prefix, has_schema,
}
use oh_my_github_runner.Tools.Pattern.{RegExp, literal, anything, spaces}

pub record ClaudeIntensityPreset : Type 0 where
  pub model : Text
  pub effort : Text

pub record ClaudeToolRunnerOptions : Type 0 where
  pub command : Text
  pub workspaces_dir : Text
  pub claude_home : Text
  pub intensity_map : Intensity → ClaudeIntensityPreset
  pub process_env : Assoc String

abbrev pub claude_patterns : List RegExp
claude_patterns =
    record {
      source = codes "You've hit your.*limit";
      items = literal (codes "You've hit your") ++ anything ++ literal (codes "limit");
    }
    ∷ record {
      source = codes "\"api_error_status\":\\s*429";
      items = literal (codes "\"api_error_status\":") ++ spaces ++ literal (codes "429");
    }
    ∷ []

abbrev pub shell_permission : Text → List Text
shell_permission prefix =
    if is_empty prefix then [] else (codes "Bash(" ++ prefix ++ codes ":*)") ∷ []

-- One item of the portable vocabulary.
abbrev pub translate : Text → List Text
translate item =
    if starts_with shell_prefix item
    then shell_permission (trim (drop (length shell_prefix) item))
    else if same_text item (codes "read")
    then codes "Read" ∷ []
    else if same_text item (codes "grep")
    then codes "Grep" ∷ []
    else if same_text item (codes "glob")
    then codes "Glob" ∷ []
    else if same_text item (codes "edit")
    then codes "Edit" ∷ codes "MultiEdit" ∷ []
    else if same_text item (codes "write")
    then codes "Write" ∷ []
    else item ∷ []

unfoldable pub translate_each : List Text → List Text
unfolding starts_with same_text trim
translate_each [] = []
translate_each (item ∷ items) = translate item ++ translate_each items

abbrev pub join_with : Text → List Text → Text
join_with separator [] = []
join_with separator (t ∷ []) = t
join_with separator (t ∷ u ∷ ts) = t ++ separator ++ join_with separator (u ∷ ts)

unfoldable pub translate_list : List Text → Text
translate_list items = join_with (codes " ") (translate_each items)

abbrev pub permission_flag : Text → List Text → List Text
permission_flag flag [] = []
permission_flag flag (item ∷ items) = flag ∷ translate_list (item ∷ items) ∷ []

unfoldable pub build_permission_args : ToolRunInput → List Text
build_permission_args input =
    permission_flag (codes "--allowed-tools") (none_or_empty input.allowed_tools)
    ++ permission_flag (codes "--disallowed-tools") (none_or_empty input.disallowed_tools)

abbrev pub schema_args : Option OutputSchema → List Text
schema_args none = []
schema_args (some schema) = codes "--json-schema" ∷ schema.inline ∷ []

unfoldable pub claude_request : ClaudeToolRunnerOptions → ToolRunInput → RunProcessInput
claude_request options input =
    let preset = options.intensity_map (or_medium input.intensity) in
    record {
      command = options.command;
      args =
          codes "-p" ∷ codes "--model" ∷ preset.model ∷ codes "--effort" ∷ preset.effort ∷ []
          ++ build_permission_args input
          ++ schema_args input.output_schema;
      cwd = input.workspace_path;
      env = build_base_env options.process_env input;
      stdin = input.prompt;
      timeout_ms = input.timeout_ms;
    }

abbrev pub or_text : Text → Text → Text
or_text [] instead = instead
or_text (c ∷ cs) instead = c ∷ cs

unfoldable pub claude_result : ToolRunInput → RunProcessResult → ToolRunResult
claude_result input raw =
    if has_schema input && raw.exit_code == 0 && is_empty (trim raw.stdout)
    then tool_failed 0 raw.stdout
        (or_text raw.stderr (codes "claude produced empty stdout despite outputSchema"))
    else classify_result raw "claude" claude_patterns

abbrev pub claude_ended : ToolRunInput → Result RunProcessResult → Result ToolRunResult
claude_ended input (ok raw) = ok (claude_result input raw)
claude_ended input (err e) = err e

unfoldable pub claude_run :
    ClaudeToolRunnerOptions
    → (RunProcessInput → Result RunProcessResult)
    → ToolRunInput
    → Result ToolRunResult
claude_run options process input = claude_ended input (process (claude_request options input))

abbrev pub is_alphanumeric : ℕ → Bool
is_alphanumeric c = leb 48 c && leb c 57 || leb 65 c && leb c 90 || leb 97 c && leb c 122

unfoldable pub encode_projects_dir_name : Text → Text
encode_projects_dir_name absolute_path =
    map (λ c. if is_alphanumeric c then c else 45) absolute_path

-- `path.join` of two parts, `path.resolve`, `path.dirname`, `path.sep`, and whether `stat` succeeds.
pub record Paths : Type 0 where
  pub join : Text → Text → Text
  pub resolve : Text → Text
  pub dirname : Text → Text
  pub sep : ℕ
  pub stat : Text → Bool

module _ (options : ClaudeToolRunnerOptions) (paths : Paths) where
  abbrev pub projects_dir : Text
  projects_dir = paths.join options.claude_home (codes "projects")

  abbrev pub removal_of : Text → Option Text
  removal_of encoded_name =
      let target = paths.join projects_dir encoded_name in
      if not (same_text (paths.dirname target) projects_dir)
      then none
      else if not (paths.stat target)
      then none
      else some target

  -- The directory that is removed, if one is.
  unfoldable pub claude_cleanup_artifacts : Text → Option Text
  claude_cleanup_artifacts workspace_path =
      let workspaces_dir = paths.resolve options.workspaces_dir in
      let resolved = paths.resolve workspace_path in
      let encoded = encode_projects_dir_name resolved in
      if same_text resolved workspaces_dir
        || not (starts_with (workspaces_dir ++ paths.sep ∷ []) resolved)
      then none
      else if not (starts_with (encode_projects_dir_name workspaces_dir ++ 45 ∷ []) encoded)
      then none
      else if any (λ c. c == paths.sep) encoded
      then none
      else removal_of encoded
