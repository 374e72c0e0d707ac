-- ===== src/Tools/Codex.antt =====
-- src/infra/tool/codex-tool-runner.ts: the runner of Codex. The files of the workspace are a list of
-- paths and contents, newest first. `path.join`, the printing of a text in JSON, and the process,
-- which may write files, are arguments.
use oh_my_github_runner.Prelude.{
  Option, none, some, List, [], ◌∷◌, ◌++◌, if◌then◌else◌, ◌==◌, ◌||◌, not, Bool, false, String,
  codes, drop, length, map, keep,
}
use oh_my_github_runner.Prelude.Assoc.{Assoc}
use oh_my_github_runner.Prelude.Action.{Result, ok, err}
use oh_my_github_runner.Commands.{
  Text, starts_with, same_text, is_empty, trim, is_space, cons_head, newline,
}
use oh_my_github_runner.Tools.{
  Intensity, ToolRunInput, ToolRunResult, tool_failed, tool_succeeded, RunProcessInput,
  RunProcessResult, build_base_env, classify_result, or_medium, OutputSchema, none_or_empty,
  shell_prefix,
}
use oh_my_github_runner.Tools.Pattern.{
  RegExp, literal, any_case, anything, spaces, some_spaces, some_digits, word_boundary,
}
use oh_my_github_runner.Tools.Claude.{join_with, or_text}

pub record CodexIntensityPreset : Type 0 where
  pub model : Text
  pub reasoning_effort : Text

pub record CodexToolRunnerOptions : Type 0 where
  pub command : Text
  pub intensity_map : Intensity → CodexIntensityPreset
  pub process_env : Assoc String

abbrev pub codex_patterns : List RegExp
codex_patterns =
    record {
      source = codes "You've hit your.*usage limit";
      items = any_case (codes "You've hit your") ++ anything ++ any_case (codes "usage limit");
    }
    ∷ record {
      source = codes "\\bRATE_LIMIT_EXCEEDED\\b";
      items = word_boundary ∷ literal (codes "RATE_LIMIT_EXCEEDED") ++ word_boundary ∷ [];
    }
    ∷ record {
      source = codes "\"status\":\\s*429\\b";
      items =
          literal (codes "\"status\":") ++ spaces ++ literal (codes "429") ++ word_boundary ∷ [];
    }
    ∷ record {
      source = codes "\\bHTTP\\s+429\\b";
      items =
          word_boundary ∷ literal (codes "HTTP")
          ++ some_spaces
          ++ literal (codes "429")
          ++ word_boundary ∷ [];
    }
    ∷ record {
      source = codes "\\bRetry-After:\\s*\\d+";
      items = word_boundary ∷ any_case (codes "Retry-After:") ++ spaces ++ some_digits;
    }
    ∷ record {
      source = codes "\\bquota\\s+exceeded\\b";
      items =
          word_boundary ∷ any_case (codes "quota")
          ++ some_spaces
          ++ any_case (codes "exceeded")
          ++ word_boundary ∷ [];
    }
    ∷ []

abbrev pub Files : Type 0
Files = List (Text × Text)

unfoldable pub read_text : Text → Files → Option Text
read_text path [] = none
read_text path ((name, contents) ∷ files) =
    let older = read_text path files in if same_text name path then some contents else older

abbrev pub write_text : Text → Text → Files → Files
write_text path contents files = (path, contents) ∷ files

abbrev pub starts_space : Text → Bool
starts_space [] = false
starts_space (c ∷ cs) = is_space c

-- `split(/\s+/)`.
unfoldable pub split_spaces : Text → List Text
split_spaces [] = [] ∷ []
split_spaces (c ∷ cs) =
    let rest = split_spaces cs in
    if not (is_space c) then cons_head c rest else if starts_space cs then rest else [] ∷ rest

pub data Decision : Type 0 where
  allow forbidden : Decision

abbrev pub decision_text : Decision → Text
decision_text allow = codes "allow"
decision_text forbidden = codes "forbidden"

pub data LastMessage : Type 0 where
  no_schema : LastMessage
  at_path : Text → LastMessage

module _ (options : CodexToolRunnerOptions) (join : List Text → Text) (quote : Text → Text) where
  abbrev pub rule_text : Text → Decision → Text
  rule_text prefix decision =
      codes "prefix_rule(\n  pattern = ["
      ++ join_with (codes ", ") (map quote (split_spaces prefix))
      ++ codes "],\n  decision = "
      ++ quote (decision_text decision)
      ++ codes ",\n)"

  unfoldable pub to_prefix_rule : Text → Decision → Option Text
  to_prefix_rule spec decision =
      let prefix = trim (drop (length shell_prefix) spec) in
      if not (starts_with shell_prefix spec)
      then none
      else if is_empty prefix
      then none
      else some (rule_text prefix decision)

  abbrev pub rule_list : Option Text → List Text
  rule_list none = []
  rule_list (some rule) = rule ∷ []

  unfoldable pub rules_of : Decision → List Text → List Text
  rules_of decision [] = []
  rules_of decision (item ∷ items) =
      rule_list (to_prefix_rule item decision) ++ rules_of decision items

  abbrev pub rules_path : ToolRunInput → Text
  rules_path input = join (
      join (input.workspace_path ∷ codes ".codex" ∷ codes "rules" ∷ [])
      ∷ codes "default.rules"
      ∷ [])

  abbrev pub write_blocks : Text → List Text → Files → Files
  write_blocks path [] files = files
  write_blocks path (block ∷ blocks) files =
      write_text path (join_with (codes "\n\n") (block ∷ blocks) ++ newline ∷ []) files

  unfoldable pub write_rules_file : ToolRunInput → Files → Files
  write_rules_file input files =
      write_blocks (rules_path input)
        (rules_of allow (none_or_empty input.allowed_tools)
          ++ rules_of forbidden (none_or_empty input.disallowed_tools))
        files

  abbrev pub codex_dir : ToolRunInput → Text
  codex_dir input = join (input.workspace_path ∷ codes ".codex" ∷ [])

  abbrev pub prepare_schema : ToolRunInput → Option OutputSchema → Files → LastMessage × Files
  prepare_schema input none files = (no_schema, files)
  prepare_schema input (some schema) files = (
    at_path (join (codex_dir input ∷ codes "last-message.txt" ∷ [])),
    write_text (join (codex_dir input ∷ codes "output.schema.json" ∷ []))
        (schema.indented ++ newline ∷ []) files,
  )

  unfoldable pub prepare_output_schema : ToolRunInput → Files → LastMessage × Files
  prepare_output_schema input files = prepare_schema input input.output_schema files

  abbrev pub schema_flags : ToolRunInput → LastMessage → List Text
  schema_flags input no_schema = []
  schema_flags input (at_path last_message_path) =
      codes "--output-schema"
      ∷ join (input.workspace_path ∷ codes ".codex" ∷ codes "output.schema.json" ∷ [])
      ∷ codes "-o"
      ∷ last_message_path
      ∷ []

  unfoldable pub codex_request : ToolRunInput → LastMessage → RunProcessInput
  codex_request input last_message =
      let preset = options.intensity_map (or_medium input.intensity) in
      record {
        command = options.command;
        args =
            codes "exec"
              ∷ codes "-m"
              ∷ preset.model
              ∷ codes "-c"
              ∷ (codes "model_reasoning_effort=" ++ preset.reasoning_effort)
              ∷ codes "--sandbox"
              ∷ codes "workspace-write"
              ∷ codes "--ephemeral"
              ∷ codes "--skip-git-repo-check"
              ∷ codes "-C"
              ∷ input.workspace_path
              ∷ schema_flags input last_message
            ++ codes "--" ∷ codes "-" ∷ [];
        cwd = input.workspace_path;
        env = build_base_env options.process_env input;
        stdin = input.prompt;
        timeout_ms = input.timeout_ms;
      }

  -- The contents of the last message, when there is such a file.
  abbrev pub message_result : RunProcessResult → Option Text → ToolRunResult
  message_result raw none = classify_result raw "codex" codex_patterns
  message_result raw (some stdout) =
      if is_empty (trim stdout)
      then tool_failed 0 raw.stdout
          (or_text raw.stderr (codes "codex wrote an empty last-message.txt despite outputSchema"))
      else tool_succeeded stdout

  unfoldable pub codex_result : LastMessage → RunProcessResult → Files → ToolRunResult
  codex_result no_schema raw files = classify_result raw "codex" codex_patterns
  codex_result (at_path last_message_path) raw files =
      if raw.exit_code == 0
      then message_result raw (read_text last_message_path files)
      else classify_result raw "codex" codex_patterns

  abbrev pub codex_ended :
      LastMessage → Result RunProcessResult × Files → Result ToolRunResult × Files
  codex_ended last_message (ok raw, files) = (ok (codex_result last_message raw files), files)
  codex_ended last_message (err e, files) = (err e, files)

  abbrev pub after_prepared :
      (RunProcessInput → Files → Result RunProcessResult × Files)
      → ToolRunInput
      → LastMessage × Files
      → Result ToolRunResult × Files
  after_prepared process input (last_message, prepared) =
      codex_ended last_message (process (codex_request input last_message) prepared)

  unfoldable pub codex_run :
      (RunProcessInput → Files → Result RunProcessResult × Files)
      → ToolRunInput
      → Files
      → Result ToolRunResult × Files
  codex_run process input files =
      after_prepared process input (prepare_output_schema input (write_rules_file input files))

  -- `rm` of a directory, with all that is below it.
  unfoldable pub codex_cleanup_artifacts : Text → Files → Files
  codex_cleanup_artifacts workspace_path files =
      let target = join (workspace_path ∷ codes ".codex" ∷ []) in
      keep
        (λ (e : Text × Text). not (same_text e.0 target || starts_with (target ++ codes "/") e.0))
        files
