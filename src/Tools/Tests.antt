-- ===== src/Tools/Tests.antt =====
-- Runs of the tool runners.
use oh_my_github_runner.Prelude.{
  ◌≡◌, refl, true, none, some, List, [], ◌∷◌, ◌++◌, codes, if◌then◌else◌, ◌==◌,
}
use oh_my_github_runner.Prelude.Action.{Result, ok}
use oh_my_github_runner.Commands.{
  Text, is_space, starts_with, same_text, trim, trim_start, trim_end,
}
use oh_my_github_runner.Task.{queued}
use oh_my_github_runner.Task.Samples.{sample_task}
use oh_my_github_runner.Tools.{
  ToolRunInput, tool_succeeded, tool_limited, RunProcessInput, RunProcessResult, OutputSchema,
  first_match,
}
use oh_my_github_runner.Tools.Pattern.{matches, match_many, found_from}
use oh_my_github_runner.Tools.Claude.{
  join_with, ClaudeToolRunnerOptions, Paths, claude_result, claude_cleanup_artifacts,
  encode_projects_dir_name, translate_list, translate_each,
}
use oh_my_github_runner.Tools.Codex.{
  CodexToolRunnerOptions, Files, codex_run, codex_patterns, to_prefix_rule, allow, split_spaces,
}
use oh_my_github_runner.Tools.Limits.{usage_cap_lem, cap_signal}
use oh_my_github_runner.Tools.Cleanup.{cleanup_contained, Removable}
use oh_my_github_runner.Tools.Answers.{codex_answer, flag_value, left_by}

abbrev schema : OutputSchema
schema = record { inline = codes "{}"; indented = codes "{}" }

abbrev input : ToolRunInput
input = record {
  task = sample_task "t1" "issue-implement" queued 100;
  workspace_path = codes "/w/t1";
  prompt = codes "do";
  installation_token = none;
  allowed_tools = none;
  disallowed_tools = none;
  timeout_ms = none;
  intensity = none;
  output_schema = some schema;
}

abbrev capped : RunProcessResult
capped = record { exit_code = 0; stdout = codes "You've hit your weekly limit"; stderr = [] }

usage_cap_lem_example :
    claude_result input capped
    ≡ (if 0 == 0 then tool_succeeded capped.stdout else tool_limited "claude" cap_signal)
usage_cap_lem_example = usage_cap_lem input capped [] (codes " weekly ") [] refl refl

abbrev claude : ClaudeToolRunnerOptions
claude = record {
  command = codes "claude";
  workspaces_dir = codes "/w";
  claude_home = codes "/h";
  intensity_map = λ i. record { model = codes "m"; effort = codes "high" };
  process_env = [];
}

-- Paths that are clean already; every directory is `/h/projects`, and every path exists.
abbrev paths : Paths
paths = record {
  join = λ a b. a ++ codes "/" ++ b;
  resolve = λ path. path;
  dirname = λ path. codes "/h/projects";
  sep = 47;
  stat = λ path. true;
}

cleanup_contained_example : Removable claude paths (codes "/w/t1") (codes "/h/projects/-w-t1")
unfolding claude_cleanup_artifacts encode_projects_dir_name starts_with same_text
cleanup_contained_example =
    cleanup_contained claude paths (codes "/w/t1") (codes "/h/projects/-w-t1") refl

not_outside : claude_cleanup_artifacts claude paths (codes "/wt/t1") ≡ none
unfolding claude_cleanup_artifacts encode_projects_dir_name starts_with same_text
not_outside = refl

translated :
    translate_list (codes "edit" ∷ codes "shell: git diff" ∷ codes "shell:" ∷ [])
    ≡ codes "Edit MultiEdit Bash(git diff:*)"
unfolding translate_list translate_each starts_with same_text trim trim_start trim_end is_space
translated = refl

abbrev codex : CodexToolRunnerOptions
codex = record {
  command = codes "codex";
  intensity_map = λ i. record { model = codes "m"; reasoning_effort = codes "high" };
  process_env = [];
}

abbrev join : List Text → Text
join parts = join_with (codes "/") parts

abbrev quoted : Text → Text
quoted text = codes "\"" ++ text ++ codes "\""

abbrev process : RunProcessInput → Files → Result RunProcessResult × Files
process request files = (
  ok (record { exit_code = 0; stdout = codes "log"; stderr = [] }),
  left_by (flag_value (codes "-o") request.args) (codes "{\"a\":1}") files,
)

codex_answer_example :
    (codex_run codex join quoted process input []).0 ≡ ok (tool_succeeded (codes "{\"a\":1}"))
unfolding is_space
codex_answer_example =
    codex_answer codex join quoted input schema [] refl process
      (record { exit_code = 0; stdout = codes "log"; stderr = [] }) (codes "{\"a\":1}") _ refl refl
      refl

rule :
    to_prefix_rule codex join quoted (codes "shell: git  diff ") allow
    ≡ some (codes "prefix_rule(\n  pattern = [\"git\", \"diff\"],\n  decision = \"allow\",\n)")
unfolding to_prefix_rule split_spaces starts_with trim trim_start trim_end is_space
rule = refl

http_429 :
    first_match codex_patterns (codes "got HTTP  429.")
    ≡ first_match codex_patterns (codes "HTTP 429")
unfolding first_match matches match_many found_from is_space
http_429 = refl

http_4290 : first_match codex_patterns (codes "got HTTP 4290") ≡ none
unfolding first_match matches match_many found_from is_space
http_4290 = refl
