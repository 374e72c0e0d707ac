-- ===== src/Toolkit/Samples.antt =====
-- A toolkit for the tests: every service answers, and the one tool succeeds.
use oh_my_github_runner.Prelude.{String, true, [], ◌∷◌, codes}
use oh_my_github_runner.Prelude.Action.{ok}
use oh_my_github_runner.Task.{TaskRecord, queued}
use oh_my_github_runner.Task.Samples.{sample_task}
use oh_my_github_runner.Tools.{tool_succeeded}
use oh_my_github_runner.Toolkit.{ToolkitFactoryOptions}

abbrev pub task : TaskRecord
task = sample_task "t1" "issue-implement" queued 100

abbrev pub options : ToolkitFactoryOptions String
options = record {
  get_source_context = λ events t. ok "context";
  get_default_branch = λ events t. ok "main";
  get_installation_access_token = λ events t. ok "token";
  manager = record {
    prepare_observe = λ events t ref token. ok (codes "/w/t1");
    prepare_mutate = λ events t base branch token. ok (codes "/w/t1", branch);
    prepare_pr_implement = λ events t head token. ok (codes "/w/t1", codes "head");
    cleanup_workspace = λ events path. ok tt;
  };
  runners = ("claude", λ events input. ok (tool_succeeded (codes "done"))) ∷ [];
  render = λ prompt context path. ok (codes "prompt");
  tools_for_task = λ t. "claude" ∷ [];
  caching = true;
  step_filename = λ key. key;
  sha256_of = λ parts. "digest";
  digits = λ n. codes "7";
}
