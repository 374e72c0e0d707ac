-- ===== src/Toolkit/Tests.antt =====
-- Runs of the toolkit.
use oh_my_github_runner.Prelude.{
  String, ◌≡◌, refl, none, some, [], ◌∷◌, ◌++◌, codes, includes, text_discrete,
}
use oh_my_github_runner.Prelude.Assoc.{lookup}
use oh_my_github_runner.Prelude.Action.{ok}
use oh_my_github_runner.Checkpoint.{read, read_file}
use oh_my_github_runner.Toolkit.{
  ToolkitState, AiRunOptions, ai_run, ai_succeeded, call_tool, run_step, note, checkpoint_hit,
  resolve_tool, dispose, Workspace, workspace_cleaned, build_branch_name,
}
use oh_my_github_runner.Toolkit.Samples.{task, options}
use oh_my_github_runner.Toolkit.Calls.{Ran, ai_run-Ran}
use oh_my_github_runner.Toolkit.Caching.{ai_run_again}
use oh_my_github_runner.Toolkit.Disposal.{dispose-Ended, released, cleanings}

abbrev opts : AiRunOptions
opts = record {
  tool = none;
  prompt = [];
  intensity = none;
  allowed_tools = none;
  disallowed_tools = none;
  timeout_ms = none;
  output_schema = none;
  step_key = some "plan";
}

abbrev state : ToolkitState String
state = record {
  active = some (record { identity = 0; path = codes "/w/t1"; installation_token = "token" });
  cached_context = some "context";
  prepared = 1;
  checkpoints = record { dirs = []; corrupt = [] };
  events = [];
}

ai_run-Ran_example :
    Ran options task
      ("claude" ∷ [])
      opts
      state
      (ai_run options task ("claude" ∷ []) opts "now" state).1
ai_run-Ran_example = ai_run-Ran options task ("claude" ∷ []) opts state "now"

ai_run_again_example :
    ai_run options task
      ("claude" ∷ [])
      opts
      "later"
      (ai_run options task ("claude" ∷ []) opts "now" state).1
    ≡ (
      ok (ai_succeeded (codes "done")),
      note
          (checkpoint_hit "plan" "claude")
          (ai_run options task ("claude" ∷ []) opts "now" state).1,
    )
unfolding ai_run run_step call_tool resolve_tool read read_file lookup includes text_discrete
ai_run_again_example =
    ai_run_again options task ("claude" ∷ []) opts "plan"
      (record { identity = 0; path = codes "/w/t1"; installation_token = "token" }) "context"
      (codes "prompt") "claude" refl "now" "later" state (codes "done")
      (record {
        is_active = refl;
        is_fetched = refl;
        is_rendered = refl;
        is_resolved = refl;
        is_declared = refl;
      })
      refl

abbrev workspace : Workspace
workspace = record {
  identity = 0;
  path = codes "/w/t1";
  branch = none;
  installation_token = "token";
}

dispose-Ended_example :
    ((dispose options task ("claude" ∷ "codex" ∷ []) workspace state).1.active
      ≡ released options task ("claude" ∷ "codex" ∷ []) 0 state.active)
    × ((dispose options task ("claude" ∷ "codex" ∷ []) workspace state).1.events
        ≡ state.events
          ++ workspace_cleaned (codes "/w/t1") ∷ []
          ++ cleanings options task
              ("claude" ∷ "codex" ∷ [])
              ("claude" ∷ "codex" ∷ [])
              (codes "/w/t1"))
dispose-Ended_example = dispose-Ended options task ("claude" ∷ "codex" ∷ []) workspace state

branch : build_branch_name (λ n. codes "7") task ≡ codes "ai/issue-7-t1"
unfolding build_branch_name
branch = refl
