-- ===== src/Toolkit/Calls.antt =====
-- `ai.run`: the tools that it calls.
use oh_my_github_runner.Prelude.{
  String, ◌≡◌, refl, by_test, true, not, Option, none, some, List, [], ◌∷◌, ◌++◌, arith, includes,
  Option-cases, inl, inr,
}
use oh_my_github_runner.Prelude.Assoc.{lookup}
use oh_my_github_runner.Prelude.Action.{Result, ok, err}
use oh_my_github_runner.Task.{TaskRecord}
use oh_my_github_runner.Commands.{Text}
use oh_my_github_runner.Checkpoint.{Checkpoints}
use oh_my_github_runner.Tools.{
  ToolRunInput, ToolRunResult, tool_succeeded, tool_failed, tool_limited,
}
use oh_my_github_runner.Toolkit.{
  ToolkitFactoryOptions, ToolkitState, AiRunOptions, AiRunResult, ActiveWorkspace, tool_run,
  checkpoint_hit, ai_run, run_step, call_tool, tool_ended, saved, cached_or, run_input, rendered,
  with_tool, with_context, with_workspace,
}

module _ {C : Type 0} (options : ToolkitFactoryOptions C) (task : TaskRecord)
    (declared : List String) (opts : AiRunOptions) where
  -- A call: of a declared tool, in the active workspace and with its token, on the prompt as it is
  -- rendered for that workspace and the context that was fetched.
  pub record IsCall (s : ToolkitState C) (tool : String) (input : ToolRunInput) : Type 0 where
    pub workspace : ActiveWorkspace
    pub context : C
    pub prompt_text : Text
    pub is_active : s.active ≡ some workspace
    pub is_fetched : s.cached_context ≡ some context
    pub is_rendered : options.render opts.prompt context workspace.path ≡ ok prompt_text
    pub is_declared : includes tool declared ≡ true
    pub is_input : input ≡ run_input options task declared opts prompt_text workspace

  -- What a run adds to the events of the state before.
  pub data Ran (s s' : ToolkitState C) : Type 0 where
    silent : s'.events ≡ s.events → Ran s s'
    hit : (key tool : String) → s'.events ≡ s.events ++ checkpoint_hit key tool ∷ [] → Ran s s'
    called :
        (tool : String) (input : ToolRunInput)
        → IsCall s tool input
        → s'.events ≡ s.events ++ tool_run tool input ∷ []
        → Ran s s'

  saved-events :
      (key : Option String) (prompt_text : Text) (tool at : String) (result : ToolRunResult)
      (s : ToolkitState C)
      → (saved options task declared opts key prompt_text tool at result s).events ≡ s.events
  saved-events none prompt_text tool at result s = refl
  saved-events (some key) prompt_text tool at (tool_succeeded stdout) s = refl
  saved-events (some key) prompt_text tool at (tool_limited name signal) s = refl
  saved-events (some key) prompt_text tool at (tool_failed exit_code stdout stderr) s = refl

  tool_ended-events :
      (prompt_text : Text) (tool at : String) (r : Result ToolRunResult) (s : ToolkitState C)
      → (tool_ended options task declared opts prompt_text tool at r s).1.events ≡ s.events
  tool_ended-events prompt_text tool at (ok result) s = saved-events _ prompt_text tool at result s
  tool_ended-events prompt_text tool at (err e) s = refl

  module _ (s : ToolkitState C) (w : ActiveWorkspace) (context : C) (prompt_text : Text)
      (tool : String) (is_active : s.active ≡ some w) (is_fetched : s.cached_context ≡ some context)
      (is_rendered : options.render opts.prompt context w.path ≡ ok prompt_text)
      (is_declared : includes tool declared ≡ true) (at : String) where
    call : IsCall s tool (run_input options task declared opts prompt_text w)
    call = record {
      workspace = w;
      context = context;
      prompt_text = prompt_text;
      is_active = is_active;
      is_fetched = is_fetched;
      is_rendered = is_rendered;
      is_declared = is_declared;
      is_input = refl;
    }

    call_tool-Ran :
        (c : Checkpoints)
        → Ran s
            (call_tool options task declared opts prompt_text tool w at
              (record s { checkpoints = c })).1
    unfolding call_tool
    call_tool-Ran c = elim (Option-cases (lookup tool options.runners)) [
      | inl e ↦ rw (e, call_tool) (silent refl)
      | inr (runner, e) ↦
          rw (e, call_tool) (called tool _ call (tool_ended-events prompt_text tool at _ _))
    ]

    cached_or-Ran :
        (key : String) (cached : Option Text) (c : Checkpoints)
        → Ran s
            (cached_or options task declared opts key prompt_text tool w at cached
              (record s { checkpoints = c })).1
    cached_or-Ran key none c = call_tool-Ran c
    cached_or-Ran key (some stdout) c = hit key tool refl

    run_step-Ran :
        (key : Option String)
        → Ran s (run_step options task declared opts key prompt_text tool w at s).1
    unfolding run_step
    run_step-Ran none = call_tool-Ran s.checkpoints
    run_step-Ran (some key) = cached_or-Ran key _ _

  module _ (s : ToolkitState C) (at : String) where
    rendered-Ran :
        (w : ActiveWorkspace) (context : C) (tool : String) (text : Result Text)
        → s.active ≡ some w
        → s.cached_context ≡ some context
        → options.render opts.prompt context w.path ≡ text
        → includes tool declared ≡ true
        → Ran s (rendered options task declared opts tool w at text s).1
    rendered-Ran w context tool (err e) a f r d = silent refl
    rendered-Ran w context tool (ok prompt_text) a f r d =
        run_step-Ran s w context prompt_text tool a f r d at _

    with_tool-Ran :
        (w : ActiveWorkspace) (context : C) (tool : Option String)
        → s.active ≡ some w
        → s.cached_context ≡ some context
        → Ran s (with_tool options task declared opts w context at tool s).1
    with_tool-Ran w context none a f = silent refl
    with_tool-Ran w context (some tool) a f =
        by_test (λ (r : Result AiRunResult × ToolkitState C). Ran s r.1)
          (not (includes tool declared)) (λ _. silent refl)
          (λ d. rendered-Ran w context tool _ a f refl (ground (arith, d)))

    with_context-Ran :
        (w : ActiveWorkspace) (context : Option C)
        → s.active ≡ some w
        → s.cached_context ≡ context
        → Ran s (with_context options task declared opts w context at s).1
    with_context-Ran w none a f = silent refl
    with_context-Ran w (some context) a f = with_tool-Ran w context _ a f

    with_workspace-Ran :
        (active : Option ActiveWorkspace)
        → s.active ≡ active
        → Ran s (with_workspace options task declared opts active at s).1
    with_workspace-Ran none a = silent refl
    with_workspace-Ran (some w) a = with_context-Ran w _ a refl

    -- A run of the AI calls no tool, or reuses one saved result, or makes one call: of a tool that
    -- the strategy declares, in the active workspace and with its token, on the prompt that is
    -- rendered for this workspace and the fetched context, and with the options of the strategy.
    pub ai_run-Ran : Ran s (ai_run options task declared opts at s).1
    unfolding ai_run
    ai_run-Ran = with_workspace-Ran s.active refl
