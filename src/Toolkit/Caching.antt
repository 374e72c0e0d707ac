-- ===== src/Toolkit/Caching.antt =====
-- `ai.run` with a key: the saved result of a step.
use oh_my_github_runner.Prelude.{
  String, ◌≡◌, refl, sym, ap, ◌∙◌, subst, by_test, true, false, not, Option, none, some, List,
  arith, includes, Option-cases, inl, inr, text_discrete, ite, if_pos,
}
use oh_my_github_runner.Prelude.Assoc.{lookup}
use oh_my_github_runner.Prelude.Action.{Result, ok, err}
use oh_my_github_runner.Task.{TaskRecord}
use oh_my_github_runner.Commands.{Text}
use oh_my_github_runner.Checkpoint.{
  Checkpoints, Persisted, unparsed, incomplete, persisted, read, read_file, write,
}
use oh_my_github_runner.Checkpoint.Laws.{read-write}
use oh_my_github_runner.Tools.{ToolRunResult, tool_succeeded, tool_failed, tool_limited}
use oh_my_github_runner.Toolkit.{
  ToolkitFactoryOptions, ToolkitState, AiRunOptions, AiRunResult, ai_succeeded, ActiveWorkspace,
  checkpoint_hit, ai_run, run_step, call_tool, tool_ended, saved, cached_or, is_hit, cache_key,
  rendered, with_tool, with_context, with_workspace, resolve_tool, compute_fingerprint, entry_of,
  note, result_of,
}

same_ite : {A : Type 0} (x : String) (a b : A) → ite (text_discrete x x) a b ≡ a
same_ite x a b = if_pos (text_discrete x x) refl a b

module _ {C : Type 0} (options : ToolkitFactoryOptions C) (task : TaskRecord)
    (declared : List String) (opts : AiRunOptions) (key : String) (w : ActiveWorkspace)
    (context : C) (prompt_text : Text) (tool : String) where
  abbrev fingerprint : String
  fingerprint = compute_fingerprint options task declared opts prompt_text tool

  -- The saved result that a step would reuse.
  abbrev reused : Checkpoints → Option Text
  reused c = is_hit fingerprint tool (read options.step_filename task.task_id key c).0

  read_file_unchanged :
      (file : Option Persisted) (c : Checkpoints) (stdout : Text)
      → is_hit fingerprint tool (read_file options.step_filename file task.task_id key c).0
        ≡ some stdout
      → (read_file options.step_filename file task.task_id key c).1 ≡ c
  unfolding read_file
  read_file_unchanged none c stdout e = refl
  read_file_unchanged (some unparsed) c stdout e = cc
  read_file_unchanged (some incomplete) c stdout e = cc
  read_file_unchanged (some (persisted version entry)) c stdout e = refl

  read_unchanged :
      (c : Checkpoints) (stdout : Text)
      → reused c ≡ some stdout
      → (read options.step_filename task.task_id key c).1 ≡ c
  unfolding read
  read_unchanged c stdout e = read_file_unchanged _ c stdout e

  hit_itself :
      (out : Text) (at : String)
      → is_hit fingerprint tool
          (some (entry_of options task declared opts key prompt_text tool out at))
        ≡ some out
  hit_itself out at = ground (arith, same_ite fingerprint true false, same_ite tool true false)

  reused-write :
      (c : Checkpoints) (stdout : Text) (at : String)
      → reused (
          write options.step_filename task.task_id
            (entry_of options task declared opts key prompt_text tool stdout at)
            c)
        ≡ some stdout
  reused-write c stdout at =
      ap (is_hit fingerprint tool) (
        read-write options.step_filename task.task_id task.task_id
          (entry_of options task declared opts key prompt_text tool stdout at) key c)
      ∙ ap (is_hit fingerprint tool)
          (same_ite task.task_id _ _ ∙ same_ite (options.step_filename key) _ _)
      ∙ hit_itself stdout at

  abbrev step : String → ToolkitState C → Result AiRunResult × ToolkitState C
  step at s = run_step options task declared opts (some key) prompt_text tool w at s

  step_hit :
      (at : String) (s : ToolkitState C) (stdout : Text)
      → reused s.checkpoints ≡ some stdout
      → step at s ≡ (ok (ai_succeeded stdout), note (checkpoint_hit key tool) s)
  unfolding run_step
  step_hit at s stdout e =
      ap
        (λ o. cached_or options task declared opts key prompt_text tool w at o (record s {
          checkpoints = (read options.step_filename task.task_id key s.checkpoints).1;
        }))
        e
      ∙ ap
          (λ c. (
            ok (ai_succeeded stdout),
            note (checkpoint_hit key tool) (record s { checkpoints = c }),
          ))
          (read_unchanged s.checkpoints stdout e)

  step_miss :
      (at : String) (s : ToolkitState C)
      → reused s.checkpoints ≡ none
      → step at s
        ≡ call_tool options task declared opts prompt_text tool w at (record s {
          checkpoints = (read options.step_filename task.task_id key s.checkpoints).1;
        })
  unfolding run_step
  step_miss at s e =
      ap
        (λ o. cached_or options task declared opts key prompt_text tool w at o (record s {
          checkpoints = (read options.step_filename task.task_id key s.checkpoints).1;
        }))
        e

  module _ (keyed : cache_key options task declared opts ≡ some key) where
    -- A success leaves a result that can be reused, and keeps the workspace and the context.
    Kept : Text → ToolkitState C → Result AiRunResult × ToolkitState C → Type 0
    Kept stdout s (r, s') =
        r ≡ ok (ai_succeeded stdout)
        → (reused s'.checkpoints ≡ some stdout)
          × (s'.active ≡ s.active)
          × (s'.cached_context ≡ s.cached_context)

    out_is : {a b : Text} → ok (ai_succeeded a) ≡ ok (ai_succeeded b) → a ≡ b
    out_is e = cc

    saved-Kept :
        (stdout : Text) (at : String) (s : ToolkitState C) (result : ToolRunResult)
        → Kept stdout s (
          ok (result_of result),
          saved options task declared opts (some key) prompt_text tool at result s,
        )
    unfolding Kept
    saved-Kept stdout at s (tool_succeeded out) h =
        (reused-write s.checkpoints out at ∙ ap some (out_is h), refl, refl)
    saved-Kept stdout at s (tool_limited name signal) h = cc
    saved-Kept stdout at s (tool_failed exit_code out stderr) h = cc

    tool_ended-Kept :
        (stdout : Text) (at : String) (s : ToolkitState C) (r : Result ToolRunResult)
        → Kept stdout s (tool_ended options task declared opts prompt_text tool at r s)
    unfolding Kept
    tool_ended-Kept stdout at s (err e) = λ h. cc
    tool_ended-Kept stdout at s (ok result) =
        subst
          (λ k. Kept stdout s (
            ok (result_of result),
            saved options task declared opts k prompt_text tool at result s,
          ))
          (sym keyed) (saved-Kept stdout at s result)

    call_tool-Kept :
        (stdout : Text) (at : String) (s : ToolkitState C)
        → Kept stdout s (call_tool options task declared opts prompt_text tool w at s)
    unfolding call_tool
    call_tool-Kept stdout at s = elim (Option-cases (lookup tool options.runners)) [
      | inl e ↦ rw (e, call_tool) (unfold Kept in λ h. cc)
      | inr (runner, e) ↦ rw (e, call_tool) (unfold Kept in (tool_ended-Kept stdout at _ _))
    ]

    step-Kept : (stdout : Text) (at : String) (s : ToolkitState C) → Kept stdout s (step at s)
    step-Kept stdout at s = elim (Option-cases (reused s.checkpoints)) [
      | inl miss ↦
          subst (Kept stdout s) (sym (step_miss at s miss))
            (unfold Kept in call_tool-Kept stdout at _)
      | inr (out, found) ↦
          subst (Kept stdout s) (sym (step_hit at s out found))
            (unfold Kept in λ h. (found ∙ ap some (out_is h), refl, refl))
    ]

    -- The state gets the run to its step.
    pub record IsReady (s : ToolkitState C) : Type 0 where
      pub is_active : s.active ≡ some w
      pub is_fetched : s.cached_context ≡ some context
      pub is_rendered : options.render opts.prompt context w.path ≡ ok prompt_text
      pub is_resolved : resolve_tool declared opts.tool ≡ some tool
      pub is_declared : includes tool declared ≡ true

    ai_run_lem :
        (at : String) (s : ToolkitState C)
        → IsReady s
        → ai_run options task declared opts at s ≡ step at s
    unfolding ai_run
    ai_run_lem at s r =
        ap (λ a. with_workspace options task declared opts a at s) r.is_active
        ∙ ap (λ c. with_context options task declared opts w c at s) r.is_fetched
        ∙ ap (λ t. with_tool options task declared opts w context at t s) r.is_resolved
        ∙ by_test
            (λ x.
              x
              ≡ rendered options task declared opts tool w at
                  (options.render opts.prompt context w.path) s)
            (not (includes tool declared)) (λ e. ground (arith, e, r.is_declared)) (λ _. refl)
        ∙ ap (λ t. rendered options task declared opts tool w at t s) r.is_rendered
        ∙ ap (λ k. run_step options task declared opts k prompt_text tool w at s) keyed

    -- After a step that succeeded, the same step in the state that it left, so with the workspace
    -- and the context of before, gives the same output and calls no tool: under a key, with the
    -- cache wired, and for a prompt that renders to the same text.
    pub ai_run_again :
        (at later : String) (s : ToolkitState C) (stdout : Text)
        → IsReady s
        → (ai_run options task declared opts at s).0 ≡ ok (ai_succeeded stdout)
        → let s' = (ai_run options task declared opts at s).1 in
          ai_run options task declared opts later s'
          ≡ (ok (ai_succeeded stdout), note (checkpoint_hit key tool) s')
    unfolding Kept
    ai_run_again at later s stdout r e =
        let run = ai_run_lem at s r in
        let kept = step-Kept stdout at s (ap (λ p. p.0) (sym run) ∙ e) in
        subst
          (λ s'.
            ai_run options task declared opts later s'
            ≡ (ok (ai_succeeded stdout), note (checkpoint_hit key tool) s'))
          (ap (λ p. p.1) (sym run))
          (ai_run_lem later (step at s).1 (record {
            is_active = kept.1 ∙ r.is_active;
            is_fetched = kept.2 ∙ r.is_fetched;
            is_rendered = r.is_rendered;
            is_resolved = r.is_resolved;
            is_declared = r.is_declared;
          })
            ∙ step_hit later (step at s).1 stdout kept.0)
