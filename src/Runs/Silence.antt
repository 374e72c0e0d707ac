-- ===== src/Runs/Silence.antt =====
-- The strategies other than the issue response: what they do to GitHub themselves.
use oh_my_github_runner.Prelude.{String, ◌≡◌, refl, ◌∙◌, Option, none, some, by_test}
use oh_my_github_runner.Prelude.Action.{Action, Result, ok, err, after}
use oh_my_github_runner.Task.{TaskRecord}
use oh_my_github_runner.Toolkit.{
  Workspace, AiRunOptions, prepare_observe, prepare_mutate, prepare_pr_implement, dispose,
}
use oh_my_github_runner.Runs.{
  RunOptions, RunState, StrategyResult, on_toolkit, throw_if_aborted, scope_ended, using_workspace,
  run_ai, run_and_map, get_context, with_head_ref, issue_implement_options, pr_implement_options,
  review_options, run_issue_implement, run_pr_implement, run_pr_review_comment,
}

module _ {C : Type 0} (options : RunOptions C) (task : TaskRecord) where
  -- No call to GitHub is made, and nothing is logged.
  abbrev pub IsSilent : {A : Type 0} → RunState C → Result A × RunState C → Type 0
  IsSilent s r = (r.1.calls ≡ s.calls) × (r.1.log ≡ s.log)

  after-IsSilent :
      {A B : Type 0} (s : RunState C) (m : Result A × RunState C) (f : A → Action (RunState C) B)
      → IsSilent s m
      → ((a : A) (s' : RunState C) → IsSilent s' (f a s'))
      → IsSilent s (after m f)
  after-IsSilent s (ok a, s') f (calls, log) k =
      let (calls', log') = k a s' in (calls' ∙ calls, log' ∙ log)
  after-IsSilent s (err e, s') f h k = h

  throw-IsSilent : (s : RunState C) → IsSilent s (throw_if_aborted options task s)
  throw-IsSilent s =
      by_test (λ (r : Result (Unit {0}) × RunState C). IsSilent s r) (options.aborted s)
        (λ _. (refl, refl)) (λ _. (refl, refl))

  run_and_map-IsSilent :
      (opts : AiRunOptions) (s : RunState C) → IsSilent s (run_and_map options task opts s)
  run_and_map-IsSilent opts s =
      after-IsSilent s (throw_if_aborted options task s) _ (throw-IsSilent s)
        λ _ s1. after-IsSilent s1 (run_ai options task opts s1) _ (refl, refl) λ _ _. (refl, refl)

  ended-IsSilent :
      {A : Type 0} (s : RunState C) (result : Result A) (r : Result (Unit {0}) × RunState C)
      → IsSilent s r
      → IsSilent s (scope_ended options task result r)
  ended-IsSilent s result (ok _, s') h = h
  ended-IsSilent s result (err e, s') h = h

  using_workspace-IsSilent :
      (opts : AiRunOptions) (w : Workspace) (s : RunState C)
      → IsSilent s (using_workspace options task w (run_and_map options task opts) s)
  using_workspace-IsSilent opts w s =
      let h = run_and_map-IsSilent opts s in
      ended-IsSilent s (run_and_map options task opts s).0
        (on_toolkit (dispose options.toolkit_options task options.declared w)
          (run_and_map options task opts s).1)
        (h.0, h.1)

  with_head_ref-IsSilent :
      (run : String → Action (RunState C) StrategyResult) (head : Option String) (s : RunState C)
      → ((head_ref : String) (s' : RunState C) → IsSilent s' (run head_ref s'))
      → IsSilent s (with_head_ref options task run head s)
  with_head_ref-IsSilent run none s h = (refl, refl)
  with_head_ref-IsSilent run (some head_ref) s h = h head_ref s

  -- The three strategies that work in a workspace make no call to GitHub themselves and log
  -- nothing, however they end: what they do there, their tools do.
  pub runs-IsSilent :
      (s : RunState C)
      → IsSilent s (run_issue_implement options task s)
        × IsSilent s (run_pr_implement options task s)
        × IsSilent s (run_pr_review_comment options task s)
  unfolding run_issue_implement run_pr_implement run_pr_review_comment
  runs-IsSilent s = (
    after-IsSilent s (throw_if_aborted options task s) _ (throw-IsSilent s) λ _ s1.
        after-IsSilent s1 (get_context options task s1) _ (refl, refl)
          λ context s2.
            after-IsSilent s2 (throw_if_aborted options task s2) _ (throw-IsSilent s2) λ _ s3.
              after-IsSilent s3 (on_toolkit (prepare_mutate options.toolkit_options task none) s3) _
                (refl, refl)
                (using_workspace-IsSilent (issue_implement_options options task context)),
    after-IsSilent s (throw_if_aborted options task s) _ (throw-IsSilent s) λ _ s1.
        after-IsSilent s1 (get_context options task s1) _ (refl, refl)
          λ context s2. with_head_ref-IsSilent _ (options.head_ref context) s2 λ head s3.
            after-IsSilent s3 (throw_if_aborted options task s3) _ (throw-IsSilent s3) λ _ s4.
              after-IsSilent s4
                (on_toolkit (prepare_pr_implement options.toolkit_options task head) s4) _
                (refl, refl) (using_workspace-IsSilent (pr_implement_options options task context)),
    after-IsSilent s (throw_if_aborted options task s) _ (throw-IsSilent s) λ _ s1.
        after-IsSilent s1 (get_context options task s1) _ (refl, refl)
          λ context s2. with_head_ref-IsSilent _ (options.head_ref context) s2 λ head s3.
            after-IsSilent s3 (throw_if_aborted options task s3) _ (throw-IsSilent s3) λ _ s4.
              after-IsSilent s4
                (on_toolkit (prepare_observe options.toolkit_options task (some head)) s4) _
                (refl, refl) (using_workspace-IsSilent (review_options options task context)),
  )
