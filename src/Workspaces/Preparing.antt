-- ===== src/Workspaces/Preparing.antt =====
-- The effects of the preparation of a workspace.
use oh_my_github_runner.Prelude.{
  ◌≡◌, refl, sym, ap, ◌∙◌, subst, Option, none, some, List, [], ◌∷◌, ◌++◌, append_assoc, ◌==◌,
  codes, by_test,
}
use oh_my_github_runner.Prelude.Action.{Result, ok, err, after, Action}
use oh_my_github_runner.Task.{TaskRecord, RepoRef}
use oh_my_github_runner.Commands.{Text}
use oh_my_github_runner.Tools.{RunProcessResult}
use oh_my_github_runner.Workspaces.{
  Effect, access, make_dir, remove, run, GitWorkspaceManagerOptions, Host, git, perform,
  get_mirror_path, get_workspace_path, get_repo_url, build_auth_args, unless_failed, run_git,
  git_only, inside, fetch_args, mirror_args, ensure_mirror, clone_workspace, fetch_in,
  checkout_args, checkout_observe_ref, prepare_observe_workspace, prepare_mutate_workspace,
  prepare_pr_implement_workspace,
}

-- The effects were those of the plan, all if there is a result, and otherwise the first ones.
abbrev pub Followed : {A : Type 0} → List Effect → List Effect → Result A × List Effect → Type 0
Followed plan s (ok _, s') = s' ≡ s ++ plan
Followed plan s (err _, s') =
    (made : List Effect) × (left : List Effect) × (s' ≡ s ++ made) × (made ++ left ≡ plan)

later-Followed :
    {A : Type 0} (p q s : List Effect) (r : Result A × List Effect)
    → Followed q (s ++ p) r
    → Followed (p ++ q) s r
later-Followed p q s (ok _, s') k = k ∙ append_assoc s p q
later-Followed p q s (err _, s') (made, left, k, l) =
    (p ++ made, left, k ∙ append_assoc s p made, append_assoc p made left ∙ ap (λ t. p ++ t) l)

after-Followed :
    {A B : Type 0} (p q s : List Effect) (r : Result A × List Effect)
    (f : A → Action (List Effect) B)
    → Followed p s r
    → ((a : A) → Followed q (s ++ p) (f a (s ++ p)))
    → Followed (p ++ q) s (after r f)
after-Followed p q s (err e, s') f (made, left, h, k) g =
    (made, left ++ q, h, sym (append_assoc made left q) ∙ ap (λ t. t ++ q) k)
after-Followed p q s (ok a, s') f h g =
    subst (λ t. Followed (p ++ q) s (f a t)) (sym h) (later-Followed p q s (f a (s ++ p)) (g a))

pub nothing-Followed : (s : List Effect) → s ≡ s ++ []
nothing-Followed [] = refl
nothing-Followed (e ∷ s) = ap (λ t. e ∷ t) (nothing-Followed s)

answered-Followed :
    {A : Type 0} (effect : Effect) (s : List Effect) (r : Result A)
    → Followed (effect ∷ []) s (r, s ++ effect ∷ [])
answered-Followed effect s (ok a) = refl
answered-Followed effect s (err e) = (effect ∷ [], [], refl, refl)

module _ (options : GitWorkspaceManagerOptions) (host : Host) where
  perform-Followed :
      (effect : Effect) (s : List Effect) → Followed (effect ∷ []) s (perform options host effect s)
  perform-Followed effect s = answered-Followed effect s (host.done (s ++ effect ∷ []))

  abbrev git_effect : List Text → Effect
  git_effect args = run (git options host) args

  git_only-Followed :
      (args : List Text) (s : List Effect)
      → Followed (git_effect args ∷ []) s (git_only options host args s)
  unfolding run_git
  git_only-Followed args s = ended (host.process (s ++ git_effect args ∷ []))
    where
      ended :
          (r : Result RunProcessResult)
          → Followed (git_effect args ∷ []) s (
              after
                (after {A = RunProcessResult}
                  (r, s ++ git_effect args ∷ [])
                  (unless_failed options host args))
                (λ _ s'. (ok tt, s')))
      ended (err e) = (git_effect args ∷ [], [], refl, refl)
      ended (ok result) =
          by_test
            (λ (r : Result RunProcessResult × List Effect).
              Followed {A = Unit {0}} (git_effect args ∷ []) s (after r (λ _ s'. (ok tt, s'))))
            (result.exit_code == 0) (λ _. refl) (λ _. (git_effect args ∷ [], [], refl, refl))

  abbrev pub mirror_command : List Effect → RepoRef → Option Text → List Text
  mirror_command s repo token =
      mirror_args options host
        (host.exists (
          (s ++ make_dir (host.dirname (get_mirror_path options host repo)) ∷ [])
          ++ access (get_mirror_path options host repo) ∷ []))
        token (get_repo_url options host repo) (get_mirror_path options host repo)

  -- Before the first command the path of the mirror is tested.
  abbrev pub mirror_plan : List Effect → RepoRef → Option Text → List Effect
  mirror_plan s repo token =
      make_dir (host.dirname (get_mirror_path options host repo))
      ∷ access (get_mirror_path options host repo)
      ∷ git_effect (mirror_command s repo token)
      ∷ []

  abbrev pub clone_plan : RepoRef → Text → List Effect
  clone_plan repo workspace_path =
      remove workspace_path
      ∷ make_dir (host.dirname workspace_path)
      ∷ git_effect (codes "clone" ∷ get_mirror_path options host repo ∷ workspace_path ∷ [])
      ∷ git_effect (
          inside options host workspace_path (
            codes "remote"
            ∷ codes "set-url"
            ∷ codes "origin"
            ∷ get_repo_url options host repo
            ∷ []))
      ∷ []

  ensure_mirror-Followed :
      (repo : RepoRef) (token : Option Text) (s : List Effect)
      → Followed (mirror_plan s repo token) s (
          ensure_mirror options host
            (get_repo_url options host repo)
            (get_mirror_path options host repo)
            token
            s)
  unfolding ensure_mirror
  ensure_mirror-Followed repo token s =
      after-Followed (_ ∷ []) (_ ∷ _ ∷ []) s _ _ (perform-Followed _ s) (λ _.
        later-Followed (_ ∷ []) (_ ∷ []) _ (git_only options host (mirror_command s repo token) _)
          (git_only-Followed (mirror_command s repo token) _))

  clone_workspace-Followed :
      (repo : RepoRef) (workspace_path : Text) (s : List Effect)
      → Followed (clone_plan repo workspace_path) s (
          clone_workspace options host
            (get_mirror_path options host repo)
            workspace_path
            (get_repo_url options host repo)
            s)
  unfolding clone_workspace
  clone_workspace-Followed repo workspace_path s =
      after-Followed (_ ∷ []) (_ ∷ _ ∷ _ ∷ []) s _ _ (perform-Followed _ s) (λ _.
        after-Followed (_ ∷ []) (_ ∷ _ ∷ []) _ _ _ (perform-Followed _ _) (λ _.
          after-Followed (_ ∷ []) (_ ∷ []) _ _ _ (git_only-Followed _ _)
            (λ _. git_only-Followed _ _)))

  abbrev pub branch_plan : RepoRef → Text → Option Text → Text → Text → List Effect
  branch_plan repo workspace_path token branch_name ref =
      clone_plan repo workspace_path
      ++ git_effect (build_auth_args options host token ++ fetch_args options host workspace_path)
        ∷ git_effect (checkout_args options host workspace_path branch_name ref)
        ∷ []

  abbrev pub ref_plan : Text → Option Text → Option Text → List Effect
  ref_plan workspace_path none token = []
  ref_plan workspace_path (some []) token = []
  ref_plan workspace_path (some (c ∷ cs)) token =
      git_effect (build_auth_args options host token ++ fetch_args options host workspace_path)
      ∷ git_effect (
          inside options host workspace_path
            (codes "checkout" ∷ codes "--detach" ∷ (codes "origin/" ++ c ∷ cs) ∷ []))
      ∷ []

  abbrev path_of : TaskRecord → Text
  path_of task = get_workspace_path options host task.task_id

  ref-Followed :
      (workspace_path : Text) (checkout_ref token : Option Text) (s : List Effect)
      → Followed
          (ref_plan workspace_path checkout_ref token)
          s
          (checkout_observe_ref options host workspace_path checkout_ref token s)
  unfolding checkout_observe_ref
  ref-Followed workspace_path none token s = nothing-Followed s
  ref-Followed workspace_path (some []) token s = nothing-Followed s
  ref-Followed workspace_path (some (c ∷ cs)) token s =
      after-Followed (_ ∷ []) (_ ∷ []) s _ _ (git_only-Followed _ s) (λ _. git_only-Followed _ _)

  branch-Followed :
      {A : Type 0} (repo : RepoRef) (workspace_path : Text) (token : Option Text)
      (branch_name ref : Text) (value : A) (s : List Effect)
      → Followed
          (mirror_plan s repo token ++ branch_plan repo workspace_path token branch_name ref)
          s
          (after
            (ensure_mirror options host
              (get_repo_url options host repo)
              (get_mirror_path options host repo)
              token
              s)
            (λ _ s'.
              after
                (clone_workspace options host
                  (get_mirror_path options host repo)
                  workspace_path
                  (get_repo_url options host repo)
                  s')
                (λ _ s''. after (fetch_in options host workspace_path token s'') (λ _ s3.
                  after
                    (git_only options host
                      (checkout_args options host workspace_path branch_name ref)
                      s3)
                    (λ _ s4. (ok value, s4))))))
  branch-Followed repo workspace_path token branch_name ref value s =
      after-Followed (mirror_plan s repo token) _ s _ _ (ensure_mirror-Followed repo token s) (λ _.
        after-Followed (clone_plan repo workspace_path) (_ ∷ _ ∷ []) _ _ _
          (clone_workspace-Followed repo workspace_path _)
          (λ _. after-Followed (_ ∷ []) (_ ∷ []) _ _ _ (git_only-Followed _ _) (λ _.
            after-Followed (_ ∷ []) [] _ _ _ (git_only-Followed _ _) (λ _. nothing-Followed _))))

  -- The effects of the three preparations, whatever the host answers. If the preparation returns a
  -- workspace, these are the effects, in order: the mirror is fetched if its path exists and cloned
  -- otherwise, the directory of the workspace is removed and cloned from the mirror, its remote is
  -- set, and, for a branch or a reference that is not empty, the remote is fetched and the checkout
  -- made. If it throws, the effects are the first ones of these. Only the commands that reach the
  -- remote carry the arguments with the token.
  pub prepare-Followed :
      (repo : RepoRef) (task : TaskRecord) (base_branch branch_name : Text)
      (checkout_ref token : Option Text) (s : List Effect)
      → Followed
          (mirror_plan s task.repo token
            ++ clone_plan task.repo (path_of task)
            ++ ref_plan (path_of task) checkout_ref token)
          s
          (prepare_observe_workspace options host task checkout_ref token s)
        × Followed
            (mirror_plan s repo token
              ++ branch_plan repo (path_of task) token branch_name base_branch)
            s
            (prepare_mutate_workspace options host repo task base_branch branch_name token s)
        × Followed
            (mirror_plan s repo token
              ++ branch_plan repo (path_of task) token branch_name branch_name)
            s
            (prepare_pr_implement_workspace options host repo task branch_name token s)
  unfolding prepare_observe_workspace prepare_mutate_workspace prepare_pr_implement_workspace
  prepare-Followed repo task base_branch branch_name checkout_ref token s = (
    subst (λ p. Followed p s (prepare_observe_workspace options host task checkout_ref token s))
        (ap (λ q. mirror_plan s task.repo token ++ clone_plan task.repo (path_of task) ++ q)
          (sym (nothing-Followed (ref_plan (path_of task) checkout_ref token))))
        (after-Followed (mirror_plan s task.repo token) _ s _ _
          (ensure_mirror-Followed task.repo token s)
          (λ _.
            after-Followed (clone_plan task.repo (path_of task)) _ _ _ _
              (clone_workspace-Followed task.repo (path_of task) _)
              (λ _.
                after-Followed (ref_plan (path_of task) checkout_ref token) [] _ _ _
                  (ref-Followed (path_of task) checkout_ref token _) (λ _. nothing-Followed _)))),
    branch-Followed repo (path_of task) token branch_name base_branch _ s,
    branch-Followed repo (path_of task) token branch_name branch_name _ s,
  )
