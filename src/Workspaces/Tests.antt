-- ===== src/Workspaces/Tests.antt =====
-- A manager with the default executable and base URL, on a host where every command succeeds, or
-- where each fails and prints nothing.
use oh_my_github_runner.Prelude.{
  ◌==◌, ◌+◌, ◌-◌, ◌*◌, ◌/◌, ◌%◌, ltb, if◌then◌else◌, ℕ, ◌≡◌, refl, none, some, List, [], ◌∷◌, ◌++◌,
  codes, false,
}
use oh_my_github_runner.Prelude.Action.{ok}
use oh_my_github_runner.Task.{TaskRecord, running}
use oh_my_github_runner.Task.Samples.{sample_task, sample_repo}
use oh_my_github_runner.Commands.{Text, is_space}
use oh_my_github_runner.Tools.{RunProcessResult}
use oh_my_github_runner.Workspaces.{
  read_dir, GitWorkspaceManagerOptions, Host, build_auth_args, run_git, get_workspace_path,
  prepare_observe_workspace, prepare_mutate_workspace, prepare_pr_implement_workspace,
  cleanup_orphan_workspaces,
}
use oh_my_github_runner.Workspaces.Preparing.{
  Followed, mirror_plan, clone_plan, ref_plan, branch_plan, prepare-Followed,
}
use oh_my_github_runner.Workspaces.Orphans.{Removed, removals, cleanup-Removed}
use oh_my_github_runner.Workspaces.Secrets.{git_failure_hides}

abbrev defaults : GitWorkspaceManagerOptions
defaults = record {
  repos_dir = codes "/repos";
  workspaces_dir = codes "/w";
  git_executable = none;
  github_web_base_url = none;
}

abbrev joined : List Text → Text
joined [] = []
joined (part ∷ parts) = part ++ codes "/" ++ joined parts

abbrev sextet : ℕ → ℕ
sextet n =
    if ltb n 26
    then 65 + n
    else if ltb n 52
    then 71 + n
    else if ltb n 62
    then n - 4
    else if n == 62
    then 43
    else 47

abbrev encoded : Text → Text
encoded [] = []
encoded (a ∷ []) = sextet (a / 4) ∷ sextet (a % 4 * 16) ∷ codes "=="
encoded (a ∷ b ∷ []) =
    sextet (a / 4) ∷ sextet (a % 4 * 16 + b / 16) ∷ sextet (b % 16 * 4) ∷ codes "="
encoded (a ∷ b ∷ c ∷ cs) =
    sextet (a / 4)
    ∷ sextet (a % 4 * 16 + b / 16)
    ∷ sextet (b % 16 * 4 + c / 64)
    ∷ sextet (c % 64)
    ∷ encoded cs

abbrev silent : ℕ → RunProcessResult
silent exit_code = record { exit_code = exit_code; stdout = []; stderr = [] }

abbrev host_with : ℕ → Host
host_with exit_code = record {
  join = joined;
  dirname = λ p. p;
  base64 = encoded;
  text_of = λ _. codes "x";
  exists = λ _. false;
  done = λ _. ok tt;
  entries = λ _. ok (some (codes "t1" ∷ codes "t2" ∷ []));
  process = λ _. ok (silent exit_code);
}

abbrev some_task : TaskRecord
some_task = sample_task "t1" "issue-implement" running 5

abbrev task_path : Text
task_path = get_workspace_path defaults (host_with 0) "t1"

prepare-Followed_example :
    Followed
      (mirror_plan defaults (host_with 0) [] sample_repo (some (codes "tok"))
        ++ clone_plan defaults (host_with 0) sample_repo task_path
        ++ ref_plan defaults (host_with 0) task_path (some (codes "main")) (some (codes "tok")))
      []
      (prepare_observe_workspace defaults
        (host_with 0)
        some_task
        (some (codes "main"))
        (some (codes "tok"))
        [])
    × Followed
        (mirror_plan defaults (host_with 0) [] sample_repo (some (codes "tok"))
          ++ branch_plan defaults
              (host_with 0)
              sample_repo
              task_path
              (some (codes "tok"))
              (codes "ai")
              (codes "main"))
        []
        (prepare_mutate_workspace defaults
          (host_with 0)
          sample_repo
          some_task
          (codes "main")
          (codes "ai")
          (some (codes "tok"))
          [])
    × Followed
        (mirror_plan defaults (host_with 0) [] sample_repo (some (codes "tok"))
          ++ branch_plan defaults
              (host_with 0)
              sample_repo
              task_path
              (some (codes "tok"))
              (codes "ai")
              (codes "ai"))
        []
        (prepare_pr_implement_workspace defaults
          (host_with 0)
          sample_repo
          some_task
          (codes "ai")
          (some (codes "tok"))
          [])
prepare-Followed_example =
    prepare-Followed defaults (host_with 0) sample_repo some_task (codes "main") (codes "ai")
      (some (codes "main")) (some (codes "tok")) []

cleanup-Removed_example :
    Removed 0
      (removals defaults (host_with 0) (codes "t2" ∷ []) (codes "t1" ∷ codes "t2" ∷ []))
      (read_dir (codes "/w") ∷ [])
      (cleanup_orphan_workspaces defaults (host_with 0) (codes "t2" ∷ []) [])
cleanup-Removed_example =
    cleanup-Removed defaults (host_with 0) (codes "t2" ∷ []) (codes "t1" ∷ codes "t2" ∷ []) [] refl

git_failure_hides_example :
    (run_git defaults
      (host_with 128)
      (build_auth_args defaults (host_with 128) (some (codes "one")) ++ codes "push" ∷ [])
      []).0
    ≡ (run_git defaults
        (host_with 128)
        (build_auth_args defaults (host_with 128) (some (codes "two")) ++ codes "push" ∷ [])
        []).0
unfolding is_space
git_failure_hides_example =
    git_failure_hides defaults (host_with 128) refl 111 116 (codes "ne") (codes "wo") (codes "push")
      [] [] (silent 128) (silent 128) (101, codes "C1hY2Nlc3MtdG9rZW46b25l", refl, refl)
      (101, codes "C1hY2Nlc3MtdG9rZW46dHdv", refl, refl) refl refl (refl, refl, refl)
      (refl, refl, refl)
