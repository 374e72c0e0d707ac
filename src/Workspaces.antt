-- ===== src/Workspaces.antt =====
-- src/infra/workspaces/git-workspace-manager.ts. What the manager does outside itself is recorded in
-- order, each effect before its answer; the host answers by the effects so far. Texts of paths are
-- joined by the host too.
pub mod Preparing
pub mod Orphans
pub mod Secrets
mod Tests
use oh_my_github_runner.Prelude.{
  ℕ, String, Bool, true, false, not, ◌&&◌, Option, none, some, get_or, List, [], ◌∷◌, ◌++◌,
  if◌then◌else◌, ◌==◌, codes, any, ◌+◌,
}
use oh_my_github_runner.Prelude.Action.{Result, ok, err, after, Action, ◌>>=◌, Failure, git_failed}
use oh_my_github_runner.Task.{TaskRecord, RepoRef}
use oh_my_github_runner.Commands.{Text, is_empty, trim, same_text}
use oh_my_github_runner.Tools.{RunProcessResult}
use oh_my_github_runner.Tools.Claude.{join_with}
use oh_my_github_runner.Masking.{mask_secrets}

pub data Effect : Type 0 where
  access make_dir remove read_dir : (path : Text) → Effect
  run : (command : Text) → (args : List Text) → Effect

pub record GitWorkspaceManagerOptions : Type 0 where
  pub repos_dir : Text
  pub workspaces_dir : Text
  pub git_executable : Option Text
  pub github_web_base_url : Option Text

-- `entries` answers nothing for a directory that does not exist.
pub record Host : Type 0 where
  pub join : List Text → Text
  pub dirname : Text → Text
  pub base64 : Text → Text
  pub text_of : String → Text
  pub exists : List Effect → Bool
  pub done : List Effect → Result (Unit {0})
  pub entries : List Effect → Result (Option (List Text))
  pub process : List Effect → Result RunProcessResult

pub record MutateWorkspaceHandle : Type 0 where
  pub workspace_path : Text
  pub branch_name : Text

-- `a || b` for texts.
abbrev pub or_text : Text → Text → Text
or_text [] later = later
or_text (c ∷ cs) later = c ∷ cs

-- `replace(/\/+$/, "")`.
unfoldable pub without_slashes : Text → Text
without_slashes [] = []
without_slashes (c ∷ cs) =
    let rest = without_slashes cs in if c == 47 && is_empty rest then [] else c ∷ rest

module _ (options : GitWorkspaceManagerOptions) (host : Host) where
  abbrev pub git : Text
  git = get_or options.git_executable (codes "git")

  abbrev pub base_url : Text
  base_url = get_or options.github_web_base_url (codes "https://github.com")

  abbrev pub perform : Effect → Action (List Effect) (Unit {0})
  perform effect s = let s' = s ++ effect ∷ [] in (host.done s', s')

  unfoldable pub get_mirror_path : RepoRef → Text
  get_mirror_path repo = host.join (
      options.repos_dir
      ∷ host.text_of repo.owner
      ∷ host.text_of repo.name
      ∷ codes "mirror.git"
      ∷ [])

  unfoldable pub get_workspace_path : String → Text
  get_workspace_path task_id = host.join (options.workspaces_dir ∷ host.text_of task_id ∷ [])

  unfoldable pub get_repo_url : RepoRef → Text
  get_repo_url repo =
      base_url
      ++ codes "/"
      ++ host.text_of repo.owner
      ++ codes "/"
      ++ host.text_of repo.name
      ++ codes ".git"

  unfoldable pub build_auth_args : Option Text → List Text
  build_auth_args none = []
  build_auth_args (some []) = []
  build_auth_args (some (c ∷ cs)) =
      codes "-c"
      ∷ (codes "http."
          ++ without_slashes base_url
          ++ codes "/.extraheader=AUTHORIZATION: Basic "
          ++ host.base64 (codes "x-access-token:" ++ c ∷ cs))
      ∷ []

  abbrev pub raw_error : List Text → RunProcessResult → Text
  raw_error args result =
      or_text result.stderr
        (or_text result.stdout (codes "git failed: " ++ join_with (codes " ") args))

  abbrev pub unless_failed : List Text → RunProcessResult → Action (List Effect) RunProcessResult
  unless_failed args result s =
      if result.exit_code == 0
      then (ok result, s)
      else (err (git_failed (mask_secrets (raw_error args result))), s)

  unfoldable pub run_git : List Text → Action (List Effect) RunProcessResult
  run_git args s =
      let s' = s ++ run git args ∷ [] in after (host.process s', s') (unless_failed args)

  abbrev pub git_only : List Text → Action (List Effect) (Unit {0})
  git_only args = do _ ← run_git args; λ s. (ok tt, s)

  -- `["-C", path, ...args]`.
  abbrev pub inside : Text → List Text → List Text
  inside path args = codes "-C" ∷ path ∷ args

  abbrev pub fetch_args : Text → List Text
  fetch_args path = inside path (codes "fetch" ∷ codes "origin" ∷ codes "--prune" ∷ [])

  abbrev pub mirror_args : Bool → Option Text → Text → Text → List Text
  mirror_args true token repo_url mirror_path = build_auth_args token ++ fetch_args mirror_path
  mirror_args false token repo_url mirror_path =
      build_auth_args token ++ codes "clone" ∷ codes "--mirror" ∷ repo_url ∷ mirror_path ∷ []

  abbrev pub path_exists : Text → Action (List Effect) Bool
  path_exists path s = let s' = s ++ access path ∷ [] in (ok (host.exists s'), s')

  unfoldable pub ensure_mirror : Text → Text → Option Text → Action (List Effect) (Unit {0})
  ensure_mirror repo_url mirror_path token = do
    _ ← perform (make_dir (host.dirname mirror_path))
    there ← path_exists mirror_path
    git_only (mirror_args there token repo_url mirror_path)

  unfoldable pub clone_workspace : Text → Text → Text → Action (List Effect) (Unit {0})
  clone_workspace mirror_path workspace_path repo_url = do
    _ ← perform (remove workspace_path)
    _ ← perform (make_dir (host.dirname workspace_path))
    _ ← git_only (codes "clone" ∷ mirror_path ∷ workspace_path ∷ [])
    git_only
        (inside workspace_path (codes "remote" ∷ codes "set-url" ∷ codes "origin" ∷ repo_url ∷ []))

  abbrev pub fetch_in : Text → Option Text → Action (List Effect) (Unit {0})
  fetch_in workspace_path token = git_only (build_auth_args token ++ fetch_args workspace_path)

  abbrev pub checkout_args : Text → Text → Text → List Text
  checkout_args workspace_path branch_name ref =
      inside workspace_path
        (codes "checkout" ∷ codes "-B" ∷ branch_name ∷ (codes "origin/" ++ ref) ∷ [])

  unfoldable pub checkout_observe_ref :
      Text → Option Text → Option Text → Action (List Effect) (Unit {0})
  checkout_observe_ref workspace_path none token = λ s. (ok tt, s)
  checkout_observe_ref workspace_path (some []) token = λ s. (ok tt, s)
  checkout_observe_ref workspace_path (some (c ∷ cs)) token = do
    _ ← fetch_in workspace_path token
    git_only (
        inside workspace_path
          (codes "checkout" ∷ codes "--detach" ∷ (codes "origin/" ++ c ∷ cs) ∷ []))

  unfoldable pub prepare_observe_workspace :
      TaskRecord → Option Text → Option Text → Action (List Effect) Text
  prepare_observe_workspace task checkout_ref token =
      let workspace_path = get_workspace_path task.task_id in
      do
        _ ← ensure_mirror (get_repo_url task.repo) (get_mirror_path task.repo) token
        _ ← clone_workspace (get_mirror_path task.repo) workspace_path (get_repo_url task.repo)
        _ ← checkout_observe_ref workspace_path checkout_ref token
        λ s. (ok workspace_path, s)

  -- A local branch from the base branch of the remote.
  unfoldable pub prepare_mutate_workspace :
      RepoRef → TaskRecord → Text → Text → Option Text → Action (List Effect) MutateWorkspaceHandle
  prepare_mutate_workspace repo task base_branch branch_name token =
      let workspace_path = get_workspace_path task.task_id in
      do
        _ ← ensure_mirror (get_repo_url repo) (get_mirror_path repo) token
        _ ← clone_workspace (get_mirror_path repo) workspace_path (get_repo_url repo)
        _ ← fetch_in workspace_path token
        _ ← git_only (checkout_args workspace_path branch_name base_branch)
        λ s. (ok (record { workspace_path = workspace_path; branch_name = branch_name }), s)

  unfoldable pub prepare_pr_implement_workspace :
      RepoRef → TaskRecord → Text → Option Text → Action (List Effect) MutateWorkspaceHandle
  prepare_pr_implement_workspace repo task head_ref token =
      let workspace_path = get_workspace_path task.task_id in
      do
        _ ← ensure_mirror (get_repo_url repo) (get_mirror_path repo) token
        _ ← clone_workspace (get_mirror_path repo) workspace_path (get_repo_url repo)
        _ ← fetch_in workspace_path token
        _ ← git_only (checkout_args workspace_path head_ref head_ref)
        λ s. (ok (record { workspace_path = workspace_path; branch_name = head_ref }), s)

  unfoldable pub has_changes : Text → Action (List Effect) Bool
  has_changes workspace_path = do
    result ← run_git (inside workspace_path (codes "status" ∷ codes "--porcelain" ∷ []))
    λ s. (ok (not (is_empty (trim result.stdout))), s)

  unfoldable pub commit_all : Text → Text → Action (List Effect) (Unit {0})
  commit_all workspace_path message = do
    _ ← git_only (inside workspace_path (codes "add" ∷ codes "-A" ∷ []))
    git_only (
        inside workspace_path (
          codes "-c"
          ∷ codes "user.name=AI Runner"
          ∷ codes "-c"
          ∷ codes "user.email=ai-runner@local"
          ∷ codes "commit"
          ∷ codes "-m"
          ∷ message
          ∷ []))

  unfoldable pub push_branch : MutateWorkspaceHandle → Option Text → Action (List Effect) (Unit {0})
  push_branch workspace token = git_only (
      inside workspace.workspace_path (
        build_auth_args token
        ++ codes "push" ∷ codes "-u" ∷ codes "origin" ∷ workspace.branch_name ∷ []))

  unfoldable pub cleanup_workspace : Text → Action (List Effect) (Unit {0})
  cleanup_workspace workspace_path = perform (remove workspace_path)

  -- The loop over the entries, with the number of directories removed so far.
  unfoldable pub remove_orphans : List Text → List Text → ℕ → Action (List Effect) ℕ
  remove_orphans active [] removed = λ s. (ok removed, s)
  remove_orphans active (entry ∷ entries) removed =
      if any (same_text entry) active then remove_orphans active entries removed else λ s.
      after (perform (remove (host.join (options.workspaces_dir ∷ entry ∷ []))) s)
        (λ _. remove_orphans active entries (removed + 1))

  abbrev pub orphans_of : List Text → Option (List Text) → Action (List Effect) ℕ
  orphans_of active none = λ s. (ok 0, s)
  orphans_of active (some entries) = remove_orphans active entries 0

  unfoldable pub cleanup_orphan_workspaces : List Text → Action (List Effect) ℕ
  cleanup_orphan_workspaces active s =
      let s' = s ++ read_dir options.workspaces_dir ∷ [] in
      after (host.entries s', s') (orphans_of active)
