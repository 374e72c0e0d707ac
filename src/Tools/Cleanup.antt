-- ===== src/Tools/Cleanup.antt =====
-- `cleanupArtifacts` of the Claude runner: what it may remove.
use oh_my_github_runner.Prelude.{
  ◌≡◌, refl, subst, Bool, true, false, not, ◌||◌, Option, none, some, [], ◌∷◌, ◌++◌, arith, any,
  ◌==◌, by_test,
}
use oh_my_github_runner.Commands.{Text, starts_with, same_text}
use oh_my_github_runner.Signature.Digest.{same_text_sound}
use oh_my_github_runner.Tools.Claude.{
  ClaudeToolRunnerOptions, Paths, projects_dir, claude_cleanup_artifacts, encode_projects_dir_name,
}

some_is : {a b : Text} → some a ≡ some b → a ≡ b
some_is e = cc

module _ (options : ClaudeToolRunnerOptions) (paths : Paths) (workspace_path : Text) where
  abbrev resolved : Text
  resolved = paths.resolve workspace_path

  abbrev workspaces : Text
  workspaces = paths.resolve options.workspaces_dir

  -- A directory that the cleanup of the workspace may remove.
  abbrev pub Removable : Text → Type 0
  Removable target =
      (paths.dirname target ≡ projects_dir options paths)
      × (target ≡ paths.join (projects_dir options paths) (encode_projects_dir_name resolved))
      × (paths.stat target ≡ true)
      × (starts_with (workspaces ++ paths.sep ∷ []) resolved ≡ true)
      × (any (λ c. c == paths.sep) (encode_projects_dir_name resolved) ≡ false)

  abbrev RemovesOnly : Option Text → Type 0
  RemovesOnly removed = (target : Text) → removed ≡ some target → Removable target

  -- Whatever the cleanup of a workspace removes is an existing directory just below the `projects`
  -- of Claude Code, with the encoded name of the workspace, which has no path separator; and the
  -- workspace lies below the directory of all workspaces, as the functions on paths report it.
  pub cleanup_contained : RemovesOnly (claude_cleanup_artifacts options paths workspace_path)
  unfolding claude_cleanup_artifacts
  cleanup_contained =
      by_test RemovesOnly
        (same_text resolved workspaces || not (starts_with (workspaces ++ paths.sep ∷ []) resolved))
        nothing
        λ below.
          by_test RemovesOnly
            (not (
              starts_with (encode_projects_dir_name workspaces ++ 45 ∷ [])
                (encode_projects_dir_name resolved)))
            nothing
            λ _.
              by_test RemovesOnly (any (λ c. c == paths.sep) (encode_projects_dir_name resolved))
                nothing
                λ flat.
                  by_test RemovesOnly
                    (not (same_text (paths.dirname named) (projects_dir options paths))) nothing
                    λ inside. by_test RemovesOnly (not (paths.stat named)) nothing λ there target e.
                      subst Removable (some_is e) (
                        same_text_sound _ _ (ground (arith, inside)),
                        refl,
                        ground (arith, there),
                        ground (arith, below),
                        flat,
                      )
    where
      named : Text
      named = paths.join (projects_dir options paths) (encode_projects_dir_name resolved)

      nothing : {b : Bool} → b ≡ true → RemovesOnly none
      nothing _ target e = cc
