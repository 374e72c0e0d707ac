-- ===== src/Toolkit/Disposal.antt =====
-- The end of a workspace's scope.
use oh_my_github_runner.Prelude.{
  ℕ, String, ◌≡◌, refl, ap, ◌∙◌, Bool, true, false, Option, none, some, List, [], ◌∷◌, ◌++◌, map,
  keep, append_assoc, if◌then◌else◌, ◌==◌,
}
use oh_my_github_runner.Prelude.Assoc.{lookup}
use oh_my_github_runner.Prelude.Action.{Result, ok, err}
use oh_my_github_runner.Task.{TaskRecord}
use oh_my_github_runner.Commands.{Text}
use oh_my_github_runner.Toolkit.{
  ToolkitFactoryOptions, ToolkitState, ActiveWorkspace, Workspace, Event, workspace_cleaned,
  artifacts_cleaned, cleanup_tool_artifacts, dispose, disposed, cleaned_by, emptied, note,
}

module _ {C : Type 0} (options : ToolkitFactoryOptions C) (task : TaskRecord)
    (declared : List String) where
  abbrev is_some : {R : Type 0} → Option R → Bool
  is_some none = false
  is_some (some _) = true

  abbrev is_registered : String → Bool
  is_registered tool = is_some (lookup tool options.runners)

  -- The declared tools that are registered, each cleaned once.
  abbrev pub cleanings : List String → Text → List Event
  cleanings tools path = map (λ tool. artifacts_cleaned tool path) (keep is_registered tools)

  -- What the scope of a workspace leaves of the slot of the active one.
  abbrev holds : ℕ → Option ActiveWorkspace → Bool
  holds identity none = false
  holds identity (some a) = a.identity == identity

  abbrev pub released : ℕ → Option ActiveWorkspace → Option ActiveWorkspace
  released identity slot = if holds identity slot then none else slot

  abbrev Cleaned : List String → Text → ToolkitState C → ToolkitState C → Type 0
  Cleaned tools path s s' = (s'.active ≡ s.active) × (s'.events ≡ s.events ++ cleanings tools path)

  append-nil_lem : (es : List Event) → es ≡ es ++ []
  append-nil_lem [] = refl
  append-nil_lem (e ∷ es) = ap (λ r. e ∷ r) (append-nil_lem es)

  cleanup-Cleaned :
      (tools : List String) (path : Text) (s : ToolkitState C)
      → Cleaned tools path s (cleanup_tool_artifacts options task tools path s)
  unfolding cleanup_tool_artifacts
  cleanup-Cleaned [] path s = (refl, append-nil_lem s.events)
  cleanup-Cleaned (tool ∷ tools) path s =
      one_more (lookup tool options.runners) (cleanup-Cleaned tools path s)
        (cleanup-Cleaned tools path (note (artifacts_cleaned tool path) s))
    where
      one_more :
          {R : Type 0} (runner : Option R)
          → Cleaned tools path s (cleanup_tool_artifacts options task tools path s)
          → Cleaned tools path (note (artifacts_cleaned tool path) s) (
              cleanup_tool_artifacts options task tools path (note (artifacts_cleaned tool path) s))
          → let s' =
              cleanup_tool_artifacts options task tools path
                (cleaned_by options task runner tool path s) in
            (s'.active ≡ s.active)
            × (s'.events
                ≡ s.events
                  ++ map
                      (λ t. artifacts_cleaned t path)
                      (if is_some runner
                        then tool ∷ keep is_registered tools
                        else keep is_registered tools))
      one_more none here more = here
      one_more (some runner) here more =
          (more.0, more.1 ∙ append_assoc s.events (artifacts_cleaned tool path ∷ []) _)

  released_lem :
      (identity : ℕ) (slot : Option ActiveWorkspace)
      → emptied identity slot ≡ released identity slot
  released_lem identity none = refl
  released_lem identity (some a) = refl

  abbrev Ended :
      Workspace → ToolkitState C → Result (Unit {0}) → Result (Unit {0}) × ToolkitState C → Type 0
  Ended w s (ok _) (r, s') =
      (s'.active ≡ released w.identity s.active)
      × (s'.events ≡ s.events ++ workspace_cleaned w.path ∷ [] ++ cleanings declared w.path)
  Ended w s (err e) (r, s') =
      (s'.active ≡ released w.identity s.active)
      × (s'.events ≡ s.events ++ workspace_cleaned w.path ∷ [])

  disposed-Ended :
      (w : Workspace) (s : ToolkitState C) (cleanup : Result (Unit {0}))
      → Ended w s cleanup
          (disposed options task declared w cleanup (note (workspace_cleaned w.path) s))
  disposed-Ended w s (ok _) =
      let rest = cleanup-Cleaned declared w.path (note (workspace_cleaned w.path) s) in
      (ap (emptied w.identity) rest.0 ∙ released_lem w.identity s.active, rest.1)
  disposed-Ended w s (err e) = (released_lem w.identity s.active, refl)

  -- The end of the scope of a workspace empties the slot of the active workspace just if that holds
  -- this workspace, whether or not the cleanup throws. The workspace is cleaned up first; if that
  -- does not throw, each registered tool that the strategy declares is cleaned up once, in order.
  pub dispose-Ended :
      (w : Workspace) (s : ToolkitState C)
      → Ended w s
          (options.manager.cleanup_workspace (s.events ++ workspace_cleaned w.path ∷ []) w.path)
          (dispose options task declared w s)
  unfolding dispose
  dispose-Ended w s = disposed-Ended w s _
