-- ===== src/Workspaces/Orphans.antt =====
-- `cleanupOrphanWorkspaces`.
use oh_my_github_runner.Prelude.{
  ℕ, ◌+◌, ◌≡◌, refl, sym, ap, ◌∙◌, Bool, true, false, some, List, [], ◌∷◌, ◌++◌, append_assoc,
  if◌then◌else◌, any, arith, length, subst,
}
use oh_my_github_runner.Prelude.Action.{Result, ok, err, after, Action}
use oh_my_github_runner.Commands.{Text, same_text}
use oh_my_github_runner.Workspaces.{
  Effect, remove, read_dir, GitWorkspaceManagerOptions, Host, remove_orphans, orphans_of,
  cleanup_orphan_workspaces,
}
use oh_my_github_runner.Workspaces.Preparing.{nothing-Followed}

-- The removals of the plan were made, after `removed` others, and counted; or the first ones were.
abbrev pub Removed : ℕ → List Effect → List Effect → Result ℕ × List Effect → Type 0
Removed removed plan s (ok n, s') = (s' ≡ s ++ plan) × (n ≡ removed + length plan)
Removed removed plan s (err _, s') =
    (made : List Effect) × (left : List Effect) × (s' ≡ s ++ made) × (made ++ left ≡ plan)

module _ (options : GitWorkspaceManagerOptions) (host : Host) (active : List Text) where
  abbrev pub removal : Text → Effect
  removal entry = remove (host.join (options.workspaces_dir ∷ entry ∷ []))

  abbrev pub is_active : Text → Bool
  is_active entry = any (same_text entry) active

  abbrev pub removals : List Text → List Effect
  removals [] = []
  removals (entry ∷ entries) =
      if is_active entry then removals entries else removal entry ∷ removals entries

  more-Removed :
      (removed : ℕ) (effect : Effect) (plan s : List Effect) (r : Result ℕ × List Effect)
      → Removed (removed + 1) plan (s ++ effect ∷ []) r
      → Removed removed (effect ∷ plan) s r
  more-Removed removed effect plan s (ok n, s') (e, f) =
      (e ∙ append_assoc s (effect ∷ []) plan, omega (arith, f))
  more-Removed removed effect plan s (err _, s') (made, left, e, f) =
      (effect ∷ made, left, e ∙ append_assoc s (effect ∷ []) made, ap (λ t. effect ∷ t) f)

  remove_one :
      (removed : ℕ) (effect : Effect) (plan s : List Effect) (done : Result (Unit {0}))
      (f : Action (List Effect) ℕ)
      → Removed (removed + 1) plan (s ++ effect ∷ []) (f (s ++ effect ∷ []))
      → Removed removed (effect ∷ plan) s (after (done, s ++ effect ∷ []) (λ _. f))
  remove_one removed effect plan s (ok _) f h = more-Removed removed effect plan s _ h
  remove_one removed effect plan s (err e) f h = (effect ∷ [], plan, refl, refl)

  choice-Removed :
      (keep : Bool) (removed : ℕ) (plan plan' s : List Effect) (f g : Action (List Effect) ℕ)
      → Removed removed plan s (f s)
      → Removed removed plan' s (g s)
      → Removed removed (if keep then plan else plan') s ((if keep then f else g) s)
  choice-Removed true removed plan plan' s f g h k = h
  choice-Removed false removed plan plan' s f g h k = k

  remove_orphans-Removed :
      (entries : List Text) (removed : ℕ) (s : List Effect)
      → Removed removed (removals entries) s (remove_orphans options host active entries removed s)
  unfolding remove_orphans
  remove_orphans-Removed [] removed s = (nothing-Followed s, omega arith)
  remove_orphans-Removed (entry ∷ entries) removed s =
      choice-Removed (is_active entry) removed _ _ s _ _ (remove_orphans-Removed entries removed s)
        (remove_one removed (removal entry) (removals entries) s
          (host.done (s ++ removal entry ∷ []))
          (remove_orphans options host active entries (removed + 1))
          (remove_orphans-Removed entries (removed + 1) (s ++ removal entry ∷ [])))

  -- When the directory of the workspaces can be read, the cleanup removes, in the order of its
  -- entries, the directory of each entry that is no active task, and none of an active one, and
  -- returns how many these are. If a removal throws, those before it were made.
  pub cleanup-Removed :
      (entries : List Text) (s : List Effect)
      → host.entries (s ++ read_dir options.workspaces_dir ∷ []) ≡ ok (some entries)
      → Removed 0
          (removals entries)
          (s ++ read_dir options.workspaces_dir ∷ [])
          (cleanup_orphan_workspaces options host active s)
  unfolding cleanup_orphan_workspaces
  cleanup-Removed entries s e =
      subst
        (λ r.
          Removed 0 (removals entries) (s ++ read_dir options.workspaces_dir ∷ [])
            (after (r, s ++ read_dir options.workspaces_dir ∷ []) (orphans_of options host active)))
        (sym e) (remove_orphans-Removed entries 0 _)
