-- ===== src/Daemon/Startup.antt =====
-- What the daemon finds after `initialize`.
use oh_my_github_runner.Prelude.{
  ℕ, String, ◌≡◌, refl, sym, ap, subst, ◌∙◌, ◌≢◌, inl, inr, Option, none, some, true, false, List,
  [], ◌∷◌, arith, Option-cases, if◌then◌else◌, ◌-◌, Bool, Bool-cases, includes, map, keep, All,
  Member, here, there,
}
use oh_my_github_runner.Task.{TaskRecord, running}
use oh_my_github_runner.Queue.{Store, record_at}
use oh_my_github_runner.Queue.Consistency.{Consistent, view, view_at, at_view}
use oh_my_github_runner.Queue.Sweeps.{recover_running_tasks, prune_terminal_tasks}
use oh_my_github_runner.Queue.Recovery.{view-recover, recovered_record, recover-Consistent}
use oh_my_github_runner.Queue.Pruning.{find-prune}
use oh_my_github_runner.Queue.Listing.{list_tasks}
use oh_my_github_runner.Queue.Scan.{
  list_tasks_sound, list_tasks_complete, list_tasks-Consistent, view-list_tasks,
}
use oh_my_github_runner.Daemon.{Settings, Daemon, is_live, initialize, maybe_prune}
use oh_my_github_runner.Checkpoint.{read}
use oh_my_github_runner.Checkpoint.Laws.{read-sweep}

pub prune_running :
    (older_than : ℕ) (s : Store) (j : String)
    → record_at running j (prune_terminal_tasks older_than s).1 ≡ record_at running j s
prune_running older_than s j = ground (arith, find-prune older_than s running j)

-- The record of no task says that it runs.
none_running :
    (interrupted : String) (now : ℕ) (o : Option TaskRecord) (t : TaskRecord)
    → recovered_record interrupted now o ≡ some t
    → t.status ≢ running
none_running interrupted now o t e = ground arith

abbrev pub live_of : Option TaskRecord → Bool
live_of none = false
live_of (some t) = is_live t

abbrev live_ids : List TaskRecord → List String
live_ids tasks = map (λ t. t.task_id) (keep is_live tasks)

listed_live :
    (t : TaskRecord) (ts : List TaskRecord)
    → Member t ts
    → is_live t ≡ true
    → includes t.task_id (live_ids ts) ≡ true
unfolding includes
listed_live t [] m h = elim m [ ]
listed_live t (_ ∷ ts) here h = rw h (ground arith)
listed_live t (u ∷ ts) (there m) h = elim (Bool-cases (is_live u)) [
  | inl e ↦ rw e (ground (arith, listed_live t ts m h))
  | inr e ↦ rw e (listed_live t ts m h)
]

unlisted_dead :
    (s : Store) (j : String) (ts : List TaskRecord)
    → All (λ t. view s t.task_id ≡ some t) ts
    → live_of (view s j) ≡ false
    → includes j (live_ids ts) ≡ false
unfolding includes
unlisted_dead s j [] h dead = refl
unlisted_dead s j (t ∷ ts) (v, h) dead = elim (Bool-cases (is_live t)) [
  | inl e ↦ rw e (ground (arith, differs e, unlisted_dead s j ts h dead))
  | inr e ↦ rw e (unlisted_dead s j ts h dead)
]
  where
    differs : is_live t ≡ true → t.task_id ≢ j
    differs e same =
        let at_j : view s j ≡ some t = ap (view s) (sym same) ∙ v in
        let live : live_of (view s j) ≡ true = ap live_of at_j ∙ e in ground (arith, live, dead)

live_listed :
    (now : ℕ) (s : Store) (j : String)
    → Consistent s
    → includes j (live_ids (list_tasks now s).0) ≡ live_of (view s j)
live_listed now s j c = elim (Option-cases (view s j)) [
  | inl e ↦ unlisted_dead s j _ (list_tasks_sound now s c) (ap live_of e) ∙ sym (ap live_of e)
  | inr (t, e) ↦ elim (Bool-cases (is_live t)) [
    | inl live ↦
        subst (λ k. includes k (live_ids (list_tasks now s).0) ≡ true)
          (c.named t.status j t (at_view c j t e)).0
          (listed_live t _ (list_tasks_complete now s j t c e) live)
        ∙ sym (ap live_of e ∙ live)
    | inr dead ↦
        unlisted_dead s j _ (list_tasks_sound now s c) (ap live_of e ∙ dead)
        ∙ sym (ap live_of e ∙ dead)
  ]
]

nothing_runs :
    (s : Store) (j : String)
    → Consistent s
    → ((t : TaskRecord) → view s j ≡ some t → t.status ≢ running)
    → record_at running j s ≡ none
nothing_runs s j c h = elim (Option-cases (record_at running j s)) [
  | inl e ↦ e
  | inr (t, e) ↦ absurd (h t (view_at c running j t e) (c.named running j t e).1)
]

-- After the daemon's start on a consistent queue no record stands as running, and the saved results
-- of a task are kept exactly when the recovered task waits in the queue: an interrupted run leaves
-- none.
pub initialize_idle :
    (c : Settings) (interrupted : String) (now : ℕ) (d : Daemon) (step_filename : String → String)
    (j key : String)
    → Consistent d.store
    → (record_at running j (initialize c interrupted now d).store ≡ none)
      × ((read step_filename j key (initialize c interrupted now d).checkpoints).0 ≡ (
          if live_of (recovered_record interrupted now (view d.store j))
          then (read step_filename j key d.checkpoints).0
          else none))
unfolding initialize maybe_prune
initialize_idle c interrupted now d step_filename j key con =
    let recovered = recover_running_tasks interrupted now d.store in
    let con' = recover-Consistent interrupted now d.store con in
    let con'' = list_tasks-Consistent now recovered con' in
    (
      prune_running (now - c.retention_ms) (list_tasks now recovered).1 j
          ∙ nothing_runs _ j con'' (λ t v. none_running interrupted now (view d.store j) t (
              sym (view-list_tasks now recovered j ∙ view-recover interrupted now d.store con j)
              ∙ v)),
      read-sweep step_filename (live_ids (list_tasks now recovered).0) j key d.checkpoints
          ∙ ap (λ b. if b then (read step_filename j key d.checkpoints).0 else none)
              (live_listed now recovered j con'
                ∙ ap live_of (view-recover interrupted now d.store con j)),
    )
