-- ===== src/Daemon/Sweep.antt =====
-- `sweepStaleRunning` of runner-daemon.ts: which tasks a tick gives up.
use oh_my_github_runner.Prelude.{
  includes, ℕ, String, ◌≡◌, refl, sym, ap, subst, ◌∙◌, ◌≢◌, ◌⊎◌, inl, inr, Option, none, some, true,
  false, List, [], ◌∷◌, arith, text_discrete, Option-cases, Bool-cases, All, All-map, Member, here,
  there, if◌then◌else◌, if_pos, if_neg,
}
use oh_my_github_runner.Prelude.Action.{Result, Failure, ok, err, task_not_found}
use oh_my_github_runner.Task.{TaskRecord, running}
use oh_my_github_runner.Queue.{Store}
use oh_my_github_runner.Queue.Consistency.{Consistent, view, at_view}
use oh_my_github_runner.Queue.Transitions.{completed_failed, finished, complete_task}
use oh_my_github_runner.Queue.Refinement.{
  Moves, moved, refused, Moves-Consistent, complete_task-Moves,
}
use oh_my_github_runner.Queue.Listing.{list_tasks}
use oh_my_github_runner.Queue.Scan.{
  list_tasks_sound, list_tasks_complete, list_tasks-Consistent, view-list_tasks,
}
use oh_my_github_runner.Daemon.{
  Settings, Daemon, is_stale, stale_summary, stale_end, fail_stale, sweep_stale_running,
}
use oh_my_github_runner.Daemon.Runs.{Moves-moved}

module _ (c : Settings) (now : ℕ) where
  abbrev pub given_up : TaskRecord → TaskRecord
  given_up t = finished now (completed_failed (some (stale_summary c now t.started_at))) t

  abbrev step : TaskRecord → Daemon → Daemon
  step t d = if is_stale c now d.active_tasks t then fail_stale c now t d else d

  abbrev completion : TaskRecord → Daemon → Result TaskRecord × Store
  completion t d =
      complete_task t.task_id (completed_failed (some (stale_summary c now t.started_at))) now
        d.store

  stale_end_lem :
      (id : String) (r : Result TaskRecord) (d : Daemon)
      → ((stale_end id r d).store ≡ d.store) × ((stale_end id r d).active_tasks ≡ d.active_tasks)
  stale_end_lem id (ok _) d = (refl, refl)
  stale_end_lem id (err e) d = (refl, refl)

  fail_stale_lem :
      (t : TaskRecord) (d : Daemon)
      → ((fail_stale c now t d).store ≡ (completion t d).1)
        × ((fail_stale c now t d).active_tasks ≡ d.active_tasks)
  unfolding fail_stale
  fail_stale_lem t d =
      stale_end_lem t.task_id (completion t d).0 (record d { store = (completion t d).1 })

  completion-Moves :
      (t : TaskRecord) (d : Daemon)
      → Consistent d.store
      → Moves running
          (finished now (completed_failed (some (stale_summary c now t.started_at))))
          (task_not_found t.task_id)
          t.task_id
          d.store
          (completion t d)
  completion-Moves t d con = complete_task-Moves t.task_id _ now d.store con

  step-active : (t : TaskRecord) (d : Daemon) → (step t d).active_tasks ≡ d.active_tasks
  step-active t d = elim (Bool-cases (is_stale c now d.active_tasks t)) [
    | inl e ↦ rw e (fail_stale_lem t d).1
    | inr e ↦ rw e refl
  ]

  step-Consistent : (t : TaskRecord) (d : Daemon) → Consistent d.store → Consistent (step t d).store
  step-Consistent t d con = elim (Bool-cases (is_stale c now d.active_tasks t)) [
    | inl e ↦ rw e (
        subst Consistent (sym (fail_stale_lem t d).0) (Moves-Consistent (completion-Moves t d con)))
    | inr e ↦ rw e con
  ]

  Settled : Option TaskRecord → Type 0
  Settled o = (x : TaskRecord) → o ≡ some x → x.status ≢ running

  Moves-Settled :
      (t : TaskRecord) (d : Daemon) (j : String) (r : Result TaskRecord × Store)
      (f : TaskRecord → TaskRecord) (e : Failure)
      → Moves running f e t.task_id d.store r
      → Settled (view d.store j) ⊎ (t.task_id ≢ j)
      → view r.1 j ≡ view d.store j
  unfolding Settled
  Moves-Settled t d j r f e (moved u v st _ _ views) (inl settled) =
      elim (text_discrete t.task_id j) [
        | yes same ↦ absurd (settled u (ap (view d.store) (sym same) ∙ v) st)
        | no differs ↦
            views j ∙ if_neg (text_discrete t.task_id j) differs (some (f u)) (view d.store j)
      ]
  Moves-Settled t d j r f e (moved u v st _ _ views) (inr differs) =
      views j ∙ if_neg (text_discrete t.task_id j) differs (some (f u)) (view d.store j)
  Moves-Settled t d j r f e (refused _ _ _ views) _ = views j

  -- A step leaves a settled record, and those of other tasks.
  step-Settled :
      (t : TaskRecord) (d : Daemon) (j : String)
      → Consistent d.store
      → Settled (view d.store j) ⊎ (t.task_id ≢ j)
      → view (step t d).store j ≡ view d.store j
  step-Settled t d j con h = elim (Bool-cases (is_stale c now d.active_tasks t)) [
    | inl e ↦ rw e (
        ap (λ s. view s j) (fail_stale_lem t d).0
        ∙ Moves-Settled t d j (completion t d) _ _ (completion-Moves t d con) h)
    | inr e ↦ rw e refl
  ]

  stale-running :
      (t : TaskRecord) (active : List String) → is_stale c now active t ≡ true → t.status ≡ running
  stale-running t active e = ground arith

  step_self :
      (t : TaskRecord) (d : Daemon)
      → Consistent d.store
      → is_stale c now d.active_tasks t ≡ true
      → view d.store t.task_id ≡ some t
      → view (step t d).store t.task_id ≡ some (given_up t)
  step_self t d con stale v =
      let (_, _, views) =
        Moves-moved running
          (finished now (completed_failed (some (stale_summary c now t.started_at)))) _ t.task_id
          d.store (completion t d) t v (completion-Moves t d con)
          (stale-running t d.active_tasks stale) in
      rw stale (
        ap (λ s. view s t.task_id) (fail_stale_lem t d).0
        ∙ views t.task_id
        ∙ if_pos (text_discrete t.task_id t.task_id) refl (some (given_up t))
            (view d.store t.task_id))

  abbrev sweep : List TaskRecord → Daemon → Daemon
  sweep ts d = sweep_stale_running c now ts d

  sweep-Settled :
      (ts : List TaskRecord) (d : Daemon) (j : String)
      → Consistent d.store
      → Settled (view d.store j)
      → view (sweep ts d).store j ≡ view d.store j
  unfolding sweep_stale_running
  sweep-Settled [] d j con h = refl
  sweep-Settled (t ∷ ts) d j con h =
      let one = step-Settled t d j con (inl h) in
      sweep-Settled ts (step t d) j (step-Consistent t d con) (subst Settled (sym one) h) ∙ one

  given_up-Settled : (t : TaskRecord) → Settled (some (given_up t))
  unfolding Settled
  given_up-Settled t x e = ground arith

  -- The records of one task in a list.
  abbrev Only : TaskRecord → List TaskRecord → Type 0
  Only u ts = All (λ t. t.task_id ≡ u.task_id → t ≡ u) ts

  step-kept :
      (u t : TaskRecord) (d : Daemon)
      → Consistent d.store
      → (t.task_id ≡ u.task_id → t ≡ u)
      → is_stale c now d.active_tasks u ≡ false
      → view (step t d).store u.task_id ≡ view d.store u.task_id
  step-kept u t d con only fresh = elim (text_discrete t.task_id u.task_id) [
    | yes same ↦
        let calm : is_stale c now d.active_tasks t ≡ false =
          subst (λ x. is_stale c now d.active_tasks x ≡ false) (sym (only same)) fresh in
        rw calm refl
    | no differs ↦ step-Settled t d u.task_id con (inr differs)
  ]

  sweep-kept :
      (u : TaskRecord) (ts : List TaskRecord) (d : Daemon)
      → Consistent d.store
      → Only u ts
      → is_stale c now d.active_tasks u ≡ false
      → view (sweep ts d).store u.task_id ≡ view d.store u.task_id
  unfolding sweep_stale_running
  sweep-kept u [] d con only fresh = refl
  sweep-kept u (t ∷ ts) d con only fresh =
      sweep-kept u ts (step t d) (step-Consistent t d con) only.1
        (ap (λ a. is_stale c now a u) (step-active t d) ∙ fresh)
      ∙ step-kept u t d con only.0 fresh

  sweep-first :
      (u t : TaskRecord) (ts : List TaskRecord) (d : Daemon)
      → Consistent d.store
      → t ≡ u
      → is_stale c now d.active_tasks u ≡ true
      → view d.store u.task_id ≡ some u
      → view (sweep ts (step t d)).store u.task_id ≡ some (given_up u)
  sweep-first u t ts d con same stale v =
      let one : view (step t d).store u.task_id ≡ some (given_up u) =
        subst (λ x. view (step x d).store u.task_id ≡ some (given_up u)) (sym same)
          (step_self u d con stale v) in
      sweep-Settled ts (step t d) u.task_id (step-Consistent t d con)
        (subst Settled (sym one) (given_up-Settled u))
      ∙ one

  sweep-given_up :
      (u : TaskRecord) (ts : List TaskRecord) (d : Daemon)
      → Consistent d.store
      → Only u ts
      → Member u ts
      → is_stale c now d.active_tasks u ≡ true
      → view d.store u.task_id ≡ some u
      → view (sweep ts d).store u.task_id ≡ some (given_up u)
  unfolding sweep_stale_running
  sweep-given_up u [] d con only m stale v = elim m [ ]
  sweep-given_up u (_ ∷ ts) d con only here stale v = sweep-first u u ts d con refl stale v
  sweep-given_up u (t ∷ ts) d con only (there m) stale v =
      elim (text_discrete t.task_id u.task_id) [
        | yes same ↦ sweep-first u t ts d con (only.0 same) stale v
        | no differs ↦
            sweep-given_up u ts (step t d) (step-Consistent t d con) only.1 m
              (ap (λ a. is_stale c now a u) (step-active t d) ∙ stale)
              (step-Settled t d u.task_id con (inr differs) ∙ v)
      ]

  sweep-Consistent :
      (ts : List TaskRecord) (d : Daemon) → Consistent d.store → Consistent (sweep ts d).store
  unfolding sweep_stale_running
  sweep-Consistent [] d con = con
  sweep-Consistent (t ∷ ts) d con = sweep-Consistent ts (step t d) (step-Consistent t d con)

  sweep-active : (ts : List TaskRecord) (d : Daemon) → (sweep ts d).active_tasks ≡ d.active_tasks
  unfolding sweep_stale_running
  sweep-active [] d = refl
  sweep-active (t ∷ ts) d = sweep-active ts (step t d) ∙ step-active t d

  abbrev pub swept_record : List String → Option TaskRecord → Option TaskRecord
  swept_record active none = none
  swept_record active (some t) = if is_stale c now active t then some (given_up t) else some t

  abbrev listed : Daemon → Daemon
  listed d = record d { store = (list_tasks now d.store).1 }

  abbrev pub swept : Daemon → Daemon
  swept d = sweep (list_tasks now d.store).0 (listed d)

  pub swept-active : (d : Daemon) → (swept d).active_tasks ≡ d.active_tasks
  swept-active d = sweep-active (list_tasks now d.store).0 (listed d)

  Only-listed :
      (d : Daemon) (t : TaskRecord)
      → Consistent d.store
      → view d.store t.task_id ≡ some t
      → Only t (list_tasks now d.store).0
  Only-listed d t con v =
      All-map (λ u. view d.store u.task_id ≡ some u) _ _ (λ u e same. one_record u e same)
        (list_tasks_sound now d.store con)
    where
      one_record :
          (u : TaskRecord) → view d.store u.task_id ≡ some u → u.task_id ≡ t.task_id → u ≡ t
      one_record u e same = let both : some u ≡ some t = sym e ∙ ap (view d.store) same ∙ v in cc

  swept-some :
      (d : Daemon) (t : TaskRecord)
      → Consistent d.store
      → view d.store t.task_id ≡ some t
      → view (swept d).store t.task_id ≡ swept_record d.active_tasks (some t)
  swept-some d t con v =
      let con' = list_tasks-Consistent now d.store con in
      let v' = view-list_tasks now d.store t.task_id ∙ v in
      let only = Only-listed d t con v in
      elim (Bool-cases (is_stale c now d.active_tasks t)) [
        | inl e ↦ rw e (
            sweep-given_up t (list_tasks now d.store).0 (listed d) con' only
              (list_tasks_complete now d.store t.task_id t con v) e v')
        | inr e ↦ rw e (sweep-kept t (list_tasks now d.store).0 (listed d) con' only e ∙ v')
      ]

  no_record : {o : Option TaskRecord} → o ≡ none → Settled o
  unfolding Settled
  no_record e x e' = cc

  -- On a consistent queue, the sweep of a tick over the tasks just listed: a task that the queue
  -- holds as running, that this process does not run, and that was started at least the cutoff ago,
  -- becomes failed. Each other task keeps its record.
  pub sweep-view :
      (d : Daemon) (j : String)
      → Consistent d.store
      → Consistent (swept d).store
        × (view (swept d).store j ≡ swept_record d.active_tasks (view d.store j))
  sweep-view d j con = (
    sweep-Consistent (list_tasks now d.store).0 (listed d) (list_tasks-Consistent now d.store con),
    elim (Option-cases (view d.store j)) [
      | inl e ↦ missing e
      | inr (t, e) ↦ present t e (con.named t.status j t (at_view con j t e)).0
    ],
  )
    where
      here_before : view (listed d).store j ≡ view d.store j
      here_before = view-list_tasks now d.store j

      missing :
          view d.store j ≡ none
          → view (swept d).store j ≡ swept_record d.active_tasks (view d.store j)
      missing e =
          sweep-Settled (list_tasks now d.store).0 (listed d) j
            (list_tasks-Consistent now d.store con) (no_record (here_before ∙ e))
          ∙ here_before
          ∙ e
          ∙ sym (ap (swept_record d.active_tasks) e)

      present :
          (t : TaskRecord)
          → view d.store j ≡ some t
          → t.task_id ≡ j
          → view (swept d).store j ≡ swept_record d.active_tasks (view d.store j)
      present t e id =
          let e' = ap (view d.store) id ∙ e in
          subst (λ k. view (swept d).store k ≡ swept_record d.active_tasks (view d.store k)) id
            (swept-some d t con e' ∙ sym (ap (swept_record d.active_tasks) e'))

  -- On a consistent queue, the sweep of a tick changes no task that this process runs, however long
  -- it has run.
  pub sweep_spares :
      (d : Daemon) (j : String)
      → Consistent d.store
      → includes j d.active_tasks ≡ true
      → view (swept d).store j ≡ view d.store j
  sweep_spares d j con runs = (sweep-view d j con).1 ∙ spared (view d.store j) named
    where
      named : (t : TaskRecord) → view d.store j ≡ some t → t.task_id ≡ j
      named t e = (con.named t.status j t (at_view con j t e)).0

      spared :
          (o : Option TaskRecord)
          → ((t : TaskRecord) → o ≡ some t → t.task_id ≡ j)
          → swept_record d.active_tasks o ≡ o
      spared none h = refl
      spared (some t) h =
          let listed_active : includes t.task_id d.active_tasks ≡ true =
            subst (λ k. includes k d.active_tasks ≡ true) (sym (h t refl)) runs in
          ground (arith, listed_active)
