-- ===== src/Scheduling/Exclusion.antt =====
-- The tools in flight in `selectNextTasks`, and the tasks that it leaves out.
use mathlib.Core.List.{append_assoc}
use oh_my_github_runner.Prelude.{
  includes-append, ℕ, zero, suc, ◌-◌, ◌<◌, String, ◌≡◌, sym, subst, ◌⊎◌, inl, inr, true, false,
  ◌||◌, List, [], ◌∷◌, ◌++◌, arith, length, keep, meets, meets-Disjoint, Within, Within-append_left,
  Within-append_right, All, All-map, Disjoint, Bool-cases, meets-append_left, Member-keep, Member,
  here, there,
}
use oh_my_github_runner.Task.{TaskRecord, has_status, queued, running}
use oh_my_github_runner.Scheduling.{global_tools, claimed, pick, select_tasks}
use oh_my_github_runner.Scheduling.Selection.{select_cases}

module _ (tools_for_task : TaskRecord → List String) where
  -- Each task shares no tool with `busy` nor with a later task.
  abbrev pub Apart : List String → List TaskRecord → Type 0
  Apart busy [] = Unit
  Apart busy (t ∷ ts) =
      Disjoint (tools_for_task t) busy
      × All (λ u. Disjoint (tools_for_task t) (tools_for_task u)) ts
      × Apart busy ts

  -- The same by the tools taken so far.
  Stacked : List String → List TaskRecord → Type 0
  Stacked busy [] = Unit
  Stacked busy (t ∷ ts) = Disjoint (tools_for_task t) busy × Stacked (busy ++ tools_for_task t) ts

  pick-Stacked :
      (paused : List String) (slots : ℕ) (in_flight : List String) (ts : List TaskRecord)
      → Stacked in_flight (pick tools_for_task paused slots in_flight ts)
  unfolding pick Stacked
  pick-Stacked paused slots in_flight [] = tt
  pick-Stacked paused zero in_flight (t ∷ ts) = tt
  pick-Stacked paused (suc slots) in_flight (t ∷ ts) =
      elim (Bool-cases (meets (tools_for_task t) paused || meets (tools_for_task t) in_flight)) [
        | inl e ↦ rw e (pick-Stacked paused (suc slots) in_flight ts)
        | inr e ↦ rw e (
          meets-Disjoint (tools_for_task t) in_flight (ground arith),
          pick-Stacked paused slots (in_flight ++ tools_for_task t) ts,
        )
      ]

  Stacked-clear :
      (a busy : List String) (ts : List TaskRecord)
      → Within a busy
      → Stacked busy ts
      → All (λ u. Disjoint a (tools_for_task u)) ts
  unfolding Stacked
  Stacked-clear a busy [] w h = tt
  Stacked-clear a busy (t ∷ ts) w h = (
    λ x m. ground (arith, w x m, h.0 x),
    Stacked-clear a (busy ++ tools_for_task t) ts (Within-append_left a busy (tools_for_task t) w)
        h.1,
  )

  Stacked-Apart :
      (a busy : List String) (ts : List TaskRecord) → Within a busy → Stacked busy ts → Apart a ts
  unfolding Stacked
  Stacked-Apart a busy [] w h = tt
  Stacked-Apart a busy (t ∷ ts) w h = (
    λ x m. ground (arith, w x, h.0 x m),
    Stacked-clear (tools_for_task t) (busy ++ tools_for_task t) ts
        (Within-append_right busy (tools_for_task t)) h.1,
    Stacked-Apart a (busy ++ tools_for_task t) ts (Within-append_left a busy (tools_for_task t) w)
        h.1,
  )

  -- A selected task shares no tool with a running task, nor with another selected task.
  pub select-Apart :
      (tasks : List TaskRecord) (max_concurrency : ℕ) (paused : List String)
      → Apart
          (claimed tools_for_task (keep (has_status running) tasks))
          (select_tasks tools_for_task tasks max_concurrency paused)
  select-Apart tasks max_concurrency paused =
      elim (select_cases tools_for_task tasks max_concurrency paused) [
        | inl e ↦ rw e tt
        | inr (_, _, e) ↦ rw e (Stacked-Apart _ _ _ (λ x m. m) (pick-Stacked paused _ _ _))
      ]

  -- Why a queued task that could have had a slot was not selected.
  abbrev pub Blocked : List String → List String → TaskRecord → Type 0
  Blocked paused busy t =
      (meets (tools_for_task t) paused ≡ true) ⊎ (meets (tools_for_task t) busy ≡ true)

  -- It was selected, or one of its tools is paused, running, or taken by a selected task.
  abbrev pub Served : List String → List String → List TaskRecord → TaskRecord → Type 0
  Served paused busy chosen t =
      Member t chosen ⊎ Blocked paused (busy ++ claimed tools_for_task chosen) t

  Served-skip :
      (paused busy : List String) (t : TaskRecord) (chosen : List TaskRecord)
      → meets (tools_for_task t) paused || meets (tools_for_task t) busy ≡ true
      → Served paused busy chosen t
  Served-skip paused busy t chosen e =
      ground (arith, meets-append_left (tools_for_task t) busy (claimed tools_for_task chosen))

  Served-later :
      (paused busy : List String) (t : TaskRecord) (chosen : List TaskRecord) (u : TaskRecord)
      → Served paused (busy ++ tools_for_task t) chosen u
      → Served paused busy (t ∷ chosen) u
  Served-later paused busy t chosen u (inl m) = inl (there m)
  Served-later paused busy t chosen u (inr b) = inr (rw append_assoc at b)

  pick_skip :
      (paused : List String) (slots : ℕ) (in_flight : List String) (t : TaskRecord)
      (ts : List TaskRecord)
      → meets (tools_for_task t) paused || meets (tools_for_task t) in_flight ≡ true
      → pick tools_for_task paused (suc slots) in_flight (t ∷ ts)
        ≡ pick tools_for_task paused (suc slots) in_flight ts
  unfolding pick
  pick_skip paused slots in_flight t ts e = rw e

  pick_take :
      (paused : List String) (slots : ℕ) (in_flight : List String) (t : TaskRecord)
      (ts : List TaskRecord)
      → meets (tools_for_task t) paused || meets (tools_for_task t) in_flight ≡ false
      → pick tools_for_task paused (suc slots) in_flight (t ∷ ts)
        ≡ t ∷ pick tools_for_task paused slots (in_flight ++ tools_for_task t) ts
  unfolding pick
  pick_take paused slots in_flight t ts e = rw e

  pick_conserves :
      (paused : List String) (slots : ℕ) (in_flight : List String) (ts : List TaskRecord)
      → length (pick tools_for_task paused slots in_flight ts) < slots
      → All (Served paused in_flight (pick tools_for_task paused slots in_flight ts)) ts
  pick_conserves paused slots in_flight [] h = tt
  pick_conserves paused zero in_flight (t ∷ ts) h = absurd (omega arith)
  pick_conserves paused (suc slots) in_flight (t ∷ ts) h =
      elim (Bool-cases (meets (tools_for_task t) paused || meets (tools_for_task t) in_flight)) [
        | inl e ↦
            let step = pick_skip paused slots in_flight t ts e in
            subst (λ c. All (Served paused in_flight c) (t ∷ ts)) (sym step)
              (
                Served-skip paused in_flight t _ e,
                pick_conserves paused (suc slots) in_flight ts (rw step at h),
              )
        | inr e ↦
            let step = pick_take paused slots in_flight t ts e in
            let h' = rw step at h in
            subst (λ c. All (Served paused in_flight c) (t ∷ ts)) (sym step)
              (
                inl here,
                All-map _ _ ts (λ u. Served-later paused in_flight t _ u)
                    (pick_conserves paused slots (in_flight ++ tools_for_task t) ts (omega arith)),
              )
      ]

  select_picks :
      (tasks : List TaskRecord) (max_concurrency : ℕ) (paused : List String)
      → meets global_tools paused ≡ false
      → 0 < max_concurrency - length (keep (has_status running) tasks)
      → select_tasks tools_for_task tasks max_concurrency paused
        ≡ pick tools_for_task paused
            (max_concurrency - length (keep (has_status running) tasks))
            (claimed tools_for_task (keep (has_status running) tasks))
            (keep (has_status queued) tasks)
  unfolding select_tasks
  select_picks tasks max_concurrency paused g h = ground arith

  -- No slot stays idle without a reason: if no global tool is paused and the selection leaves part
  -- of the budget unused, each queued task is selected, or one of its tools is paused, or taken by
  -- a running or a selected task.
  pub select_conserves :
      (tasks : List TaskRecord) (max_concurrency : ℕ) (paused : List String)
      → meets global_tools paused ≡ false
      → length (select_tasks tools_for_task tasks max_concurrency paused)
        < max_concurrency - length (keep (has_status running) tasks)
      → All
          (Served paused
            (claimed tools_for_task (keep (has_status running) tasks))
            (select_tasks tools_for_task tasks max_concurrency paused))
          (keep (has_status queued) tasks)
  select_conserves tasks max_concurrency paused g h =
      let e = select_picks tasks max_concurrency paused g (omega arith) in
      rw e (pick_conserves paused _ _ _ (rw e at h))

  -- The tools of a running task are among those that a selection avoids.
  claimed-Within :
      (t : TaskRecord) {ts : List TaskRecord}
      → Member t ts
      → Within (tools_for_task t) (claimed tools_for_task ts)
  claimed-Within t (here {xs = ts}) x h =
      ground (arith, includes-append x (tools_for_task t) (claimed tools_for_task ts))
  claimed-Within t (there {x = u} {xs = ts} m) x h = ground (
    arith,
    includes-append x (tools_for_task u) (claimed tools_for_task ts),
    claimed-Within t m x h,
  )

  pub claimed_of :
      (t : TaskRecord) (ts : List TaskRecord)
      → Member t ts
      → has_status running t ≡ true
      → Within (tools_for_task t) (claimed tools_for_task (keep (has_status running) ts))
  claimed_of t ts m e = claimed-Within t (Member-keep (has_status running) m e)

  pub Apart-busy :
      (tools busy : List String) (ts : List TaskRecord)
      → Within tools busy
      → Apart busy ts
      → All (λ u. Disjoint tools (tools_for_task u)) ts
  Apart-busy tools busy [] w a = tt
  Apart-busy tools busy (t ∷ ts) w a =
      (λ x h. ground (arith, w x h, a.0 x), Apart-busy tools busy ts w a.2)
