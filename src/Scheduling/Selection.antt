-- ===== src/Scheduling/Selection.antt =====
-- The tasks that `selectNextTasks` returns: their number, their tools and their order.
use oh_my_github_runner.Prelude.{
  ℕ, zero, suc, ◌-◌, ◌≤◌, ◌<◌, String, ◌≡◌, ◌⊎◌, inl, inr, true, false, ◌||◌, List, [], ◌∷◌, ◌++◌,
  arith, length, All-map, keep, meets, meets-Disjoint, includes, includes-append, All, Disjoint,
  Picks, done, kept, skip, Picks-nil, Bool-cases,
}
use oh_my_github_runner.Task.{TaskRecord, has_status, queued, running}
use oh_my_github_runner.Scheduling.{global_tools, claimed, pick, select_tasks}

module _ (tools_for_task : TaskRecord → List String) where
  pick-length-le :
      (paused : List String) (slots : ℕ) (in_flight : List String) (ts : List TaskRecord)
      → length (pick tools_for_task paused slots in_flight ts) ≤ slots
  unfolding pick
  pick-length-le paused slots in_flight [] = omega arith
  pick-length-le paused zero in_flight (t ∷ ts) = omega arith
  pick-length-le paused (suc slots) in_flight (t ∷ ts) = ground (
    arith,
    pick-length-le paused (suc slots) in_flight ts,
    pick-length-le paused slots (in_flight ++ tools_for_task t) ts,
  )

  abbrev active : List TaskRecord → List TaskRecord
  active = keep (has_status running)

  abbrev waiting : List TaskRecord → List TaskRecord
  waiting = keep (has_status queued)

  -- Nothing is selected, or no global tool is paused, the budget has room, and `pick` chose.
  pub select_cases :
      (tasks : List TaskRecord) (max_concurrency : ℕ) (paused : List String)
      → (select_tasks tools_for_task tasks max_concurrency paused ≡ [])
        ⊎ (meets global_tools paused ≡ false)
          × (length (active tasks) < max_concurrency)
          × (select_tasks tools_for_task tasks max_concurrency paused
              ≡ pick tools_for_task paused
                  (max_concurrency - length (active tasks))
                  (claimed tools_for_task (active tasks))
                  (waiting tasks))
  unfolding select_tasks
  select_cases tasks max_concurrency paused = ground arith

  -- The selected and the running tasks together stay within the concurrency budget, unless the
  -- running tasks alone exceed it; then nothing is selected.
  pub select_within_budget :
      (tasks : List TaskRecord) (max_concurrency : ℕ) (paused : List String)
      → length (select_tasks tools_for_task tasks max_concurrency paused)
        ≤ max_concurrency - length (active tasks)
  select_within_budget tasks max_concurrency paused = ground (
    arith,
    select_cases tasks max_concurrency paused,
    pick-length-le paused (max_concurrency - length (active tasks))
        (claimed tools_for_task (active tasks)) (waiting tasks),
  )

  pick-Picks :
      (paused : List String) (slots : ℕ) (in_flight : List String) (ts : List TaskRecord)
      → Picks (pick tools_for_task paused slots in_flight ts) ts
  unfolding pick
  pick-Picks paused slots in_flight [] = done
  pick-Picks paused zero in_flight (t ∷ ts) = Picks-nil (t ∷ ts)
  pick-Picks paused (suc slots) in_flight (t ∷ ts) =
      elim (Bool-cases (meets (tools_for_task t) paused || meets (tools_for_task t) in_flight)) [
        | inl e ↦ rw e (skip (pick-Picks paused (suc slots) in_flight ts))
        | inr e ↦ rw e (kept (pick-Picks paused slots (in_flight ++ tools_for_task t) ts))
      ]

  -- The selection is the queue with some tasks left out, in the order of the queue.
  pub select-Picks :
      (tasks : List TaskRecord) (max_concurrency : ℕ) (paused : List String)
      → Picks (select_tasks tools_for_task tasks max_concurrency paused) (waiting tasks)
  select-Picks tasks max_concurrency paused = elim (select_cases tasks max_concurrency paused) [
    | inl e ↦ rw e (Picks-nil (waiting tasks))
    | inr (_, _, e) ↦ rw e (pick-Picks paused _ _ (waiting tasks))
  ]

  Clear : List String → List TaskRecord → Type 0
  Clear busy ts = All (λ t. Disjoint (tools_for_task t) busy) ts

  pick-unpaused :
      (paused : List String) (slots : ℕ) (in_flight : List String) (ts : List TaskRecord)
      → Clear paused (pick tools_for_task paused slots in_flight ts)
  unfolding pick Clear
  pick-unpaused paused slots in_flight [] = tt
  pick-unpaused paused zero in_flight (t ∷ ts) = tt
  pick-unpaused paused (suc slots) in_flight (t ∷ ts) =
      elim (Bool-cases (meets (tools_for_task t) paused || meets (tools_for_task t) in_flight)) [
        | inl e ↦ rw e (pick-unpaused paused (suc slots) in_flight ts)
        | inr e ↦ rw e (
          meets-Disjoint (tools_for_task t) paused (ground arith),
          pick-unpaused paused slots (in_flight ++ tools_for_task t) ts,
        )
      ]

  global-Disjoint :
      (tool : String) (paused : List String)
      → includes tool paused ≡ true
      → meets global_tools paused ≡ false
      → includes tool global_tools ≡ false
  unfolding includes
  global-Disjoint tool paused h g = ground arith

  -- While a tool is paused, no selected task uses it; a global tool counts as used by every task,
  -- so while one is paused nothing is selected.
  pub select_avoids_paused :
      (tasks : List TaskRecord) (max_concurrency : ℕ) (paused : List String) (tool : String)
      → includes tool paused ≡ true
      → All
          (λ t. includes tool (global_tools ++ tools_for_task t) ≡ false)
          (select_tasks tools_for_task tasks max_concurrency paused)
  unfolding Clear
  select_avoids_paused tasks max_concurrency paused tool h =
      elim (select_cases tasks max_concurrency paused) [
        | inl e ↦ rw e tt
        | inr (g, _, e) ↦ rw e (
            All-map (λ t. Disjoint (tools_for_task t) paused) _ _
              (λ t d. ground (
                arith,
                includes-append tool global_tools (tools_for_task t),
                global-Disjoint tool paused,
                d tool,
              ))
              (pick-unpaused paused _ _ (waiting tasks)))
      ]
