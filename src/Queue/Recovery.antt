-- ===== src/Queue/Recovery.antt =====
-- `recoverRunningTasks` of file-queue-store.ts, on the view.
use oh_my_github_runner.Prelude.{
  ℕ, String, ◌≡◌, refl, sym, ◌∙◌, subst, inl, inr, ◌≢◌, Option, none, some, List, [], ◌∷◌, arith,
  ite, text_discrete, All, All-Member, Member, here, there, Option-cases,
}
use oh_my_github_runner.Task.{
  TaskStatus, queued, running, succeeded, failed, superseded, TaskRecord, TaskStatus-discrete,
}
use oh_my_github_runner.Queue.{Store, File, find, record_at, file_of, relocate}
use oh_my_github_runner.Queue.Files.{find-relocate}
use oh_my_github_runner.Queue.Consistency.{Consistent, view, elsewhere, view_at, at_view}
use oh_my_github_runner.Queue.Listing.{list_in_status}
use oh_my_github_runner.Queue.Reads.{
  list-Consistent, view-list, record_at-list, All-list, Member-list,
}
use oh_my_github_runner.Queue.Sweeps.{interrupted, recover_each, recover_running_tasks}

module _ (error_summary : String) (now : ℕ) where
  abbrev moved_file : TaskRecord → File
  moved_file t = file_of (interrupted error_summary now t) now

  -- What the loop has done to the files of one task.
  pub data Outcome (ts : List TaskRecord) (s r : Store) (j : String) : Type 0 where
    untouched :
        All (λ t. t.task_id ≢ j) ts
        → ((at : TaskStatus) → find at j r ≡ find at j s)
        → Outcome ts s r j
    recovered :
        (t : TaskRecord)
        → Member t ts
        → t.task_id ≡ j
        → ((at : TaskStatus)
            → find at j r
              ≡ ite
                  (TaskStatus-discrete failed at)
                  (some (moved_file t))
                  (ite (TaskStatus-discrete running at) none (find at j s)))
        → Outcome ts s r j

  Outcome-cons :
      (t : TaskRecord) (ts : List TaskRecord) (s r : Store) (j : String)
      → Outcome ts (relocate (interrupted error_summary now t) running now s) r j
      → Outcome (t ∷ ts) s r j
  Outcome-cons t ts s r j (untouched others same) = elim (text_discrete t.task_id j) [
    | yes e ↦ recovered t here e λ at.
        ground (arith, same at, find-relocate (interrupted error_summary now t) running now s at j)
    | no differs ↦
        untouched (differs, others)
          λ at.
            ground
              (arith, same at, find-relocate (interrupted error_summary now t) running now s at j)
  ]
  Outcome-cons t ts s r j (recovered u m e there_at) = recovered u (there m) e λ at.
      ground
        (arith, there_at at, find-relocate (interrupted error_summary now t) running now s at j)

  pub recover_each-Outcome :
      (ts : List TaskRecord) (s : Store) (j : String)
      → Outcome ts s (recover_each error_summary now ts s) j
  unfolding recover_each
  recover_each-Outcome [] s j = untouched tt (λ at. refl)
  recover_each-Outcome (t ∷ ts) s j =
      Outcome-cons t ts s _ j
        (recover_each-Outcome ts (relocate (interrupted error_summary now t) running now s) j)

  -- What recovery makes of the record of a task.
  abbrev pub recovered_record : Option TaskRecord → Option TaskRecord
  recovered_record none = none
  recovered_record (some t) =
      ite (TaskStatus-discrete t.status running) (some (interrupted error_summary now t)) (some t)

  module _ (s : Store) (c : Consistent s) where
    abbrev listed : List TaskRecord × Store
    listed = list_in_status running now s

    abbrev recovery : Store
    recovery = recover_running_tasks error_summary now s

    listed_running : All (λ t. record_at running t.task_id s ≡ some t) listed.0
    listed_running =
        All-list _ running now s
          λ id t e. subst (λ k. record_at running k s ≡ some t) (sym (c.named running id t e).0) e

    recovery-Outcome : (j : String) → Outcome listed.0 listed.1 recovery j
    unfolding recover_running_tasks
    recovery-Outcome j = recover_each-Outcome listed.0 listed.1 j

    same_view :
        (j : String)
        → ((at : TaskStatus) → find at j recovery ≡ find at j listed.1)
        → view recovery j ≡ view listed.1 j
    same_view j same =
        ground (arith, same queued, same running, same succeeded, same failed, same superseded)

    not_running :
        (j : String) (t : TaskRecord)
        → All (λ u. u.task_id ≢ j) listed.0
        → view s j ≡ some t
        → t.status ≢ running
    not_running j t others v e =
        let at_running = subst (λ st. record_at st j s ≡ some t) e (at_view c j t v) in
        All-Member (λ u. u.task_id ≢ j) others (Member-list t running j now s at_running)
          (c.named running j t at_running).0

    view_untouched :
        (j : String)
        → All (λ t. t.task_id ≢ j) listed.0
        → ((at : TaskStatus) → find at j recovery ≡ find at j listed.1)
        → view recovery j ≡ recovered_record (view s j)
    view_untouched j others same = elim (Option-cases (view s j)) [
      | inl e ↦ same_view j same ∙ view-list running now s j ∙ ground (arith, e)
      | inr (t, e) ↦
          same_view j same ∙ view-list running now s j ∙ ground (arith, e, not_running j t others e)
    ]

    view_recovered :
        (j : String) (t : TaskRecord)
        → record_at running j s ≡ some t
        → ((at : TaskStatus)
            → find at j recovery
              ≡ ite
                  (TaskStatus-discrete failed at)
                  (some (moved_file t))
                  (ite (TaskStatus-discrete running at) none (find at j listed.1)))
        → view recovery j ≡ recovered_record (view s j)
    view_recovered j t e there_at =
        let c' = list-Consistent running now s c in
        let e' = record_at-list running now s running j ∙ e in
        rw (view_at c running j t e) (
          ground (
            arith,
            there_at queued,
            there_at running,
            there_at succeeded,
            there_at failed,
            there_at superseded,
            elsewhere c' running queued j t e' (λ p. cc),
            elsewhere c' running succeeded j t e' (λ p. cc),
            elsewhere c' running superseded j t e' (λ p. cc),
            (c.named running j t e).1,
          ))

    -- On a consistent queue, recovery turns each running task into a failed one with the given
    -- summary, and changes no other task.
    pub view-recover : (j : String) → view recovery j ≡ recovered_record (view s j)
    view-recover j = conclude (recovery-Outcome j)
      where
        conclude :
            Outcome listed.0 listed.1 recovery j → view recovery j ≡ recovered_record (view s j)
        conclude (untouched others same) = view_untouched j others same
        conclude (recovered t m e there_at) =
            view_recovered j t
              (subst (λ k. record_at running k s ≡ some t) e
                (All-Member (λ u. record_at running u.task_id s ≡ some u) listed_running m))
              there_at

    Outcome-named :
        (j : String)
        → Outcome listed.0 listed.1 recovery j
        → (at : TaskStatus) (t : TaskRecord) → record_at at j recovery ≡ some t
        → (t.task_id ≡ j) × (t.status ≡ at)
    Outcome-named j (untouched others same) at t h =
        ground (arith, same at, (list-Consistent running now s c).named at j t)
    Outcome-named j (recovered u m e there_at) at t h =
        ground (arith, there_at at, (list-Consistent running now s c).named at j t)

    -- A recovered task has one file, under `failed`.
    only_failed :
        (j : String) (u : TaskRecord)
        → record_at running j s ≡ some u
        → ((at : TaskStatus)
            → find at j recovery
              ≡ ite
                  (TaskStatus-discrete failed at)
                  (some (moved_file u))
                  (ite (TaskStatus-discrete running at) none (find at j listed.1)))
        → (a : TaskStatus) (f : File) → find a j recovery ≡ some f
        → failed ≡ a
    only_failed j u e there_at a f h =
        let c' = list-Consistent running now s c in
        let e' = record_at-list running now s running j ∙ e in
        ground (arith, there_at a, elsewhere c' running a j u e')

    Outcome-alone :
        (j : String)
        → Outcome listed.0 listed.1 recovery j
        → (a b : TaskStatus) (f g : File) → find a j recovery ≡ some f
        → find b j recovery ≡ some g
        → a ≡ b
    Outcome-alone j (untouched others same) a b f g h h' =
        (list-Consistent running now s c).alone a b j f g (sym (same a) ∙ h) (sym (same b) ∙ h')
    Outcome-alone j (recovered u m e there_at) a b f g h h' =
        let e' =
          subst (λ k. record_at running k s ≡ some u) e
            (All-Member (λ v. record_at running v.task_id s ≡ some v) listed_running m) in
        sym (only_failed j u e' there_at a f h) ∙ only_failed j u e' there_at b g h'

    pub recover-Consistent : Consistent recovery
    recover-Consistent = record {
      named = λ at j t h. Outcome-named j (recovery-Outcome j) at t h;
      alone = λ a b j f g h h'. Outcome-alone j (recovery-Outcome j) a b f g h h';
    }
