-- ===== src/Enqueue/Stores.antt =====
-- An enqueue on the queue alone: its tasks, and those that it marks as replaced.
use oh_my_github_runner.Prelude.{
  not, ℕ, String, ◌≡◌, refl, sym, ap, ◌∙◌, subst, inl, inr, ◌≢◌, Bool, true, false, ◌&&◌, ◌||◌,
  Option, none, some, List, [], ◌∷◌, arith, ite, if_pos, if_neg, text_discrete, any, any_of_Member,
  any_of_All, All-keep, Member-keep, All, Option-cases, Bool-cases, is, if◌then◌else◌,
}
use oh_my_github_runner.Prelude.Action.{Action, ok, err, not_queued, unknown_instruction}
use oh_my_github_runner.Task.{
  TaskStatus, queued, TaskRecord, TaskStatus-discrete, QueueTaskInput, has_same_source,
}
use oh_my_github_runner.Strategies.{StrategyPolicies, get_strategy, supersedes}
use oh_my_github_runner.Queue.{Store, record_at, find}
use oh_my_github_runner.Queue.Consistency.{Consistent, view, at_view}
use oh_my_github_runner.Queue.Transitions.{replaced, mark_superseded}
use oh_my_github_runner.Queue.Refinement.{Moves, moved, refused, mark_superseded-Moves}
use oh_my_github_runner.Queue.Listing as Listing
use oh_my_github_runner.Queue.Listing.{list_in_status, find_queued_by_source, or_else}
use oh_my_github_runner.Queue.Reads.{All-list, Member-list, list-Consistent, view-list}
use oh_my_github_runner.Queue.Fifo.{enqueue-Consistent, view-enqueue}
use oh_my_github_runner.Enqueue.{is_conflict}

-- The marks of the hook, without its other effects.
unfoldable pub supersede_store : String → String → ℕ → Store → Store
supersede_store old_id new_id now s = (mark_superseded old_id new_id now s).1

unfoldable pub supersede_all : String → ℕ → List TaskRecord → Store → Store
supersede_all new_id now [] s = s
supersede_all new_id now (old ∷ rest) s =
    supersede_all new_id now rest
      (if is_conflict new_id old then supersede_store old.task_id new_id now s else s)

abbrev pub enqueue_store_under :
    StrategyPolicies → QueueTaskInput → String → ℕ → Action Store TaskRecord
enqueue_store_under policies input new_id now s =
    let (task, inserted) = Listing.enqueue input new_id now s in
    let (conflicts, listed) = find_queued_by_source input.repo input.source now inserted in
    (
      ok task,
      if policies.supersede_on_same_source
          then supersede_all task.task_id now conflicts listed
          else inserted,
    )

unfoldable pub enqueue_store : QueueTaskInput → String → ℕ → Action Store TaskRecord
enqueue_store input new_id now s = elim (get_strategy input.instruction_id) [
  | none ↦ (err (unknown_instruction input.instruction_id), s)
  | some policies ↦ enqueue_store_under policies input new_id now s
]

-- A queued record that is replaced; any other stays.
abbrev pub replaced_record : ℕ → String → Option TaskRecord → Option TaskRecord
replaced_record now new_id none = none
replaced_record now new_id (some t) =
    ite (TaskStatus-discrete t.status queued) (some (replaced now new_id t)) (some t)

-- What the policy asks for the record of a task at an enqueue under `new_id`: a queued task of the
-- source, other than the new one and with a strategy that supersedes, is replaced by the new one.
abbrev pub policy : QueueTaskInput → String → ℕ → Option TaskRecord → Option TaskRecord
policy input new_id now none = none
policy input new_id now (some t) =
    if not (is (text_discrete t.task_id new_id))
      && supersedes (get_strategy t.instruction_id)
      && has_same_source t.repo t.source input.repo input.source
    then replaced_record now new_id (some t)
    else some t

module _ (new_id : String) (now : ℕ) where
  not_queued_same :
      (o : Option TaskRecord)
      → ((t : TaskRecord) → o ≡ some t → t.status ≢ queued)
      → replaced_record now new_id o ≡ o
  not_queued_same none h = refl
  not_queued_same (some t) h = ground (arith, h t refl)

  refused_same :
      (old_id : String) (s : Store) (j : String)
      → ((t : TaskRecord) → view s old_id ≡ some t → t.status ≢ queued)
      → ite (text_discrete old_id j) (replaced_record now new_id (view s j)) (view s j) ≡ view s j
  refused_same old_id s j missing = elim (text_discrete old_id j) [
    | yes same ↦
        rw (if_pos _ same) (
          not_queued_same (view s j) λ t e. missing t (subst (λ k. view s k ≡ some t) (sym same) e))
    | no differs ↦ rw (if_neg _ differs)
  ]

  supersede_effect :
      (old_id : String) (s : Store) (j : String)
      → Moves queued
          (replaced now new_id)
          (not_queued old_id)
          old_id
          s
          (mark_superseded old_id new_id now s)
      → Consistent (supersede_store old_id new_id now s)
        × (view (supersede_store old_id new_id now s) j
            ≡ ite (text_discrete old_id j) (replaced_record now new_id (view s j)) (view s j))
  unfolding supersede_store
  supersede_effect old_id s j (moved t v q e c after_view) = (c, ground (arith, after_view j))
  supersede_effect old_id s j (refused missing e c after_view) =
      (c, after_view j ∙ sym (refused_same old_id s j missing))

  -- A task that the loop over `olds` supersedes.
  abbrev targeted : List TaskRecord → String → Bool
  targeted olds j = any (λ u. is (text_discrete u.task_id j) && is_conflict new_id u) olds

  replaced_twice :
      (o : Option TaskRecord)
      → replaced_record now new_id (replaced_record now new_id o) ≡ replaced_record now new_id o
  replaced_twice none = refl
  replaced_twice (some t) = ground arith

  -- One more round of the loop on the record of one task.
  one_more :
      {P : Type 0} (d : Dec P) (later : Bool) (o : Option TaskRecord)
      → (let first = ite d (replaced_record now new_id o) o in
          if later then replaced_record now new_id first else first)
        ≡ (if is d && true || later then replaced_record now new_id o else o)
  one_more (yes p) true o = replaced_twice o
  one_more (yes p) false o = refl
  one_more (no p) true o = refl
  one_more (no p) false o = refl

  supersede_hit :
      (old : TaskRecord) (olds : List TaskRecord) (s : Store)
      → is_conflict new_id old ≡ true
      → supersede_all new_id now (old ∷ olds) s
        ≡ supersede_all new_id now olds (supersede_store old.task_id new_id now s)
  unfolding supersede_all
  supersede_hit old olds s e = rw e

  supersede_miss :
      (old : TaskRecord) (olds : List TaskRecord) (s : Store)
      → is_conflict new_id old ≡ false
      → supersede_all new_id now (old ∷ olds) s ≡ supersede_all new_id now olds s
  unfolding supersede_all
  supersede_miss old olds s e = rw e

  abbrev Effect : List TaskRecord → Store → String → Store → Type 0
  Effect olds s j r =
      Consistent r
      × (view r j ≡ (if targeted olds j then replaced_record now new_id (view s j) else view s j))

  supersede_all-Effect :
      (olds : List TaskRecord) (s : Store) (j : String)
      → Consistent s
      → Effect olds s j (supersede_all new_id now olds s)
  supersede_all-Effect [] s j c = (unfold supersede_all in c, unfold supersede_all in refl)
  supersede_all-Effect (old ∷ olds) s j c = elim (Bool-cases (is_conflict new_id old)) [
    | inl e ↦
        let (c', first) =
          supersede_effect old.task_id s j (mark_superseded-Moves old.task_id new_id now s c) in
        let (c'', rest) =
          supersede_all-Effect olds (supersede_store old.task_id new_id now s) j c' in
        subst (Effect (old ∷ olds) s j) (sym (supersede_hit old olds s e)) (
          c'',
          rest
              ∙ ap (λ o. if targeted olds j then replaced_record now new_id o else o) first
              ∙ rw e (one_more (text_discrete old.task_id j) (targeted olds j) (view s j)),
        )
    | inr e ↦
        let (c'', rest) = supersede_all-Effect olds s j c in
        subst (Effect (old ∷ olds) s j) (sym (supersede_miss old olds s e))
          (c'', rest ∙ ground (arith, e))
  ]

module _ (input : QueueTaskInput) (new_id : String) (now : ℕ) (s : Store) (c : Consistent s)
    (fresh : (at : TaskStatus) → find at (or_else input.task_id new_id) s ≡ none) where
  abbrev id : String
  id = or_else input.task_id new_id

  abbrev inserted : Store
  inserted = (Listing.enqueue input new_id now s).1

  abbrev new : TaskRecord
  new = (Listing.enqueue input new_id now s).0

  abbrev same_source : TaskRecord → Bool
  same_source t = has_same_source t.repo t.source input.repo input.source

  abbrev conflicts : List TaskRecord
  conflicts = (find_queued_by_source input.repo input.source now inserted).0

  pub inserted-Consistent : Consistent inserted
  inserted-Consistent = enqueue-Consistent input new_id now s c fresh

  abbrev hits : String → TaskRecord → Bool
  hits j u = is (text_discrete u.task_id j) && is_conflict id u

  abbrev Stored : TaskRecord → Type 0
  Stored u = record_at queued u.task_id inserted ≡ some u

  queued-Stored : All Stored (list_in_status queued now inserted).0
  queued-Stored = All-list Stored queued now inserted λ k u e.
      subst (λ i. record_at queued i inserted ≡ some u)
        (sym (inserted-Consistent.named queued k u e).0) e

  misses :
      (j : String) (t : TaskRecord)
      → record_at queued j inserted ≡ some t
      → is_conflict id t && same_source t ≡ false
      → (u : TaskRecord) → same_source u ≡ true
      → Stored u
      → hits j u ≡ false
  misses j t e miss u same stored = elim (text_discrete u.task_id j) [
    | no differs ↦ ground arith
    | yes e' ↦
        let one : some u ≡ some t = sym stored ∙ ap (λ k. record_at queued k inserted) e' ∙ e in
        let same_record : u ≡ t = (cc one) in
        subst (λ v. hits j v ≡ false) (sym same_record)
          (ground (arith, subst (λ v. same_source v ≡ true) same_record same))
  ]

  -- A queued task is targeted just if the policy says so.
  targeted_decides :
      (j : String) (t : TaskRecord)
      → record_at queued j inserted ≡ some t
      → targeted id now conflicts j ≡ (is_conflict id t && same_source t)
  unfolding find_queued_by_source
  targeted_decides j t e = elim (Bool-cases (is_conflict id t && same_source t)) [
    | inl hit ↦
        any_of_Member (hits j)
          (Member-keep same_source (Member-list t queued j now inserted e) (ground arith))
          (ground (arith, inserted-Consistent.named queued j t e))
        ∙ sym hit
    | inr miss ↦
        any_of_All (hits j) conflicts
          (All-keep Stored (λ u. hits j u ≡ false) same_source _ (misses j t e miss) queued-Stored)
        ∙ sym miss
  ]

  policy_lem :
      (j : String)
      → (if targeted id now conflicts j
          then replaced_record now id (view inserted j)
          else view inserted j)
        ≡ policy input id now (view inserted j)
  policy_lem j = elim (Option-cases (view inserted j)) [
    | inl e ↦ ground (arith, e)
    | inr (t, e) ↦ elim (TaskStatus-discrete t.status queued) [
      | yes q ↦ ground (
        arith,
        e,
        targeted_decides j t
            (subst (λ st. record_at st j inserted ≡ some t) q (at_view inserted-Consistent j t e)),
      )
      | no differs ↦ ground (arith, e)
    ]
  ]

  policy-new_self : policy input id now (some new) ≡ some new
  unfolding Listing.enqueue
  policy-new_self = ground arith

  policy-ite :
      {P : Type 0} (d : Dec P) (o : Option TaskRecord)
      → policy input id now (ite d (some new) o) ≡ ite d (some new) (policy input id now o)
  policy-ite (yes p) o = policy-new_self
  policy-ite (no p) o = refl

  abbrev listed : Store
  listed = (find_queued_by_source input.repo input.source now inserted).1

  new-task_id : new.task_id ≡ id
  unfolding Listing.enqueue
  new-task_id = refl

  pub listed-Consistent : Consistent listed
  unfolding find_queued_by_source
  listed-Consistent = list-Consistent queued now inserted inserted-Consistent

  pub view-listed : (j : String) → view listed j ≡ view inserted j
  unfolding find_queued_by_source
  view-listed j = view-list queued now inserted j

  enqueue_runs :
      supersedes (get_strategy input.instruction_id) ≡ true
      → enqueue_store input new_id now s ≡ (ok new, supersede_all id now conflicts listed)
  unfolding enqueue_store
  enqueue_runs on = elim (Option-cases (get_strategy input.instruction_id)) [
    | inl e ↦ ground (arith, e)
    | inr (p, e) ↦ rw (e, enqueue_store) (ground (arith, rw e at on, new-task_id))
  ]

  -- On a consistent queue, and under an id that has no file yet, an enqueue of a superseding
  -- strategy returns the new task. Each queued task of the same source whose strategy supersedes is
  -- marked as replaced by it; a running task, a finished one, a task of another source, and one
  -- whose strategy does not supersede_store keep their records.
  pub enqueue_store-view :
      supersedes (get_strategy input.instruction_id) ≡ true
      → (j : String)
      → ((enqueue_store input new_id now s).0 ≡ ok new)
        × (view (enqueue_store input new_id now s).1 j
            ≡ ite (text_discrete id j) (some new) (policy input id now (view s j)))
  enqueue_store-view on j =
      let effect =
        supersede_all-Effect id now conflicts listed j (
          unfold find_queued_by_source in
          list-Consistent queued now inserted inserted-Consistent) in
      (
        ap (λ r. r.0) (enqueue_runs on),
        ap (λ r. view r.1 j) (enqueue_runs on)
            ∙ effect.1
            ∙ ap (λ o. if targeted id now conflicts j then replaced_record now id o else o)
                (view-listed j)
            ∙ policy_lem j
            ∙ ap (policy input id now) (view-enqueue input new_id now s c fresh j).1
            ∙ policy-ite (text_discrete id j) (view s j),
      )
