-- ===== src/Enqueue/Told.antt =====
-- The tasks that an enqueue replaces, and the notices of their replacement.
use oh_my_github_runner.Prelude.{
  ℕ, String, ◌≡◌, refl, sym, ap, ◌∙◌, subst, Bool, true, false, ◌||◌, Option, none, some, List, [],
  ◌∷◌, ◌++◌, arith, text_discrete, if◌then◌else◌, map, append_assoc, All, any, is,
}
use oh_my_github_runner.Prelude.Action.{Result, not_queued}
use oh_my_github_runner.Task.{TaskStatus, queued, TaskRecord, QueueTaskInput}
use oh_my_github_runner.Strategies.{StrategyPolicies, get_strategy}
use oh_my_github_runner.Queue.{Store, find}
use oh_my_github_runner.Queue.Consistency.{Consistent, view, at_view}
use oh_my_github_runner.Queue.Transitions.{replaced}
use oh_my_github_runner.Queue.Refinement.{Moves, moved, refused, mark_superseded-Moves}
use oh_my_github_runner.Queue.Listing as Listing
use oh_my_github_runner.Queue.Listing.{find_queued_by_source, or_else}
use oh_my_github_runner.Daemon.{Daemon, on_superseded, supersede, superseded_end}
use oh_my_github_runner.Enqueue.{is_conflict, supersede_conflicts, enqueue}
use oh_my_github_runner.Enqueue.Stores.{
  replaced_record, inserted-Consistent, listed-Consistent, view-listed,
}

append-nil_lem {ℓ} : {A : Type ℓ} (xs : List A) → xs ≡ xs ++ []
append-nil_lem [] = refl
append-nil_lem (x ∷ xs) = ap (λ r. x ∷ r) (append-nil_lem xs)

map-append : {A B : Type 0} (f : A → B) (xs ys : List A) → map f (xs ++ ys) ≡ map f xs ++ map f ys
map-append f [] ys = refl
map-append f (x ∷ xs) ys = ap (λ r. f x ∷ r) (map-append f xs ys)

All-append : {A : Type 0} (P : A → Type 0) (xs ys : List A) → All P xs → All P ys → All P (xs ++ ys)
All-append P [] ys h k = k
All-append P (x ∷ xs) ys h k = (h.0, All-append P xs ys h.1 k)

All-map :
    {A : Type 0} (P Q : A → Type 0) (xs : List A) → ((a : A) → P a → Q a) → All P xs → All Q xs
All-map P Q [] f h = tt
All-map P Q (x ∷ xs) f h = (f x h.0, All-map P Q xs f h.1)

abbrev pub names : List TaskRecord → String → Bool
names told j = any (λ t. is (text_discrete t.task_id j)) told

names-append :
    (xs ys : List TaskRecord) (j : String) → names (xs ++ ys) j ≡ (names xs j || names ys j)
names-append [] ys j = refl
names-append (x ∷ xs) ys j = ground (arith, names-append xs ys j)

module _ (new_id : String) (now : ℕ) where
  -- The record that the queue had under the id of a told one, which was queued, and its replacement.
  abbrev pub IsReplaced : Store → TaskRecord → Type 0
  IsReplaced s t =
      (u : TaskRecord) × (view s t.task_id ≡ some u)
      × (u.status ≡ queued)
      × (t ≡ replaced now new_id u)

  -- Each task whose record was replaced was told of, once or more, and no other changed.
  pub record Told (d d' : Daemon) : Type 0 where
    pub told : List TaskRecord
    pub are_notices : d'.notices ≡ d.notices ++ map (λ t. on_superseded t new_id) told
    pub are_replaced : All (IsReplaced d.store) told
    pub is_consistent : Consistent d'.store
    pub is_view :
        (j : String)
        → view d'.store j
          ≡ (if names told j then replaced_record now new_id (view d.store j) else view d.store j)
    pub same_pauses : d'.pauses ≡ d.pauses
    pub same_active : d'.active_tasks ≡ d.active_tasks

  nothing-Told : (d : Daemon) → Consistent d.store → Told d d
  nothing-Told d c = record {
    told = [];
    are_notices = append-nil_lem d.notices;
    are_replaced = tt;
    is_consistent = c;
    is_view = λ j. refl;
    same_pauses = refl;
    same_active = refl;
  }

  ended-Told :
      (old_id : String) (d : Daemon) (r : Result TaskRecord × Store)
      → Consistent d.store
      → Moves queued (replaced now new_id) (not_queued old_id) old_id d.store r
      → Told d (superseded_end old_id new_id r.0 (record d { store = r.1 }))
  ended-Told old_id d r c (moved u v q e c' views) =
      let same_id : u.task_id ≡ old_id = (c.named u.status old_id u (at_view c old_id u v)).0 in
      subst (λ res. Told d (superseded_end old_id new_id res (record d { store = r.1 }))) (sym e)
        (record {
          told = replaced now new_id u ∷ [];
          are_notices = refl;
          are_replaced = ((u, ap (view d.store) same_id ∙ v, q, refl), tt);
          is_consistent = c';
          is_view = λ j. views j ∙ elim (text_discrete old_id j) [
            | yes same ↦ ground (arith, same, same_id, v, q, ap (view d.store) same)
            | no differs ↦ ground (arith, differs, same_id)
          ];
          same_pauses = refl;
          same_active = refl;
        })
  ended-Told old_id d r c (refused others e c' views) =
      subst (λ res. Told d (superseded_end old_id new_id res (record d { store = r.1 }))) (sym e)
        (record {
          told = [];
          are_notices = append-nil_lem d.notices;
          are_replaced = tt;
          is_consistent = c';
          is_view = views;
          same_pauses = refl;
          same_active = refl;
        })

  pub supersede-Told :
      (old_id : String) (d : Daemon) → Consistent d.store → Told d (supersede old_id new_id now d)
  unfolding supersede
  supersede-Told old_id d c =
      ended-Told old_id d _ c (mark_superseded-Moves old_id new_id now d.store c)

  replaced_twice :
      (o : Option TaskRecord)
      → replaced_record now new_id (replaced_record now new_id o) ≡ replaced_record now new_id o
  replaced_twice none = refl
  replaced_twice (some t) = ground arith

  both_views :
      (a b : Bool) (o : Option TaskRecord)
      → (let first = if a then replaced_record now new_id o else o in
          if b then replaced_record now new_id first else first)
        ≡ (if a || b then replaced_record now new_id o else o)
  both_views true true o = replaced_twice o
  both_views true false o = refl
  both_views false true o = refl
  both_views false false o = refl

  not_replaced :
      (a : Bool) (o : Option TaskRecord) (u : TaskRecord)
      → (if a then replaced_record now new_id o else o) ≡ some u
      → u.status ≡ queued
      → o ≡ some u
  not_replaced false o u e q = e
  not_replaced true none u e q = e
  not_replaced true (some t) u e q = ground (arith, e, q)

  after-Told : (d d1 d2 : Daemon) → Told d d1 → Told d1 d2 → Told d d2
  after-Told d d1 d2 h k = record {
    told = h.told ++ k.told;
    are_notices =
        k.are_notices
        ∙ ap (λ n. n ++ map (λ t. on_superseded t new_id) k.told) h.are_notices
        ∙ append_assoc d.notices _ _
        ∙ ap (λ n. d.notices ++ n) (sym (map-append _ h.told k.told));
    are_replaced = All-append (IsReplaced d.store) h.told k.told h.are_replaced (
        All-map (IsReplaced d1.store) (IsReplaced d.store) k.told
          (λ t (u, v, q, e).
            (u, not_replaced (names h.told t.task_id) _ u (sym (h.is_view t.task_id) ∙ v) q, q, e))
          k.are_replaced);
    is_consistent = k.is_consistent;
    is_view = λ j.
        k.is_view j
        ∙ ap (λ o. if names k.told j then replaced_record now new_id o else o) (h.is_view j)
        ∙ both_views (names h.told j) (names k.told j) (view d.store j)
        ∙ ap (λ b. if b then replaced_record now new_id (view d.store j) else view d.store j)
            (sym (names-append h.told k.told j));
    same_pauses = k.same_pauses ∙ h.same_pauses;
    same_active = k.same_active ∙ h.same_active;
  }

  choice-Told :
      (hit : Bool) (old_id : String) (d : Daemon)
      → Consistent d.store
      → Told d (if hit then supersede old_id new_id now d else d)
  choice-Told true old_id d c = supersede-Told old_id d c
  choice-Told false old_id d c = nothing-Told d c

  pub conflicts-Told :
      (olds : List TaskRecord) (d : Daemon)
      → Consistent d.store
      → Told d (supersede_conflicts new_id now olds d)
  unfolding supersede_conflicts
  conflicts-Told [] d c = nothing-Told d c
  conflicts-Told (old ∷ olds) d c =
      let first = choice-Told (is_conflict new_id old) old.task_id d c in
      after-Told d _ _ first (conflicts-Told olds _ first.is_consistent)

module _ (input : QueueTaskInput) (new_id : String) (now : ℕ) (d : Daemon) (c : Consistent d.store)
    (fresh : (at : TaskStatus) → find at (or_else input.task_id new_id) d.store ≡ none) where
  abbrev pub id : String
  id = or_else input.task_id new_id

  abbrev inserted : Store
  inserted = (Listing.enqueue input new_id now d.store).1

  abbrev listed : Store
  listed = (find_queued_by_source input.repo input.source now inserted).1

  -- What an enqueue under a known strategy does after the new task is written.
  abbrev pub AfterInsert : Daemon → Type 0
  AfterInsert d' =
      (s : Store) × ((j : String) → view s j ≡ view inserted j)
      × Told id now (record d { store = s }) d'

  choice-AfterInsert :
      (on : Bool) (conflicts : List TaskRecord)
      → AfterInsert (
          if on
          then supersede_conflicts id now conflicts (record d { store = listed })
          else record d { store = inserted })
  choice-AfterInsert true conflicts = (
    listed,
    view-listed input new_id now d.store c fresh,
    conflicts-Told id now conflicts (record d { store = listed })
        (listed-Consistent input new_id now d.store c fresh),
  )
  choice-AfterInsert false conflicts = (
    inserted,
    λ j. refl,
    nothing-Told id now (record d { store = inserted })
        (inserted-Consistent input new_id now d.store c fresh),
  )

  pub enqueue-AfterInsert :
      (policies : StrategyPolicies)
      → get_strategy input.instruction_id ≡ some policies
      → AfterInsert (enqueue input new_id now d).1
  unfolding enqueue Listing.enqueue
  enqueue-AfterInsert policies e =
      rw (e, enqueue)
        (choice-AfterInsert policies.supersede_on_same_source
          (find_queued_by_source input.repo input.source now inserted).0)

  pub enqueue-unknown :
      get_strategy input.instruction_id ≡ none → (enqueue input new_id now d).1 ≡ d
  unfolding enqueue
  enqueue-unknown e = rw (e, enqueue) refl
