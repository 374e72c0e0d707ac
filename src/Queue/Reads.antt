-- ===== src/Queue/Reads.antt =====
-- What a scan of a directory returns, as a function of the files.
use oh_my_github_runner.Prelude.{
  ℕ, String, ◌≡◌, refl, sym, ap, ◌∙◌, subst, fun_ext, inl, inr, true, Option, none, some, List, [],
  ◌∷◌, arith, text_discrete, includes, All, Bool-cases, leb, Member, here, there, Option-cases,
}
use oh_my_github_runner.Prelude.Assoc.{includes-keys, lookup, keys}
use oh_my_github_runner.Task.{TaskStatus, TaskRecord}
use oh_my_github_runner.Queue.{Store, find, record_at, try_read_task_file}
use oh_my_github_runner.Queue.Consistency.{
  Consistent, view, try_read-Consistent, record_at-try_read, try_read-some, try_read-none,
}
use oh_my_github_runner.Queue.Listing.{
  cons_some, read_each, sort_by_created, insert_by_created, list_in_status,
}

-- The records of the names that have one.
unfoldable pub gather : (String → Option TaskRecord) → List String → List TaskRecord
gather f [] = []
gather f (id ∷ ids) = cons_some (f id) (gather f ids)

try_read-record_at :
    (status : TaskStatus) (id : String) (now : ℕ) (s : Store)
    → (try_read_task_file status id now s).0 ≡ record_at status id s
try_read-record_at status id now s = elim (Option-cases (record_at status id s)) [
  | inl e ↦ try_read-none status id now s e ∙ sym e
  | inr (t, e) ↦ ground (arith, try_read-some status id now s t e)
]

read_each-gather :
    (status : TaskStatus) (now : ℕ) (ids : List String) (s : Store)
    → (read_each status now ids s).0 ≡ gather (λ id. record_at status id s) ids
unfolding read_each gather
read_each-gather status now [] s = refl
read_each-gather status now (id ∷ ids) s =
    let s' = (try_read_task_file status id now s).1 in
    rw (try_read-record_at status id now s) (
      ap (cons_some (record_at status id s)) (
        read_each-gather status now ids s'
        ∙ ap (λ f. gather f ids) (fun_ext (λ j. record_at-try_read status id now s status j))))

pub record_at-read_each :
    (status : TaskStatus) (now : ℕ) (ids : List String) (s : Store) (at : TaskStatus) (j : String)
    → record_at at j (read_each status now ids s).1 ≡ record_at at j s
unfolding read_each
record_at-read_each status now [] s at j = refl
record_at-read_each status now (id ∷ ids) s at j =
    record_at-read_each status now ids (try_read_task_file status id now s).1 at j
    ∙ record_at-try_read status id now s at j

pub list-gather :
    (status : TaskStatus) (now : ℕ) (s : Store)
    → (list_in_status status now s).0
      ≡ sort_by_created (gather (λ id. record_at status id s) (keys (s.dir status)))
unfolding list_in_status
list-gather status now s = ap sort_by_created (read_each-gather status now (keys (s.dir status)) s)

-- Sorting keeps the members.
module _ (P : TaskRecord → Type 0) where
  All-insert :
      (u : TaskRecord) (us : List TaskRecord) → P u → All P us → All P (insert_by_created u us)
  unfolding insert_by_created
  All-insert u [] p h = (p, tt)
  All-insert u (v ∷ us) p h = elim (Bool-cases (leb u.created_at v.created_at)) [
    | inl e ↦ rw e (p, h)
    | inr e ↦ rw e (h.0, All-insert u us p h.1)
  ]

  All-sort : (ts : List TaskRecord) → All P ts → All P (sort_by_created ts)
  unfolding sort_by_created
  All-sort [] h = tt
  All-sort (t ∷ ts) h = All-insert t (sort_by_created ts) h.0 (All-sort ts h.1)

  pub All-gather :
      (f : String → Option TaskRecord) (ids : List String)
      → ((id : String) (t : TaskRecord) → f id ≡ some t → P t)
      → All P (gather f ids)
  unfolding gather
  All-gather f [] h = tt
  All-gather f (id ∷ ids) h = elim (Option-cases (f id)) [
    | inl e ↦ rw e (All-gather f ids h)
    | inr (t, e) ↦ rw e (h id t e, All-gather f ids h)
  ]

  -- What holds of the record of every file holds of every listed record.
  pub All-list :
      (status : TaskStatus) (now : ℕ) (s : Store)
      → ((id : String) (t : TaskRecord) → record_at status id s ≡ some t → P t)
      → All P (list_in_status status now s).0
  All-list status now s h =
      subst (All P) (sym (list-gather status now s)) (All-sort _ (All-gather _ _ h))

module _ (t : TaskRecord) where
  Member-insert_self : (us : List TaskRecord) → Member t (insert_by_created t us)
  unfolding insert_by_created
  Member-insert_self [] = here
  Member-insert_self (v ∷ us) = elim (Bool-cases (leb t.created_at v.created_at)) [
    | inl e ↦ rw e here
    | inr e ↦ rw e (there (Member-insert_self us))
  ]

  Member-insert :
      (u : TaskRecord) {us : List TaskRecord} → Member t us → Member t (insert_by_created u us)
  unfolding insert_by_created
  Member-insert u (here {xs = us}) = elim (Bool-cases (leb u.created_at t.created_at)) [
    | inl e ↦ rw e (there here)
    | inr e ↦ rw e here
  ]
  Member-insert u (there {x = v} m) = elim (Bool-cases (leb u.created_at v.created_at)) [
    | inl e ↦ rw e (there (there m))
    | inr e ↦ rw e (there (Member-insert u m))
  ]

  Member-sort : {ts : List TaskRecord} → Member t ts → Member t (sort_by_created ts)
  unfolding sort_by_created
  Member-sort (here {xs = ts}) = Member-insert_self (sort_by_created ts)
  Member-sort (there {x = u} m) = Member-insert u (Member-sort m)

  Member-gather :
      (f : String → Option TaskRecord) (id : String) (ids : List String)
      → includes id ids ≡ true
      → f id ≡ some t
      → Member t (gather f ids)
  unfolding gather includes
  Member-gather f id [] h e = cc
  Member-gather f id (j ∷ ids) h e = elim (text_discrete j id) [
    | yes same ↦ rw (same, e) here
    | no differs ↦ later (f j) (Member-gather f id ids (ground arith) e)
  ]
    where
      later :
          (o : Option TaskRecord) → Member t (gather f ids) → Member t (cons_some o (gather f ids))
      later none m = m
      later (some u) m = there m

  -- Every record in a directory is listed.
  pub Member-list :
      (status : TaskStatus) (id : String) (now : ℕ) (s : Store)
      → record_at status id s ≡ some t
      → Member t (list_in_status status now s).0
  unfolding find
  Member-list status id now s e =
      subst (Member t) (sym (list-gather status now s))
        (Member-sort (Member-gather (λ j. record_at status j s) id (keys (s.dir status)) listed e))
    where
      listed : includes id (keys (s.dir status)) ≡ true
      listed = elim (Option-cases (lookup id (s.dir status))) [
        | inl missing ↦ absurd (ground arith)
        | inr (f, there_is) ↦ includes-keys id (s.dir status) f there_is
      ]

pub record_at-list :
    (status : TaskStatus) (now : ℕ) (s : Store) (at : TaskStatus) (j : String)
    → record_at at j (list_in_status status now s).1 ≡ record_at at j s
unfolding list_in_status
record_at-list status now s at j = record_at-read_each status now (keys (s.dir status)) s at j

read_each-Consistent :
    (status : TaskStatus) (now : ℕ) (ids : List String) (s : Store)
    → Consistent s
    → Consistent (read_each status now ids s).1
unfolding read_each
read_each-Consistent status now [] s c = c
read_each-Consistent status now (id ∷ ids) s c =
    read_each-Consistent status now ids (try_read_task_file status id now s).1
      (try_read-Consistent status id now s c)

pub list-Consistent :
    (status : TaskStatus) (now : ℕ) (s : Store)
    → Consistent s
    → Consistent (list_in_status status now s).1
unfolding list_in_status
list-Consistent status now s c = read_each-Consistent status now (keys (s.dir status)) s c

-- A listing moves corrupt files aside and changes no task.
pub view-list :
    (status : TaskStatus) (now : ℕ) (s : Store) (j : String)
    → view (list_in_status status now s).1 j ≡ view s j
view-list status now s j = simp record_at-list
