-- ===== src/Webhook/Tasks.antt =====
-- `WebhookHandler.handle`: the task that a delivery leads to.
use oh_my_github_runner.Prelude.{
  ℕ, String, ◌≡◌, ◌≢◌, refl, sym, subst, text_discrete, true, false, none, some, List, [], ◌∷◌,
  ◌++◌, arith, ite, ap, ◌∙◌, inl, inr, Option, map, append_assoc, All, drop, length, if◌then◌else◌,
}
use oh_my_github_runner.Prelude.Action.{Result, ok}
use oh_my_github_runner.Task.{TaskStatus, QueueTaskInput, TaskRecord, StickyCommentRef, queued}
use oh_my_github_runner.Strategies.{StrategyPolicies, get_strategy, supersedes}
use oh_my_github_runner.Queue.{Store, find}
use oh_my_github_runner.Queue.Consistency.{Consistent, view}
use oh_my_github_runner.Queue.Listing as Listing
use oh_my_github_runner.Enqueue.{enqueue}
use oh_my_github_runner.Enqueue.Stores.{policy, replaced_record}
use oh_my_github_runner.Enqueue.Supersede.{enqueue-view}
use oh_my_github_runner.Enqueue.Told.{enqueue-AfterInsert, IsReplaced, names}
use oh_my_github_runner.Queue.Transitions.{replaced}
use oh_my_github_runner.Queue.Fifo.{view-enqueue}
use oh_my_github_runner.Daemon.{Daemon, Notice, on_superseded}
use oh_my_github_runner.Webhook.Effects.{Asked, event-Reads}
use oh_my_github_runner.Webhook.Admission.{already_seen-Untouched}
use oh_my_github_runner.RateLimit.{StateFile}
use oh_my_github_runner.Commands.{Text}
use oh_my_github_runner.Signature.{verify_hub_signature}
use oh_my_github_runner.Dispatch.{DispatchedEvent, EnqueueRequest, dispatch, enqueue_action}
use oh_my_github_runner.Payload.{Json, to_dispatched_event}
use oh_my_github_runner.Webhook.{
  WebhookHandler, World, Headers, WebhookHandlerResult, handle, handle_json, handle_event,
  already_seen, read_header, or_dash, execute_action, answered, action_kind, execute_enqueue,
  enqueued, try_add_reaction, post_sticky, reply, GithubCall, add_reaction, post_issue_comment,
  eyes, queued_body, sticky_meta, task_input, notifications_of, reaction_ref, sticky_ref, target_of,
  location_number, called, tell, tell_each, sticky_of, update_issue_comment, superseded_body,
  ask_pull_request_state,
}

append-nil_lem : {A : Type 0} (xs : List A) → xs ++ [] ≡ xs
append-nil_lem [] = refl
append-nil_lem (x ∷ xs) = ap (λ r. x ∷ r) (append-nil_lem xs)

drop-append : {A : Type 0} (xs ys : List A) → drop (length xs) (xs ++ ys) ≡ ys
drop-append [] ys = refl
drop-append (x ∷ xs) ys = drop-append xs ys

module _ (h : WebhookHandler) (r : EnqueueRequest) (policies : StrategyPolicies) (task_id : String)
    (w : World) where
  -- The calls of a request: the reaction, then the comment.
  abbrev pub reacted : List GithubCall
  reacted = w.calls ++ add_reaction r.repo (target_of r.trigger) eyes ∷ []

  abbrev pub posted_calls : List GithubCall
  posted_calls =
      reacted
      ++ post_issue_comment r.repo (location_number r.trigger)
          (queued_body (sticky_meta h r task_id policies))
        ∷ []

  -- The task of a request: it refers to the reaction and to the comment, each if GitHub gave an id.
  abbrev pub requested : QueueTaskInput
  requested = task_input h r task_id (
      notifications_of
        (sticky_ref r.repo (location_number r.trigger) (h.github.comment_id posted_calls))
        (reaction_ref (target_of r.trigger) (h.github.reaction_id reacted)))

  abbrev pub edit_of : Option StickyCommentRef → TaskRecord → List GithubCall
  edit_of none t = []
  edit_of (some s) t = update_issue_comment s.repo s.comment_id (superseded_body t task_id) ∷ []

  -- The edits of the comments of the tasks that are replaced, each if there is one.
  abbrev pub edits_of : List TaskRecord → List GithubCall
  edits_of [] = []
  edits_of (t ∷ ts) = edit_of (sticky_of t.notifications) t ++ edits_of ts

  abbrev pub new : ℕ → TaskRecord
  new now = (Listing.enqueue requested task_id now w.daemon.store).0

  -- The new task is in the queue, and the tasks that it supersedes are replaced. The calls are the
  -- reaction, the comment, and an edit for each task that is told of its replacement: these are the
  -- tasks whose records were replaced.
  pub record Queued (now : ℕ) (res : Result WebhookHandlerResult × World) : Type 0 where
    pub told : List TaskRecord
    pub is_answered : res.0 ≡ reply 200 "enqueue"
    pub are_calls : res.1.calls ≡ posted_calls ++ edits_of told
    pub are_replaced :
        All
          (λ t.
            (u : TaskRecord) × (u.status ≡ queued)
            × (t ≡ replaced now task_id u)
            × (ite
                  (text_discrete task_id t.task_id)
                  (some (new now))
                  (view w.daemon.store t.task_id)
                ≡ some u))
          told
    pub is_view :
        (j : String)
        → view res.1.daemon.store j
          ≡ ite
              (text_discrete task_id j)
              (some (new now))
              (policy requested task_id now (view w.daemon.store j))
    pub is_told :
        (j : String)
        → view res.1.daemon.store j ≡ (
            let before = ite (text_discrete task_id j) (some (new now)) (view w.daemon.store j) in
            if names told j then replaced_record now task_id before else before)

  tell-Told :
      (sticky : Option StickyCommentRef) (t : TaskRecord) (v : World)
      → ((tell h sticky t task_id v).calls ≡ v.calls ++ edit_of sticky t)
        × ((tell h sticky t task_id v).daemon.store ≡ v.daemon.store)
  unfolding called
  tell-Told none t v = (sym (append-nil_lem v.calls), refl)
  tell-Told (some s) t v = (refl, refl)

  abbrev notice_of : TaskRecord → Notice
  notice_of t = on_superseded t task_id

  tell_each-Told :
      (ts : List TaskRecord) (v : World)
      → ((tell_each h (map notice_of ts) v).calls ≡ v.calls ++ edits_of ts)
        × ((tell_each h (map notice_of ts) v).daemon.store ≡ v.daemon.store)
  unfolding tell_each
  tell_each-Told [] v = (sym (append-nil_lem v.calls), refl)
  tell_each-Told (t ∷ ts) v =
      let (calls, store) = tell-Told (sticky_of t.notifications) t v in
      let (calls', store') = tell_each-Told ts (tell h (sticky_of t.notifications) t task_id v) in
      (
        calls'
            ∙ ap (λ c. c ++ edits_of ts) calls
            ∙ append_assoc v.calls (edit_of (sticky_of t.notifications) t) (edits_of ts),
        store' ∙ store,
      )

  -- The world when the enqueue begins.
  ready : World
  ready =
      called h
        (post_issue_comment r.repo (location_number r.trigger)
          (queued_body (sticky_meta h r task_id policies)))
        (called h (add_reaction r.repo (target_of r.trigger) eyes) w)

  module _ (now : ℕ) (c : Consistent w.daemon.store)
      (fresh : (at : TaskStatus) → find at task_id w.daemon.store ≡ none)
      (known : get_strategy r.instruction_id ≡ some policies)
      (on : supersedes (some policies) ≡ true) where
    module _ (sticky : Option StickyCommentRef) (pauses : StateFile) where
      abbrev told_by : Daemon
      told_by = record w.daemon { pauses = pauses }

      abbrev ended : Result TaskRecord × Daemon
      ended = enqueue requested task_id now told_by

      -- The world before the notices are told.
      abbrev stored : World
      stored = record w { calls = posted_calls; daemon = ended.1 }

      abbrev Ends : Result TaskRecord → List Notice → Type 0
      Ends result notices =
          Queued now
            (answered h "enqueue" (enqueued h task_id sticky result (tell_each h notices stored)))

      replaced_before :
          (s : Store) (ts : List TaskRecord)
          → ((j : String)
              → view s j ≡ view (Listing.enqueue requested task_id now w.daemon.store).1 j)
          → All (IsReplaced task_id now s) ts
          → All
              (λ t.
                (u : TaskRecord) × (u.status ≡ queued)
                × (t ≡ replaced now task_id u)
                × (ite
                      (text_discrete task_id t.task_id)
                      (some (new now))
                      (view w.daemon.store t.task_id)
                    ≡ some u))
              ts
      replaced_before s [] same h = tt
      replaced_before s (t ∷ ts) same ((u, v, q, e), h) = (
        (
          u,
          q,
          e,
          sym (view-enqueue requested task_id now w.daemon.store c fresh t.task_id).1
              ∙ sym (same t.task_id)
              ∙ v,
        ),
        replaced_before s ts same h,
      )

      ended-Queued : Ends ended.0 (drop (length told_by.notices) ended.1.notices)
      ended-Queued =
          let (s, same, told) =
            enqueue-AfterInsert requested task_id now told_by c fresh policies known in
          let supersedes_on : supersedes (get_strategy requested.instruction_id) ≡ true =
            ap supersedes known ∙ on in
          let views =
            λ (j : String). enqueue-view requested task_id now told_by c fresh supersedes_on j in
          subst (λ n. Ends ended.0 n)
            (sym
              (ap (drop (length told_by.notices)) told.are_notices ∙ drop-append told_by.notices _))
            (subst (λ res. Ends res (map notice_of told.told)) (sym (views "").0)
              (record {
                told = told.told;
                is_answered = refl;
                are_calls = (tell_each-Told told.told stored).0;
                are_replaced = replaced_before s told.told same told.are_replaced;
                is_view =
                    λ j. ap (λ st. view st j) (tell_each-Told told.told stored).1 ∙ (views j).1;
                is_told = λ j.
                    ap (λ st. view st j) (tell_each-Told told.told stored).1
                    ∙ told.is_view j
                    ∙ ap (λ o. if names told.told j then replaced_record now task_id o else o)
                        (same j ∙ (view-enqueue requested task_id now w.daemon.store c fresh j).1);
              }))

    execute_enqueue-Queued :
        Queued now (answered h "enqueue" (execute_enqueue h r policies task_id now w))
    unfolding execute_enqueue try_add_reaction post_sticky ready called
    execute_enqueue-Queued = ended-Queued _ ready.daemon.pauses

abbrev pub seen_world : WebhookHandler → Headers → ℕ → World → World
seen_world h headers now w = (already_seen h (or_dash (read_header headers.delivery)) now w).1

module _ (h : WebhookHandler) (raw_body : Text) (headers : Headers) (json : Json)
    (event_name : String) (event : DispatchedEvent) (now : ℕ) (w w' : World)
    (signed : verify_hub_signature h.hmac h.secret raw_body (read_header headers.signature) ≡ true)
    (has_name : read_header headers.event ≡ some event_name) (no_dash : event_name ≢ "-")
    (has_json : h.parse_json raw_body ≡ some json)
    (has_event : to_dispatched_event
        (ask_pull_request_state h)
        event_name
        json
        (seen_world h headers now w)
      ≡ (ok (some event), w')) where
  -- A signed delivery that is not a duplicate gets to the action of its event.
  handle_action :
      (task_id : String)
      → (already_seen h (or_dash (read_header headers.delivery)) now w).0 ≡ false
      → handle h raw_body headers task_id now w
        ≡ answered h
            (action_kind h (dispatch h.dispatcher event))
            (execute_action h (dispatch h.dispatcher event) task_id now w')
  unfolding handle handle_json handle_event
  handle_action task_id first =
      rw (signed, first, has_name, has_json, has_event) (ground (arith, no_dash))

  same_queue : w'.daemon.store ≡ w.daemon.store
  unfolding called
  same_queue =
      elim (subst (λ x. Asked h (seen_world h headers now w) x.1) has_event
        (event-Reads h event_name json (seen_world h headers now w))) [
          | inl e ↦
              ap (λ x. x.daemon.store) e ∙ ap (λ d. d.store) (already_seen-Untouched h _ now w).0
          | inr (repo, number, e) ↦
              ap (λ x. x.daemon.store) e ∙ ap (λ d. d.store) (already_seen-Untouched h _ now w).0
        ]

  -- A signed delivery that is not a duplicate, whose event leads to a request for an instruction
  -- that supersedes, is answered with `enqueue`. After the reading of the event, which may ask for
  -- the state of a pull request, it sends the reaction and the comment, in that order, and queues the
  -- task of the request, which refers to each of the two that GitHub gave an id, whether or not the
  -- other failed. The queued tasks that the policy names are replaced by it, and all others stay. The
  -- tasks whose records were replaced are told of it: the comment of each is edited, if it has one,
  -- and nothing else is sent. The queue is consistent and has no file under the new id.
  pub handle_enqueues :
      (r : EnqueueRequest) (policies : StrategyPolicies)
      → dispatch h.dispatcher event ≡ enqueue_action r
      → get_strategy r.instruction_id ≡ some policies
      → supersedes (some policies) ≡ true
      → (task_id : String)
      → (already_seen h (or_dash (read_header headers.delivery)) now w).0 ≡ false
      → Consistent w.daemon.store
      → ((at : TaskStatus) → find at task_id w.daemon.store ≡ none)
      → Queued h r policies task_id w' now (handle h raw_body headers task_id now w)
  unfolding execute_action
  handle_enqueues r policies leads known on task_id first c fresh =
      subst (Queued h r policies task_id w' now) (sym (handle_action task_id first)) (
        rw (leads, known, execute_action)
          (execute_enqueue-Queued h r policies task_id w' now (subst Consistent (sym same_queue) c)
            (λ at. ap (find at task_id) same_queue ∙ fresh at) known on))
