-- ===== src/Webhook/Effects.antt =====
-- What each step of `WebhookHandler.handle` leaves alone: the cache of deliveries, the pauses of the
-- tools other than `github`, and, before the dispatcher's decision, the queue.
use oh_my_github_runner.Prelude.{
  ℕ, String, ◌≡◌, refl, sym, ap, ◌∙◌, subst, by_test, is, text_discrete, ◌⊎◌, inl, inr, Bool, true,
  false, not, Option, none, some, List, [], ◌∷◌, ◌++◌, Option-cases, if◌then◌else◌,
}
use oh_my_github_runner.Prelude.Action.{Result, ok, err, after}
use oh_my_github_runner.Task.{TaskRecord, RepoRef, QueueTaskInput, StickyCommentRef}
use oh_my_github_runner.RateLimit.{StateFile}
use oh_my_github_runner.Daemon.{
  Daemon, Notice, on_superseded, on_failure, on_succeeded, on_rate_limited, supersede,
  superseded_end,
}
use oh_my_github_runner.Strategies.{StrategyPolicies, get_strategy}
use oh_my_github_runner.Enqueue.{enqueue, supersede_conflicts, is_conflict}
use oh_my_github_runner.Dispatch.{
  DispatchedEvent, DispatchAction, EnqueueRequest, Rejection, dispatch, ignore, reject,
  enqueue_action, Sender, PullRequestState,
}
use oh_my_github_runner.Payload.{
  Json, not_an_object, object, Payload, IssueField, to_dispatched_event, issue_comment_payload,
  by_identity, issue_or_throw, on_comment, on_pull_request, is_action,
}
use oh_my_github_runner.Webhook.{
  WebhookHandler, World, WebhookHandlerResult, GithubCall, get_pull_request_state, pause_github,
  called, ask_pull_request_state, try_add_reaction, post_sticky, execute_reject, tell, tell_each,
  sticky_of, enqueued, execute_enqueue, execute_action, answered, handle_event, handle_json, handle,
  already_seen, Headers, read_header, or_dash,
}
use oh_my_github_runner.Signature.{verify_hub_signature}
use oh_my_github_runner.Commands.{Text}

-- The file after some pauses of `github`.
abbrev pub Grown : StateFile → StateFile → Type 0
Grown file file' = (ends : List ℕ) × (file' ≡ pause_github ends file)

pause_github-append :
    (xs ys : List ℕ) (file : StateFile)
    → pause_github (xs ++ ys) file ≡ pause_github ys (pause_github xs file)
unfolding pause_github
pause_github-append [] ys file = refl
pause_github-append (x ∷ xs) ys file = pause_github-append xs ys _

-- A step that leaves the cache, and pauses nothing but `github`.
pub record Modest (w w' : World) : Type 0 where
  pub same_seen : w'.delivery_dedup ≡ w.delivery_dedup
  pub grown : Grown w.daemon.pauses w'.daemon.pauses

pub nothing-Modest : (w : World) → Modest w w
unfolding pause_github
nothing-Modest w = record { same_seen = refl; grown = ([], refl) }

pub then-Modest : (w w1 w2 : World) → Modest w w1 → Modest w1 w2 → Modest w w2
then-Modest w w1 w2 h k =
    let (xs, e) = h.grown in
    let (ys, e') = k.grown in
    record {
      same_seen = k.same_seen ∙ h.same_seen;
      grown =
          (xs ++ ys, e' ∙ ap (pause_github ys) e ∙ sym (pause_github-append xs ys w.daemon.pauses));
    }

superseded_end-pauses :
    (old_id new_id : String) (r : Result TaskRecord) (d : Daemon)
    → (superseded_end old_id new_id r d).pauses ≡ d.pauses
superseded_end-pauses old_id new_id (ok t) d = refl
superseded_end-pauses old_id new_id (err e) d = refl

choice-pauses :
    (hit : Bool) (old_id new_id : String) (now : ℕ) (d : Daemon)
    → (if hit then supersede old_id new_id now d else d).pauses ≡ d.pauses
unfolding supersede
choice-pauses true old_id new_id now d = superseded_end-pauses old_id new_id _ _
choice-pauses false old_id new_id now d = refl

conflicts-pauses :
    (new_id : String) (now : ℕ) (olds : List TaskRecord) (d : Daemon)
    → (supersede_conflicts new_id now olds d).pauses ≡ d.pauses
unfolding supersede_conflicts
conflicts-pauses new_id now [] d = refl
conflicts-pauses new_id now (old ∷ olds) d =
    conflicts-pauses new_id now olds _
    ∙ choice-pauses (is_conflict new_id old) old.task_id new_id now d

enqueue-pauses :
    (input : QueueTaskInput) (new_id : String) (now : ℕ) (d : Daemon)
    → (enqueue input new_id now d).1.pauses ≡ d.pauses
unfolding enqueue
enqueue-pauses input new_id now d = elim (Option-cases (get_strategy input.instruction_id)) [
  | inl e ↦ rw (e, enqueue) refl
  | inr (policies, e) ↦
      rw (e, enqueue)
        (by_test (λ (d' : Daemon). d'.pauses ≡ d.pauses) policies.supersede_on_same_source
          (λ _. conflicts-pauses _ now _ _) (λ _. refl))
]

module _ (h : WebhookHandler) where
  pub called-Modest : (call : GithubCall) (w : World) → Modest w (called h call w)
  unfolding called
  called-Modest call w = record {
    same_seen = refl;
    grown = (h.github.paused_until (w.calls ++ call ∷ []), refl);
  }

  tell-Modest :
      (sticky : Option StickyCommentRef) (t : TaskRecord) (new_id : String) (w : World)
      → Modest w (tell h sticky t new_id w)
  tell-Modest none t new_id w = nothing-Modest w
  tell-Modest (some s) t new_id w = called-Modest _ w

  tell_each-Modest : (notices : List Notice) (w : World) → Modest w (tell_each h notices w)
  unfolding tell_each
  tell_each-Modest [] w = nothing-Modest w
  tell_each-Modest (on_superseded t new_id ∷ notices) w =
      then-Modest w _ _ (tell-Modest (sticky_of t.notifications) t new_id w)
        (tell_each-Modest notices _)
  tell_each-Modest (on_failure t summary ∷ notices) w = tell_each-Modest notices w
  tell_each-Modest (on_succeeded t ∷ notices) w = tell_each-Modest notices w
  tell_each-Modest (on_rate_limited t ∷ notices) w = tell_each-Modest notices w

  enqueued-Modest :
      (task_id : String) (sticky : Option StickyCommentRef) (r : Result TaskRecord) (w : World)
      → Modest w (enqueued h task_id sticky r w).1
  enqueued-Modest task_id sticky (ok task) w = nothing-Modest w
  enqueued-Modest task_id none (err e) w = nothing-Modest w
  enqueued-Modest task_id (some s) (err e) w = called-Modest _ w

  with_daemon-Modest :
      (d : Daemon) (w : World) → d.pauses ≡ w.daemon.pauses → Modest w (record w { daemon = d })
  unfolding pause_github
  with_daemon-Modest d w e = record { same_seen = refl; grown = ([], e) }

  execute_enqueue-Modest :
      (r : EnqueueRequest) (policies : StrategyPolicies) (task_id : String) (now : ℕ) (w : World)
      → Modest w (execute_enqueue h r policies task_id now w).1
  unfolding execute_enqueue try_add_reaction post_sticky
  execute_enqueue-Modest r policies task_id now w = then-Modest w _ _ (called-Modest _ w) (
      then-Modest _ _ _ (called-Modest _ _) (
        then-Modest _ _ _ (with_daemon-Modest _ _ (enqueue-pauses _ task_id now _))
          (then-Modest _ _ _ (tell_each-Modest _ _) (enqueued-Modest task_id _ _ _))))

  execute_reject-Modest : (r : Rejection) (w : World) → Modest w (execute_reject h r w).1
  unfolding execute_reject try_add_reaction
  execute_reject-Modest r w = then-Modest w _ _ (called-Modest _ w) (called-Modest _ _)

  execute_action-Modest :
      (action : DispatchAction) (task_id : String) (now : ℕ) (w : World)
      → Modest w (execute_action h action task_id now w).1
  unfolding execute_action
  execute_action-Modest (ignore reason) task_id now w = nothing-Modest w
  execute_action-Modest (reject rejection) task_id now w = execute_reject-Modest rejection w
  execute_action-Modest (enqueue_action r) task_id now w =
      elim (Option-cases (get_strategy r.instruction_id)) [
        | inl e ↦ rw (e, execute_action) (nothing-Modest w)
        | inr (policies, e) ↦
            rw (e, execute_action) (execute_enqueue-Modest r policies task_id now w)
      ]

  pub answered-world : (kind : String) (r : Result (Unit {0}) × World) → (answered h kind r).1 ≡ r.1
  answered-world kind (ok _, w) = refl
  answered-world kind (err e, w) = refl

  handle_event-Modest :
      (event : Option DispatchedEvent) (task_id : String) (now : ℕ) (w : World)
      → Modest w (handle_event h event task_id now w).1
  unfolding handle_event
  handle_event-Modest none task_id now w = nothing-Modest w
  handle_event-Modest (some event) task_id now w =
      subst (Modest w) (sym (answered-world _ _))
        (execute_action-Modest (dispatch h.dispatcher event) task_id now w)

  -- Nothing but at most one question for the state of a pull request.
  abbrev pub Asked : World → World → Type 0
  Asked w w' =
      (w' ≡ w)
      ⊎ ((repo : RepoRef) × (number : ℕ) × (w' ≡ called h (get_pull_request_state repo number) w))

  abbrev Reads : World → Result (Option DispatchedEvent) × World → Type 0
  Reads w r = Asked w r.1

  asked-Reads :
      (p : Payload) (repo : RepoRef) (sender : Sender) (issue : IssueField) (w : World)
      → Reads w (on_comment (ask_pull_request_state h) p repo sender issue w)
  asked-Reads p repo sender issue w =
      by_test (Reads w) issue.has_pull_request
        (λ _. answer (h.github.pull_request_state _) _ (inr (repo, issue.number, refl)))
        (λ _. inl refl)
    where
      answer :
          (r : Result PullRequestState) (w' : World)
          → Asked w w'
          → Reads w (after (r, w') (λ pr s. (on_pull_request p repo sender pr, s)))
      answer (ok pr) w' a = a
      answer (err e) w' a = a

  identity-Reads :
      (p : Payload) (repo : Option RepoRef) (sender : Option Sender) (w : World)
      → Reads w (by_identity (ask_pull_request_state h) p repo sender w)
  identity-Reads p none sender w = inl refl
  identity-Reads p (some repo) none w = inl refl
  identity-Reads p (some repo) (some sender) w = elim (Option-cases p.issue) [
    | inl e ↦
        subst (λ o. Reads w (issue_or_throw (ask_pull_request_state h) p repo sender o w)) (sym e)
          (inl refl)
    | inr (issue, e) ↦
        subst (λ o. Reads w (issue_or_throw (ask_pull_request_state h) p repo sender o w)) (sym e)
          (asked-Reads p repo sender issue w)
  ]

  pub event-Reads :
      (event_name : String) (json : Json) (w : World)
      → Reads w (to_dispatched_event (ask_pull_request_state h) event_name json w)
  unfolding to_dispatched_event issue_comment_payload
  event-Reads event_name not_an_object w = inl refl
  event-Reads event_name (object p) w =
      by_test (Reads w) (is (text_discrete event_name "issues")) (λ _. inl refl)
        λ _.
          by_test (Reads w) (is (text_discrete event_name "issue_comment"))
            (λ _.
              by_test (Reads w) (is_action "created" p.action)
                (λ _. identity-Reads p p.repository p.sender w) (λ _. inl refl))
            λ _.
              by_test (Reads w) (is (text_discrete event_name "pull_request_review_comment"))
                (λ _. inl refl) (λ _. inl refl)

  Asked-Modest : (w w' : World) → Asked w w' → Modest w w'
  Asked-Modest w w' (inl e) = subst (Modest w) (sym e) (nothing-Modest w)
  Asked-Modest w w' (inr (repo, number, e)) = subst (Modest w) (sym e) (called-Modest _ w)

  after-Modest :
      (task_id : String) (now : ℕ) (w : World) (r : Result (Option DispatchedEvent) × World)
      → Modest w r.1
      → Modest w (after r (λ event. handle_event h event task_id now)).1
  after-Modest task_id now w (ok event, w') m =
      then-Modest w w' _ m (handle_event-Modest event task_id now w')
  after-Modest task_id now w (err e, w') m = m

  pub handle_json-Modest :
      (json : Option Json) (event_name : String) (task_id : String) (now : ℕ) (w : World)
      → Modest w (handle_json h json event_name task_id now w).1
  unfolding handle_json
  handle_json-Modest none event_name task_id now w = nothing-Modest w
  handle_json-Modest (some json) event_name task_id now w =
      after-Modest task_id now w _ (Asked-Modest w _ (event-Reads event_name json w))

  seen-Grown :
      (delivery_id : String) (now : ℕ) (w : World)
      → Grown w.daemon.pauses (already_seen h delivery_id now w).1.daemon.pauses
  unfolding already_seen pause_github
  seen-Grown delivery_id now w =
      by_test (λ (r : Bool × World). Grown w.daemon.pauses r.1.daemon.pauses)
        (is (text_discrete delivery_id "-")) (λ _. ([], refl)) (λ _. ([], refl))

  -- A delivery pauses nothing but `github`.
  pub handle-Grown :
      (raw_body : Text) (headers : Headers) (task_id : String) (now : ℕ) (w : World)
      → Grown w.daemon.pauses (handle h raw_body headers task_id now w).1.daemon.pauses
  unfolding handle pause_github
  handle-Grown raw_body headers task_id now w =
      by_test Kept
        (not (verify_hub_signature h.hmac h.secret raw_body (read_header headers.signature)))
        (λ _. ([], refl))
        λ _.
          by_test Kept seen.0 (λ _. clean)
            λ _.
              by_test Kept (is (text_discrete event_name "-")) (λ _. clean)
                λ _.
                  then_grown seen.1.daemon.pauses _ clean
                    (handle_json-Modest (h.parse_json raw_body) event_name task_id now seen.1).grown
    where
      Kept : Result WebhookHandlerResult × World → Type 0
      Kept r = Grown w.daemon.pauses r.1.daemon.pauses

      event_name : String
      event_name = or_dash (read_header headers.event)

      seen : Bool × World
      seen = already_seen h (or_dash (read_header headers.delivery)) now w

      clean : Grown w.daemon.pauses seen.1.daemon.pauses
      clean = seen-Grown (or_dash (read_header headers.delivery)) now w

      then_grown :
          (file file' : StateFile)
          → Grown w.daemon.pauses file
          → Grown file file'
          → Grown w.daemon.pauses file'
      then_grown file file' (xs, e) (ys, e') =
          (xs ++ ys, e' ∙ ap (pause_github ys) e ∙ sym (pause_github-append xs ys w.daemon.pauses))
