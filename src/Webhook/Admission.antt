-- ===== src/Webhook/Admission.antt =====
-- `WebhookHandler.handle`: the deliveries that change nothing, and the one that is handled.
use oh_my_github_runner.Prelude.{
  ℕ, String, ◌≡◌, refl, sym, subst, ◌∙◌, by_test, is, text_discrete, Bool, true, false, not, ◌&&◌,
  Option, none, some, arith, inl,
}
use oh_my_github_runner.Prelude.Action.{Result, ok, err, after}
use oh_my_github_runner.Commands.{Text}
use oh_my_github_runner.Signature.{verify_hub_signature}
use oh_my_github_runner.Dispatch.{
  DispatchedEvent, DispatchAction, dispatch, ignore, reject, enqueue_action,
}
use oh_my_github_runner.Dispatch.Gates.{passes, dispatch_gates, is_ignored}
use oh_my_github_runner.Payload.{Json, to_dispatched_event}
use oh_my_github_runner.Webhook.{
  WebhookHandler, World, Headers, WebhookHandlerResult, handle, handle_json, handle_event,
  already_seen, read_header, or_dash, execute_action, ask_pull_request_state,
}
use oh_my_github_runner.Webhook.Effects.{Asked, event-Reads, answered-world}

-- Nothing was sent to GitHub or written to the queue; the daemon is as it was, with its pauses.
abbrev pub Untouched : World → World → Type 0
Untouched w w' = (w'.daemon ≡ w.daemon) × (w'.calls ≡ w.calls)

abbrev admitted_event : WebhookHandler → Result (Option DispatchedEvent) → Bool
admitted_event h (ok (some event)) = passes h.dispatcher event
admitted_event h (ok none) = false
admitted_event h (err e) = false

abbrev admitted_json : WebhookHandler → String → Option Json → World → Bool
admitted_json h event_name none w = false
admitted_json h event_name (some json) w =
    admitted_event h (to_dispatched_event (ask_pull_request_state h) event_name json w).0

abbrev pub is_signed : WebhookHandler → Text → Headers → Bool
is_signed h raw_body headers =
    verify_hub_signature h.hmac h.secret raw_body (read_header headers.signature)

-- Whether a delivery stands for an event that passes the gates of the dispatcher.
abbrev pub has_entry : WebhookHandler → Text → Headers → ℕ → World → Bool
has_entry h raw_body headers now w =
    admitted_json h (or_dash (read_header headers.event)) (h.parse_json raw_body)
      (already_seen h (or_dash (read_header headers.delivery)) now w).1

-- A signed delivery may have one effect on GitHub, the question for the state of a pull request.
abbrev pub AtMostAsked : WebhookHandler → (signed : Bool) → World → World → Type 0
AtMostAsked h false w w' = Untouched w w'
AtMostAsked h true w w' = (q : World) × Untouched w q × Asked h q w'

module _ (h : WebhookHandler) where
  ignored_keeps :
      (action : DispatchAction) (task_id : String) (now : ℕ) (w : World)
      → is_ignored action ≡ true
      → (execute_action h action task_id now w).1 ≡ w
  unfolding execute_action
  ignored_keeps (ignore reason) task_id now w e = refl
  ignored_keeps (reject rejection) task_id now w e = cc
  ignored_keeps (enqueue_action r) task_id now w e = cc

  handle_event_keeps :
      (task_id : String) (now : ℕ) (r : Result (Option DispatchedEvent) × World)
      → admitted_event h r.0 ≡ false
      → (after r (λ event. handle_event h event task_id now)).1 ≡ r.1
  unfolding handle_event
  handle_event_keeps task_id now (err e, w) no_entry = refl
  handle_event_keeps task_id now (ok none, w) no_entry = refl
  handle_event_keeps task_id now (ok (some event), w) no_entry =
      answered-world h _ _
      ∙ ignored_keeps (dispatch h.dispatcher event) task_id now w
          (dispatch_gates h.dispatcher event no_entry)

  handle_json_asks :
      (json : Option Json) (event_name : String) (task_id : String) (now : ℕ) (w : World)
      → admitted_json h event_name json w ≡ false
      → Asked h w (handle_json h json event_name task_id now w).1
  unfolding handle_json
  handle_json_asks none event_name task_id now w no_entry = inl refl
  handle_json_asks (some json) event_name task_id now w no_entry =
      subst (Asked h w) (sym (handle_event_keeps task_id now _ no_entry))
        (event-Reads h event_name json w)

  pub already_seen-Untouched :
      (delivery_id : String) (now : ℕ) (w : World)
      → Untouched w (already_seen h delivery_id now w).1
  unfolding already_seen
  already_seen-Untouched delivery_id now w =
      by_test (λ (r : Bool × World). Untouched w r.1) (is (text_discrete delivery_id "-"))
        (λ _. (refl, refl)) (λ _. (refl, refl))

  module _ (raw_body : Text) (headers : Headers) (task_id : String) (now : ℕ) (w : World) where
    unsigned_keeps :
        is_signed h raw_body headers ≡ false
        → Untouched w (handle h raw_body headers task_id now w).1
    unfolding handle
    unsigned_keeps unsigned =
        by_test (λ (r : Result WebhookHandlerResult × World). Untouched w r.1)
          (not (is_signed h raw_body headers)) (λ _. (refl, refl))
          (λ signed. absurd (ground (arith, signed, unsigned)))

    signed_asks :
        has_entry h raw_body headers now w ≡ false
        → AtMostAsked h true w (handle h raw_body headers task_id now w).1
    unfolding handle
    signed_asks no_entry =
        by_test Kept (not (is_signed h raw_body headers)) (λ _. (w, (refl, refl), inl refl))
          λ _.
            by_test Kept seen.0 (λ _. (seen.1, clean, inl refl))
              λ _.
                by_test Kept (is (text_discrete event_name "-")) (λ _. (seen.1, clean, inl refl))
                  λ _. (
                    seen.1,
                    clean,
                    handle_json_asks (h.parse_json raw_body) event_name task_id now seen.1 no_entry,
                  )
      where
        Kept : Result WebhookHandlerResult × World → Type 0
        Kept r = AtMostAsked h true w r.1

        event_name : String
        event_name = or_dash (read_header headers.event)

        seen : Bool × World
        seen = already_seen h (or_dash (read_header headers.delivery)) now w

        clean : Untouched w seen.1
        clean = already_seen-Untouched (or_dash (read_header headers.delivery)) now w

    by_signature :
        (signed : Bool)
        → is_signed h raw_body headers ≡ signed
        → (signed && has_entry h raw_body headers now w) ≡ false
        → AtMostAsked h signed w (handle h raw_body headers task_id now w).1
    by_signature false e no_entry = unsigned_keeps e
    by_signature true e no_entry = signed_asks no_entry

    -- A delivery that is not signed with the secret, or that does not stand for an event that passes
    -- the gates of the dispatcher, writes nothing to GitHub or to the queue. If it is not signed, it
    -- sends nothing and changes nothing of the daemon. Otherwise it sends at most one request, the question for the
    -- state of a pull request, which comes before the gates and can lead to a pause of `github`.
    pub handle_admitted_only :
        (is_signed h raw_body headers && has_entry h raw_body headers now w) ≡ false
        → AtMostAsked h (is_signed h raw_body headers) w (handle h raw_body headers task_id now w).1
    handle_admitted_only no_entry = by_signature (is_signed h raw_body headers) refl no_entry
