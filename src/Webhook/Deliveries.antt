-- ===== src/Webhook/Deliveries.antt =====
-- `WebhookHandler.handle`: what a delivery leaves in the cache of deliveries, and the same delivery
-- again.
use oh_my_github_runner.Prelude.{
  ℕ, ◌+◌, ◌<◌, String, ◌≡◌, ◌≢◌, refl, ap, ◌∙◌, by_test, is, text_discrete, Bool, true, false, not,
  some, arith,
}
use oh_my_github_runner.Prelude.Action.{Result}
use oh_my_github_runner.Commands.{Text}
use oh_my_github_runner.DeliveryDedup.{mark_seen}
use oh_my_github_runner.DeliveryDedup.Window.{mark_seen-again}
use oh_my_github_runner.Webhook.{
  WebhookHandler, World, Headers, WebhookHandlerResult, handle, already_seen, read_header, or_dash,
  reply,
}
use oh_my_github_runner.Webhook.Admission.{Untouched, already_seen-Untouched, is_signed}
use oh_my_github_runner.Webhook.Effects.{handle_json-Modest}

module _ (h : WebhookHandler) where
  module _ (raw_body : Text) (headers : Headers) (signed : is_signed h raw_body headers ≡ true)
      (id : String) (named : read_header headers.delivery ≡ some id) (known : id ≢ "-") where
    seen_marks :
        (now : ℕ) (w : World)
        → already_seen h (or_dash (read_header headers.delivery)) now w ≡ (
          (mark_seen id now w.delivery_dedup).0,
          record w { delivery_dedup = (mark_seen id now w.delivery_dedup).1 },
        )
    unfolding already_seen
    seen_marks now w = rw named (
        by_test
          (λ (r : Bool × World). r ≡ (
            (mark_seen id now w.delivery_dedup).0,
            record w { delivery_dedup = (mark_seen id now w.delivery_dedup).1 },
          ))
          (is (text_discrete id "-")) (λ dash. ground (arith, dash, known)) (λ _. refl))

    -- Whatever comes of a signed delivery with an id, the id is marked.
    handle_marks :
        (task_id : String) (now : ℕ) (w : World)
        → (handle h raw_body headers task_id now w).1.delivery_dedup
          ≡ (mark_seen id now w.delivery_dedup).1
    unfolding handle
    handle_marks task_id now w =
        by_test Marked (not (is_signed h raw_body headers)) (λ no_match. ground (arith, signed))
          λ _.
            by_test Marked seen.0 (λ _. marked)
              λ _.
                by_test Marked (is (text_discrete event_name "-")) (λ _. marked)
                  λ _.
                    (handle_json-Modest h (h.parse_json raw_body) event_name task_id now
                      seen.1).same_seen
                    ∙ marked
      where
        Marked : Result WebhookHandlerResult × World → Type 0
        Marked r = r.1.delivery_dedup ≡ (mark_seen id now w.delivery_dedup).1

        event_name : String
        event_name = or_dash (read_header headers.event)

        seen : Bool × World
        seen = already_seen h (or_dash (read_header headers.delivery)) now w

        marked : seen.1.delivery_dedup ≡ (mark_seen id now w.delivery_dedup).1
        marked = ap (λ r. r.1.delivery_dedup) (seen_marks now w)

    handle_duplicate :
        (task_id : String) (now : ℕ) (w : World)
        → (mark_seen id now w.delivery_dedup).0 ≡ true
        → ((handle h raw_body headers task_id now w).0 ≡ reply 200 "duplicate")
          × Untouched w (handle h raw_body headers task_id now w).1
    unfolding handle
    handle_duplicate task_id now w again =
        by_test Dropped (not (is_signed h raw_body headers)) (λ no_match. ground (arith, signed))
          λ _.
            by_test Dropped seen.0 (λ _. (refl, already_seen-Untouched h _ now w))
              λ first. absurd (ground (arith, first, again, seen_marks now w))
      where
        Dropped : Result WebhookHandlerResult × World → Type 0
        Dropped r = (r.0 ≡ reply 200 "duplicate") × Untouched w r.1

        seen : Bool × World
        seen = already_seen h (or_dash (read_header headers.delivery)) now w

    -- A signed delivery with an id, again while the id is remembered, is answered as a duplicate,
    -- leaves the queue as it is and sends nothing to GitHub, whatever came of the first time: in a
    -- cache with room for an entry, and for an id that was not remembered before.
    pub handle_once :
        (task_id task_id_again : String) (now later : ℕ) (w : World)
        → 0 < w.delivery_dedup.max_entries
        → (mark_seen id now w.delivery_dedup).0 ≡ false
        → later < now + w.delivery_dedup.ttl_ms
        → let w' = (handle h raw_body headers task_id now w).1 in
          ((handle h raw_body headers task_id_again later w').0 ≡ reply 200 "duplicate")
          × Untouched w' (handle h raw_body headers task_id_again later w').1
    handle_once task_id task_id_again now later w room first soon =
        handle_duplicate task_id_again later (handle h raw_body headers task_id now w).1 (
          ap (λ c. (mark_seen id later c).0) (handle_marks task_id now w)
          ∙ mark_seen-again id now later w.delivery_dedup room first soon)
