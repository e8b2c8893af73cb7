-- ===== src/Processor.antt =====
-- internal/adapters/outbox/processor.go: one tick's batch. Its events are handled at once; here they
-- follow each other, in the order in which they end.
pub mod Loop
use svc_web_analyzer.Prelude.{
  ℕ, suc, ◌+◌, ◌≤◌, ◌≡◌, refl, List, [], ◌∷◌, arith, length, length-append, ap, inl, inr,
}
use svc_web_analyzer.Domain.{OutboxEvent, Result, ok, err}
use svc_web_analyzer.World.{Publication, World, M}
use svc_web_analyzer.Publisher.{
  PublisherService, publish_event, fetch_pending_events, fetch_retryable_events,
}
use svc_web_analyzer.Outbox.{find_pending, find_retryable}
use svc_web_analyzer.Outbox.Queries.{
  find_pending_page, find_retryable_page, page_length, sent-find_pending, sent-find_retryable,
}
use svc_web_analyzer.Publisher.Delivery.{AddsAtMostOne, publish_event_sends}

abbrev pub batch_size : ℕ
batch_size = 10

module _ (s : PublisherService) where
  -- the goroutines; an error is logged
  abbrev pub handled : List OutboxEvent → World → World
  handled [] w = w
  handled (e ∷ es) w = handled es (publish_event s e w).1

  abbrev pub after_fetch : Result (List OutboxEvent) × World → Result (Unit {0}) × World
  after_fetch (ok events, w) = (ok tt, handled events w)
  after_fetch (err e, w) = (err e, w)

  unfoldable pub process_pending_events : M (Unit {0})
  process_pending_events w = after_fetch (fetch_pending_events s batch_size w)

  unfoldable pub process_retryable_events : M (Unit {0})
  process_retryable_events w = after_fetch (fetch_retryable_events s batch_size w)

  more_sent : (xs ys : List Publication) → AddsAtMostOne xs ys → length ys ≤ suc (length xs)
  more_sent xs ys (inl same) = omega (arith, ap length same)
  more_sent xs ys (inr (p, more)) = omega (arith, ap length more, length-append xs (p ∷ []))

  handled-sent :
      (es : List OutboxEvent) (w : World) → length (handled es w).sent ≤ length w.sent + length es
  handled-sent [] w = omega arith
  handled-sent (e ∷ es) w =
      let (_, one) = publish_event_sends s e w in
      omega (
        arith,
        handled-sent es (publish_event s e w).1,
        more_sent w.sent (publish_event s e w).1.sent one,
      )

  after_fetch-sent :
      (r : Result (List OutboxEvent) × World)
      → ((es : List OutboxEvent) (v : World) → r ≡ (ok es, v) → length es ≤ batch_size)
      → length (after_fetch r).1.sent ≤ length r.1.sent + batch_size
  after_fetch-sent (ok es, w) h = omega (arith, handled-sent es w, h es w refl)
  after_fetch-sent (err e, w) h = omega arith

  -- A batch of pending events adds at most ten messages to those sent, and so does a batch of events
  -- that are retried, whatever the drivers answer.
  pub batches_sent :
      (w : World)
      → (length (process_pending_events w).1.sent ≤ length w.sent + 10)
        × (length (process_retryable_events w).1.sent ≤ length w.sent + 10)
  unfolding process_pending_events process_retryable_events fetch_pending_events
      fetch_retryable_events
  batches_sent w = (
    omega (
      arith,
      after_fetch-sent (find_pending s.lib batch_size w)
          (λ es v h. page_length (find_pending_page s.lib batch_size w h)),
      ap length (sent-find_pending s.lib batch_size w),
    ),
    omega (
      arith,
      after_fetch-sent (find_retryable s.lib batch_size w)
          (λ es v h. page_length (find_retryable_page s.lib batch_size w h)),
      ap length (sent-find_retryable s.lib batch_size w),
    ),
  )
