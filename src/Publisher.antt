-- ===== src/Publisher.antt =====
-- internal/service/publisher_service.go: one outbox event is claimed, sent and marked.
pub mod Frame
pub mod Delivery
pub mod Published
pub mod Retries
use svc_web_analyzer.Prelude.{
  ℕ, suc, ◌+◌, String, ◌<>◌, Bool, true, false, Option, none, some, List, leb, if◌then◌else◌,
}
use svc_web_analyzer.Domain.{
  OutboxEvent, PublishResult, Error, Result, ok, err, wrapped, error_text,
}
use svc_web_analyzer.World.{World, M, pure, fail, ◌>>=◌, ◌>>◌, labelled, attempt}
use svc_web_analyzer.Libraries.{Libraries}
use svc_web_analyzer.Outbox.{
  find_pending, find_retryable, claim_for_processing, mark_published, mark_failed,
  mark_permanently_failed,
}
use svc_web_analyzer.Queue.{publish}

-- the fields of `publisherService` that are read; `backoff` gets the retries and the number of the
-- call, since the strategy draws a random number
pub record PublisherService : Type 0 where
  pub lib : Libraries
  pub exchange_name : String
  pub backoff : ℕ → ℕ → ℕ

-- `time.Now()`, which does not fail
clock : M ℕ
clock w = (ok (w.script w.calls).at, record w { calls = suc w.calls })

abbrev not_published : String → Error → PublishResult
not_published label e = record { published = false; error = label <> error_text e }

module _ (s : PublisherService) where
  unfoldable pub fetch_pending_events : ℕ → M (List OutboxEvent)
  fetch_pending_events = find_pending s.lib

  unfoldable pub fetch_retryable_events : ℕ → M (List OutboxEvent)
  fetch_retryable_events = find_retryable s.lib

  schedule_retry : OutboxEvent → String → M (Unit {0})
  unfolding clock
  schedule_retry e details w =
      (do
        now ← clock
        labelled "failed to mark event as failed"
            (mark_failed e.id details (some (now + s.backoff e.retry_count w.calls))))
        w

  unfoldable pub handle_publish_failure : OutboxEvent → Error → M (Unit {0})
  unfolding schedule_retry
  handle_publish_failure e cause =
      if leb e.max_retries e.retry_count
      then labelled "failed to mark event as permanently failed"
          (mark_permanently_failed e.id (error_text cause))
      else schedule_retry e (error_text cause)

  -- what follows the answer of `MarkPublished`
  abbrev after_mark : Result (Unit {0}) × World → Result PublishResult × World
  after_mark (ok _, w) = (ok (record { published = true; error = "" }), w)
  after_mark (err e, w) = (ok (not_published "failed to mark as published: " e), w)

  -- what follows the answer of `queue.Publish`
  abbrev after_publish : OutboxEvent → Result (Unit {0}) × World → Result PublishResult × World
  after_publish claimed (ok _, w) = after_mark (mark_published claimed.id w)
  after_publish claimed (err e, w) =
      (ok (not_published "failed to publish to queue: " e), (handle_publish_failure claimed e w).1)

  -- what follows the answer of `ClaimForProcessing`
  abbrev after_claim : Result OutboxEvent × World → Result PublishResult × World
  after_claim (ok claimed, w) =
      after_publish claimed (publish s.lib s.exchange_name claimed.event_type claimed.payload w)
  after_claim (err e, w) = (ok (not_published "failed to claim event: " e), w)

  unfoldable pub publish_event : OutboxEvent → M PublishResult
  unfolding handle_publish_failure
  publish_event e w = after_claim (claim_for_processing s.lib e.id w)
