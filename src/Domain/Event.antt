-- ===== src/Domain/Event.antt =====
-- internal/domain/analysis.go: the methods of `OutboxEvent`, which move an event along its timeline.
use svc_web_analyzer.Prelude.{
  ℕ, ◌+◌, String, Bool, true, false, Option, none, some, ltb, leb, if◌then◌else◌,
}
use svc_web_analyzer.Domain.{
  OutboxEvent, OutboxStatus, Result, ok, err, invalid_transition, max_retries_exceeded,
}

abbrev pub status_text : OutboxStatus → String
status_text OutboxStatus.pending = "pending"
status_text OutboxStatus.processing = "processing"
status_text OutboxStatus.published = "published"
status_text OutboxStatus.failed = "failed"

abbrev pub is_processing : OutboxStatus → Bool
is_processing OutboxStatus.processing = true
is_processing _ = false

abbrev pub is_published : OutboxStatus → Bool
is_published OutboxStatus.published = true
is_published _ = false

-- A method that assigns through its pointer returns the new event; an error leaves the event alone.
unfoldable pub mark_published : OutboxEvent → ℕ → Result OutboxEvent
mark_published e now =
    if is_processing e.status
    then ok (record e { status = OutboxStatus.published; published_at = some now })
    else err (invalid_transition (status_text e.status) (status_text OutboxStatus.published))

unfoldable pub mark_processed : OutboxEvent → ℕ → Result OutboxEvent
mark_processed e now =
    if is_published e.status
    then ok (record e { processed_at = some now })
    else err (invalid_transition (status_text e.status) "processed")

unfoldable pub mark_completed : OutboxEvent → ℕ → Result OutboxEvent
mark_completed e now = elim e.processed_at [
  | none ↦ err (invalid_transition (status_text e.status) "completed")
  | some _ ↦ ok (record e { completed_at = some now })
]

unfoldable pub mark_failed : OutboxEvent → String → Option ℕ → Result OutboxEvent
mark_failed e details next =
    if leb e.max_retries e.retry_count
    then err (max_retries_exceeded e.id e.retry_count e.max_retries)
    else ok (record e {
      status = OutboxStatus.failed;
      error_details = some details;
      next_retry_at = next;
      retry_count = e.retry_count + 1;
    })

unfoldable pub can_retry : OutboxEvent → Bool
can_retry e = ltb e.retry_count e.max_retries
