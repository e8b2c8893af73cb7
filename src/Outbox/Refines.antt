-- ===== src/Outbox/Refines.antt =====
-- internal/adapters/repos/outbox_repository.go against internal/domain/analysis.go: the statements
-- and the methods of `OutboxEvent` that stand for the same transition.
use svc_web_analyzer.Prelude.{ℕ, ◌≡◌, String, Option, leb, arith, if◌then◌else◌, is_some}
use svc_web_analyzer.Domain.{OutboxEvent, ok, err, invalid_transition, max_retries_exceeded}
use svc_web_analyzer.Domain.Event
use svc_web_analyzer.Domain.Event.{is_processing, is_published, status_text}
use svc_web_analyzer.World.{OutboxRow}
use svc_web_analyzer.Libraries.{Libraries}
use svc_web_analyzer.Outbox.Rows.{set_published, set_processed, set_completed, set_failed}
use svc_web_analyzer.Outbox.{convert_row}

module _ (lib : Libraries) (r : OutboxRow) {e : OutboxEvent}
    (converts : convert_row lib r ≡ ok e) where
  mark_published-convert :
      (now : ℕ)
      → Event.mark_published e now ≡ (
          if is_processing r.status
          then convert_row lib (set_published now r)
          else err (invalid_transition (status_text r.status) "published"))
  unfolding Event.mark_published convert_row
  mark_published-convert now = ground arith

  mark_processed-convert :
      (now : ℕ)
      → Event.mark_processed e now ≡ (
          if is_published r.status
          then convert_row lib (set_processed now r)
          else err (invalid_transition (status_text r.status) "processed"))
  unfolding Event.mark_processed convert_row
  mark_processed-convert now = ground arith

  mark_failed-convert :
      (details : String) (next : Option ℕ) (now : ℕ)
      → Event.mark_failed e details next ≡ (
          if leb r.max_retries r.retry_count
          then err (max_retries_exceeded e.id r.retry_count r.max_retries)
          else convert_row lib (set_failed details next now r))
  unfolding Event.mark_failed convert_row
  mark_failed-convert details next now = ground arith

  mark_completed-convert :
      (now : ℕ)
      → Event.mark_completed e now ≡ (
          if is_some r.processed_at
          then convert_row lib (set_completed now r)
          else err (invalid_transition (status_text r.status) "completed"))
  unfolding Event.mark_completed convert_row
  mark_completed-convert now = ground arith

  -- On the event of a row, each of the domain's four transitions is the repository's statement for
  -- it, where the transition is valid: publishing a row that is processing, marking a published one
  -- as processed, completing one that has been processed, and failing one that has retries left; and
  -- elsewhere it is the transition's own error.
  pub marks-convert :
      (now : ℕ) (details : String) (next : Option ℕ)
      → (Event.mark_published e now ≡ (
          if is_processing r.status
          then convert_row lib (set_published now r)
          else err (invalid_transition (status_text r.status) "published")))
        × (Event.mark_processed e now ≡ (
            if is_published r.status
            then convert_row lib (set_processed now r)
            else err (invalid_transition (status_text r.status) "processed")))
        × (Event.mark_completed e now ≡ (
            if is_some r.processed_at
            then convert_row lib (set_completed now r)
            else err (invalid_transition (status_text r.status) "completed")))
        × (Event.mark_failed e details next ≡ (
            if leb r.max_retries r.retry_count
            then err (max_retries_exceeded e.id r.retry_count r.max_retries)
            else convert_row lib (set_failed details next now r)))
  marks-convert now details next = (
    mark_published-convert now,
    mark_processed-convert now,
    mark_completed-convert now,
    mark_failed-convert details next now,
  )
