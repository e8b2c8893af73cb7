-- ===== src/Tests/Outbox.antt =====
-- The outbox and its publisher.
use svc_web_analyzer.Prelude.{
  ◌≡◌, ◌≢◌, refl, ◌≤◌, ℕ, ◌+◌, ◌*◌, List, true, false, none, some, [], ◌∷◌, length,
}
use svc_web_analyzer.Domain.{
  OutboxEvent, OutboxStatus, PublishResult, ok, err, failure, invalid_transition,
  max_retries_exceeded,
}
use svc_web_analyzer.Domain.Errors.{error_text}
use svc_web_analyzer.Domain.Event
use svc_web_analyzer.World.{OutboxRow, World, external, in_tx, close_tx}
use svc_web_analyzer.Outbox.{
  claim_for_processing, claim, claimed_row, convert_row, mark_failed, mark_published, mark_row,
  unmarshal_payload, update_where,
}
use svc_web_analyzer.Outbox.Rows.{count_rows, is_open, set_published, update_rows}
use svc_web_analyzer.Outbox.Table.{lookup}
use svc_web_analyzer.Outbox.Claims.{claim_takes, started_at_read}
use svc_web_analyzer.Outbox.Interleaved
use svc_web_analyzer.Outbox.Interleaved.{claims, claim_excludes}
use svc_web_analyzer.Outbox.Refines.{marks-convert}
use svc_web_analyzer.Queue.{publish, channel_publish, marshalled}
use svc_web_analyzer.Publisher.{publish_event, handle_publish_failure}
use svc_web_analyzer.Publisher.Delivery.{AddsAtMostOne, publish_event_sends}
use svc_web_analyzer.Publisher.Published.{IsPublished, publish_event-IsPublished}
use svc_web_analyzer.Publisher.Retries.{
  row_after_failure, handle_publish_failure_row, retryable_stays,
}
use svc_web_analyzer.Processor.Loop.{Wakeup, done, start, start_sends, tick, ticks}
use svc_web_analyzer.Tests.Data.{lib, row, event, world, succeeds, fails, publisher}

abbrev open_world : World
open_world =
    world succeeds (row "e1" OutboxStatus.pending 0 ∷ row "e2" OutboxStatus.failed 1 ∷ []) []

abbrev faulty : World
faulty = world fails (row "e1" OutboxStatus.pending 0 ∷ []) []

abbrev claimed_world : World
unfolding claim_for_processing in_tx claim external claimed_row close_tx convert_row update_rows
claimed_world = (claim_for_processing lib "e1" open_world).1

abbrev claimed_event : OutboxEvent
claimed_event = record (event "e1" OutboxStatus.processing 0) { started_at = some 100 }

-- another publisher has claimed the other event
abbrev busy_world : World
unfolding claim_for_processing
busy_world = (claim_for_processing lib "e2" claimed_world).1

claim_excludes_example : claim_for_processing lib "e1" busy_world ≢ (ok claimed_event, busy_world)
unfolding claim_for_processing in_tx claim external claimed_row close_tx convert_row update_rows
claim_excludes_example =
    claim_excludes lib "e1" open_world claimed_world busy_world busy_world {e = claimed_event}
      {d = claimed_event} refl
      (claims claimed_world busy_world "e2" (Interleaved.start claimed_world refl) refl)

claim_takes_example :
    (r : OutboxRow) × (lookup "e1" open_world.outbox ≡ some r)
    × (is_open r.status ≡ true)
    × (lookup "e1" claimed_world.outbox ≡ some (started_at_read open_world r))
    × (convert_row lib (started_at_read open_world r) ≡ ok claimed_event)
unfolding claim_for_processing in_tx claim external claimed_row close_tx convert_row update_rows
claim_takes_example =
    claim_takes lib "e1" open_world {e = claimed_event} {v = claimed_world} (refl, (refl, tt)) refl

abbrev published_world : World
unfolding publish_event
published_world = (publish_event publisher (event "e1" OutboxStatus.pending 0) open_world).1

publish_event-IsPublished_example : IsPublished publisher "e1" open_world published_world
unfolding publish_event publish channel_publish marshalled mark_published mark_row update_where
    claim_for_processing in_tx claim external claimed_row close_tx convert_row update_rows
    count_rows
publish_event-IsPublished_example =
    publish_event-IsPublished publisher (event "e1" OutboxStatus.pending 0) open_world
      published_world {res = record { published = true; error = "" }} (refl, (refl, tt)) refl refl
      refl

publish_event_sends_example :
    ((res : PublishResult) × ((publish_event publisher (event "e1" OutboxStatus.pending 0) faulty).0
        ≡ ok res))
    × AddsAtMostOne faulty.sent
        (publish_event publisher (event "e1" OutboxStatus.pending 0) faulty).1.sent
publish_event_sends_example =
    publish_event_sends publisher (event "e1" OutboxStatus.pending 0) faulty

handle_publish_failure_row_example :
    lookup "e1"
      (handle_publish_failure publisher
        (event "e1" OutboxStatus.processing 0)
        (failure "closed")
        open_world).1.outbox
    ≡ some (
        row_after_failure publisher
          (event "e1" OutboxStatus.processing 0)
          "closed"
          100
          0
          (row "e1" OutboxStatus.pending 0))
unfolding handle_publish_failure mark_failed mark_row update_where in_tx external close_tx
    update_rows count_rows error_text
handle_publish_failure_row_example =
    handle_publish_failure_row publisher (event "e1" OutboxStatus.processing 0) (failure "closed")
      open_world
      (handle_publish_failure publisher (event "e1" OutboxStatus.processing 0) (failure "closed")
        open_world).1
      (row "e1" OutboxStatus.pending 0) refl refl

abbrev due_world : World
due_world =
    world succeeds
      (record (row "e2" OutboxStatus.failed 1) { next_retry_at = some 90 }
        ∷ row "e1" OutboxStatus.pending 0
        ∷ [])
      []

abbrev due_event : OutboxEvent
due_event = record (event "e2" OutboxStatus.failed 1) { next_retry_at = some 90 }

-- two ticks, the first with the pending events first, and then the shutdown
abbrev wakeups : List Wakeup
wakeups = tick true ∷ tick false ∷ done (failure "context canceled") ∷ []

start_sends_example :
    length (start publisher wakeups open_world).1.sent ≤ length open_world.sent + 20 * ticks wakeups
start_sends_example = start_sends publisher wakeups open_world

marks-convert_example :
    (Event.mark_published (event "e1" OutboxStatus.processing 3) 9
      ≡ convert_row lib (set_published 9 (row "e1" OutboxStatus.processing 3)))
    × (Event.mark_processed (event "e1" OutboxStatus.processing 3) 9
        ≡ err (invalid_transition "processing" "processed"))
    × (Event.mark_completed (event "e1" OutboxStatus.processing 3) 9
        ≡ err (invalid_transition "processing" "completed"))
    × (Event.mark_failed (event "e1" OutboxStatus.processing 3) "closed" none
        ≡ err (max_retries_exceeded "e1" 3 3))
unfolding convert_row unmarshal_payload
marks-convert_example =
    marks-convert lib (row "e1" OutboxStatus.processing 3)
      {e = event "e1" OutboxStatus.processing 3} refl 9 "closed" none

abbrev due_row : OutboxRow
due_row = record (row "e2" OutboxStatus.failed 1) { next_retry_at = some 90 }

abbrev retried_event : OutboxEvent
retried_event = record due_event { status = OutboxStatus.processing; started_at = some 100 }

retryable_stays_example :
    (x : OutboxRow) × (due : ℕ) × (lookup "e2"
        (handle_publish_failure publisher retried_event (failure "closed") due_world).1.outbox
      ≡ some x)
    × (x.status ≡ OutboxStatus.failed)
    × (x.next_retry_at ≡ some due)
    × (x.retry_count ≡ 2)
unfolding handle_publish_failure mark_failed mark_row update_where in_tx external close_tx
    update_rows count_rows error_text convert_row unmarshal_payload
retryable_stays_example =
    retryable_stays publisher retried_event (failure "closed") due_world
      (handle_publish_failure publisher retried_event (failure "closed") due_world).1 due_row
      due_row 100 100 refl refl refl refl
