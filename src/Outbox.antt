-- ===== src/Outbox.antt =====
-- internal/adapters/repos/outbox_repository.go: the `outbox_events` table and its statements. An
-- `UPDATE … WHERE id = …` rewrites the matching rows; the statements' texts are built without error.
pub mod Rows
pub mod Table
pub mod Atomic
pub mod Claims
pub mod Queries
pub mod Refines
pub mod Insert
pub mod Interleaved
use svc_web_analyzer.Prelude.{
  ℕ, zero, suc, ◌+◌, ◌/◌, String, ◌<>◌, Bool, true, false, ◌&&◌, ◌||◌, Option, none, some, List, [],
  ◌∷◌, ◌++◌, leb, ltb, ◌==◌, if◌then◌else◌, str_eq, any, keep, take, first, sort_by,
}
use svc_web_analyzer.Domain.{
  OutboxEvent, OutboxStatus, Priority, Payload, request, generic, Error, Result, ok, err, failure,
  message, wrapped, analysis_requested, analysis_retry, decimal,
}
use mathlib.Core.Option
use svc_web_analyzer.World.{
  OutboxRow, World, M, pure, fail, lifted, ◌>>=◌, ◌>>◌, labelled, external, in_tx,
}
use svc_web_analyzer.Libraries.{Libraries}
use Rows.{
  by_id, update_rows, count_rows, set_claimed, set_published, set_processed, set_completed,
  set_failed, set_permanently_failed, before_pending, before_retry, newest, is_claimable,
  is_pending, is_retryable,
}

abbrev pub nil_uuid : String
nil_uuid = "00000000-0000-0000-0000-000000000000"

-- `time.Time.Unix` of a time in nanoseconds
abbrev unix : ℕ → ℕ
unix t = t / 1000000000

-- an `UPDATE`: the driver's answer, then the rows; the rows affected are returned
unfoldable pub update_where : String → (ℕ → OutboxRow → OutboxRow) → (OutboxRow → Bool) → M ℕ
unfolding external
update_where label change p = do
  now ← labelled label external
  (λ w. (ok (count_rows p w.outbox), record w { outbox = update_rows p (change now) w.outbox }))

-- `if rowsAffected == 0 { return fmt.Errorf("event not found: %s", eventID) }`
abbrev require_rows : String → ℕ → M (Unit {0})
require_rows id affected =
    if affected == 0 then fail (message ("event not found: " <> id)) else pure tt

-- The statement, `result.RowsAffected` and the test that five methods share.
unfoldable pub mark_row : String → String → (ℕ → OutboxRow → OutboxRow) → M (Unit {0})
mark_row label id change = do
  affected ← update_where label change (by_id id)
  _ ← labelled "failed to get rows affected" external
  require_rows id affected

abbrev pub or_error {ℓ} : {A : Type ℓ} → Option A → Error → Result A
or_error none e = err e
or_error (some a) e = ok a

infixl 5 ◌⟫◌
abbrev ◌⟫◌ {ℓ κ} : {A : Type ℓ} {B : Type κ} → Result A → (A → Result B) → Result B
ok a ⟫ f = f a
err e ⟫ f = err e

module _ (lib : Libraries) where
  -- `uuid.Parse` under the label of its column
  abbrev parsed_uuid : String → String → Result String
  parsed_uuid label s =
      or_error (lib.parse_uuid s) (wrapped ("failed to parse " <> label) (failure "invalid UUID"))

  -- the text of a JSON error is the library's
  unfoldable pub unmarshal_payload : String → String → Result Payload
  unmarshal_payload event_type payload =
      if str_eq event_type analysis_requested || str_eq event_type analysis_retry
      then or_error (Option.map request (lib.unmarshal_request payload))
          (wrapped "failed to unmarshal AnalysisRequestPayload" (failure "invalid JSON"))
      else or_error (Option.map generic (lib.unmarshal_any payload))
          (wrapped "failed to unmarshal generic payload" (failure "invalid JSON"))

  abbrev label_payload : Result Payload → Result Payload
  label_payload (ok p) = ok p
  label_payload (err e) = err (wrapped "failed to unmarshal payload" e)

  unfoldable pub convert_row : OutboxRow → Result OutboxEvent
  unfolding unmarshal_payload
  convert_row r = parsed_uuid "id" r.id ⟫ λ id.
      parsed_uuid "aggregate_id" r.aggregate_id ⟫ λ aggregate_id.
      label_payload (unmarshal_payload r.event_type r.payload) ⟫ λ payload. ok (record {
        id = id;
        aggregate_id = aggregate_id;
        aggregate_type = r.aggregate_type;
        event_type = r.event_type;
        priority = r.priority;
        retry_count = r.retry_count;
        max_retries = r.max_retries;
        status = r.status;
        payload = payload;
        error_details = r.error_details;
        created_at = r.created_at;
        started_at = r.started_at;
        published_at = r.published_at;
        processed_at = r.processed_at;
        completed_at = r.completed_at;
        next_retry_at = r.next_retry_at;
      })

  -- the loop over the rows; the first row that does not convert ends it
  unfoldable pub convert_rows : List OutboxRow → Result (List OutboxEvent)
  unfolding convert_row
  convert_rows [] = ok []
  convert_rows (r ∷ rs) = convert_row r ⟫ λ e. convert_rows rs ⟫ λ es. ok (e ∷ es)

  -- SELECT … WHERE … ORDER BY … LIMIT; the criteria may read NOW()
  unfoldable pub find_by_criteria :
      (ℕ → OutboxRow → Bool) → (OutboxRow → OutboxRow → Bool) → ℕ → String → M (List OutboxEvent)
  unfolding external
  find_by_criteria criteria order limit context = do
    now ← labelled ("failed to query " <> context) external
    (λ w. (convert_rows (take limit (sort_by order (keep (criteria now) w.outbox))), w))

  unfoldable pub find_pending : ℕ → M (List OutboxEvent)
  unfolding find_by_criteria
  find_pending limit =
      find_by_criteria (λ now r. is_pending r.status) before_pending limit "pending outbox events"

  unfoldable pub find_retryable : ℕ → M (List OutboxEvent)
  unfolding find_by_criteria
  find_retryable limit = find_by_criteria is_retryable before_retry limit "retryable outbox events"

  -- UPDATE … RETURNING: the first row that the statement rewrites, if there is one
  unfoldable pub claimed_row : ℕ → String → List OutboxRow → Result OutboxRow
  claimed_row now id rows = elim (first (is_claimable id) rows) [
    | none ↦ err (message "event not found or already claimed")
    | some r ↦ ok (set_claimed now r)
  ]

  unfoldable pub claim : String → M OutboxEvent
  claim id = do
    now ← labelled "failed to claim event" external
    row ← (λ w. (
      claimed_row now id w.outbox,
      record w { outbox = update_rows (is_claimable id) (set_claimed now) w.outbox },
    ))
    lifted (convert_row row)

  unfoldable pub claim_for_processing : String → M OutboxEvent
  claim_for_processing id = in_tx (claim id)

  -- the event of the newest row of an aggregate
  unfoldable pub newest_event : String → List OutboxRow → Result OutboxEvent
  newest_event id [] = err (message ("outbox event not found for aggregate ID: " <> id))
  newest_event id (r ∷ _) = convert_row r

  unfoldable pub get_by_aggregate_id : String → M OutboxEvent
  unfolding newest_event external
  get_by_aggregate_id id = do
    _ ← labelled "failed to query outbox event by aggregate ID" external
    (λ w. (newest_event id (sort_by newest (keep (λ r. str_eq r.aggregate_id id) w.outbox)), w))

  -- `event.ID` is made from the event's contents where it is nil
  unfoldable pub event_id : OutboxEvent → String
  event_id e =
      if str_eq e.id nil_uuid
      then lib.new_sha1 "outbox"
          (e.aggregate_id <> "::" <> e.event_type <> "::" <> decimal (unix e.created_at))
      else e.id

  unfoldable pub row_of : OutboxEvent → String → OutboxRow
  unfolding event_id
  row_of e payload = record {
    id = event_id e;
    aggregate_id = e.aggregate_id;
    aggregate_type = e.aggregate_type;
    event_type = e.event_type;
    priority = e.priority;
    retry_count = e.retry_count;
    max_retries = e.max_retries;
    status = e.status;
    payload = payload;
    error_details = none;
    created_at = e.created_at;
    started_at = none;
    published_at = none;
    processed_at = none;
    completed_at = none;
    next_retry_at = none;
  }

  -- INSERT; the primary key refuses a second row with one id
  unfoldable pub insert_row : OutboxRow → M (Unit {0})
  insert_row r w =
      if any (by_id r.id) w.outbox
      then (err (wrapped "failed to save outbox event" (failure lib.duplicate_key)), w)
      else (ok tt, record w { outbox = w.outbox ++ r ∷ [] })

  unfoldable pub save_in_tx : OutboxEvent → M (Unit {0})
  unfolding row_of insert_row external
  save_in_tx e = do
    payload ← lifted (
        or_error (lib.marshal_payload e.payload)
          (wrapped "failed to marshal payload" (failure "unsupported value")))
    _ ← labelled "failed to save outbox event" external
    insert_row (row_of e payload)

unfoldable pub mark_published : String → M (Unit {0})
mark_published id = in_tx (mark_row "failed to mark event as published" id set_published)

unfoldable pub mark_processed : String → M (Unit {0})
mark_processed id = mark_row "failed to mark event as processed" id set_processed

unfoldable pub mark_completed : String → M (Unit {0})
mark_completed id = mark_row "failed to mark event as completed" id set_completed

unfoldable pub mark_failed : String → String → Option ℕ → M (Unit {0})
mark_failed id details next =
    in_tx (mark_row "failed to mark event as failed" id (set_failed details next))

unfoldable pub mark_permanently_failed : String → String → M (Unit {0})
mark_permanently_failed id details =
    in_tx
      (mark_row "failed to mark event as permanently failed" id (set_permanently_failed details))
