-- ===== src/Publisher/Retries.antt =====
-- PublishEvent, when the broker refuses the message: the retry that is scheduled, or the end of them.
use svc_web_analyzer.Prelude.{
  Bool-cases, ℕ, suc, ◌+◌, ◌≡◌, refl, ap, ◌∙◌, inl, inr, String, true, false, some, List, arith,
  leb, if◌then◌else◌,
}
use mathlib.Core.Option
use svc_web_analyzer.Domain.{OutboxEvent, OutboxStatus, Error, ok, error_text}
use svc_web_analyzer.World.{OutboxRow, World, relabel_ok}
use svc_web_analyzer.Outbox.{convert_row, mark_failed, mark_permanently_failed}
use svc_web_analyzer.Outbox.Rows.{
  by_id, is_retryable, set_claimed, set_failed, set_permanently_failed, update_rows,
}
use svc_web_analyzer.Outbox.Table.{lookup, lookup-update_self, KeepsId}
use svc_web_analyzer.Outbox.Atomic.{tx_row_ok}
use svc_web_analyzer.Publisher.{PublisherService, handle_publish_failure}

abbrev failure_label : String
failure_label = "failed to mark event as failed"

abbrev permanent_label : String
permanent_label = "failed to mark event as permanently failed"

row_rewritten :
    (id : String) (change : OutboxRow → OutboxRow) (keeps : KeepsId change) (ws : List OutboxRow)
    {vs : List OutboxRow} {r : OutboxRow}
    → lookup id ws ≡ some r
    → vs ≡ update_rows (by_id id) change ws
    → lookup id vs ≡ some (change r)
row_rewritten id change keeps ws there wrote =
    rw wrote (lookup-update_self id change keeps ws ∙ ap (Option.map change) there)

module _ (s : PublisherService) where
  -- What the row of a claimed event becomes: with no retry left it is failed with no time to retry;
  -- else it is failed with one retry more on its count, due after the backoff.
  pub row_after_failure : OutboxEvent → String → ℕ → ℕ → OutboxRow → OutboxRow
  row_after_failure e details now draw r =
      if leb e.max_retries e.retry_count
      then set_permanently_failed details now r
      else set_failed details (some (now + s.backoff e.retry_count draw)) now r

  -- If handlePublishFailure succeeds, the event's row is failed with the error's text: with no time
  -- to retry and the same count where the event has no retries left, and else with one retry more on
  -- its count, due after the backoff from the time that the clock read.
  pub handle_publish_failure_row :
      (e : OutboxEvent) (cause : Error) (w v : World) (r : OutboxRow)
      → lookup e.id w.outbox ≡ some r
      → handle_publish_failure s e cause w ≡ (ok tt, v)
      → lookup e.id v.outbox
        ≡ some (row_after_failure e (error_text cause) (w.script w.calls).at w.calls r)
  unfolding handle_publish_failure row_after_failure mark_failed mark_permanently_failed
  handle_publish_failure_row e cause w v r there h =
      elim (Bool-cases (leb e.max_retries e.retry_count)) [
        | inl exhausted ↦
            let ran =
              relabel_ok permanent_label (mark_permanently_failed e.id details w) {a = tt} {v = v}
                (ground arith) in
            let wrote = tx_row_ok permanent_label e.id (set_permanently_failed details) w ran in
            rw exhausted (
              row_rewritten e.id (set_permanently_failed details 0) (λ _. refl) w.outbox there
                (wrote.1))
        | inr left ↦
            let begun : World = record w { calls = suc w.calls } in
            let next = some ((w.script w.calls).at + s.backoff e.retry_count w.calls) in
            let ran =
              relabel_ok failure_label (mark_failed e.id details next begun) {a = tt} {v = v}
                (ground arith) in
            let wrote = tx_row_ok failure_label e.id (set_failed details next) begun ran in
            rw left
              (row_rewritten e.id (set_failed details next 0) (λ _. refl) w.outbox there (wrote.1))
      ]
    where
      details : String
      details = error_text cause

  converted_counts :
      (q : OutboxRow) (t : ℕ) {e : OutboxEvent}
      → convert_row s.lib (set_claimed t q) ≡ ok e
      → (e.retry_count ≡ q.retry_count) × (e.max_retries ≡ q.max_retries)
  unfolding convert_row
  converted_counts q t {e} h = ground (arith, h)

  -- Where an event was claimed from a row that FindRetryable returns, a handlePublishFailure that
  -- succeeds leaves its row failed with a time to retry, never permanently failed.
  pub retryable_stays :
      (e : OutboxEvent) (cause : Error) (w v : World) (q r : OutboxRow) (polled claimed : ℕ)
      → is_retryable polled q ≡ true
      → convert_row s.lib (set_claimed claimed q) ≡ ok e
      → lookup e.id w.outbox ≡ some r
      → handle_publish_failure s e cause w ≡ (ok tt, v)
      → (x : OutboxRow) × (due : ℕ) × (lookup e.id v.outbox ≡ some x)
        × (x.status ≡ OutboxStatus.failed)
        × (x.next_retry_at ≡ some due)
        × (x.retry_count ≡ r.retry_count + 1)
  unfolding row_after_failure
  retryable_stays e cause w v q r polled claimed due converts there h =
      let (count, limit) = converted_counts q claimed converts in
      let left : leb e.max_retries e.retry_count ≡ false = ground (arith, due, count, limit) in
      let next = (w.script w.calls).at + s.backoff e.retry_count w.calls in
      let found = handle_publish_failure_row e cause w v r there h in
      (
        set_failed (error_text cause) (some next) (w.script w.calls).at r,
        next,
        rw left at found,
        refl,
        refl,
        refl,
      )
