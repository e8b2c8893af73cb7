-- ===== src/Publisher/Delivery.antt =====
-- PublishEvent: what is sent and what the row says, on every path.
use svc_web_analyzer.Prelude.{
  suc, ◌+◌, ◌≡◌, refl, ◌⊎◌, inl, inr, ◌∙◌, some, List, [], ◌∷◌, ◌++◌, arith,
}
use svc_web_analyzer.Domain.{OutboxEvent, PublishResult, Error, Result, ok, err, error_text}
use svc_web_analyzer.World.{OutboxRow, Publication, World, outcome}
use svc_web_analyzer.Outbox.{claim_for_processing, mark_published, convert_row}
use svc_web_analyzer.Queue.{publish}
use svc_web_analyzer.Publisher.{
  PublisherService, handle_publish_failure, after_mark, after_publish, after_claim, publish_event,
}
use svc_web_analyzer.Publisher.Frame.{
  sent-claim_for_processing, sent-mark_published, sent-mark_failed, sent-mark_permanently_failed,
  publish_ok, publish_err,
}

-- at most one message more than before
abbrev pub AddsAtMostOne : List Publication → List Publication → Type 0
AddsAtMostOne xs ys = (ys ≡ xs) ⊎ ((p : Publication) × (ys ≡ xs ++ p ∷ []))

AddsAtMostOne-trans :
    {xs ys zs : List Publication} → ys ≡ xs → AddsAtMostOne ys zs → AddsAtMostOne xs zs
AddsAtMostOne-trans e (inl same) = inl (same ∙ e)
AddsAtMostOne-trans e (inr (p, more)) = inr (p, rw (← e) more)

module _ (s : PublisherService) where
  sent-handle_publish_failure :
      (e : OutboxEvent) (cause : Error) (w : World)
      → (handle_publish_failure s e cause w).1.sent ≡ w.sent
  unfolding handle_publish_failure
  sent-handle_publish_failure e cause w = ground (
    arith,
    sent-mark_permanently_failed e.id (error_text cause) w,
    sent-mark_failed e.id (error_text cause)
        (some ((w.script w.calls).at + s.backoff e.retry_count w.calls))
        (record w { calls = suc w.calls }),
  )

  sent-after_mark : (r : Result (Unit {0}) × World) → (after_mark s r).1.sent ≡ r.1.sent
  sent-after_mark (ok _, w) = refl
  sent-after_mark (err e, w) = refl

  sent-after_publish :
      (c : OutboxEvent) (w : World)
      → AddsAtMostOne w.sent
          (after_publish s c (publish s.lib s.exchange_name c.event_type c.payload w)).1.sent
  sent-after_publish c w = elim (outcome (publish s.lib s.exchange_name c.event_type c.payload w)) [
    | inl (_, u, sent) ↦
        let (body, _, queued, _) = publish_ok s.lib s.exchange_name c.event_type c.payload w sent in
        rw sent
          (inr (_, sent-after_mark (mark_published c.id u) ∙ sent-mark_published c.id u ∙ queued))
    | inr (e, u, refused) ↦ rw refused (
        inl (
          sent-handle_publish_failure c e u
          ∙ (publish_err s.lib s.exchange_name c.event_type c.payload w refused).0))
  ]

  after_mark_returns :
      (r : Result (Unit {0}) × World) → (res : PublishResult) × ((after_mark s r).0 ≡ ok res)
  after_mark_returns (ok _, w) = (_, refl)
  after_mark_returns (err e, w) = (_, refl)

  after_publish_returns :
      (c : OutboxEvent) (r : Result (Unit {0}) × World)
      → (res : PublishResult) × ((after_publish s c r).0 ≡ ok res)
  after_publish_returns c (ok _, w) = after_mark_returns (mark_published c.id w)
  after_publish_returns c (err e, w) = (_, refl)

  after_claim_returns :
      (r : Result OutboxEvent × World) → (res : PublishResult) × ((after_claim s r).0 ≡ ok res)
  after_claim_returns (ok c, w) = after_publish_returns c _
  after_claim_returns (err e, w) = (_, refl)

  -- One call of PublishEvent returns no error of its own, whatever the drivers answer, and adds at
  -- most one message to those sent.
  pub publish_event_sends :
      (e : OutboxEvent) (w : World)
      → ((res : PublishResult) × ((publish_event s e w).0 ≡ ok res))
        × AddsAtMostOne w.sent (publish_event s e w).1.sent
  unfolding publish_event
  publish_event_sends e w = (
    after_claim_returns (claim_for_processing s.lib e.id w),
    elim (outcome (claim_for_processing s.lib e.id w)) [
      | inl (c, u, claimed) ↦
          rw claimed (AddsAtMostOne-trans (kept claimed) (sent-after_publish c u))
      | inr (x, u, refused) ↦ rw refused (inl (kept refused))
    ],
  )
    where
      kept :
          {r : Result OutboxEvent} {u : World}
          → claim_for_processing s.lib e.id w ≡ (r, u)
          → u.sent ≡ w.sent
      kept h = rw h at (sent-claim_for_processing s.lib e.id w)

  -- `convert_row` keeps the id that `uuid.Parse` reads, and the type of the event.
  pub converted :
      (r : OutboxRow) {c : OutboxEvent}
      → convert_row s.lib r ≡ ok c
      → (s.lib.parse_uuid r.id ≡ some c.id) × (c.event_type ≡ r.event_type)
  unfolding convert_row
  converted r h = (ground arith, ground arith)
