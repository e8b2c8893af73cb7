-- ===== src/Publisher/Published.antt =====
-- PublishEvent, when it reports that the event was published.
use svc_web_analyzer.Prelude.{
  ℕ, suc, ◌≡◌, refl, subst, ap, ◌∙◌, inl, inr, String, true, none, some, [], ◌∷◌, ◌++◌, arith,
}
use svc_web_analyzer.Domain.{OutboxEvent, PublishResult, ok}
use svc_web_analyzer.World.{OutboxRow, World, outcome}
use svc_web_analyzer.Outbox.{claim_for_processing, convert_row, mark_published}
use svc_web_analyzer.Outbox.Rows.{is_open, set_claimed, set_published}
use svc_web_analyzer.Outbox.Table.{lookup, lookup-id, lookup-update_self, HasUniqueIds}
use svc_web_analyzer.Outbox.Atomic.{tx_row_ok}
use svc_web_analyzer.Outbox.Claims.{claim_takes}
use svc_web_analyzer.Queue.{publish}
use svc_web_analyzer.Publisher.{PublisherService, after_mark, after_publish, publish_event}
use svc_web_analyzer.Publisher.Frame.{sent-claim_for_processing, sent-mark_published, publish_ok}
use svc_web_analyzer.Publisher.Delivery.{converted}

-- The row of `id` was open in `w`; in `v` it is published, and its payload is the last message sent.
pub record IsPublished (s : PublisherService) (id : String) (w v : World) : Type 0 where
  pub row : OutboxRow
  pub event : OutboxEvent
  pub body : String
  pub claimed_at : ℕ
  pub published_at : ℕ
  pub found : lookup id w.outbox ≡ some row
  pub was_open : is_open row.status ≡ true
  pub converts : convert_row s.lib (set_claimed claimed_at row) ≡ ok event
  pub marshals : s.lib.marshal_message event.payload ≡ some body
  pub sent :
      v.sent
      ≡ w.sent
        ++ record {
          exchange = s.exchange_name;
          routing_key = row.event_type;
          body = body;
          retry_count = none;
        }
          ∷ []
  pub is_now : lookup id v.outbox ≡ some (set_published published_at (set_claimed claimed_at row))

module _ (s : PublisherService) where
  -- after a successful claim and a successful `Publish`
  marked :
      (id : String) (u v : World) (r : OutboxRow) {res : PublishResult}
      → lookup id u.outbox ≡ some r
      → after_mark s (mark_published id u) ≡ (ok res, v)
      → res.published ≡ true
      → (t : ℕ) × (lookup id v.outbox ≡ some (set_published t r)) × (v.sent ≡ u.sent)
  unfolding mark_published
  marked id u v r {res} there h p = elim (outcome (mark_published id u)) [
    | inl (_, x, done) ↦
        let t = (u.script (suc u.calls)).at in
        let (_, wrote) = tx_row_ok "failed to mark event as published" id set_published u done in
        (
          t,
          ground (arith, lookup-update_self id (set_published t) (λ _. refl) u.outbox),
          ground (arith, sent-mark_published id u),
        )
    | inr (e, x, failed) ↦ absurd (ground (arith, failed))
  ]

  -- after a successful claim
  queued :
      (c : OutboxEvent) (u v : World) (r : OutboxRow) {res : PublishResult}
      → lookup c.id u.outbox ≡ some r
      → after_publish s c (publish s.lib s.exchange_name c.event_type c.payload u) ≡ (ok res, v)
      → res.published ≡ true
      → (t : ℕ) × (body : String) × (lookup c.id v.outbox ≡ some (set_published t r))
        × (s.lib.marshal_message c.payload ≡ some body)
        × (v.sent
            ≡ u.sent
              ++ record {
                exchange = s.exchange_name;
                routing_key = c.event_type;
                body = body;
                retry_count = none;
              }
                ∷ [])
  queued c u v r {res} there h p =
      elim (outcome (publish s.lib s.exchange_name c.event_type c.payload u)) [
        | inl (_, x, done) ↦
            let (body, marshals, sent, table) =
              publish_ok s.lib s.exchange_name c.event_type c.payload u done in
            let (t, now, kept) =
              marked c.id x v r {res = res} (ap (lookup c.id) table ∙ there) (ground (arith, done))
                p in
            (t, body, now, marshals, kept ∙ sent)
        | inr (e, x, refused) ↦ absurd (ground (arith, refused))
      ]

  -- If PublishEvent reports that an event was published, the row of its id was pending or failed and
  -- is now published, changed in nothing but its status and its two times, and exactly one message
  -- was sent: the row's payload, to the row's event type. The table's ids are distinct, and the
  -- event's id is a UUID in the form that the database writes.
  pub publish_event-IsPublished :
      (e : OutboxEvent) (w v : World) {res : PublishResult}
      → HasUniqueIds w.outbox
      → s.lib.parse_uuid e.id ≡ some e.id
      → publish_event s e w ≡ (ok res, v)
      → res.published ≡ true
      → IsPublished s e.id w v
  unfolding publish_event
  publish_event-IsPublished e w v {res} unique canonical h p =
      elim (outcome (claim_for_processing s.lib e.id w)) [
        | inl (c, u, claimed) ↦ from_claim c u claimed
        | inr (x, u, refused) ↦ absurd (ground (arith, refused))
      ]
    where
      from_claim :
          (c : OutboxEvent) (u : World)
          → claim_for_processing s.lib e.id w ≡ (ok c, u)
          → IsPublished s e.id w v
      from_claim c u claimed =
          let now = (w.script (suc w.calls)).at in
          let (r, at_id, was_open, taken, converts) = claim_takes s.lib e.id w unique claimed in
          let (parsed, type) = converted s (set_claimed now r) converts in
          let same : c.id ≡ e.id = ground (arith, lookup-id e.id w.outbox {r = r} at_id) in
          let (t, body, found, marshals, sent) =
            queued c u v (set_claimed now r) {res = res} (ground arith) (ground (arith, claimed))
              p in
          record {
            row = r;
            event = c;
            body = body;
            claimed_at = now;
            published_at = t;
            found = at_id;
            was_open = was_open;
            converts = converts;
            marshals = marshals;
            sent = ground (arith, sent-claim_for_processing s.lib e.id w);
            is_now =
                subst (λ i. lookup i v.outbox ≡ some (set_published t (set_claimed now r))) same
                  found;
          }
