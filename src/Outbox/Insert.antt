-- ===== src/Outbox/Insert.antt =====
-- internal/adapters/repos/outbox_repository.go, SaveInTx: the row that a saved event becomes.
use svc_web_analyzer.Prelude.{◌≡◌, refl, String, [], ◌∷◌, ◌++◌, Option, none, some, arith}
use svc_web_analyzer.Domain.{OutboxEvent, ok}
use svc_web_analyzer.World.{OutboxRow, World, external}
use svc_web_analyzer.Libraries.{Libraries}
use svc_web_analyzer.Outbox.{save_in_tx, row_of, insert_row}

-- the row of an event that is still to be sent
pub record IsRowOf (lib : Libraries) (e : OutboxEvent) (r : OutboxRow) : Type 0 where
  pub same_aggregate : r.aggregate_id ≡ e.aggregate_id
  pub same_type : r.event_type ≡ e.event_type
  pub same_status : r.status ≡ e.status
  pub same_retries : r.retry_count ≡ e.retry_count
  pub has_payload : lib.marshal_payload e.payload ≡ some r.payload
  pub same_limit : r.max_retries ≡ e.max_retries

pub save_in_tx_ok :
    (lib : Libraries) (e : OutboxEvent) (w : World) {v : World}
    → save_in_tx lib e w ≡ (ok tt, v)
    → (r : OutboxRow) × IsRowOf lib e r
      × (v.outbox ≡ w.outbox ++ r ∷ [])
      × (v.analyses ≡ w.analyses)
unfolding save_in_tx external insert_row row_of
save_in_tx_ok lib e w {v} h = go (lib.marshal_payload e.payload) refl
  where
    go :
        (o : Option String)
        → lib.marshal_payload e.payload ≡ o
        → (r : OutboxRow) × IsRowOf lib e r
          × (v.outbox ≡ w.outbox ++ r ∷ [])
          × (v.analyses ≡ w.analyses)
    go none q = absurd (ground (arith, q, h))
    go (some json) q = (
      row_of lib e json,
      record {
        same_aggregate = refl;
        same_type = refl;
        same_status = refl;
        same_retries = refl;
        has_payload = q;
        same_limit = refl;
      },
      ground (arith, q, h),
      ground (arith, q, h),
    )
