-- ===== src/Outbox/Claims.antt =====
-- internal/adapters/repos/outbox_repository.go, ClaimForProcessing: who may process an event.
use svc_web_analyzer.Prelude.{suc, ◌≡◌, String, true, some, arith}
use svc_web_analyzer.Domain.{OutboxEvent, OutboxStatus, Error, ok, err}
use svc_web_analyzer.World.{OutboxRow, World}
use svc_web_analyzer.Libraries.{Libraries}
use svc_web_analyzer.Outbox.Rows.{is_open}
use svc_web_analyzer.Outbox.Table.{lookup, HasUniqueIds, lookup-claim, first-claimable}
use svc_web_analyzer.Outbox.Atomic.{in_tx_error, claim_ok}
use svc_web_analyzer.Outbox.{claim, claim_for_processing, convert_row}

-- the row as it is processed from the time that the database reads, in the call after the BEGIN
abbrev pub started_at_read : World → OutboxRow → OutboxRow
started_at_read w r = record r {
  status = OutboxStatus.processing;
  started_at = some (w.script (suc w.calls)).at;
}

module _ (lib : Libraries) (id : String) where
  -- A claim that returns an error leaves every row of the outbox as it was.
  pub claim_error_unchanged :
      (w : World) {e : Error} {v : World}
      → claim_for_processing lib id w ≡ (err e, v)
      → v.outbox ≡ w.outbox
  unfolding claim_for_processing
  claim_error_unchanged w h = in_tx_error (claim lib id) w h

  -- In a table with distinct ids a successful claim found the row of the id pending or failed,
  -- and that row is now processing, started at the time the database read in the claim's statement,
  -- and unchanged else; the event returned is that row's.
  pub claim_takes :
      (w : World) {e : OutboxEvent} {v : World}
      → HasUniqueIds w.outbox
      → claim_for_processing lib id w ≡ (ok e, v)
      → (r : OutboxRow) × (lookup id w.outbox ≡ some r)
        × (is_open r.status ≡ true)
        × (lookup id v.outbox ≡ some (started_at_read w r))
        × (convert_row lib (started_at_read w r) ≡ ok e)
  claim_takes w {e} {v} u h =
      let now = (w.script (suc w.calls)).at in
      let (r, found, converts, v_is) = claim_ok lib id w h in
      let (at_id, open_row) = first-claimable id w.outbox u found in
      (r, at_id, open_row, ground (arith, lookup-claim id now w.outbox), converts)
