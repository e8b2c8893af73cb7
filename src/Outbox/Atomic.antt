-- ===== src/Outbox/Atomic.antt =====
-- internal/adapters/repos/outbox_repository.go: a method that fails inside its transaction has not
-- changed the table; what success means for each statement.
use svc_web_analyzer.Prelude.{
  ℕ, suc, ◌≡◌, ◌≢◌, String, none, some, arith, first, Option-cases, inl, inr,
}
use svc_web_analyzer.Domain.{OutboxEvent, Error, Result, ok, err}
use svc_web_analyzer.World.{OutboxRow, World, M, external, close_tx, in_tx}
use svc_web_analyzer.Libraries.{Libraries}
use svc_web_analyzer.Outbox.Rows.{by_id, is_claimable, update_rows, set_claimed}
use svc_web_analyzer.Outbox.Table.{lookup, count_absent}
use svc_web_analyzer.Outbox.{
  claim, claimed_row, convert_row, update_where, mark_row, claim_for_processing,
}

module _ {ℓ} {A : Type ℓ} where
  close_tx_error :
      (begun : World) (r : Result A × World) {e : Error} {v : World}
      → close_tx begun r ≡ (err e, v)
      → v.outbox ≡ begun.outbox
  unfolding close_tx
  close_tx_error begun (ok a, w) h = ground arith
  close_tx_error begun (err e, w) h = ground arith

  -- A transaction that returns an error leaves the outbox as it was.
  pub in_tx_error :
      (body : M A) (w : World) {e : Error} {v : World}
      → in_tx body w ≡ (err e, v)
      → v.outbox ≡ w.outbox
  unfolding in_tx external
  in_tx_error body w {e} {v} h =
      let begun : World = record w { calls = suc w.calls } in
      ground (arith, close_tx_error begun (body begun) {e = e} {v = v})

  close_tx_ok :
      (begun : World) (r : Result A × World) {a : A} {v : World}
      → close_tx begun r ≡ (ok a, v)
      → (u : World) × (r ≡ (ok a, u)) × (v ≡ record u { calls = suc u.calls })
  unfolding close_tx
  close_tx_ok begun (ok b, w) h = (w, ground arith, ground arith)
  close_tx_ok begun (err e, w) h = absurd (ground arith)

  -- A transaction that succeeds has run its statements to success, and commits what they wrote.
  pub in_tx_ok :
      (body : M A) (w : World) {a : A} {v : World}
      → in_tx body w ≡ (ok a, v)
      → (u : World) × (body (record w { calls = suc w.calls }) ≡ (ok a, u))
        × (v ≡ record u { calls = suc u.calls })
  unfolding in_tx external
  in_tx_ok body w {a} {v} h =
      let begun : World = record w { calls = suc w.calls } in
      close_tx_ok begun (body begun) {a = a} {v = v} (ground arith)

-- The row of the id is rewritten, and the table had it.
pub mark_row_ok :
    (label id : String) (change : ℕ → OutboxRow → OutboxRow) (w : World) {v : World}
    → mark_row label id change w ≡ (ok tt, v)
    → (lookup id w.outbox ≢ none)
      × (v ≡ record w {
        calls = suc (suc w.calls);
        outbox = update_rows (by_id id) (change (w.script w.calls).at) w.outbox;
      })
unfolding mark_row update_where external
mark_row_ok label id change w {v} h = (ground (arith, count_absent id w.outbox), ground arith)

-- What a claim that succeeds has done: the first row of the id that was open is now processing.
pub claim_ok :
    (lib : Libraries) (id : String) (w : World) {e : OutboxEvent} {v : World}
    → claim_for_processing lib id w ≡ (ok e, v)
    → let now = (w.script (suc w.calls)).at in
      (r : OutboxRow) × (first (is_claimable id) w.outbox ≡ some r)
      × (convert_row lib (set_claimed now r) ≡ ok e)
      × (v ≡ record w {
        calls = suc (suc (suc w.calls));
        outbox = update_rows (is_claimable id) (set_claimed now) w.outbox;
      })
unfolding claim_for_processing claim claimed_row external
claim_ok lib id w {e} {v} h = elim (Option-cases (first (is_claimable id) w.outbox)) [
  | inl absent ↦ absurd (ground (arith, inner.1))
  | inr (r, found) ↦ (r, found, ground (arith, inner.1), ground (arith, inner.1, inner.2))
]
  where
    inner :
        (u : World) × (claim lib id (record w { calls = suc w.calls }) ≡ (ok e, u))
        × (v ≡ record u { calls = suc u.calls })
    inner = in_tx_ok (claim lib id) w h

-- A statement in its own transaction, when it succeeds.
pub tx_row_ok :
    (label id : String) (change : ℕ → OutboxRow → OutboxRow) (w : World) {v : World}
    → in_tx (mark_row label id change) w ≡ (ok tt, v)
    → (lookup id w.outbox ≢ none)
      × (v.outbox ≡ update_rows (by_id id) (change (w.script (suc w.calls)).at) w.outbox)
tx_row_ok label id change w h =
    let begun : World = record w { calls = suc w.calls } in
    let (u, ran, final) = in_tx_ok (mark_row label id change) w h in
    let (there, wrote) = mark_row_ok label id change begun ran in (there, ground arith)
