-- ===== src/Publisher/Frame.antt =====
-- What the steps of PublishEvent leave alone: the outbox operations send nothing, and sending does
-- not touch the outbox.
use svc_web_analyzer.Prelude.{
  ℕ, suc, ◌≡◌, refl, String, Option, none, some, [], ◌∷◌, ◌++◌, arith, Option-cases, inl, inr,
}
use svc_web_analyzer.Domain.{Payload, Error, Result, ok, err}
use svc_web_analyzer.World.{OutboxRow, World, M, external, close_tx, in_tx}
use svc_web_analyzer.Libraries.{Libraries}
use svc_web_analyzer.Outbox.{
  update_where, mark_row, claim, claimed_row, claim_for_processing, mark_published, mark_failed,
  mark_permanently_failed,
}
use svc_web_analyzer.Queue.{publish}

sent-mark_row :
    (label id : String) (change : ℕ → OutboxRow → OutboxRow) (w : World)
    → (mark_row label id change w).1.sent ≡ w.sent
unfolding mark_row update_where external
sent-mark_row label id change w = ground arith

module _ {ℓ} {A : Type ℓ} where
  sent-close_tx : (begun : World) (r : Result A × World) → (close_tx begun r).1.sent ≡ r.1.sent
  unfolding close_tx
  sent-close_tx begun (ok a, w) = ground arith
  sent-close_tx begun (err e, w) = refl

  sent-in_tx :
      (body : M A)
      → ((w : World) → (body w).1.sent ≡ w.sent)
      → (w : World) → (in_tx body w).1.sent ≡ w.sent
  unfolding in_tx external
  sent-in_tx body keeps w =
      let begun : World = record w { calls = suc w.calls } in
      ground (arith, sent-close_tx begun (body begun), keeps begun)

sent-claim : (lib : Libraries) (id : String) (w : World) → (claim lib id w).1.sent ≡ w.sent
unfolding claim claimed_row external
sent-claim lib id w = ground arith

pub sent-claim_for_processing :
    (lib : Libraries) (id : String) (w : World) → (claim_for_processing lib id w).1.sent ≡ w.sent
unfolding claim_for_processing
sent-claim_for_processing lib id w = sent-in_tx (claim lib id) (sent-claim lib id) w

pub sent-mark_published : (id : String) (w : World) → (mark_published id w).1.sent ≡ w.sent
unfolding mark_published
sent-mark_published id w = sent-in_tx _ (sent-mark_row _ id _) w

pub sent-mark_failed :
    (id details : String) (next : Option ℕ) (w : World)
    → (mark_failed id details next w).1.sent ≡ w.sent
unfolding mark_failed
sent-mark_failed id details next w = sent-in_tx _ (sent-mark_row _ id _) w

pub sent-mark_permanently_failed :
    (id details : String) (w : World) → (mark_permanently_failed id details w).1.sent ≡ w.sent
unfolding mark_permanently_failed
sent-mark_permanently_failed id details w = sent-in_tx _ (sent-mark_row _ id _) w

-- A message that `Publish` accepts is the last one sent, and the outbox is as it was.
pub publish_ok :
    (lib : Libraries) (exchange key : String) (payload : Payload) (w : World) {v : World}
    → publish lib exchange key payload w ≡ (ok tt, v)
    → (body : String) × (lib.marshal_message payload ≡ some body)
      × (v.sent
          ≡ w.sent
            ++ record { exchange = exchange; routing_key = key; body = body; retry_count = none }
              ∷ [])
      × (v.outbox ≡ w.outbox)
unfolding publish
publish_ok lib exchange key payload w {v} h = elim (Option-cases (lib.marshal_message payload)) [
  | inl failed ↦ absurd (ground arith)
  | inr (body, marshals) ↦ (body, marshals, ground arith, ground arith)
]

-- A message that `Publish` refuses is not sent, and the outbox is as it was.
pub publish_err :
    (lib : Libraries) (exchange key : String) (payload : Payload) (w : World) {e : Error}
    {v : World}
    → publish lib exchange key payload w ≡ (err e, v)
    → (v.sent ≡ w.sent) × (v.outbox ≡ w.outbox)
unfolding publish
publish_err lib exchange key payload w h = (ground arith, ground arith)
