-- ===== src/Worker/Settle.antt =====
-- internal/adapters/queue/analysis_worker.go and pkg/queue/message.go: how a delivery is settled.
use svc_web_analyzer.Prelude.{
  ℕ, ◌≤◌, ◌≡◌, ◌⊎◌, inl, inr, refl, sym, ap, subst, suc, Option-cases, if-both, ltb→ge, ◌∙◌, String,
  Bool, true, false, Option, none, some, List, [], ◌∷◌, ◌++◌, ltb, arith, if◌then◌else◌,
}
use svc_web_analyzer.Domain.{AnalysisRequestPayload, ProcessResult, Result, ok, err, message}
use svc_web_analyzer.World.{World, external}
use svc_web_analyzer.Queue.{channel_publish}
use svc_web_analyzer.Subscriber.Stopping.{Step, done, stop, result_of}
use svc_web_analyzer.Subscriber.{analyse, process_analysis_request}
use svc_web_analyzer.Worker.{
  AnalysisWorker, Desk, Message, MessageCodec, Settlement, unmarshal_body, acked, ack, after_handle,
  again, handle, process_message, republish, requeue, requeue_counted, retry_count,
}

both_ack : (b : Bool) (d : Desk) → (if b then ack d else ack d) ≡ ack d
both_ack true d = refl
both_ack false d = refl

-- a result, of either kind, is acknowledged
after_handle_acks :
    (k : AnalysisWorker) (m : Message) (before : List Settlement) (r : Step ProcessResult × World)
    → after_handle k m before (result_of r)
      ≡ ack (record { world = (result_of r).1; settled = before })
after_handle_acks k m before (done a, w) =
    both_ack a.success (record { world = w; settled = before })
after_handle_acks k m before (stop a, w) =
    both_ack a.success (record { world = w; settled = before })

-- A message whose body is a request is always acknowledged once the request has run, whether the
-- analysis succeeded or failed: it is never put back on the queue.
pub process_message_acks :
    (k : AnalysisWorker) (m : Message) (d : Desk) (p : AnalysisRequestPayload)
    → unmarshal_body k.codec m ≡ some p
    → process_message k m d
      ≡ ack
          (record { world = (process_analysis_request k.service p d.world).1; settled = d.settled })
unfolding process_message process_analysis_request
process_message_acks k m d p h =
    ap (handle k m d) h ∙ after_handle_acks k m d.settled (analyse k.service p d.world)

-- what a requeue did: nothing, a copy of the message on the topic, or that and the acknowledgement
abbrev pub IsRequeued : MessageCodec → String → Message → Desk → Desk → Type 0
IsRequeued c topic m d v =
    ((v.world.sent ≡ d.world.sent) × (v.settled ≡ d.settled))
    ⊎ ((n : ℕ) × (body : String) × (retry_count m ≡ ok n)
        × (c.marshal_message m.body ≡ some body)
        × (n ≤ 10)
        × (v.world.sent ≡ d.world.sent ++ again topic body n ∷ [])
        × ((v.settled ≡ d.settled) ⊎ (v.settled ≡ d.settled ++ acked ∷ [])))

republish-IsRequeued :
    (c : MessageCodec) (topic body : String) (m : Message) (d : Desk) (n : ℕ)
    → retry_count m ≡ ok n
    → c.marshal_message m.body ≡ some body
    → n ≤ 10
    → IsRequeued c topic m d (republish topic n d (some body)).1
unfolding channel_publish external
republish-IsRequeued c topic body m d n h copy le =
    elim (Option-cases (d.world.script d.world.calls).fault) [
      | inr (x, q) ↦ inl (ground (arith, q), ground (arith, q))
      | inl q ↦ elim (Option-cases (d.world.script (suc d.world.calls)).fault) [
        | inr (x, q') ↦
            inr (n, body, h, copy, le, ground (arith, q, q'), inl (ground (arith, q, q')))
        | inl q' ↦ inr (n, body, h, copy, le, ground (arith, q, q'), inr (ground (arith, q, q')))
      ]
    ]

requeue_counted-IsRequeued :
    (c : MessageCodec) (topic : String) (m : Message) (d : Desk) (r : Result ℕ) (o : Option String)
    → retry_count m ≡ r
    → c.marshal_message m.body ≡ o
    → IsRequeued c topic m d (requeue_counted c topic m d r).1
requeue_counted-IsRequeued c topic m d (err e) o h q = inl (refl, refl)
requeue_counted-IsRequeued c topic m d (ok n) none h q = inl (ground (arith, q), ground (arith, q))
requeue_counted-IsRequeued c topic m d (ok n) (some body) h q =
    if-both (λ r. IsRequeued c topic m d r.1) (ltb 10 n) (err (message "retries count exceeded"), d)
      (republish topic n d (c.marshal_message m.body)) (λ _. inl (refl, refl))
      (λ low.
        subst (λ o. IsRequeued c topic m d (republish topic n d o).1) (sym q)
          (republish-IsRequeued c topic body m d n h q (ltb→ge 10 n low)))

-- A requeue acknowledges a delivery only after its message, encoded again and with one more retry
-- counted, was published to the topic, and publishes it only once and only where at most ten retries
-- were counted; where it publishes nothing it leaves the delivery unsettled.
pub requeue-IsRequeued :
    (c : MessageCodec) (topic : String) (m : Message) (d : Desk)
    → IsRequeued c topic m d (requeue c topic m d).1
requeue-IsRequeued c topic m d =
    requeue_counted-IsRequeued c topic m d (retry_count m) (c.marshal_message m.body) refl refl
