-- ===== src/Worker/Consumer.antt =====
-- pkg/queue/queue.go, StartConsumer: the goroutine that takes deliveries one at a time, with the
-- worker as its handler. What its select finds, in order, is a list; each delivery has a desk of its
-- own.
use svc_web_analyzer.Prelude.{
  ◌≡◌, inl, inr, ap, ℕ, suc, ◌+◌, ◌≤◌, Option, Option-cases, none, some, List, [], ◌∷◌, ◌++◌, All,
  All-append, length, length-append, arith, if-both,
}
use svc_web_analyzer.Domain.{AnalysisRequestPayload, ProcessResult, Error, Result, ok, err, message}
use svc_web_analyzer.World.{World, external}
use svc_web_analyzer.Subscriber.{process_analysis_request}
use svc_web_analyzer.Worker.{
  AnalysisWorker, Delivery, Desk, Json, Message, Settlement, receive, on_decoded, unmarshal_body,
  acked, nacked, rejected, after_handle, handle, process_message, requeue, settle,
}
use svc_web_analyzer.Worker.Settle.{requeue-IsRequeued}

-- what the select of the consumer finds: a delivery, the closed channel of deliveries, or the context
-- that is done
pub data Arrival : Type 0 where
  arrived : Delivery → Arrival
  deliveries_closed : Arrival
  context_done : Error → Arrival

-- the world, the settlements of each delivery so far, oldest first, and what errChan was sent
pub record Consumer : Type 0 where
  pub world : World
  pub settlements : List (List Settlement)
  pub ended : Option Error

abbrev desk_of : Consumer → Desk
desk_of c = record { world = c.world; settled = [] }

-- a delivery has been dealt with; an error of its handler, or of the call itself, is only logged
abbrev dealt : Consumer → Result (Unit {0}) × Desk → Consumer
dealt c r = record c { world = r.1.world; settlements = c.settlements ++ r.1.settled ∷ [] }

abbrev pub IsSettledOnce : List Settlement → Type 0
IsSettledOnce ss = length ss ≤ 1

-- the deliveries that come before the consumer returns
abbrev pub taken : List Arrival → ℕ
taken [] = 0
taken (arrived a ∷ rest) = suc (taken rest)
taken (deliveries_closed ∷ rest) = 0
taken (context_done e ∷ rest) = 0

module _ (k : AnalysisWorker) where
  -- the goroutine, until nothing more arrives or it returns
  unfoldable pub consume : List Arrival → Consumer → Consumer
  consume [] c = c
  consume (arrived a ∷ rest) c = consume rest (dealt c (receive k a (desk_of c)))
  consume (deliveries_closed ∷ rest) c = record c {
    ended = some (message "delivery channel closed");
  }
  consume (context_done e ∷ rest) c = record c { ended = some e }

  settle_once :
      (how : Settlement) (w : World)
      → IsSettledOnce (settle how (record { world = w; settled = [] })).1.settled
  unfolding external
  settle_once how w = elim (Option-cases (w.script w.calls).fault) [
    | inl fine ↦ ground (arith, fine)
    | inr (e, fault) ↦ ground (arith, fault)
  ]

  requeue_once :
      (m : Message) (w : World)
      → IsSettledOnce (requeue k.codec k.topic m (record { world = w; settled = [] })).1.settled
  requeue_once m w =
      elim (requeue-IsRequeued k.codec k.topic m (record { world = w; settled = [] })) [
        | inl (sent, same) ↦ omega (arith, ap length same)
        | inr (n, body, counted, copied, few, sent, inl same) ↦ omega (arith, ap length same)
        | inr (n, body, counted, copied, few, sent, inr same) ↦ omega (arith, ap length same)
      ]

  after_handle_once :
      (m : Message) (r : Result ProcessResult × World)
      → IsSettledOnce (after_handle k m [] r).1.settled
  after_handle_once m (err e, w) = requeue_once m w
  after_handle_once m (ok result, w) =
      if-both {A = Result (Unit {0}) × Desk} (λ r. IsSettledOnce r.1.settled) result.success _ _
        (λ h. settle_once acked w) (λ h. settle_once acked w)

  handle_once :
      (m : Message) (w : World) (p : Option AnalysisRequestPayload)
      → IsSettledOnce (handle k m (record { world = w; settled = [] }) p).1.settled
  handle_once m w none = settle_once rejected w
  handle_once m w (some p) = after_handle_once m (process_analysis_request k.service p w)

  on_decoded_once :
      (a : Delivery) (w : World) (body : Option Json)
      → IsSettledOnce (on_decoded k a (record { world = w; settled = [] }) body).1.settled
  unfolding process_message
  on_decoded_once a w none = settle_once nacked w
  on_decoded_once a w (some body) =
      handle_once (record { body = body; retries = a.retries }) w
        (unmarshal_body k.codec (record { body = body; retries = a.retries }))

  consume_once :
      (found : List Arrival) (c : Consumer)
      → All IsSettledOnce c.settlements
      → All IsSettledOnce (consume found c).settlements
  unfolding consume receive
  consume_once [] c h = h
  consume_once (arrived a ∷ rest) c h = consume_once rest _ (
      All-append IsSettledOnce c.settlements _ h
        (on_decoded_once a c.world (k.codec.unmarshal_message a.body), tt))
  consume_once (deliveries_closed ∷ rest) c h = h
  consume_once (context_done e ∷ rest) c h = h

  consume_counts :
      (found : List Arrival) (c : Consumer)
      → length (consume found c).settlements ≡ length c.settlements + taken found
  unfolding consume
  consume_counts [] c = omega arith
  consume_counts (arrived a ∷ rest) c = omega (
    arith,
    consume_counts rest (dealt c (receive k a (desk_of c))),
    length-append c.settlements ((receive k a (desk_of c)).1.settled ∷ []),
  )
  consume_counts (deliveries_closed ∷ rest) c = omega arith
  consume_counts (context_done e ∷ rest) c = omega arith

abbrev pub started : World → Consumer
started w = record { world = w; settlements = []; ended = none }

-- A consumer goes on after every error of a handler: it deals with each delivery that comes before its
-- channel is closed or its context done, and tells the broker at most one thing about each, whatever
-- the body, the analysis and the broker's answers.
pub consume-IsSettledOnce :
    (k : AnalysisWorker) (found : List Arrival) (w : World)
    → (length (consume k found (started w)).settlements ≡ taken found)
      × All IsSettledOnce (consume k found (started w)).settlements
consume-IsSettledOnce k found w =
    (omega (arith, consume_counts k found (started w)), consume_once k found (started w) tt)
