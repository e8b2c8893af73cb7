-- ===== src/Worker.antt =====
-- internal/adapters/queue/analysis_worker.go, and from pkg/queue/message.go the reading of the retry
-- header and the settling of a delivery.
pub mod Settle
pub mod Consumer
use svc_web_analyzer.Prelude.{
  ℕ, suc, ◌+◌, String, Bool, true, false, Option, none, some, List, [], ◌∷◌, ◌++◌, ltb,
  if◌then◌else◌,
}
use svc_web_analyzer.Domain.{
  AnalysisRequestPayload, ProcessResult, Error, Result, ok, err, failure, message, wrapped,
}
use svc_web_analyzer.World.{Publication, World, M, external, relabel}
use svc_web_analyzer.Queue.{channel_publish}
use svc_web_analyzer.Subscriber.{process_analysis_request}
use svc_web_analyzer.Subscriber.Work.{SubscriberService}

-- the header "x-retry-count": absent, a text that strconv.Atoi reads, or something else; a count
-- below zero, which nothing here writes, is left out
pub data RetryHeader : Type 0 where
  absent : RetryHeader
  count : ℕ → RetryHeader
  not_a_number : RetryHeader
  not_a_text : RetryHeader

-- what encoding/json decodes into an `any`; a float64 is its text
mutual
  pub data Json : Type 0 where
    null : Json
    bool : Bool → Json
    number : String → Json
    text : String → Json
    array : JsonItems → Json
    object : JsonFields → Json

  pub data JsonItems : Type 0 where
    no_items : JsonItems
    item : Json → JsonItems → JsonItems

  pub data JsonFields : Type 0 where
    no_fields : JsonFields
    field : String → Json → JsonFields → JsonFields

-- encoding/json on messages, each function `none` where it returns an error
pub record MessageCodec : Type 0 where
  -- json.Unmarshal into a Message: the decoded body field
  pub unmarshal_message : String → Option Json
  -- json.Marshal of a Message with this body
  pub marshal_message : Json → Option String
  -- json.Marshal of a body alone
  pub marshal_any : Json → Option String
  -- json.Unmarshal into an AnalysisRequestPayload
  pub unmarshal_request : String → Option AnalysisRequestPayload

-- amqp.Delivery: the bytes of its body, and its header
pub record Delivery : Type 0 where
  pub body : String
  pub retries : RetryHeader

-- the decoded body, and the header of the delivery that it came with
pub record Message : Type 0 where
  pub body : Json
  pub retries : RetryHeader

pub data Settlement : Type 0 where
  acked rejected nacked : Settlement

-- the world, and what the broker was told of this delivery
pub record Desk : Type 0 where
  pub world : World
  pub settled : List Settlement

-- the worker: its application, the topic that it reads, and encoding/json
pub record AnalysisWorker : Type 0 where
  pub service : SubscriberService
  pub topic : String
  pub codec : MessageCodec

-- Message.Unmarshal: the body is encoded again, and that text decoded into the target
abbrev pub unmarshal_text : MessageCodec → Option String → Option AnalysisRequestPayload
unmarshal_text c none = none
unmarshal_text c (some body_data) = c.unmarshal_request body_data

abbrev pub unmarshal_body : MessageCodec → Message → Option AnalysisRequestPayload
unmarshal_body c m = unmarshal_text c (c.marshal_any m.body)

abbrev pub retry_count : Message → Result ℕ
retry_count m = elim m.retries [
  | absent ↦ ok 0
  | count n ↦ ok n
  | not_a_number ↦ err (message "could not convert value to integer")
  | not_a_text ↦ err (message "custom header 'x-retry-count' does not contain a string")
]

-- one call of the delivery's methods: told, unless the call failed
abbrev pub told : Settlement → List Settlement → Result ℕ × World → Result (Unit {0}) × Desk
told how before (ok t, w) = (ok tt, record { world = w; settled = before ++ how ∷ [] })
told how before (err e, w) = (err e, record { world = w; settled = before })

abbrev pub settle : Settlement → Desk → Result (Unit {0}) × Desk
settle how d = told how d.settled (external d.world)

abbrev pub ack : Desk → Result (Unit {0}) × Desk
ack = settle acked

abbrev pub reject : Desk → Result (Unit {0}) × Desk
reject = settle rejected

abbrev pub labelled_ack : Result (Unit {0}) × Desk → Result (Unit {0}) × Desk
labelled_ack (ok a, d) = (ok a, d)
labelled_ack (err e, d) = (err (wrapped "failed to ack the message" e), d)

abbrev pub after_republish : List Settlement → Result (Unit {0}) × World → Result (Unit {0}) × Desk
after_republish before (ok _, w) = labelled_ack (ack (record { world = w; settled = before }))
after_republish before (err e, w) =
    (err (wrapped "failed to re-publish message" e), record { world = w; settled = before })

abbrev pub again : String → String → ℕ → Publication
again topic body n = record {
  exchange = topic;
  routing_key = topic;
  body = body;
  retry_count = some (n + 1);
}

abbrev pub republish : String → ℕ → Desk → Option String → Result (Unit {0}) × Desk
republish topic n d none =
    (err (wrapped "could not marshal message" (failure "json: unsupported value")), d)
republish topic n d (some body) =
    after_republish d.settled (channel_publish (again topic body n) d.world)

abbrev pub default_max_retry_count : ℕ
default_max_retry_count = 10

abbrev pub requeue_counted :
    MessageCodec → String → Message → Desk → Result ℕ → Result (Unit {0}) × Desk
requeue_counted c topic m d (err e) = (err (wrapped "failed to get retry count" e), d)
requeue_counted c topic m d (ok n) =
    let publish_again = republish topic n d (c.marshal_message m.body) in
    if ltb default_max_retry_count n
    then (err (message "retries count exceeded"), d)
    else publish_again

abbrev pub requeue : MessageCodec → String → Message → Desk → Result (Unit {0}) × Desk
requeue c topic m d = requeue_counted c topic m d (retry_count m)

-- what follows the answer of the command
abbrev pub after_handle :
    AnalysisWorker
    → Message
    → List Settlement
    → Result ProcessResult × World
    → Result (Unit {0}) × Desk
after_handle k m before (err e, w) =
    requeue k.codec k.topic m (record { world = w; settled = before })
after_handle k m before (ok result, w) =
    if result.success
    then ack (record { world = w; settled = before })
    else ack (record { world = w; settled = before })

abbrev pub handle :
    AnalysisWorker → Message → Desk → Option AnalysisRequestPayload → Result (Unit {0}) × Desk
handle k m d none = reject d
handle k m d (some payload) =
    after_handle k m d.settled (process_analysis_request k.service payload d.world)

unfoldable pub process_message : AnalysisWorker → Message → Desk → Result (Unit {0}) × Desk
process_message k m d = handle k m d (unmarshal_body k.codec m)

-- what StartConsumer does with a delivery: one that is no message is refused
abbrev pub on_decoded : AnalysisWorker → Delivery → Desk → Option Json → Result (Unit {0}) × Desk
on_decoded k a d none = settle nacked d
on_decoded k a d (some body) = process_message k (record { body = body; retries = a.retries }) d

unfoldable pub receive : AnalysisWorker → Delivery → Desk → Result (Unit {0}) × Desk
receive k a d = on_decoded k a d (k.codec.unmarshal_message a.body)
