-- ===== src/Queue.antt =====
-- pkg/queue: publishing to the broker, and how the consumer settles a delivery.
pub mod Channel
pub mod Connection
use svc_web_analyzer.Prelude.{String, none, [], ◌∷◌, ◌++◌, if◌then◌else◌}
use svc_web_analyzer.Domain.{Payload, Error, Result, ok, err, failure, message, wrapped}
use svc_web_analyzer.World.{Publication, M, lifted, ◌>>=◌, ◌>>◌, external}
use svc_web_analyzer.Libraries.{Libraries}
use svc_web_analyzer.Outbox.{or_error}

-- `ch.amqpChan.Publish` under the lock of the channel: the broker has taken what it did not refuse
unfoldable pub channel_publish : Publication → M (Unit {0})
channel_publish p = do _ ← external; (λ w. (ok tt, record w { sent = w.sent ++ p ∷ [] }))

not_connected : Error
not_connected = message "not connected to RabbitMQ"

-- `q.IsConnected()`
require_connected : M (Unit {0})
unfolding not_connected
require_connected w = if w.connected then (ok tt, w) else (err not_connected, w)

unfoldable pub marshalled : Libraries → Payload → Result String
marshalled lib payload = or_error (lib.marshal_message payload) (
    wrapped "failed to marshal message"
      (wrapped "could not marshal message" (failure "json: unsupported value")))

-- RabbitMQQueue.Publish, which is PublishWithOptions with no option
unfoldable pub publish : Libraries → String → String → Payload → M (Unit {0})
unfolding require_connected external channel_publish marshalled
publish lib exchange key payload = do
  require_connected
  body ← lifted (marshalled lib payload)
  channel_publish
      (record { exchange = exchange; routing_key = key; body = body; retry_count = none })
