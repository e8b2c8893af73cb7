-- ===== src/Queue/Connection.antt =====
-- pkg/queue/queue.go: connecting, closing and declaring. Each operation gets the broker's answers; a
-- nil channel that is used is a panic.
use svc_web_analyzer.Prelude.{
  ◌≡◌, ◌≢◌, refl, String, Bool, true, false, Option, none, some, List, [], ◌∷◌, All, if-both, arith,
  if◌then◌else◌,
}
use svc_web_analyzer.Domain.{Result, ok, err, message, wrapped}
use svc_web_analyzer.Queue.Channel.{
  ChannelWrapper, close_channel, exchange_declare, new_channel, queue_bind, queue_declare,
}

-- q.conn: nil, open, or closed
pub data Conn : Type 0 where
  no_conn open_conn closed_conn : Conn

pub record RabbitMqQueue : Type 0 where
  pub conn : Conn
  pub channel : Option ChannelWrapper
  pub closed : Bool

data Outcome : Type 0 where
  returned : Result (Unit {0}) → Outcome
  panicked : Outcome

abbrev new_queue : RabbitMqQueue
new_queue = record { conn = no_conn; channel = none; closed = false }

abbrev is_open_connection : Conn → Bool
is_open_connection open_conn = true
is_open_connection _ = false

abbrev is_connected : RabbitMqQueue → Bool
is_connected q = is_open_connection q.conn

-- what amqp.Dial and then conn.Channel answered
abbrev dialled : RabbitMqQueue → Result (Unit {0}) → Result (Unit {0}) → Outcome × RabbitMqQueue
dialled q (err e) channel =
    (returned (err (wrapped "failed to connect to RabbitMQ" e)), record q { conn = no_conn })
dialled q (ok _) (err e) =
    (returned (err (wrapped "failed to open channel" e)), record q { conn = closed_conn })
dialled q (ok _) (ok a) =
    (returned (ok a), record q { conn = open_conn; channel = some new_channel })

connect : Result (Unit {0}) → Result (Unit {0}) → RabbitMqQueue → Outcome × RabbitMqQueue
connect dial channel q = if is_connected q then (returned (ok tt), q) else (dialled q dial channel)

abbrev closed_channel : Result (Unit {0}) → Option ChannelWrapper → Option ChannelWrapper
closed_channel answer none = none
closed_channel answer (some ch) = some (close_channel answer ch).1

-- the error of the channel's Close is dropped
close : Result (Unit {0}) → Result (Unit {0}) → RabbitMqQueue → Outcome × RabbitMqQueue
close channel_answer answer q =
    let done = record q { closed = true; channel = closed_channel channel_answer q.channel } in
    if is_connected q
    then (returned answer, record done { conn = closed_conn })
    else (returned (ok tt), done)

abbrev on_channel :
    (ChannelWrapper → Result (Unit {0}) × ChannelWrapper)
    → RabbitMqQueue
    → Option ChannelWrapper
    → Outcome × RabbitMqQueue
on_channel f q none = (panicked, q)
on_channel f q (some ch) = (returned (f ch).0, record q { channel = some (f ch).1 })

abbrev if_connected :
    (ChannelWrapper → Result (Unit {0}) × ChannelWrapper) → RabbitMqQueue → Outcome × RabbitMqQueue
if_connected f q =
    if is_connected q
    then (on_channel f q q.channel)
    else (returned (err (message "not connected to RabbitMQ")), q)

data Operation : Type 0 where
  connects closes : Result (Unit {0}) → Result (Unit {0}) → Operation
  declares_exchange : Result (Unit {0}) → String → String → Bool → Bool → Operation
  declares_queue : Result (Unit {0}) → String → Bool → Bool → Operation
  binds_queue : Result (Unit {0}) → String → String → String → Operation
  -- the broker or the network ends the connection
  loses_connection : Operation

abbrev declare_exchange :
    Result (Unit {0}) → String → String → Bool → Bool → RabbitMqQueue → Outcome × RabbitMqQueue
unfolding exchange_declare
declare_exchange answer name kind durable auto_delete = if_connected (
    exchange_declare answer (record {
      name = name;
      kind = kind;
      durable = durable;
      auto_delete = auto_delete;
      internal = false;
      no_wait = false;
    }))

abbrev declare_queue :
    Result (Unit {0}) → String → Bool → Bool → RabbitMqQueue → Outcome × RabbitMqQueue
unfolding queue_declare
declare_queue answer name durable auto_delete = if_connected (
    queue_declare answer (record {
      name = name;
      durable = durable;
      auto_delete = auto_delete;
      exclusive = false;
      no_wait = false;
    }))

abbrev bind_queue :
    Result (Unit {0}) → String → String → String → RabbitMqQueue → Outcome × RabbitMqQueue
unfolding queue_bind
bind_queue answer queue_name routing_key exchange_name = if_connected (
    queue_bind answer (record {
      queue_name = queue_name;
      binding_key = routing_key;
      exchange_name = exchange_name;
      no_wait = false;
    }))

abbrev pub lost : Conn → Conn
lost no_conn = no_conn
lost _ = closed_conn

operate : Operation → RabbitMqQueue → Outcome × RabbitMqQueue
unfolding connect close declare_exchange declare_queue bind_queue
operate (connects dial channel) q = connect dial channel q
operate (closes channel answer) q = close channel answer q
operate (declares_exchange a name kind durable auto) q = declare_exchange a name kind durable auto q
operate (declares_queue a name durable auto) q = declare_queue a name durable auto q
operate (binds_queue a name key exchange) q = bind_queue a name key exchange q
operate loses_connection q = (returned (ok tt), record q { conn = lost q.conn })

unfoldable outcomes : List Operation → RabbitMqQueue → List Outcome
outcomes [] q = []
outcomes (o ∷ os) q = (operate o q).0 ∷ outcomes os (operate o q).1

-- an open connection has a channel
abbrev IsWired : RabbitMqQueue → Type 0
IsWired q = q.conn ≡ open_conn → (ch : ChannelWrapper) × (q.channel ≡ some ch)

abbrev IsSafe : Outcome × RabbitMqQueue → Type 0
IsSafe r = (r.0 ≢ panicked) × IsWired r.1

on_channel-IsSafe :
    (f : ChannelWrapper → Result (Unit {0}) × ChannelWrapper) (q : RabbitMqQueue)
    (c : Option ChannelWrapper) {ch : ChannelWrapper}
    → c ≡ some ch
    → IsSafe (on_channel f q c)
on_channel-IsSafe f q none h = absurd (ground (arith, h))
on_channel-IsSafe f q (some ch) h = (λ p. ground (arith, p), λ up. ((f ch).1, refl))

is_open_conn : (c : Conn) → is_open_connection c ≡ true → c ≡ open_conn
is_open_conn no_conn h = cc
is_open_conn open_conn h = refl
is_open_conn closed_conn h = cc

if_connected-IsSafe :
    (f : ChannelWrapper → Result (Unit {0}) × ChannelWrapper) (q : RabbitMqQueue)
    → IsWired q
    → IsSafe (if_connected f q)
if_connected-IsSafe f q wired =
    if-both IsSafe (is_connected q) _ _
      (λ h. on_channel-IsSafe f q q.channel (wired (is_open_conn q.conn h)).1)
      (λ h. (λ p. ground (arith, p), wired))

dialled-IsSafe :
    (q : RabbitMqQueue) (dial channel : Result (Unit {0})) → IsSafe (dialled q dial channel)
dialled-IsSafe q (err e) channel = (λ p. ground (arith, p), λ h. absurd (ground (arith, h)))
dialled-IsSafe q (ok a) (err e) = (λ p. ground (arith, p), λ h. absurd (ground (arith, h)))
dialled-IsSafe q (ok a) (ok b) = (λ p. ground (arith, p), λ h. (new_channel, refl))

closed_channel-some :
    (answer : Result (Unit {0})) (c : Option ChannelWrapper) {ch : ChannelWrapper}
    → c ≡ some ch
    → (d : ChannelWrapper) × (closed_channel answer c ≡ some d)
closed_channel-some answer none h = absurd (ground (arith, h))
closed_channel-some answer (some c) h = (_, refl)

not_open : (c : Conn) → lost c ≢ open_conn
not_open no_conn h = ground (arith, h)
not_open open_conn h = ground (arith, h)
not_open closed_conn h = ground (arith, h)

operate-IsSafe : (o : Operation) (q : RabbitMqQueue) → IsWired q → IsSafe (operate o q)
unfolding operate connect close
operate-IsSafe (connects dial channel) q wired =
    if-both IsSafe (is_connected q) _ _ (λ h. (λ p. ground (arith, p), wired))
      (λ h. dialled-IsSafe q dial channel)
operate-IsSafe (closes channel answer) q wired =
    if-both IsSafe (is_connected q) _ _
      (λ h. (λ p. ground (arith, p), λ up. absurd (ground (arith, up))))
      (λ h. (λ p. ground (arith, p), λ up. closed_channel-some channel q.channel (wired up).1))
operate-IsSafe (declares_exchange a name kind durable auto) q wired = if_connected-IsSafe _ q wired
operate-IsSafe (declares_queue a name durable auto) q wired = if_connected-IsSafe _ q wired
operate-IsSafe (binds_queue a name key exchange) q wired = if_connected-IsSafe _ q wired
operate-IsSafe loses_connection q wired =
    (λ p. ground (arith, p), λ up. absurd (not_open q.conn up))

outcomes_safe :
    (os : List Operation) (q : RabbitMqQueue) → IsWired q → All (λ o. o ≢ panicked) (outcomes os q)
unfolding outcomes
outcomes_safe [] q wired = tt
outcomes_safe (o ∷ os) q wired =
    let (fine, still) = operate-IsSafe o q wired in (fine, outcomes_safe os (operate o q).1 still)

-- No sequence of connecting, closing, declaring, binding and lost connections, with any answers of
-- the broker, makes a new queue use a channel that it does not have.
outcomes_never_panic : (os : List Operation) → All (λ o. o ≢ panicked) (outcomes os new_queue)
outcomes_never_panic os = outcomes_safe os new_queue (λ h. absurd (ground (arith, h)))
