-- ===== src/Queue/Channel.antt =====
-- pkg/queue/channel.go: ChannelWrapper, with what it remembers of auto-deleted queues and exchanges,
-- and the loop that feeds a consumer. The channel of amqp091-go answers each call; `args` are nil.
use svc_web_analyzer.Prelude.{
  ◌≡◌, ◌⊎◌, inl, inr, refl, sym, ap, ◌∙◌, append-nil, append_assoc, Bool-cases, String, Bool, true,
  false, List, [], ◌∷◌, ◌++◌, any, str_eq, if◌then◌else◌,
}
use svc_web_analyzer.Domain.{Error, Result, ok, err, message}

pub record ChannelExchange : Type 0 where
  pub name : String
  pub kind : String
  pub durable : Bool
  pub auto_delete : Bool
  pub internal : Bool
  pub no_wait : Bool

pub record ChannelQueue : Type 0 where
  pub name : String
  pub durable : Bool
  pub auto_delete : Bool
  pub exclusive : Bool
  pub no_wait : Bool

pub record ChannelQueueBinding : Type 0 where
  pub queue_name : String
  pub binding_key : String
  pub exchange_name : String
  pub no_wait : Bool

pub record ChannelWrapper : Type 0 where
  pub canceled : Bool
  pub closed : Bool
  pub auto_deleted_queues : List ChannelQueue
  pub auto_deleted_queue_bindings : List ChannelQueueBinding
  pub auto_deleted_exchanges : List ChannelExchange

abbrev pub new_channel : ChannelWrapper
new_channel = record {
  canceled = false;
  closed = false;
  auto_deleted_queues = [];
  auto_deleted_queue_bindings = [];
  auto_deleted_exchanges = [];
}

-- Each method gets the answer that the AMQP channel gives to its call.
abbrev pub close_channel : Result (Unit {0}) → ChannelWrapper → Result (Unit {0}) × ChannelWrapper
close_channel answer ch =
    if ch.closed
    then (err (message "channel/connection is not open"), ch)
    else (answer, record ch { closed = true })

abbrev pub cancel : Result (Unit {0}) → ChannelWrapper → Result (Unit {0}) × ChannelWrapper
cancel (err e) ch = (err e, ch)
cancel (ok a) ch = (ok a, record ch { canceled = true })

-- recorded before the call, so that a refused exchange or queue is recorded, too
abbrev record_exchange : ChannelExchange → ChannelWrapper → ChannelWrapper
record_exchange e ch =
    if e.auto_delete
    then (record ch { auto_deleted_exchanges = ch.auto_deleted_exchanges ++ e ∷ [] })
    else ch

unfoldable pub exchange_declare :
    Result (Unit {0}) → ChannelExchange → ChannelWrapper → Result (Unit {0}) × ChannelWrapper
exchange_declare answer e ch = (answer, record_exchange e ch)

abbrev record_queue : ChannelQueue → ChannelWrapper → ChannelWrapper
record_queue q ch =
    if q.auto_delete
    then (record ch { auto_deleted_queues = ch.auto_deleted_queues ++ q ∷ [] })
    else ch

unfoldable pub queue_declare :
    Result (Unit {0}) → ChannelQueue → ChannelWrapper → Result (Unit {0}) × ChannelWrapper
queue_declare answer q ch = (answer, record_queue q ch)

abbrev record_binding : ChannelQueueBinding → ChannelWrapper → ChannelWrapper
record_binding b ch = record ch {
  auto_deleted_queue_bindings = ch.auto_deleted_queue_bindings ++ b ∷ [];
}

unfoldable pub queue_bind :
    Result (Unit {0}) → ChannelQueueBinding → ChannelWrapper → Result (Unit {0}) × ChannelWrapper
queue_bind answer b ch = (
  answer,
  (if any (λ q. str_eq b.queue_name q.name) ch.auto_deleted_queues
      then record_binding b ch
      else if any (λ e. str_eq e.name b.exchange_name) ch.auto_deleted_exchanges
      then record_binding b ch
      else ch),
)

-- one round of the loop of `consume`: what Consume answered, with the messages of its channel until
-- that was closed, and whether the wrapper is closed or canceled after the sleep
pub record Round (A : Type 0) : Type 0 where
  pub answer : Result (List A)
  pub is_over : Bool

-- the messages forwarded so far, and whether the loop has closed the channel of deliveries
pub record Feed (A : Type 0) : Type 0 where
  pub deliveries : List A
  pub is_closed : Bool

module _ {A : Type 0} where
  -- the loop for as many rounds as are given
  unfoldable pub feed : List (Round A) → List A → Feed A
  feed [] sent = record { deliveries = sent; is_closed = false }
  feed (r ∷ rounds) sent = elim r.answer [
    | err e ↦ feed rounds sent
    | ok ms ↦ elim r.is_over [
      | true ↦ record { deliveries = sent ++ ms; is_closed = true }
      | false ↦ feed rounds (sent ++ ms)
    ]
  ]

  -- the messages of a round whose Consume the broker took
  abbrev pub messages : Round A → List A
  messages r = elim r.answer [ err e ↦ [] | ok ms ↦ ms ]

  -- a round whose Consume the broker took, with the wrapper closed or canceled after it
  abbrev pub ends : Round A → Bool
  ends r = elim r.answer [ err e ↦ false | ok ms ↦ r.is_over ]

  -- the rounds until the first that ends the loop, and that one
  abbrev pub until_end : List (Round A) → List (Round A)
  until_end [] = []
  until_end (r ∷ rounds) = let rest = until_end rounds in r ∷ (if ends r then [] else rest)

  abbrev pub all_messages : List (Round A) → List A
  all_messages [] = []
  all_messages (r ∷ rounds) = messages r ++ all_messages rounds

  outcome :
      (r : Round A) → ((e : Error) × (r.answer ≡ err e)) ⊎ ((ms : List A) × (r.answer ≡ ok ms))
  outcome r = go r.answer refl
    where
      go :
          (o : Result (List A))
          → r.answer ≡ o
          → ((e : Error) × (r.answer ≡ err e)) ⊎ ((ms : List A) × (r.answer ≡ ok ms))
      go (err e) q = inl (e, q)
      go (ok ms) q = inr (ms, q)

  -- The loop forwards, in their order, the messages of the rounds up to and with the first one whose
  -- Consume the broker took and after which the wrapper was closed or canceled, and it closes the
  -- channel of deliveries just if there is such a round: no round whose Consume is refused ends it,
  -- though the wrapper be closed.
  pub feed-until_end :
      (rounds : List (Round A)) (sent : List A)
      → feed rounds sent ≡ record {
        deliveries = sent ++ all_messages (until_end rounds);
        is_closed = any ends rounds;
      }
  unfolding feed
  feed-until_end [] sent =
      ap (λ d. record { deliveries = d; is_closed = false }) (sym (append-nil sent))
  feed-until_end (r ∷ rounds) sent = elim (outcome r) [
    | inl (e, refused) ↦ rw refused (feed-until_end rounds sent)
    | inr (ms, answered) ↦ elim (Bool-cases r.is_over) [
      | inl over ↦
          rw (answered, over)
            (ap (λ d. record { deliveries = sent ++ d; is_closed = true }) (sym (append-nil ms)))
      | inr going ↦
          rw (answered, going)
            (feed-until_end rounds (sent ++ ms)
              ∙ ap (λ d. record { deliveries = d; is_closed = any ends rounds })
                  (append_assoc sent ms (all_messages (until_end rounds))))
    ]
  ]
