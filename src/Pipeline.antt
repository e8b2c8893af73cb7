-- ===== src/Pipeline.antt =====
-- The three processes together: StartAnalysis of the web process, PublishEvent of the publisher and
-- ProcessMessage of the subscriber's worker.
use svc_web_analyzer.Prelude.{
  ◌≡◌, sym, ap, subst, ◌∙◌, String, true, none, some, List, [], ◌∷◌, ◌++◌, arith,
}
use svc_web_analyzer.Domain.{
  Analysis, AnalysisOptions, AnalysisRequestPayload, OutboxEvent, Payload, Priority, PublishResult,
  request, ok, analysis_requested,
}
use svc_web_analyzer.World.{OutboxRow, World}
use svc_web_analyzer.Libraries.{Libraries}
use svc_web_analyzer.Outbox.{convert_row, unmarshal_payload}
use svc_web_analyzer.Outbox.Rows.{set_claimed}
use svc_web_analyzer.Outbox.Table.{HasUniqueIds, lookup}
use svc_web_analyzer.Application.{AppService, start_analysis}
use svc_web_analyzer.Application.Start.{start_analysis-IsStarted}
use svc_web_analyzer.Publisher.{PublisherService, publish_event}
use svc_web_analyzer.Publisher.Published.{publish_event-IsPublished}
use svc_web_analyzer.Subscriber.{process_analysis_request}
use svc_web_analyzer.Worker.{
  AnalysisWorker, Desk, Json, RetryHeader, ack, receive, on_decoded, unmarshal_text,
}
use svc_web_analyzer.Worker.Settle.{process_message_acks}

-- the request that the event of a new analysis carries
abbrev pub request_of : Analysis → String → AnalysisOptions → AnalysisRequestPayload
request_of a url options = record {
  analysis_id = a.id;
  url = url;
  options = options;
  priority = Priority.normal;
  created_at = a.created_at;
}

lookup-snoc :
    (id : String) (rs : List OutboxRow) (r x : OutboxRow)
    → lookup id rs ≡ none
    → lookup id (rs ++ r ∷ []) ≡ some x
    → r ≡ x
lookup-snoc id [] r x free found = ground (arith, found)
lookup-snoc id (y ∷ rs) r x free found = ground (arith, free, found, lookup-snoc id rs r x)

unmarshal_payload-request :
    (lib : Libraries) (type json : String) (q : AnalysisRequestPayload)
    → type ≡ analysis_requested
    → lib.unmarshal_request json ≡ some q
    → unmarshal_payload lib type json ≡ ok (request q)
unfolding unmarshal_payload
unmarshal_payload-request lib type json q same read =
    ap (λ t. unmarshal_payload lib t json) same ∙ ground (arith, read)

payload-convert_row :
    (lib : Libraries) (r : OutboxRow) (p : Payload) {e : OutboxEvent}
    → unmarshal_payload lib r.event_type r.payload ≡ ok p
    → convert_row lib r ≡ ok e
    → e.payload ≡ p
unfolding convert_row
payload-convert_row lib r p {e} read h = ground (arith, h, read)

-- A request that StartAnalysis has taken reaches the analysis as it was made: if PublishEvent then
-- reports that the event with the id of the new row was published, the last message sent has a body
-- that makes the consumer run the analysis of this id, URL and options and acknowledge the delivery,
-- whatever its retry header says. Between the two the table of events is unchanged and has distinct
-- ids; the id was not there before and is the text of its UUID. The text of the request reads back as
-- the request; the text of its message decodes to a value, and the text of that value reads back as
-- the request.
pub start_analysis-receive :
    (s : AppService) (p : PublisherService) (k : AnalysisWorker) (url : String)
    (o : AnalysisOptions) (w : World) {a : Analysis} {v : World}
    → start_analysis s url o w ≡ (ok a, v)
    → (e : OutboxEvent) (x y : World) {res : PublishResult} → x.outbox ≡ v.outbox
    → HasUniqueIds x.outbox
    → lookup e.id w.outbox ≡ none
    → p.lib.parse_uuid e.id ≡ some e.id
    → publish_event p e x ≡ (ok res, y)
    → res.published ≡ true
    → ((json : String)
        → s.lib.marshal_payload (request (request_of a url o)) ≡ some json
        → p.lib.unmarshal_request json ≡ some (request_of a url o))
    → (j : Json) (body_data : String)
    → ((body : String)
        → p.lib.marshal_message (request (request_of a url o)) ≡ some body
        → k.codec.unmarshal_message body ≡ some j)
    → k.codec.marshal_any j ≡ some body_data
    → k.codec.unmarshal_request body_data ≡ some (request_of a url o)
    → (retries : RetryHeader) (d : Desk)
    → (body : String) × (y.sent
        ≡ x.sent
          ++ record {
            exchange = p.exchange_name;
            routing_key = analysis_requested;
            body = body;
            retry_count = none;
          }
            ∷ [])
      × (receive k (record { body = body; retries = retries }) d
          ≡ ack (record {
            world = (process_analysis_request k.service (request_of a url o) d.world).1;
            settled = d.settled;
          }))
unfolding receive
start_analysis-receive s p k url o w {a} {v} started e x y {res} same unique fresh canonical
      published said reads_row j body_data reads_message writes_body reads_body retries d =
    let i = start_analysis-IsStarted s url o w started in
    let q = request_of a url o in
    let sent = publish_event-IsPublished p e x y {res = res} unique canonical published said in
    let is_row : i.event_row ≡ sent.row =
      lookup-snoc e.id w.outbox i.event_row sent.row fresh
        (ap (lookup e.id) (sym i.adds_event) ∙ ap (lookup e.id) (sym same) ∙ sent.found) in
    let type : sent.row.event_type ≡ analysis_requested =
      ap (λ r. r.event_type) (sym is_row) ∙ i.has_type in
    let stored : p.lib.unmarshal_request sent.row.payload ≡ some q =
      reads_row sent.row.payload (i.has_payload ∙ ap (λ r. some r.payload) is_row) in
    let carries : sent.event.payload ≡ request q =
      payload-convert_row p.lib (set_claimed sent.claimed_at sent.row) (request q)
        (unmarshal_payload-request p.lib sent.row.event_type sent.row.payload q type stored)
        sent.converts in
    let decoded : k.codec.unmarshal_message sent.body ≡ some j =
      reads_message sent.body (ap p.lib.marshal_message (sym carries) ∙ sent.marshals) in
    (
      sent.body,
      subst
          (λ t.
            y.sent
            ≡ x.sent
              ++ record {
                exchange = p.exchange_name;
                routing_key = t;
                body = sent.body;
                retry_count = none;
              }
                ∷ [])
          type sent.sent,
      ap (on_decoded k (record { body = sent.body; retries = retries }) d) decoded
          ∙ process_message_acks k (record { body = j; retries = retries }) d q
              (ap (unmarshal_text k.codec) writes_body ∙ reads_body),
    )
