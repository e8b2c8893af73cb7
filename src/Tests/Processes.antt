-- ===== src/Tests/Processes.antt =====
-- An analysis on its way through the three processes.
use svc_web_analyzer.Prelude.{◌≡◌, refl, String, true, none, some, [], ◌∷◌, ◌++◌}
use svc_web_analyzer.Domain.{AnalysisRequestPayload, OutboxEvent, OutboxStatus, analysis_requested}
use svc_web_analyzer.Domain.Errors.{decimal}
use svc_web_analyzer.World.{World, external, in_tx, close_tx}
use svc_web_analyzer.Libraries.{Libraries}
use svc_web_analyzer.Cache
use svc_web_analyzer.Outbox
use svc_web_analyzer.Outbox.{
  claim, claim_for_processing, claimed_row, convert_row, event_id, mark_published, mark_row, row_of,
  unmarshal_payload, update_where,
}
use svc_web_analyzer.Outbox.Rows.{count_rows, update_rows}
use svc_web_analyzer.Analyses.Insert.{
  save_in_tx, get_next_version, insert_new, clock, insert_row, analysis_id,
}
use svc_web_analyzer.Application.{AppService, create, start_analysis}
use svc_web_analyzer.Publisher.{PublisherService, publish_event}
use svc_web_analyzer.Queue.{channel_publish, marshalled, publish}
use svc_web_analyzer.Subscriber.{process_analysis_request}
use svc_web_analyzer.Worker.{AnalysisWorker, Desk, absent, ack, receive}
use svc_web_analyzer.Pipeline.{request_of, start_analysis-receive}
use svc_web_analyzer.Tests.Codec.{
  codec, decode_as, decode_as-encode, encode, message_json, payload_json, request_json,
}
use svc_web_analyzer.Tests.Data.{app, event, lib, options, publisher}
use svc_web_analyzer.Tests.Service.{empty_world, requested, started, worker}

abbrev asked : AnalysisRequestPayload
asked = request_of started "http://a.test" options

abbrev coded : Libraries
coded = record lib {
  marshal_payload = λ p. some (encode (payload_json p));
  unmarshal_request = decode_as (request_json asked) asked;
  marshal_message = λ p. some (encode (message_json (payload_json p)));
}

abbrev web : AppService
web = record app { lib = coded }

abbrev sender : PublisherService
sender = record publisher { lib = coded }

abbrev receiver : AnalysisWorker
receiver = record worker { codec = codec asked }

abbrev stored_world : World
unfolding start_analysis
stored_world = (start_analysis web "http://a.test" options empty_world).1

abbrev stored : OutboxEvent
stored = event "outbox/analysis/http://a.test::v1::analysis.requested::0" OutboxStatus.pending 0

abbrev sent_world : World
unfolding publish_event
sent_world = (publish_event sender stored stored_world).1

abbrev desk : Desk
desk = record { world = requested; settled = [] }

start_analysis-receive_example :
    (body : String) × (sent_world.sent
      ≡ stored_world.sent
        ++ record {
          exchange = "events";
          routing_key = analysis_requested;
          body = body;
          retry_count = none;
        }
          ∷ [])
    × (receive receiver (record { body = body; retries = absent }) desk
        ≡ ack (record {
          world = (process_analysis_request receiver.service asked requested).1;
          settled = [];
        }))
unfolding start_analysis create in_tx external close_tx save_in_tx get_next_version insert_new clock
    insert_row analysis_id decimal Outbox.save_in_tx row_of Outbox.insert_row event_id Cache.set
    publish_event publish channel_publish marshalled mark_published mark_row update_where
    claim_for_processing claim claimed_row convert_row update_rows count_rows unmarshal_payload
    encode
start_analysis-receive_example =
    start_analysis-receive web sender receiver "http://a.test" options empty_world {a = started}
      {v = stored_world} refl stored stored_world sent_world
      {res = record { published = true; error = "" }} refl (refl, tt) refl refl refl refl
      (λ json said. decode_as-encode (request_json asked) asked said) (request_json asked) _
      (λ body said. decode_as-encode (message_json (request_json asked)) (request_json asked) said)
      refl refl absent desk
