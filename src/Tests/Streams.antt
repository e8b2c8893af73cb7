-- ===== src/Tests/Streams.antt =====
-- The stream of an analysis's events, the consumer and the connection to the broker.
use svc_web_analyzer.Prelude.{
  ◌≡◌, refl, String, true, false, none, some, List, [], ◌∷◌, All, length, map, arith,
}
use svc_web_analyzer.Domain.{Analysis, AnalysisStatus, ok, err, failure}
use svc_web_analyzer.World.{World, external}
use svc_web_analyzer.Application.{fetch_analysis, found_in_table}
use svc_web_analyzer.Application.Events.{
  Reaches, Stream, after, analysis_event, begin, cancel, sending_analysis, heart_event, here,
  returned, selecting, send, sending_check, step, take_check, take_heartbeat,
}
use svc_web_analyzer.Application.Events.Order.{IsOrdered, IsSentAt, stream-IsOrdered, stuck_stays}
use svc_web_analyzer.Analyses
use svc_web_analyzer.Cache
use svc_web_analyzer.Http.Handler.{RequestHandler}
use svc_web_analyzer.Http.{fresh, run, status}
use svc_web_analyzer.Http.Relay.{frames, get_analysis_events, get_analysis_events_streams, unseen}
use svc_web_analyzer.Queue.Channel.{Round, feed, feed-until_end}
use svc_web_analyzer.Worker.Consumer.{
  Arrival, IsSettledOnce, consume, consume-IsSettledOnce, context_done, arrived, started, taken,
}
use svc_web_analyzer.Worker.{absent, not_a_text}
use svc_web_analyzer.Tests.Codec.{encode, message_json, request_json}
use svc_web_analyzer.Tests.Data.{world, succeeds, analysis_row, app, payload}
use svc_web_analyzer.Tests.Service.{worker, requested}

abbrev done_world : World
done_world =
    world succeeds []
      (record (analysis_row "a1" "http://a.test") { status = AnalysisStatus.completed } ∷ [])

-- the first check is waiting
abbrev checking : Stream
checking = record (begin done_world) { place = selecting; check = true }

begins : Reaches app "a1" (begin done_world) checking
unfolding step
begins = after send here refl

stream-IsOrdered_example : IsOrdered checking
stream-IsOrdered_example = stream-IsOrdered app "a1" done_world begins

-- the ticker fires before the check is taken
abbrev stuck : Stream
stuck = record checking { place = sending_check }

stuck_stays_example :
    let left : Stream = record stuck { cancelled = true } in
    (left.place ≡ sending_check) × (left.check ≡ true) × (left.sent ≡ stuck.sent)
unfolding step
stuck_stays_example =
    stuck_stays app "a1" stuck {u = record stuck { cancelled = true }} refl refl
      (after cancel here refl)

abbrev found : Analysis
found = record {
  id = "a1";
  url = "http://a.test";
  status = AnalysisStatus.completed;
  content_hash = "";
  content_size = 0;
  created_at = 5;
  completed_at = none;
  duration = none;
  results = none;
  error = none;
  lock_version = 1;
}

abbrev after_fetch : World
after_fetch = (fetch_analysis app "a1" done_world).1

fetched : fetch_analysis app "a1" done_world ≡ (ok found, after_fetch)
unfolding fetch_analysis found_in_table Cache.find Cache.set Analyses.find Analyses.find_by_criteria
    Analyses.convert_row external
fetched = refl

-- a heartbeat, then the completed analysis
abbrev beating : Stream
beating = record checking { place = selecting; sent = heart_event ∷ []; unread = 1 }

beats : Reaches app "a1" (begin done_world) beating
unfolding step
beats = after send (after take_heartbeat begins refl) refl

abbrev ended : Stream
ended = record beating {
  place = returned;
  check = false;
  sent = heart_event ∷ analysis_event found ∷ [];
  unread = 2;
  world = after_fetch;
}

ends : Reaches app "a1" (begin done_world) ended
unfolding step
ends =
    after send
      (after
        {v = record ended { place = sending_analysis found; sent = heart_event ∷ []; unread = 1 }}
        take_check beats (ground (arith, fetched)))
      refl

abbrev pub handler : RequestHandler
handler = record {
  app = app;
  decode_body = λ s. ok (record { url = s; options = none });
  encode_analysis = λ a. some a.id;
  encode_error = λ e. some e.message;
  encode_fault = λ a. "json: error";
}

get_analysis_events_streams_example :
    let out =
      run
        (get_analysis_events (λ p. some "{}") handler true (map unseen ended.sent))
        (fresh false) in
    (status out ≡ some 200)
    × (out.chunks ≡ frames (λ p. some "{}") ended.sent)
    × IsSentAt returned ended.sent
get_analysis_events_streams_example =
    get_analysis_events_streams (λ p. some "{}") handler "a1" done_world ends refl

-- the second round is refused on a wrapper that is closed, and the third ends the loop
abbrev rounds : List (Round String)
rounds =
    record { answer = ok ("a" ∷ "b" ∷ []); is_over = false }
    ∷ record { answer = err (failure "channel/connection is not open"); is_over = true }
    ∷ record { answer = ok ("c" ∷ []); is_over = true }
    ∷ record { answer = ok ("d" ∷ []); is_over = true }
    ∷ []

feed-until_end_example :
    feed rounds [] ≡ record { deliveries = "a" ∷ "b" ∷ "c" ∷ []; is_closed = true }
feed-until_end_example = feed-until_end rounds []

abbrev arrivals : List Arrival
arrivals =
    arrived (record { body = encode (message_json (request_json payload)); retries = absent })
    ∷ arrived (record { body = "{"; retries = not_a_text })
    ∷ context_done (failure "context canceled")
    ∷ []

consume-IsSettledOnce_example :
    (length (consume worker arrivals (started requested)).settlements ≡ taken arrivals)
    × All IsSettledOnce (consume worker arrivals (started requested)).settlements
consume-IsSettledOnce_example = consume-IsSettledOnce worker arrivals requested
