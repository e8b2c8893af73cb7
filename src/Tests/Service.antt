-- ===== src/Tests/Service.antt =====
-- The application service, the subscriber and the worker.
use svc_web_analyzer.Prelude.{
  ◌≡◌, ◌≢◌, refl, true, none, [], ◌∷◌, first, sort_by, insert_by, arith, eq_iff,
}
use svc_web_analyzer.Domain.{
  Analysis, AnalysisStatus, OutboxStatus, ProcessResult, ok, wrapped, failure,
}
use svc_web_analyzer.Domain.Errors.{error_text, decimal, is_no_rows}
use svc_web_analyzer.World.{World, external, in_tx, close_tx}
use svc_web_analyzer.Outbox
use svc_web_analyzer.Outbox.{
  convert_row, newest_event, event_id, row_of, get_by_aggregate_id, mark_row, update_where,
  mark_processed, mark_completed, unmarshal_payload,
}
use svc_web_analyzer.Outbox.Rows.{update_rows, count_rows}
use svc_web_analyzer.Analyses
use svc_web_analyzer.Analyses.{by_id}
use svc_web_analyzer.Analyses.Insert.{
  save_in_tx, get_next_version, insert_new, clock, insert_row, analysis_id,
}
use svc_web_analyzer.Application.{start_analysis, create}
use svc_web_analyzer.Application.Start.{
  IsStarted, start_analysis-IsStarted, start_analysis-err, start_analysis_refused,
}
use svc_web_analyzer.Subscriber.{
  process_analysis_request, analyse, take_up, fetch_and_save, save_content, finish, complete,
  fetch_page, fill_results,
}
use svc_web_analyzer.Subscriber.Work
use svc_web_analyzer.Subscriber.Work.{
  fetched, invalidate, check_duplicate_content, none_if_no_rows, perform_full_analysis,
  gather_results, check_links, analyzed, refresh_cache,
}
use svc_web_analyzer.Subscriber.Frame.{process_analysis_request_others}
use svc_web_analyzer.Subscriber.Success.{IsCompleted, process_success}
use svc_web_analyzer.Worker.{AnalysisWorker, Desk, Message, count, ack, process_message, requeue}
use svc_web_analyzer.Worker.Settle.{IsRequeued, process_message_acks, requeue-IsRequeued}
use svc_web_analyzer.Tests.Codec.{codec, encode, request_json}
use svc_web_analyzer.Tests.Data.{
  row, analysis_row, world, succeeds, fails, subscriber, app, options, payload,
}

abbrev pub empty_world : World
empty_world = world succeeds [] []

abbrev broken : World
broken = world fails [] []

abbrev pub started : Analysis
started = record {
  id = "analysis/http://a.test::v1";
  url = "http://a.test";
  status = AnalysisStatus.requested;
  content_hash = "";
  content_size = 0;
  created_at = 100;
  completed_at = none;
  duration = none;
  results = none;
  error = none;
  lock_version = 1;
}

abbrev first_world : World
first_world = (start_analysis app "http://a.test" options empty_world).1

start_analysis-IsStarted_example :
    IsStarted app "http://a.test" options empty_world first_world started
unfolding start_analysis create in_tx external close_tx save_in_tx get_next_version insert_new clock
    insert_row analysis_id decimal Outbox.save_in_tx row_of Outbox.insert_row event_id
start_analysis-IsStarted_example =
    start_analysis-IsStarted app "http://a.test" options empty_world {a = started} {v = first_world}
      refl

start_analysis-err_example :
    ((start_analysis app "http://a.test" options broken).1.outbox ≡ [])
    × ((start_analysis app "http://a.test" options broken).1.analyses ≡ [])
unfolding start_analysis in_tx external
start_analysis-err_example =
    start_analysis-err app "http://a.test" options broken
      {e = wrapped "failed to begin transaction" (failure "connection refused")}
      {v = (start_analysis app "http://a.test" options broken).1} refl

abbrev taken : World
taken = world succeeds [] (analysis_row "analysis/http://a.test::v1" "http://a.test" ∷ [])

start_analysis_refused_example :
    start_analysis app "HTTP://a.test" options taken ≢ (ok started, taken)
unfolding analysis_id decimal
start_analysis_refused_example =
    start_analysis_refused app "HTTP://a.test" "http://a.test" options taken refl refl refl

abbrev pub requested : World
requested =
    world succeeds (row "e1" OutboxStatus.published 0 ∷ []) (analysis_row "a1" "http://a.test" ∷ [])

abbrev result : ProcessResult
result = record { success = true; content_hash = "sha:<p>"; error_code = ""; error_message = "" }

process_success_example :
    IsCompleted subscriber payload requested
      (process_analysis_request subscriber payload requested).1
      result
unfolding process_analysis_request analyse take_up fetch_and_save save_content finish complete
    fetch_page fill_results fetched get_by_aggregate_id newest_event mark_processed mark_completed
    mark_row update_where update_rows count_rows external sort_by insert_by unmarshal_payload
    convert_row Analyses.update_status Analyses.update_by_criteria invalidate
    check_duplicate_content none_if_no_rows Analyses.find_by_content_hash Analyses.as_no_rows
    Analyses.find_by_criteria error_text perform_full_analysis gather_results check_links analyzed
    Work.clock Analyses.update Analyses.marshal_results refresh_cache
    Analyses.update_completion_duration is_no_rows
process_success_example =
    process_success subscriber payload requested
      (process_analysis_request subscriber payload requested).1 (λ h. cc) refl refl

process_analysis_request_others_example :
    first (by_id "a2") (process_analysis_request subscriber payload requested).1.analyses ≡ none
process_analysis_request_others_example =
    process_analysis_request_others subscriber payload "a2" requested
      (ground (arith, eq_iff "a1" "a2"))

abbrev pub worker : AnalysisWorker
worker = record { service = subscriber; topic = "analysis"; codec = codec payload }

abbrev pub message : Message
message = record { body = request_json payload; retries = count 10 }

abbrev desk : Desk
desk = record { world = requested; settled = [] }

process_message_acks_example :
    process_message worker message desk
    ≡ ack
        (record { world = (process_analysis_request subscriber payload requested).1; settled = [] })
unfolding encode decimal
process_message_acks_example = process_message_acks worker message desk payload refl

requeue-IsRequeued_example :
    IsRequeued
      (codec payload)
      "analysis"
      message
      desk
      (requeue (codec payload) "analysis" message desk).1
requeue-IsRequeued_example = requeue-IsRequeued (codec payload) "analysis" message desk
