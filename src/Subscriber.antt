-- ===== src/Subscriber.antt =====
-- internal/service/subscriber_service.go, ProcessAnalysisRequest: one request from the queue. Every
-- failure becomes a result that says what failed, so the method itself returns no error.
pub mod Work
pub mod Stopping
pub mod Keeps
pub mod Reads
pub mod Frame
pub mod Failures
pub mod Filled
pub mod Success
use svc_web_analyzer.Prelude.{ℕ, ◌-◌, String, Bool, true, Option, none, some, if◌then◌else◌}
use svc_web_analyzer.Domain.{
  Analysis, AnalysisRequestPayload, AnalysisStatus, OutboxEvent, ProcessResult, WebPageContent,
  Error, Result, ok, err, error_text,
}
use svc_web_analyzer.World.{World, M, attempt}
use svc_web_analyzer.Outbox.{get_by_aggregate_id, mark_processed, mark_completed}
use svc_web_analyzer.Analyses
use svc_web_analyzer.Cache
use Work.{
  SubscriberService, milliseconds, clock, fetched, invalidate, check_duplicate_content,
  copy_analysis_results, perform_full_analysis,
}
use Stopping.{Step, Steps, done, stop, failed_with, or_stop, ◌>>=◌, ◌>>◌, result_of}

module _ (s : SubscriberService) where
  unfoldable pub after_mark : String → Result (Unit {0}) × World → World
  after_mark id (ok _, w) = (invalidate s id w).1
  after_mark id (err _, w) = w

  -- the failed fetch is written to the analysis; if that fails it is logged, and the cache stays
  abbrev pub fetch_step :
      AnalysisRequestPayload → Result WebPageContent × World → Step WebPageContent × World
  fetch_step p (ok content, w) = (done content, w)
  fetch_step p (err e, w) = (
    stop (failed_with "FETCH_ERROR" "failed to fetch web page: " e),
    after_mark p.analysis_id (Analyses.mark_failed p.analysis_id "FETCH_ERROR" (error_text e) 0 w),
  )

  unfoldable pub fetch_page : AnalysisRequestPayload → Steps WebPageContent
  fetch_page p w = fetch_step p (fetched s p.url p.options.timeout w)

  abbrev skipped : M (Unit {0}) → Steps (Unit {0})
  skipped m w = (done tt, (m w).1)

  -- results of a page with the same content are copied, others are computed
  unfoldable pub fill_results :
      AnalysisRequestPayload → String → WebPageContent → Option Analysis → Steps (Unit {0})
  fill_results p hash content (some existing) =
      or_stop "COPY_RESULTS_ERROR" "failed to copy analysis results: "
        (copy_analysis_results s p.analysis_id hash existing)
  fill_results p hash content none =
      or_stop "ANALYSIS_ERROR" "failed to perform full analysis: "
        (perform_full_analysis s p.analysis_id hash content p.options)

  -- up to the fetch
  unfoldable pub take_up : AnalysisRequestPayload → Steps OutboxEvent
  take_up p = do
    event ←
        or_stop "OUTBOX_ERROR" "failed to get outbox event: "
          (get_by_aggregate_id s.lib p.analysis_id)
    or_stop "OUTBOX_ERROR" "failed to mark outbox event as processed: " (mark_processed event.id)
    or_stop "STATUS_UPDATE_ERROR" "failed to update analysis status: "
        (Analyses.update_status p.analysis_id AnalysisStatus.in_progress)
    skipped (invalidate s p.analysis_id)
    (λ w. (done event, w))

  -- after the results are saved
  unfoldable pub complete : AnalysisRequestPayload → OutboxEvent → String → Steps ProcessResult
  complete p event hash = do
    now ← or_stop "" "" clock
    or_stop "DURATION_UPDATE_ERROR" "failed to update analysis duration: "
        (Analyses.update_completion_duration p.analysis_id (milliseconds (now - event.created_at)))
    or_stop "OUTBOX_ERROR" "failed to mark outbox event as completed: " (mark_completed event.id)
    skipped (invalidate s p.analysis_id)
    (λ w. (
      done (record { success = true; content_hash = hash; error_code = ""; error_message = "" }),
      w,
    ))

  -- the three stages after the request is taken up
  unfoldable pub finish :
      AnalysisRequestPayload → OutboxEvent → WebPageContent → Option Analysis → Steps ProcessResult
  finish p event content existing = do
    fill_results p (s.lib.sha256_hex content.html) content existing
    complete p event (s.lib.sha256_hex content.html)

  unfoldable pub save_content :
      AnalysisRequestPayload → OutboxEvent → WebPageContent → Steps ProcessResult
  save_content p event content = do
    existing ←
        or_stop "DUPLICATE_CHECK_ERROR" "failed to check duplicate content: "
          (check_duplicate_content s (s.lib.sha256_hex content.html))
    finish p event content existing

  unfoldable pub fetch_and_save : AnalysisRequestPayload → OutboxEvent → Steps ProcessResult
  fetch_and_save p event = do content ← fetch_page p; save_content p event content

  unfoldable pub analyse : AnalysisRequestPayload → Steps ProcessResult
  analyse p = do event ← take_up p; fetch_and_save p event

  unfoldable pub process_analysis_request : AnalysisRequestPayload → M ProcessResult
  process_analysis_request p w = result_of (analyse p w)
