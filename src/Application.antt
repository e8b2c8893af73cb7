-- ===== src/Application.antt =====
-- internal/service/application_service.go: starting an analysis and reading one. An analysis and the
-- event that asks for it are written in one transaction.
pub mod Events
pub mod Fetch
pub mod Saved
pub mod Start
use svc_web_analyzer.Prelude.{ℕ, String, Bool, true, false, not, Option, none, some}
use svc_web_analyzer.Domain.{
  Analysis, AnalysisOptions, AnalysisStatus, EventType, OutboxEvent, OutboxStatus, Priority,
  request, Result, ok, err, analysis_requested,
}
use svc_web_analyzer.World.{World, M, pure, ◌>>=◌, ◌>>◌, labelled, attempt, in_tx}
use svc_web_analyzer.Libraries.{Libraries}
use svc_web_analyzer.Outbox
use svc_web_analyzer.Analyses
use svc_web_analyzer.Analyses.Insert
use svc_web_analyzer.Cache

pub record MaxRetriesByPriority : Type 0 where
  pub low : ℕ
  pub normal : ℕ
  pub high : ℕ
  pub urgent : ℕ

pub record AppService : Type 0 where
  pub lib : Libraries
  pub max_retries : MaxRetriesByPriority

-- internal/config/settings.go, whose default case no constant reaches
abbrev pub get_max_retries_for_priority : MaxRetriesByPriority → Priority → ℕ
get_max_retries_for_priority c Priority.low = c.low
get_max_retries_for_priority c Priority.normal = c.normal
get_max_retries_for_priority c Priority.high = c.high
get_max_retries_for_priority c Priority.urgent = c.urgent

module _ (s : AppService) where
  abbrev pub outbox_event : Analysis → String → AnalysisOptions → OutboxEvent
  outbox_event a url options = record {
    id = Outbox.nil_uuid;
    aggregate_id = a.id;
    aggregate_type = "analysis";
    event_type = analysis_requested;
    priority = Priority.normal;
    retry_count = 0;
    max_retries = get_max_retries_for_priority s.max_retries Priority.normal;
    status = OutboxStatus.pending;
    payload = request (record {
      analysis_id = a.id;
      url = url;
      options = options;
      priority = Priority.normal;
      created_at = a.created_at;
    });
    error_details = none;
    created_at = a.created_at;
    started_at = none;
    published_at = none;
    processed_at = none;
    completed_at = none;
    next_retry_at = none;
  }

  -- the statements of the transaction
  unfoldable pub create : String → AnalysisOptions → M Analysis
  create url options = do
    a ← labelled "failed to save analysis" (Insert.save_in_tx s.lib url options)
    labelled "failed to save outbox event" (Outbox.save_in_tx s.lib (outbox_event a url options))
    pure a

  -- the cache gets the new analysis; a failure there is logged
  unfoldable pub start_analysis : String → AnalysisOptions → M Analysis
  start_analysis url options = do
    a ← in_tx (create url options)
    attempt (Cache.set s.lib a)
    pure a

  unfoldable pub found_in_table : String → M Analysis
  found_in_table id = do
    a ← labelled "failed to find analysis" (Analyses.find s.lib id)
    attempt (Cache.set s.lib a)
    pure a

  abbrev pub or_table : String → Result Analysis × World → Result Analysis × World
  or_table id (ok a, w) = (ok a, w)
  or_table id (err e, w) = found_in_table id w

  unfoldable pub fetch_analysis : String → M Analysis
  fetch_analysis id w = or_table id (Cache.find s.lib id w)

abbrev pub get_event_status : AnalysisStatus → EventType
get_event_status AnalysisStatus.requested = EventType.started
get_event_status AnalysisStatus.in_progress = EventType.progress
get_event_status AnalysisStatus.completed = EventType.completed
get_event_status AnalysisStatus.failed = EventType.failed

abbrev pub is_final : EventType → Bool
is_final EventType.completed = true
is_final EventType.failed = true
is_final _ = false

-- eventType != EventTypeCompleted && eventType != EventTypeFailed
abbrev pub should_wait : EventType → Bool
should_wait event_type = not (is_final event_type)
