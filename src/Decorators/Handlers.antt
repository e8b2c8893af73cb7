-- ===== src/Decorators/Handlers.antt =====
-- internal/usecases: each command and query with the decorated handler that its constructor makes, and
-- the applications of the publisher and the subscriber.
use svc_web_analyzer.Prelude.{◌≡◌, ℕ, String, List}
use svc_web_analyzer.Domain.{
  Analysis, AnalysisOptions, AnalysisRequestPayload, OutboxEvent, ProcessResult, PublishResult,
  Result,
}
use svc_web_analyzer.World.{World}
use svc_web_analyzer.Application.{AppService, fetch_analysis, start_analysis}
use svc_web_analyzer.Publisher.{
  PublisherService, fetch_pending_events, fetch_retryable_events, publish_event,
}
use svc_web_analyzer.Subscriber.{process_analysis_request}
use svc_web_analyzer.Subscriber.Work.{SubscriberService}
use svc_web_analyzer.Decorators.{
  Handler, IsObserved, Kind, Telemetry, apply_decorators, apply_decorators-IsObserved, bare,
  commands, queries,
}

pub record AnalyzeCommand : Type 0 where
  pub url : String
  pub options : AnalysisOptions

module _ (clock : ℕ → ℕ) (seconds : ℕ → ℕ) where
  abbrev decorated : {C R : Type 0} → Kind → String → (C → World → Result R × World) → Handler C R
  decorated kind action call = apply_decorators clock seconds kind action (bare call)

  unfoldable analyze_handler : AppService → Handler AnalyzeCommand Analysis
  analyze_handler s = decorated commands "analyzecommand" (λ c. start_analysis s c.url c.options)

  unfoldable fetch_analysis_handler : AppService → Handler String Analysis
  fetch_analysis_handler s = decorated queries "fetchanalysisquery" (fetch_analysis s)

  unfoldable publish_outbox_event_handler : PublisherService → Handler OutboxEvent PublishResult
  publish_outbox_event_handler s = decorated commands "publishoutboxeventcommand" (publish_event s)

  unfoldable fetch_pending_handler : PublisherService → Handler ℕ (List OutboxEvent)
  fetch_pending_handler s =
      decorated queries "fetchpendingoutboxeventsquery" (fetch_pending_events s)

  unfoldable fetch_retryable_handler : PublisherService → Handler ℕ (List OutboxEvent)
  fetch_retryable_handler s =
      decorated queries "fetchretryableoutboxeventsquery" (fetch_retryable_events s)

  unfoldable process_message_handler :
      SubscriberService → Handler AnalysisRequestPayload ProcessResult
  process_message_handler s =
      decorated commands "processanalysismessagecommand" (process_analysis_request s)

  -- The decorated command of a message leaves the result and the world of the service's call, and the
  -- telemetry has one entry, one span and two counts more, of the call's outcome.
  process_message_handler-IsObserved :
      (s : SubscriberService) (p : AnalysisRequestPayload) (w : World) (t : Telemetry)
      → let out = process_message_handler s p (w, t) in
        (out.0 ≡ (process_analysis_request s p w).0)
        × (out.1.0 ≡ (process_analysis_request s p w).1)
        × IsObserved clock seconds commands "processanalysismessagecommand"
            (process_analysis_request s p w).0
            t
            out.1.1
  unfolding process_message_handler
  process_message_handler-IsObserved s p w t =
      apply_decorators-IsObserved clock seconds commands "processanalysismessagecommand"
        (process_analysis_request s) p w t
