-- ===== src/Application/Events/Finish.antt =====
-- internal/service/application_service.go, FetchAnalysisEvents: from where a stream can come to its end.
use svc_web_analyzer.Prelude.{◌≡◌, String, true, List, [], ◌∷◌, ◌++◌, All}
use svc_web_analyzer.Domain.{Analysis}
use svc_web_analyzer.World.{World}
use svc_web_analyzer.Application.{AppService}
use svc_web_analyzer.Application.Events.{
  AnalysisEvent, Reaches, Stream, analysis_event, returned, sending_check,
}
use svc_web_analyzer.Application.Events.Order.{IsHeartbeat, IsOver}

-- the goroutine waits for itself
abbrev pub IsStuck : Stream → Type 0
IsStuck t = (t.place ≡ sending_check) × (t.check ≡ true)

module _ (s : AppService) (id : String) where
  -- some moves end the stream, with heartbeats and the event of a final analysis as what it sends
  pub record CanFinish (t : Stream) : Type 0 where
    pub final : Stream
    pub beats : List AnalysisEvent
    pub last : Analysis
    pub reach : Reaches s id t final
    pub at_end : final.place ≡ returned
    pub sends : final.sent ≡ t.sent ++ (beats ++ analysis_event last ∷ [])
    pub are_beats : All IsHeartbeat beats
    pub is_over : IsOver last
