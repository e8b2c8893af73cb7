-- ===== src/Subscriber/Failures.antt =====
-- internal/service/subscriber_service.go: a request that stops early has a result that says so.
use svc_web_analyzer.Prelude.{◌≡◌, refl, String, false, Option, none, some}
use svc_web_analyzer.Domain.{
  Analysis, AnalysisRequestPayload, OutboxEvent, WebPageContent, Result, ok, err,
}
use svc_web_analyzer.World.{World, M}
use svc_web_analyzer.Subscriber.Stopping.{Step, Steps, done, stop, or_stop, stopped, go_on, ◌>>=◌}
use svc_web_analyzer.Subscriber.Work.{SubscriberService}
use svc_web_analyzer.Subscriber.{
  fetch_step, fetch_page, skipped, fill_results, take_up, complete, finish, save_content,
  fetch_and_save, analyse,
}

-- a step that stops says so in its result
abbrev pub IsFailure : {A : Type 0} → Step A → Type 0
IsFailure (done a) = Unit
IsFailure (stop r) = r.success ≡ false

pub record StopsFailed {A : Type 0} (m : Steps A) : Type 0 where
  pub at : (w : World) → IsFailure (m w).0

stopped_fails : {A : Type 0} (c l : String) (r : Result A × World) → IsFailure (stopped c l r).0
stopped_fails c l (ok a, w) = tt
stopped_fails c l (err e, w) = refl

or_stop-StopsFailed : {A : Type 0} (c l : String) (m : M A) → StopsFailed (or_stop c l m)
or_stop-StopsFailed c l m = record { at = λ w. stopped_fails c l (m w) }

go_on_fails :
    {A B : Type 0} (r : Step A × World) (f : A → Steps B)
    → IsFailure r.0
    → ((a : A) → StopsFailed (f a))
    → IsFailure (go_on r f).0
go_on_fails (done a, w) f h k = (k a).at w
go_on_fails (stop r, w) f h k = h

then-StopsFailed :
    {A B : Type 0} (m : Steps A) (f : A → Steps B)
    → StopsFailed m
    → ((a : A) → StopsFailed (f a))
    → StopsFailed (m >>= f)
then-StopsFailed m f k kf = record { at = λ w. go_on_fails (m w) f (k.at w) kf }

done-StopsFailed : {A : Type 0} (a : A) → StopsFailed (λ (w : World). (done a, w))
done-StopsFailed a = record { at = λ w. tt }

ruleset fails_rules = (or_stop-StopsFailed, then-StopsFailed, done-StopsFailed)

module _ (s : SubscriberService) (p : AnalysisRequestPayload) where
  skipped-StopsFailed : (m : M (Unit {0})) → StopsFailed (skipped s m)
  skipped-StopsFailed m = record { at = λ w. tt }

  fetch_step_fails : (r : Result WebPageContent × World) → IsFailure (fetch_step s p r).0
  fetch_step_fails (ok c, w) = tt
  fetch_step_fails (err e, w) = refl

  fetch_page-StopsFailed : StopsFailed (fetch_page s p)
  unfolding fetch_page
  fetch_page-StopsFailed = record { at = λ w. fetch_step_fails _ }

  fill_results-StopsFailed :
      (hash : String) (c : WebPageContent) (existing : Option Analysis)
      → StopsFailed (fill_results s p hash c existing)
  unfolding fill_results
  fill_results-StopsFailed hash c (some a) = or_stop-StopsFailed _ _ _
  fill_results-StopsFailed hash c none = or_stop-StopsFailed _ _ _

  take_up-StopsFailed : StopsFailed (take_up s p)
  unfolding take_up
  take_up-StopsFailed = search (fails_rules, skipped-StopsFailed) depth 9

  complete-StopsFailed : (e : OutboxEvent) (hash : String) → StopsFailed (complete s p e hash)
  unfolding complete
  complete-StopsFailed e hash = search (fails_rules, skipped-StopsFailed) depth 9

  pub analyse-StopsFailed : StopsFailed (analyse s p)
  unfolding analyse fetch_and_save save_content finish
  analyse-StopsFailed =
      search
        (
          fails_rules, take_up-StopsFailed, fetch_page-StopsFailed, fill_results-StopsFailed,
          complete-StopsFailed,
        )
        depth 9
