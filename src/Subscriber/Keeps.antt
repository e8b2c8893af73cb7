-- ===== src/Subscriber/Keeps.antt =====
-- internal/service/subscriber_service.go: what an action leaves true of the table of analyses, one
-- rule for each way to build an action. The state stays changed when the action fails.
use svc_web_analyzer.Prelude.{String, Bool, true, false, List, if◌then◌else◌}
use svc_web_analyzer.Domain.{Result, ok, err}
use svc_web_analyzer.World.{
  AnalysisRow, World, M, pure, lifted, external, relabel, labelled, attempt, proceed,
}
use svc_web_analyzer.World
use svc_web_analyzer.Subscriber.Stopping
use svc_web_analyzer.Subscriber.Stopping.{Step, Steps, done, stop, stopped, or_stop, go_on}

pub record Keeps {X : Type 0} (P : List AnalysisRow → Type 0) (m : World → X × World) : Type 0 where
  pub at : (w : World) → P w.analyses → P (m w).1.analyses

module _ (P : List AnalysisRow → Type 0) {A : Type 0} where
  pub Keeps-pure : (a : A) → Keeps P (pure a)
  Keeps-pure a = record { at = λ w h. h }

  pub Keeps-lifted : (r : Result A) → Keeps P (lifted r)
  Keeps-lifted r = record { at = λ w h. h }

  relabel_keeps : (s : String) (r : Result A × World) → P r.1.analyses → P (relabel s r).1.analyses
  relabel_keeps s (ok a, w) h = h
  relabel_keeps s (err e, w) h = h

  pub Keeps-labelled : (s : String) (m : M A) → Keeps P m → Keeps P (labelled s m)
  Keeps-labelled s m k = record { at = λ w h. relabel_keeps s (m w) (k.at w h) }

  stopped_keeps :
      (c s : String) (r : Result A × World) → P r.1.analyses → P (stopped c s r).1.analyses
  stopped_keeps c s (ok a, w) h = h
  stopped_keeps c s (err e, w) h = h

  pub Keeps-or_stop : (c s : String) (m : M A) → Keeps P m → Keeps P (or_stop c s m)
  Keeps-or_stop c s m k = record { at = λ w h. stopped_keeps c s (m w) (k.at w h) }

module _ (P : List AnalysisRow → Type 0) where
  pub Keeps-external : Keeps P external
  unfolding external
  Keeps-external = record { at = λ w h. h }

  pub Keeps-attempt : (m : M (Unit {0})) → Keeps P m → Keeps P (attempt m)
  Keeps-attempt m k = record { at = λ w h. k.at w h }

  pub Keeps-if :
      {X : Type 0} (b : Bool) (m n : World → X × World)
      → Keeps P m
      → Keeps P n
      → Keeps P (if b then m else n)
  Keeps-if true m n km kn = km
  Keeps-if false m n km kn = kn

module _ (P : List AnalysisRow → Type 0) {A B : Type 0} where
  proceed_keeps :
      (r : Result A × World) (f : A → M B)
      → P r.1.analyses
      → ((a : A) → Keeps P (f a))
      → P (proceed r f).1.analyses
  proceed_keeps (ok a, w) f h k = (k a).at w h
  proceed_keeps (err e, w) f h k = h

  pub Keeps-bind :
      (m : M A) (f : A → M B) → Keeps P m → ((a : A) → Keeps P (f a)) → Keeps P (World.◌>>=◌ m f)
  Keeps-bind m f km kf = record { at = λ w h. proceed_keeps (m w) f (km.at w h) kf }

  go_on_keeps :
      (r : Step A × World) (f : A → Steps B)
      → P r.1.analyses
      → ((a : A) → Keeps P (f a))
      → P (go_on r f).1.analyses
  go_on_keeps (done a, w) f h k = (k a).at w h
  go_on_keeps (stop r, w) f h k = h

  pub Keeps-then :
      (m : Steps A) (f : A → Steps B)
      → Keeps P m
      → ((a : A) → Keeps P (f a))
      → Keeps P (Stopping.◌>>=◌ m f)
  Keeps-then m f km kf = record { at = λ w h. go_on_keeps (m w) f (km.at w h) kf }

pub ruleset keeps_rules = (
  Keeps-pure, Keeps-lifted, Keeps-labelled, Keeps-or_stop, Keeps-external, Keeps-attempt, Keeps-if,
  Keeps-bind, Keeps-then,
)
