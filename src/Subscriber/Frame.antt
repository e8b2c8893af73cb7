-- ===== src/Subscriber/Frame.antt =====
-- internal/service/subscriber_service.go: ProcessAnalysisRequest writes no row but that of its own
-- analysis. Whatever the updates of that one row keep true of the table, the whole method keeps.
use mathlib.Core.Option
use svc_web_analyzer.Prelude.{
  ℕ, ◌≡◌, refl, String, Option, none, some, List, [], ◌∷◌, ◌≢◌, ◌∙◌, eq_iff, arith, first,
}
use svc_web_analyzer.Domain.{
  Analysis, AnalysisData, AnalysisOptions, AnalysisRequestPayload, AnalysisStatus, OutboxEvent,
  ProcessResult, WebPageContent, Result, ok, err, error_text,
}
use svc_web_analyzer.World.{AnalysisRow, World, M, external}
use svc_web_analyzer.Outbox.Rows.{update_rows}
use svc_web_analyzer.Analyses
use svc_web_analyzer.Analyses.{by_id, update_by_criteria, marshal_results}
use svc_web_analyzer.Subscriber.Reads.{
  Keeps-get_by_aggregate_id, Keeps-mark_processed, Keeps-mark_completed, Keeps-clock,
  Keeps-invalidate, Keeps-fetched, Keeps-gather_results, Keeps-check_duplicate_content,
  Keeps-refresh_cache,
}
use svc_web_analyzer.Subscriber.Keeps.{
  Keeps, Keeps-then, Keeps-or_stop, Keeps-bind, Keeps-lifted, Keeps-labelled, Keeps-external,
  keeps_rules,
}
use svc_web_analyzer.Subscriber.Stopping.{Step, done, stop, result_of}
use svc_web_analyzer.Subscriber.Work.{
  SubscriberService, copy_analysis_results, perform_full_analysis,
}
use svc_web_analyzer.Subscriber.{
  after_mark, skipped, fetch_step, fetch_page, fill_results, take_up, complete, finish,
  save_content, fetch_and_save, analyse, process_analysis_request,
}

abbrev pub KeepsId : (AnalysisRow → AnalysisRow) → Type 0
KeepsId f = (r : AnalysisRow) → (f r).id ≡ r.id

-- what an update of the row of `id` keeps
abbrev pub Updates : String → (List AnalysisRow → Type 0) → Type 0
Updates id P =
    (f : AnalysisRow → AnalysisRow) (rs : List AnalysisRow)
    → KeepsId f
    → P rs
    → P (update_rows (by_id id) f rs)

module _ (P : List AnalysisRow → Type 0) (id : String) (updates : Updates id P) where
  Keeps-update_by_criteria :
      (label : String) (change : ℕ → AnalysisRow → AnalysisRow)
      → ((now : ℕ) → KeepsId (change now))
      → Keeps P (update_by_criteria label id change)
  unfolding update_by_criteria
  Keeps-update_by_criteria label change keeps =
      Keeps-bind P _ _ (Keeps-labelled P label external (Keeps-external P))
        λ now. record { at = λ w h. updates (change now) w.analyses (keeps now) h }

  Keeps-update_status : (status : AnalysisStatus) → Keeps P (Analyses.update_status id status)
  unfolding Analyses.update_status
  Keeps-update_status status = Keeps-update_by_criteria _ _ (λ now r. refl)

  Keeps-update_completion_duration : (ms : ℕ) → Keeps P (Analyses.update_completion_duration id ms)
  unfolding Analyses.update_completion_duration
  Keeps-update_completion_duration ms = Keeps-update_by_criteria _ _ (λ now r. refl)

  Keeps-mark_failed : (code text : String) (n : ℕ) → Keeps P (Analyses.mark_failed id code text n)
  unfolding Analyses.mark_failed
  Keeps-mark_failed code text n = Keeps-update_by_criteria _ _ (λ now r. refl)

  module _ (s : SubscriberService) where
    Keeps-update :
        (hash : String) (size : ℕ) (d : Option AnalysisData)
        → Keeps P (Analyses.update s.lib id hash size d)
    unfolding Analyses.update
    Keeps-update hash size d =
        Keeps-bind P _ _ (Keeps-lifted P _) λ json. Keeps-update_by_criteria _ _ (λ now r. refl)

    Keeps-copy_analysis_results :
        (hash : String) (source : Analysis) → Keeps P (copy_analysis_results s id hash source)
    unfolding copy_analysis_results
    Keeps-copy_analysis_results hash source =
        search (keeps_rules, Keeps-update, Keeps-refresh_cache P s)

    Keeps-perform_full_analysis :
        (hash : String) (c : WebPageContent) (o : AnalysisOptions)
        → Keeps P (perform_full_analysis s id hash c o)
    unfolding perform_full_analysis
    Keeps-perform_full_analysis hash c o =
        search (keeps_rules, Keeps-gather_results P s, Keeps-update, Keeps-refresh_cache P s)

module _ (P : List AnalysisRow → Type 0) (s : SubscriberService) (p : AnalysisRequestPayload)
    (updates : Updates p.analysis_id P) where
  after_mark_keeps :
      (r : Result (Unit {0}) × World) → P r.1.analyses → P (after_mark s p.analysis_id r).analyses
  unfolding after_mark
  after_mark_keeps (ok _, w) h = (Keeps-invalidate P s p.analysis_id).at w h
  after_mark_keeps (err _, w) h = h

  fetch_step_keeps :
      (r : Result WebPageContent × World) → P r.1.analyses → P (fetch_step s p r).1.analyses
  fetch_step_keeps (ok c, w) h = h
  fetch_step_keeps (err e, w) h =
      after_mark_keeps _
        ((Keeps-mark_failed P p.analysis_id updates "FETCH_ERROR" (error_text e) 0).at w h)

  pub Keeps-fetch_page : Keeps P (fetch_page s p)
  unfolding fetch_page
  Keeps-fetch_page = record {
    at = λ w h. fetch_step_keeps _ ((Keeps-fetched P s p.url p.options.timeout).at w h);
  }

  Keeps-fill_results :
      (hash : String) (c : WebPageContent) (existing : Option Analysis)
      → Keeps P (fill_results s p hash c existing)
  unfolding fill_results
  Keeps-fill_results hash c (some a) =
      search (keeps_rules, Keeps-copy_analysis_results P p.analysis_id updates s)
  Keeps-fill_results hash c none =
      search (keeps_rules, Keeps-perform_full_analysis P p.analysis_id updates s)

  Keeps-done : {A : Type 0} (a : A) → Keeps P (λ (w : World). (done a, w))
  Keeps-done a = record { at = λ w h. h }

  Keeps-skipped : (m : M (Unit {0})) → Keeps P m → Keeps P (skipped s m)
  Keeps-skipped m k = record { at = λ w h. k.at w h }

  pub Keeps-take_up : Keeps P (take_up s p)
  unfolding take_up
  Keeps-take_up =
      search
        (
          keeps_rules,
          Keeps-get_by_aggregate_id P s,
          Keeps-mark_processed P,
          Keeps-update_status P p.analysis_id updates,
          Keeps-invalidate P s,
          Keeps-skipped,
          Keeps-done,
        )
        depth 9

  Keeps-complete : (e : OutboxEvent) (hash : String) → Keeps P (complete s p e hash)
  unfolding complete
  Keeps-complete e hash = Keeps-then P _ _ (Keeps-or_stop P _ _ _ (Keeps-clock P)) λ now.
      Keeps-then P _ _
        (Keeps-or_stop P _ _ _ (Keeps-update_completion_duration P p.analysis_id updates _))
        λ _.
          search
            (keeps_rules, Keeps-mark_completed P, Keeps-invalidate P s, Keeps-skipped, Keeps-done)

  Keeps-analyse : Keeps P (analyse s p)
  unfolding analyse fetch_and_save save_content finish
  Keeps-analyse =
      search
        (
          keeps_rules,
          Keeps-take_up,
          Keeps-fetch_page,
          Keeps-check_duplicate_content P s,
          Keeps-fill_results,
          Keeps-complete,
        )
        depth 9

  result_of_keeps : (r : Step ProcessResult × World) → P r.1.analyses → P (result_of r).1.analyses
  result_of_keeps (done x, w) h = h
  result_of_keeps (stop x, w) h = h

  -- Whatever the drivers, the fetcher and the analyzer answer, ProcessAnalysisRequest keeps every
  -- property of the table that updates of its own analysis's row keep.
  pub process_analysis_request_keeps :
      (w : World) → P w.analyses → P (process_analysis_request s p w).1.analyses
  unfolding process_analysis_request
  process_analysis_request_keeps w h = result_of_keeps _ (Keeps-analyse.at w h)

pub lookup-update_self :
    (id : String) (f : AnalysisRow → AnalysisRow) (rs : List AnalysisRow)
    → KeepsId f
    → first (by_id id) (update_rows (by_id id) f rs) ≡ Option.map f (first (by_id id) rs)
unfolding update_rows
lookup-update_self id f [] keeps = refl
lookup-update_self id f (r ∷ rs) keeps = ground (arith, keeps r, lookup-update_self id f rs keeps)

lookup-update_ne :
    (id j : String) (f : AnalysisRow → AnalysisRow) (rs : List AnalysisRow)
    → id ≢ j
    → KeepsId f
    → first (by_id j) (update_rows (by_id id) f rs) ≡ first (by_id j) rs
unfolding update_rows
lookup-update_ne id j f [] ne keeps = refl
lookup-update_ne id j f (r ∷ rs) ne keeps =
    ground (arith, keeps r, eq_iff r.id id, eq_iff r.id j, lookup-update_ne id j f rs ne keeps)

-- On every path, errors included, ProcessAnalysisRequest leaves the row of every other analysis as
-- it was.
pub process_analysis_request_others :
    (s : SubscriberService) (p : AnalysisRequestPayload) (j : String) (w : World)
    → p.analysis_id ≢ j
    → first (by_id j) (process_analysis_request s p w).1.analyses ≡ first (by_id j) w.analyses
process_analysis_request_others s p j w ne =
    process_analysis_request_keeps (λ rs. first (by_id j) rs ≡ first (by_id j) w.analyses) s p
      (λ f rs keeps same. lookup-update_ne p.analysis_id j f rs ne keeps ∙ same) w refl
