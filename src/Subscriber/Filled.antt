-- ===== src/Subscriber/Filled.antt =====
-- internal/service/subscriber_service.go: what each stage of a request writes where it goes on.
use Prim.Native.String.{len}
use svc_web_analyzer.Prelude.{
  ℕ, suc, ◌-◌, ◌≡◌, refl, ap, ◌∙◌, String, Option, none, some, List, arith,
}
use svc_web_analyzer.Domain.{
  Analysis, AnalysisData, AnalysisRequestPayload, OutboxEvent, ProcessResult, WebPageContent,
  Result, ok, err,
}
use svc_web_analyzer.World
use svc_web_analyzer.World.{AnalysisRow, World, M, external, labelled, proceed_ok, relabel_ok}
use svc_web_analyzer.Outbox.{update_where, mark_row, mark_completed}
use svc_web_analyzer.Outbox.Rows.{update_rows}
use svc_web_analyzer.Analyses
use svc_web_analyzer.Analyses.{by_id, set_results, set_duration, update_by_criteria}
use svc_web_analyzer.Cache
use svc_web_analyzer.Subscriber.Stopping.{Step, Steps, done, stop, stopped, go_on}
use svc_web_analyzer.Subscriber.Work.{
  SubscriberService, fetched, analyzed, check_links, milliseconds, invalidate, clock, set_found,
  refresh_cache, copy_analysis_results, gather_results, perform_full_analysis,
}
use svc_web_analyzer.Subscriber.{fetch_step, fetch_page, fill_results, complete}

-- the two ways on, taken apart
pub go_on_done :
    {A B : Type 0} (r : Step A × World) (f : A → Steps B) {b : B} {v : World}
    → go_on r f ≡ (done b, v)
    → (a : A) × (u : World) × (r ≡ (done a, u)) × (f a u ≡ (done b, v))
go_on_done (done a, w) f h = (a, w, refl, h)
go_on_done (stop r, w) f h = cc

stopped_done :
    {A : Type 0} (c l : String) (r : Result A × World) {a : A} {v : World}
    → stopped c l r ≡ (done a, v)
    → r ≡ (ok a, v)
stopped_done c l (ok b, w) h = cc
stopped_done c l (err e, w) h = cc

module _ (s : SubscriberService) (p : AnalysisRequestPayload) where
  -- the completion rewrites the row of the analysis once
  pub complete_rows :
      (e : OutboxEvent) (hash : String) (w v : World) {res : ProcessResult}
      → complete s p e hash w ≡ (done res, v)
      → (ms : ℕ) × (t : ℕ) × (v.analyses
          ≡ update_rows (by_id p.analysis_id) (set_duration ms t) w.analyses)
        × (res.content_hash ≡ hash)
  unfolding complete clock Analyses.update_completion_duration update_by_criteria mark_completed
      mark_row update_where external invalidate Cache.delete
  complete_rows e hash w v h = (
    milliseconds ((w.script w.calls).at - e.created_at),
    (w.script (suc w.calls)).at,
    ground arith,
    ground arith,
  )

  refresh_rows : (id : String) (w : World) → (refresh_cache s id w).1.analyses ≡ w.analyses
  unfolding refresh_cache set_found Analyses.find Cache.set external
  refresh_rows id w = ground arith

  update_rows_of :
      (id hash : String) (size : ℕ) (d : Option AnalysisData) (w v : World)
      → Analyses.update s.lib id hash size d w ≡ (ok tt, v)
      → (json : String) × (v.analyses
          ≡ update_rows (by_id id) (set_results hash size json (w.script w.calls).at) w.analyses)
  unfolding Analyses.update update_by_criteria external
  update_rows_of id hash size d w v h = go (Analyses.marshal_results s.lib d) refl
    where
      go :
          (r : Result String)
          → Analyses.marshal_results s.lib d ≡ r
          → (json : String) × (v.analyses
              ≡ update_rows
                  (by_id id)
                  (set_results hash size json (w.script w.calls).at)
                  w.analyses)
      go (ok json) e = (json, ground arith)
      go (err x) e = absurd (ground arith)

  -- the row of the analysis gets the hash and some results
  abbrev pub IsSaved : String → List AnalysisRow → List AnalysisRow → Type 0
  IsSaved hash before after =
      (size : ℕ) × (json : String) × (t : ℕ) × (after
        ≡ update_rows (by_id p.analysis_id) (set_results hash size json t) before)

  -- the labelled update and the refresh of the cache that end both methods
  update-IsSaved :
      (label hash : String) (size : ℕ) (d : Option AnalysisData) (w v : World)
      → (World.◌>>◌
            (labelled label (Analyses.update s.lib p.analysis_id hash size d))
            (refresh_cache s p.analysis_id))
          w
        ≡ (ok tt, v)
      → IsSaved hash w.analyses v.analyses
  update-IsSaved label hash size d w v h =
      let (_, u, ran, rest) =
        proceed_ok (labelled label (Analyses.update s.lib p.analysis_id hash size d) w)
          (λ _. refresh_cache s p.analysis_id) h in
      let (json, wrote) = update_rows_of p.analysis_id hash size d w u (relabel_ok label _ ran) in
      let same : v.analyses ≡ u.analyses = rw rest at (refresh_rows p.analysis_id u) in
      (size, json, (w.script w.calls).at, same ∙ wrote)

  copied_rows :
      (hash : String) (a : Analysis) (w v : World)
      → copy_analysis_results s p.analysis_id hash a w ≡ (ok tt, v)
      → IsSaved hash w.analyses v.analyses
  unfolding copy_analysis_results
  copied_rows hash a w v h = update-IsSaved _ hash a.content_size a.results w v h

  gathered_rows :
      (c : WebPageContent) (w : World) → (gather_results s c p.options w).1.analyses ≡ w.analyses
  unfolding gather_results clock analyzed check_links
  gathered_rows c w = ground arith

  analysed_rows :
      (hash : String) (c : WebPageContent) (w v : World)
      → perform_full_analysis s p.analysis_id hash c p.options w ≡ (ok tt, v)
      → IsSaved hash w.analyses v.analyses
  unfolding perform_full_analysis
  analysed_rows hash c w v h =
      let save = λ (d : AnalysisData).
        World.◌>>◌
          (labelled "failed to save analysis results"
            (Analyses.update s.lib p.analysis_id hash (len c.html) (some d)))
          (refresh_cache s p.analysis_id) in
      let (d, u, ran, rest) = proceed_ok (gather_results s c p.options w) save h in
      let same : u.analyses ≡ w.analyses = rw ran at (gathered_rows c w) in
      let (size, json, t, wrote) = update-IsSaved _ hash (len c.html) (some d) u v rest in
      (
        size,
        json,
        t,
        wrote ∙ ap (update_rows (by_id p.analysis_id) (set_results hash size json t)) same,
      )

  pub filled_rows :
      (hash : String) (c : WebPageContent) (existing : Option Analysis) (w v : World)
      → fill_results s p hash c existing w ≡ (done tt, v)
      → IsSaved hash w.analyses v.analyses
  unfolding fill_results
  filled_rows hash c (some a) w v h = copied_rows hash a w v (stopped_done _ _ _ h)
  filled_rows hash c none w v h = analysed_rows hash c w v (stopped_done _ _ _ h)

  pub fetched_content :
      (w v : World) {c : WebPageContent}
      → fetch_page s p w ≡ (done c, v)
      → (n : ℕ) × (s.fetch p.url p.options.timeout n ≡ ok c)
  unfolding fetch_page fetched
  fetched_content w v {c} h = (w.calls, from_step (fetched s p.url p.options.timeout w) h)
    where
      from_step : (r : Result WebPageContent × World) → fetch_step s p r ≡ (done c, v) → r.0 ≡ ok c
      from_step (ok d, u) e = cc
      from_step (err x, u) e = cc
