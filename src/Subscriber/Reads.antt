-- ===== src/Subscriber/Reads.antt =====
-- internal/service/subscriber_service.go: the calls that leave the table of analyses alone.
use svc_web_analyzer.Prelude.{ℕ, ◌≡◌, refl, sym, subst, String, List, arith}
use svc_web_analyzer.Domain.{AnalysisData, AnalysisOptions, WebPageContent}
use svc_web_analyzer.World.{AnalysisRow, World, external}
use svc_web_analyzer.Outbox.{
  update_where, mark_row, get_by_aggregate_id, mark_processed, mark_completed,
}
use svc_web_analyzer.Analyses
use svc_web_analyzer.Analyses.{by_id, update_by_criteria, marshal_results}
use svc_web_analyzer.Cache
use svc_web_analyzer.Subscriber.Keeps.{Keeps, keeps_rules}
use svc_web_analyzer.Subscriber.Work.{
  SubscriberService, clock, fetched, analyzed, invalidate, none_if_no_rows, check_duplicate_content,
  set_found, refresh_cache, check_links, gather_results,
}

module _ (P : List AnalysisRow → Type 0) where
  Keeps-same :
      {X : Type 0} (m : World → X × World)
      → ((w : World) → (m w).1.analyses ≡ w.analyses)
      → Keeps P m
  Keeps-same m same = record { at = λ w h. subst P (sym (same w)) h }

  pub Keeps-get_by_aggregate_id :
      (s : SubscriberService) (id : String) → Keeps P (get_by_aggregate_id s.lib id)
  unfolding get_by_aggregate_id external
  Keeps-get_by_aggregate_id s id = Keeps-same _ (λ w. ground arith)

  pub Keeps-mark_processed : (id : String) → Keeps P (mark_processed id)
  unfolding mark_processed mark_row update_where external
  Keeps-mark_processed id = Keeps-same _ (λ w. ground arith)

  pub Keeps-mark_completed : (id : String) → Keeps P (mark_completed id)
  unfolding mark_completed mark_row update_where external
  Keeps-mark_completed id = Keeps-same _ (λ w. ground arith)

  pub Keeps-clock : Keeps P clock
  unfolding clock
  Keeps-clock = Keeps-same _ (λ w. refl)

  Keeps-delete : (id : String) → Keeps P (Cache.delete id)
  unfolding Cache.delete external
  Keeps-delete id = Keeps-same _ (λ w. ground arith)

  module _ (s : SubscriberService) where
    pub Keeps-invalidate : (id : String) → Keeps P (invalidate s id)
    unfolding invalidate
    Keeps-invalidate id = search (keeps_rules, Keeps-delete)

    pub Keeps-fetched : (url : String) (t : ℕ) → Keeps P (fetched s url t)
    unfolding fetched
    Keeps-fetched url t = Keeps-same _ (λ w. refl)

    Keeps-analyzed : (c : WebPageContent) (o : AnalysisOptions) → Keeps P (analyzed s c o)
    unfolding analyzed
    Keeps-analyzed c o = Keeps-same _ (λ w. refl)

    Keeps-check_links : (o : AnalysisOptions) (d : AnalysisData) → Keeps P (check_links s o d)
    unfolding check_links
    Keeps-check_links o d = Keeps-same _ (λ w. ground arith)

    pub Keeps-gather_results :
        (c : WebPageContent) (o : AnalysisOptions) → Keeps P (gather_results s c o)
    unfolding gather_results
    Keeps-gather_results c o =
        search (keeps_rules, Keeps-clock, Keeps-analyzed, Keeps-check_links) depth 9

    pub Keeps-check_duplicate_content : (hash : String) → Keeps P (check_duplicate_content s hash)
    unfolding check_duplicate_content none_if_no_rows Analyses.find_by_content_hash
        Analyses.as_no_rows Analyses.find_by_criteria external
    Keeps-check_duplicate_content hash = Keeps-same _ (λ w. ground arith)

    pub Keeps-refresh_cache : (id : String) → Keeps P (refresh_cache s id)
    unfolding refresh_cache set_found Analyses.find Cache.set external
    Keeps-refresh_cache id = Keeps-same _ (λ w. ground arith)
