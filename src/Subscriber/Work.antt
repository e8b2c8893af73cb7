-- ===== src/Subscriber/Work.antt =====
-- internal/service/subscriber_service.go: the service, and the three methods that ProcessAnalysisRequest
-- calls. The fetcher, the analyzer and the link checker read nothing of the world but may answer
-- otherwise at each call, so they get the number of the call.
use Prim.Native.String.{len}
use svc_web_analyzer.Prelude.{
  ℕ, suc, ◌-◌, ◌/◌, String, Bool, true, false, ◌&&◌, Option, none, some, List, [], ◌∷◌,
  if◌then◌else◌,
}
use svc_web_analyzer.Domain.{
  Analysis, AnalysisData, AnalysisOptions, InaccessibleLink, Link, WebPageContent, Result, ok, err,
  is_no_rows, wrapped,
}
use svc_web_analyzer.World.{World, M, pure, ◌>>=◌, ◌>>◌, labelled, attempt, ignored}
use svc_web_analyzer.Libraries.{Libraries}
use svc_web_analyzer.Analyses
use svc_web_analyzer.Cache

-- `has_cache` is `cacheRepo != nil`; the link checker may be nil too
pub record SubscriberService : Type 0 where
  pub lib : Libraries
  pub has_cache : Bool
  pub fetch : String → ℕ → ℕ → Result WebPageContent
  pub analyze : String → String → AnalysisOptions → ℕ → Result AnalysisData
  pub link_checker : Option (List Link → ℕ → List InaccessibleLink)

abbrev next_call : World → World
next_call w = record w { calls = suc w.calls }

-- `time.Now()`, which does not fail
unfoldable pub clock : M ℕ
clock w = (ok (w.script w.calls).at, next_call w)

-- `duration.Milliseconds()` of a duration in nanoseconds
abbrev pub milliseconds : ℕ → ℕ
milliseconds d = d / 1000000

abbrev has_links : List Link → Bool
has_links [] = false
has_links (l ∷ ls) = true

module _ (s : SubscriberService) where
  unfoldable pub fetched : String → ℕ → M WebPageContent
  fetched url timeout w = (s.fetch url timeout w.calls, next_call w)

  unfoldable pub analyzed : WebPageContent → AnalysisOptions → M AnalysisData
  analyzed c options w = (s.analyze c.url c.html options w.calls, next_call w)

  -- `if s.cacheRepo != nil { s.cacheRepo.Delete(…) }`, whose error is logged
  unfoldable pub invalidate : String → M (Unit {0})
  invalidate id = if s.has_cache then attempt (Cache.delete id) else pure tt

  unfoldable pub none_if_no_rows : Result Analysis × World → Result (Option Analysis) × World
  none_if_no_rows (ok a, w) = (ok (some a), w)
  none_if_no_rows (err e, w) = (
    if is_no_rows e then ok none else err (wrapped "failed to check for existing content hash" e),
    w,
  )

  unfoldable pub check_duplicate_content : String → M (Option Analysis)
  check_duplicate_content hash w = none_if_no_rows (Analyses.find_by_content_hash s.lib hash w)

  unfoldable pub set_found : Result Analysis × World → Result (Unit {0}) × World
  set_found (ok a, w) = ignored (Cache.set s.lib a w)
  set_found (err e, w) = (ok tt, w)

  -- what both methods do after their update: the cache gets the analysis as the table has it now
  unfoldable pub refresh_cache : String → M (Unit {0})
  refresh_cache id w = if s.has_cache then set_found (Analyses.find s.lib id w) else (ok tt, w)

  unfoldable pub copy_analysis_results : String → String → Analysis → M (Unit {0})
  copy_analysis_results id hash source = do
    labelled "failed to copy results from existing analysis"
        (Analyses.update s.lib id hash source.content_size source.results)
    refresh_cache id

  -- the links that do not answer, if the request wants them checked
  unfoldable pub check_links : AnalysisOptions → AnalysisData → M (List InaccessibleLink)
  check_links options results w = elim s.link_checker [
    | none ↦ (ok results.links.inaccessible_links, w)
    | some check ↦
        if options.check_links && has_links results.links.external_links
        then (ok (check results.links.external_links w.calls), next_call w)
        else (ok results.links.inaccessible_links, w)
  ]

  -- the results with the links that were checked and the two durations
  unfoldable pub gather_results : WebPageContent → AnalysisOptions → M AnalysisData
  gather_results content options = do
    start ← clock
    found ← labelled "failed to analyze HTML" (analyzed content options)
    inaccessible ← check_links options found
    end ← clock
    pure (record found {
      links = record found.links { inaccessible_links = inaccessible };
      fetch_time = milliseconds content.fetch_duration;
      processing_time = milliseconds (end - start);
    })

  unfoldable pub perform_full_analysis :
      String → String → WebPageContent → AnalysisOptions → M (Unit {0})
  perform_full_analysis id hash content options = do
    results ← gather_results content options
    labelled "failed to save analysis results"
        (Analyses.update s.lib id hash (len content.html) (some results))
    refresh_cache id
