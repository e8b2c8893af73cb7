-- ===== src/Subscriber/Success.antt =====
-- internal/service/subscriber_service.go: what a result with `Success: true` says of the tables.
use mathlib.Core.Option
use svc_web_analyzer.Prelude.{
  ℕ, ◌≡◌, ◌≢◌, refl, sym, ap, ◌∙◌, String, true, Option, none, some, List, arith, first,
}
use svc_web_analyzer.Domain.{
  AnalysisRequestPayload, AnalysisStatus, ProcessResult, WebPageContent, ok,
}
use svc_web_analyzer.World.{AnalysisRow, World}
use svc_web_analyzer.Outbox.Rows.{update_rows}
use svc_web_analyzer.Analyses.{by_id, set_results, set_duration}
use svc_web_analyzer.Subscriber.Stopping.{Step, done, stop, or_stop, result_of}
use svc_web_analyzer.Subscriber.Filled.{
  go_on_done, complete_rows, IsSaved, filled_rows, fetched_content,
}
use svc_web_analyzer.Subscriber.Failures.{IsFailure, analyse-StopsFailed}
use svc_web_analyzer.Subscriber.Keeps.{Keeps-or_stop}
use svc_web_analyzer.Subscriber.Reads.{Keeps-check_duplicate_content}
use svc_web_analyzer.Subscriber.Frame.{
  KeepsId, Updates, lookup-update_self, Keeps-take_up, Keeps-fetch_page,
}
use svc_web_analyzer.Subscriber.Work.{SubscriberService, check_duplicate_content}
use svc_web_analyzer.Subscriber.{
  fetch_page, fill_results, take_up, complete, finish, save_content, fetch_and_save, analyse,
  process_analysis_request,
}

module _ (s : SubscriberService) (p : AnalysisRequestPayload) where
  abbrev HasRow : List AnalysisRow → Type 0
  HasRow rs = first (by_id p.analysis_id) rs ≢ none

  HasRow-updates : Updates p.analysis_id HasRow
  HasRow-updates f rs keeps h = ground (arith, lookup-update_self p.analysis_id f rs keeps)

  -- the table after the whole method, on its successful path
  analyse_rows :
      (w v : World) {res : ProcessResult}
      → HasRow w.analyses
      → analyse s p w ≡ (done res, v)
      → (c : WebPageContent) × (n : ℕ) × (ms : ℕ) × (t : ℕ) × (before : List AnalysisRow)
        × (between : List AnalysisRow) × (s.fetch p.url p.options.timeout n ≡ ok c)
        × (res.content_hash ≡ s.lib.sha256_hex c.html)
        × HasRow before
        × IsSaved s p (s.lib.sha256_hex c.html) before between
        × (v.analyses ≡ update_rows (by_id p.analysis_id) (set_duration ms t) between)
  unfolding analyse fetch_and_save save_content finish
  analyse_rows w v {res} has h =
      let (e, u₁, ran₁, rest₁) = go_on_done (take_up s p w) (fetch_and_save s p) h in
      let (c, u₂, ran₂, rest₂) = go_on_done (fetch_page s p u₁) (save_content s p e) rest₁ in
      let hash = s.lib.sha256_hex c.html in
      let check =
        or_stop "DUPLICATE_CHECK_ERROR" "failed to check duplicate content: "
          (check_duplicate_content s hash) in
      let (existing, u₃, ran₃, rest₃) = go_on_done (check u₂) (finish s p e c) rest₂ in
      let (_, u₄, ran₄, rest₄) =
        go_on_done (fill_results s p hash c existing u₃) (λ _. complete s p e hash) rest₃ in
      let has₁ : HasRow u₁.analyses =
        rw ran₁ at ((Keeps-take_up HasRow s p HasRow-updates).at w has) in
      let has₂ : HasRow u₂.analyses =
        rw ran₂ at ((Keeps-fetch_page HasRow s p HasRow-updates).at u₁ has₁) in
      let has₃ : HasRow u₃.analyses = rw ran₃ at (
        (Keeps-or_stop HasRow "DUPLICATE_CHECK_ERROR" "failed to check duplicate content: "
            (check_duplicate_content s hash) (Keeps-check_duplicate_content HasRow s hash)).at
          u₂ has₂) in
      let (n, from_fetch) = fetched_content s p u₁ u₂ ran₂ in
      let (ms, t, wrote, same_hash) = complete_rows s p e hash u₄ v rest₄ in
      (
        c,
        n,
        ms,
        t,
        u₃.analyses,
        u₄.analyses,
        from_fetch,
        same_hash,
        has₃,
        filled_rows s p hash c existing u₃ u₄ ran₄,
        wrote,
      )

  result_done :
      (r : Step ProcessResult × World) {res : ProcessResult} {v : World}
      → IsFailure r.0
      → result_of r ≡ (ok res, v)
      → res.success ≡ true
      → r ≡ (done res, v)
  result_done (done a, u) f h is_ok = cc
  result_done (stop a, u) f h is_ok = absurd (cc)

  -- the row after both updates
  twice_updated :
      (f g : AnalysisRow → AnalysisRow) (before between after : List AnalysisRow)
      → HasRow before
      → KeepsId f
      → KeepsId g
      → between ≡ update_rows (by_id p.analysis_id) f before
      → after ≡ update_rows (by_id p.analysis_id) g between
      → (r : AnalysisRow) × (first (by_id p.analysis_id) after ≡ some (g (f r)))
  twice_updated f g before between after has f_keeps g_keeps saved wrote =
      let updated_f = lookup-update_self p.analysis_id f before f_keeps in
      let updated_g = lookup-update_self p.analysis_id g between g_keeps in
      go (first (by_id p.analysis_id) before) refl updated_f updated_g
    where
      go :
          (o : Option AnalysisRow)
          → first (by_id p.analysis_id) before ≡ o
          → first (by_id p.analysis_id) (update_rows (by_id p.analysis_id) f before)
            ≡ Option.map f (first (by_id p.analysis_id) before)
          → first (by_id p.analysis_id) (update_rows (by_id p.analysis_id) g between)
            ≡ Option.map g (first (by_id p.analysis_id) between)
          → (r : AnalysisRow) × (first (by_id p.analysis_id) after ≡ some (g (f r)))
      go none e _ _ = absurd (has e)
      go (some r) e uf ug = (
        r,
        ap (first (by_id p.analysis_id)) wrote
            ∙ ug
            ∙ ap (Option.map g) (ap (first (by_id p.analysis_id)) saved ∙ uf ∙ ap (Option.map f) e),
      )

  -- what a completed analysis looks like in its table
  pub record IsCompleted (w v : World) (res : ProcessResult) : Type 0 where
    content : WebPageContent
    fetches : ℕ
    row : AnalysisRow
    results : String
    duration : ℕ
    is_fetched : s.fetch p.url p.options.timeout fetches ≡ ok content
    is_hash : res.content_hash ≡ s.lib.sha256_hex content.html
    is_row : first (by_id p.analysis_id) v.analyses ≡ some row
    is_completed : row.status ≡ AnalysisStatus.completed
    has_hash : row.content_hash ≡ some res.content_hash
    has_results : row.results ≡ some results
    has_duration : row.duration ≡ some duration

  -- If ProcessAnalysisRequest reports success and the table had the analysis, then the analysis is
  -- completed, with results and a duration, and its hash is the one reported: the hash of a content
  -- that the fetcher returned for the URL of the request.
  pub process_success :
      (w v : World) {res : ProcessResult}
      → first (by_id p.analysis_id) w.analyses ≢ none
      → process_analysis_request s p w ≡ (ok res, v)
      → res.success ≡ true
      → IsCompleted w v res
  unfolding process_analysis_request
  process_success w v {res} has h is_ok =
      let ran = result_done (analyse s p w) ((analyse-StopsFailed s p).at w) h is_ok in
      let (
        c,
        n,
        ms,
        t,
        before,
        between,
        from_fetch,
        hash,
        has_row,
        (size, json, t', saved),
        wrote,
      ) =
        analyse_rows w v has ran in
      let (r, found) =
        twice_updated (set_results (s.lib.sha256_hex c.html) size json t') (set_duration ms t)
          before between v.analyses has_row (λ q. refl) (λ q. refl) saved wrote in
      record {
        content = c;
        fetches = n;
        row = set_duration ms t (set_results (s.lib.sha256_hex c.html) size json t' r);
        results = json;
        duration = ms;
        is_fetched = from_fetch;
        is_hash = hash;
        is_row = found;
        is_completed = refl;
        has_hash = ap some (sym hash);
        has_results = refl;
        has_duration = refl;
      }
