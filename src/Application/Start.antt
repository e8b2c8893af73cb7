-- ===== src/Application/Start.antt =====
-- internal/service/application_service.go, StartAnalysis: both rows or none, and a fresh version.
use svc_web_analyzer.Prelude.{
  false≢true, ℕ, suc, ◌+◌, ◌≡◌, ◌≢◌, sym, ap, subst, ◌∙◌, String, true, false, some, [], ◌∷◌, ◌++◌,
  arith, any,
}
use svc_web_analyzer.Domain.{
  Analysis, AnalysisOptions, OutboxStatus, Error, Result, ok, err, analysis_requested,
}
use svc_web_analyzer.World.{
  OutboxRow, World, pure, attempt, ◌>>◌, external, close_tx, in_tx, labelled, proceed_ok,
  relabel_ok,
}
use svc_web_analyzer.Outbox
use svc_web_analyzer.Outbox.Atomic.{in_tx_ok}
use svc_web_analyzer.Outbox.Insert.{save_in_tx_ok}
use svc_web_analyzer.Analyses.Insert.{max_version, analysis_id, save_in_tx, new_row, new_analysis}
use svc_web_analyzer.Analyses.{by_id}
use svc_web_analyzer.Cache
use svc_web_analyzer.Application.Saved.{save_in_tx-IsSaved}
use svc_web_analyzer.Application.{AppService, create, start_analysis, outbox_event}

close_tx_tables :
    {A : Type 0} (begun : World) (r : Result A × World) {e : Error} {v : World}
    → close_tx begun r ≡ (err e, v)
    → (v.outbox ≡ begun.outbox) × (v.analyses ≡ begun.analyses)
unfolding close_tx external
close_tx_tables begun (ok a, w) h = ground arith
close_tx_tables begun (err e, w) h = ground arith

cache_set_tables :
    (s : AppService) (a : Analysis) (w : World)
    → ((Cache.set s.lib a w).1.outbox ≡ w.outbox) × ((Cache.set s.lib a w).1.analyses ≡ w.analyses)
unfolding Cache.set external
cache_set_tables s a w = ground arith

-- A request that fails, wherever it fails, leaves both tables as they were.
pub start_analysis-err :
    (s : AppService) (url : String) (o : AnalysisOptions) (w : World) {e : Error} {v : World}
    → start_analysis s url o w ≡ (err e, v)
    → (v.outbox ≡ w.outbox) × (v.analyses ≡ w.analyses)
unfolding start_analysis in_tx external
start_analysis-err s url o w {e} {v} h =
    let begun : World = record w { calls = suc w.calls } in
    ground (arith, close_tx_tables begun (create s url o begun) {e = e} {v = v})

-- what the transaction of a new analysis writes
pub record IsStarted (s : AppService) (url : String) (o : AnalysisOptions) (w v : World)
    (a : Analysis) : Type 0 where
  pub normalized : String
  pub time : ℕ
  pub event_row : OutboxRow
  pub is_normalized : s.lib.normalize_url url ≡ some normalized
  pub is_analysis :
      a ≡ new_analysis (analysis_id s.lib normalized (max_version url w.analyses + 1)) url time
  pub adds_analysis :
      v.analyses
      ≡ w.analyses ++ new_row a.id url normalized (max_version url w.analyses + 1) time ∷ []
  pub is_new :
      any (by_id (analysis_id s.lib normalized (max_version url w.analyses + 1))) w.analyses ≡ false
  pub adds_event : v.outbox ≡ w.outbox ++ event_row ∷ []
  pub of_analysis : event_row.aggregate_id ≡ a.id
  pub has_type : event_row.event_type ≡ analysis_requested
  pub has_payload : s.lib.marshal_payload (outbox_event s a url o).payload ≡ some event_row.payload
  pub is_pending : event_row.status ≡ OutboxStatus.pending
  pub is_untried : event_row.retry_count ≡ 0
  pub has_limit : event_row.max_retries ≡ s.max_retries.normal

created_ok :
    (s : AppService) (url : String) (o : AnalysisOptions) (w : World) {a : Analysis} {v : World}
    → create s url o w ≡ (ok a, v)
    → IsStarted s url o w v a
unfolding create
created_ok s url o w {a} {v} h =
    let (b, w₁, ran₁, rest₁) =
      proceed_ok (labelled "failed to save analysis" (save_in_tx s.lib url o) w)
        (λ b.
          labelled "failed to save outbox event" (Outbox.save_in_tx s.lib (outbox_event s b url o))
          >> pure b)
        h in
    let (_, w₂, ran₂, rest₂) =
      proceed_ok
        (labelled "failed to save outbox event" (Outbox.save_in_tx s.lib (outbox_event s b url o))
          w₁)
        (λ _. pure b) rest₁ in
    let saved = save_in_tx-IsSaved s url o w (relabel_ok "failed to save analysis" _ ran₁) in
    let (r, is_row, wrote, same) =
      save_in_tx_ok s.lib (outbox_event s b url o) w₁
        (relabel_ok "failed to save outbox event" _ ran₂) in
    let same_a : b ≡ a = ground (arith, rest₂) in
    let same_v : w₂ ≡ v = ground (arith, rest₂) in
    subst (IsStarted s url o w v) same_a (
      subst (λ u. IsStarted s url o w u b) same_v
        (record {
          normalized = saved.normalized;
          time = saved.time;
          event_row = r;
          is_normalized = saved.is_normalized;
          is_analysis = saved.is_analysis;
          adds_analysis =
              same
              ∙ saved.adds
              ∙ ap
                  (λ id.
                    w.analyses
                    ++ new_row id url saved.normalized (max_version url w.analyses + 1) saved.time
                      ∷ [])
                  (sym (ap (λ x. x.id) saved.is_analysis));
          is_new = saved.is_new;
          adds_event = wrote ∙ ap (λ rs. rs ++ r ∷ []) saved.same_outbox;
          of_analysis = is_row.same_aggregate;
          has_type = is_row.same_type;
          has_payload = is_row.has_payload;
          is_pending = is_row.same_status;
          is_untried = is_row.same_retries;
          has_limit = is_row.same_limit;
        }))

-- A request that succeeds has added one analysis, requested, with its version one above every
-- version of that URL, and one outbox event for it, pending and untried, whose payload is the text of
-- the request with its URL and options.
pub start_analysis-IsStarted :
    (s : AppService) (url : String) (o : AnalysisOptions) (w : World) {a : Analysis} {v : World}
    → start_analysis s url o w ≡ (ok a, v)
    → IsStarted s url o w v a
unfolding start_analysis
start_analysis-IsStarted s url o w {a} {v} h =
    let (b, w₁, ran, rest) =
      proceed_ok (in_tx (create s url o) w) (λ b. attempt (Cache.set s.lib b) >> pure b) h in
    let (u, made, ended) = in_tx_ok (create s url o) w ran in
    let begun : World = record w { calls = suc w.calls } in
    let started : IsStarted s url o begun u b = created_ok s url o begun made in
    let (out, rows) = cache_set_tables s b w₁ in
    let last : (Cache.set s.lib b w₁).1 ≡ v = ground (arith, rest) in
    let same_a : b ≡ a = ground (arith, rest) in
    let same_out : v.outbox ≡ u.outbox =
      sym (ap (λ x. x.outbox) last) ∙ out ∙ ap (λ x. x.outbox) ended in
    let same_rows : v.analyses ≡ u.analyses =
      sym (ap (λ x. x.analyses) last) ∙ rows ∙ ap (λ x. x.analyses) ended in
    subst (IsStarted s url o w v) same_a (record {
      normalized = started.normalized;
      time = started.time;
      event_row = started.event_row;
      is_normalized = started.is_normalized;
      is_analysis = started.is_analysis;
      adds_analysis = same_rows ∙ started.adds_analysis;
      is_new = started.is_new;
      adds_event = same_out ∙ started.adds_event;
      of_analysis = started.of_analysis;
      has_type = started.has_type;
      has_payload = started.has_payload;
      is_pending = started.is_pending;
      is_untried = started.is_untried;
      has_limit = started.has_limit;
    })

-- Where a URL has no analysis yet, but another spelling of it with the same normal form has taken the
-- id of the first version, StartAnalysis does not succeed.
pub start_analysis_refused :
    (s : AppService) (url n : String) (o : AnalysisOptions) (w : World) {a : Analysis} {v : World}
    → s.lib.normalize_url url ≡ some n
    → max_version url w.analyses ≡ 0
    → any (by_id (analysis_id s.lib n 1)) w.analyses ≡ true
    → start_analysis s url o w ≢ (ok a, v)
start_analysis_refused s url n o w {a} {v} normal first taken h =
    let started = start_analysis-IsStarted s url o w h in
    let same : started.normalized ≡ n = ground (arith, started.is_normalized, normal) in
    let free : any (by_id (analysis_id s.lib n (max_version url w.analyses + 1))) w.analyses
        ≡ false =
      subst
        (λ m. any (by_id (analysis_id s.lib m (max_version url w.analyses + 1))) w.analyses ≡ false)
        same started.is_new in
    let free_first : any (by_id (analysis_id s.lib n 1)) w.analyses ≡ false =
      subst (λ k. any (by_id (analysis_id s.lib n (k + 1))) w.analyses ≡ false) first free in
    false≢true (sym free_first ∙ taken)
