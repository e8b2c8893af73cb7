-- ===== src/Analyses/Others.antt =====
-- internal/adapters/repos/analysis_repository.go: the methods that no service calls, Save, Delete and
-- CopyResults.
use svc_web_analyzer.Prelude.{
  ◌≡◌, refl, ap, ◌∙◌, ℕ, ◌+◌, suc, ◌==◌, String, ◌<>◌, Bool, not, Option, none, some, List, [], ◌∷◌,
  first, keep, arith, if◌then◌else◌,
}
use svc_web_analyzer.Domain.{
  Analysis, AnalysisStatus, Result, ok, err, failure, message, no_rows, wrapped,
}
use svc_web_analyzer.World.{AnalysisRow, World, M, lifted, pure, ◌>>=◌, labelled, external, in_tx}
use svc_web_analyzer.Libraries.{Libraries}
use svc_web_analyzer.Outbox.{or_error}
use svc_web_analyzer.Outbox.Atomic.{in_tx_ok}
use svc_web_analyzer.Outbox.Rows.{count_rows}
use svc_web_analyzer.Analyses.{by_id, update_by_criteria}
use svc_web_analyzer.Analyses.Insert.{
  analysis_id, clock, get_next_version, insert_row, new_analysis, new_row,
}

-- Save: the statements of SaveInTx outside a transaction, and without the options
unfoldable save : Libraries → String → M Analysis
save lib url = do
  normalized ←
      lifted (
        or_error (lib.normalize_url url)
          (wrapped "failed to normalize URL" (failure "invalid URL")))
  version ← labelled "failed to get next version" (get_next_version url)
  now ← clock
  _ ← labelled "failed to save analysis" external
  _ ←
      labelled "failed to save analysis"
        (insert_row lib (new_row (analysis_id lib normalized version) url normalized version now))
  pure (new_analysis (analysis_id lib normalized version) url now)

-- DELETE … WHERE id = …, which has to affect a row
abbrev remove_rows : String → M (Unit {0})
remove_rows id w =
    if count_rows (by_id id) w.analyses == 0
    then (err (message ("analysis with ID " <> id <> " not found")), w)
    else (ok tt, record w { analyses = keep (λ r. not (by_id id r)) w.analyses })

abbrev delete_statement : String → M (Unit {0})
delete_statement id = labelled "failed to delete analysis" external >>= λ _. remove_rows id

unfoldable delete : String → M (Unit {0})
delete id = in_tx (delete_statement id)

-- SELECT content_size … into an int64, which a NULL does not fit
abbrev size_of : Option AnalysisRow → Result ℕ
size_of none = err no_rows
size_of (some r) = elim r.content_size [
  | none ↦ err (failure "converting NULL to int64 is unsupported")
  | some size ↦ ok size
]

-- (SELECT results FROM analysis WHERE id = …), NULL where there is no row
abbrev results_of : Option AnalysisRow → Option String
results_of none = none
results_of (some r) = r.results

abbrev set_copied : String → ℕ → Option String → ℕ → AnalysisRow → AnalysisRow
set_copied hash size results now r = record r {
  content_hash = some hash;
  content_size = some size;
  status = AnalysisStatus.completed;
  results = results;
  completed_at = some now;
  lock_version = r.lock_version + 1;
}

unfoldable copy_results : String → String → String → M (Unit {0})
copy_results id source hash = do
  size ←
      labelled "failed to get content size from source analysis"
        (external >>= λ _. λ w. (size_of (first (by_id source) w.analyses), w))
  (λ w.
      update_by_criteria "failed to copy analysis results" id
        (set_copied hash size (results_of (first (by_id source) w.analyses))) w)

first-keep-not :
    (p : AnalysisRow → Bool) (rs : List AnalysisRow) → first p (keep (λ r. not (p r)) rs) ≡ none
first-keep-not p [] = refl
first-keep-not p (r ∷ rs) = ground (arith, first-keep-not p rs)

delete_statement_ok :
    (id : String) (w : World) {v : World}
    → delete_statement id w ≡ (ok tt, v)
    → (v.analyses ≡ keep (λ r. not (by_id id r)) w.analyses) × (v.outbox ≡ w.outbox)
unfolding external
delete_statement_ok id w {v} h = (ground (arith, h), ground (arith, h))

-- A deletion that succeeds leaves no row of its id, the other rows in their order, and the outbox as
-- it was.
delete-first :
    (id : String) (w : World) {v : World}
    → delete id w ≡ (ok tt, v)
    → (first (by_id id) v.analyses ≡ none)
      × (v.analyses ≡ keep (λ r. not (by_id id r)) w.analyses)
      × (v.outbox ≡ w.outbox)
unfolding delete
delete-first id w h =
    let begun : World = record w { calls = suc w.calls } in
    let (u, ran, last) = in_tx_ok (delete_statement id) w h in
    let (rows, out) = delete_statement_ok id begun ran in
    let kept = ap (λ x. x.analyses) last ∙ rows in
    (
      ap (first (by_id id)) kept ∙ first-keep-not (by_id id) w.analyses,
      kept,
      ap (λ x. x.outbox) last ∙ out,
    )
