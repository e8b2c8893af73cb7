-- ===== src/Analyses/Insert.antt =====
-- internal/adapters/repos/analysis_repository.go, SaveInTx: a new analysis and its version. The
-- columns `options` and `updated_at`, which no modelled statement reads, are left out.
use svc_web_analyzer.Prelude.{
  ℕ, suc, ◌+◌, String, ◌<>◌, Bool, ◌&&◌, ◌||◌, none, List, [], ◌∷◌, ◌++◌, leb, ◌==◌, if◌then◌else◌,
  str_eq, any,
}
use svc_web_analyzer.Domain.{
  Analysis, AnalysisOptions, AnalysisStatus, ok, err, failure, wrapped, decimal,
}
use svc_web_analyzer.World.{AnalysisRow, M, lifted, ◌>>=◌, labelled, external}
use svc_web_analyzer.Libraries.{Libraries}
use svc_web_analyzer.Outbox.{or_error}
use svc_web_analyzer.Analyses.{by_id}

-- COALESCE(MAX(version), 0) over the rows with this url
abbrev pub max_version : String → List AnalysisRow → ℕ
max_version url [] = 0
max_version url (r ∷ rs) =
    let rest = max_version url rs in
    if str_eq r.url url then (if leb r.version rest then rest else r.version) else rest

unfoldable pub get_next_version : String → M ℕ
get_next_version url = do
  _ ← labelled "failed to get next version" external
  (λ w. (ok (max_version url w.analyses + 1), w))

-- uuid.NewSHA1(AnalysisNamespace, "<normalized url>::v<version>")
unfoldable pub analysis_id : Libraries → String → ℕ → String
analysis_id lib normalized version =
    lib.new_sha1 "analysis" (normalized <> "::v" <> decimal version)

abbrev pub new_row : String → String → String → ℕ → ℕ → AnalysisRow
new_row id url normalized version now = record {
  id = id;
  url = url;
  url_normalized = normalized;
  status = AnalysisStatus.requested;
  version = version;
  content_hash = none;
  content_size = none;
  created_at = now;
  completed_at = none;
  duration = none;
  results = none;
  error_code = none;
  error_message = none;
  error_status_code = none;
  error_details = none;
  lock_version = 1;
}

abbrev pub new_analysis : String → String → ℕ → Analysis
new_analysis id url now = record {
  id = id;
  url = url;
  status = AnalysisStatus.requested;
  content_hash = "";
  content_size = 0;
  created_at = now;
  completed_at = none;
  duration = none;
  results = none;
  error = none;
  lock_version = 1;
}

-- the primary key, and the constraint that the pair of url and version is unique
abbrev pub conflicts : AnalysisRow → AnalysisRow → Bool
conflicts r q = by_id r.id q || (str_eq q.url r.url && q.version == r.version)

-- INSERT … RETURNING created_at, lock_version
unfoldable pub insert_row : Libraries → AnalysisRow → M (Unit {0})
insert_row lib r w =
    if any (conflicts r) w.analyses
    then (err (failure lib.duplicate_key), w)
    else (ok tt, record w { analyses = w.analyses ++ r ∷ [] })

-- `time.Now()`, which does not fail
unfoldable pub clock : M ℕ
clock w = (ok (w.script w.calls).at, record w { calls = suc w.calls })

-- the statement and what the method returns
unfoldable pub insert_new : Libraries → String → String → ℕ → AnalysisOptions → M Analysis
insert_new lib url normalized version options = do
  now ← clock
  _ ← lifted (
      or_error (lib.marshal_options options)
        (wrapped "failed to marshal options" (failure "unsupported value")))
  _ ← labelled "failed to save analysis in transaction" external
  _ ←
      labelled "failed to save analysis in transaction"
        (insert_row lib (new_row (analysis_id lib normalized version) url normalized version now))
  (λ w. (ok (new_analysis (analysis_id lib normalized version) url now), w))

unfoldable pub save_in_tx : Libraries → String → AnalysisOptions → M Analysis
save_in_tx lib url options = do
  normalized ←
      lifted (
        or_error (lib.normalize_url url)
          (wrapped "failed to normalize URL" (failure "invalid URL")))
  version ← labelled "failed to get next version" (get_next_version url)
  insert_new lib url normalized version options
