-- ===== src/Analyses.antt =====
-- internal/adapters/repos/analysis_repository.go: the `analysis` table and its statements. Unlike the
-- outbox's, these updates run outside a transaction and do not look at the rows affected.
pub mod Insert
pub mod Others
use mathlib.Core.Option
use svc_web_analyzer.Prelude.{
  ℕ, zero, suc, ◌+◌, ◌*◌, String, ◌<>◌, Bool, true, false, ◌&&◌, Option, none, some, List, [], ◌∷◌,
  ◌++◌, leb, ltb, if◌then◌else◌, str_eq, any, keep, first, sort_by, is_some,
}
use svc_web_analyzer.Domain.{
  Analysis, AnalysisData, AnalysisError, AnalysisOptions, AnalysisStatus, Error, Result, ok, err,
  no_rows, failure, message, wrapped, decimal, error_text,
}
use svc_web_analyzer.World.{
  AnalysisRow, World, M, pure, fail, lifted, ◌>>=◌, ◌>>◌, labelled, external, in_tx,
}
use svc_web_analyzer.Libraries.{Libraries}
use svc_web_analyzer.Outbox.{or_error}
use svc_web_analyzer.Outbox.Rows.{update_rows}

abbrev pub by_id : String → AnalysisRow → Bool
by_id id r = str_eq r.id id

abbrev pub is_completed : AnalysisStatus → Bool
is_completed AnalysisStatus.completed = true
is_completed _ = false

-- content_hash = $1 AND status = 'completed' AND results IS NOT NULL
abbrev has_hash : String → Option String → Bool
has_hash hash none = false
has_hash hash (some h) = str_eq h hash

abbrev pub is_duplicate : String → AnalysisRow → Bool
is_duplicate hash r = has_hash hash r.content_hash && is_completed r.status && is_some r.results

-- in a descending order PostgreSQL puts a NULL first
abbrev later : Option ℕ → Option ℕ → Bool
later none t = true
later (some s) none = false
later (some s) (some t) = leb t s

-- ORDER BY completed_at DESC
abbrev pub latest : AnalysisRow → AnalysisRow → Bool
latest a b = later a.completed_at b.completed_at

abbrev or_default {ℓ} : {A : Type ℓ} → A → Option A → A
or_default d none = d
or_default d (some a) = a

-- sql.NullString and its kin: the columns of an error make one only where the code is set
row_error : AnalysisRow → Option AnalysisError
row_error r = elim r.error_code [
  | none ↦ none
  | some code ↦ some (record {
    code = code;
    message = or_default "" r.error_message;
    status_code = or_default 0 r.error_status_code;
    details = or_default "" r.error_details;
  })
]

module _ (lib : Libraries) where
  row_results : Option String → Result (Option AnalysisData)
  row_results none = ok none
  row_results (some json) = elim (lib.unmarshal_results json) [
    | none ↦ err (wrapped "failed to unmarshal results JSON" (failure "invalid JSON"))
    | some results ↦ ok (some results)
  ]

  converted : AnalysisRow → Result String → Result (Option AnalysisData) → Result Analysis
  unfolding row_error
  converted r (err e) results = err e
  converted r (ok id) (err e) = err e
  converted r (ok id) (ok results) = ok (record {
    id = id;
    url = r.url;
    status = r.status;
    content_hash = or_default "" r.content_hash;
    content_size = or_default 0 r.content_size;
    created_at = r.created_at;
    completed_at = r.completed_at;
    -- milliseconds in the column, nanoseconds in a time.Duration
    duration = Option.map (λ ms. ms * 1000000) r.duration;
    results = results;
    error = row_error r;
    lock_version = r.lock_version;
  })

  unfoldable pub convert_row : AnalysisRow → Result Analysis
  unfolding row_results converted
  convert_row r =
      converted r
        (or_error (lib.parse_uuid r.id) (wrapped "failed to parse id" (failure "invalid UUID")))
        (row_results r.results)

  abbrev first_analysis : String → List AnalysisRow → Result Analysis
  first_analysis context [] = err (message context)
  first_analysis context (r ∷ _) = convert_row r

  -- SELECT … WHERE … [ORDER BY … LIMIT 1]
  unfoldable pub find_by_criteria :
      (AnalysisRow → Bool) → (List AnalysisRow → List AnalysisRow) → String → M Analysis
  unfolding external
  find_by_criteria criteria order context = do
    _ ← labelled "failed to query analysis" external
    (λ w. (first_analysis context (order (keep criteria w.analyses)), w))

  unfoldable pub find : String → M Analysis
  unfolding find_by_criteria
  find id = find_by_criteria (by_id id) (λ rs. rs) ("analysis with ID " <> id <> " not found")

  -- an error is taken for "no rows" by its text
  unfoldable pub as_no_rows : Result Analysis × World → Result Analysis × World
  as_no_rows (ok a, w) = (ok a, w)
  as_no_rows (err e, w) =
      (if str_eq (error_text e) (error_text no_rows) then err no_rows else err e, w)

  unfoldable pub find_by_content_hash : String → M Analysis
  find_by_content_hash hash w =
      as_no_rows (find_by_criteria (is_duplicate hash) (sort_by latest) (error_text no_rows) w)

-- conn.ExecContext of an `UPDATE … WHERE id = …`; no row is no error
unfoldable pub update_by_criteria : String → String → (ℕ → AnalysisRow → AnalysisRow) → M (Unit {0})
update_by_criteria label id change = do
  now ← labelled label external
  (λ w. (ok tt, record w { analyses = update_rows (by_id id) (change now) w.analyses }))

abbrev pub set_results : String → ℕ → String → ℕ → AnalysisRow → AnalysisRow
set_results hash size results now r = record r {
  content_hash = some hash;
  content_size = some size;
  status = AnalysisStatus.completed;
  results = some results;
  completed_at = some now;
  lock_version = r.lock_version + 1;
}

abbrev pub set_status : AnalysisStatus → ℕ → AnalysisRow → AnalysisRow
set_status status now r = record r { status = status; lock_version = r.lock_version + 1 }

abbrev pub set_duration : ℕ → ℕ → AnalysisRow → AnalysisRow
set_duration ms now r = record r {
  duration = some ms;
  completed_at = some now;
  lock_version = r.lock_version + 1;
}

abbrev pub set_failed : String → String → ℕ → ℕ → AnalysisRow → AnalysisRow
set_failed code text status_code now r = record r {
  status = AnalysisStatus.failed;
  error_code = some code;
  error_message = some text;
  error_status_code = some status_code;
  completed_at = some now;
  lock_version = r.lock_version + 1;
}

-- json.Marshal of a pointer: nil prints as null
unfoldable pub marshal_results : Libraries → Option AnalysisData → Result String
marshal_results lib none = ok "null"
marshal_results lib (some results) =
    or_error (lib.marshal_results results)
      (wrapped "failed to marshal results" (failure "unsupported value"))

unfoldable pub update : Libraries → String → String → ℕ → Option AnalysisData → M (Unit {0})
unfolding marshal_results
update lib id hash size results = do
  json ← lifted (marshal_results lib results)
  update_by_criteria "failed to update analysis results" id (set_results hash size json)

unfoldable pub update_status : String → AnalysisStatus → M (Unit {0})
update_status id status =
    update_by_criteria "failed to update analysis status" id (set_status status)

unfoldable pub update_completion_duration : String → ℕ → M (Unit {0})
update_completion_duration id ms =
    update_by_criteria "failed to update analysis duration and completion" id (set_duration ms)

unfoldable pub mark_failed : String → String → String → ℕ → M (Unit {0})
mark_failed id code text status_code =
    update_by_criteria "failed to mark analysis as failed" id (set_failed code text status_code)
