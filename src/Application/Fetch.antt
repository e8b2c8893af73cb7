-- ===== src/Application/Fetch.antt =====
-- internal/service/application_service.go, StartAnalysis and FetchAnalysis together: what a client that
-- has started an analysis reads next.
use svc_web_analyzer.Prelude.{◌≡◌, ◌⊎◌, ℕ, ◌≤◌, String, none, some, List, arith}
use svc_web_analyzer.Domain.{Analysis, AnalysisOptions}
use svc_web_analyzer.World.{World, external}
use svc_web_analyzer.Libraries.{Libraries}
use svc_web_analyzer.Outbox
use svc_web_analyzer.Analyses
use svc_web_analyzer.Analyses.Insert.{insert_new, insert_row, clock}
use svc_web_analyzer.Cache
use svc_web_analyzer.Cache.{key_of, lookup}
use svc_web_analyzer.Application.{AppService}

insert_new-cache :
    (lib : Libraries) (url n : String) (k : ℕ) (o : AnalysisOptions) (w : World)
    → (insert_new lib url n k o w).1.cache ≡ w.cache
unfolding insert_new clock external insert_row
insert_new-cache lib url n k o w = ground arith

-- the cache has the analysis's text under its key, or has what it had
abbrev IsCachedFrom : AppService → Analysis → List (String × String) → World → Type 0
IsCachedFrom s a before v =
    ((json : String) × (s.lib.marshal_analysis a ≡ some json)
      × (lookup (key_of a.id) v.cache ≡ some json))
    ⊎ (v.cache ≡ before)

-- what the JSON of an analysis keeps: all but its lock version, whose tag is "-"
abbrev pub unlocked : Analysis → Analysis
unlocked a = record a { lock_version = 0 }

-- no driver fails from now on
abbrev pub IsCalm : World → Type 0
IsCalm v = (n : ℕ) → v.calls ≤ n → (v.script n).fault ≡ none
