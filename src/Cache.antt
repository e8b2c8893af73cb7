-- ===== src/Cache.antt =====
-- internal/adapters/repos/cache_repository.go: analyses as JSON texts under a key.
use svc_web_analyzer.Prelude.{
  String, ◌<>◌, not, Option, none, some, List, [], ◌∷◌, if◌then◌else◌, str_eq, keep,
}
use svc_web_analyzer.Domain.{Analysis, ok, failure, message, wrapped}
use svc_web_analyzer.World.{M, lifted, ◌>>=◌, labelled, external}
use svc_web_analyzer.Libraries.{Libraries}
use svc_web_analyzer.Outbox.{or_error}

abbrev pub key_of : String → String
key_of id = "svc-web-analyzer:analysis:" <> id

abbrev pub lookup : String → List (String × String) → Option String
lookup k [] = none
lookup k ((j, v) ∷ m) = let rest = lookup k m in if str_eq j k then some v else rest

abbrev pub without : String → List (String × String) → List (String × String)
without k = keep (λ entry. not (str_eq entry.0 k))

module _ (lib : Libraries) where
  -- a key that is not there, or has expired, is domain.ErrCacheUnavailable
  stored : String → M String
  stored k w = (
    or_error (lookup k w.cache)
        (wrapped "failed to get analysis from cache" (message "cache service unavailable")),
    w,
  )

  unfoldable pub find : String → M Analysis
  unfolding stored external
  find id = do
    _ ← labelled "failed to get analysis from cache" external
    json ← stored (key_of id)
    lifted (
        or_error (lib.unmarshal_analysis json)
          (wrapped "failed to unmarshal cached analysis result" (failure "invalid JSON")))

  -- expiry is left to the driver's answers to `find`
  unfoldable pub set : Analysis → M (Unit {0})
  unfolding external
  set a = do
    json ← lifted (or_error (lib.marshal_analysis a) (failure "unsupported value"))
    _ ← labelled "failed to save analysis to cache" external
    (λ w. (ok tt, record w { cache = (key_of a.id, json) ∷ without (key_of a.id) w.cache }))

unfoldable pub delete : String → M (Unit {0})
unfolding external
delete id = do _ ← external; (λ w. (ok tt, record w { cache = without (key_of id) w.cache }))
