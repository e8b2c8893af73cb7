-- ===== src/Domain/Version.antt =====
-- internal/domain/analysis.go: the methods of `Analysis`.
use svc_web_analyzer.Prelude.{ℕ, ◌+◌, String, ◌==◌, if◌then◌else◌}
use svc_web_analyzer.Domain.{Analysis, Result, ok, err, optimistic_lock}

unfoldable pub increment_version : Analysis → Analysis
increment_version a = record a { lock_version = a.lock_version + 1 }

unfoldable pub update_content_hash : Analysis → String → Analysis
update_content_hash a hash = record a { content_hash = hash }

unfoldable pub check_version : Analysis → ℕ → Result (Unit {0})
check_version a expected =
    if a.lock_version == expected then ok tt else err (optimistic_lock expected a.lock_version)
