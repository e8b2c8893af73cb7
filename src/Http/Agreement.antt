-- ===== src/Http/Agreement.antt =====
-- internal/adapters/http/request_handler.go and internal/adapters/health_checker.go: when the three
-- checks of the service answer 503.
use svc_web_analyzer.Prelude.{
  ◌≡◌, ◌↔◌, refl, ap, ◌∙◌, if◌then◌else◌, ℕ, String, Bool, true, ◌&&◌, not, Option, none, some,
  arith,
}
use svc_web_analyzer.Health.{
  HealthStatus, Waits, calculate_overall_health_status, check_health, check_liveness,
  check_readiness,
}
use svc_web_analyzer.Http.{run, fresh, status}
use svc_web_analyzer.Http.Probes.{
  ProbeCodec, answer, liveness_check, readiness_check, health_check, liveness_code, readiness_code,
  health_code,
}

answer_status :
    (code : ℕ) (json : Option String) (lost : Bool)
    → status (run (answer code json) (fresh lost)) ≡ some code
answer_status code none lost = refl
answer_status code (some json) lost = refl

-- 503 where the storage check was cut off, and 200 otherwise
abbrev pub probe_code : Waits → ℕ
probe_code ws = if ws.storage.cut_off then 503 else 200

liveness_code_lem : (ws : Waits) → liveness_code (check_liveness ws).overall_status ≡ probe_code ws
unfolding check_liveness
liveness_code_lem ws = ground arith

readiness_code_lem :
    (ws : Waits) → readiness_code (check_readiness ws).overall_status ≡ probe_code ws
unfolding check_readiness
readiness_code_lem ws = ground arith

health_code_lem : (ws : Waits) → health_code (check_health ws).overall_status ≡ probe_code ws
unfolding check_health calculate_overall_health_status
health_code_lem ws = ground arith

degraded_lem :
    (ws : Waits)
    → ((check_health ws).overall_status ≡ HealthStatus.degraded)
      ↔ (not ws.storage.cut_off && (ws.cache.cut_off && ws.queue.cut_off) ≡ true)
unfolding check_health calculate_overall_health_status
degraded_lem ws = (λ h. ground (arith, h), λ h. ground (arith, h))

-- Asked with the same checks, the liveness, readiness and health endpoints answer with one status
-- code, whatever the times and the encoder: 503 where the check of the storage was cut off, and 200
-- otherwise, even with cache and queue both down; a health report that is degraded has both down
-- and the storage up.
pub probes_agree :
    (codec : ProbeCodec) (ws : Waits) (t₁ t₂ t₃ : ℕ) (lost : Bool)
    → (status (run (liveness_check codec ws t₁) (fresh lost)) ≡ some (probe_code ws))
      × (status (run (readiness_check codec ws t₂) (fresh lost)) ≡ some (probe_code ws))
      × (status (run (health_check codec ws t₃) (fresh lost)) ≡ some (probe_code ws))
      × (((check_health ws).overall_status ≡ HealthStatus.degraded)
          ↔ (not ws.storage.cut_off && (ws.cache.cut_off && ws.queue.cut_off) ≡ true))
unfolding liveness_check readiness_check health_check
probes_agree codec ws t₁ t₂ t₃ lost = (
  answer_status _ _ lost ∙ ap some (liveness_code_lem ws),
  answer_status _ _ lost ∙ ap some (readiness_code_lem ws),
  answer_status _ _ lost ∙ ap some (health_code_lem ws),
  degraded_lem ws,
)
