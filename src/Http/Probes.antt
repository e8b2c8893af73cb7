-- ===== src/Http/Probes.antt =====
-- internal/adapters/http/request_handler.go, LivenessCheck, ReadinessCheck and HealthCheck, with
-- internal/adapters/http/mappers: the service's reports answer without an error.
use svc_web_analyzer.Prelude.{ℕ, String, Option, none, some, str_eq, if◌then◌else◌}
use svc_web_analyzer.Health.{
  DependencyCheckStatus, DependencyStatus, HealthResult, HealthStatus, LivenessResult,
  LivenessStatus, ReadinessResult, ReadinessStatus, Waits, check_health, check_liveness,
  check_readiness,
}
use svc_web_analyzer.Http.{Reply, finish, set_header, write_header, encode}

-- the generated types of the responses
pub data ResponseStatus : Type 0 where
  ok_status degraded_status down_status : ResponseStatus

pub data CheckStatus : Type 0 where
  healthy degraded unhealthy : CheckStatus

pub record LivenessResponse : Type 0 where
  pub status : ResponseStatus
  pub timestamp : ℕ
  pub version : String

pub record ReadinessResponse : Type 0 where
  pub status : ResponseStatus
  pub timestamp : ℕ
  pub version : String
  pub storage : CheckStatus
  pub cache : CheckStatus
  pub queue : CheckStatus

pub record HealthCheckEntry : Type 0 where
  pub status : CheckStatus
  pub response_time : ℕ
  pub last_checked : ℕ
  pub error : Option String

pub record HealthResponse : Type 0 where
  pub status : ResponseStatus
  pub timestamp : ℕ
  pub version : String
  pub uptime : ℕ
  pub storage : HealthCheckEntry
  pub cache : HealthCheckEntry
  pub queue : HealthCheckEntry

abbrev domain_dependency_status_to_handler : DependencyCheckStatus → CheckStatus
domain_dependency_status_to_handler DependencyCheckStatus.healthy = CheckStatus.healthy
domain_dependency_status_to_handler DependencyCheckStatus.degraded = CheckStatus.degraded
domain_dependency_status_to_handler DependencyCheckStatus.unhealthy = CheckStatus.unhealthy

abbrev domain_liveness_status_to_handler : LivenessStatus → ResponseStatus
domain_liveness_status_to_handler LivenessStatus.alive = ok_status
domain_liveness_status_to_handler LivenessStatus.degraded = degraded_status
domain_liveness_status_to_handler LivenessStatus.dead = down_status

abbrev domain_readiness_status_to_handler : ReadinessStatus → ResponseStatus
domain_readiness_status_to_handler ReadinessStatus.ready = ok_status
domain_readiness_status_to_handler ReadinessStatus.degraded = degraded_status
domain_readiness_status_to_handler ReadinessStatus.not_ready = down_status

abbrev domain_health_status_to_handler : HealthStatus → ResponseStatus
domain_health_status_to_handler HealthStatus.healthy = ok_status
domain_health_status_to_handler HealthStatus.degraded = degraded_status
domain_health_status_to_handler HealthStatus.unhealthy = down_status

-- what encoding/json does with the three bodies
pub record ProbeCodec : Type 0 where
  pub encode_liveness : LivenessResponse → Option String
  pub encode_readiness : ReadinessResponse → Option String
  pub encode_health : HealthResponse → Option String

-- the header, the status and the body that the three checks end with
abbrev pub answer : ℕ → Option String → Reply
answer status_code json =
    set_header "Content-Type" "application/json"
      (write_header status_code (encode json (λ written. finish)))

abbrev pub liveness_code : LivenessStatus → ℕ
liveness_code LivenessStatus.dead = 503
liveness_code _ = 200

abbrev pub readiness_code : ReadinessStatus → ℕ
readiness_code ReadinessStatus.not_ready = 503
readiness_code _ = 200

abbrev pub health_code : HealthStatus → ℕ
health_code HealthStatus.unhealthy = 503
health_code _ = 200

abbrev health_entry : DependencyStatus → HealthCheckEntry
health_entry d = record {
  status = domain_dependency_status_to_handler d.status;
  response_time = d.response_time;
  last_checked = d.last_checked;
  error = if str_eq d.error "" then none else some d.error;
}

abbrev liveness_body : LivenessResult → ℕ → LivenessResponse
liveness_body r now = record {
  status = domain_liveness_status_to_handler r.overall_status;
  timestamp = now;
  version = "1.0.0";
}

abbrev readiness_body : ReadinessResult → ℕ → ReadinessResponse
readiness_body r now = record {
  status = domain_readiness_status_to_handler r.overall_status;
  timestamp = now;
  version = "1.0.0";
  storage = domain_dependency_status_to_handler r.storage.status;
  cache = domain_dependency_status_to_handler r.cache.status;
  queue = domain_dependency_status_to_handler r.queue.status;
}

abbrev health_body : HealthResult → ℕ → HealthResponse
health_body r now = record {
  status = domain_health_status_to_handler r.overall_status;
  timestamp = now;
  version = "1.0.0";
  uptime = r.uptime;
  storage = health_entry r.storage;
  cache = health_entry r.cache;
  queue = health_entry r.queue;
}

module _ (codec : ProbeCodec) where
  unfoldable pub liveness_check : Waits → ℕ → Reply
  liveness_check ws now =
      let r = check_liveness ws in
      answer (liveness_code r.overall_status) (codec.encode_liveness (liveness_body r now))

  unfoldable pub readiness_check : Waits → ℕ → Reply
  readiness_check ws now =
      let r = check_readiness ws in
      answer (readiness_code r.overall_status) (codec.encode_readiness (readiness_body r now))

  unfoldable pub health_check : Waits → ℕ → Reply
  health_check ws now =
      let r = check_health ws in
      answer (health_code r.overall_status) (codec.encode_health (health_body r now))
