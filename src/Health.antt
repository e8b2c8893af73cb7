-- ===== src/Health.antt =====
-- internal/adapters/health_checker.go and the types of internal/domain/types.go that it fills. Each
-- check waits a few milliseconds or until the request's context is done; a float32 of milliseconds
-- is a number here.
use svc_web_analyzer.Prelude.{ℕ, ◌+◌, Bool, true, false, String, leb, if◌then◌else◌}

pub data DependencyCheckStatus : Type 0 where
  healthy degraded unhealthy : DependencyCheckStatus

pub data LivenessStatus : Type 0 where
  alive degraded dead : LivenessStatus

pub data ReadinessStatus : Type 0 where
  ready degraded not_ready : ReadinessStatus

pub data HealthStatus : Type 0 where
  healthy degraded unhealthy : HealthStatus

pub record DependencyStatus : Type 0 where
  pub status : DependencyCheckStatus
  pub response_time : ℕ
  pub last_checked : ℕ
  pub error : String

pub record LivenessResult : Type 0 where
  pub overall_status : LivenessStatus
  pub storage : DependencyStatus
  pub cache : DependencyStatus
  pub queue : DependencyStatus

pub record ReadinessResult : Type 0 where
  pub overall_status : ReadinessStatus
  pub storage : DependencyStatus
  pub cache : DependencyStatus
  pub queue : DependencyStatus

pub record HealthResult : Type 0 where
  pub overall_status : HealthStatus
  pub storage : DependencyStatus
  pub cache : DependencyStatus
  pub queue : DependencyStatus
  pub uptime : ℕ

-- one select of a check: the context was done before the wait was over, how long it took, and when
-- it ended
pub record Wait : Type 0 where
  pub cut_off : Bool
  pub took : ℕ
  pub at : ℕ

-- the three selects of one request, and the time since the checker was made
pub record Waits : Type 0 where
  pub storage : Wait
  pub cache : Wait
  pub queue : Wait
  pub uptime : ℕ

-- the three checks have one body
abbrev dependency : Wait → DependencyStatus
dependency w =
    if w.cut_off
    then (record {
      status = DependencyCheckStatus.unhealthy;
      response_time = w.took;
      last_checked = w.at;
      error = "Health check timeout";
    })
    else (record {
      status = DependencyCheckStatus.healthy;
      response_time = w.took;
      last_checked = w.at;
      error = "";
    })

abbrev check_storage_health : Waits → DependencyStatus
check_storage_health ws = dependency ws.storage

abbrev check_cache_health : Waits → DependencyStatus
check_cache_health ws = dependency ws.cache

abbrev check_queue_health : Waits → DependencyStatus
check_queue_health ws = dependency ws.queue

abbrev is_unhealthy : DependencyStatus → Bool
is_unhealthy d = elim d.status [
  | DependencyCheckStatus.unhealthy ↦ true
  | DependencyCheckStatus.healthy ↦ false
  | DependencyCheckStatus.degraded ↦ false
]

unfoldable pub check_readiness : Waits → ReadinessResult
check_readiness ws = record {
  overall_status =
      if is_unhealthy (check_storage_health ws)
      then ReadinessStatus.not_ready
      else ReadinessStatus.ready;
  storage = check_storage_health ws;
  cache = check_cache_health ws;
  queue = check_queue_health ws;
}

unfoldable pub check_liveness : Waits → LivenessResult
check_liveness ws = record {
  overall_status =
      if is_unhealthy (check_storage_health ws) then LivenessStatus.dead else LivenessStatus.alive;
  storage = check_storage_health ws;
  cache = check_cache_health ws;
  queue = check_queue_health ws;
}

abbrev pub counted : Bool → ℕ
counted true = 1
counted false = 0

unfoldable pub calculate_overall_health_status :
    DependencyStatus → DependencyStatus → DependencyStatus → HealthStatus
calculate_overall_health_status storage cache queue =
    if is_unhealthy storage
    then HealthStatus.unhealthy
    else if leb 2 (counted (is_unhealthy cache) + counted (is_unhealthy queue))
    then HealthStatus.degraded
    else HealthStatus.healthy

unfoldable pub check_health : Waits → HealthResult
check_health ws = record {
  overall_status =
      calculate_overall_health_status (check_storage_health ws) (check_cache_health ws)
        (check_queue_health ws);
  storage = check_storage_health ws;
  cache = check_cache_health ws;
  queue = check_queue_health ws;
  uptime = ws.uptime;
}
