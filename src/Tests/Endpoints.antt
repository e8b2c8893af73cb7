-- ===== src/Tests/Endpoints.antt =====
-- The HTTP handlers, the layers around them and the generated server.
use svc_web_analyzer.Prelude.{
  ◌≡◌, ◌↔◌, refl, ℕ, true, false, not, ◌&&◌, none, some, [], str_eq, if◌then◌else◌,
}
use svc_web_analyzer.Health.{HealthStatus, Waits, check_health}
use svc_web_analyzer.Http.{finish, write_header, write_only, fresh, run, status}
use svc_web_analyzer.Http.Agreement.{probe_code, probes_agree}
use svc_web_analyzer.Http.Answers.{IsAnswered, analyze_url-IsAnswered, code_of}
use svc_web_analyzer.Http.Handler.{analyze_url}
use svc_web_analyzer.Http.Probes.{ProbeCodec, health_check, liveness_check, readiness_check}
use svc_web_analyzer.Middleware.{
  Handler, HttpRequest, MiddlewareConfig, Packages, access_logger, init_middlewares, layered,
}
use svc_web_analyzer.Middleware.Logged.{
  IsLogged, access_logger_logs, health_checks-IsLogged, with_access_entry,
}
use svc_web_analyzer.Tests.Service.{empty_world}
use svc_web_analyzer.Tests.Streams.{handler}

analyze_url-IsAnswered_example :
    (c : ℕ) × (code_of handler false (analyze_url handler "http://a.test" empty_world).0 ≡ some c)
    × IsAnswered handler false "http://a.test" empty_world
        (analyze_url handler "http://a.test" empty_world).1
        c
analyze_url-IsAnswered_example = analyze_url-IsAnswered handler false "http://a.test" empty_world

abbrev codec : ProbeCodec
codec = record {
  encode_liveness = λ r. some r.version;
  encode_readiness = λ r. some r.version;
  encode_health = λ r. some r.version;
}

-- cache and queue cut off, the storage not
abbrev waits : Waits
waits = record {
  storage = record { cut_off = false; took = 10; at = 20 };
  cache = record { cut_off = true; took = 2; at = 22 };
  queue = record { cut_off = true; took = 0; at = 22 };
  uptime = 5;
}

probes_agree_example :
    (status (run (liveness_check codec waits 1) (fresh false)) ≡ some (probe_code waits))
    × (status (run (readiness_check codec waits 2) (fresh false)) ≡ some (probe_code waits))
    × (status (run (health_check codec waits 3) (fresh false)) ≡ some (probe_code waits))
    × (((check_health waits).overall_status ≡ HealthStatus.degraded)
        ↔ (not waits.storage.cut_off && (waits.cache.cut_off && waits.queue.cut_off) ≡ true))
probes_agree_example = probes_agree codec waits 1 2 3 false

abbrev packages : Packages
packages = record {
  byte_length = λ s. 4;
  has_suffix = λ s e. str_eq s e;
  has_prefix = λ s e. str_eq s e;
  find_route = λ r. none;
  validate_request = λ r. none;
  encode_server_error = λ code details. some details;
  rate_limit = λ next. next;
  request_id = λ next. next;
  real_ip = λ next. next;
  recoverer = λ next. next;
  timeout = λ next. next;
  tracer = λ next. next;
}

abbrev config : MiddlewareConfig
config = record {
  api_version = "v1";
  metrics_enabled = true;
  access_log_enabled = true;
  log_health_checks = false;
  rate_limiting_enabled = false;
  skip_paths = [];
}

abbrev request : HttpRequest
request = record {
  method = "GET";
  path = "/v1/health";
  api_versions = none;
  analysis_id = "a1";
  token = "";
  skip_access_log = false;
}

-- a status and a body
abbrev healthy : Handler
healthy r = write_header 503 (write_only "down" finish)

access_logger_logs_example : run (access_logger packages healthy request) (fresh false) ≡ (
    if request.skip_access_log
    then run (healthy request) (fresh false)
    else with_access_entry packages (run (healthy request) (fresh false)))
access_logger_logs_example = access_logger_logs packages healthy request false (refl, λ taken. tt)

health_checks-IsLogged_example :
    IsLogged (run (layered (init_middlewares packages config) healthy request) (fresh false))
health_checks-IsLogged_example =
    health_checks-IsLogged packages config healthy request (fresh false) refl refl refl
