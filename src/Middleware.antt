-- ===== src/Middleware.antt =====
-- internal/adapters/middleware, without authentication, and how internal/runtime/deps.go and the
-- generated server put the layers around a handler. A layer turns a handler into another one; chi's
-- own layers, the tracer, the rate limiter and the OpenAPI validator are parameters. Contexts hold
-- the one flag that the layers read.

pub mod Counts
pub mod Logged
use svc_web_analyzer.Prelude.{
  ℕ, ◌+◌, String, Bool, true, false, Option, none, some, List, [], ◌∷◌, ◌++◌, any, leb, str_eq,
  if◌then◌else◌,
}
use svc_web_analyzer.Http.{
  Entry, Level, access, metric, error, info, warn, Reply, finish, set_header, write_header, write,
  flush, record_entry, encode,
}

pub record HttpRequest : Type 0 where
  pub method : String
  pub path : String
  -- the values of the header API-Version, the path's analysis id and the query's token, "" for none
  pub api_versions : Option (List String)
  pub analysis_id : String
  pub token : String
  -- the value of skip_access_log in the request's context
  pub skip_access_log : Bool

abbrev pub Handler : Type 0
Handler = HttpRequest → Reply

abbrev pub Middleware : Type 0
Middleware = Handler → Handler

-- FlushableResponseWriter, the fields of its own
pub record Tally : Type 0 where
  pub status_code : ℕ
  pub bytes_written : ℕ

abbrev pub new_tally : Tally
new_tally = record { status_code = 200; bytes_written = 0 }

-- net/http's Error
abbrev pub http_error : String → ℕ → Reply
http_error text code = set_header "Content-Type" "text/plain; charset=utf-8" (
    set_header "X-Content-Type-Options" "nosniff"
      (write_header code (write text (λ taken. finish))))

-- what openapi3filter reports; a request error has the lines of its text
pub data ValidationError : Type 0 where
  request_error : List String → ValidationError
  security_error : String → ValidationError
  unexpected : String → ValidationError

-- package strings, openapi3filter, throttled, chi and the tracer
pub record Packages : Type 0 where
  pub byte_length : String → ℕ
  pub has_suffix : String → String → Bool
  pub has_prefix : String → String → Bool
  pub find_route : HttpRequest → Option String
  pub validate_request : HttpRequest → Option ValidationError
  pub encode_server_error : ℕ → String → Option String
  pub rate_limit : Middleware
  pub request_id : Middleware
  pub real_ip : Middleware
  pub recoverer : Middleware
  pub timeout : Middleware
  pub tracer : Middleware

pub record MiddlewareConfig : Type 0 where
  pub api_version : String
  pub metrics_enabled : Bool
  pub access_log_enabled : Bool
  pub log_health_checks : Bool
  pub rate_limiting_enabled : Bool
  pub skip_paths : List String

abbrev health_endpoints : List String
health_endpoints =
    "/v1/health" ∷ "/v1/ready" ∷ "/v1/live" ∷ "/v1/readiness" ∷ "/health" ∷ "/ready" ∷ "/live"
    ∷ "/healthz" ∷ "/readyz" ∷ "/livez" ∷ []

abbrev add_cors_headers : Reply → Reply
add_cors_headers next = set_header "Access-Control-Allow-Origin" "*" (
    set_header "Access-Control-Allow-Methods" "GET, POST, OPTIONS" (
      set_header "Access-Control-Allow-Headers"
        "Content-Type, Authorization, X-PASETO-Token, API-Version" next))

abbrev add_security_headers : Reply → Reply
add_security_headers next = set_header "X-Content-Type-Options" "nosniff" (
    set_header "X-Frame-Options" "DENY" (
      set_header "X-XSS-Protection" "1; mode=block" (
        set_header "Strict-Transport-Security" "max-age=31536000; includeSubDomains" (
          set_header "Content-Security-Policy" "default-src 'self'; connect-src 'self'" (
            set_header "Referrer-Policy" "strict-origin-when-cross-origin"
              (set_header "Permissions-Policy" "camera=(), microphone=(), geolocation=()" next))))))

abbrev is_options : HttpRequest → Bool
is_options r = str_eq r.method "OPTIONS"

unfoldable pub security_headers : Middleware
security_headers next r =
    add_cors_headers
      (add_security_headers (if is_options r then write_header 200 finish else next r))

unfoldable pub api_version : String → Middleware
api_version version next r = set_header "API-Version" version (next r)

-- the level of an access log's entry
abbrev pub level_of : ℕ → Level
level_of code = if leb 500 code then error else if leb 400 code then warn else info

abbrev pub access_entry : Tally → Entry
access_entry t = access (level_of t.status_code) t.status_code t.bytes_written

module _ (p : Packages) where
  -- FlushableResponseWriter around the writer of a handler, and what its owner does afterwards
  unfoldable pub wrapped : Tally → Reply → (Tally → Reply) → Reply
  wrapped t finish after = after t
  wrapped t (set_header k v next) after = set_header k v (wrapped t next after)
  wrapped t (write_header code next) after =
      write_header code (wrapped (record t { status_code = code }) next after)
  wrapped t (write s next) after = write s (λ taken.
      wrapped
        (record t {
          bytes_written = t.bytes_written + elim taken [ true ↦ p.byte_length s | false ↦ 0 ];
        })
        (next taken) after)
  wrapped t (flush next) after = flush (wrapped t next after)
  wrapped t (record_entry e next) after = record_entry e (wrapped t next after)

  unfoldable pub health_check_filter : Bool → Middleware
  health_check_filter log_health_checks next r =
      if log_health_checks
      then next r
      else if any (p.has_suffix r.path) health_endpoints
      then next (record r { skip_access_log = true })
      else next r

  unfoldable pub access_logger : Middleware
  access_logger next r =
      if r.skip_access_log
      then next r
      else wrapped new_tally (next r) (λ t. record_entry (access_entry t) finish)

  pub metrics_middleware : Middleware
  metrics_middleware next r =
      wrapped new_tally (next r) (λ t. record_entry (metric t.status_code t.bytes_written) finish)

  abbrev should_skip_rate_limit : List String → String → Bool
  should_skip_rate_limit skip_paths path = any (p.has_prefix path) skip_paths

  pub rate_limiting : List String → Middleware
  rate_limiting skip_paths next r =
      if should_skip_rate_limit skip_paths r.path then next r else p.rate_limit next r

  abbrev first_line : List String → String
  first_line [] = ""
  first_line (line ∷ lines) = line

  abbrev validation_code : ValidationError → ℕ × String
  validation_code (request_error lines) = (400, first_line lines)
  validation_code (security_error text) = (401, text)
  validation_code (unexpected text) = (500, text)

  abbrev validation_result : Option String → Option ValidationError → Option (ℕ × String)
  validation_result (some no_route) e = some (400, no_route)
  validation_result none (some e) = some (validation_code e)
  validation_result none none = none

  -- RequestValidationErrHandler: the status goes out first, with no content type
  abbrev request_validation_err_handler : String → ℕ → Reply
  request_validation_err_handler details code = write_header code (
      write (elim (p.encode_server_error code details) [ none ↦ "" | some json ↦ json ])
        (λ taken. if taken then finish else write_header 500 finish))

  abbrev unless_invalid : Reply → Option (ℕ × String) → Reply
  unless_invalid served none = served
  unless_invalid served (some (code, details)) = request_validation_err_handler details code

  -- the validator as it is set up, with its error handler; authentication is a part of the validation
  unfoldable pub request_validator : Middleware
  request_validator next r =
      if is_options r
      then next r
      else (unless_invalid (next r) (validation_result (p.find_route r) (p.validate_request r)))

  abbrev pub metrics_layer : MiddlewareConfig → List Middleware
  metrics_layer c = if c.metrics_enabled then metrics_middleware ∷ [] else []

  abbrev pub access_log_layers : MiddlewareConfig → List Middleware
  access_log_layers c =
      if c.access_log_enabled
      then health_check_filter c.log_health_checks ∷ access_logger ∷ []
      else []

  abbrev pub rate_limit_layer : MiddlewareConfig → List Middleware
  rate_limit_layer c = if c.rate_limiting_enabled then rate_limiting c.skip_paths ∷ [] else []

  unfoldable pub init_middlewares : MiddlewareConfig → List Middleware
  init_middlewares c =
      (p.request_id
        ∷ p.real_ip
        ∷ p.recoverer
        ∷ p.timeout
        ∷ api_version c.api_version
        ∷ request_validator
        ∷ security_headers
        ∷ p.tracer
        ∷ metrics_layer c)
      ++ (access_log_layers c ++ rate_limit_layer c)

-- the loop of the generated server: each middleware goes around those before it
unfoldable pub layered : List Middleware → Handler → Handler
layered [] handler = handler
layered (m ∷ ms) handler = layered ms (m handler)
