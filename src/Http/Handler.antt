-- ===== src/Http/Handler.antt =====
-- internal/adapters/http/request_handler.go: starting an analysis and reading one. The command and
-- query handlers behind it, with their decorators, only pass the calls on to the application service.
-- The times in error bodies are left out.
use svc_web_analyzer.Prelude.{
  ℕ, ◌*◌, ◌%◌, String, Bool, true, false, Option, none, some, if◌then◌else◌, str_eq,
}
use svc_web_analyzer.Domain.{Analysis, AnalysisOptions, error_text, Result, ok, err}
use svc_web_analyzer.World.{World}
use svc_web_analyzer.Application.{AppService, fetch_analysis, start_analysis}
use svc_web_analyzer.Http.{Reply, finish, set_header, write_header, encode}

-- the options of a request, each of which may be absent; a timeout is an int64, by its word
pub record RequestOptions : Type 0 where
  pub check_links : Option Bool
  pub detect_forms : Option Bool
  pub include_headings : Option Bool
  pub timeout : Option ℕ

pub record AnalyzeUrlBody : Type 0 where
  pub url : String
  pub options : Option RequestOptions

-- handlers.ErrorResponse
pub record ErrorResponse : Type 0 where
  pub error : String
  pub message : String
  pub details : String
  pub status_code : ℕ

-- the service, and what encoding/json does with the bodies
pub record RequestHandler : Type 0 where
  pub app : AppService
  pub decode_body : String → Result AnalyzeUrlBody
  pub encode_analysis : Analysis → Option String
  pub encode_error : ErrorResponse → Option String
  -- the text of the error where an analysis could not be encoded or written
  pub encode_fault : Analysis → String

abbrev pub second : ℕ
second = 1000000000

abbrev default_options : AnalysisOptions
default_options = record {
  include_headings = true;
  check_links = true;
  detect_forms = true;
  timeout = 30 * second;
}

abbrev pub or_default {ℓ} : {A : Type ℓ} → Option A → A → A
or_default none d = d
or_default (some a) d = a

-- time.Duration(n) * time.Second, which wraps around at 64 bits
abbrev pub seconds : ℕ → ℕ
seconds n = n * second % 18446744073709551616

abbrev timeout_of : Option ℕ → ℕ
timeout_of none = default_options.timeout
timeout_of (some n) = seconds n

unfoldable pub map_request_options_to_domain_options : Option RequestOptions → AnalysisOptions
map_request_options_to_domain_options none = default_options
map_request_options_to_domain_options (some o) = record {
  include_headings = or_default o.include_headings default_options.include_headings;
  check_links = or_default o.check_links default_options.check_links;
  detect_forms = or_default o.detect_forms default_options.detect_forms;
  timeout = timeout_of o.timeout;
}

module _ (h : RequestHandler) where
  abbrev pub write_error_response : ℕ → String → String → String → Reply
  write_error_response status_code error_type message details =
      set_header "Content-Type" "application/json" (
        write_header status_code (
          encode
            (h.encode_error (record {
              error = error_type;
              message = message;
              details = details;
              status_code = status_code;
            }))
            (λ written. finish)))

  abbrev pub after_encode : String → Bool → Reply
  after_encode why true = finish
  after_encode why false =
      write_error_response 500 "internal_server_error" "failed to encode result" why

  -- the reply to a request, and the world after it
  abbrev pub analyze_started : Result Analysis × World → Reply × World
  analyze_started (ok a, w) = (
    set_header "Content-Type" "application/json"
        (write_header 202 (encode (h.encode_analysis a) (after_encode (h.encode_fault a)))),
    w,
  )
  analyze_started (err e, w) = (
    write_error_response 500 "internal_server_error" "failed to start analysis" (error_text e),
    w,
  )

  abbrev pub analyze_body : Result AnalyzeUrlBody → World → Reply × World
  analyze_body (err e) w =
      (write_error_response 400 "bad_request" "invalid request body" (error_text e), w)
  analyze_body (ok body) w =
      if str_eq body.url ""
      then (write_error_response 400 "bad_request" "URL is required" "url field cannot be empty", w)
      else (analyze_started
          (start_analysis h.app body.url (map_request_options_to_domain_options body.options) w))

  unfoldable pub analyze_url : String → World → Reply × World
  analyze_url text w = analyze_body (h.decode_body text) w

  -- a service that answers without an error has answered with an analysis, so that the branch for
  -- none is not taken
  abbrev pub analysis_found : Result Analysis × World → Reply × World
  analysis_found (ok a, w) = (
    set_header "Content-Type" "application/json"
        (write_header 200 (encode (h.encode_analysis a) (λ written. finish))),
    w,
  )
  analysis_found (err e, w) =
      (write_error_response 404 "not_found" "analysis not found" (error_text e), w)

  unfoldable pub get_analysis : String → World → Reply × World
  get_analysis id w = analysis_found (fetch_analysis h.app id w)
