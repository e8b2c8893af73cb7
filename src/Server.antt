-- ===== src/Server.antt =====
-- internal/adapters/http/handlers/http_server_gen.go: how the generated server reads the parameters of
-- a request, and puts the layers around the handler. The parsers of parameters are those of
-- oapi-codegen's runtime; the routes themselves are chi's.
use svc_web_analyzer.Prelude.{
  ◌≡◌, ◌⊎◌, inl, inr, refl, ℕ, String, ◌<>◌, false, Bool-cases, Option, none, some, List, [], ◌∷◌,
  length, str_eq, if◌then◌else◌,
}
use svc_web_analyzer.Domain.{Result, ok, err, error_text}
use svc_web_analyzer.Domain.Errors.{decimal}
use svc_web_analyzer.Http.{Reply}
use svc_web_analyzer.Middleware.{Handler, HttpRequest, Middleware, http_error, layered}

-- ServerInterface, whose handlers read the headers that they need from the request
pub record ServerInterface : Type 0 where
  pub get_analysis : String → Handler
  pub get_analysis_events : String → Handler
  pub analyze_url : Handler
  pub health_check : Handler
  pub liveness_check : Handler
  pub readiness_check : Handler

pub data ParamError : Type 0 where
  too_many_values : String → ℕ → ParamError
  invalid_param_format : String → String → ParamError
  required_param : String → ParamError

abbrev pub param_error_text : ParamError → String
unfolding decimal
param_error_text (too_many_values name count) =
    "Expected one value for " <> name <> ", got " <> decimal count
param_error_text (invalid_param_format name text) =
    "Invalid format for parameter " <> name <> ": " <> text
param_error_text (required_param name) = "Query argument " <> name <> " is required, but not found"

-- ServerInterfaceWrapper, with the runtime's parsers
pub record ServerInterfaceWrapper : Type 0 where
  pub handler : ServerInterface
  pub handler_middlewares : List Middleware
  pub bind_uuid : String → Result String
  pub bind_version : String → Result String
  pub bind_token : String → Result String

-- the ErrorHandlerFunc that HandlerWithOptions sets where there is none
abbrev error_handler : ParamError → Reply
error_handler e = http_error (param_error_text e) 400

module _ (siw : ServerInterfaceWrapper) where
  abbrev bound_version : Result String → Option ParamError
  bound_version (ok v) = none
  bound_version (err e) = some (invalid_param_format "API-Version" (error_text e))

  -- the optional header API-Version
  abbrev version_error : Option (List String) → Option ParamError
  version_error none = none
  version_error (some (v ∷ [])) = bound_version (siw.bind_version v)
  version_error (some vs) = some (too_many_values "API-Version" (length vs))

  abbrev pub around : Handler → Handler
  around handler = layered siw.handler_middlewares handler

  abbrev unless_refused : Option ParamError → Handler → Handler
  unless_refused none handler r = around handler r
  unless_refused (some e) handler r = error_handler e

  abbrev with_id : (String → Handler) → Result String → Handler
  with_id handler (ok id) r = unless_refused (version_error r.api_versions) (handler id) r
  with_id handler (err e) r = error_handler (invalid_param_format "analysisId" (error_text e))

  unfoldable pub get_analysis : Handler
  get_analysis r = with_id siw.handler.get_analysis (siw.bind_uuid r.analysis_id) r

  abbrev with_query_token : String → Result String → Handler
  with_query_token id (ok token) r =
      unless_refused (version_error r.api_versions) (siw.handler.get_analysis_events id) r
  with_query_token id (err e) r = error_handler (invalid_param_format "token" (error_text e))

  abbrev events_with_id : Result String → Handler
  events_with_id (ok id) r =
      if str_eq r.token ""
      then error_handler (required_param "token")
      else with_query_token id (siw.bind_token r.token) r
  events_with_id (err e) r = error_handler (invalid_param_format "analysisId" (error_text e))

  unfoldable pub get_analysis_events : Handler
  get_analysis_events r = events_with_id (siw.bind_uuid r.analysis_id) r

  unfoldable pub analyze_url : Handler
  analyze_url r = unless_refused (version_error r.api_versions) siw.handler.analyze_url r

  unfoldable pub health_check : Handler
  health_check r = around siw.handler.health_check r

  unfoldable pub liveness_check : Handler
  liveness_check r = around siw.handler.liveness_check r

  unfoldable pub readiness_check : Handler
  readiness_check r = around siw.handler.readiness_check r

  -- the reply of a request that is refused for its parameters: 400 to the client, and nothing in a log
  abbrev pub IsRefused : Reply → Type 0
  IsRefused reply = (e : ParamError) × (reply ≡ error_handler e)

  unless_refused-cases :
      (e : Option ParamError) (handler : Handler) (r : HttpRequest)
      → (unless_refused e handler r ≡ around handler r) ⊎ IsRefused (unless_refused e handler r)
  unless_refused-cases none handler r = inl refl
  unless_refused-cases (some e) handler r = inr (e, refl)

  with_query_token-cases :
      (id : String) (token : Result String) (r : HttpRequest)
      → (with_query_token id token r ≡ around (siw.handler.get_analysis_events id) r)
        ⊎ IsRefused (with_query_token id token r)
  with_query_token-cases id (ok token) r = unless_refused-cases _ _ r
  with_query_token-cases id (err e) r = inr (_, refl)

  -- an accepted request has a token in its query
  abbrev IsLayered : HttpRequest → Reply → Type 0
  IsLayered r reply =
      (id : String) × (siw.bind_uuid r.analysis_id ≡ ok id)
      × (str_eq r.token "" ≡ false)
      × (reply ≡ around (siw.handler.get_analysis_events id) r)

  events_with_id-cases :
      (id : Result String) (r : HttpRequest)
      → siw.bind_uuid r.analysis_id ≡ id
      → IsLayered r (events_with_id id r) ⊎ IsRefused (events_with_id id r)
  events_with_id-cases (err e) r bound = inr (_, refl)
  events_with_id-cases (ok id) r bound = elim (Bool-cases (str_eq r.token "")) [
    | inl missing ↦ rw missing (inr (_, refl))
    | inr given ↦ rw given (elim (with_query_token-cases id (siw.bind_token r.token) r) [
      | inl same ↦ inl (id, bound, refl, same)
      | inr refused ↦ inr refused
    ])
  ]

  -- A request for events goes through the layers to the handler of its analysis only where its id can
  -- be read and its query has a token; any other, whatever token its headers carry, is
  -- answered by the parameter reader's own error, before any layer has seen it.
  get_analysis_events-IsLayered :
      (r : HttpRequest) → IsLayered r (get_analysis_events r) ⊎ IsRefused (get_analysis_events r)
  unfolding get_analysis_events
  get_analysis_events-IsLayered r = events_with_id-cases (siw.bind_uuid r.analysis_id) r refl
