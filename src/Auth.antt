-- ===== src/Auth.antt =====
-- internal/adapters/middleware/auth.go: which requests are let through. The PASETO parser, the key
-- service, JSON, base64 and package strings are parameters. A time before 1970 is left out.
pub mod Accepted
use svc_web_analyzer.Prelude.{
  ℕ, ◌-◌, String, ◌<>◌, Bool, true, false, ◌&&◌, Option, none, some, List, [], ◌∷◌, any, ltb,
  str_eq, if◌then◌else◌,
}
use svc_web_analyzer.Domain.{Result, ok, err, error_text, failure, message}

-- PasetoTokenClaims
pub record PasetoTokenClaims : Type 0 where
  pub issuer : String
  pub subject : String
  pub audience : String
  pub expires_at : ℕ
  pub issued_at : ℕ
  pub not_before : ℕ
  pub jti : String
  pub scopes : List String

-- a JSON value as this file tells them apart; of an array's elements only the texts are read
pub data Value : Type 0 where
  text : String → Value
  number : ℕ → Value
  array : List (Option String) → Value
  other : Value

pub record AuthConfig : Type 0 where
  pub enabled : Bool
  pub skip_paths : List String
  pub valid_issuers : List String

-- the middleware with what it calls; `now` is the Unix time at which a token is validated
pub record PasetoAuthMiddleware : Type 0 where
  pub config : AuthConfig
  pub public_key : Result String
  pub parse_v4_public : String → String → Result String
  pub unmarshal_raw : String → Option (String → Option Value)
  pub unmarshal_claims : String → Option PasetoTokenClaims
  pub decode_base64 : String → Option String
  pub parse_rfc3339 : String → Option ℕ
  pub has_prefix : String → String → Bool
  pub trim_prefix : String → String → String
  pub contains : String → String → Bool
  pub split_two : String → Option (String × String)
  pub to_lower : String → String
  pub byte_length : String → ℕ
  pub first_bytes : ℕ → String → String
  pub now : ℕ

-- the path, the two headers and the two query parameters that are read; an absent one is ""
pub record Request : Type 0 where
  pub path : String
  pub authorization : String
  pub paseto_token : String
  pub query_token : String
  pub query_access_token : String

-- a validation accepts, refuses with an error's text, or panics on a failed type assertion
pub data Verdict : Type 0 where
  accepted : PasetoTokenClaims → Verdict
  refused : String → Verdict
  panics : Verdict

-- what the middleware does with a request
pub data Response : Type 0 where
  served : Response
  unauthorized : String → String → Response
  panicked : Response

module _ (m : PasetoAuthMiddleware) where
  abbrev pub should_skip_auth : String → Bool
  should_skip_auth path = any (λ skip. m.has_prefix path skip) m.config.skip_paths

  abbrev pub is_valid_issuer : String → Bool
  is_valid_issuer issuer = any (λ valid. str_eq issuer valid) m.config.valid_issuers

  abbrev pub bearer_part : Option (String × String) → Option String
  bearer_part none = none
  bearer_part (some (scheme, token)) =
      if str_eq (m.to_lower scheme) "bearer" then some token else none

  abbrev pub bearer : String → Option String
  bearer header = if str_eq header "" then none else bearer_part (m.split_two header)

  abbrev pub query_token : Request → Option String
  query_token r =
      if m.contains r.path "/events"
      then (if str_eq r.query_token ""
          then (if str_eq r.query_access_token "" then none else some r.query_access_token)
          else some r.query_token)
      else none

  abbrev pub or_other : Request → Option String → Option String
  or_other r (some token) = some token
  or_other r none = if str_eq r.paseto_token "" then query_token r else some r.paseto_token

  abbrev pub extract_token : Request → Option String
  extract_token r = or_other r (bearer r.authorization)

  abbrev pub time_text : Option ℕ → Result ℕ
  time_text none = err (failure "parsing time")
  time_text (some t) = ok t

  abbrev pub parse_time_field : Option Value → Result ℕ
  parse_time_field none = ok 0
  parse_time_field (some (text s)) = time_text (m.parse_rfc3339 s)
  parse_time_field (some (number n)) = ok n
  parse_time_field (some (array vs)) = err (message "unsupported time format: []interface {}")
  parse_time_field (some other) = err (message "unsupported time format")

  abbrev pub texts : List (Option String) → List String
  texts [] = []
  texts (none ∷ vs) = texts vs
  texts (some s ∷ vs) = s ∷ texts vs

  abbrev pub scopes_of : Option Value → List String
  scopes_of (some (array vs)) = texts vs
  scopes_of _ = []

  -- the issuer, then the expiry, then the start
  abbrev pub check_claims : PasetoTokenClaims → Verdict
  check_claims c =
      if is_valid_issuer c.issuer
      then (if ltb 0 c.expires_at && ltb c.expires_at m.now
          then refused "token has expired"
          else if ltb m.now c.not_before
          then refused "token not yet valid"
          else accepted c)
      else refused ("invalid token issuer: " <> c.issuer)

  -- the three times, each after the one before it was read
  abbrev pub with_times : (ℕ → ℕ → ℕ → PasetoTokenClaims) → Result ℕ → Result ℕ → Result ℕ → Verdict
  with_times build (ok exp) (ok iat) (ok nbf) = check_claims (build exp iat nbf)
  with_times build (ok exp) (ok iat) (err e) =
      refused ("failed to parse not before time: " <> error_text e)
  with_times build (ok exp) (err e) nbf =
      refused ("failed to parse issued at time: " <> error_text e)
  with_times build (err e) iat nbf = refused ("failed to parse expiration time: " <> error_text e)

  -- four type assertions to string, each of which panics on anything else
  abbrev pub with_texts :
      (String → Option Value) → Option Value → Option Value → Option Value → Option Value → Verdict
  with_texts raw (some (text iss)) (some (text sub)) (some (text aud)) (some (text jti)) =
      with_times
        (λ exp iat nbf. record {
          issuer = iss;
          subject = sub;
          audience = aud;
          expires_at = exp;
          issued_at = iat;
          not_before = nbf;
          jti = jti;
          scopes = scopes_of (raw "scopes");
        })
        (parse_time_field (raw "exp")) (parse_time_field (raw "iat")) (parse_time_field (raw "nbf"))
  with_texts raw _ _ _ _ = panics

  abbrev pub read_claims : Option (String → Option Value) → Verdict
  read_claims none = refused "failed to unmarshal token claims: invalid JSON"
  read_claims (some raw) = with_texts raw (raw "iss") (raw "sub") (raw "aud") (raw "jti")

  abbrev pub or_refused : Verdict → Option PasetoTokenClaims → Verdict
  or_refused refusal none = refusal
  or_refused refusal (some c) = accepted c

  abbrev pub decoded : Verdict → Option String → Verdict
  decoded refusal none = refusal
  decoded refusal (some json) = or_refused refusal (m.unmarshal_claims json)

  -- a token whose signature is bad: its claims are taken anyway, if they can be read
  abbrev pub demo_claims : String → Verdict → Verdict
  demo_claims token refusal =
      let payload = m.trim_prefix token "v4.public." in
      if ltb 88 (m.byte_length payload)
      then decoded refusal (m.decode_base64 (m.first_bytes (m.byte_length payload - 88) payload))
      else refusal

  abbrev pub parsed : String → Result String → Verdict
  parsed token (ok json) = read_claims (m.unmarshal_raw json)
  parsed token (err e) =
      let refusal = refused ("failed to parse PASETO token: " <> error_text e) in
      if m.contains (error_text e) "bad signature" && m.has_prefix token "v4.public."
      then demo_claims token refusal
      else refusal

  abbrev pub with_key : String → Result String → Verdict
  with_key token (ok key) = parsed token (m.parse_v4_public key token)
  with_key token (err e) = refused ("failed to retrieve PASETO public key: " <> error_text e)

  unfoldable pub validate_token : String → Verdict
  validate_token token =
      if m.has_prefix token "v4.public."
      then with_key token m.public_key
      else refused "invalid token format: expected v4.public token"

  abbrev pub respond : Verdict → Response
  respond (accepted c) = served
  respond (refused why) = unauthorized "INVALID_TOKEN" why
  respond panics = panicked

  abbrev pub with_token : Option String → Response
  with_token none = unauthorized "MISSING_TOKEN" "Authentication token is required"
  with_token (some token) = respond (validate_token token)

  unfoldable pub middleware : Request → Response
  middleware r = if should_skip_auth r.path then served else with_token (extract_token r)
