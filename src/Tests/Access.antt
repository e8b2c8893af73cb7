-- ===== src/Tests/Access.antt =====
-- The authentication middleware.
use svc_web_analyzer.Prelude.{true, false, none, some, [], ◌∷◌, str_eq, if◌then◌else◌}
use svc_web_analyzer.Domain.{ok, err, failure}
use svc_web_analyzer.Auth.{PasetoAuthMiddleware, Request, number, text}

-- a key service with one key, a parser that reads one token, and a clock at 100
abbrev auth : PasetoAuthMiddleware
auth = record {
  config = record { enabled = true; skip_paths = "/health" ∷ []; valid_issuers = "me" ∷ [] };
  public_key = ok "key";
  parse_v4_public =
      λ key token. if str_eq token "v4.public.good" then ok "{}" else err (failure "bad signature");
  unmarshal_raw = λ json. some (λ field.
      if str_eq field "exp"
      then some (number 200)
      else if str_eq field "nbf"
      then none
      else if str_eq field "iat"
      then none
      else if str_eq field "scopes"
      then none
      else some (text "me"));
  unmarshal_claims = λ json. none;
  decode_base64 = λ s. none;
  parse_rfc3339 = λ s. none;
  has_prefix = λ s prefix. str_eq prefix "v4.public.";
  trim_prefix = λ s prefix. s;
  contains = λ s part. false;
  split_two = λ s. some ("Bearer", "v4.public.good");
  to_lower = λ s. if str_eq s "Bearer" then "bearer" else s;
  byte_length = λ s. 4;
  first_bytes = λ n s. s;
  now = 100;
}

abbrev request : Request
request = record {
  path = "/analyses";
  authorization = "Bearer v4.public.good";
  paseto_token = "";
  query_token = "";
  query_access_token = "";
}
